-- ===== src/Pager/Resolve/Painted.antt =====
-- The bytes that `resolve` (pager.rs) puts in a page, against the bytes that its mappings define
-- one by one.
use native.Mathlib.Decide.{dec_lt}
use web_tos.Prelude.{
  ℕ, zero, suc, ◌+◌, ◌-◌, ◌%◌, ◌^◌, ◌≤◌, ◌<◌, ◌≡◌, ◌≢◌, ◌/◌, refl, sym, subst, ◌∙◌, min, max, List,
  [], ◌∷◌, ◌++◌, true, false, ◌&&◌, Bool-cases, Option, none, some, inl, inr, arith, if◌then◌else◌,
  ltb, leb, ◌==◌, length, get_elem?, take, drop, replicate, length-append, length-take, length-drop,
  length-replicate, get_elem?-append, get_elem?-take, get_elem?-drop, Result, ok, Stop,
}
use web_tos.Prelude.Bytes.{Bytes}
use web_tos.Prelude.ByteMap.{get}
use web_tos.Digest.{copy_at}
use web_tos.Chunk.{ChunkStore, ReadRange, Hash, ByteVec}
use web_tos.Chunk.Layout as Layout
use web_tos.Chunk.Range.{read_range_lem, Answer, place_length}
use web_tos.Chunk.Rounds.{byte_at}
use web_tos.Pager.Mapping.{FileMapping, page_size, data_end}
use web_tos.Pager.Mapping.Clip.{IsValid}
use web_tos.Pager.Resolve.{
  Scan, filled, lacks, broken, bad_chunk, cleared, placed, paint, full_page,
}

pub length-copy_at :
    (buf : Bytes) (at : ℕ) (src : Bytes)
    → at + length src ≤ length buf
    → length (copy_at buf at src) ≡ length buf
length-copy_at buf at src h = omega (
  arith,
  length-append (take at buf) (src ++ drop (at + length src) buf),
  length-append src (drop (at + length src) buf),
  length-take at buf,
  length-drop (at + length src) buf,
)

pub get_elem?-copy_at :
    (buf : Bytes) (at : ℕ) (src : Bytes) (j : ℕ)
    → at + length src ≤ length buf
    → get_elem? (copy_at buf at src) j
      ≡ (if leb at j && ltb j (at + length src) then get_elem? src (j - at) else get_elem? buf j)
get_elem?-copy_at buf at src j h =
    let size : length (take at buf) ≡ at = omega (arith, length-take at buf) in
    let outer = get_elem?-append (take at buf) (src ++ drop (at + length src) buf) j in
    elim (dec_lt j at) [
      | yes before ↦
          let c : ltb j (length (take at buf)) ≡ true = ground (arith, size) in
          let d : (leb at j && ltb j (at + length src)) ≡ false = ground arith in
          outer ∙ rw (c, d) (get_elem?-take at buf j before)
      | no behind ↦
          let c : ltb j (length (take at buf)) ≡ false = ground (arith, size) in
          let inner = get_elem?-append src (drop (at + length src) buf) (j - at) in
          outer
          ∙ rw (c, size)
              (inner ∙ elim (dec_lt j (at + length src)) [
                | yes inside ↦
                    let d : ltb (j - at) (length src) ≡ true = ground arith in
                    let e : (leb at j && ltb j (at + length src)) ≡ true = ground arith in
                    rw (d, e) refl
                | no past ↦
                    let d : ltb (j - at) (length src) ≡ false = ground arith in
                    let e : (leb at j && ltb j (at + length src)) ≡ false = ground arith in
                    rw (d, e)
                      (get_elem?-drop (at + length src) buf (j - at - length src) j (omega arith))
              ])
    ]

-- The byte of a page at `j` after one more mapping: from its file, zero after its data, else as
-- before.
abbrev pub laid : ChunkStore → ℕ → FileMapping → ℕ → Option ℕ → Option ℕ
laid chunks page m j before =
    if leb m.data_start (page + j) && ltb (page + j) (m.data_start + m.file_len)
    then byte_at chunks m.file (m.file_offset + (page + j - m.data_start))
    else if leb (m.data_start + m.file_len) (page + j) && ltb (page + j) m.end
    then some 0
    else before

-- The byte of a page at `j`, of the mappings in the order they were made: the specification.
unfoldable pub byte_of_page : ChunkStore → ℕ → List FileMapping → ℕ → Option ℕ → Option ℕ
byte_of_page chunks page [] j before = before
byte_of_page chunks page (m ∷ mappings) j before =
    byte_of_page chunks page mappings j (laid chunks page m j before)

get_elem?-replicate : (n j x : ℕ) → j < n → get_elem? (replicate n x) j ≡ some x
get_elem?-replicate zero j x h = absurd (omega arith)
get_elem?-replicate (suc n) zero x h = refl
get_elem?-replicate (suc n) (suc j) x h = get_elem?-replicate n j x (omega arith)

pub length-full_page : (x : ℕ) → length (full_page x) ≡ page_size
unfolding full_page
length-full_page x = length-replicate page_size x

pub get_elem?-full_page : (x j : ℕ) → j < page_size → get_elem? (full_page x) j ≡ some x
unfolding full_page
get_elem?-full_page x j h = get_elem?-replicate page_size j x h

-- The byte `at` of the mapping's file is shown in the page.
abbrev pub Shows : ℕ → FileMapping → ℕ → Type 0
Shows page m at =
    (j : ℕ) × (j < page_size)
    × (m.data_start ≤ page + j)
    × (page + j < m.data_start + m.file_len)
    × (at ≡ m.file_offset + (page + j - m.data_start))

-- The page shows a byte of a chunk of the mapping's file, and that chunk is not in the store.
abbrev pub Lacks : ChunkStore → ℕ → Hash → FileMapping → Type 0
Lacks chunks page hash m =
    (at : ℕ) × Shows page m at
    × (get_elem? m.file.chunks (at / m.file.chunk_size) ≡ some hash)
    × (get hash chunks ≡ none)

-- The page shows a byte of the chunk `i` of the mapping's file, and the store has that chunk with
-- `n` bytes in place of the `k` of the layout.
abbrev pub Spoils : ChunkStore → ℕ → ℕ → ℕ → ℕ → FileMapping → Type 0
Spoils chunks page i n k m =
    (at : ℕ) × Shows page m at
    × (i ≡ at / m.file.chunk_size)
    × ((hash : Hash) × (chunk : ByteVec) × (get_elem? m.file.chunks i ≡ some hash)
        × (get hash chunks ≡ some chunk)
        × (n ≡ length chunk.items))
    × (k ≡ place_length m.file i)
    × (n ≢ k)

-- A mapping of the page, and its file.
pub record Fits (page : ℕ) (m : FileMapping) : Type 0 where
  pub valid : IsValid m
  pub from : m.start ≤ page
  pub to : page < m.end
  pub layout : Layout.IsValid m.file

module _ (chunks : ChunkStore) (page : ℕ) (m : FileMapping) (bytes : Bytes) (f : Fits page m)
    (low : page + page_size < 2 ^ 64) (size : length bytes ≡ page_size) where
  abbrev zero_start : ℕ
  zero_start = max (data_end m) page

  abbrev zero_end : ℕ
  zero_end = min m.end ((page + page_size) % 2 ^ 64)

  data_end_same : data_end m ≡ m.data_start + m.file_len
  data_end_same = omega (arith, f.valid.data_to, f.valid.words)

  zeros_fit : zero_start < zero_end → zero_start - page + (zero_end - zero_start) ≤ page_size
  zeros_fit h = omega (arith, low, h)

  abbrev zeros : Bytes
  zeros = replicate (zero_end - zero_start) 0

  length-zeros : length zeros ≡ zero_end - zero_start
  length-zeros = length-replicate (zero_end - zero_start) 0

  -- Zero after the data, and as before elsewhere.
  abbrev zeroed : ℕ → Option ℕ
  zeroed j =
      if leb (m.data_start + m.file_len) (page + j) && ltb (page + j) m.end
      then some 0
      else get_elem? bytes j

  length-cleared : length (cleared m page bytes) ≡ page_size
  unfolding cleared
  length-cleared = elim (Bool-cases (ltb zero_start zero_end)) [
    | inr kept ↦ rw kept size
    | inl wipes ↦
        let h : zero_start < zero_end = ground arith in
        rw wipes (
          length-copy_at bytes (zero_start - page) zeros
            (omega (arith, length-zeros, zeros_fit h, size))
          ∙ size)
  ]

  get_elem?-cleared : (j : ℕ) → j < page_size → get_elem? (cleared m page bytes) j ≡ zeroed j
  unfolding cleared
  get_elem?-cleared j h = elim (Bool-cases (ltb zero_start zero_end)) [
    | inr kept ↦
        let off : (leb (m.data_start + m.file_len) (page + j) && ltb (page + j) m.end) ≡ false =
          ground (arith, data_end_same, low, kept) in
        rw (kept, off) refl
    | inl wipes ↦
        let w : zero_start < zero_end = ground arith in
        let at = zero_start - page in
        let n = zero_end - zero_start in
        let copied =
          get_elem?-copy_at bytes at zeros j (omega (arith, length-zeros, zeros_fit w, size)) in
        rw wipes (
          copied ∙ elim (Bool-cases (leb at j && ltb j (at + length zeros))) [
            | inl in_zeros ↦
                let k : j - at < n = ground (arith, in_zeros, length-zeros) in
                let on : (leb (m.data_start + m.file_len) (page + j) && ltb (page + j) m.end)
                    ≡ true =
                  ground (arith, data_end_same, low, in_zeros, length-zeros) in
                rw (in_zeros, on) (get_elem?-replicate n (j - at) 0 k)
            | inr elsewhere ↦
                let off : (leb (m.data_start + m.file_len) (page + j) && ltb (page + j) m.end)
                    ≡ false =
                  ground (arith, data_end_same, low, elsewhere, length-zeros, h) in
                rw (elsewhere, off) refl
          ])
  ]

  pub data Painted (r : Result Stop Scan) : Type 0 where
    done :
        (out : Bytes)
        → r ≡ ok (filled out m.final_perm)
        → length out ≡ page_size
        → ((j : ℕ) → j < page_size → get_elem? out j ≡ laid chunks page m j (get_elem? bytes j))
        → Painted r
    absent : (hash : Hash) → r ≡ ok (lacks hash) → Lacks chunks page hash m → Painted r
    misfit :
        (i n k : ℕ) → r ≡ ok (broken (bad_chunk i n k)) → Spoils chunks page i n k m → Painted r

  abbrev copy_start : ℕ
  copy_start = max page m.data_start

  abbrev copy_end : ℕ
  copy_end = min ((page + page_size) % 2 ^ 64) (data_end m)

  abbrev offset : ℕ
  offset = (m.file_offset + (copy_start - m.data_start)) % 2 ^ 64

  -- The data of the mapping in the page, by the bounds of the copy.
  in_data :
      (j : ℕ)
      → j < page_size
      → (leb m.data_start (page + j) && ltb (page + j) (m.data_start + m.file_len))
        ≡ (leb (copy_start - page) j && ltb j (copy_start - page + (copy_end - copy_start)))
  in_data j h = ground (arith, data_end_same, low, h)

  -- A byte of the file that the copy covers is shown in the page.
  shown_at :
      (at len : ℕ)
      → copy_start < copy_end
      → len ≡ copy_end - copy_start
      → offset ≡ m.file_offset + (copy_start - m.data_start)
      → offset ≤ at
      → at < offset + len
      → Shows page m at
  shown_at at len h l o lo hi = (
    at - offset + (copy_start - page),
    omega (arith, low, h, l, hi),
    omega arith,
    omega (arith, data_end_same, h, l, hi),
    omega (arith, o, lo),
  )

  placed_lem :
      (len : ℕ) (r : ReadRange)
      → copy_start < copy_end
      → len ≡ copy_end - copy_start
      → offset ≡ m.file_offset + (copy_start - m.data_start)
      → Answer chunks m.file offset (offset + len) r
      → Painted (placed m.final_perm (cleared m page bytes) (copy_start - page) len (ok r))
  placed_lem len r h l o (Answer.absent hash at e reached named gone) =
      rw e (absent hash refl (at, shown_at at len h l o reached.0 reached.1, named, gone))
  placed_lem len r h l o (Answer.misfit hash chunk at e reached named present differ) = rw e (
      misfit _ _ _ refl (
        at,
        shown_at at len h l o reached.0 reached.1,
        refl,
        (hash, chunk, named, present, refl),
        refl,
        differ,
      ))
  placed_lem len r h l o (Answer.bytes part e stops holds) =
      let full : length part ≡ len = omega (arith, stops) in
      let same : (length part == len) ≡ true = ground (arith, full) in
      let room : copy_start - page + length part ≤ length (cleared m page bytes) =
        omega (arith, length-cleared, full, l, low) in
      let buf = cleared m page bytes in
      rw (e, same)
        (done (copy_at buf (copy_start - page) part) refl
          (length-copy_at buf (copy_start - page) part room ∙ length-cleared)
          (λ j k.
            get_elem?-copy_at buf (copy_start - page) part j room
            ∙ rw (full, l, sym (in_data j k)) (at_place j k)))
    where
      at_place :
          (j : ℕ)
          → j < page_size
          → (if leb m.data_start (page + j) && ltb (page + j) (m.data_start + m.file_len)
              then get_elem? part (j - (copy_start - page))
              else get_elem? (cleared m page bytes) j)
            ≡ laid chunks page m j (get_elem? bytes j)
      at_place j k =
          let full : length part ≡ len = omega (arith, stops) in
          elim (Bool-cases
            (leb m.data_start (page + j) && ltb (page + j) (m.data_start + m.file_len))) [
              | inl inside ↦
                  let i = j - (copy_start - page) in
                  let spot : offset + i ≡ m.file_offset + (page + j - m.data_start) =
                    ground (arith, o, inside) in
                  let short : i < length part = ground (arith, full, l, inside, in_data j k, h) in
                  rw inside (holds i short ∙ rw spot refl)
              | inr outside ↦ rw outside (get_elem?-cleared j k)
            ]

  pub paint_lem : m.file.size < 2 ^ 64 → Painted (paint chunks page m bytes)
  unfolding paint
  paint_lem small = elim (Bool-cases (leb copy_end copy_start)) [
    | inl nothing ↦ rw nothing (
        done (cleared m page bytes) refl length-cleared (λ j k.
          let off : (leb m.data_start (page + j) && ltb (page + j) (m.data_start + m.file_len))
              ≡ false =
            in_data j k ∙ ground (arith, nothing) in
          rw off (get_elem?-cleared j k)))
    | inr some_data ↦
        let h : copy_start < copy_end = ground (arith, some_data) in
        let len = (copy_end - copy_start) % 2 ^ 32 in
        let l : len ≡ copy_end - copy_start = omega (arith, low, h) in
        let held = f.valid.in_file (omega (arith, h, data_end_same)) in
        let o : offset ≡ m.file_offset + (copy_start - m.data_start) =
          omega (arith, small, held, h, data_end_same) in
        let stops : offset + min len (m.file.size - offset) ≡ offset + len =
          omega (arith, l, o, held, h, data_end_same) in
        elim (read_range_lem chunks m.file offset len f.layout small (omega (arith, l, low))) [
          | inl (large, panics) ↦ absurd (omega (arith, l, low, large))
          | inr (fits, (r, runs, answer)) ↦
              rw (some_data, runs)
                (placed_lem len r h l o (subst (λ k. Answer chunks m.file offset k r) stops answer))
        ]
  ]
