-- ===== src/Chunk/Rounds.antt =====
-- The rounds of the loop of `read_range` (chunk.rs), each against the bytes that a file and a store
-- define one by one.
use native.Mathlib.Nat.{div-eq_of_lt-le}
use native.Mathlib.Decide.{dec_lt}
use web_tos.Prelude.{
  ℕ, suc, ◌+◌, ◌-◌, ◌*◌, ◌/◌, ◌%◌, ◌^◌, ◌≤◌, ◌<◌, ◌≡◌, ◌≢◌, refl, ◌∙◌, ◌++◌, min, arith, true,
  false, Bool-cases, Option-cases, inl, inr, Option, none, some, ltb, ◌==◌, length, get_elem?, take,
  drop, length-append, length-take, length-drop, get_elem?-append, get_elem?-take, get_elem?-drop,
  lt→ltb, sym, Result, ok, Stop,
}
use web_tos.Prelude.Bytes.{Bytes}
use web_tos.Prelude.ByteMap.{get}
use web_tos.Chunk.{
  ChunkedFile, ByteVec, ChunkStore, Hash, ReadRange, ready, missing, invalid, Round, stop, more,
  read_round, read_loop,
}
use web_tos.Chunk.Layout.{IsValid, chunk_at_lem, number, start-le, end-gt}

-- The byte of `file` at `i`, if its chunk is resident: the specification.
abbrev chunk_byte : ChunkStore → ChunkedFile → ℕ → Option Hash → Option ℕ
chunk_byte store file i none = none
chunk_byte store file i (some hash) = elim (get hash store) [
  | none ↦ none
  | some chunk ↦ get_elem? chunk.items (i - i / file.chunk_size * file.chunk_size)
]

unfoldable pub byte_at : ChunkStore → ChunkedFile → ℕ → Option ℕ
byte_at store file i = chunk_byte store file i (get_elem? file.chunks (i / file.chunk_size))

-- `out` holds the bytes of the file from `offset` on.
abbrev pub Holds : ChunkStore → ChunkedFile → ℕ → Bytes → Type 0
Holds store file offset out =
    (j : ℕ) → j < length out → get_elem? out j ≡ byte_at store file (offset + j)

-- A chunk that is resident at its full length, seen from a cursor inside a valid file.
module _ (store : ChunkStore) (file : ChunkedFile) (cursor : ℕ) (v : IsValid file)
    (inside : cursor < file.size) where
  abbrev pub start : ℕ
  start = number file cursor v inside * file.chunk_size

  abbrev pub end_of : ℕ
  end_of = min (start + file.chunk_size) file.size

  pub same_chunk :
      (i : ℕ)
      → start ≤ i
      → i < start + file.chunk_size
      → i / file.chunk_size ≡ number file cursor v inside
  same_chunk i lo hi = div-eq_of_lt-le file.chunk_size lo (grind arith)

  byte_in_chunk :
      (hash : Hash) (chunk : ByteVec) (i : ℕ)
      → get_elem? file.chunks (number file cursor v inside) ≡ some hash
      → get hash store ≡ some chunk
      → start ≤ i
      → i < start + file.chunk_size
      → byte_at store file i ≡ get_elem? chunk.items (i - start)
  unfolding byte_at
  byte_in_chunk hash chunk i found present lo hi =
      rw (same_chunk i lo hi, found, chunk_byte, present, same_chunk i lo hi) refl

  -- The slice that one round appends continues what `out` holds.
  pub Holds-slice :
      (hash : Hash) (chunk : ByteVec) (offset taken : ℕ) (out : Bytes)
      → get_elem? file.chunks (number file cursor v inside) ≡ some hash
      → get hash store ≡ some chunk
      → offset + length out ≡ cursor
      → taken ≤ length chunk.items - (cursor - start)
      → length chunk.items ≤ file.chunk_size
      → Holds store file offset out
      → Holds store file offset (out ++ take taken (drop (cursor - start) chunk.items))
  Holds-slice hash chunk offset taken out found present at room short holds j h =
      let slice = take taken (drop (cursor - start) chunk.items) in
      let below = start-le file cursor v inside in
      let size : j < length out + min taken (length chunk.items - (cursor - start)) = omega (
        arith,
        length-append out slice,
        length-take taken (drop (cursor - start) chunk.items),
        length-drop (cursor - start) chunk.items,
      ) in
      elim (dec_lt j (length out)) [
        | yes before ↦
            get_elem?-append out slice j ∙ rw (lt→ltb j (length out) before) (holds j before)
        | no behind ↦
            let back : ltb j (length out) ≡ false = ground arith in
            let near : j - length out < taken = omega (arith, size) in
            get_elem?-append out slice j
            ∙ rw back (
                get_elem?-take taken (drop (cursor - start) chunk.items) (j - length out) near
                ∙ (get_elem?-drop (cursor - start) chunk.items (j - length out) (offset + j - start)
                      (omega arith)
                    ∙ sym (
                        byte_in_chunk hash chunk (offset + j) found present (omega arith)
                          (omega (arith, length-drop (cursor - start) chunk.items)))))
      ]

-- The rounds of the loop at a cursor below `end`: the three ends that `read_round` has.
module _ (store : ChunkStore) (file : ChunkedFile) (end cursor : ℕ) (v : IsValid file)
    (in_file : end ≤ file.size) (below : cursor < end) where
  abbrev pub inside : cursor < file.size
  inside = omega arith

  abbrev pub first : ℕ
  first = start store file cursor v inside

  abbrev pub last : ℕ
  last = end_of store file cursor v inside

  abbrev pub step : ByteVec → ℕ
  step chunk = min ((end - cursor) % 2 ^ 32) (length chunk.items - (cursor - first))

  pub data Outcome (r : Result Stop Round) : Type 0 where
    absent :
        (hash : Hash)
        → get hash store ≡ none
        → get_elem? file.chunks (number file cursor v inside) ≡ some hash
        → r ≡ ok (stop (missing hash))
        → Outcome r
    misfit :
        (hash : Hash) (chunk : ByteVec)
        → get hash store ≡ some chunk
        → get_elem? file.chunks (number file cursor v inside) ≡ some hash
        → length chunk.items ≢ last - first
        → r ≡ ok (stop (invalid (number file cursor v inside) (length chunk.items) (last - first)))
        → Outcome r
    fits :
        (hash : Hash) (chunk : ByteVec)
        → get hash store ≡ some chunk
        → get_elem? file.chunks (number file cursor v inside) ≡ some hash
        → length chunk.items ≡ last - first
        → r ≡ ok (more (step chunk) (take (step chunk) (drop (cursor - first) chunk.items)))
        → Outcome r

  pub round-Outcome : Outcome (read_round store file end cursor)
  unfolding read_round
  round-Outcome =
      let (hash, found, here) = chunk_at_lem file cursor v inside in
      let lo = start-le file cursor v inside in
      let hi = end-gt file cursor v inside in
      let expected : (last - first) % 2 ^ 32 ≡ last - first = omega (arith, v.chunk_size_in) in
      let at : (cursor - first) % 2 ^ 32 ≡ cursor - first = omega (arith, v.chunk_size_in) in
      elim (Option-cases (get hash store)) [
        | inl none_here ↦ absent hash none_here found (rw (here, read_round, none_here) refl)
        | inr (chunk, present) ↦ elim (Bool-cases (length chunk.items == last - first)) [
          | inl same ↦
              fits hash chunk present found (ground arith)
                (rw (here, read_round, present, expected, same, at) refl)
          | inr differ ↦
              misfit hash chunk present found (ground arith)
                (rw (here, read_round, present, expected, differ) refl)
        ]
      ]

module _ (store : ChunkStore) (file : ChunkedFile) (end : ℕ) where
  pub loop_done :
      (fuel cursor : ℕ) (out : Bytes)
      → end ≤ cursor
      → read_loop (suc fuel) store file end cursor out ≡ ok (ready out)
  unfolding read_loop
  loop_done fuel cursor out h =
      let e : ltb cursor end ≡ false = ground arith in rw (e, read_loop) refl

  pub loop_stop :
      (fuel cursor : ℕ) (out : Bytes) (r : ReadRange)
      → cursor < end
      → read_round store file end cursor ≡ ok (stop r)
      → read_loop (suc fuel) store file end cursor out ≡ ok r
  unfolding read_loop
  loop_stop fuel cursor out r h s =
      let e : ltb cursor end ≡ true = ground arith in rw (e, read_loop, s) refl

  pub loop_more :
      (fuel cursor taken : ℕ) (out bytes : Bytes)
      → cursor < end
      → read_round store file end cursor ≡ ok (more taken bytes)
      → read_loop (suc fuel) store file end cursor out
        ≡ read_loop fuel store file end (cursor + taken) (out ++ bytes)
  unfolding read_loop
  loop_more fuel cursor taken out bytes h s =
      let e : ltb cursor end ≡ true = ground arith in rw (e, read_loop, s) refl
