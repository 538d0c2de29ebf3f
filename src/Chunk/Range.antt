-- ===== src/Chunk/Range.antt =====
-- `ChunkStore::read_range` (chunk.rs) against the bytes that a file and a store define one by one.
use native.Mathlib.Decide.{dec_lt}
use web_tos.Prelude.{
  ℕ, zero, suc, ◌+◌, ◌-◌, ◌*◌, ◌/◌, ◌%◌, ◌^◌, ◌≤◌, ◌<◌, ◌≡◌, ◌≢◌, ◌⊎◌, refl, subst, [], ◌++◌, min,
  arith, true, false, Bool-cases, inl, inr, none, some, ltb, leb, length, get_elem?, take, drop,
  length-append, length-take, length-drop, Result, ok, err, Stop, panic,
}
use web_tos.Prelude.Bytes.{Bytes}
use web_tos.Prelude.ByteMap.{get}
use web_tos.Chunk.{
  ChunkedFile, ByteVec, ChunkStore, Hash, ReadRange, ready, missing, invalid, read_round, read_loop,
  read_range, range_end, isize_max,
}
use web_tos.Chunk.Layout.{IsValid, start-le, end-gt}
use web_tos.Chunk.Rounds.{
  Holds, same_chunk, Holds-slice, inside, first, step, Outcome, round-Outcome, loop_done, loop_stop,
  loop_more,
}

-- The bytes that a layout has for its chunk `i`.
abbrev pub place_length : ChunkedFile → ℕ → ℕ
place_length file i = min (i * file.chunk_size + file.chunk_size) file.size - i * file.chunk_size

-- The chunk `i` of a file is in the store, at the length of its place.
abbrev pub Resident : ChunkStore → ChunkedFile → ℕ → Type 0
Resident store file i =
    (hash : Hash) × (chunk : ByteVec) × (get_elem? file.chunks i ≡ some hash)
    × (get hash store ≡ some chunk)
    × (length chunk.items ≡ place_length file i)

-- A byte of the range, before which every byte of the range lies in a resident chunk.
abbrev pub Reached : ChunkStore → ChunkedFile → ℕ → ℕ → ℕ → Type 0
Reached store file offset end at =
    (offset ≤ at)
    × (at < end)
    × ((b : ℕ) → offset ≤ b → b < at → Resident store file (b / file.chunk_size))

-- What a finished read of `offset .. end` may be: the bytes of the file there, or the chunk of the
-- first byte that cannot be read, which is absent or has not the length of its place.
pub data Answer (store : ChunkStore) (file : ChunkedFile) (offset end : ℕ) (r : ReadRange)
    : Type 0 where
  bytes :
      (out : Bytes)
      → r ≡ ready out
      → offset + length out ≡ end
      → Holds store file offset out
      → Answer store file offset end r
  absent :
      (hash : Hash) (at : ℕ)
      → r ≡ missing hash
      → Reached store file offset end at
      → get_elem? file.chunks (at / file.chunk_size) ≡ some hash
      → get hash store ≡ none
      → Answer store file offset end r
  misfit :
      (hash : Hash) (chunk : ByteVec) (at : ℕ)
      → r
        ≡ invalid
            (at / file.chunk_size)
            (length chunk.items)
            (place_length file (at / file.chunk_size))
      → Reached store file offset end at
      → get_elem? file.chunks (at / file.chunk_size) ≡ some hash
      → get hash store ≡ some chunk
      → length chunk.items ≢ place_length file (at / file.chunk_size)
      → Answer store file offset end r

module _ (store : ChunkStore) (file : ChunkedFile) (v : IsValid file) (end offset : ℕ)
    (in_file : end ≤ file.size) (narrow : end < offset + 2 ^ 32) where
  abbrev Answered : Result Stop ReadRange → Type 0
  Answered o = (r : ReadRange) × (o ≡ ok r) × Answer store file offset end r

  -- The chunks of the bytes before the cursor are resident.
  abbrev Seen : ℕ → Type 0
  Seen cursor = (b : ℕ) → offset ≤ b → b < cursor → Resident store file (b / file.chunk_size)

  Seen-step :
      (cursor next : ℕ) (inside : cursor < file.size)
      → next ≤ cursor / file.chunk_size * file.chunk_size + file.chunk_size
      → Resident store file (cursor / file.chunk_size)
      → Seen cursor
      → Seen next
  Seen-step cursor next inside near here seen b lo hi = elim (dec_lt b cursor) [
    | yes before ↦ seen b lo before
    | no behind ↦
        let start = start-le file cursor v inside in
        rw (same_chunk store file cursor v inside b (omega arith) (omega arith)) here
  ]

  loop_answers :
      (fuel cursor : ℕ) (out : Bytes)
      → end < fuel + cursor
      → cursor ≤ end
      → offset + length out ≡ cursor
      → Holds store file offset out
      → Seen cursor
      → Answered (read_loop fuel store file end cursor out)
  loop_answers zero cursor out enough le at holds seen = absurd (omega arith)
  loop_answers (suc fuel) cursor out enough le at holds seen = elim (dec_lt cursor end) [
    | no done ↦ (
      ready out,
      loop_done store file end fuel cursor out (omega arith),
      bytes out refl (omega arith) holds,
    )
    | yes below ↦
        go below (round-Outcome store file end cursor v in_file below)
          (λ taken slice. loop_answers fuel (cursor + taken) (out ++ slice))
  ]
    where
      go :
          (below : cursor < end)
          → Outcome store file end cursor v in_file below (read_round store file end cursor)
          → ((taken : ℕ) (slice : Bytes)
              → end < fuel + (cursor + taken)
              → cursor + taken ≤ end
              → offset + length (out ++ slice) ≡ cursor + taken
              → Holds store file offset (out ++ slice)
              → Seen (cursor + taken)
              → Answered (read_loop fuel store file end (cursor + taken) (out ++ slice)))
          → Answered (read_loop (suc fuel) store file end cursor out)
      go below (Outcome.absent hash none_here found e) ih = (
        missing hash,
        loop_stop store file end fuel cursor out (missing hash) below e,
        absent hash cursor refl (omega arith, below, seen) found none_here,
      )
      go below (Outcome.misfit hash chunk present found differ e) ih = (
        _,
        loop_stop store file end fuel cursor out _ below e,
        misfit hash chunk cursor refl (omega arith, below, seen) found present differ,
      )
      go below (Outcome.fits hash chunk present found same e) ih =
          let lo = start-le file cursor v (inside store file end cursor v in_file below) in
          let hi = end-gt file cursor v (inside store file end cursor v in_file below) in
          let in_chunk = cursor - first store file end cursor v in_file below in
          let taken = step store file end cursor v in_file below chunk in
          let size : length (take taken (drop in_chunk chunk.items)) ≡ taken = omega (
            arith,
            length-take taken (drop in_chunk chunk.items),
            length-drop in_chunk chunk.items,
          ) in
          rw (loop_more store file end fuel cursor _ out _ below e) (
            ih _ _ (omega arith) (omega arith)
              (omega (arith, size, length-append out (take taken (drop in_chunk chunk.items))))
              (Holds-slice store file cursor v (inside store file end cursor v in_file below) hash
                chunk offset taken out found present at (omega arith) (omega arith) holds)
              (Seen-step cursor (cursor + taken) (inside store file end cursor v in_file below)
                (omega arith) (hash, chunk, found, present, same) seen))

-- What a read of `n` bytes does, `n` cut at the end of the file.
abbrev pub Read : ChunkStore → ChunkedFile → ℕ → ℕ → Result Stop ReadRange → Type 0
Read store file offset n o =
    (isize_max < n) × (o ≡ err panic)
    ⊎ (n ≤ isize_max) × ((r : ReadRange) × (o ≡ ok r) × Answer store file offset (offset + n) r)

-- Whatever a store holds, a read of a `usize` length from a valid file of a `u64` size panics exactly
-- where it would allocate more than `isize::MAX` bytes, and else it ends. Then it gives the bytes of the file from `offset` on, as
-- many as there are up to `len` (none past the end), or it stops at the first byte that cannot be
-- read: the chunk of that byte is not in the store, and its hash is given, or it has not the length
-- that the layout has for its place, and its number and both lengths are given.
pub read_range_lem :
    (store : ChunkStore) (file : ChunkedFile) (offset len : ℕ)
    → IsValid file
    → file.size < 2 ^ 64
    → len < 2 ^ 32
    → Read store file offset (min len (file.size - offset)) (read_range store file offset len)
unfolding read_range
read_range_lem store file offset len v size narrow =
    let end = range_end file offset len in
    elim (dec_lt offset end) [
      | no empty ↦
          let e : leb end offset ≡ true = ground arith in
          inr (omega arith, (ready [], rw e refl, bytes [] refl (omega arith) (λ j h. elim h [ ])))
      | yes some_left ↦
          let e : leb end offset ≡ false = ground arith in
          let same : end ≡ offset + min len (file.size - offset) = omega arith in
          elim (Bool-cases (ltb isize_max ((end - offset) % 2 ^ 32))) [
            | inl large ↦ inl (ground (arith, large), rw (e, large) refl)
            | inr small ↦
                let (r, runs, answer) =
                  loop_answers store file v end offset (omega arith) (omega arith)
                    (end - offset + 1) offset [] (omega arith) (omega arith) (omega arith)
                    (λ j h. elim h [ ]) (λ b lo hi. absurd (omega arith)) in
                inr (
                  ground (arith, small),
                  (r, rw (e, small) runs, subst (λ k. Answer store file offset k r) same answer),
                )
          ]
    ]
