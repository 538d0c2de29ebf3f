-- ===== src/Chunk.antt =====
-- crates/linux-compat/src/chunk.rs: immutable files cut into content-addressed chunks, and the
-- store of verified chunks. `usize` is that of the browser build (wasm32), `u64` is 64 bits.
pub mod Layout
pub mod Range
pub mod Rounds
pub mod Store
mod Tests
use web_tos.Prelude.{
  ℕ, zero, suc, ◌+◌, ◌-◌, ◌*◌, ◌/◌, ◌%◌, ◌^◌, List, [], ◌∷◌, ◌++◌, min, Bool, true, false, ◌&&◌,
  ◌||◌, not, Option, none, some, if◌then◌else◌, ltb, leb, ◌==◌, is_empty, length, get_elem?, take,
  drop, Result, ok, err, Stop, panic, diverge, is_some,
}
use web_tos.Prelude.Bytes.{Bytes, bytes_eq}
use web_tos.Prelude.ByteMap.{ByteMap, get, insert}
use web_tos.Digest.{sha256}

abbrev pub Hash : Type 0
Hash = Bytes

-- A `Vec<u8>` with the room that it holds.
pub record ByteVec : Type 0 where
  pub items : Bytes
  pub capacity : ℕ

pub record ChunkedFile : Type 0 where
  pub size : ℕ
  pub chunk_size : ℕ
  pub chunks : List Hash

-- The messages of `ChunkedFile::new`, in the order of the code.
pub data LayoutError : Type 0 where
  empty_layout chunk_size_unaligned wrong_count : LayoutError

-- `u64::div_ceil`
abbrev pub div_ceil : ℕ → ℕ → ℕ
div_ceil a b = a / b + (if a % b == 0 then 0 else 1)

-- `ChunkedFile::new`
unfoldable pub new : ℕ → ℕ → List Hash → Result LayoutError ChunkedFile
new size chunk_size chunks =
    let file : ChunkedFile = record { size = size; chunk_size = chunk_size; chunks = chunks } in
    if size == 0
    then (if is_empty chunks && not (chunk_size == 0) && chunk_size % 4096 == 0
        then ok file
        else err empty_layout)
    else if chunk_size == 0 || not (chunk_size % 4096 == 0)
    then err chunk_size_unaligned
    else if div_ceil size chunk_size == length chunks
    then ok file
    else err wrong_count

pub record Chunk : Type 0 where
  pub index : ℕ
  pub hash : Hash
  pub start : ℕ
  pub end : ℕ

-- `chunk_at`; the division by a zero chunk size and `self.chunks[index]` panic.
unfoldable pub chunk_at : ChunkedFile → ℕ → Result Stop (Option Chunk)
chunk_at file offset =
    let index = offset / file.chunk_size % 2 ^ 32 in
    let start = index * file.chunk_size % 2 ^ 64 in
    if leb file.size offset
    then ok none
    else if file.chunk_size == 0
    then err panic
    else elim (get_elem? file.chunks index) [
      | none ↦ err panic
      | some hash ↦ ok (
          some (record {
            index = index;
            hash = hash;
            start = start;
            end = min ((start + file.chunk_size) % 2 ^ 64) file.size;
          }))
    ]

-- The message of `Invalid` names the chunk and the two lengths.
pub data ReadRange : Type 0 where
  ready : Bytes → ReadRange
  missing : Hash → ReadRange
  invalid : ℕ → ℕ → ℕ → ReadRange

abbrev pub ChunkStore : Type 0
ChunkStore = ByteMap ByteVec

pub data StoreError : Type 0 where
  digest_mismatch : StoreError

-- `ChunkStore::insert`: a chunk that is there is kept.
unfoldable pub store_insert : Hash → ByteVec → ChunkStore → Result StoreError ChunkStore
store_insert expected bytes store =
    if bytes_eq (sha256 bytes.items) expected
    then ok (elim (get expected store) [ none ↦ insert expected bytes store | some _ ↦ store ])
    else err digest_mismatch

abbrev pub contains : Hash → ChunkStore → Bool
contains hash store = is_some (get hash store)

-- `ChunkStore::first_missing`, over `file.chunks`
unfoldable pub first_missing : List Hash → ChunkStore → Option Hash
first_missing [] store = none
first_missing (hash ∷ hashes) store =
    if contains hash store then first_missing hashes store else some hash

-- `ChunkStore::bytes`
unfoldable pub store_bytes : ChunkStore → ℕ
store_bytes [] = 0
store_bytes ((hash, bytes) ∷ store) = bytes.capacity + store_bytes store

-- What one round of the loop of `read_range` does: end it, or go on with `taken` more bytes.
pub data Round : Type 0 where
  stop : ReadRange → Round
  more : ℕ → Bytes → Round

-- The body of that loop, at a cursor below `end`.
unfoldable pub read_round : ChunkStore → ChunkedFile → ℕ → ℕ → Result Stop Round
read_round store file end cursor = elim (chunk_at file cursor) [
  | err e ↦ err e
  | ok none ↦ err panic
  | ok (some c) ↦ elim (get c.hash store) [
    | none ↦ ok (stop (missing c.hash))
    | some chunk ↦
        let bytes = chunk.items in
        let expected = (c.end - c.start) % 2 ^ 32 in
        let in_chunk = (cursor - c.start) % 2 ^ 32 in
        let taken = min ((end - cursor) % 2 ^ 32) (length bytes - in_chunk) in
        if length bytes == expected
        then ok (more taken (take taken (drop in_chunk bytes)))
        else ok (stop (invalid c.index (length bytes) expected))
  ]
]

-- The loop of `read_range`. Each round reads from one chunk and the cursor grows, so fuel above
-- `end - cursor` is enough.
unfoldable pub read_loop : ℕ → ChunkStore → ChunkedFile → ℕ → ℕ → Bytes → Result Stop ReadRange
read_loop zero store file end cursor out = err diverge
read_loop (suc fuel) store file end cursor out = elim (ltb cursor end) [
  | false ↦ ok (ready out)
  | true ↦ elim (read_round store file end cursor) [
    | err e ↦ err e
    | ok (stop r) ↦ ok r
    | ok (more taken bytes) ↦ read_loop fuel store file end (cursor + taken) (out ++ bytes)
  ]
]

-- `offset.saturating_add(len as u64).min(file.size)`
abbrev pub range_end : ChunkedFile → ℕ → ℕ → ℕ
range_end file offset len = min (min (offset + len) (2 ^ 64 - 1)) file.size

-- `Vec::with_capacity` panics above `isize::MAX` bytes.
abbrev pub isize_max : ℕ
isize_max = 2 ^ 31 - 1

-- `ChunkStore::read_range`
unfoldable pub read_range : ChunkStore → ChunkedFile → ℕ → ℕ → Result Stop ReadRange
unfolding read_loop
read_range store file offset len =
    let end = range_end file offset len in
    if leb end offset
    then ok (ready [])
    else if ltb isize_max ((end - offset) % 2 ^ 32)
    then err panic
    else read_loop (end - offset + 1) store file end offset []
