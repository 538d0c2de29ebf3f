-- ===== src/Chunk/Tests.antt =====
-- The theorems about chunk.rs at concrete inputs: a file of two chunks, the second one absent.
use web_tos.Prelude.{
  ◌-◌, ◌≡◌, ◌⊎◌, refl, List, [], ◌∷◌, ◌++◌, true, some, none, min, all, ok, arith,
}
use web_tos.Prelude.Bytes.{compare_bytes}
use web_tos.Prelude.ByteMap.{get, insert}
use web_tos.Digest.{sha256, compress}
use web_tos.Chunk.{
  ByteVec, ChunkedFile, ChunkStore, Hash, ready, missing, new, chunk_at, read_range, read_round,
  contains, first_missing, store_insert,
}
use web_tos.Chunk.Layout.{IsValid, new-IsValid}
use web_tos.Chunk.Range.{Read, read_range_lem}
use web_tos.Chunk.Store.{IsVerified, Grows, store_insert-IsVerified, first_missing_lem}

abbrev small_file : ChunkedFile
small_file = record { size = 4100; chunk_size = 4096; chunks = (1 ∷ []) ∷ (2 ∷ []) ∷ [] }

small_file-IsValid : IsValid small_file
unfolding new
small_file-IsValid =
    new-IsValid 4100 4096 ((1 ∷ []) ∷ (2 ∷ []) ∷ []) (omega arith) (omega arith) refl

new-IsValid_example : IsValid small_file
unfolding new
new-IsValid_example =
    new-IsValid 4100 4096 ((1 ∷ []) ∷ (2 ∷ []) ∷ []) (omega arith) (omega arith) refl

abbrev last_chunk : ChunkStore
last_chunk = ((2 ∷ []), record { items = 7 ∷ 8 ∷ 9 ∷ 10 ∷ []; capacity = 4 }) ∷ []

read_last_chunk : read_range last_chunk small_file 4097 100 ≡ ok (ready (8 ∷ 9 ∷ 10 ∷ []))
unfolding read_range read_round chunk_at get compare_bytes
read_last_chunk = refl

read_first_chunk : read_range last_chunk small_file 4000 100 ≡ ok (missing (1 ∷ []))
unfolding read_range read_round chunk_at get compare_bytes
read_first_chunk = refl

read_range_lem_example :
    Read last_chunk small_file 4097
      (min 100 (4100 - 4097))
      (read_range last_chunk small_file 4097 100)
read_range_lem_example =
    read_range_lem last_chunk small_file 4097 100 small_file-IsValid (omega arith) (omega arith)

abbrev abc : ByteVec
abc = record { items = b'a' ∷ b'b' ∷ b'c' ∷ []; capacity = 3 }

empty-IsVerified : IsVerified []
unfolding get
empty-IsVerified = record { digest_at = λ hash chunk e. cc }

insert-abc : store_insert (sha256 abc.items) abc [] ≡ ok (insert (sha256 abc.items) abc [])
unfolding store_insert sha256 compress compare_bytes get insert
insert-abc = refl

store_insert-IsVerified_example :
    (sha256 abc.items ≡ sha256 abc.items)
    × Grows (sha256 abc.items) [] (insert (sha256 abc.items) abc [])
store_insert-IsVerified_example =
    store_insert-IsVerified (sha256 abc.items) abc [] empty-IsVerified insert-abc

first_missing_lem_example :
    (first_missing small_file.chunks last_chunk ≡ none)
      × (all (λ h. contains h last_chunk) small_file.chunks ≡ true)
    ⊎ ((seen : List Hash) × (h : Hash) × (rest : List Hash) × (first_missing small_file.chunks
            last_chunk
          ≡ some h)
        × (small_file.chunks ≡ seen ++ (h ∷ rest))
        × (all (λ h. contains h last_chunk) seen ≡ true)
        × (get h last_chunk ≡ none))
first_missing_lem_example = first_missing_lem small_file.chunks last_chunk
