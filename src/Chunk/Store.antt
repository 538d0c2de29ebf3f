-- ===== src/Chunk/Store.antt =====
-- The store of verified chunks (chunk.rs): no unchecked bytes enter it, and none are replaced.
use web_tos.Prelude.{
  ◌≡◌, refl, ap, subst, ◌⊎◌, ◌++◌, all, List, [], ◌∷◌, arith, true, Bool-cases, Option-cases, inl,
  inr, none, some, ok,
}
use web_tos.Prelude.Bytes.{bytes_eq, bytes_eq_iff}
use web_tos.Prelude.ByteMap.{get, insert, get-insert}
use web_tos.Digest.{sha256}
use web_tos.Chunk.{ByteVec, ChunkStore, Hash, contains, first_missing, store_insert}

-- Every chunk stands under the digest of its bytes.
pub record IsVerified (store : ChunkStore) : Type 0 where
  pub digest_at :
      (hash : Hash) (chunk : ByteVec) → get hash store ≡ some chunk → sha256 chunk.items ≡ hash

-- What an insertion keeps and gains.
abbrev pub Grows : Hash → ChunkStore → ChunkStore → Type 0
Grows expected store store' =
    IsVerified store'
    × (contains expected store' ≡ true)
    × ((hash : Hash) (chunk : ByteVec) → get hash store ≡ some chunk → get hash store' ≡ some chunk)

module _ (expected : Hash) (bytes : ByteVec) (store : ChunkStore) (v : IsVerified store)
    (digest : sha256 bytes.items ≡ expected) (fresh : get expected store ≡ none) where
  insert-digest :
      (hash : Hash) (chunk : ByteVec)
      → get hash (insert expected bytes store) ≡ some chunk
      → sha256 chunk.items ≡ hash
  insert-digest hash chunk h = ground (
    arith,
    get-insert expected hash bytes store,
    bytes_eq_iff hash expected,
    v.digest_at hash chunk,
  )

  insert-keeps :
      (hash : Hash) (chunk : ByteVec)
      → get hash store ≡ some chunk
      → get hash (insert expected bytes store) ≡ some chunk
  insert-keeps hash chunk h =
      ground (arith, get-insert expected hash bytes store, bytes_eq_iff hash expected)

  insert-Grows : Grows expected store (insert expected bytes store)
  insert-Grows = (
    record { digest_at = insert-digest },
    ground (arith, get-insert expected expected bytes store, bytes_eq_iff expected expected),
    insert-keeps,
  )

-- A successful insertion had bytes of the expected digest; it keeps the store verified, makes the
-- chunk resident, and leaves every chunk that was there as it was.
pub store_insert-IsVerified :
    (expected : Hash) (bytes : ByteVec) (store : ChunkStore) {store' : ChunkStore}
    → IsVerified store
    → store_insert expected bytes store ≡ ok store'
    → (sha256 bytes.items ≡ expected) × (Grows expected store store')
unfolding store_insert
store_insert-IsVerified expected bytes store v h =
    elim (Bool-cases (bytes_eq (sha256 bytes.items) expected)) [
      | inr bad ↦ absurd (ground arith)
      | inl good ↦
          let digest = (bytes_eq_iff (sha256 bytes.items) expected).0 good in
          elim (Option-cases (get expected store)) [
            | inl fresh ↦ (
              digest,
              subst (λ s. Grows expected store s) (ground arith)
                  (insert-Grows expected bytes store v digest fresh),
            )
            | inr (old, there) ↦ (
              digest,
              subst (λ s. Grows expected store s) (ground arith)
                  (v, rw there refl, λ hash chunk e. e),
            )
          ]
    ]

-- `first_missing` names the first hash of the list that the store does not hold, and none exactly
-- when all are resident.
pub first_missing_lem :
    (hashes : List Hash) (store : ChunkStore)
    → ((first_missing hashes store ≡ none) × (all (λ h. contains h store) hashes ≡ true))
      ⊎ ((seen : List Hash) × (h : Hash) × (rest : List Hash) × (first_missing hashes store
            ≡ some h)
          × (hashes ≡ seen ++ (h ∷ rest))
          × (all (λ h. contains h store) seen ≡ true)
          × (get h store ≡ none))
unfolding first_missing
first_missing_lem [] store = inl (refl, refl)
first_missing_lem (h ∷ hashes) store = elim (Option-cases (get h store)) [
  | inl absent ↦ inr ([], h, hashes, rw absent refl, refl, refl, absent)
  | inr (chunk, there) ↦ elim (first_missing_lem hashes store) [
    | inl (e, a) ↦ inl (rw there e, rw there a)
    | inr (seen, k, rest, e, split, a, absent) ↦
        inr (h ∷ seen, k, rest, rw there e, ap (λ l. h ∷ l) split, rw there a, absent)
  ]
]
