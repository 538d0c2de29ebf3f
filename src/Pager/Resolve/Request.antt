-- ===== src/Pager/Resolve/Request.antt =====
-- `resolve` of pager.rs: what each of its answers says about the page, the store and the request.
use web_tos.Prelude.{
  ℕ, ◌+◌, ◌^◌, ◌<◌, ◌≡◌, ◌⊎◌, refl, ap, ◌∙◌, List, [], ◌∷◌, inl, inr, length, get_elem?, Result, ok,
  Stop, All,
}
use web_tos.Prelude.Bytes.{Bytes}
use web_tos.Chunk.{ChunkStore, Hash}
use web_tos.Pager.Mapping.{FileMapping, page_size}
use web_tos.Pager.Resolve.{bad_chunk, Scan, filled, lacks, broken, paint, fill_page}
use web_tos.Pager.Resolve.Painted.{Fits, Lacks, Spoils, Painted, paint_lem, laid, byte_of_page}

-- Some mapping of the list has the property.
abbrev pub Among : (FileMapping → Type 0) → List FileMapping → Type 0
Among P [] = ⊥
Among P (m ∷ mappings) = P m ⊎ Among P mappings

-- The permission of the last mapping.
unfoldable pub last_perm : List FileMapping → ℕ → ℕ
last_perm [] perm = perm
last_perm (m ∷ mappings) perm = last_perm mappings m.final_perm

-- How a page is put together, from what its bytes were before.
pub data Built (chunks : ChunkStore) (page : ℕ) (mappings : List FileMapping) (before : Bytes)
    (perm : ℕ) (r : Result Stop Scan) : Type 0 where
  built :
      (out : Bytes)
      → r ≡ ok (filled out (last_perm mappings perm))
      → length out ≡ page_size
      → ((j : ℕ)
          → j < page_size
          → get_elem? out j ≡ byte_of_page chunks page mappings j (get_elem? before j))
      → Built chunks page mappings before perm r
  wants :
      (hash : Hash)
      → r ≡ ok (lacks hash)
      → Among (Lacks chunks page hash) mappings
      → Built chunks page mappings before perm r
  fails :
      (i n k : ℕ)
      → r ≡ ok (broken (bad_chunk i n k))
      → Among (Spoils chunks page i n k) mappings
      → Built chunks page mappings before perm r

module _ (chunks : ChunkStore) (page : ℕ) (low : page + page_size < 2 ^ 64) where
  -- One more mapping in front of a list.
  Built-cons :
      (m : FileMapping) (mappings : List FileMapping) (before painted : Bytes) (perm : ℕ)
      → ((j : ℕ) → j < page_size → get_elem? painted j ≡ laid chunks page m j (get_elem? before j))
      → {r : Result Stop Scan} → Built chunks page mappings painted m.final_perm r
      → Built chunks page (m ∷ mappings) before perm r
  unfolding last_perm byte_of_page
  Built-cons m mappings before painted perm lays (built out e s at) =
      built out e s (λ j h. at j h ∙ ap (λ b. byte_of_page chunks page mappings j b) (lays j h))
  Built-cons m mappings before painted perm lays (wants hash e named) = wants hash e (inr named)
  Built-cons m mappings before painted perm lays (fails i n k e bad) = fails i n k e (inr bad)

  Built-step :
      (m : FileMapping) (mappings : List FileMapping) (before : Bytes) (perm : ℕ) (f : Fits page m)
      (size : length before ≡ page_size)
      → Painted chunks page m before f low size (paint chunks page m before)
      → ((painted : Bytes)
          → length painted ≡ page_size
          → Built chunks page mappings painted m.final_perm
              (fill_page chunks page mappings painted m.final_perm))
      → Built chunks page
          (m ∷ mappings)
          before
          perm
          (fill_page chunks page (m ∷ mappings) before perm)
  unfolding fill_page
  Built-step m mappings before perm f size (Painted.done out e s lays) rest =
      rw (fill_page, e) (Built-cons m mappings before out perm lays (rest out s))
  Built-step m mappings before perm f size (Painted.absent hash e named) rest =
      rw (fill_page, e) (wants hash refl (inl named))
  Built-step m mappings before perm f size (Painted.misfit i n k e bad) rest =
      rw (fill_page, e) (fails i n k refl (inl bad))

  pub fill_page_lem :
      (mappings : List FileMapping) (before : Bytes) (perm : ℕ)
      → All (Fits page) mappings
      → length before ≡ page_size
      → Built chunks page mappings before perm (fill_page chunks page mappings before perm)
  unfolding fill_page last_perm byte_of_page
  fill_page_lem [] before perm f size = built before refl size (λ j h. refl)
  fill_page_lem (m ∷ mappings) before perm f size =
      Built-step m mappings before perm f.0 size
        (paint_lem chunks page m before f.0 low size f.0.valid.file_words)
        (λ painted s. fill_page_lem mappings painted m.final_perm f.1 s)
