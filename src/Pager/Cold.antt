-- ===== src/Pager/Cold.antt =====
-- `nonresident_pages` of pager.rs: the pages that its loop lists.
use web_tos.Prelude.{
  ℕ, zero, suc, ◌+◌, ◌-◌, ◌*◌, ◌/◌, ◌%◌, ◌^◌, ◌≤◌, ◌<◌, ◌≡◌, refl, ◌∙◌, min, List, ◌∷◌, Bool, true,
  false, not, ◌&&◌, Bool-cases, Option-cases, none, some, inl, inr, arith, if◌then◌else◌, ltb, leb,
  ◌==◌, any,
}
use web_tos.Prelude.NatMap.{get}
use web_tos.Vfs.{contains_index}
use web_tos.Pager.{Pager, is_resident, cold_pages, nonresident_pages}
use web_tos.Pager.Mapping.{FileMapping, page_of, page_size, covers}

-- A page that is governed by a mapping and not resident.
abbrev pub is_cold : Pager → ℕ → List FileMapping → ℕ → Bool
is_cold p asid mappings page =
    not (is_resident p.resident asid page) && any (λ m. covers m page) mappings

abbrev pub in_space : Pager → ℕ → List FileMapping → ℕ → ℕ → ℕ → Bool
in_space p asid mappings page end q =
    (q % page_size == 0 && leb page q && ltb q end) && is_cold p asid mappings q

same_page : (b c : ℕ → Bool) (x y : ℕ) → (x == y) ≡ true → b x ≡ b y
same_page b c x y h = let e : x ≡ y = ground arith in rw e refl

-- One more page in front of the rest, whose listing is known.
one_page :
    (page end q : ℕ) (cold : ℕ → Bool) (rest : List ℕ)
    → page % page_size ≡ 0
    → page < end
    → contains_index rest q
      ≡ ((q % page_size == 0 && leb (page + page_size) q && ltb q end) && cold q)
    → contains_index (if cold page then page ∷ rest else rest) q
      ≡ ((q % page_size == 0 && leb page q && ltb q end) && cold q)
one_page page end q cold rest a h ih = elim (Bool-cases (page == q)) [
  | inl here ↦
      let e : page ≡ q = ground arith in
      let c : cold q ≡ cold page = rw e refl in
      elim (Bool-cases (cold page)) [
        | inl on ↦ rw (on, c, on) (ground (arith, here, e, a, h))
        | inr off ↦ rw (off, c, off) (ih ∙ rw (c, off) (ground arith))
      ]
  | inr there ↦
      let b : (q % page_size == 0 && leb page q && ltb q end)
          ≡ (q % page_size == 0 && leb (page + page_size) q && ltb q end) =
        ground (arith, there, a) in
      elim (Bool-cases (cold page)) [
        | inl on ↦ rw (on, b) (ground (arith, there, ih))
        | inr off ↦ rw (off, b) ih
      ]
]

cold_pages_lem :
    (fuel : ℕ) (p : Pager) (mappings : List FileMapping) (asid page end q : ℕ)
    → page % page_size ≡ 0
    → end ≤ page + fuel * page_size
    → contains_index (cold_pages fuel p mappings asid page end) q
      ≡ in_space p asid mappings page end q
unfolding cold_pages
cold_pages_lem zero p mappings asid page end q a enough = ground (arith, enough)
cold_pages_lem (suc fuel) p mappings asid page end q a enough = elim (Bool-cases (ltb page end)) [
  | inr over ↦ rw (cold_pages, over) (ground (arith, over))
  | inl below ↦
      rw (cold_pages, below)
        (one_page page end q (λ k. is_cold p asid mappings k)
          (cold_pages fuel p mappings asid (page + page_size) end) a (ground (arith, below))
          (cold_pages_lem fuel p mappings asid (page + page_size) end q (omega (arith, a))
            (omega (arith, enough))))
]

-- The pages that `nonresident_pages` lists are exactly the aligned ones from that of `start` on,
-- below the end of the range (that of the address space, if the range passes it), that a mapping
-- of the space covers and that are not resident: the loop is given enough rounds.
pub nonresident_pages_lem :
    (p : Pager) (asid start len q : ℕ)
    → contains_index (nonresident_pages p asid start len) q ≡ elim (get asid p.spaces) [
      | none ↦ false
      | some space ↦
          in_space p asid space.mappings (page_of start) (min (start + len) (2 ^ 64 - 1)) q
    ]
unfolding nonresident_pages
nonresident_pages_lem p asid start len q = elim (Option-cases (get asid p.spaces)) [
  | inl gone ↦ rw (nonresident_pages, gone) refl
  | inr (space, there) ↦
      let end = min (start + len) (2 ^ 64 - 1) in
      rw (nonresident_pages, there)
        (cold_pages_lem ((end - page_of start) / page_size + 1) p space.mappings asid
          (page_of start) end q (omega arith) (omega arith))
]
