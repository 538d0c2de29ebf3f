-- ===== src/Pager/Resolve/Answer.antt =====
-- The mappings of a page for `resolve` of pager.rs: those that touch it, and the last of them.
use web_tos.Prelude.{
  ℕ, ◌≤◌, ◌<◌, ◌≡◌, refl, ◌∙◌, subst, List, [], ◌∷◌, true, Bool-cases, Option, Option-cases, none,
  some, inl, inr, arith, any, All, if◌then◌else◌, leb, ltb, ◌&&◌,
}
use web_tos.Prelude.NatMap as NatMap
use web_tos.Chunk.Layout as Layout
use web_tos.Pager.{Pager, AddressSpace, last_covering}
use web_tos.Pager.Mapping.{FileMapping, covers}
use web_tos.Pager.Mapping.Clip.{IsValid}
use web_tos.Pager.Resolve.{touching}
use web_tos.Pager.Resolve.Painted.{Fits}
use web_tos.Pager.Resolve.Request.{Among, last_perm}

-- A mapping whose file can be read.
pub record IsReadable (m : FileMapping) : Type 0 where
  pub valid : IsValid m
  pub layout : Layout.IsValid m.file

abbrev pub Readable : Pager → Type 0
Readable p =
    (asid : ℕ) (space : AddressSpace)
    → NatMap.get asid p.spaces ≡ some space
    → All IsReadable space.mappings

pub touching-Fits :
    (mappings : List FileMapping) (page : ℕ)
    → All IsReadable mappings
    → All (Fits page) (touching mappings page)
unfolding touching
touching-Fits [] page v = tt
touching-Fits (m ∷ mappings) page v =
    let rest = touching-Fits mappings page v.1 in
    elim (Bool-cases (covers m page)) [
      | inr off ↦ rw off rest
      | inl on ↦ rw on (
        record {
          valid = v.0.valid;
          from = ground (arith, on);
          to = ground (arith, on);
          layout = v.0.layout;
        },
        rest,
      )
    ]

-- The mappings that have the page, in the order they were made.
unfoldable pub on_page : List FileMapping → ℕ → List FileMapping
on_page [] page = []
on_page (m ∷ mappings) page =
    let rest = on_page mappings page in
    if leb m.start page && ltb page m.end then m ∷ rest else rest

pub touching_lem :
    (mappings : List FileMapping) (page : ℕ) → touching mappings page ≡ on_page mappings page
unfolding touching on_page
touching_lem [] page = refl
touching_lem (m ∷ mappings) page = ground (arith, touching_lem mappings page)

-- Some mapping touches the page.
pub any-touching :
    (mappings : List FileMapping) (page : ℕ) (m : FileMapping) (rest : List FileMapping)
    → touching mappings page ≡ m ∷ rest
    → any (λ k. covers k page) mappings ≡ true
unfolding touching
any-touching [] page m rest h = cc
any-touching (k ∷ mappings) page m rest h = elim (Bool-cases (covers k page)) [
  | inl on ↦ rw on refl
  | inr off ↦
      let shorter : touching mappings page ≡ m ∷ rest = ground (arith, off, h) in
      rw off (any-touching mappings page m rest shorter)
]

abbrev perm_or : ℕ → Option FileMapping → ℕ
perm_or perm none = perm
perm_or perm (some m) = m.final_perm

pub last_perm-touching :
    (mappings : List FileMapping) (page perm : ℕ)
    → last_perm (touching mappings page) perm ≡ perm_or perm (last_covering mappings page)
unfolding touching last_perm last_covering
last_perm-touching [] page perm = refl
last_perm-touching (m ∷ mappings) page perm = elim (Bool-cases (covers m page)) [
  | inl on ↦ elim (Option-cases (last_covering mappings page)) [
    | inl gone ↦ rw (on, gone) (last_perm-touching mappings page m.final_perm ∙ rw (gone, on) refl)
    | inr (k, there) ↦
        rw (on, there) (last_perm-touching mappings page m.final_perm ∙ rw there refl)
  ]
  | inr off ↦ elim (Option-cases (last_covering mappings page)) [
    | inl gone ↦ rw (off, gone) (last_perm-touching mappings page perm ∙ rw (gone, off) refl)
    | inr (k, there) ↦ rw (off, there) (last_perm-touching mappings page perm ∙ rw there refl)
  ]
]

pub covering_of_touching :
    (mappings : List FileMapping) (page : ℕ) (m : FileMapping) (rest : List FileMapping)
    → touching mappings page ≡ m ∷ rest
    → (k : FileMapping) × (last_covering mappings page ≡ some k)
unfolding touching last_covering
covering_of_touching [] page m rest h = absurd cc
covering_of_touching (k ∷ mappings) page m rest h =
    elim (Option-cases (last_covering mappings page)) [
      | inr (n, there) ↦ (n, rw there refl)
      | inl gone ↦ elim (Bool-cases (covers k page)) [
        | inl on ↦ (k, rw (gone, on) refl)
        | inr off ↦
            let shorter : touching mappings page ≡ m ∷ rest = ground (arith, off, h) in
            let (n, there) = covering_of_touching mappings page m rest shorter in
            absurd (ground (arith, there, gone))
      ]
    ]

-- A mapping that touches the page is one of the space that has the page.
abbrev pub On : ℕ → (FileMapping → Type 0) → FileMapping → Type 0
On page P m = (m.start ≤ page) × (page < m.end) × P m

pub Among-touching :
    (P : FileMapping → Type 0) (mappings : List FileMapping) (page : ℕ)
    → Among P (touching mappings page)
    → Among (On page P) mappings
unfolding touching
Among-touching P [] page h = h
Among-touching P (m ∷ mappings) page h = elim (Bool-cases (covers m page)) [
  | inr off ↦
      let same : touching (m ∷ mappings) page ≡ touching mappings page = rw (touching, off) refl in
      inr (Among-touching P mappings page (subst (λ l. Among P l) same h))
  | inl on ↦
      let same : touching (m ∷ mappings) page ≡ m ∷ touching mappings page =
        rw (touching, on) refl in
      let both : Among P (m ∷ touching mappings page) = subst (λ l. Among P l) same h in
      elim both [
        | inl this ↦ inl (ground (arith, on), ground (arith, on), this)
        | inr later ↦ inr (Among-touching P mappings page later)
      ]
]
