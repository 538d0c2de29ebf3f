-- ===== src/Pager/Refine.antt =====
-- The pager of pager.rs against its abstract view: what each address of each address space shows,
-- and which pages are resident.
use web_tos.Prelude.{
  ℕ, ◌^◌, ◌<◌, ◌≡◌, ◌≢◌, refl, List, [], ◌∷◌, Bool, true, ◌&&◌, Bool-cases, Option, none, some, inl,
  inr, arith, if◌then◌else◌, ltb, leb, ◌==◌, All, All-append,
}
use web_tos.Prelude.NatMap.{NatMap, get, insert, remove, get-insert, get-remove}
use web_tos.Pager.{Pager, AddressSpace, bump, is_resident, retain}
use web_tos.Pager.Mapping.{FileMapping, clipped}
use web_tos.Pager.Mapping.Clip.{IsValid, ValidOpt, Shown, clipped-IsValid}
use web_tos.Pager.Space.{pushed, apart, sides, unmapped, protected, with_perm}
use web_tos.Pager.View.{view}

-- What an address of an address space shows.
abbrev pub view_opt : Option AddressSpace → ℕ → Option Shown
view_opt none a = none
view_opt (some space) a = view space.mappings a

abbrev pub view_of : Pager → ℕ → ℕ → Option Shown
view_of p asid a = view_opt (get asid p.spaces) a

abbrev pub SpaceValid : Option AddressSpace → Type 0
SpaceValid none = Unit {0}
SpaceValid (some space) = All IsValid space.mappings

abbrev pub IsWellFormed : Pager → Type 0
IsWellFormed p = (asid : ℕ) → SpaceValid (get asid p.spaces)

pub All-pushed : (o : Option FileMapping) → ValidOpt o → All IsValid (pushed o)
All-pushed none v = tt
All-pushed (some m) v = (v, tt)

pub with_perm-IsValid :
    (perm : ℕ) (o : Option FileMapping) → ValidOpt o → ValidOpt (with_perm perm o)
with_perm-IsValid perm none v = tt
with_perm-IsValid perm (some m) v = record {
  nonempty = v.nonempty;
  words = v.words;
  data_from = v.data_from;
  data_to = v.data_to;
  file_words = v.file_words;
  in_file = v.in_file;
}

pub sides-IsValid : (m : FileMapping) (start end : ℕ) → IsValid m → All IsValid (sides m start end)
sides-IsValid m start end v =
    All-append IsValid (pushed (clipped m m.start start)) (pushed (clipped m end m.end))
      (All-pushed (clipped m m.start start) (clipped-IsValid m m.start start v))
      (All-pushed (clipped m end m.end) (clipped-IsValid m end m.end v))

pub unmapped-IsValid :
    (mappings : List FileMapping) (start end : ℕ)
    → All IsValid mappings
    → All IsValid (unmapped mappings start end)
unfolding unmapped
unmapped-IsValid [] start end v = tt
unmapped-IsValid (m ∷ mappings) start end v = elim (Bool-cases (apart m start end)) [
  | inl away ↦ rw away (v.0, unmapped-IsValid mappings start end v.1)
  | inr meets ↦ rw meets (
      All-append IsValid (sides m start end) (unmapped mappings start end)
        (sides-IsValid m start end v.0) (unmapped-IsValid mappings start end v.1))
]

pub protected-IsValid :
    (mappings : List FileMapping) (start end perm : ℕ)
    → All IsValid mappings
    → All IsValid (protected mappings start end perm)
unfolding protected
protected-IsValid [] start end perm v = tt
protected-IsValid (m ∷ mappings) start end perm v =
    let rest = protected-IsValid mappings start end perm v.1 in
    let l = clipped-IsValid m m.start start v.0 in
    let c = with_perm-IsValid perm (clipped m start end) (clipped-IsValid m start end v.0) in
    let r = clipped-IsValid m end m.end v.0 in
    elim (Bool-cases (apart m start end)) [
      | inl away ↦ rw away (v.0, rest)
      | inr meets ↦ rw meets (
          All-append IsValid _ (protected mappings start end perm)
            (All-append IsValid (pushed (clipped m m.start start)) _ (All-pushed _ l) (
              All-append IsValid (pushed (with_perm perm (clipped m start end)))
                (pushed (clipped m end m.end)) (All-pushed _ c) (All-pushed _ r)))
            rest)
    ]

pub is_resident-retain :
    (keep : ℕ → ℕ → Bool) (pages : List (ℕ × ℕ)) (a q : ℕ)
    → is_resident (retain keep pages) a q ≡ is_resident pages a q && keep a q
unfolding is_resident retain
is_resident-retain keep [] a q = refl
is_resident-retain keep ((b, r) ∷ pages) a q = elim (Bool-cases (keep b r)) [
  | inl kept ↦ rw kept (ground (arith, is_resident-retain keep pages a q, kept))
  | inr gone ↦ rw gone (ground (arith, is_resident-retain keep pages a q, gone))
]

pub bump-ne : (n : ℕ) → n < 2 ^ 64 → bump n ≢ n
bump-ne n h e = omega (arith, h, e)

abbrev pub in_range : ℕ → ℕ → ℕ → Bool
in_range start end a = leb start a && ltb a end

pub view-insert :
    (x asid a : ℕ) (space : AddressSpace) (spaces : NatMap AddressSpace)
    → view_opt (get x (insert asid space spaces)) a
      ≡ (if x == asid then view space.mappings a else view_opt (get x spaces) a)
view-insert x asid a space spaces = elim (Bool-cases (x == asid)) [
  | inl same ↦ rw (get-insert asid x space spaces, same) refl
  | inr other ↦ rw (get-insert asid x space spaces, other) refl
]

pub view-remove :
    (x asid a : ℕ) (spaces : NatMap AddressSpace)
    → view_opt (get x (remove asid spaces)) a
      ≡ (if x == asid then none else view_opt (get x spaces) a)
view-remove x asid a spaces = elim (Bool-cases (x == asid)) [
  | inl same ↦ rw (get-remove asid x spaces, same) refl
  | inr other ↦ rw (get-remove asid x spaces, other) refl
]

pub SpaceValid-insert :
    (x asid : ℕ) (space : AddressSpace) (spaces : NatMap AddressSpace)
    → All IsValid space.mappings
    → SpaceValid (get x spaces)
    → SpaceValid (get x (insert asid space spaces))
SpaceValid-insert x asid space spaces new old = elim (Bool-cases (x == asid)) [
  | inl same ↦ rw (get-insert asid x space spaces, same) new
  | inr other ↦ rw (get-insert asid x space spaces, other) old
]

pub SpaceValid-remove :
    (x asid : ℕ) (spaces : NatMap AddressSpace)
    → SpaceValid (get x spaces)
    → SpaceValid (get x (remove asid spaces))
SpaceValid-remove x asid spaces old = elim (Bool-cases (x == asid)) [
  | inl same ↦ rw (get-remove asid x spaces, same) tt
  | inr other ↦ rw (get-remove asid x spaces, other) old
]

-- The space of `asid` is what it was, for the view at `x`.
pub view-here :
    (p : Pager) (x asid a : ℕ) (space : AddressSpace)
    → get asid p.spaces ≡ some space
    → (x == asid) ≡ true
    → view_of p x a ≡ view space.mappings a
view-here p x asid a space there same = let e : x ≡ asid = ground arith in rw (e, there) refl
