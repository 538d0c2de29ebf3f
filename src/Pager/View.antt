-- ===== src/Pager/View.antt =====
-- The abstract view of an address space of pager.rs, what every address shows, and how `map`,
-- `unmap` and `protect` change it.
use web_tos.Prelude.{
  ℕ, ◌≤◌, ◌≡◌, refl, ap, sym, ◌∙◌, List, [], ◌∷◌, ◌++◌, Bool, true, false, ◌&&◌, Bool-cases, Option,
  none, some, inl, inr, arith, if◌then◌else◌, ltb, leb, All,
}
use web_tos.Pager.Mapping.{FileMapping, clipped, covers}
use web_tos.Pager.Mapping.Clip.{IsValid, Shown, shown, shown_opt, shown-clipped}
use web_tos.Pager.Space.{pushed, apart, sides, unmapped, protected, with_perm}

-- The later mapping wins.
abbrev pub over : Option Shown → Option Shown → Option Shown
over none below = below
over (some s) below = some s

-- What an address shows under a list of mappings.
unfoldable pub view : List FileMapping → ℕ → Option Shown
view [] a = none
view (m ∷ mappings) a = over (view mappings a) (shown m a)

over_assoc : (x y z : Option Shown) → over x (over y z) ≡ over (over x y) z
over_assoc none y z = refl
over_assoc (some x) y z = refl

over-none : (x : Option Shown) → over x none ≡ x
over-none none = refl
over-none (some x) = refl

pub view-append :
    (xs ys : List FileMapping) (a : ℕ) → view (xs ++ ys) a ≡ over (view ys a) (view xs a)
unfolding view
view-append [] ys a = sym (over-none (view ys a))
view-append (x ∷ xs) ys a =
    ap (λ v. over v (shown x a)) (view-append xs ys a)
    ∙ sym (over_assoc (view ys a) (view xs a) (shown x a))

view-pushed : (o : Option FileMapping) (a : ℕ) → view (pushed o) a ≡ shown_opt o a
unfolding view
view-pushed none a = refl
view-pushed (some m) a = refl

-- Nothing inside the range, and as before outside it.
abbrev pub cut : Option Shown → ℕ → ℕ → ℕ → Option Shown
cut before start end a = if leb start a && ltb a end then none else before

-- The two sides of a cut, by whether the mapping covers the address.
cut_sides :
    (m : FileMapping) (start end a : ℕ) (covered : Bool) (s : Shown)
    → covers m a ≡ covered
    → start ≤ end
    → over
        (if leb end a && ltb a m.end then (if covered then some s else none) else none)
        (if leb m.start a && ltb a start then (if covered then some s else none) else none)
      ≡ cut (if covered then some s else none) start end a
cut_sides m start end a true s h p = ground arith
cut_sides m start end a false s h p = ground arith

cut-apart :
    (m : FileMapping) (start end a : ℕ) (covered : Bool) (s : Shown)
    → covers m a ≡ covered
    → apart m start end ≡ true
    → (if covered then some s else none) ≡ cut (if covered then some s else none) start end a
cut-apart m start end a true s h p = ground arith
cut-apart m start end a false s h p = ground arith

view_piece :
    (m : FileMapping) (start end a : ℕ)
    → IsValid m
    → start ≤ end
    → view (if apart m start end then m ∷ [] else sides m start end) a ≡ cut (shown m a) start end a
unfolding view
view_piece m start end a v p = elim (Bool-cases (apart m start end)) [
  | inl away ↦ rw away (cut-apart m start end a (covers m a) _ refl away)
  | inr meets ↦
      let l = shown-clipped m m.start start a v in
      let r = shown-clipped m end m.end a v in
      rw
        (
          meets,
          view-append (pushed (clipped m m.start start)) (pushed (clipped m end m.end)) a,
          view-pushed (clipped m m.start start) a,
          view-pushed (clipped m end m.end) a,
          l,
          r,
        )
        (cut_sides m start end a (covers m a) _ refl p)
]

over-cut :
    (x y : Option Shown) (start end a : ℕ)
    → over (cut x start end a) (cut y start end a) ≡ cut (over x y) start end a
over-cut x y start end a = elim (Bool-cases (leb start a && ltb a end)) [
  | inl inside ↦ rw inside refl
  | inr outside ↦ rw outside refl
]

pub view-unmapped :
    (mappings : List FileMapping) (start end a : ℕ)
    → All IsValid mappings
    → start ≤ end
    → view (unmapped mappings start end) a ≡ cut (view mappings a) start end a
unfolding view unmapped
view-unmapped [] start end a v p = ground arith
view-unmapped (m ∷ mappings) start end a v p =
    view-append (if apart m start end then m ∷ [] else sides m start end)
      (unmapped mappings start end) a
    ∙ rw (view_piece m start end a v.0 p, view-unmapped mappings start end a v.1 p)
        (over-cut (view mappings a) (shown m a) start end a)

-- The new permission inside the range, and as before outside it.
abbrev pub repainted : Option Shown → ℕ → ℕ → ℕ → ℕ → Option Shown
repainted none start end perm a = none
repainted (some s) start end perm a =
    if leb start a && ltb a end then some (record s { perm = perm }) else some s

shown-with_perm :
    (o : Option FileMapping) (perm a : ℕ)
    → shown_opt (with_perm perm o) a
      ≡ elim (shown_opt o a) [ none ↦ none | some s ↦ some (record s { perm = perm }) ]
shown-with_perm none perm a = refl
shown-with_perm (some m) perm a = elim (Bool-cases (covers m a)) [
  | inl on ↦ rw on refl
  | inr off ↦ rw off refl
]

abbrev painted : ℕ → Option Shown → Option Shown
painted perm none = none
painted perm (some s) = some (record s { perm = perm })

-- The three parts of a protected mapping, by whether it covers the address.
protect_parts :
    (m : FileMapping) (start end perm a : ℕ) (covered : Bool) (s : Shown)
    → covers m a ≡ covered
    → start ≤ end
    → over
        (over (if leb end a && ltb a m.end then (if covered then some s else none) else none) (
          painted perm
            (if leb start a && ltb a end then (if covered then some s else none) else none)))
        (if leb m.start a && ltb a start then (if covered then some s else none) else none)
      ≡ repainted (if covered then some s else none) start end perm a
protect_parts m start end perm a true s h p = ground arith
protect_parts m start end perm a false s h p = ground arith

protect_apart :
    (m : FileMapping) (start end perm a : ℕ) (covered : Bool) (s : Shown)
    → covers m a ≡ covered
    → apart m start end ≡ true
    → (if covered then some s else none)
      ≡ repainted (if covered then some s else none) start end perm a
protect_apart m start end perm a true s h p = ground arith
protect_apart m start end perm a false s h p = ground arith

abbrev three : FileMapping → ℕ → ℕ → ℕ → List FileMapping
three m start end perm =
    pushed (clipped m m.start start)
    ++ (pushed (with_perm perm (clipped m start end)) ++ pushed (clipped m end m.end))

protected_piece :
    (m : FileMapping) (start end perm a : ℕ)
    → IsValid m
    → start ≤ end
    → view (if apart m start end then m ∷ [] else three m start end perm) a
      ≡ repainted (shown m a) start end perm a
unfolding view
protected_piece m start end perm a v p = elim (Bool-cases (apart m start end)) [
  | inl away ↦ rw away (protect_apart m start end perm a (covers m a) _ refl away)
  | inr meets ↦
      let l = shown-clipped m m.start start a v in
      let c = shown-clipped m start end a v in
      let r = shown-clipped m end m.end a v in
      let middle = pushed (with_perm perm (clipped m start end)) in
      rw
        (
          meets,
          view-append (pushed (clipped m m.start start)) (middle ++ pushed (clipped m end m.end)) a,
          view-append middle (pushed (clipped m end m.end)) a,
          view-pushed (clipped m m.start start) a,
          view-pushed (clipped m end m.end) a,
          view-pushed (with_perm perm (clipped m start end)) a,
          shown-with_perm (clipped m start end) perm a,
          l,
          c,
          r,
        )
        (protect_parts m start end perm a (covers m a) _ refl p)
]

repainted-over :
    (x y : Option Shown) (start end perm a : ℕ)
    → over (repainted x start end perm a) (repainted y start end perm a)
      ≡ repainted (over x y) start end perm a
repainted-over none y start end perm a = refl
repainted-over (some x) y start end perm a = elim (Bool-cases (leb start a && ltb a end)) [
  | inl inside ↦ rw inside refl
  | inr outside ↦ rw outside refl
]

pub view-protected :
    (mappings : List FileMapping) (start end perm a : ℕ)
    → All IsValid mappings
    → start ≤ end
    → view (protected mappings start end perm) a ≡ repainted (view mappings a) start end perm a
unfolding view protected
view-protected [] start end perm a v p = refl
view-protected (m ∷ mappings) start end perm a v p =
    view-append (if apart m start end then m ∷ [] else three m start end perm)
      (protected mappings start end perm) a
    ∙ rw (protected_piece m start end perm a v.0 p, view-protected mappings start end perm a v.1 p)
        (repainted-over (view mappings a) (shown m a) start end perm a)
