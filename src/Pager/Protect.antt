-- ===== src/Pager/Protect.antt =====
-- `protect`, `map` and `fork_space` of pager.rs against the abstract view.
use web_tos.Prelude.{
  ℕ, ◌+◌, ◌^◌, ◌≡◌, refl, ◌∙◌, List, [], ◌∷◌, ◌++◌, true, false, ◌&&◌, ◌||◌, Bool-cases, Option,
  Option-cases, none, some, inl, inr, arith, if◌then◌else◌, ltb, ◌==◌, All, All-append,
}
use web_tos.Prelude.NatMap.{get}
use web_tos.Pager.{
  Pager, AddressSpace, or_default, with_mappings, with_space, is_resident, map_file, protect,
  fork_space, inherited,
}
use web_tos.Pager.Mapping.{FileMapping}
use web_tos.Pager.Mapping.Clip.{IsValid, shown}
use web_tos.Pager.Space.{protected}
use web_tos.Pager.View.{view, over, repainted, view-append, view-protected}
use web_tos.Pager.Refine.{
  view_opt, view_of, SpaceValid, IsWellFormed, protected-IsValid, view-insert, SpaceValid-insert,
  view-here,
}

-- What `protect` promises.
pub record Protected (p : Pager) (asid start len perm : ℕ) (after : Pager) : Type 0 where
  pub shows :
      (x a : ℕ)
      → view_of after x a ≡ (
          if x == asid && ltb (start + len) (2 ^ 64)
          then repainted (view_of p x a) start (start + len) perm a
          else view_of p x a)
  pub residents : after.resident ≡ p.resident
  pub well_formed : IsWellFormed after

protect_same :
    (p : Pager) (asid start len perm : ℕ)
    → IsWellFormed p
    → ltb (start + len) (2 ^ 64) ≡ false
    → Protected p asid start len perm p
protect_same p asid start len perm wf past = record {
  shows = λ x a. rw past (ground arith);
  residents = refl;
  well_formed = wf;
}

protect_gone :
    (p : Pager) (asid start len perm : ℕ)
    → IsWellFormed p
    → get asid p.spaces ≡ none
    → Protected p asid start len perm p
protect_gone p asid start len perm wf gone = record {
  shows = λ x a. elim (Bool-cases (x == asid)) [
    | inl same ↦ let e : x ≡ asid = ground arith in rw (e, gone) (ground arith)
    | inr other ↦ rw other refl
  ];
  residents = refl;
  well_formed = wf;
}

module _ (p : Pager) (asid start len perm : ℕ) (wf : IsWellFormed p) (space : AddressSpace)
    (there : get asid p.spaces ≡ some space) where
  abbrev protected_space : AddressSpace
  protected_space = with_mappings space (protected space.mappings start (start + len) perm)

  protect_there :
      ltb (start + len) (2 ^ 64) ≡ true
      → Protected p asid start len perm (with_space p asid protected_space)
  protect_there fits =
      let valid : All IsValid space.mappings = rw there at (wf asid) in
      record {
        shows = λ x a.
            view-insert x asid a protected_space p.spaces ∙ elim (Bool-cases (x == asid)) [
              | inl same ↦
                  rw (same, fits, view-here p x asid a space there same)
                    (view-protected space.mappings start (start + len) perm a valid (omega arith))
              | inr other ↦ rw other refl
            ];
        residents = refl;
        well_formed = λ x.
            SpaceValid-insert x asid protected_space p.spaces
              (protected-IsValid space.mappings start (start + len) perm valid) (wf x);
      }

-- `protect` on a well-formed table implements the abstract operation: exactly what the addresses of
-- the range show gets the new permission (nothing, if the range passes the last address); the
-- bytes shown, the other addresses and spaces and the resident pages stay as they were, and the
-- table stays well formed.
pub protect_lem :
    (p : Pager) (asid start len perm : ℕ)
    → IsWellFormed p
    → Protected p asid start len perm (protect p asid start len perm)
unfolding protect
protect_lem p asid start len perm wf = elim (Bool-cases (ltb (start + len) (2 ^ 64))) [
  | inr past ↦ rw (protect, past) (protect_same p asid start len perm wf past)
  | inl fits ↦ elim (Option-cases (get asid p.spaces)) [
    | inl gone ↦ rw (fits, protect, gone) (protect_gone p asid start len perm wf gone)
    | inr (space, there) ↦
        rw (fits, protect, there) (protect_there p asid start len perm wf space there fits)
  ]
]

or_default-IsValid : (o : Option AddressSpace) → SpaceValid o → All IsValid (or_default o).mappings
or_default-IsValid none v = tt
or_default-IsValid (some space) v = v

view-or_default : (o : Option AddressSpace) (a : ℕ) → view (or_default o).mappings a ≡ view_opt o a
unfolding view
view-or_default none a = refl
view-or_default (some space) a = refl

view-push :
    (mappings : List FileMapping) (m : FileMapping) (a : ℕ)
    → view (mappings ++ (m ∷ [])) a ≡ over (shown m a) (view mappings a)
unfolding view
view-push mappings m a = view-append mappings (m ∷ []) a

-- `map` of a valid mapping shows it over what its address space showed before; other spaces show
-- what they did, and the table stays well formed.
pub map_file_lem :
    (p : Pager) (asid : ℕ) (m : FileMapping)
    → IsWellFormed p
    → IsValid m
    → ((x a : ℕ)
        → view_of (map_file p asid m) x a
          ≡ (if x == asid then over (shown m a) (view_of p x a) else view_of p x a))
      × IsWellFormed (map_file p asid m)
unfolding map_file
map_file_lem p asid m wf v =
    let space = or_default (get asid p.spaces) in
    let valid = or_default-IsValid (get asid p.spaces) (wf asid) in
    let new : AddressSpace = with_mappings space (space.mappings ++ (m ∷ [])) in
    (
      λ x a. view-insert x asid a new p.spaces ∙ elim (Bool-cases (x == asid)) [
        | inl same ↦
            let e : x ≡ asid = ground arith in
            rw (same, e, ← view-or_default (get asid p.spaces) a) (view-push space.mappings m a)
        | inr other ↦ rw other refl
      ],
      λ x.
          SpaceValid-insert x asid new p.spaces
            (All-append IsValid space.mappings (m ∷ []) valid (v, tt)) (wf x),
    )

is_resident-append :
    (xs ys : List (ℕ × ℕ)) (a q : ℕ)
    → is_resident (xs ++ ys) a q ≡ is_resident xs a q || is_resident ys a q
unfolding is_resident
is_resident-append [] ys a q = refl
is_resident-append ((b, r) ∷ xs) ys a q = ground (arith, is_resident-append xs ys a q)

is_resident-inherited :
    (parent child : ℕ) (pages : List (ℕ × ℕ)) (a q : ℕ)
    → is_resident (inherited (λ b r. b == parent) child (λ r. r) pages) a q
      ≡ (a == child) && is_resident pages parent q
unfolding is_resident inherited
is_resident-inherited parent child [] a q = ground arith
is_resident-inherited parent child ((b, r) ∷ pages) a q = elim (Bool-cases (b == parent)) [
  | inl same ↦ rw same (ground (arith, is_resident-inherited parent child pages a q))
  | inr other ↦ rw other (ground (arith, is_resident-inherited parent child pages a q))
]

-- After a fork of a space that exists the child shows what the parent shows, and has the parent's
-- resident pages beside its own; every other space is as it was, and the table stays well formed.
pub fork_space_lem :
    (p : Pager) (parent child : ℕ) {space : AddressSpace}
    → IsWellFormed p
    → get parent p.spaces ≡ some space
    → ((x a : ℕ)
        → view_of (fork_space p parent child) x a
          ≡ (if x == child then view_of p parent a else view_of p x a))
      × ((x q : ℕ)
          → is_resident (fork_space p parent child).resident x q
            ≡ is_resident p.resident x q || ((x == child) && is_resident p.resident parent q))
      × IsWellFormed (fork_space p parent child)
unfolding fork_space
fork_space_lem p parent child {space} wf there =
    let valid : All IsValid space.mappings = rw there at (wf parent) in
    rw (fork_space, there)
      (
        λ x a. view-insert x child a space p.spaces,
        λ x q.
            is_resident-append (inherited (λ b r. b == parent) child (λ r. r) p.resident) p.resident
              x q
            ∙ ground (arith, is_resident-inherited parent child p.resident x q),
        λ x. SpaceValid-insert x child space p.spaces valid (wf x),
      )
