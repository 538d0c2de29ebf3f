-- ===== src/Pager/Unmap.antt =====
-- `unmap` of pager.rs against the abstract view.
use web_tos.Prelude.{
  ℕ, ◌+◌, ◌^◌, ◌≡◌, refl, ◌∙◌, true, false, not, ◌&&◌, ◌||◌, Bool-cases, Option-cases, none, some,
  inl, inr, arith, if◌then◌else◌, ltb, leb, ◌==◌, is_some, All,
}
use web_tos.Prelude.NatMap.{get, insert}
use web_tos.Pager.{Pager, AddressSpace, with_mappings, is_resident, retain, unmap, drop_space}
use web_tos.Pager.Mapping.Clip.{IsValid}
use web_tos.Pager.Space.{unmapped}
use web_tos.Pager.View.{view-unmapped}
use web_tos.Pager.Refine.{
  view_of, IsWellFormed, in_range, unmapped-IsValid, is_resident-retain, view-insert, view-remove,
  SpaceValid-insert, SpaceValid-remove, view-here,
}

-- What `unmap` promises: nothing is left in the range (in the whole address space, if its end
-- is past the last address), neither shown nor resident; everything else is as it was.
pub record Unmapped (p : Pager) (asid start len : ℕ) (after : Pager) : Type 0 where
  pub shows :
      (x a : ℕ)
      → view_of after x a ≡ (
          if x == asid && (leb (2 ^ 64) (start + len) || in_range start (start + len) a)
          then none
          else view_of p x a)
  pub residents :
      (x q : ℕ)
      → is_resident after.resident x q
        ≡ is_resident p.resident x q
          && not (
              x == asid
              && (leb (2 ^ 64) (start + len)
                  || (is_some (get asid p.spaces) && in_range start (start + len) q)))
  pub well_formed : IsWellFormed after

unmap_past :
    (p : Pager) (asid start len : ℕ)
    → IsWellFormed p
    → leb (2 ^ 64) (start + len) ≡ true
    → Unmapped p asid start len (drop_space p asid)
unfolding drop_space
unmap_past p asid start len wf past = record {
  shows = λ x a. view-remove x asid a p.spaces ∙ rw past (ground arith);
  residents =
      λ x q. is_resident-retain (λ b r. not (b == asid)) p.resident x q ∙ rw past (ground arith);
  well_formed = λ x. SpaceValid-remove x asid p.spaces (wf x);
}

unmap_gone :
    (p : Pager) (asid start len : ℕ)
    → IsWellFormed p
    → leb (2 ^ 64) (start + len) ≡ false
    → get asid p.spaces ≡ none
    → Unmapped p asid start len p
unmap_gone p asid start len wf fits gone = record {
  shows = λ x a. elim (Bool-cases (x == asid)) [
    | inl same ↦ let e : x ≡ asid = ground arith in rw (e, gone) (ground arith)
    | inr other ↦ rw other refl
  ];
  residents = λ x q. rw (fits, gone) (ground arith);
  well_formed = wf;
}

module _ (p : Pager) (asid start len : ℕ) (wf : IsWellFormed p) (space : AddressSpace)
    (there : get asid p.spaces ≡ some space) where
  mappings-IsValid : All IsValid space.mappings
  mappings-IsValid = rw there at (wf asid)

  abbrev unmapped_space : AddressSpace
  unmapped_space = with_mappings space (unmapped space.mappings start (start + len))

  unmap_there :
      leb (2 ^ 64) (start + len) ≡ false
      → Unmapped p asid start len (record p {
        spaces = insert asid unmapped_space p.spaces;
        resident = retain (λ a q. not (a == asid) || ltb q start || leb (start + len) q) p.resident;
      })
  unmap_there fits = record {
    shows = λ x a. view-insert x asid a unmapped_space p.spaces ∙ elim (Bool-cases (x == asid)) [
      | inl same ↦
          rw (same, fits, view-here p x asid a space there same)
            (view-unmapped space.mappings start (start + len) a mappings-IsValid (omega arith))
      | inr other ↦ rw other refl
    ];
    residents = λ x q.
        is_resident-retain (λ b r. not (b == asid) || ltb r start || leb (start + len) r) p.resident
          x q
        ∙ rw (fits, there) (ground arith);
    well_formed = λ x.
        SpaceValid-insert x asid unmapped_space p.spaces
          (unmapped-IsValid space.mappings start (start + len) mappings-IsValid) (wf x);
  }

-- `unmap` on a well-formed table implements the abstract operation: nothing is left in the range
-- (in the whole address space, if its end is past the last address), neither shown nor resident
-- (where the space exists), every other address of every space shows what it did, and the table
-- stays well formed.
pub unmap_lem :
    (p : Pager) (asid start len : ℕ)
    → IsWellFormed p
    → Unmapped p asid start len (unmap p asid start len)
unfolding unmap
unmap_lem p asid start len wf = elim (Bool-cases (ltb (start + len) (2 ^ 64))) [
  | inr past ↦ rw (unmap, past) (unmap_past p asid start len wf (ground arith))
  | inl fits ↦ elim (Option-cases (get asid p.spaces)) [
    | inl gone ↦ rw (fits, unmap, gone) (unmap_gone p asid start len wf (ground arith) gone)
    | inr (space, there) ↦
        rw (fits, unmap, there) (unmap_there p asid start len wf space there (ground arith))
  ]
]
