-- ===== src/Fd/Table/Insert.antt =====
-- `insert_from` (fd.rs, `dup`, `open`, `F_DUPFD`): the lowest free descriptor.
use native.Mathlib.Decide.{dec_lt}
use web_tos.Prelude.{
  ℕ, zero, suc, ◌≤◌, ◌<◌, ◌≡◌, refl, sym, ◌∙◌, List, [], ◌∷◌, ◌++◌, true, false, Option, none, some,
  inl, inr, Option-cases, Bool-cases, arith, if◌then◌else◌, leb, ◌==◌, length, get_elem?,
  length-set, length-append, get_elem?-eq-none, Result, ok, err,
}
use web_tos.Abi.{einval, emfile}
use web_tos.Fd.Table.{
  FdEntry, FdTable, slot, join, pad, first_free, fd_limit, IsBounded, insert_from,
}
use web_tos.Fd.Table.Lookup.{slot-pad, length-pad, slot-set}

abbrev Free : List (Option FdEntry) → ℕ → Type 0
Free es i = join (get_elem? es i) ≡ none

-- The first free slot from `skip` on.
abbrev Lowest : List (Option FdEntry) → ℕ → ℕ → Type 0
Lowest es skip i =
    (skip ≤ i) × (i < length es) × Free es i × ((j : ℕ) → skip ≤ j → j < i → ¬ Free es j)

first_free-some :
    (es : List (Option FdEntry)) (skip i : ℕ) → first_free es skip ≡ some i → Lowest es skip i
unfolding first_free
first_free-some [] skip i e = cc
first_free-some (x ∷ es) (suc skip) zero e = absurd (ground arith)
first_free-some (x ∷ es) (suc skip) (suc i) e =
    let h = first_free-some es skip i (ground arith) in
    (omega (arith, h.0), omega (arith, h.1), h.2, before h.3)
  where
    before :
        ((j : ℕ) → skip ≤ j → j < i → ¬ Free es j)
        → (j : ℕ) → suc skip ≤ j
        → j < suc i
        → ¬ Free (x ∷ es) j
    before g zero lo hi = absurd (omega arith)
    before g (suc j) lo hi = g j (omega arith) (omega arith)
first_free-some (none ∷ es) zero zero e =
    (omega arith, omega arith, refl, λ j lo hi. absurd (omega arith))
first_free-some (none ∷ es) zero (suc i) e = absurd (ground arith)
first_free-some (some x ∷ es) zero zero e = absurd (ground arith)
first_free-some (some x ∷ es) zero (suc i) e =
    let h = first_free-some es zero i (ground arith) in
    (omega arith, omega (arith, h.1), h.2, before h.3)
  where
    before :
        ((j : ℕ) → zero ≤ j → j < i → ¬ Free es j)
        → (j : ℕ) → zero ≤ j
        → j < suc i
        → ¬ Free (some x ∷ es) j
    before g zero lo hi = cc
    before g (suc j) lo hi = g j (omega arith) (omega arith)

first_free-none :
    (es : List (Option FdEntry)) (skip : ℕ)
    → first_free es skip ≡ none
    → (j : ℕ) → skip ≤ j
    → j < length es
    → ¬ Free es j
unfolding first_free
first_free-none [] skip e j lo hi = absurd (omega arith)
first_free-none (x ∷ es) (suc skip) e zero lo hi = absurd (omega arith)
first_free-none (x ∷ es) (suc skip) e (suc j) lo hi =
    first_free-none es skip (ground arith) j (omega arith) (omega arith)
first_free-none (none ∷ es) zero e j lo hi = cc
first_free-none (some x ∷ es) zero e zero lo hi = cc
first_free-none (some x ∷ es) zero e (suc j) lo hi =
    first_free-none es zero (ground arith) j (omega arith) (omega arith)

-- What `insert_from` promises. A descriptor is the lowest free one from `min` on: it was empty, no
-- lower one was, it now holds the entry, and every other slot is as it was.
pub data Inserted (t : FdTable) (min : ℕ) (entry : FdEntry) (r : Result ℕ ℕ × FdTable)
    : Type 0 where
  placed :
      (fd : ℕ)
      → r.0 ≡ ok fd
      → min ≤ fd
      → fd < fd_limit
      → slot t fd ≡ none
      → ((j : ℕ) → min ≤ j → j < fd → ¬ (slot t j ≡ none))
      → ((j : ℕ) → slot r.1 j ≡ (if fd == j then some entry else slot t j))
      → Inserted t min entry r
  -- `min` is past the limit.
  refused : fd_limit ≤ min → r ≡ (err einval, t) → Inserted t min entry r
  -- Every descriptor from `min` to the limit is taken.
  full :
      min < fd_limit
      → r.0 ≡ err emfile
      → ((j : ℕ) → min ≤ j → j < fd_limit → ¬ (slot t j ≡ none))
      → ((j : ℕ) → slot r.1 j ≡ slot t j)
      → Inserted t min entry r

-- A slot pushed behind the others.
slot-push :
    (es : List (Option FdEntry)) (entry : FdEntry) (j : ℕ)
    → join (get_elem? (es ++ (some entry ∷ [])) j)
      ≡ (if length es == j then some entry else join (get_elem? es j))
slot-push [] entry zero = refl
slot-push [] entry (suc j) = ground arith
slot-push (e ∷ es) entry zero = ground arith
slot-push (e ∷ es) entry (suc j) = ground (arith, slot-push es entry j)

-- On a table within its limit: EINVAL from the limit on, EMFILE when every slot from `min` on is
-- taken, and otherwise the lowest free descriptor from `min` on, which then holds the entry. No
-- other slot changes, and the table stays within its limit.
pub insert_from_lem :
    (t : FdTable) (min : ℕ) (entry : FdEntry)
    → IsBounded t
    → Inserted t min entry (insert_from t min entry) × IsBounded (insert_from t min entry).1
unfolding insert_from
insert_from_lem t min entry bounded =
    let es = pad min t.entries in
    let size = length-pad min t.entries in
    elim (dec_lt min fd_limit) [
      | no over ↦
          let e : leb fd_limit min ≡ true = ground arith in
          rw (e, insert_from) (refused (omega arith) refl, bounded)
      | yes under ↦
          let e : leb fd_limit min ≡ false = ground arith in
          elim (Option-cases (first_free es min)) [
            | inr (fd, found) ↦
                let h = first_free-some es min fd found in
                rw (e, insert_from, found)
                  (
                    placed fd refl h.0 (omega arith) (sym (slot-pad min t.entries fd) ∙ h.2)
                        (λ j lo hi free. h.3 j lo hi (slot-pad min t.entries j ∙ free))
                        (λ j.
                          ground
                            (arith, slot-set es fd j (some entry) h.1, slot-pad min t.entries j)),
                    omega (arith, size, length-set es fd (some entry)),
                  )
            | inl all_taken ↦ elim (Bool-cases (leb fd_limit (length es))) [
              | inl big ↦
                  rw (e, insert_from, all_taken, big)
                    (
                      full under refl
                          (λ j lo hi free.
                            first_free-none es min all_taken j lo (ground arith)
                              (slot-pad min t.entries j ∙ free))
                          (λ j. slot-pad min t.entries j),
                      omega (arith, size),
                    )
              | inr small ↦
                  rw (e, insert_from, all_taken, small)
                    (
                      placed (length es) refl (omega (arith, size)) (ground arith)
                          (rw (get_elem?-eq-none t.entries (length es) (omega (arith, size))) refl)
                          (λ j lo hi free.
                            first_free-none es min all_taken j lo hi
                              (slot-pad min t.entries j ∙ free))
                          (λ j. ground (arith, slot-push es entry j, slot-pad min t.entries j)),
                      ground (arith, length-append es (some entry ∷ [])),
                    )
            ]
          ]
    ]
