-- ===== src/Fd/Table/Lookup.antt =====
-- The slots of a descriptor table after `close`, `close_cloexec` and `insert_at` (fd.rs).
use native.Mathlib.Decide.{ℕ_discrete, dec_lt}
use web_tos.Prelude.{
  ℕ, zero, suc, ◌+◌, ◌-◌, ◌≤◌, ◌<◌, max, ◌≡◌, ◌≢◌, ◌⊎◌, get_elem?-lt, refl, ap, true, false, List,
  [], ◌∷◌, Option, none, some, inl, inr, Option-cases, Bool-cases, arith, if◌then◌else◌, leb, ◌==◌,
  length, get_elem?, set, replicate, map, length-set, length-append, length-replicate,
  get_elem?-append, get_elem?-set_self, get_elem?-set_ne, get_elem?-eq-none, Result, ok, err,
}
use web_tos.Abi.{ebadf}
use web_tos.Fd.Table.{
  FdEntry, FdTable, slot, join, pad, fd_limit, usize, IsBounded, close, close_cloexec, keep_on_exec,
  insert_at,
}

get_elem?-replicate : (n i : ℕ) → join (get_elem? (replicate {A = Option FdEntry} n none) i) ≡ none
get_elem?-replicate zero i = refl
get_elem?-replicate (suc n) zero = refl
get_elem?-replicate (suc n) (suc i) = get_elem?-replicate n i

-- Padding adds empty slots only.
pub slot-pad :
    (n : ℕ) (es : List (Option FdEntry)) (i : ℕ)
    → join (get_elem? (pad n es) i) ≡ join (get_elem? es i)
unfolding pad
slot-pad n es i =
    rw (get_elem?-append es (replicate (n - length es) none) i) (elim (dec_lt i (length es)) [
      | yes p ↦ ground arith
      | no p ↦
          ground
            (arith, get_elem?-replicate (n - length es) (i - length es), get_elem?-eq-none es i)
    ])

pub length-pad : (n : ℕ) (es : List (Option FdEntry)) → length (pad n es) ≡ max n (length es)
unfolding pad
length-pad n es = omega (
  arith,
  length-append es (replicate (n - length es) none),
  length-replicate {A = Option FdEntry} (n - length es) none,
)

pub slot-set :
    (es : List (Option FdEntry)) (i j : ℕ) (e : Option FdEntry)
    → i < length es
    → join (get_elem? (set es i e) j) ≡ (if i == j then e else join (get_elem? es j))
slot-set es i j e h = elim (ℕ_discrete i j) [
  | yes same ↦ rw (← same) (ground (arith, get_elem?-set_self es i e h))
  | no differ ↦ ground (arith, get_elem?-set_ne es i j e differ)
]

-- What `close` does to an occupied slot and to any other.
abbrev pub Closed : FdTable → ℕ → Result ℕ (Unit {0}) × FdTable → Type 0
Closed t i r =
    (slot t i ≡ none)
      × (r.0 ≡ err ebadf)
      × ((j : ℕ) → slot r.1 j ≡ slot t j)
      × (length r.1.entries ≡ length t.entries)
    ⊎ (slot t i ≢ none)
      × (r.0 ≡ ok tt)
      × ((j : ℕ) → slot r.1 j ≡ (if i == j then none else slot t j))
      × (length r.1.entries ≡ length t.entries)

-- `close` answers EBADF exactly on an empty slot, and then changes no slot; otherwise it empties
-- the slot of `fd` and no other. The table keeps its length.
pub close_lem : (t : FdTable) (fd : ℕ) → Closed t (usize fd) (close t fd)
unfolding close
close_lem t fd =
    let i = usize fd in
    elim (Option-cases (get_elem? t.entries i)) [
      | inl out ↦ rw (out, close) (inl (refl, refl, λ j. refl, refl))
      | inr (none, here) ↦
          let inside = get_elem?-lt t.entries i here in
          rw (here, close)
            (inl (
              refl,
              refl,
              λ j. ground (arith, slot-set t.entries i j none inside),
              length-set t.entries i none,
            ))
      | inr (some e, here) ↦
          let inside = get_elem?-lt t.entries i here in
          rw (here, close)
            (inr (cc, refl, λ j. slot-set t.entries i j none inside, length-set t.entries i none))
    ]

-- What `execve` does to a descriptor.
abbrev pub Swept : Option FdEntry → Option FdEntry → Type 0
Swept before after =
    (before ≡ none) × (after ≡ none)
    ⊎ ((e : FdEntry) × (before ≡ some e) × (e.cloexec ≡ true) × (after ≡ none))
    ⊎ ((e : FdEntry) × (before ≡ some e) × (e.cloexec ≡ false) × (after ≡ some e))

Swept-keep_on_exec : (o : Option FdEntry) → Swept o (keep_on_exec o)
Swept-keep_on_exec none = inl (refl, refl)
Swept-keep_on_exec (some e) = elim (Bool-cases e.cloexec) [
  | inl marked ↦ inr (inl (e, refl, marked, rw marked refl))
  | inr kept ↦ inr (inr (e, refl, kept, rw kept refl))
]

Swept-map :
    (es : List (Option FdEntry)) (j : ℕ)
    → Swept (join (get_elem? es j)) (join (get_elem? (map keep_on_exec es) j))
Swept-map [] j = inl (refl, refl)
Swept-map (e ∷ es) zero = Swept-keep_on_exec e
Swept-map (e ∷ es) (suc j) = Swept-map es j

length-swept : (es : List (Option FdEntry)) → length (map keep_on_exec es) ≡ length es
length-swept [] = refl
length-swept (e ∷ es) = ap suc (length-swept es)

-- `execve`: a descriptor that is marked close-on-exec is emptied, one that is not marked stays with
-- its entry, an empty one stays empty, and the table keeps its length.
pub slot-close_cloexec :
    (t : FdTable) (i : ℕ)
    → Swept (slot t i) (slot (close_cloexec t) i)
      × (length (close_cloexec t).entries ≡ length t.entries)
unfolding close_cloexec
slot-close_cloexec t i = (Swept-map t.entries i, length-swept t.entries)

-- `insert_at` (`dup2`): EBADF exactly from the limit on, and then nothing changes; otherwise the
-- entry stands at `fd`, the other slots are as they were, and the table stays within its limit.
pub insert_at_lem :
    (t : FdTable) (fd : ℕ) (entry : FdEntry)
    → IsBounded t
    → (fd_limit ≤ usize fd) × (insert_at t fd entry ≡ (err ebadf, t))
      ⊎ (usize fd < fd_limit)
        × ((insert_at t fd entry).0 ≡ ok (usize fd))
        × ((j : ℕ)
            → slot (insert_at t fd entry).1 j ≡ (if usize fd == j then some entry else slot t j))
        × IsBounded (insert_at t fd entry).1
unfolding insert_at
insert_at_lem t fd entry bounded =
    let i = usize fd in
    let padded = length-pad (i + 1) t.entries in
    elim (Bool-cases (leb fd_limit i)) [
      | inl over ↦ rw over (inl (ground arith, refl))
      | inr under ↦
          let fits : i < fd_limit = ground arith in
          rw under (
            inr (
              fits,
              refl,
              λ j. ground (
                arith,
                slot-set (pad (i + 1) t.entries) i j (some entry),
                slot-pad (i + 1) t.entries j,
                padded,
              ),
              omega (arith, padded, length-set (pad (i + 1) t.entries) i (some entry)),
            ))
    ]
