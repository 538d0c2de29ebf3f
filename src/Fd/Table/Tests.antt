-- ===== src/Fd/Table/Tests.antt =====
-- The theorems about descriptor tables at concrete inputs.
use web_tos.Prelude.{
  length, ℕ, ◌<◌, ◌≤◌, ◌≡◌, ◌⊎◌, refl, [], ◌∷◌, true, some, none, ok, err, if◌then◌else◌, ◌==◌,
  arith,
}
use web_tos.Abi.{ebadf}
use web_tos.Fd.Table.{
  FdEntry, FdTable, slot, usize, fd_limit, IsBounded, close, close_cloexec, insert_at, insert_from,
}
use web_tos.Fd.Table.Lookup.{Closed, close_lem, Swept, slot-close_cloexec, insert_at_lem}
use web_tos.Fd.Table.Insert.{Inserted, insert_from_lem}

abbrev entry : ℕ → FdEntry
entry d = record { desc = d; cloexec = true }

abbrev holed : FdTable
holed = record { entries = some (entry 1) ∷ none ∷ some (entry 2) ∷ [] }

lowest_is_one : (insert_from holed 0 (entry 9)).0 ≡ ok 1
unfolding insert_from
lowest_is_one = refl

close_lem_example : Closed holed (usize 2) (close holed 2)
close_lem_example = close_lem holed 2

slot-close_cloexec_example :
    Swept (slot holed 2) (slot (close_cloexec holed) 2)
    × (length (close_cloexec holed).entries ≡ length holed.entries)
slot-close_cloexec_example = slot-close_cloexec holed 2

insert_at_lem_example :
    (fd_limit ≤ usize 7) × (insert_at holed 7 (entry 9) ≡ (err ebadf, holed))
    ⊎ (usize 7 < fd_limit)
      × ((insert_at holed 7 (entry 9)).0 ≡ ok (usize 7))
      × ((j : ℕ)
          → slot (insert_at holed 7 (entry 9)).1 j
            ≡ (if usize 7 == j then some (entry 9) else slot holed j))
      × IsBounded (insert_at holed 7 (entry 9)).1
insert_at_lem_example = insert_at_lem holed 7 (entry 9) (omega arith)

insert_from_lem_example :
    Inserted holed 0 (entry 9) (insert_from holed 0 (entry 9))
    × IsBounded (insert_from holed 0 (entry 9)).1
insert_from_lem_example = insert_from_lem holed 0 (entry 9) (omega arith)
