-- ===== src/Fd/Table.antt =====
-- `FdTable` of fd.rs. An entry names its open file description by a number, which stands for the
-- `Rc` that descriptors share. `fd as usize` is the cast of the browser build (32 bits).
pub mod Lookup
pub mod Insert
mod Tests
use web_tos.Prelude.{
  ℕ, zero, suc, ◌+◌, ◌-◌, ◌%◌, ◌^◌, ◌≤◌, List, [], ◌∷◌, ◌++◌, Bool, true, false, Option, none, some,
  if◌then◌else◌, ltb, leb, length, get_elem?, set, replicate, Result, ok, err, map, ok_or, ◌>>=◌,
}
use web_tos.Abi.{ebadf, einval, emfile}

pub record FdEntry : Type 0 where
  pub desc : ℕ
  pub cloexec : Bool

pub record FdTable : Type 0 where
  pub entries : List (Option FdEntry)

abbrev pub fd_limit : ℕ
fd_limit = 1024

abbrev pub usize : ℕ → ℕ
usize fd = fd % 2 ^ 32

abbrev pub join : Option (Option FdEntry) → Option FdEntry
join none = none
join (some e) = e

-- `FdTable::new` over the three standard descriptions.
unfoldable pub new : ℕ → ℕ → ℕ → FdTable
new stdin stdout stderr =
    let std : ℕ → Option FdEntry = λ d. some (record { desc = d; cloexec = false }) in
    record { entries = std stdin ∷ std stdout ∷ std stderr ∷ [] }

-- `Clone for FdTable` (fork): its own list, the same descriptions.
unfoldable pub clone : FdTable → FdTable
clone t = record { entries = t.entries }

-- `iter`: the occupied descriptors with their numbers, counted from `fd`.
unfoldable pub iter_from : ℕ → List (Option FdEntry) → List (ℕ × FdEntry)
iter_from fd [] = []
iter_from fd (none ∷ es) = iter_from (fd + 1) es
iter_from fd (some e ∷ es) = (fd, e) ∷ iter_from (fd + 1) es

unfoldable pub iter : FdTable → List (ℕ × FdEntry)
unfolding iter_from
iter t = iter_from 0 t.entries

-- `get` (and `get_mut`, whose write is `set_entry`)
unfoldable pub get : FdTable → ℕ → Result ℕ FdEntry
get t fd = ok_or (join (get_elem? t.entries (usize fd))) ebadf

-- What a caller of `get_mut` writes through the reference.
unfoldable pub set_entry : FdTable → ℕ → FdEntry → Result ℕ FdTable
unfolding get
set_entry t fd entry = do
  old ← get t fd
  ok (record { entries = set t.entries (usize fd) (some entry) })

-- `while entries.len() < n { entries.push(None) }`
unfoldable pub pad : ℕ → List (Option FdEntry) → List (Option FdEntry)
pad n es = es ++ replicate (n - length es) none

-- The scan of `insert_from`: the first empty slot at or after `skip`.
unfoldable pub first_free : List (Option FdEntry) → ℕ → Option ℕ
first_free [] skip = none
first_free (e ∷ es) (suc skip) = elim (first_free es skip) [ none ↦ none | some i ↦ some (suc i) ]
first_free (none ∷ es) zero = some 0
first_free (some e ∷ es) zero = elim (first_free es zero) [ none ↦ none | some i ↦ some (suc i) ]

-- `insert_from`: the table that it leaves beside its result.
unfoldable pub insert_from : FdTable → ℕ → FdEntry → Result ℕ ℕ × FdTable
unfolding pad first_free
insert_from t min entry =
    let es = pad min t.entries in
    if leb fd_limit min then (err einval, t) else elim (first_free es min) [
      | some fd ↦ (ok fd, record { entries = set es fd (some entry) })
      | none ↦
          if leb fd_limit (length es)
          then (err emfile, record { entries = es })
          else (ok (length es), record { entries = es ++ (some entry ∷ []) })
    ]

unfoldable pub insert : FdTable → FdEntry → Result ℕ ℕ × FdTable
unfolding insert_from
insert t entry = insert_from t 0 entry

-- `insert_at`: what stood there is dropped.
unfoldable pub insert_at : FdTable → ℕ → FdEntry → Result ℕ ℕ × FdTable
unfolding pad
insert_at t fd entry =
    let i = usize fd in
    if leb fd_limit i
    then (err ebadf, t)
    else (ok i, record { entries = set (pad (i + 1) t.entries) i (some entry) })

abbrev pub keep_on_exec : Option FdEntry → Option FdEntry
keep_on_exec none = none
keep_on_exec (some e) = if e.cloexec then none else some e

-- `close_cloexec`
unfoldable pub close_cloexec : FdTable → FdTable
close_cloexec t = record { entries = map keep_on_exec t.entries }

-- `close`: `slot.take()` empties the slot on both of its ends.
unfoldable pub close : FdTable → ℕ → Result ℕ (Unit {0}) × FdTable
close t fd =
    let i = usize fd in
    elim (get_elem? t.entries i) [
      | none ↦ (err ebadf, t)
      | some none ↦ (err ebadf, record { entries = set t.entries i none })
      | some (some e) ↦ (ok tt, record { entries = set t.entries i none })
    ]

-- The descriptor `i` of a table, the abstract view of it.
abbrev pub slot : FdTable → ℕ → Option FdEntry
slot t i = join (get_elem? t.entries i)

-- A table never grows past the limit.
abbrev pub IsBounded : FdTable → Type 0
IsBounded t = length t.entries ≤ fd_limit
