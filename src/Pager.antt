-- ===== src/Pager.antt =====
-- crates/linux-compat/src/pager.rs: the table of lazy file mappings and its page-in requests. The
-- permission bits are the engine's, a parameter.
pub mod Mapping
pub mod Space
pub mod View
pub mod Refine
pub mod Unmap
pub mod Protect
pub mod Resolve
pub mod Cold
pub mod Ticket
mod Tests
use web_tos.Prelude.{
  ℕ, zero, suc, ◌+◌, ◌-◌, ◌/◌, ◌%◌, ◌^◌, min, max, List, [], ◌∷◌, ◌++◌, Bool, true, false, not,
  ◌&&◌, ◌||◌, Option, none, some, if◌then◌else◌, ltb, leb, ◌==◌, is_empty, any, all, Result, ok,
  err,
}
use web_tos.Prelude.NatMap.{NatMap, get, insert, remove}
use web_tos.Chunk.{Hash, ByteVec}
use web_tos.Vfs.{Vfs}
use web_tos.Vfs.Storage.{PutError, put_chunk}
use web_tos.Pager.Mapping.{FileMapping, page_of, page_size, covers, checked_add}
use web_tos.Pager.Space.{unmapped, protected, moved}

pub data AccessKind : Type 0 where
  reading writing executing : AccessKind

pub record PageRequest : Type 0 where
  pub ticket : ℕ
  pub hash : Hash
  pub asid : ℕ
  pub generation : ℕ
  pub page : ℕ
  pub access : AccessKind

pub record AddressSpace : Type 0 where
  pub generation : ℕ
  pub mappings : List FileMapping

-- `page_ins_by_access` by its three places.
pub record Pager : Type 0 where
  pub spaces : NatMap AddressSpace
  pub resident : List (ℕ × ℕ)
  pub pending : Option PageRequest
  pub next_ticket : ℕ
  pub page_ins : ℕ
  pub read_ins : ℕ
  pub write_ins : ℕ
  pub execute_ins : ℕ

-- `wrapping_add(1).max(1)`
abbrev pub bump : ℕ → ℕ
bump n = max ((n + 1) % 2 ^ 64) 1

abbrev pub no_mappings : AddressSpace
no_mappings = record { generation = 0; mappings = [] }

-- `entry(asid).or_default()`
abbrev pub or_default : Option AddressSpace → AddressSpace
or_default none = no_mappings
or_default (some space) = space

abbrev pub with_space : Pager → ℕ → AddressSpace → Pager
with_space p asid space = record p { spaces = insert asid space p.spaces }

abbrev pub with_mappings : AddressSpace → List FileMapping → AddressSpace
with_mappings space mappings = record { generation = bump space.generation; mappings = mappings }

-- `resident.contains`
unfoldable pub is_resident : List (ℕ × ℕ) → ℕ → ℕ → Bool
is_resident [] asid page = false
is_resident ((a, q) ∷ pages) asid page = (a == asid && q == page) || is_resident pages asid page

-- `resident.retain`
unfoldable pub retain : (ℕ → ℕ → Bool) → List (ℕ × ℕ) → List (ℕ × ℕ)
retain keep [] = []
retain keep ((a, q) ∷ pages) =
    let rest = retain keep pages in if keep a q then (a, q) ∷ rest else rest

-- `map`
unfoldable pub map_file : Pager → ℕ → FileMapping → Pager
map_file p asid mapping =
    let space = or_default (get asid p.spaces) in
    with_space p asid (with_mappings space (space.mappings ++ (mapping ∷ [])))

unfoldable pub no_lazy : NatMap AddressSpace → Bool
no_lazy [] = true
no_lazy ((asid, space) ∷ spaces) = is_empty space.mappings && no_lazy spaces

-- `Pager::is_empty`
unfoldable pub nothing_lazy : Pager → Bool
nothing_lazy p = no_lazy p.spaces

-- `generation`
unfoldable pub generation_of : Pager → ℕ → ℕ
generation_of p asid = elim (get asid p.spaces) [ none ↦ 0 | some space ↦ space.generation ]

-- The loop of `nonresident_pages` over `fuel` pages; a saturated address ends it.
unfoldable pub cold_pages : ℕ → Pager → List FileMapping → ℕ → ℕ → ℕ → List ℕ
cold_pages zero p mappings asid page end = []
cold_pages (suc fuel) p mappings asid page end =
    let rest = cold_pages fuel p mappings asid (page + page_size) end in
    if ltb page end
    then (if not (is_resident p.resident asid page) && any (λ m. covers m page) mappings
        then page ∷ rest
        else rest)
    else []

unfoldable pub nonresident_pages : Pager → ℕ → ℕ → ℕ → List ℕ
nonresident_pages p asid start len = elim (get asid p.spaces) [
  | none ↦ []
  | some space ↦
      let end = min (start + len) (2 ^ 64 - 1) in
      let page = page_of start in
      cold_pages ((end - page) / page_size + 1) p space.mappings asid page end
]

-- `rfind`
unfoldable pub last_covering : List FileMapping → ℕ → Option FileMapping
last_covering [] page = none
last_covering (m ∷ mappings) page = elim (last_covering mappings page) [
  | some n ↦ some n
  | none ↦ if covers m page then some m else none
]

unfoldable pub page_state : Pager → ℕ → ℕ → Option (Bool × ℕ)
page_state p asid address =
    let page = page_of address in
    elim (get asid p.spaces) [
      | none ↦ none
      | some space ↦ elim (last_covering space.mappings page) [
        | none ↦ none
        | some m ↦ some (is_resident p.resident asid page, m.final_perm)
      ]
    ]

unfoldable pub mark_resident : Pager → ℕ → ℕ → AccessKind → Pager
mark_resident p asid address access =
    let page = page_of address in
    if is_resident p.resident asid page then p else record p {
      resident = (asid, page) ∷ p.resident;
      page_ins = p.page_ins + 1;
      read_ins = elim access [ reading ↦ p.read_ins + 1 | _ ↦ p.read_ins ];
      write_ins = elim access [ writing ↦ p.write_ins + 1 | _ ↦ p.write_ins ];
      execute_ins = elim access [ executing ↦ p.execute_ins + 1 | _ ↦ p.execute_ins ];
    }

unfoldable pub drop_space : Pager → ℕ → Pager
drop_space p asid = record p {
  spaces = remove asid p.spaces;
  resident = retain (λ a q. not (a == asid)) p.resident;
}

unfoldable pub unmap : Pager → ℕ → ℕ → ℕ → Pager
unmap p asid start len = elim (checked_add start len) [
  | none ↦ drop_space p asid
  | some end ↦ elim (get asid p.spaces) [
    | none ↦ p
    | some space ↦ record p {
      spaces = insert asid (with_mappings space (unmapped space.mappings start end)) p.spaces;
      resident = retain (λ a q. not (a == asid) || ltb q start || leb end q) p.resident;
    }
  ]
]

unfoldable pub protect : Pager → ℕ → ℕ → ℕ → ℕ → Pager
protect p asid start len new_perm = elim (checked_add start len) [
  | none ↦ p
  | some end ↦ elim (get asid p.spaces) [
    | none ↦ p
    | some space ↦
        with_space p asid (with_mappings space (protected space.mappings start end new_perm))
  ]
]

-- The resident pages of `fork_space` and `remap`, for another place.
unfoldable pub inherited : (ℕ → ℕ → Bool) → ℕ → (ℕ → ℕ) → List (ℕ × ℕ) → List (ℕ × ℕ)
inherited chosen child place [] = []
inherited chosen child place ((a, q) ∷ pages) =
    let rest = inherited chosen child place pages in
    if chosen a q then (child, place q) ∷ rest else rest

unfoldable pub remap : Pager → ℕ → ℕ → ℕ → ℕ → ℕ → Pager
remap p asid old_start old_len new_start new_len = elim (get asid p.spaces) [
  | none ↦ p
  | some space ↦
      let old_end = min (old_start + old_len) (2 ^ 64 - 1) in
      let copy_end = min (old_start + min old_len new_len) (2 ^ 64 - 1) in
      let kept = retain (λ a q. not (a == asid) || ltb q old_start || leb old_end q) p.resident in
      record p {
        spaces =
            insert asid
              (with_mappings space (moved space.mappings old_start old_len new_start new_len))
              p.spaces;
        resident =
            inherited (λ a q. (a == asid) && leb old_start q && ltb q copy_end) asid
              (λ q. (new_start + (q - old_start)) % 2 ^ 64) p.resident
            ++ kept;
      }
]

unfoldable pub fork_space : Pager → ℕ → ℕ → Pager
fork_space p parent child = elim (get parent p.spaces) [
  | none ↦ p
  | some space ↦ record p {
    spaces = insert child space p.spaces;
    resident = inherited (λ a q. a == parent) child (λ q. q) p.resident ++ p.resident;
  }
]

-- The messages of `complete`.
pub data CompleteError : Type 0 where
  none_pending wrong_ticket stale : CompleteError
  not_put : PutError → CompleteError

-- Whether the coordinates of a request still hold.
unfoldable pub is_current : Pager → PageRequest → Bool
is_current p r = elim (get r.asid p.spaces) [
  | none ↦ false
  | some space ↦ (space.generation == r.generation) && any (λ m. covers m r.page) space.mappings
]

-- A delivery while `r` is pending.
unfoldable pub delivered :
    Pager → Vfs → ℕ → ByteVec → PageRequest → Result CompleteError (Unit {0}) × Pager × Vfs
delivered p v ticket bytes_of r =
    if not (r.ticket == ticket)
    then (err wrong_ticket, p, v)
    else if not (is_current p r)
    then (err stale, record p { pending = none }, v)
    else elim (put_chunk v r.hash bytes_of) [
      | err e ↦ (err (not_put e), p, v)
      | ok w ↦ (ok tt, record p { pending = none }, w)
    ]

-- `complete`
unfoldable pub complete : Pager → Vfs → ℕ → ByteVec → Result CompleteError (Unit {0}) × Pager × Vfs
unfolding delivered
complete p v ticket bytes_of = elim p.pending [
  | none ↦ (err none_pending, p, v)
  | some r ↦ delivered p v ticket bytes_of r
]
