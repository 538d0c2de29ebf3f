-- ===== src/Pager/Tests.antt =====
-- The theorems about the pager at concrete inputs: one space with one mapping of two pages.
use web_tos.Prelude.{
  ℕ, ◌+◌, ◌-◌, ◌^◌, ◌≡◌, refl, subst, List, [], ◌∷◌, true, false, Bool-cases, Option, none, some,
  inl, inr, arith, if◌then◌else◌, ◌==◌, min, ok, All,
}
use web_tos.Prelude.NatMap.{get}
use web_tos.Prelude.Bytes.{compare_bytes}
use web_tos.Prelude.ByteMap as ByteMap
use web_tos.Chunk.{ChunkedFile, read_range, read_round, read_loop, chunk_at}
use web_tos.Vfs.{Vfs, contains_index}
use web_tos.Pager.{
  Pager, PageRequest, AddressSpace, reading, map_file, unmap, protect, remap, drop_space, complete,
  is_current, is_resident, cold_pages, last_covering, nonresident_pages, page_state,
}
use web_tos.Pager.Mapping.{FileMapping, page_of}
use web_tos.Pager.Mapping.Clip.{IsValid, shown}
use web_tos.Pager.View.{over}
use web_tos.Pager.Refine.{IsWellFormed, SpaceValid, view_of}
use web_tos.Pager.Unmap.{Unmapped, unmap_lem}
use web_tos.Pager.Protect.{Protected, protect_lem, map_file_lem}
use web_tos.Pager.Ticket.{Completed, complete_lem, Outdates, is_current_lem}
use web_tos.Pager.Cold.{in_space, nonresident_pages_lem}
use web_tos.Pager.Resolve.{
  PermBits, FaultResolution, resolve, target, touching, page_in, fill_page, paint, asked, cleared,
}
use web_tos.Pager.Resolve.Answer.{IsReadable, Readable}
use web_tos.Pager.Resolve.Fault.{Resolution, resolve-Resolution}

abbrev two_chunks : ChunkedFile
two_chunks = record { size = 5000; chunk_size = 4096; chunks = (1 ∷ []) ∷ (2 ∷ []) ∷ [] }

-- `5000` bytes of a file at `8192 .. 16384`.
abbrev mapping : FileMapping
mapping = record {
  start = 8192;
  end = 16384;
  data_start = 8192;
  file_offset = 0;
  file_len = 5000;
  final_perm = 5;
  fill = 0;
  file = two_chunks;
}

mapping-IsValid : IsValid mapping
mapping-IsValid = record {
  nonempty = omega arith;
  words = omega arith;
  data_from = omega arith;
  data_to = omega arith;
  file_words = omega arith;
  in_file = λ h. omega arith;
}

mapping-IsReadable : IsReadable mapping
mapping-IsReadable = record {
  valid = mapping-IsValid;
  layout = record {
    positive = omega arith;
    aligned = refl;
    chunk_size_in = omega arith;
    covers = omega arith;
    tight = omega arith;
    count_in = omega arith;
  };
}

abbrev space : AddressSpace
space = record { generation = 3; mappings = mapping ∷ [] }

abbrev request : PageRequest
request = record {
  ticket = 7;
  hash = 1 ∷ [];
  asid = 1;
  generation = 3;
  page = 8192;
  access = reading;
}

abbrev pager : Pager
pager = record {
  spaces = (1, space) ∷ [];
  resident = (1, 12288) ∷ [];
  pending = some request;
  next_ticket = 7;
  page_ins = 1;
  read_ins = 1;
  write_ins = 0;
  execute_ins = 0;
}

abbrev bare_vfs : Vfs
bare_vfs = record {
  nodes = [];
  chunks = [];
  manifest_root = none;
  storage_budget = none;
  unlinked = [];
}

abbrev bits : PermBits
bits = record { read = 1; write = 2; exec = 4; init = 8 }

only : (x : ℕ) (P : Option AddressSpace → Type 0) → P none → P (some space) → P (get x pager.spaces)
unfolding get
only x P absent there = elim (Bool-cases (x == 1)) [
  | inl here ↦ rw here there
  | inr other ↦ rw other absent
]

pager-IsWellFormed : IsWellFormed pager
pager-IsWellFormed x = only x SpaceValid tt (mapping-IsValid, tt)

abbrev mappings_of : Option AddressSpace → List FileMapping
mappings_of none = []
mappings_of (some s) = s.mappings

pager-Readable : Readable pager
pager-Readable x =
    only x (λ o. (s : AddressSpace) → o ≡ some s → All IsReadable s.mappings) (λ s e. absurd cc)
      (λ s e. subst (λ o. All IsReadable (mappings_of o)) e (mapping-IsReadable, tt))

request_now : is_current pager request ≡ true
unfolding is_current get
request_now = refl

pending_page :
    resolve bits pager bare_vfs 1 8200 reading ≡ ok (FaultResolution.missing request, pager)
unfolding resolve target touching page_in fill_page paint read_range read_round read_loop chunk_at
    is_resident asked cleared ByteMap.get get compare_bytes
pending_page = refl

cold_page : nonresident_pages pager 1 8200 10000 ≡ 8192 ∷ []
unfolding nonresident_pages get cold_pages is_resident
cold_page = refl

page_of_mapping : page_state pager 1 12300 ≡ some (true, 5)
unfolding page_state get last_covering is_resident
page_of_mapping = refl

unmap_lem_example : Unmapped pager 1 8192 4096 (unmap pager 1 8192 4096)
unmap_lem_example = unmap_lem pager 1 8192 4096 pager-IsWellFormed

protect_lem_example : Protected pager 1 8192 4096 1 (protect pager 1 8192 4096 1)
protect_lem_example = protect_lem pager 1 8192 4096 1 pager-IsWellFormed

map_file_lem_example :
    ((x a : ℕ)
      → view_of (map_file pager 2 mapping) x a
        ≡ (if x == 2 then over (shown mapping a) (view_of pager x a) else view_of pager x a))
    × IsWellFormed (map_file pager 2 mapping)
map_file_lem_example = map_file_lem pager 2 mapping pager-IsWellFormed mapping-IsValid

complete_lem_example :
    Completed pager bare_vfs 7
      (record { items = []; capacity = 0 })
      (complete pager bare_vfs 7 (record { items = []; capacity = 0 }))
complete_lem_example = complete_lem pager bare_vfs 7 (record { items = []; capacity = 0 })

is_current_lem_example :
    Outdates (map_file pager 1 mapping) request
    × ((l : ℕ) → Outdates (unmap pager 1 8192 l) request)
    × Outdates (protect pager 1 8192 4096 1) request
    × Outdates (remap pager 1 8192 4096 65536 4096) request
    × Outdates (drop_space pager 1) request
is_current_lem_example =
    is_current_lem pager request mapping 8192 4096 1 65536 4096 refl request_now (omega arith)
      (omega arith)

nonresident_pages_lem_example :
    contains_index (nonresident_pages pager 1 8200 10000) 8192 ≡ elim (get 1 pager.spaces) [
      | none ↦ false
      | some s ↦ in_space pager 1 s.mappings (page_of 8200) (min (8200 + 10000) (2 ^ 64 - 1)) 8192
    ]
nonresident_pages_lem_example = nonresident_pages_lem pager 1 8200 10000 8192

resolve-Resolution_example :
    Resolution bits pager bare_vfs 1 8200 reading (resolve bits pager bare_vfs 1 8200 reading)
resolve-Resolution_example =
    resolve-Resolution bits pager bare_vfs 1 8200 reading pager-Readable (omega arith)
