-- ===== src/Pager/Resolve.antt =====
-- `Pager::resolve` (pager.rs): which page a fault needs, how its bytes are put together, and the
-- one page-in that may be asked for. `icicle_cpu::mem::perm` is a parameter.
pub mod Painted
pub mod Request
pub mod Answer
pub mod Target
pub mod Fault
use Prim.Native.Nat.{bit_and}
use web_tos.Prelude.{
  ℕ, ◌+◌, ◌-◌, ◌%◌, ◌^◌, min, max, List, [], ◌∷◌, Bool, true, false, not, ◌&&◌, ◌||◌, Option, none,
  some, if◌then◌else◌, ltb, leb, ◌==◌, length, replicate, Result, ok, err, ◌>>=◌, Stop, panic,
}
use web_tos.Prelude.Bytes.{Bytes, bytes_eq}
use web_tos.Prelude.NatMap.{get}
use web_tos.Digest.{copy_at}
use web_tos.Chunk.{Hash, ChunkStore, ReadRange, read_range}
use web_tos.Vfs.{Vfs}
use web_tos.Pager.{
  Pager, PageRequest, AddressSpace, AccessKind, reading, writing, executing, bump, is_resident,
}
use web_tos.Pager.Mapping.{FileMapping, page_of, page_size, covers, data_end}

-- `perm::READ`, `WRITE`, `EXEC` and `INIT`
pub record PermBits : Type 0 where
  pub read : ℕ
  pub write : ℕ
  pub exec : ℕ
  pub init : ℕ

-- The messages of `Invalid`; the one of a chunk is that of `read_range`.
pub data Why : Type 0 where
  short_range second_page_in : Why
  bad_chunk : ℕ → ℕ → ℕ → Why

pub data FaultResolution : Type 0 where
  not_lazy : FaultResolution
  ready : ℕ → Bytes → ℕ → FaultResolution
  missing : PageRequest → FaultResolution
  invalid : Why → FaultResolution

unfoldable pub touching : List FileMapping → ℕ → List FileMapping
touching [] page = []
touching (m ∷ mappings) page =
    let rest = touching mappings page in if covers m page then m ∷ rest else rest

-- The permission of the last mapping grants the access.
unfoldable pub last_grants : List FileMapping → ℕ → Bool
last_grants [] required = false
last_grants (m ∷ []) required = not (bit_and m.final_perm required == 0)
last_grants (_ ∷ (m ∷ mappings)) required = last_grants (m ∷ mappings) required

abbrev pub required : PermBits → AccessKind → ℕ
required bits reading = bits.read
required bits writing = bits.write
required bits executing = bits.exec

abbrev pub next_page : ℕ → ℕ
next_page page = min (page + page_size) (2 ^ 64 - 1)

-- The page to bring in and the mappings that touch it; none where the fault is not lazy.
unfoldable pub target :
    PermBits → Pager → List FileMapping → ℕ → ℕ → AccessKind → Option (ℕ × List FileMapping)
target bits p mappings asid page access = elim (touching mappings page) [
  | [] ↦ none
  | m ∷ here ↦
      let next = next_page page in
      let beyond = touching mappings next in
      if not (is_resident p.resident asid page)
      then some (page, m ∷ here)
      else if not (last_grants (m ∷ here) (required bits access))
      then none
      else if not (last_grants beyond (required bits access)) || is_resident p.resident asid next
      then none
      else some (next, beyond)
]

-- How the loop over the mappings ends.
pub data Scan : Type 0 where
  filled : Bytes → ℕ → Scan
  lacks : Hash → Scan
  broken : Why → Scan

-- The zeros after the data of a mapping.
unfoldable pub cleared : FileMapping → ℕ → Bytes → Bytes
cleared m page bytes =
    let zero_start = max (data_end m) page in
    let zero_end = min m.end ((page + page_size) % 2 ^ 64) in
    if ltb zero_start zero_end
    then copy_at bytes (zero_start - page) (replicate (zero_end - zero_start) 0)
    else bytes

-- What a read of `len` bytes for the place `at` makes of the page.
abbrev pub placed : ℕ → Bytes → ℕ → ℕ → Result Stop ReadRange → Result Stop Scan
placed perm bytes at len (ok (ReadRange.ready part)) =
    if length part == len then ok (filled (copy_at bytes at part) perm) else ok (broken short_range)
placed perm bytes at len (ok (ReadRange.missing hash)) = ok (lacks hash)
placed perm bytes at len (ok (ReadRange.invalid i n k)) = ok (broken (bad_chunk i n k))
placed perm bytes at len (err e) = err e

-- One round of the loop.
unfoldable pub paint : ChunkStore → ℕ → FileMapping → Bytes → Result Stop Scan
paint chunks page m bytes =
    let copy_start = max page m.data_start in
    let copy_end = min ((page + page_size) % 2 ^ 64) (data_end m) in
    let file_offset = (m.file_offset + (copy_start - m.data_start)) % 2 ^ 64 in
    let len = (copy_end - copy_start) % 2 ^ 32 in
    if leb copy_end copy_start
    then ok (filled (cleared m page bytes) m.final_perm)
    else placed m.final_perm (cleared m page bytes) (copy_start - page) len
        (read_range chunks m.file file_offset len)

unfoldable pub fill_page : ChunkStore → ℕ → List FileMapping → Bytes → ℕ → Result Stop Scan
fill_page chunks page [] bytes perm = ok (filled bytes perm)
fill_page chunks page (m ∷ mappings) bytes perm = elim (paint chunks page m bytes) [
  | err e ↦ err e
  | ok (lacks hash) ↦ ok (lacks hash)
  | ok (broken why) ↦ ok (broken why)
  | ok (filled painted now) ↦ fill_page chunks page mappings painted now
]

abbrev pub same_request : PageRequest → Hash → ℕ → ℕ → ℕ → Bool
same_request r hash asid generation page =
    bytes_eq r.hash hash && r.asid == asid && r.generation == generation && r.page == page

-- A chunk is missing: the request that is pending, or a new one.
unfoldable pub asked : Pager → ℕ → ℕ → ℕ → AccessKind → Hash → FaultResolution × Pager
asked p asid generation page access hash = elim p.pending [
  | some r ↦
      if same_request r hash asid generation page
      then (missing r, p)
      else (invalid second_page_in, p)
  | none ↦
      let ticket = bump p.next_ticket in
      let r : PageRequest = record {
        ticket = ticket;
        hash = hash;
        asid = asid;
        generation = generation;
        page = page;
        access = access;
      } in
      (missing r, record p { pending = some r; next_ticket = ticket })
]

abbrev pub concluded :
    Pager → ℕ → ℕ → ℕ → AccessKind → Result Stop Scan → Result Stop (FaultResolution × Pager)
concluded p asid generation page access (err e) = err e
concluded p asid generation page access (ok (filled bytes perm)) = ok (ready page bytes perm, p)
concluded p asid generation page access (ok (broken why)) = ok (invalid why, p)
concluded p asid generation page access (ok (lacks hash)) =
    ok (asked p asid generation page access hash)

-- `vec![fill; PAGE_SIZE]`
unfoldable pub full_page : ℕ → Bytes
full_page fill = replicate page_size fill

-- The bytes of a page: `touching[0]` is there.
unfoldable pub page_in : PermBits → ChunkStore → ℕ → List FileMapping → Result Stop Scan
page_in bits chunks page [] = err panic
page_in bits chunks page (m ∷ mappings) =
    fill_page chunks page (m ∷ mappings) (full_page m.fill) bits.init

-- `resolve`
unfoldable pub resolve :
    PermBits → Pager → Vfs → ℕ → ℕ → AccessKind → Result Stop (FaultResolution × Pager)
resolve bits p v asid address access = elim (get asid p.spaces) [
  | none ↦ ok (not_lazy, p)
  | some space ↦ elim (target bits p space.mappings asid (page_of address) access) [
    | none ↦ ok (not_lazy, p)
    | some (page, mappings) ↦
        concluded p asid space.generation page access (page_in bits v.chunks page mappings)
  ]
]
