-- ===== src/Vfs/Storage.antt =====
-- What the tree holds (vfs.rs): `bytes`, the storage budget, `reserve`, `release_unreferenced`,
-- and the readers and writers of whole files. `usize` is that of the browser build.
pub mod Budget
pub mod Reclaim
use web_tos.Prelude.{
  ℕ, zero, suc, ◌+◌, ◌-◌, ◌^◌, min, List, [], ◌∷◌, ◌++◌, Bool, true, false, Option, none, some,
  if◌then◌else◌, leb, ◌==◌, get_elem?, set, take, drop, length, Result, ok, err, ◌>>=◌, ok_or, Stop,
}
use web_tos.Prelude.Bytes.{Bytes}
use web_tos.Chunk.{
  StoreError, store_insert, contains, ByteVec, ReadRange, ready, missing, invalid, read_range,
  first_missing, store_bytes, Hash,
}
use web_tos.Abi.{enoent, eisdir, einval, enospc}
use web_tos.Vfs.{
  Vfs, Node, NodeKind, dir, file, chunked, symlink, char_dev, data_len, Fault, errno, stopped,
  contains_index,
}

abbrev pub usize_max : ℕ
usize_max = 2 ^ 32 - 1

-- The sum of `data_len` over the arena.
unfoldable pub nodes_bytes : List Node → ℕ
nodes_bytes [] = 0
nodes_bytes (n ∷ nodes) = data_len n.kind + nodes_bytes nodes

-- `Vfs::bytes`; the sum before the saturating addition is of memory that is held.
unfoldable pub bytes : Vfs → ℕ
bytes v = min (nodes_bytes v.nodes + store_bytes v.chunks) usize_max

-- `reserve`
unfoldable pub reserve : Vfs → ℕ → Result Fault (Unit {0})
reserve v growth = if growth == 0 then ok tt else elim v.storage_budget [
  | none ↦ ok tt
  | some budget ↦
      if leb (min (bytes v + growth) usize_max) budget then ok tt else err (errno enospc)
]

-- `storage_headroom`
unfoldable pub storage_headroom : Vfs → Option ℕ
storage_headroom v = elim v.storage_budget [ none ↦ none | some budget ↦ some (budget - bytes v) ]

abbrev pub no_bytes : ByteVec
no_bytes = record { items = []; capacity = 0 }

abbrev pub emptied : Node → Node
emptied n = record n { kind = file no_bytes }

-- The loop of `release_unreferenced` over the unlinked nodes: the arena, the bytes freed, and the
-- nodes that are still open.
unfoldable pub release_loop : List ℕ → List ℕ → List Node → ℕ → List ℕ → List Node × ℕ × List ℕ
release_loop [] referenced nodes freed still_open = (nodes, freed, still_open)
release_loop (i ∷ unlinked) referenced nodes freed still_open = elim (contains_index referenced i) [
  | true ↦ release_loop unlinked referenced nodes freed (still_open ++ (i ∷ []))
  | false ↦ elim (get_elem? nodes i) [
    | none ↦ release_loop unlinked referenced nodes freed still_open
    | some n ↦
        release_loop unlinked referenced (set nodes i (emptied n)) (freed + data_len n.kind)
          still_open
  ]
]

-- `release_unreferenced`, with the set of nodes that descriptors refer to.
unfoldable pub release_unreferenced : Vfs → List ℕ → ℕ × Vfs
unfolding release_loop
release_unreferenced v referenced =
    let (nodes, freed, still_open) = release_loop v.unlinked referenced v.nodes 0 [] in
    (freed, record v { nodes = nodes; unlinked = still_open })

-- `read_node_range` on each kind of node.
abbrev lift_stop {ℓ} : {A : Type ℓ} → Result Stop A → Result Fault A
lift_stop (ok a) = ok a
lift_stop (err e) = err (stopped e)

-- The messages of `put_chunk`.
pub data PutError : Type 0 where
  over_budget : PutError
  rejected : StoreError → PutError

-- `put_chunk`
unfoldable pub put_chunk : Vfs → Hash → ByteVec → Result PutError Vfs
put_chunk v expected bytes_of =
    let insertion : Result PutError Vfs = elim (store_insert expected bytes_of v.chunks) [
      | ok chunks ↦ ok (record v { chunks = chunks })
      | err e ↦ err (rejected e)
    ] in
    if contains expected v.chunks
    then insertion
    else elim (reserve v bytes_of.capacity) [ ok done ↦ insertion | err e ↦ err over_budget ]

read_kind_range : Vfs → NodeKind → ℕ → ℕ → Result Fault ReadRange
read_kind_range v (file data_of) offset len =
    let items = data_of.items in
    let start = min (min offset usize_max) (length items) in
    let end = min (min (start + len) usize_max) (length items) in
    ok (ready (take (end - start) (drop start items)))
read_kind_range v (chunked f) offset len = lift_stop (read_range v.chunks f offset len)
read_kind_range v (dir _) offset len = err (errno eisdir)
read_kind_range v _ offset len = err (errno einval)

-- `read_node_range`
unfoldable pub read_node_range : Vfs → ℕ → ℕ → ℕ → Result Fault ReadRange
unfolding read_kind_range
read_node_range v i offset len = do
  n ← ok_or (get_elem? v.nodes i) (errno enoent)
  read_kind_range v n.kind offset len

missing_of_kind : Vfs → NodeKind → Result Fault (Option Hash)
missing_of_kind v (file _) = ok none
missing_of_kind v (chunked f) = ok (first_missing f.chunks v.chunks)
missing_of_kind v (dir _) = err (errno eisdir)
missing_of_kind v _ = err (errno einval)

-- `first_missing_file_chunk`
unfoldable pub first_missing_file_chunk : Vfs → ℕ → Result Fault (Option Hash)
unfolding missing_of_kind
first_missing_file_chunk v i = do
  n ← ok_or (get_elem? v.nodes i) (errno enoent)
  missing_of_kind v n.kind
