-- ===== src/Vfs.antt =====
-- crates/linux-compat/src/vfs.rs: the in-memory filesystem. Nodes live in an arena, a node is its
-- index in it. Reading an index past the arena panics, as in the source.
pub mod Path
pub mod Edit
pub mod Storage
pub mod Snapshot
pub mod Host
pub mod Files
mod Tests
use web_tos.Prelude.{
  ℕ, zero, suc, ◌+◌, ◌-◌, ◌%◌, ◌^◌, List, [], ◌∷◌, ◌++◌, Bool, true, false, Option, none, some,
  if◌then◌else◌, ◌==◌, length, get_elem?, set, any, Result, ok, err, ◌>>=◌, Stop, panic, diverge,
}
use web_tos.Prelude.Bytes.{Bytes}
use web_tos.Prelude.ByteMap.{ByteMap}
use web_tos.Chunk.{ByteVec, ChunkedFile, ChunkStore, Hash}
use web_tos.Abi.{enotdir}

abbrev pub root : ℕ
root = 0

pub data Dev : Type 0 where
  null_dev zero_dev tty_dev random_dev ptmx_dev : Dev

pub data NodeKind : Type 0 where
  dir : ByteMap ℕ → NodeKind
  file : ByteVec → NodeKind
  chunked : ChunkedFile → NodeKind
  symlink : ByteVec → NodeKind
  char_dev : Dev → NodeKind

-- `NodeKind::data_len`
unfoldable pub data_len : NodeKind → ℕ
data_len (file bytes) = bytes.capacity
data_len (chunked _) = 0
data_len (symlink target) = target.capacity
data_len (dir _) = 0
data_len (char_dev _) = 0

-- `mtime_sec` is the bit pattern of its `i64`.
pub record Node : Type 0 where
  pub kind : NodeKind
  pub mode : ℕ
  pub nlink : ℕ
  pub mtime_sec : ℕ
  pub parent : ℕ

-- `S_IFDIR` and its kin, `DT_DIR` and its kin
unfoldable pub file_type_bits : NodeKind → ℕ
file_type_bits (dir _) = 0o040000
file_type_bits (file _) = 0o100000
file_type_bits (chunked _) = 0o100000
file_type_bits (symlink _) = 0o120000
file_type_bits (char_dev _) = 0o020000

unfoldable pub d_type : NodeKind → ℕ
d_type (dir _) = 4
d_type (file _) = 8
d_type (chunked _) = 8
d_type (symlink _) = 10
d_type (char_dev _) = 2

-- `Node::size`
unfoldable pub node_size : NodeKind → ℕ
node_size (file bytes) = length bytes.items
node_size (chunked f) = f.size
node_size (symlink target) = length target.items
node_size (dir entries) = length entries
node_size (char_dev _) = 0

pub record Resolved : Type 0 where
  pub parent : ℕ
  pub name : Bytes
  pub node : Option ℕ

pub record Vfs : Type 0 where
  pub nodes : List Node
  pub chunks : ChunkStore
  pub manifest_root : Option Hash
  pub storage_budget : Option ℕ
  pub unlinked : List ℕ

-- How an operation ends without a value: an error number for the guest, or a stop.
pub data Fault : Type 0 where
  errno : ℕ → Fault
  stopped : Stop → Fault

-- `self.nodes[i]`
unfoldable pub node_in : List Node → ℕ → Result Fault Node
node_in nodes i = elim (get_elem? nodes i) [ none ↦ err (stopped panic) | some n ↦ ok n ]

abbrev pub node_at : Vfs → ℕ → Result Fault Node
node_at v i = node_in v.nodes i

abbrev pub entries_of : NodeKind → Result Fault (ByteMap ℕ)
entries_of (dir entries) = ok entries
entries_of _ = err (errno enotdir)

-- `let NodeKind::Dir(entries) = &self.nodes[i].kind else { return Err(ENOTDIR) }`
unfoldable pub dir_in : List Node → ℕ → Result Fault (ByteMap ℕ)
dir_in nodes i = do n ← node_in nodes i; entries_of n.kind

abbrev pub dir_at : Vfs → ℕ → Result Fault (ByteMap ℕ)
dir_at v i = dir_in v.nodes i

abbrev pub kind_is_dir : NodeKind → Bool
kind_is_dir (dir _) = true
kind_is_dir _ = false

-- `Vfs::is_dir`
unfoldable pub is_dir : Vfs → ℕ → Result Fault Bool
is_dir v i = do n ← node_at v i; ok (kind_is_dir n.kind)

abbrev pub contains_index : List ℕ → ℕ → Bool
contains_index l i = any (λ j. j == i) l

-- `Vfs::list`: `.` and `..`, then the entries in the order of their names.
unfoldable pub list : Vfs → ℕ → Result Fault (List (Bytes × ℕ))
list v d = do
  entries ← dir_at v d
  n ← node_at v d
  ok ((b'.' ∷ [], d) ∷ ((b'.' ∷ b'.' ∷ [], n.parent) ∷ entries))
