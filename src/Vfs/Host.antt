-- ===== src/Vfs/Host.antt =====
-- The operations of vfs.rs by which the host sets a tree up: `mkdir_p`, `add_node`.
pub mod Closed
pub mod Added
pub mod Guest
pub mod Moves
pub mod Keeps
pub mod Writes
use web_tos.Prelude.{
  ℕ, suc, List, [], ◌∷◌, Bool, true, false, not, ◌&&◌, Option, none, some, if◌then◌else◌, ◌==◌,
  take, Result, ok, err,
}
use web_tos.Prelude.Exec.{pure, reads, fail_if, ◌>>=◌, ◌>>◌}
use web_tos.Prelude.Bytes.{Bytes, bytes_eq}
use web_tos.Prelude.ByteMap.{get, insert}
use web_tos.Chunk.{ChunkedFile}
use web_tos.Abi.{enotdir, eisdir}
use web_tos.Vfs.{
  Vfs, NodeKind, dir, chunked, char_dev, Dev, null_dev, zero_dev, tty_dev, random_dev, ptmx_dev,
  Fault, errno, stopped, Resolved, root, node_at, dir_at, is_dir, kind_is_dir,
}
use web_tos.Vfs.Path.{components, resolve, dot_dot}
use web_tos.Vfs.Edit.{Edit, alloc, set_entries, drop_link, fresh_node}

-- A new name in a directory.
unfoldable pub enter_name : ℕ → Bytes → ℕ → Edit ℕ
unfolding set_entries
enter_name current component node = do
  entries ← reads (λ v. dir_at v current)
  set_entries current (insert component node entries)
  pure node

-- The directory that a component of `mkdir_p` names, or a new one.
unfoldable pub entered : ℕ → Bytes → Option ℕ → Edit ℕ
unfolding alloc enter_name
entered current component (some next) = do
  directory ← reads (λ v. is_dir v next)
  fail_if (not directory) (errno enotdir)
  pure next
entered current component none = do
  node ← alloc (fresh_node (dir []) 0o755 current)
  enter_name current component node

unfoldable pub mkdir_step : ℕ → Bytes → Edit ℕ
unfolding entered
mkdir_step current component = do
  entries ← reads (λ v. dir_at v current)
  entered current component (get component entries)

-- The loop of `mkdir_p` over the components.
unfoldable pub mkdir_from : List Bytes → ℕ → Edit ℕ
unfolding mkdir_step
mkdir_from [] current = pure current
mkdir_from (component ∷ rest) current = elim (bytes_eq component dot_dot) [
  | true ↦ do n ← reads (λ v. node_at v current); mkdir_from rest n.parent
  | false ↦ do next ← mkdir_step current component; mkdir_from rest next
]

unfoldable pub mkdir_p : Bytes → Edit ℕ
unfolding mkdir_from components
mkdir_p path = mkdir_from (components path) root

-- `occupied_by_a_directory`
unfoldable pub occupied_by_a_directory : Vfs → Bytes → Result Fault Bool
occupied_by_a_directory v path = elim (resolve v root path false) [
  | err (errno e) ↦ ok false
  | err (stopped s) ↦ err (stopped s)
  | ok r ↦ elim r.node [ none ↦ ok false | some i ↦ is_dir v i ]
]

-- `path.iter().rposition(|&b| b == b'/')`
unfoldable pub last_slash : Bytes → Option ℕ
last_slash [] = none
last_slash (b ∷ path) = elim (last_slash path) [
  | some i ↦ some (suc i)
  | none ↦ if b == b'/' then some 0 else none
]

abbrev pub parent_path : Bytes → Bytes
parent_path path = elim (last_slash path) [ none ↦ [] | some i ↦ take i path ]

-- The name that is taken over drops its link.
abbrev pub drop_replaced : Option ℕ → Edit (Unit {0})
drop_replaced none = pure tt
drop_replaced (some displaced) = drop_link displaced

-- The check of `add_node`, which a directory is spared.
abbrev pub is_occupied : Bool → Bytes → Edit Bool
is_occupied true path = pure false
is_occupied false path = reads (λ v. occupied_by_a_directory v path)

-- The end of `add_node`: the name of the new node, which may take the place of another.
unfoldable pub name_placed : Resolved → ℕ → Edit ℕ
unfolding set_entries drop_link
name_placed place node = do
  entries ← reads (λ v. dir_at v place.parent)
  set_entries place.parent (insert place.name node entries)
  drop_replaced (get place.name entries)
  pure node

unfoldable pub place_node : Resolved → NodeKind → ℕ → Edit ℕ
unfolding alloc name_placed
place_node place kind mode = do
  node ← alloc (fresh_node kind mode place.parent)
  name_placed place node

unfoldable pub place_at : Bytes → NodeKind → ℕ → Edit ℕ
unfolding place_node
place_at path kind mode = do
  place ← reads (λ v. resolve v root path false)
  place_node place kind mode

-- `add_node`, past its check.
unfoldable pub add_free : Bytes → NodeKind → ℕ → Edit ℕ
unfolding mkdir_p last_slash place_at
add_free path kind mode = do _ ← mkdir_p (parent_path path); place_at path kind mode

-- `add_node`
unfoldable pub add_node : Bytes → NodeKind → ℕ → Edit ℕ
unfolding add_free
add_node path kind mode = do
  occupied ← is_occupied (kind_is_dir kind) path
  fail_if occupied (errno eisdir)
  add_free path kind mode

-- `add_chunked_file`
abbrev pub add_chunked_file : Bytes → ChunkedFile → ℕ → Edit ℕ
add_chunked_file path f mode = add_node path (chunked f) mode

-- The directories and devices that every tree begins with.
abbrev pub skeleton : List Bytes
skeleton =
    (b'/' ∷ b'b' ∷ b'i' ∷ b'n' ∷ [])
    ∷ (b'/' ∷ b'd' ∷ b'e' ∷ b'v' ∷ [])
    ∷ (b'/' ∷ b'd' ∷ b'e' ∷ b'v' ∷ b'/' ∷ b'p' ∷ b't' ∷ b's' ∷ [])
    ∷ (b'/' ∷ b'e' ∷ b't' ∷ b'c' ∷ [])
    ∷ (b'/' ∷ b'h' ∷ b'o' ∷ b'm' ∷ b'e' ∷ [])
    ∷ (b'/' ∷ b't' ∷ b'm' ∷ b'p' ∷ [])
    ∷ (b'/' ∷ b'u' ∷ b's' ∷ b'r' ∷ [])
    ∷ (b'/' ∷ b'u' ∷ b's' ∷ b'r' ∷ b'/' ∷ b'b' ∷ b'i' ∷ b'n' ∷ [])
    ∷ (b'/' ∷ b'v' ∷ b'a' ∷ b'r' ∷ [])
    ∷ []

abbrev pub devices : List (Bytes × Dev)
devices =
    ((b'/' ∷ b'd' ∷ b'e' ∷ b'v' ∷ b'/' ∷ b'n' ∷ b'u' ∷ b'l' ∷ b'l' ∷ []), null_dev)
    ∷ ((b'/' ∷ b'd' ∷ b'e' ∷ b'v' ∷ b'/' ∷ b'z' ∷ b'e' ∷ b'r' ∷ b'o' ∷ []), zero_dev)
    ∷ ((b'/' ∷ b'd' ∷ b'e' ∷ b'v' ∷ b'/' ∷ b't' ∷ b't' ∷ b'y' ∷ []), tty_dev)
    ∷ (
      (b'/' ∷ b'd' ∷ b'e' ∷ b'v' ∷ b'/' ∷ b'u' ∷ b'r' ∷ b'a' ∷ b'n' ∷ b'd' ∷ b'o' ∷ b'm' ∷ []),
      random_dev,
    )
    ∷ ((b'/' ∷ b'd' ∷ b'e' ∷ b'v' ∷ b'/' ∷ b'p' ∷ b't' ∷ b'm' ∷ b'x' ∷ []), ptmx_dev)
    ∷ []

-- The results are dropped: `let _ = …`.
unfoldable pub with_directories : List Bytes → Vfs → Vfs
unfolding mkdir_p
with_directories [] v = v
with_directories (path ∷ paths) v = with_directories paths (mkdir_p path v).1

unfoldable pub with_devices : List (Bytes × Dev) → Vfs → Vfs
unfolding add_node
with_devices [] v = v
with_devices ((path, dev) ∷ rest) v = with_devices rest (add_node path (char_dev dev) 0o666 v).1

abbrev pub bare_tree : Vfs
bare_tree = record {
  nodes = fresh_node (dir []) 0o755 root ∷ [];
  chunks = [];
  manifest_root = none;
  storage_budget = none;
  unlinked = [];
}

-- `Vfs::new`
unfoldable pub new : Vfs
unfolding with_directories with_devices
new = with_devices devices (with_directories skeleton bare_tree)
