-- ===== src/Vfs/Edit.antt =====
-- The operations of vfs.rs that change the tree. What was written before an error stays written.
pub mod Lookup
pub mod Unlink
pub mod Replace
pub mod Rename
pub mod Link
pub mod Create
pub mod Space
use web_tos.Prelude.{
  ℕ, zero, suc, ◌+◌, ◌-◌, ◌%◌, ◌^◌, List, [], ◌∷◌, ◌++◌, Bool, true, false, not, ◌&&◌, ◌||◌, Option,
  none, some, if◌then◌else◌, ◌==◌, is_some, is_empty, length, get_elem?, set, take, Result, ok, err,
  Stop, panic,
}
use web_tos.Prelude.Exec.{Exec, pure, raise, lift, reads, modify, fail_if, continue, ◌>>=◌, ◌>>◌}
use web_tos.Prelude.Bytes.{Bytes, bytes_eq}
use web_tos.Prelude.ByteMap.{ByteMap, get, insert, remove}
use web_tos.Chunk.{ByteVec, ChunkedFile}
use web_tos.Abi.{enoent, eexist, enotdir, eisdir, enotempty}
use web_tos.Vfs.{
  Vfs, Node, NodeKind, dir, file, chunked, symlink, char_dev, data_len, Resolved, Fault, errno,
  stopped, root, node_at, dir_at, is_dir, kind_is_dir, contains_index,
}
use web_tos.Vfs.Path.{components, resolve, dot, dot_dot}
use web_tos.Vfs.Storage.{reserve}

abbrev pub Edit {ℓ} : Type ℓ → Type ℓ
Edit A = Exec Vfs Fault A

-- `alloc`
unfoldable pub alloc : Node → Edit ℕ
alloc n v = (ok (length v.nodes), record v { nodes = v.nodes ++ (n ∷ []) })

-- A write through `&mut self.nodes[i]`.
unfoldable pub set_node : ℕ → Node → Edit (Unit {0})
set_node i n = modify (λ v. record v { nodes = set v.nodes i n })

-- `let NodeKind::Dir(entries) = &mut self.nodes[i].kind`, then a write of the entries.
unfoldable pub set_entries : ℕ → ByteMap ℕ → Edit (Unit {0})
unfolding set_node
set_entries i entries = do
  n ← reads (λ v. node_at v i)
  set_node i (record n { kind = dir entries })

-- The name `node` had is gone: `nlink` goes down, and the last link makes the node unlinked.
unfoldable pub drop_link : ℕ → Edit (Unit {0})
unfolding set_node
drop_link i = do
  n ← reads (λ v. node_at v i)
  set_node i (record n { nlink = n.nlink - 1 })
  modify (λ v. record v {
    unlinked =
        if n.nlink - 1 == 0 && not (contains_index v.unlinked i)
        then v.unlinked ++ (i ∷ [])
        else v.unlinked;
  })

abbrev pub fresh_nlink : NodeKind → ℕ
fresh_nlink kind = if kind_is_dir kind then 2 else 1

abbrev pub fresh_node : NodeKind → ℕ → ℕ → Node
fresh_node kind mode parent = record {
  kind = kind;
  mode = mode;
  nlink = fresh_nlink kind;
  mtime_sec = 0;
  parent = parent;
}

abbrev pub is_reserved : Bytes → Bool
is_reserved name = is_empty name || bytes_eq name dot || bytes_eq name dot_dot

-- `create`
unfoldable pub create : ℕ → Bytes → NodeKind → ℕ → Edit ℕ
create parent name kind mode = do
  fail_if (is_reserved name) (errno eexist)
  reads (λ v. reserve v (data_len kind))
  node ← alloc (fresh_node kind mode parent)
  entries ← reads (λ v. dir_at v parent)
  fail_if (is_some (get name entries)) (errno eexist)
  set_entries parent (insert name node entries)
  pure node

-- `link`
unfoldable pub link : ℕ → Bytes → ℕ → Edit (Unit {0})
link parent name node = do
  entries ← reads (λ v. dir_at v parent)
  fail_if (is_some (get name entries)) (errno eexist)
  set_entries parent (insert name node entries)
  n ← reads (λ v. node_at v node)
  set_node node (record n { nlink = (n.nlink + 1) % 2 ^ 64 })

-- The checks of `unlink` on the node itself.
unfoldable pub check_removal : NodeKind → Bool → Result Fault (Unit {0})
check_removal (dir children) rmdir =
    if rmdir
    then (if is_empty children then ok tt else err (errno enotempty))
    else err (errno eisdir)
check_removal _ rmdir = if rmdir then err (errno enotdir) else ok tt

unfoldable pub named_entry : ByteMap ℕ → Bytes → Result Fault ℕ
named_entry entries name = elim (get name entries) [ none ↦ err (errno enoent) | some i ↦ ok i ]

-- `unlink`
unfoldable pub unlink : ℕ → Bytes → Bool → Edit (Unit {0})
unlink parent name rmdir = do
  entries ← reads (λ v. dir_at v parent)
  node ← lift (named_entry entries name)
  n ← reads (λ v. node_at v node)
  lift (check_removal n.kind rmdir)
  set_entries parent (remove name entries)
  drop_link node

-- A directory that is replaced must be empty.
unfoldable pub check_replaced : Vfs → Option ℕ → Result Fault (Unit {0})
check_replaced v none = ok tt
check_replaced v (some existing) = elim (node_at v existing) [
  | err e ↦ err e
  | ok n ↦ elim n.kind [
    | dir children ↦ if is_empty children then ok tt else err (errno enotempty)
    | _ ↦ ok tt
  ]
]

unfoldable pub set_parent : ℕ → ℕ → Edit (Unit {0})
unfolding set_node
set_parent i parent = do n ← reads (λ v. node_at v i); set_node i (record n { parent = parent })

abbrev pub drop_displaced : Option ℕ → ℕ → Edit (Unit {0})
drop_displaced none node = pure tt
drop_displaced (some displaced) node = if displaced == node then pure tt else drop_link displaced

-- `rename`
unfoldable pub rename : ℕ → Bytes → ℕ → Bytes → Edit (Unit {0})
rename old_parent old_name new_parent new_name = do
  entries ← reads (λ v. dir_at v old_parent)
  node ← lift (named_entry entries old_name)
  targets ← reads (λ v. dir_at v new_parent)
  reads (λ v. check_replaced v (get new_name targets))
  set_entries old_parent (remove old_name entries)
  new_entries ← reads (λ v. dir_at v new_parent)
  set_entries new_parent (insert new_name node new_entries)
  drop_displaced (get new_name new_entries) node
  set_parent node new_parent
