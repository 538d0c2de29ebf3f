-- ===== src/Vfs/Files.antt =====
-- What the host does with a file by its path (vfs.rs: `read_file`, `take_file_contents`,
-- `put_file_contents`), and `abs_path_of`.
pub mod Climb
use web_tos.Prelude.{
  ℕ, zero, suc, List, [], ◌∷◌, ◌++◌, Bool, true, false, ◌||◌, Option, none, some, if◌then◌else◌,
  leb, ◌==◌, is_empty, length, get_elem?, set, Result, ok, err, ◌>>=◌, diverge,
}
use web_tos.Prelude.Bytes.{Bytes}
use web_tos.Prelude.ByteMap.{ByteMap}
use web_tos.Chunk.{ByteVec}
use web_tos.Vfs.{Vfs, Node, NodeKind, dir, file, Fault, errno, stopped, root, node_at}
use web_tos.Vfs.Path.{resolve}
use web_tos.Vfs.Edit.{Edit}
use web_tos.Vfs.Storage.{no_bytes, emptied}

abbrev file_of : ℕ → Node → Option (ℕ × Node × ByteVec)
file_of i n = elim n.kind [ file bytes ↦ some (i, n, bytes) | _ ↦ none ]

-- The regular file at a path; an error number on the way is no file.
unfoldable pub found_file : Vfs → Bytes → Result Fault (Option (ℕ × Node × ByteVec))
found_file v path = elim (resolve v root path true) [
  | err (errno e) ↦ ok none
  | err (stopped s) ↦ err (stopped s)
  | ok r ↦ elim r.node [
    | none ↦ ok none
    | some i ↦ elim (get_elem? v.nodes i) [ none ↦ ok none | some n ↦ ok (file_of i n) ]
  ]
]

-- `read_file`
unfoldable pub read_file_at : Vfs → Bytes → Result Fault (Option Bytes)
read_file_at v path = elim (found_file v path) [
  | err e ↦ err e
  | ok none ↦ ok none
  | ok (some (i, n, bytes)) ↦ ok (some bytes.items)
]

-- `take_file_contents`
unfoldable pub take_file_contents : Bytes → Edit (Option ByteVec)
take_file_contents path v = elim (found_file v path) [
  | err e ↦ (err e, v)
  | ok none ↦ (ok none, v)
  | ok (some (i, n, bytes)) ↦ (ok (some bytes), record v { nodes = set v.nodes i (emptied n) })
]

-- `put_file_contents`
unfoldable pub put_file_contents : Bytes → ByteVec → Edit (Unit {0})
put_file_contents path data_of v = elim (found_file v path) [
  | err e ↦ (err e, v)
  | ok none ↦ (ok tt, v)
  | ok (some (i, n, bytes)) ↦
      (ok tt, record v { nodes = set v.nodes i (record n { kind = file data_of }) })
]

-- The first name of a node in a directory.
unfoldable pub name_of : ByteMap ℕ → ℕ → Option Bytes
name_of [] node = none
name_of ((name, i) ∷ entries) node = if i == node then some name else name_of entries node

abbrev pub name_in : NodeKind → ℕ → List Bytes → List Bytes
name_in (dir entries) node segments = elim (name_of entries node) [
  | none ↦ segments
  | some name ↦ name ∷ segments
]
name_in _ node segments = segments

-- The loop of `abs_path_of`, on fuel; the segments are in the order of the path.
unfoldable pub climb : ℕ → Vfs → ℕ → List Bytes → Result Fault (List Bytes)
climb zero v current segments = err (stopped diverge)
climb (suc fuel) v current segments = elim (current == root || leb 256 (length segments)) [
  | true ↦ ok segments
  | false ↦ do
    n ← node_at v current
    p ← node_at v n.parent
    climb fuel v n.parent (name_in p.kind current segments)
]

unfoldable pub joined : List Bytes → Bytes
joined [] = []
joined (segment ∷ segments) = b'/' ∷ (segment ++ joined segments)

abbrev pub or_slash : Bytes → Bytes
or_slash [] = b'/' ∷ []
or_slash (b ∷ path) = b ∷ path

-- `abs_path_of`
unfoldable pub abs_path_of : ℕ → Vfs → ℕ → Result Fault Bytes
abs_path_of fuel v node =
    if node == root
    then ok (b'/' ∷ [])
    else (do segments ← climb fuel v node []; ok (or_slash (joined segments)))
