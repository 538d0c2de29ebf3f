-- ===== src/Vfs/Tests.antt =====
-- The theorems about the filesystem at concrete inputs: a root with a directory and a file.
use web_tos.Prelude.{
  List, inl, inr, arith, true, ℕ, zero, suc, ◌+◌, ◌≤◌, ◌<◌, ◌≡◌, ◌⊎◌, refl, [], ◌∷◌, false, not,
  ◌&&◌, some, none, ok, err, arith, get_elem?, set,
}
use web_tos.Prelude.Bytes.{Bytes}
use web_tos.Prelude.ByteMap.{ByteMap, get, insert, remove}
use web_tos.Vfs.{Vfs, Node, NodeKind, dir, file, errno, node_in, dir_in, data_len, contains_index}
use web_tos.Vfs.Storage.{bytes, nodes_bytes, reserve, release_unreferenced}
use web_tos.Vfs.Storage.Budget.{reserve_lem}
use web_tos.Vfs.Storage.Reclaim.{after, release_unreferenced_lem}
use web_tos.Vfs.Edit.{create, link, unlink, rename}
use web_tos.Vfs.Edit.Lookup.{lookup}
use web_tos.Vfs.Edit.Unlink.{Unlinked, unlink_lem}
use web_tos.Vfs.Edit.Rename.{EntriesIn, Renamed, rename_lem}
use web_tos.Vfs.Edit.Link.{Linked, link_lem}
use web_tos.Vfs.Edit.Create.{Created, create_lem}
use web_tos.Vfs.Edit.Space.{create_within_budget}
use web_tos.Chunk.{store_bytes}
use web_tos.Abi.{enospc}
use web_tos.Vfs.Snapshot.{serialize, deserialize}
use web_tos.Vfs.Snapshot.RoundTrip.{IsStorable, restored, deserialize-serialize}
use web_tos.Prelude.Bytes.{compare_bytes}
use web_tos.Vfs.Path.{resolve}
use web_tos.Vfs.Files.{abs_path_of, climb, name_of, joined, take_file_contents, found_file}
use web_tos.Vfs.Files.Climb.{path_text, Leads, at_root, up, abs_path_of_lem}
use web_tos.Vfs.Edit.{named_entry, check_replaced, set_entries, set_node, set_parent}
use web_tos.Vfs.Storage.{no_bytes}
use web_tos.Vfs.Host.{mkdir_p, add_node, new}
use web_tos.Vfs.Host.Added.{StaysClosed, add_node_lem}
use web_tos.Vfs.Host.Moves.{Closes, edits_lem}
use web_tos.Vfs.Path.Safe.{IsClosed, Safe, ResolvedIn, resolve_lem}
use web_tos.Vfs.{node_at, root}

abbrev name_a : Bytes
name_a = b'a' ∷ []

abbrev name_b : Bytes
name_b = b'b' ∷ []

abbrev plain : NodeKind → ℕ → Node
plain kind nlink = record { kind = kind; mode = 0o644; nlink = nlink; mtime_sec = 0; parent = 0 }

-- `/a` is a file of three bytes, `/b` an empty directory.
abbrev tree : Vfs
tree = record {
  nodes =
      plain (dir ((name_a, 1) ∷ (name_b, 2) ∷ [])) 2
      ∷ plain (file (record { items = 1 ∷ 2 ∷ 3 ∷ []; capacity = 3 })) 1
      ∷ plain (dir []) 2
      ∷ [];
  chunks = [];
  manifest_root = none;
  storage_budget = some 10;
  unlinked = [];
}

tree_entries : (d : ℕ) (m : Bytes) (i : ℕ) → lookup tree d m ≡ some i → i < 3
unfolding dir_in node_in get
tree_entries zero m i h = ground arith
tree_entries (suc zero) m i h = ground arith
tree_entries (suc (suc zero)) m i h = ground arith
tree_entries (suc (suc (suc d))) m i h = ground arith

tree-EntriesIn : EntriesIn tree
tree-EntriesIn d m i h = tree_entries d m i h

unlink_lem_example : Unlinked tree 0 name_a false (unlink 0 name_a false tree)
unlink_lem_example = unlink_lem tree 0 name_a false

rename_lem_example : Renamed tree 0 name_a 2 name_b (rename 0 name_a 2 name_b tree)
rename_lem_example = rename_lem tree 0 name_a 2 name_b tree-EntriesIn

link_lem_example : Linked tree 2 name_a 1 (link 2 name_a 1 tree)
link_lem_example = link_lem tree 2 name_a 1 (omega arith)

abbrev three_bytes : NodeKind
three_bytes = file (record { items = 4 ∷ 5 ∷ 6 ∷ []; capacity = 3 })

create_lem_example :
    Created tree 2 name_a three_bytes 0o600 (create 2 name_a three_bytes 0o600 tree)
create_lem_example = create_lem tree 2 name_a three_bytes 0o600 (omega arith)

tree-bytes : bytes tree ≡ 3
unfolding bytes nodes_bytes data_len store_bytes
tree-bytes = refl

create_within_budget_example : bytes (create 2 name_a three_bytes 0o600 tree).1 ≤ 10
create_within_budget_example =
    create_within_budget tree 2 name_a three_bytes 0o600 10 refl (omega arith)
      (omega (arith, tree-bytes))

reserve_lem_example :
    (reserve tree 8 ≡ ok tt) × ((◌≡◌ {A = ℕ} 8 0) ⊎ (bytes tree + 8 ≤ 10))
    ⊎ (reserve tree 8 ≡ err (errno enospc)) × (0 < 8) × (10 < bytes tree + 8)
reserve_lem_example = reserve_lem tree 8 10 refl (omega arith)

abbrev unlinked_tree : Vfs
unlinked_tree = record tree { unlinked = 1 ∷ 2 ∷ [] }

release_unreferenced_lem_example :
    let (freed, w) = release_unreferenced unlinked_tree (2 ∷ []) in
    ((i : ℕ)
      → get_elem? w.nodes i
        ≡ after
            (contains_index unlinked_tree.unlinked i && not (contains_index (2 ∷ []) i))
            (get_elem? unlinked_tree.nodes i))
    × (nodes_bytes w.nodes + freed ≡ nodes_bytes unlinked_tree.nodes)
    × ((i : ℕ)
        → contains_index w.unlinked i
          ≡ contains_index unlinked_tree.unlinked i && contains_index (2 ∷ []) i)
release_unreferenced_lem_example = release_unreferenced_lem unlinked_tree (2 ∷ [])

tree-IsStorable : IsStorable tree
unfolding compare_bytes
tree-IsStorable = record {
  nonempty = omega arith;
  small = omega arith;
  fit = (
    (
      omega arith,
      omega arith,
      omega arith,
      omega arith,
      (
        ((refl, tt), (tt, tt)),
        omega arith,
        ((omega arith, omega arith), ((omega arith, omega arith), tt)),
      ),
    ),
    (
      (omega arith, omega arith, omega arith, omega arith, omega arith),
      ((omega arith, omega arith, omega arith, omega arith, (tt, omega arith, tt)), tt),
    ),
  );
  root_fits = tt;
  rooted = refl;
}

deserialize-serialize_example : deserialize (serialize tree) ≡ ok (restored tree)
deserialize-serialize_example = deserialize-serialize tree tree-IsStorable

tree_parents : (i : ℕ) (n : Node) → node_at tree i ≡ ok n → n.parent < 3
unfolding node_in
tree_parents zero n h = ground arith
tree_parents (suc zero) n h = ground arith
tree_parents (suc (suc zero)) n h = ground arith
tree_parents (suc (suc (suc i))) n h = ground arith

tree-IsClosed : IsClosed tree
tree-IsClosed = record {
  root_in = omega arith;
  parents_in = λ i n h. tree_parents i n h;
  entries_in = λ d m i h. tree_entries d m i h;
}

resolve_lem_example : Safe (ResolvedIn tree) (resolve tree 2 (b'.' ∷ b'.' ∷ b'/' ∷ b'a' ∷ []) true)
resolve_lem_example =
    resolve_lem tree tree-IsClosed 2 (b'.' ∷ b'.' ∷ b'/' ∷ b'a' ∷ []) true (omega arith)

bare_dir : (entries : ByteMap ℕ) → dir [] ≡ dir entries → entries ≡ []
bare_dir entries e = cc

add_node_lem_example :
    IsClosed new
    × StaysClosed tree (mkdir_p (b'/' ∷ b'b' ∷ b'/' ∷ b'c' ∷ []) tree)
    × StaysClosed tree (add_node (b'/' ∷ b'b' ∷ b'/' ∷ b'c' ∷ []) (dir []) 0o755 tree)
add_node_lem_example =
    add_node_lem (b'/' ∷ b'b' ∷ b'/' ∷ b'c' ∷ []) (dir []) 0o755 tree tree-IsClosed bare_dir

edits_lem_example :
    StaysClosed tree (create 2 name_b (dir []) 0o755 tree)
    × Closes tree (link 2 name_b 1 tree)
    × Closes tree (unlink 2 name_b false tree)
    × Closes tree (rename 2 name_b 0 name_a tree)
edits_lem_example =
    edits_lem tree 2 0 1 0o755 name_b name_a (dir []) false tree-IsClosed (omega arith)
      (omega arith) (omega arith) bare_dir

-- A directory added at `/` becomes an entry `.` of the root.
root_again : lookup (add_node (b'/' ∷ []) (dir []) 0o755 tree).1 0 (b'.' ∷ []) ≡ some 3
unfolding add_node mkdir_p resolve dir_in node_in get insert compare_bytes
root_again = refl

-- `/b` moved to `/b/a` is its own parent.
moved_into_itself :
    ((rename 0 name_b 2 name_a tree).0 ≡ ok tt)
    × (lookup (rename 0 name_b 2 name_a tree).1 2 name_a ≡ some 2)
unfolding rename dir_in node_in get insert remove compare_bytes named_entry check_replaced
    set_entries set_node set_parent
moved_into_itself = (refl, refl)

abs_path_of_lem_example :
    (names : List Bytes) × (abs_path_of 2 tree 2 ≡ ok (path_text names)) × Leads tree root names 2
unfolding node_in
abs_path_of_lem_example =
    abs_path_of_lem tree 1 2 2
      (up 2 0 _ _ _ name_b (omega arith) refl refl refl (inr (inl (refl, refl))) at_root)
      (omega arith) (omega arith)

path_of_b : abs_path_of 2 tree 2 ≡ ok (b'/' ∷ b'b' ∷ [])
unfolding abs_path_of climb name_of joined node_in
path_of_b = refl

short_file : take_file_contents (b'/' ∷ b'a' ∷ []) tree ≡ (
  ok (some (record { items = 1 ∷ 2 ∷ 3 ∷ []; capacity = 3 })),
  record tree { nodes = set tree.nodes 1 (plain (file no_bytes) 1) },
)
unfolding take_file_contents found_file resolve node_in dir_in get compare_bytes
short_file = refl
