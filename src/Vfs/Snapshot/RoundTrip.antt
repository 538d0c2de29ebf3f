-- ===== src/Vfs/Snapshot/RoundTrip.antt =====
-- `serialize` and `deserialize` of vfs.rs together.
use web_tos.Prelude.{
  ◌*◌, ◌≤◌, ◌<◌, ◌≡◌, refl, ap, sym, ◌∙◌, List, [], ◌∷◌, ◌++◌, Bool, false, Option, none, some,
  arith, length, append_nil, ltb, map, min, All, any, ok, ◌||◌, ◌==◌,
}
use web_tos.Prelude.Bytes.{Bytes, le_bytes, bytes_eq_iff}
use web_tos.Chunk.{Hash}
use web_tos.Vfs.{Vfs, Node, NodeKind, dir, file, chunked, symlink, char_dev}
use web_tos.Vfs.Storage.{usize_max}
use web_tos.Vfs.Snapshot.{
  nodes_image, root_image, serialize, read_nodes, read_image, deserialize, is_chunked,
  snapshot_magic, snapshot_version,
}
use web_tos.Vfs.Snapshot.Reads.{Reads-taken, Reads-number}
use web_tos.Vfs.Snapshot.Restore.{
  NodeFits, RootFits, kept_node, nodes_lem, root_lem, length-nodes_image,
}

-- A chunk-backed file among the nodes wants a manifest root.
abbrev pub unrooted : Option Hash → List Node → Bool
unrooted manifest_root nodes = elim manifest_root [ none ↦ any is_chunked nodes | some h ↦ false ]

-- A tree that the image format has room for.
pub record IsStorable (v : Vfs) : Type 0 where
  pub nonempty : 0 < length v.nodes
  pub small : length v.nodes ≤ 4_000_000
  pub fit : All (NodeFits (length v.nodes)) v.nodes
  pub root_fits : RootFits v.manifest_root
  pub rooted : unrooted v.manifest_root v.nodes ≡ false

-- What a restored tree is: the nodes and the manifest root; the chunks are fetched again, the budget
-- is set by the host, and no node waits to be reclaimed.
abbrev pub restored : Vfs → Vfs
restored v = record {
  nodes = map kept_node v.nodes;
  chunks = [];
  manifest_root = v.manifest_root;
  storage_budget = none;
  unlinked = [];
}

is_chunked_kept : (k : NodeKind) (n : Node) → n.kind ≡ k → is_chunked (kept_node n) ≡ is_chunked n
is_chunked_kept (dir _) n h = rw h refl
is_chunked_kept (file _) n h = rw h refl
is_chunked_kept (chunked _) n h = rw h refl
is_chunked_kept (symlink _) n h = rw h refl
is_chunked_kept (char_dev _) n h = rw h refl

any-kept : (nodes : List Node) → any is_chunked (map kept_node nodes) ≡ any is_chunked nodes
any-kept [] = refl
any-kept (n ∷ nodes) = rw (is_chunked_kept n.kind n refl, any-kept nodes) refl

unrooted-kept :
    (r : Option Hash) (nodes : List Node) → unrooted r (map kept_node nodes) ≡ unrooted r nodes
unrooted-kept none nodes = any-kept nodes
unrooted-kept (some h) nodes = refl

-- The image of a tree that the format has room for is read back as that tree: every node at its
-- index with its kind, its entries and bytes, its mode, links, time and parent, and the manifest
-- root.
pub deserialize-serialize : (v : Vfs) → IsStorable v → deserialize (serialize v) ≡ ok (restored v)
unfolding deserialize read_image serialize
deserialize-serialize v s =
    let count = length v.nodes in
    let image = nodes_image v.nodes in
    let after_root : Bytes = le_bytes 4 count ++ image in
    let after_version : Bytes = root_image v.manifest_root ++ after_root in
    let magic_read =
      (Reads-taken 4 snapshot_magic refl).at_front (le_bytes 4 snapshot_version ++ after_version) in
    let magic_fits = (bytes_eq_iff snapshot_magic snapshot_magic).1 refl in
    let version_read = (Reads-number 4 snapshot_version (omega arith)).at_front after_version in
    let root_read = (root_lem v.manifest_root s.root_fits).at_front after_root in
    let count_read = (Reads-number 4 count (omega (arith, s.small))).at_front image in
    let plausible : (count == 0 || ltb 4_000_000 count) ≡ false =
      ground (arith, s.nonempty, s.small) in
    let room : ltb (length image) (min (count * 29) usize_max) ≡ false =
      ground (arith, length-nodes_image v.nodes) in
    let nodes_read : read_nodes snapshot_version count count image
        ≡ (ok (map kept_node v.nodes), []) =
      ap (λ b. read_nodes snapshot_version count count b) (sym (append_nil image))
      ∙ (nodes_lem count v.nodes s.small s.fit).at_front [] in
    let has_root = unrooted-kept v.manifest_root v.nodes ∙ s.rooted in
    rw
      (
        deserialize, magic_read, magic_fits, version_read, root_read, count_read, plausible, room,
        nodes_read, has_root,
      )
      refl
