-- ===== src/Vfs/Host/Added.antt =====
-- `add_node` and `new` of vfs.rs on a tree whose indices are all in the arena.
use web_tos.Prelude.{
  ℕ, ok, zero, suc, ◌≤◌, ◌<◌, ◌≡◌, refl, subst, List, [], ◌∷◌, Bool, true, false, Option,
  Option-cases, none, some, inl, inr, arith, length, Result,
}
use web_tos.Prelude.Exec.{pure, fail_if, ◌>>=◌, ◌>>◌}
use web_tos.Prelude.Bytes.{Bytes}
use web_tos.Prelude.ByteMap.{ByteMap, get, insert}
use web_tos.Abi.{eisdir}
use web_tos.Vfs.{
  Vfs, Node, NodeKind, node_at, char_dev, Dev, node_in, dir, Fault, errno, Resolved, root, is_dir,
  kind_is_dir,
}
use web_tos.Vfs.Path.{resolve}
use web_tos.Vfs.Path.Safe.{IsClosed, Safe, ResolvedIn, resolve_lem}
use web_tos.Vfs.Edit.{alloc, set_entries, fresh_node}
use web_tos.Vfs.Edit.Lookup.{node_in_of_lt}
use web_tos.Vfs.Host.{
  mkdir_p, occupied_by_a_directory, parent_path, drop_replaced, is_occupied, name_placed,
  place_node, place_at, add_free, add_node, with_directories, with_devices, devices, skeleton,
  bare_tree, new,
}
use web_tos.Vfs.Host.Keeps.{
  IsSound, IsSound→IsClosed, IsClosed→IsSound, KindBelow, NodeBelow, Kept, failed, done, Keeps,
  Keeps-pure, Keeps-alloc, Keeps-bind,
}
use web_tos.Vfs.Host.Writes.{
  Keeps-set_entries, Keeps-drop_link, EntriesBelow-dir, Keeps-dir_then, Keeps-fail_then,
  Keeps-check_then, EntriesBelow-insert,
}
use web_tos.Vfs.Host.Closed.{InArena, Keeps-mkdir_p, empty-KindBelow, fresh-NodeBelow, get-nil}

is_dir-Safe : (v : Vfs) (i : ℕ) → i < length v.nodes → Safe (λ (b : Bool). Unit {0}) (is_dir v i)
unfolding is_dir
is_dir-Safe v i h =
    let (n, here) = node_in_of_lt v.nodes i h in
    inr (kind_is_dir n.kind, rw (is_dir, here) refl, tt)

occupied-Safe :
    (v : Vfs) (path : Bytes)
    → IsSound v
    → Safe (λ (b : Bool). Unit {0}) (occupied_by_a_directory v path)
unfolding occupied_by_a_directory
occupied-Safe v path s = elim (resolve_lem v (IsSound→IsClosed v s) root path false s.has_root) [
  | inl (e, bad) ↦ rw (occupied_by_a_directory, bad) (inr (false, refl, tt))
  | inr (r, good, inside) ↦ elim (Option-cases r.node) [
    | inl nothing ↦ rw (occupied_by_a_directory, good, nothing) (inr (false, refl, tt))
    | inr (i, there) ↦
        rw (occupied_by_a_directory, good, there) (is_dir-Safe v i (inside.1 i there))
  ]
]

Keeps-drop_replaced :
    (old : Option ℕ) (v : Vfs)
    → IsSound v
    → ((i : ℕ) → old ≡ some i → i < length v.nodes)
    → Keeps (λ _ w. length w.nodes ≡ length v.nodes) (drop_replaced old) v
Keeps-drop_replaced none v s known = Keeps-pure tt v s refl
Keeps-drop_replaced (some i) v s known = Keeps-drop_link i v s (known i refl)

Keeps-name_placed :
    (place : Resolved) (node : ℕ) (v : Vfs)
    → IsSound v
    → place.parent < length v.nodes
    → node < length v.nodes
    → Keeps InArena (name_placed place node) v
unfolding name_placed
Keeps-name_placed place node v s h inside = Keeps-dir_then v s place.parent _ h (λ entries there.
    let below = EntriesBelow-dir v place.parent entries s there in
    Keeps-bind (set_entries place.parent (insert place.name node entries))
      (λ _. drop_replaced (get place.name entries) >> pure node) v
      (Keeps-set_entries place.parent (insert place.name node entries) v s h
        (EntriesBelow-insert (length v.nodes) place.name node entries below inside))
      (λ u w sw g size.
        Keeps-bind (drop_replaced (get place.name entries)) (λ _. pure node) w
          (Keeps-drop_replaced (get place.name entries) w sw
            (λ i found. omega (arith, g, below place.name i found)))
          (λ t x sx gx same. Keeps-pure node x sx (omega (arith, g, gx, inside)))))

Keeps-place_node :
    (place : Resolved) (kind : NodeKind) (mode : ℕ) (v : Vfs)
    → IsSound v
    → place.parent < length v.nodes
    → KindBelow (length v.nodes) kind
    → Keeps InArena (place_node place kind mode) v
unfolding place_node
Keeps-place_node place kind mode v s h k =
    Keeps-bind (alloc (fresh_node kind mode place.parent)) (λ node. name_placed place node) v
      (Keeps-alloc (fresh_node kind mode place.parent) v s
        (fresh-NodeBelow (length v.nodes) kind mode place.parent h k))
      (λ node w sw g p.
        Keeps-name_placed place node w sw (omega (arith, g, h)) (omega (arith, p.0.0, p.0.1)))

KindBelow-le : (a b : ℕ) (kind : NodeKind) → a ≤ b → KindBelow a kind → KindBelow b kind
KindBelow-le a b kind h k entries e m i found = omega (arith, h, k entries e m i found)

Keeps-place_at :
    (path : Bytes) (kind : NodeKind) (mode : ℕ) (v : Vfs)
    → IsSound v
    → KindBelow (length v.nodes) kind
    → Keeps InArena (place_at path kind mode) v
unfolding place_at
Keeps-place_at path kind mode v s k =
    Keeps-check_then v s {R = ResolvedIn v} (λ w. resolve w root path false)
      (λ place. place_node place kind mode)
      (resolve_lem v (IsSound→IsClosed v s) root path false s.has_root)
      (λ place found inside. Keeps-place_node place kind mode v s inside.0 k)

Keeps-add_free :
    (path : Bytes) (kind : NodeKind) (mode : ℕ) (v : Vfs)
    → IsSound v
    → KindBelow (length v.nodes) kind
    → Keeps InArena (add_free path kind mode) v
unfolding add_free
Keeps-add_free path kind mode v s k =
    Keeps-bind (mkdir_p (parent_path path)) (λ _. place_at path kind mode) v
      (Keeps-mkdir_p (parent_path path) v s)
      (λ d w sw g p.
        Keeps-place_at path kind mode w sw
          (KindBelow-le (length v.nodes) (length w.nodes) kind g k))

Keeps-add_checked :
    (directory : Bool) (path : Bytes) (kind : NodeKind) (mode : ℕ) (v : Vfs)
    → IsSound v
    → KindBelow (length v.nodes) kind
    → Keeps InArena
        (is_occupied directory path >>= λ occupied.
          fail_if occupied (errno eisdir) >> add_free path kind mode)
        v
Keeps-add_checked true path kind mode v s k = Keeps-add_free path kind mode v s k
Keeps-add_checked false path kind mode v s k =
    Keeps-check_then v s {R = λ (b : Bool). Unit {0}} (λ w. occupied_by_a_directory w path)
      (λ occupied. fail_if occupied (errno eisdir) >> add_free path kind mode)
      (occupied-Safe v path s)
      (λ occupied found t.
        Keeps-fail_then v s occupied eisdir (add_free path kind mode)
          (λ free. Keeps-add_free path kind mode v s k))

Keeps-add_node :
    (path : Bytes) (kind : NodeKind) (mode : ℕ) (v : Vfs)
    → IsSound v
    → KindBelow (length v.nodes) kind
    → Keeps InArena (add_node path kind mode) v
unfolding add_node
Keeps-add_node path kind mode v s k = Keeps-add_checked (kind_is_dir kind) path kind mode v s k

pub bare-KindBelow :
    (kind : NodeKind) (v : Vfs)
    → ((entries : ByteMap ℕ) → kind ≡ dir entries → entries ≡ [])
    → KindBelow (length v.nodes) kind
bare-KindBelow kind v bare entries e m i found =
    absurd (get-nil m i (subst (λ x. get m x ≡ some i) (bare entries e) found))

-- What an edit of a tree may come to: a tree whose indices are all in its arena, of no smaller
-- size, and an error number for the guest or an index of the arena.
abbrev pub StaysClosed : Vfs → Result Fault ℕ × Vfs → Type 0
StaysClosed v o =
    IsClosed o.1 × (length v.nodes ≤ length o.1.nodes) × Safe (λ i. i < length o.1.nodes) o.0

pub Kept→StaysClosed : (v : Vfs) (o : Result Fault ℕ × Vfs) → Kept InArena v o → StaysClosed v o
Kept→StaysClosed v o (failed e w h s g) = rw h (IsSound→IsClosed w s, g, inl (e, refl))
Kept→StaysClosed v o (done i w h s g p) = rw h (IsSound→IsClosed w s, g, inr (i, refl, p))

Kept-IsSound : (v : Vfs) (o : Result Fault ℕ × Vfs) → Kept InArena v o → IsSound o.1
Kept-IsSound v o (failed e w h s g) = rw h s
Kept-IsSound v o (done i w h s g p) = rw h s

with_directories-IsSound :
    (paths : List Bytes) (v : Vfs) → IsSound v → IsSound (with_directories paths v)
unfolding with_directories
with_directories-IsSound [] v s = s
with_directories-IsSound (path ∷ paths) v s =
    with_directories-IsSound paths (mkdir_p path v).1
      (Kept-IsSound v (mkdir_p path v) (Keeps-mkdir_p path v s))

device-KindBelow : (len : ℕ) (dev : Dev) → KindBelow len (char_dev dev)
device-KindBelow len dev entries e m i found = absurd (device-ne-dir dev entries e)
  where
    device-ne-dir : (dev : Dev) (entries : ByteMap ℕ) → char_dev dev ≡ dir entries → ⊥
    device-ne-dir d es h = cc

with_devices-IsSound :
    (rest : List (Bytes × Dev)) (v : Vfs) → IsSound v → IsSound (with_devices rest v)
unfolding with_devices
with_devices-IsSound [] v s = s
with_devices-IsSound ((path, dev) ∷ rest) v s =
    with_devices-IsSound rest (add_node path (char_dev dev) 0o666 v).1 (
      Kept-IsSound v (add_node path (char_dev dev) 0o666 v)
        (Keeps-add_node path (char_dev dev) 0o666 v s (device-KindBelow (length v.nodes) dev)))

bare_tree-IsSound : IsSound bare_tree
unfolding node_in
bare_tree-IsSound = record {
  has_root = omega arith;
  nodes_in = λ i n here.
      subst (λ m. NodeBelow 1 m) (only_root i n here)
        (fresh-NodeBelow 1 (dir []) 0o755 root (omega arith) (empty-KindBelow 1));
}
  where
    only_root : (i : ℕ) (n : Node) → node_at bare_tree i ≡ ok n → fresh_node (dir []) 0o755 root ≡ n
    only_root zero n h = cc
    only_root (suc i) n h = cc

new-IsClosed : IsClosed new
unfolding new
new-IsClosed = IsSound→IsClosed new (
    with_devices-IsSound devices (with_directories skeleton bare_tree)
      (with_directories-IsSound skeleton bare_tree bare_tree-IsSound))

-- The tree that `new` builds has all its indices in its arena. On such a tree, `mkdir_p` of any
-- path, and `add_node` of any path and of any kind without entries of its own, end without a panic:
-- with an error number or with a node of the arena, and in either case the indices of the tree are
-- all in its arena again.
pub add_node_lem :
    (path : Bytes) (kind : NodeKind) (mode : ℕ) (v : Vfs)
    → IsClosed v
    → ((entries : ByteMap ℕ) → kind ≡ dir entries → entries ≡ [])
    → IsClosed new × StaysClosed v (mkdir_p path v) × StaysClosed v (add_node path kind mode v)
add_node_lem path kind mode v c bare =
    let s = IsClosed→IsSound v c in
    let k = bare-KindBelow kind v bare in
    (
      new-IsClosed,
      Kept→StaysClosed v (mkdir_p path v) (Keeps-mkdir_p path v s),
      Kept→StaysClosed v (add_node path kind mode v) (Keeps-add_node path kind mode v s k),
    )
