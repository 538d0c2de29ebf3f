-- ===== src/Vfs/Host/Closed.antt =====
-- `mkdir_p` and `add_node` of vfs.rs on a tree whose indices are all in the arena.
use web_tos.Prelude.{
  ℕ, ◌<◌, ◌≡◌, refl, sym, subst, List, [], ◌∷◌, not, Bool-cases, Option, none, some, inl, inr,
  arith, length,
}
use web_tos.Prelude.Exec.{pure, reads, fail_if}
use web_tos.Prelude.Bytes.{Bytes, bytes_eq}
use web_tos.Prelude.ByteMap.{ByteMap, get, insert}
use web_tos.Abi.{enotdir}
use web_tos.Vfs.{Vfs, NodeKind, dir, errno, root, is_dir, kind_is_dir}
use web_tos.Vfs.Path.{components, dot_dot}
use web_tos.Vfs.Edit.{alloc, set_entries, fresh_node}
use web_tos.Vfs.Edit.Lookup.{node_in_of_lt}
use web_tos.Vfs.Host.{enter_name, entered, mkdir_step, mkdir_from, mkdir_p}
use web_tos.Vfs.Host.Keeps.{
  IsSound, KindBelow, NodeBelow, Keeps, Keeps-pure, Keeps-fail_if, Keeps-alloc, Keeps-bind,
  Keeps-reads,
}
use web_tos.Vfs.Host.Writes.{
  Keeps-set_entries, EntriesBelow-dir, Keeps-dir_then, Keeps-node_then, EntriesBelow-insert,
}

-- The value is an index of the arena.
abbrev pub InArena : ℕ → Vfs → Type 0
InArena i w = i < length w.nodes

Keeps-is_dir :
    (i : ℕ) (v : Vfs)
    → IsSound v
    → i < length v.nodes
    → Keeps (λ _ w. w ≡ v) (reads (λ w. is_dir w i)) v
unfolding is_dir
Keeps-is_dir i v s h =
    let (n, here) = node_in_of_lt v.nodes i h in
    Keeps-reads (λ w. is_dir w i) v s (inr (kind_is_dir n.kind, rw (is_dir, here) refl, refl))

-- A fresh node with nothing in it, or whose entries are in the arena.
pub fresh-NodeBelow :
    (len : ℕ) (kind : NodeKind) (mode parent : ℕ)
    → parent < len
    → KindBelow len kind
    → NodeBelow len (fresh_node kind mode parent)
fresh-NodeBelow len kind mode parent h k = record { parent_in = h; kind_in = k }

pub get-nil : (m : Bytes) (i : ℕ) → get m [] ≡ some i → ⊥
unfolding get
get-nil m i h = cc

pub empty-KindBelow : (len : ℕ) → KindBelow len (dir [])
unfolding get
empty-KindBelow len entries e m i found =
    let bare : [] ≡ entries = dir-inj-nil entries e in
    absurd (get-nil m i (subst (λ x. get m x ≡ some i) (sym bare) found))
  where
    dir-inj-nil : (entries : ByteMap ℕ) → dir [] ≡ dir entries → [] ≡ entries
    dir-inj-nil es h = cc

-- A name of a node of the arena, written in a directory.
Keeps-enter_name :
    (current : ℕ) (component : Bytes) (node : ℕ) (v : Vfs)
    → IsSound v
    → current < length v.nodes
    → node < length v.nodes
    → Keeps InArena (enter_name current component node) v
unfolding enter_name
Keeps-enter_name current component node v s h inside =
    Keeps-dir_then v s current _ h (λ entries there.
      Keeps-bind (set_entries current (insert component node entries)) (λ _. pure node) v
        (Keeps-set_entries current (insert component node entries) v s h (
          EntriesBelow-insert (length v.nodes) component node entries
            (EntriesBelow-dir v current entries s there) inside))
        (λ u w sw g size. Keeps-pure node w sw (omega (arith, g, inside))))

Keeps-entered :
    (current : ℕ) (component : Bytes) (next : Option ℕ) (v : Vfs)
    → IsSound v
    → current < length v.nodes
    → ((i : ℕ) → next ≡ some i → i < length v.nodes)
    → Keeps InArena (entered current component next) v
unfolding entered
Keeps-entered current component (some next) v s h known =
    Keeps-bind (reads (λ w. is_dir w next)) _ v (Keeps-is_dir next v s (known next refl))
      (λ directory w sw g p.
        Keeps-bind (fail_if (not directory) (errno enotdir)) _ w
          (Keeps-fail_if (not directory) enotdir w sw)
          (λ u x sx gx q. Keeps-pure next x sx (omega (arith, g, gx, known next refl))))
Keeps-entered current component none v s h known =
    Keeps-bind (alloc (fresh_node (dir []) 0o755 current))
      (λ node. enter_name current component node) v
      (Keeps-alloc (fresh_node (dir []) 0o755 current) v s (
        fresh-NodeBelow (length v.nodes) (dir []) 0o755 current h
          (empty-KindBelow (length v.nodes))))
      (λ node w sw g p.
        Keeps-enter_name current component node w sw (omega (arith, g, h))
          (omega (arith, p.0.0, p.0.1)))

Keeps-mkdir_step :
    (current : ℕ) (component : Bytes) (v : Vfs)
    → IsSound v
    → current < length v.nodes
    → Keeps InArena (mkdir_step current component) v
unfolding mkdir_step
Keeps-mkdir_step current component v s h = Keeps-dir_then v s current _ h (λ entries there.
    Keeps-entered current component (get component entries) v s h
      (λ i found. EntriesBelow-dir v current entries s there component i found))

Keeps-mkdir_from :
    (path : List Bytes) (current : ℕ) (v : Vfs)
    → IsSound v
    → current < length v.nodes
    → Keeps InArena (mkdir_from path current) v
unfolding mkdir_from
Keeps-mkdir_from [] current v s h = Keeps-pure current v s h
Keeps-mkdir_from (component ∷ path) current v s h = elim (Bool-cases (bytes_eq component dot_dot)) [
  | inl up ↦
      rw (mkdir_from, up)
        (Keeps-node_then v s current _ h
          (λ n there. Keeps-mkdir_from path n.parent v s (s.nodes_in current n there).parent_in))
  | inr down ↦
      rw (mkdir_from, down)
        (Keeps-bind (mkdir_step current component) _ v (Keeps-mkdir_step current component v s h)
          (λ next w sw g p. Keeps-mkdir_from path next w sw p))
]

pub Keeps-mkdir_p : (path : Bytes) (v : Vfs) → IsSound v → Keeps InArena (mkdir_p path) v
unfolding mkdir_p
Keeps-mkdir_p path v s = Keeps-mkdir_from (components path) root v s s.has_root
