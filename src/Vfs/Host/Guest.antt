-- ===== src/Vfs/Host/Guest.antt =====
-- The edits of the guest in vfs.rs on a tree whose indices are all in the arena.
use web_tos.Prelude.{
  ℕ, ◌+◌, ◌%◌, ◌^◌, ◌<◌, ◌≡◌, refl, Bool, true, false, Bool-cases, Option, Option-cases, none, some,
  inl, inr, arith, if◌then◌else◌, ◌==◌, length, leb, min, is_some, is_empty, ok, err,
}
use web_tos.Prelude.Exec.{pure, reads, lift, fail_if, ◌>>=◌, ◌>>◌}
use web_tos.Prelude.Bytes.{Bytes}
use web_tos.Prelude.ByteMap.{ByteMap, get, insert, remove}
use web_tos.Abi.{enoent, eexist, enotdir, eisdir, enotempty, enospc}
use web_tos.Vfs.{
  Vfs, NodeKind, dir, file, chunked, symlink, char_dev, data_len, errno, node_at, dir_at,
}
use web_tos.Vfs.Storage.{reserve, bytes, usize_max}
use web_tos.Vfs.Path.Safe.{Safe}
use web_tos.Vfs.Edit.{
  Edit, alloc, set_node, set_entries, drop_link, drop_displaced, fresh_node, is_reserved,
  check_removal, check_replaced, named_entry, create, link, unlink,
}
use web_tos.Vfs.Edit.Lookup.{node_in_of_lt}
use web_tos.Vfs.Host.Keeps.{
  IsSound, KindBelow, failed, done, Keeps, Keeps-pure, Keeps-alloc, Keeps-bind,
}
use web_tos.Vfs.Host.Writes.{
  Keeps-set_node, Keeps-set_entries, Keeps-drop_link, EntriesBelow-dir, EntriesBelow-insert,
  EntriesBelow-remove, Keeps-dir_then, Keeps-node_then, Keeps-fail_then, Keeps-check_then,
  Keeps-lift_then,
}
use web_tos.Vfs.Host.Closed.{InArena}

abbrev pub AnyUnit : Unit {0} → Vfs → Type 0
AnyUnit u w = Unit {0}

pub Keeps-unit :
    {P : Unit {0} → Vfs → Type 0} (m : Edit (Unit {0})) (v : Vfs) → Keeps P m v → Keeps AnyUnit m v
Keeps-unit m v (failed e w h s g) = failed e w h s g
Keeps-unit m v (done a w h s g p) = done a w h s g tt

reserve-Safe : (v : Vfs) (n : ℕ) → Safe (λ (u : Unit {0}). Unit {0}) (reserve v n)
unfolding reserve
reserve-Safe v n = elim (Bool-cases (n == 0)) [
  | inl nothing ↦ rw (reserve, nothing) (inr (tt, refl, tt))
  | inr some_growth ↦ elim (Option-cases v.storage_budget) [
    | inl free ↦ rw (reserve, some_growth, free) (inr (tt, refl, tt))
    | inr (budget, there) ↦
        rw (reserve, some_growth, there)
          (elim (Bool-cases (leb (min (bytes v + n) usize_max) budget)) [
            | inl fits ↦ rw fits (inr (tt, refl, tt))
            | inr full ↦ rw full (inl (enospc, refl))
          ])
  ]
]

-- A name that is free is given to a node.
Keeps-name_free :
    (parent : ℕ) (name : Bytes) (node : ℕ) (v : Vfs)
    → IsSound v
    → parent < length v.nodes
    → node < length v.nodes
    → Keeps InArena
        (reads (λ w. dir_at w parent) >>= λ entries.
          fail_if (is_some (get name entries)) (errno eexist)
          >> (set_entries parent (insert name node entries) >> pure node))
        v
Keeps-name_free parent name node v s h inside = Keeps-dir_then v s parent _ h (λ entries there.
    Keeps-fail_then v s (is_some (get name entries)) eexist
      (set_entries parent (insert name node entries) >> pure node)
      (λ free.
        Keeps-bind (set_entries parent (insert name node entries)) (λ _. pure node) v
          (Keeps-set_entries parent (insert name node entries) v s h (
            EntriesBelow-insert (length v.nodes) name node entries
              (EntriesBelow-dir v parent entries s there) inside))
          (λ u w sw g size. Keeps-pure node w sw (omega (arith, g, inside)))))

pub Keeps-create :
    (parent : ℕ) (name : Bytes) (kind : NodeKind) (mode : ℕ) (v : Vfs)
    → IsSound v
    → parent < length v.nodes
    → KindBelow (length v.nodes) kind
    → Keeps InArena (create parent name kind mode) v
unfolding create
Keeps-create parent name kind mode v s h k =
    let n = fresh_node kind mode parent in
    let placed : ℕ → Edit ℕ = λ node. reads (λ w. dir_at w parent) >>= λ entries.
    fail_if (is_some (get name entries)) (errno eexist)
    >> (set_entries parent (insert name node entries) >> pure node) in
    Keeps-fail_then v s (is_reserved name) eexist
      (reads (λ w. reserve w (data_len kind)) >>= λ _. (alloc n >>= placed))
      (λ allowed.
        Keeps-check_then v s {R = λ (u : Unit {0}). Unit {0}} (λ w. reserve w (data_len kind))
          (λ _. alloc n >>= placed) (reserve-Safe v (data_len kind))
          (λ u e t.
            Keeps-bind (alloc n) placed v
              (Keeps-alloc n v s (record { parent_in = h; kind_in = k }))
              (λ node w sw g p.
                Keeps-name_free parent name node w sw (omega (arith, g, h))
                  (omega (arith, p.0.0, p.0.1)))))

pub Keeps-link :
    (parent : ℕ) (name : Bytes) (node : ℕ) (v : Vfs)
    → IsSound v
    → parent < length v.nodes
    → node < length v.nodes
    → Keeps AnyUnit (link parent name node) v
unfolding link
Keeps-link parent name node v s h inside =
    let counted : Edit (Unit {0}) = reads (λ w. node_at w node) >>= λ n.
    set_node node (record n { nlink = (n.nlink + 1) % 2 ^ 64 }) in
    Keeps-dir_then v s parent _ h (λ entries there.
      Keeps-fail_then v s (is_some (get name entries)) eexist
        (set_entries parent (insert name node entries) >> counted)
        (λ free.
          Keeps-bind (set_entries parent (insert name node entries)) (λ _. counted) v
            (Keeps-set_entries parent (insert name node entries) v s h (
              EntriesBelow-insert (length v.nodes) name node entries
                (EntriesBelow-dir v parent entries s there) inside))
            (λ u w sw g size. Keeps-node_then w sw node _ (omega (arith, g, inside)) (λ n here.
              Keeps-unit (set_node node (record n { nlink = (n.nlink + 1) % 2 ^ 64 })) w (
                Keeps-set_node node (record n { nlink = (n.nlink + 1) % 2 ^ 64 }) w sw
                  (omega (arith, g, inside))
                  (record {
                    parent_in = (sw.nodes_in node n here).parent_in;
                    kind_in = (sw.nodes_in node n here).kind_in;
                  }))))))

pub named_entry-Safe :
    (entries : ByteMap ℕ) (name : Bytes)
    → Safe (λ (i : ℕ). get name entries ≡ some i) (named_entry entries name)
unfolding named_entry
named_entry-Safe entries name = elim (Option-cases (get name entries)) [
  | inl gone ↦ rw (named_entry, gone) (inl (enoent, refl))
  | inr (i, there) ↦ rw (named_entry, there) (inr (i, refl, refl))
]

check_removal-Safe :
    (kind : NodeKind) (rmdir : Bool) → Safe (λ (u : Unit {0}). Unit {0}) (check_removal kind rmdir)
unfolding check_removal
check_removal-Safe (dir children) true = elim (Bool-cases (is_empty children)) [
  | inl bare ↦ rw bare (inr (tt, refl, tt))
  | inr full ↦ rw full (inl (enotempty, refl))
]
check_removal-Safe (dir children) false = inl (eisdir, refl)
check_removal-Safe (file _) true = inl (enotdir, refl)
check_removal-Safe (file _) false = inr (tt, refl, tt)
check_removal-Safe (chunked _) true = inl (enotdir, refl)
check_removal-Safe (chunked _) false = inr (tt, refl, tt)
check_removal-Safe (symlink _) true = inl (enotdir, refl)
check_removal-Safe (symlink _) false = inr (tt, refl, tt)
check_removal-Safe (char_dev _) true = inl (enotdir, refl)
check_removal-Safe (char_dev _) false = inr (tt, refl, tt)

pub Keeps-unlink :
    (parent : ℕ) (name : Bytes) (rmdir : Bool) (v : Vfs)
    → IsSound v
    → parent < length v.nodes
    → Keeps AnyUnit (unlink parent name rmdir) v
unfolding unlink
Keeps-unlink parent name rmdir v s h = Keeps-dir_then v s parent _ h (λ entries there.
    let removed : ℕ → Edit (Unit {0}) =
      λ node. set_entries parent (remove name entries) >> drop_link node in
    let checked : ℕ → Edit (Unit {0}) = λ node.
      reads (λ w. node_at w node) >>= λ n. lift (check_removal n.kind rmdir) >> removed node in
    let below = EntriesBelow-dir v parent entries s there in
    Keeps-lift_then v s {R = λ (i : ℕ). get name entries ≡ some i} (named_entry entries name)
      checked (named_entry-Safe entries name)
      (λ node e found. Keeps-node_then v s node _ (below name node found) (λ n here.
        Keeps-lift_then v s {R = λ (u : Unit {0}). Unit {0}} (check_removal n.kind rmdir)
          (λ _. removed node) (check_removal-Safe n.kind rmdir)
          (λ u e2 t.
            Keeps-bind (set_entries parent (remove name entries)) (λ _. drop_link node) v
              (Keeps-set_entries parent (remove name entries) v s h
                (EntriesBelow-remove (length v.nodes) name entries below))
              (λ x w sw g size.
                Keeps-unit (drop_link node) w
                  (Keeps-drop_link node w sw (omega (arith, g, below name node found))))))))

pub check_replaced-Safe :
    (v : Vfs) (old : Option ℕ)
    → ((i : ℕ) → old ≡ some i → i < length v.nodes)
    → Safe (λ (u : Unit {0}). Unit {0}) (check_replaced v old)
unfolding check_replaced
check_replaced-Safe v none known = inr (tt, refl, tt)
check_replaced-Safe v (some i) known =
    let (n, here) = node_in_of_lt v.nodes i (known i refl) in
    rw (check_replaced, here) (empty_dir n.kind)
  where
    empty_dir :
        (kind : NodeKind)
        → Safe
            (λ (u : Unit {0}). Unit {0})
            (elim kind [
              | dir children ↦ if is_empty children then ok tt else err (errno enotempty)
              | _ ↦ ok tt
            ])
    empty_dir (dir children) = elim (Bool-cases (is_empty children)) [
      | inl bare ↦ rw bare (inr (tt, refl, tt))
      | inr full ↦ rw full (inl (enotempty, refl))
    ]
    empty_dir (file _) = inr (tt, refl, tt)
    empty_dir (chunked _) = inr (tt, refl, tt)
    empty_dir (symlink _) = inr (tt, refl, tt)
    empty_dir (char_dev _) = inr (tt, refl, tt)

pub Keeps-drop_displaced :
    (old : Option ℕ) (node : ℕ) (v : Vfs)
    → IsSound v
    → ((i : ℕ) → old ≡ some i → i < length v.nodes)
    → Keeps AnyUnit (drop_displaced old node) v
Keeps-drop_displaced none node v s known = Keeps-pure tt v s tt
Keeps-drop_displaced (some i) node v s known = elim (Bool-cases (i == node)) [
  | inl same ↦ rw same (Keeps-pure tt v s tt)
  | inr other ↦ rw other (Keeps-unit (drop_link i) v (Keeps-drop_link i v s (known i refl)))
]
