-- ===== src/Vfs/Host/Writes.antt =====
-- The writes of vfs.rs on a tree whose indices are all in the arena, and steps after a read.
use web_tos.Prelude.{
  ℕ, ◌-◌, ◌<◌, ◌≡◌, refl, ap, subst, Bool, false, inl, inr, arith, length, set, length-set, Result,
  Result-cases, ok,
}
use web_tos.Prelude.Exec.{continue, reads, lift, fail_if, ◌>>=◌, ◌>>◌}
use web_tos.Prelude.Bytes.{Bytes}
use web_tos.Prelude.ByteMap.{ByteMap, insert, remove, get-insert, get-remove}
use web_tos.Vfs.{Vfs, Node, dir, Fault, errno, node_at, dir_at}
use web_tos.Abi.{enotdir}
use web_tos.Vfs.Edit.{Edit, set_node, set_entries, drop_link, set_parent}
use web_tos.Vfs.Edit.Lookup.{dir_in-err, node_of_dir, node_in_of_lt}
use web_tos.Vfs.Path.Safe.{Safe}
use web_tos.Vfs.Host.Keeps.{
  EntriesBelow, IsSound, IsSound-set, Keeps, Keeps-bind, Keeps-fail_if, Keeps-reads, Kept-after,
  NodeBelow, done, failed,
}

-- A tree of the same size.
abbrev pub SameSize : {A : Type 0} → Vfs → A → Vfs → Type 0
SameSize v _ w = length w.nodes ≡ length v.nodes

pub Keeps-set_node :
    (i : ℕ) (n : Node) (v : Vfs)
    → IsSound v
    → i < length v.nodes
    → NodeBelow (length v.nodes) n
    → Keeps (SameSize v) (set_node i n) v
unfolding set_node
Keeps-set_node i n v s h b =
    let size = length-set v.nodes i n in
    done tt (record v { nodes = set v.nodes i n }) refl (IsSound-set v i n s h b)
      (omega (arith, size)) size

-- A read of a node in the arena.
abbrev pub NodeThere : Vfs → ℕ → Node → Vfs → Type 0
NodeThere v i n w = (w ≡ v) × (node_at v i ≡ ok n)

pub Keeps-node_at :
    (i : ℕ) (v : Vfs)
    → IsSound v
    → i < length v.nodes
    → Keeps (NodeThere v i) (reads (λ w. node_at w i)) v
Keeps-node_at i v s h =
    let (n, here) = node_in_of_lt v.nodes i h in
    Keeps-reads (λ w. node_at w i) v s (inr (n, here, (refl, here)))

abbrev pub DirThere : Vfs → ℕ → ByteMap ℕ → Vfs → Type 0
DirThere v i entries w = (w ≡ v) × (dir_at v i ≡ ok entries)

pub Keeps-dir_at :
    (i : ℕ) (v : Vfs)
    → IsSound v
    → i < length v.nodes
    → Keeps (DirThere v i) (reads (λ w. dir_at w i)) v
Keeps-dir_at i v s h = elim (Result-cases (dir_at v i)) [
  | inl (entries, here) ↦ Keeps-reads (λ w. dir_at w i) v s (inr (entries, here, (refl, here)))
  | inr (e, bad) ↦
      Keeps-reads (λ w. dir_at w i) v s (inl (enotdir, rw (← dir_in-err v.nodes i h bad) bad))
]

-- What the entries of a directory lead to.
pub EntriesBelow-dir :
    (v : Vfs) (i : ℕ) (entries : ByteMap ℕ)
    → IsSound v
    → dir_at v i ≡ ok entries
    → EntriesBelow (length v.nodes) entries
EntriesBelow-dir v i entries s here =
    let (n, there, k) = node_of_dir v.nodes i here in (s.nodes_in i n there).kind_in entries k

pub EntriesBelow-insert :
    (len : ℕ) (name : Bytes) (node : ℕ) (entries : ByteMap ℕ)
    → EntriesBelow len entries
    → node < len
    → EntriesBelow len (insert name node entries)
EntriesBelow-insert len name node entries b h m i found =
    let old = b m i in ground (arith, found, get-insert name m node entries, h, old)

pub EntriesBelow-remove :
    (len : ℕ) (name : Bytes) (entries : ByteMap ℕ)
    → EntriesBelow len entries
    → EntriesBelow len (remove name entries)
EntriesBelow-remove len name entries b m i found =
    let old = b m i in ground (arith, found, get-remove name m entries, old)

dir-inj : (a b : ByteMap ℕ) → dir a ≡ dir b → a ≡ b
dir-inj a b h = cc

pub Keeps-set_entries :
    (i : ℕ) (entries : ByteMap ℕ) (v : Vfs)
    → IsSound v
    → i < length v.nodes
    → EntriesBelow (length v.nodes) entries
    → Keeps (SameSize v) (set_entries i entries) v
unfolding set_entries
Keeps-set_entries i entries v s h b =
    Keeps-bind (reads (λ w. node_at w i)) _ v (Keeps-node_at i v s h) (λ n w sw g p.
      let here : node_at v i ≡ ok n = p.1 in
      let new : NodeBelow (length v.nodes) (record n { kind = dir entries }) = record {
        parent_in = (s.nodes_in i n here).parent_in;
        kind_in = λ es k. subst (λ x. EntriesBelow (length v.nodes) x) (dir-inj entries es k) b;
      } in
      rw p.0 (Keeps-set_node i (record n { kind = dir entries }) v s h new))

-- A node with other counts keeps its place.
pub Keeps-drop_link :
    (i : ℕ) (v : Vfs) → IsSound v → i < length v.nodes → Keeps (SameSize v) (drop_link i) v
unfolding drop_link
Keeps-drop_link i v s h =
    let (n, here) = node_in_of_lt v.nodes i h in
    let m : Node = record n { nlink = n.nlink - 1 } in
    let b : NodeBelow (length v.nodes) m = record {
      parent_in = (s.nodes_in i n here).parent_in;
      kind_in = (s.nodes_in i n here).kind_in;
    } in
    let sound = IsSound-set v i m s h b in
    let size = length-set v.nodes i m in
    done tt (drop_link i v).1 (rw (drop_link, here) refl)
      (rw (drop_link, here) (record { has_root = sound.has_root; nodes_in = sound.nodes_in }))
      (rw (drop_link, here) (omega (arith, size))) (rw (drop_link, here) size)

pub Keeps-set_parent :
    (i parent : ℕ) (v : Vfs)
    → IsSound v
    → i < length v.nodes
    → parent < length v.nodes
    → Keeps (SameSize v) (set_parent i parent) v
unfolding set_parent
Keeps-set_parent i parent v s h p =
    Keeps-bind (reads (λ w. node_at w i)) _ v (Keeps-node_at i v s h) (λ n w sw g q.
      let b : NodeBelow (length v.nodes) (record n { parent = parent }) = record {
        parent_in = p;
        kind_in = (s.nodes_in i n q.1).kind_in;
      } in
      rw q.0 (Keeps-set_node i (record n { parent = parent }) v s h b))

-- Steps after a read, on the tree that was read.
module _ {κ ν} {B : Type κ} {Q : B → Vfs → Type ν} (v : Vfs) (s : IsSound v) where
  pub Keeps-dir_then :
      (i : ℕ) (f : ByteMap ℕ → Edit B)
      → i < length v.nodes
      → ((entries : ByteMap ℕ) → dir_at v i ≡ ok entries → Keeps Q (f entries) v)
      → Keeps Q (reads (λ w. dir_at w i) >>= f) v
  Keeps-dir_then i f h next =
      Keeps-bind (reads (λ w. dir_at w i)) f v (Keeps-dir_at i v s h)
        (λ entries w sw g p. rw p.0 (next entries p.1))

  pub Keeps-node_then :
      (i : ℕ) (f : Node → Edit B)
      → i < length v.nodes
      → ((n : Node) → node_at v i ≡ ok n → Keeps Q (f n) v)
      → Keeps Q (reads (λ w. node_at w i) >>= f) v
  Keeps-node_then i f h next =
      Keeps-bind (reads (λ w. node_at w i)) f v (Keeps-node_at i v s h)
        (λ n w sw g p. rw p.0 (next n p.1))

  pub Keeps-fail_then :
      (test : Bool) (e : ℕ) (k : Edit B)
      → (test ≡ false → Keeps Q k v)
      → Keeps Q (fail_if test (errno e) >> k) v
  Keeps-fail_then test e k next =
      Keeps-bind (fail_if test (errno e)) (λ _. k) v (Keeps-fail_if test e v s)
        (λ u w sw g p. rw p.1 (next p.0))

  -- A check that only reads.
  pub Keeps-check_then {ℓ} :
      {A : Type ℓ} {R : A → Type ℓ} (check : Vfs → Result Fault A) (f : A → Edit B)
      → Safe R (check v)
      → ((a : A) → check v ≡ ok a → R a → Keeps Q (f a) v)
      → Keeps Q (reads check >>= f) v
  Keeps-check_then {R = R} check f (inl (e, bad)) next =
      failed e v (ap (λ o. continue o f v) bad) s (omega arith)
  Keeps-check_then {R = R} check f (inr (a, good, r)) next =
      Kept-after v v ((reads check >>= f) v) (f a v) (ap (λ o. continue o f v) good) (omega arith)
        (next a good r)

  pub Keeps-lift_then {ℓ} :
      {A : Type ℓ} {R : A → Type ℓ} (r : Result Fault A) (f : A → Edit B)
      → Safe R r
      → ((a : A) → r ≡ ok a → R a → Keeps Q (f a) v)
      → Keeps Q (lift r >>= f) v
  Keeps-lift_then {R = R} r f (inl (e, bad)) next =
      failed e v (ap (λ o. continue o f v) bad) s (omega arith)
  Keeps-lift_then {R = R} r f (inr (a, good, p)) next =
      Kept-after v v ((lift r >>= f) v) (f a v) (ap (λ o. continue o f v) good) (omega arith)
        (next a good p)
