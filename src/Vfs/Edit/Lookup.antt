-- ===== src/Vfs/Edit/Lookup.antt =====
-- The abstract view of the tree of vfs.rs, which node a name has in a directory, and how the
-- writes of `Vfs.Edit` change it.
use native.Mathlib.Decide.{ℕ_discrete}
use web_tos.Prelude.{
  ℕ, zero, suc, ◌-◌, ◌<◌, ◌≡◌, refl, ap, sym, ◌∙◌, List, [], ◌∷◌, ◌++◌, Option, none, some, inl,
  inr, arith, if◌then◌else◌, ◌==◌, length, get_elem?, set, length-set, get_elem?-set_self,
  get_elem?-set_ne, get_elem?-lt, get_elem?-lt_length, Result, ok, err, Result-cases,
}
use web_tos.Prelude.Bytes.{Bytes}
use web_tos.Prelude.ByteMap.{ByteMap, get}
use web_tos.Abi.{enotdir}
use web_tos.Vfs.{
  Vfs, Node, NodeKind, dir, Fault, errno, node_in, node_at, dir_in, dir_at, entries_of, file,
  chunked, symlink, char_dev,
}
use web_tos.Vfs.Edit.{set_node, set_entries, drop_link, set_parent}

-- The node that `name` has in the directory `d`.
abbrev pub entry : Result Fault (ByteMap ℕ) → Bytes → Option ℕ
entry (ok entries) name = get name entries
entry (err e) name = none

abbrev pub lookup : Vfs → ℕ → Bytes → Option ℕ
lookup v d name = entry (dir_at v d) name

-- A read at an index that is in the arena.
pub get_elem?-node_in :
    (nodes : List Node) (i : ℕ) {n : Node} → node_in nodes i ≡ ok n → get_elem? nodes i ≡ some n
unfolding node_in
get_elem?-node_in nodes i h = ground arith

pub node_in-lt : (nodes : List Node) (i : ℕ) {n : Node} → node_in nodes i ≡ ok n → i < length nodes
node_in-lt nodes i h = get_elem?-lt nodes i (get_elem?-node_in nodes i h)

pub node_in-set :
    (nodes : List Node) (i j : ℕ) (n : Node)
    → i < length nodes
    → node_in (set nodes i n) j ≡ (if i == j then ok n else node_in nodes j)
unfolding node_in
node_in-set nodes i j n h = elim (ℕ_discrete i j) [
  | yes same ↦ rw (← same) (ground (arith, get_elem?-set_self nodes i n h))
  | no differ ↦ ground (arith, get_elem?-set_ne nodes i j n differ)
]

pub kind_of_entries :
    (k : NodeKind) {entries : ByteMap ℕ} → entries_of k ≡ ok entries → k ≡ dir entries
kind_of_entries (dir e) h = cc
kind_of_entries (file _) h = cc
kind_of_entries (chunked _) h = cc
kind_of_entries (symlink _) h = cc
kind_of_entries (char_dev _) h = cc

pub node_of_dir :
    (nodes : List Node) (i : ℕ) {entries : ByteMap ℕ}
    → dir_in nodes i ≡ ok entries
    → (n : Node) × (node_in nodes i ≡ ok n) × (n.kind ≡ dir entries)
unfolding dir_in
node_of_dir nodes i h = elim (Result-cases (node_in nodes i)) [
  | inl (n, here) ↦ (n, here, kind_of_entries n.kind (rw (here, dir_in) at h))
  | inr (e, gone) ↦ absurd (ground (arith, h, gone))
]

pub dir_in-node_in :
    (nodes : List Node) (i : ℕ) (n : Node)
    → node_in nodes i ≡ ok n
    → dir_in nodes i ≡ entries_of n.kind
unfolding dir_in
dir_in-node_in nodes i n here = rw (here, dir_in) refl

-- One node written: the directories read as before, but for that node.
pub dir_in-set :
    (nodes : List Node) (i j : ℕ) (n : Node)
    → i < length nodes
    → dir_in (set nodes i n) j ≡ (if i == j then entries_of n.kind else dir_in nodes j)
unfolding dir_in
dir_in-set nodes i j n h = ground (arith, node_in-set nodes i j n h)

dir_in_same :
    (nodes : List Node) (i j : ℕ) (n : Node)
    → node_in nodes i ≡ ok n
    → (if i == j then entries_of n.kind else dir_in nodes j) ≡ dir_in nodes j
dir_in_same nodes i j n here = elim (ℕ_discrete i j) [
  | yes same ↦ rw (← same) (ground (arith, dir_in-node_in nodes i n here))
  | no differ ↦ ground arith
]

-- A node pushed: the directories read as before, but for the new index.
pub dir_in-push :
    (nodes : List Node) (j : ℕ) (n : Node)
    → dir_in (nodes ++ (n ∷ [])) j
      ≡ (if length nodes == j then entries_of n.kind else dir_in nodes j)
unfolding dir_in node_in
dir_in-push [] zero n = refl
dir_in-push [] (suc j) n = ground arith
dir_in-push (m ∷ nodes) zero n = ground arith
dir_in-push (m ∷ nodes) (suc j) n = ground (arith, dir_in-push nodes j n)

-- `set_entries` on a directory.
pub set_entries_lem :
    (v : Vfs) (i : ℕ) (old new : ByteMap ℕ)
    → dir_at v i ≡ ok old
    → ((set_entries i new v).0 ≡ ok tt)
      × ((j : ℕ) → dir_at (set_entries i new v).1 j ≡ (if i == j then ok new else dir_at v j))
      × (length (set_entries i new v).1.nodes ≡ length v.nodes)
unfolding set_entries
set_entries_lem v i old new h =
    let (n, here, k) = node_of_dir v.nodes i h in
    rw (here, set_entries)
      (
        refl,
        λ j. dir_in-set v.nodes i j (record n { kind = dir new }) (node_in-lt v.nodes i here),
        length-set v.nodes i (record n { kind = dir new }),
      )

-- Losing a link moves no entry.
pub drop_link_lem :
    (v : Vfs) (i : ℕ) (n : Node)
    → node_at v i ≡ ok n
    → ((drop_link i v).0 ≡ ok tt)
      × ((j : ℕ) → dir_at (drop_link i v).1 j ≡ dir_at v j)
      × (length (drop_link i v).1.nodes ≡ length v.nodes)
unfolding drop_link
drop_link_lem v i n here =
    let m = record n { nlink = n.nlink - 1 } in
    rw (here, drop_link)
      (
        refl,
        λ j. dir_in-set v.nodes i j m (node_in-lt v.nodes i here) ∙ dir_in_same v.nodes i j n here,
        length-set v.nodes i m,
      )

-- `set_parent` moves no entry either.
pub set_parent_lem :
    (v : Vfs) (i parent : ℕ) (n : Node)
    → node_at v i ≡ ok n
    → ((set_parent i parent v).0 ≡ ok tt)
      × ((j : ℕ) → dir_at (set_parent i parent v).1 j ≡ dir_at v j)
      × (length (set_parent i parent v).1.nodes ≡ length v.nodes)
unfolding set_parent
set_parent_lem v i parent n here =
    let m = record n { parent = parent } in
    rw (here, set_parent)
      (
        refl,
        λ j. dir_in-set v.nodes i j m (node_in-lt v.nodes i here) ∙ dir_in_same v.nodes i j n here,
        length-set v.nodes i m,
      )

-- An index inside the arena can be read.
pub node_in_of_lt :
    (nodes : List Node) (i : ℕ) → i < length nodes → (n : Node) × (node_in nodes i ≡ ok n)
unfolding node_in
node_in_of_lt nodes i h = let (n, e) = get_elem?-lt_length nodes i h in (n, rw (e, node_in) refl)

-- A node written with the kind that it had.
pub set_node_lem :
    (v : Vfs) (i : ℕ) (n m : Node)
    → node_at v i ≡ ok n
    → m.kind ≡ n.kind
    → ((set_node i m v).0 ≡ ok tt)
      × ((j : ℕ) → dir_at (set_node i m v).1 j ≡ dir_at v j)
      × (length (set_node i m v).1.nodes ≡ length v.nodes)
unfolding set_node
set_node_lem v i n m here same = (
  refl,
  λ j.
      dir_in-set v.nodes i j m (node_in-lt v.nodes i here)
      ∙ (ap (λ k. if i == j then entries_of k else dir_in v.nodes j) same
          ∙ dir_in_same v.nodes i j n here),
  length-set v.nodes i m,
)

entries_of-err : (k : NodeKind) {e : Fault} → entries_of k ≡ err e → e ≡ errno enotdir
entries_of-err (dir _) h = cc
entries_of-err (file _) h = cc
entries_of-err (chunked _) h = cc
entries_of-err (symlink _) h = cc
entries_of-err (char_dev _) h = cc

-- Inside the arena the only failure is a node that is no directory.
pub dir_in-err :
    (nodes : List Node) (i : ℕ) {e : Fault}
    → i < length nodes
    → dir_in nodes i ≡ err e
    → e ≡ errno enotdir
dir_in-err nodes i {e} h bad =
    let (n, here) = node_in_of_lt nodes i h in
    entries_of-err n.kind (sym (dir_in-node_in nodes i n here) ∙ bad)
