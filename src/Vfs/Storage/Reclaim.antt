-- ===== src/Vfs/Storage/Reclaim.antt =====
-- `release_unreferenced` of vfs.rs: which contents go, which stay, and how many bytes are freed.
use native.Mathlib.Decide.{ℕ_discrete}
use web_tos.Prelude.{
  ℕ, zero, suc, ◌+◌, ◌≡◌, refl, ◌∙◌, List, [], ◌∷◌, ◌++◌, Bool, not, ◌&&◌, ◌||◌, Bool-cases, Option,
  Option-cases, none, some, inl, inr, arith, if◌then◌else◌, ◌==◌, get_elem?, set, get_elem?-lt,
  get_elem?-set_self, get_elem?-set_ne,
}
use web_tos.Vfs.{Vfs, Node, data_len, contains_index}
use web_tos.Vfs.Storage.{nodes_bytes, emptied, release_loop, release_unreferenced}

contains-append :
    (l : List ℕ) (i j : ℕ) → contains_index (l ++ (i ∷ [])) j ≡ contains_index l j || (i == j)
contains-append [] i j = ground arith
contains-append (k ∷ l) i j = ground (arith, contains-append l i j)

pub nodes_bytes-set :
    (nodes : List Node) (i : ℕ) (n m : Node)
    → get_elem? nodes i ≡ some n
    → nodes_bytes (set nodes i m) + data_len n.kind ≡ nodes_bytes nodes + data_len m.kind
unfolding nodes_bytes
nodes_bytes-set [] i n m h = cc
nodes_bytes-set (k ∷ nodes) zero n m h = ground arith
nodes_bytes-set (k ∷ nodes) (suc i) n m h = omega (arith, nodes_bytes-set nodes i n m h)

-- A node is emptied if it is in `gone`, and else as it was.
abbrev pub after : Bool → Option Node → Option Node
after gone none = none
after gone (some n) = if gone then some (emptied n) else some n

set-after :
    (nodes : List Node) (i j : ℕ) (n : Node)
    → get_elem? nodes i ≡ some n
    → get_elem? (set nodes i (emptied n)) j ≡ after (i == j) (get_elem? nodes j)
set-after nodes i j n h = elim (ℕ_discrete i j) [
  | yes same ↦ ground (arith, get_elem?-set_self nodes i (emptied n) (get_elem?-lt nodes i h), same)
  | no differ ↦ ground (arith, get_elem?-set_ne nodes i j (emptied n) differ)
]

loop_nodes :
    (unlinked referenced : List ℕ) (nodes : List Node) (freed : ℕ) (open_still : List ℕ) (j : ℕ)
    → get_elem? (release_loop unlinked referenced nodes freed open_still).0 j
      ≡ after (contains_index unlinked j && not (contains_index referenced j)) (get_elem? nodes j)
unfolding release_loop
loop_nodes [] referenced nodes freed open_still j = ground arith
loop_nodes (i ∷ unlinked) referenced nodes freed open_still j =
    elim (Bool-cases (contains_index referenced i)) [
      | inl held ↦
          rw (held, release_loop)
            (loop_nodes unlinked referenced nodes freed (open_still ++ (i ∷ [])) j ∙ ground arith)
      | inr free ↦ elim (Option-cases (get_elem? nodes i)) [
        | inl out ↦
            rw (free, release_loop, out)
              (loop_nodes unlinked referenced nodes freed open_still j ∙ ground arith)
        | inr (n, here) ↦
            rw (free, release_loop, here)
              (loop_nodes unlinked referenced (set nodes i (emptied n)) (freed + data_len n.kind)
                  open_still j
                ∙ ground (arith, set-after nodes i j n here))
      ]
    ]

loop_bytes :
    (unlinked referenced : List ℕ) (nodes : List Node) (freed : ℕ) (open_still : List ℕ)
    → let r = release_loop unlinked referenced nodes freed open_still in
      nodes_bytes r.0 + r.1 ≡ nodes_bytes nodes + freed
unfolding release_loop data_len
loop_bytes [] referenced nodes freed open_still = refl
loop_bytes (i ∷ unlinked) referenced nodes freed open_still =
    elim (Bool-cases (contains_index referenced i)) [
      | inl held ↦
          rw (held, release_loop)
            (loop_bytes unlinked referenced nodes freed (open_still ++ (i ∷ [])))
      | inr free ↦ elim (Option-cases (get_elem? nodes i)) [
        | inl out ↦
            rw (free, release_loop, out) (loop_bytes unlinked referenced nodes freed open_still)
        | inr (n, here) ↦
            rw (free, release_loop, here)
              (loop_bytes unlinked referenced (set nodes i (emptied n)) (freed + data_len n.kind)
                  open_still
                ∙ omega (arith, nodes_bytes-set nodes i n (emptied n) here))
      ]
    ]

loop_open :
    (unlinked referenced : List ℕ) (nodes : List Node) (freed : ℕ) (open_still : List ℕ) (j : ℕ)
    → contains_index (release_loop unlinked referenced nodes freed open_still).2 j
      ≡ contains_index open_still j || (contains_index unlinked j && contains_index referenced j)
unfolding release_loop
loop_open [] referenced nodes freed open_still j = ground arith
loop_open (i ∷ unlinked) referenced nodes freed open_still j =
    elim (Bool-cases (contains_index referenced i)) [
      | inl held ↦
          rw (held, release_loop)
            (loop_open unlinked referenced nodes freed (open_still ++ (i ∷ [])) j
              ∙ ground (arith, contains-append open_still i j))
      | inr free ↦ elim (Option-cases (get_elem? nodes i)) [
        | inl out ↦
            rw (free, release_loop, out)
              (loop_open unlinked referenced nodes freed open_still j ∙ ground arith)
        | inr (n, here) ↦
            rw (free, release_loop, here)
              (loop_open unlinked referenced (set nodes i (emptied n)) (freed + data_len n.kind)
                  open_still j
                ∙ ground arith)
      ]
    ]

-- The nodes that were unlinked and that no descriptor refers to lose their contents; every other
-- node stays as it was. The bytes that the tree holds fall by the number that is returned. The
-- nodes that are still open are exactly those that stay in the list of unlinked ones.
pub release_unreferenced_lem :
    (v : Vfs) (referenced : List ℕ)
    → let (freed, w) = release_unreferenced v referenced in
      ((i : ℕ)
        → get_elem? w.nodes i
          ≡ after
              (contains_index v.unlinked i && not (contains_index referenced i))
              (get_elem? v.nodes i))
      × (nodes_bytes w.nodes + freed ≡ nodes_bytes v.nodes)
      × ((i : ℕ)
          → contains_index w.unlinked i
            ≡ contains_index v.unlinked i && contains_index referenced i)
unfolding release_unreferenced
release_unreferenced_lem v referenced = (
  λ i. loop_nodes v.unlinked referenced v.nodes 0 [] i,
  loop_bytes v.unlinked referenced v.nodes 0 [] ∙ omega arith,
  λ i. loop_open v.unlinked referenced v.nodes 0 [] i,
)
