-- ===== src/Vfs/Edit/Space.antt =====
-- The bytes of the tree after the guest's edits (vfs.rs), against the storage budget.
use web_tos.Prelude.{
  ℕ, ◌+◌, ◌≤◌, ◌<◌, ◌≡◌, refl, ap, List, [], ◌∷◌, ◌++◌, Bool-cases, Option-cases, some, inl, inr,
  arith, ok, Result-cases, length, set,
}
use web_tos.Prelude.Bytes.{Bytes}
use web_tos.Prelude.ByteMap.{ByteMap, get, insert}
use web_tos.Vfs.{Vfs, Node, NodeKind, dir, data_len, dir_at}
use web_tos.Vfs.Storage.{nodes_bytes, bytes, reserve, usize_max}
use web_tos.Vfs.Storage.Reclaim.{nodes_bytes-set}
use web_tos.Vfs.Storage.Budget.{reserve_lem}
use web_tos.Vfs.Edit.{create, alloc, set_entries, fresh_node, is_reserved}
use web_tos.Vfs.Edit.Lookup.{node_of_dir, get_elem?-node_in, set_entries_lem}

nodes_bytes-push :
    (nodes : List Node) (n : Node)
    → nodes_bytes (nodes ++ (n ∷ [])) ≡ nodes_bytes nodes + data_len n.kind
unfolding nodes_bytes
nodes_bytes-push [] n = omega arith
nodes_bytes-push (m ∷ nodes) n = omega (arith, nodes_bytes-push nodes n)

-- Entries cost no bytes.
bytes-set_entries :
    (v : Vfs) (i : ℕ) (old new : ByteMap ℕ)
    → dir_at v i ≡ ok old
    → bytes (set_entries i new v).1 ≡ bytes v
unfolding set_entries bytes data_len
bytes-set_entries v i old new here =
    let (n, at, k) = node_of_dir v.nodes i here in
    let m : Node = record n { kind = dir new } in
    let same : nodes_bytes (set v.nodes i m) ≡ nodes_bytes v.nodes =
      omega
        (arith, nodes_bytes-set v.nodes i n m (get_elem?-node_in v.nodes i at), ap data_len k) in
    rw (at, set_entries) (omega (arith, same))

module _ (v : Vfs) (parent : ℕ) (name : Bytes) (kind : NodeKind) (mode budget : ℕ)
    (set : v.storage_budget ≡ some budget) (small : budget < usize_max)
    (within : bytes v ≤ budget) where
  abbrev grown : Vfs
  grown = record v { nodes = v.nodes ++ (fresh_node kind mode parent ∷ []) }

  bytes-grown : reserve v (data_len kind) ≡ ok tt → bytes grown ≤ budget
  unfolding bytes
  bytes-grown room = ground (
    arith,
    reserve_lem v (data_len kind) budget set small,
    nodes_bytes-push v.nodes (fresh_node kind mode parent),
  )

  -- With a budget below the largest word that the tree is within, `create` keeps the tree within
  -- it, however it ends.
  pub create_within_budget : bytes (create parent name kind mode v).1 ≤ budget
  unfolding create alloc
  create_within_budget = elim (Bool-cases (is_reserved name)) [
    | inl bad ↦ rw (bad, create) within
    | inr fine ↦ elim (Result-cases (reserve v (data_len kind))) [
      | inr (e, full) ↦ rw (fine, create, full) within
      | inl (done, room) ↦
          let g = bytes-grown room in
          elim (Result-cases (dir_at grown parent)) [
            | inr (e, bad) ↦ rw (fine, create, room, bad) g
            | inl (entries, here) ↦ elim (Option-cases (get name entries)) [
              | inr (i, taken) ↦ rw (fine, create, room, here, taken) g
              | inl free ↦
                  let new = insert name (length v.nodes) entries in
                  let s = set_entries_lem grown parent entries new here in
                  let runs : (create parent name kind mode v).1 ≡ (set_entries parent new grown).1 =
                    rw (fine, create, room, here, free, s.0) refl in
                  rw (runs, bytes-set_entries grown parent entries new here) g
            ]
          ]
    ]
  ]
