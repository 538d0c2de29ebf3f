-- ===== src/Vfs/Path/Safe.antt =====
-- `resolve` of vfs.rs on a tree whose indices are all in the arena: it cannot panic, and what it
-- answers is in the arena too.
use web_tos.Prelude.{
  ℕ, zero, suc, ◌<◌, ◌≡◌, ◌⊎◌, refl, List, [], ◌∷◌, Bool, true, false, Bool-cases, Option-cases,
  some, inl, inr, arith, if◌then◌else◌, is_empty, length, Result, Result-cases, ok, err, ◌>>=◌,
  ok_or,
}
use web_tos.Prelude.Bytes.{Bytes, bytes_eq}
use web_tos.Prelude.ByteMap.{ByteMap, get}
use web_tos.Abi.{enoent, enotdir, eloop}
use web_tos.Vfs.{
  Vfs, Node, NodeKind, dir, file, chunked, symlink, char_dev, Resolved, Fault, errno, root, node_at,
  dir_at, is_dir, kind_is_dir,
}
use web_tos.Vfs.Edit.Lookup.{lookup, node_in_of_lt, dir_in-err}
use web_tos.Vfs.Path.{
  dot_dot, components, itself, last_step, inner_step, walk, starts_at_root, resolve_depth, resolve,
}

-- An answer that is an error number for the guest, or a value with `P`.
abbrev pub Safe {ℓ κ} : {A : Type ℓ} → (A → Type κ) → Result Fault A → Type (ℓ ⊔ κ)
Safe {A = A} P r = ((e : ℕ) × (r ≡ err (errno e))) ⊎ ((a : A) × (r ≡ ok a) × P a)

Safe-bind {ℓ κ μ ν} :
    {A : Type ℓ} {B : Type κ} {P : A → Type μ} {Q : B → Type ν} (r : Result Fault A)
    (f : A → Result Fault B)
    → Safe P r
    → ((a : A) → P a → Safe Q (f a))
    → Safe Q (r >>= f)
Safe-bind r f (inl (e, h)) step = inl (e, rw h refl)
Safe-bind r f (inr (a, h, p)) step = rw h (step a p)

-- Every index in the tree is in the arena.
pub record IsClosed (v : Vfs) : Type 0 where
  pub root_in : root < length v.nodes
  pub parents_in : (i : ℕ) (n : Node) → node_at v i ≡ ok n → n.parent < length v.nodes
  pub entries_in : (d : ℕ) (m : Bytes) (i : ℕ) → lookup v d m ≡ some i → i < length v.nodes

abbrev pub ResolvedIn : Vfs → Resolved → Type 0
ResolvedIn v r = (r.parent < length v.nodes) × ((i : ℕ) → r.node ≡ some i → i < length v.nodes)

module _ (v : Vfs) (closed : IsClosed v) where
  In : ℕ → Type 0
  In i = i < length v.nodes

  node-Safe : (i : ℕ) → i < length v.nodes → Safe (λ n. node_at v i ≡ ok n) (node_at v i)
  node-Safe i h = let (n, here) = node_in_of_lt v.nodes i h in inr (n, here, here)

  dir-Safe : (i : ℕ) → i < length v.nodes → Safe (λ m. dir_at v i ≡ ok m) (dir_at v i)
  dir-Safe i h = elim (Result-cases (dir_at v i)) [
    | inl (m, here) ↦ inr (m, here, here)
    | inr (e, bad) ↦ inl (enotdir, rw (← dir_in-err v.nodes i h bad) bad)
  ]

  entry_in :
      (i : ℕ) (m : Bytes) (entries : ByteMap ℕ) (next : ℕ)
      → dir_at v i ≡ ok entries
      → get m entries ≡ some next
      → next < length v.nodes
  entry_in i m entries next here found = closed.entries_in i m next (rw here found)

  module _ (below : ℕ → Bytes → Result Fault Resolved)
      (below_safe : (i : ℕ) (p : Bytes)
        → i < length v.nodes
        → Safe (ResolvedIn v) (below i p)) where
    itself-Safe : (i : ℕ) → i < length v.nodes → Safe (ResolvedIn v) (itself v below i)
    itself-Safe i h =
        Safe-bind (node_at v i) _ (node-Safe i h)
          (λ n here. inr (_, refl, (closed.parents_in i n here, λ j e. ground (arith, h))))

    follow-Safe :
        (i : ℕ) (k : NodeKind) (found : Resolved)
        → i < length v.nodes
        → ResolvedIn v found
        → Safe (ResolvedIn v) (elim k [ symlink target ↦ below i target.items | _ ↦ ok found ])
    follow-Safe i (symlink target) found h f = below_safe i target.items h
    follow-Safe i (dir _) found h f = inr (found, refl, f)
    follow-Safe i (file _) found h f = inr (found, refl, f)
    follow-Safe i (chunked _) found h f = inr (found, refl, f)
    follow-Safe i (char_dev _) found h f = inr (found, refl, f)

    last-Safe :
        (follow : Bool) (i : ℕ) (c : Bytes)
        → i < length v.nodes
        → Safe (ResolvedIn v) (last_step v below follow i c)
    unfolding last_step
    last-Safe follow i c h = Safe-bind (dir_at v i) _ (dir-Safe i h) (λ entries here.
        elim (Option-cases (get c entries)) [
          | inl gone ↦ rw gone (inr (_, refl, (h, λ j e. cc)))
          | inr (next, found) ↦
              let inside = entry_in i c entries next here found in
              let there : Resolved = record { parent = i; name = c; node = get c entries } in
              let fine : ResolvedIn v there = (h, λ j e. ground (arith, inside, found)) in
              elim (Bool-cases follow) [
                | inl follows ↦
                    rw (found, follows)
                      (Safe-bind (node_at v next) _ (node-Safe next inside)
                        (λ n at. follow-Safe i n.kind there h fine))
                | inr stays ↦ rw (found, stays) (inr (there, refl, fine))
              ]
        ])

    link-Safe :
        (i next : ℕ) (k : NodeKind)
        → i < length v.nodes
        → next < length v.nodes
        → Safe
            (λ j. j < length v.nodes)
            (elim k [
              | symlink target ↦
                  (below i target.items >>= λ resolved.
                  ok_or resolved.node (errno enoent) >>= λ node.
                  is_dir v node >>= λ directory. if directory then ok node else err (errno enotdir))
              | dir _ ↦ ok next
              | _ ↦ err (errno enotdir)
            ])
    unfolding is_dir
    link-Safe i next (symlink target) h inside =
        Safe-bind (below i target.items) _ (below_safe i target.items h) (λ resolved r.
          elim (Option-cases resolved.node) [
            | inl gone ↦ rw gone (inl (enoent, refl))
            | inr (node, there) ↦ rw there (
                Safe-bind {P = λ d. Unit {0}} (is_dir v node) _
                  (Safe-bind (node_at v node) _ (node-Safe node (r.1 node there))
                    (λ n at. inr (kind_is_dir n.kind, refl, tt)))
                  (λ directory u. elim (Bool-cases directory) [
                    | inl yes_dir ↦ rw yes_dir (inr (node, refl, r.1 node there))
                    | inr no_dir ↦ rw no_dir (inl (enotdir, refl))
                  ]))
          ])
    link-Safe i next (dir _) h inside = inr (next, refl, inside)
    link-Safe i next (file _) h inside = inl (enotdir, refl)
    link-Safe i next (chunked _) h inside = inl (enotdir, refl)
    link-Safe i next (char_dev _) h inside = inl (enotdir, refl)

    inner-Safe :
        (i : ℕ) (c : Bytes)
        → i < length v.nodes
        → Safe (λ j. j < length v.nodes) (inner_step v below i c)
    unfolding inner_step
    inner-Safe i c h = Safe-bind (dir_at v i) _ (dir-Safe i h) (λ entries here.
        elim (Option-cases (get c entries)) [
          | inl gone ↦ rw gone (inl (enoent, refl))
          | inr (next, found) ↦
              let inside = entry_in i c entries next here found in
              rw found (
                Safe-bind (node_at v next) _ (node-Safe next inside)
                  (λ n at. link-Safe i next n.kind h inside))
        ])

    walk-Safe :
        (follow : Bool) (i : ℕ) (cs : List Bytes)
        → is_empty cs ≡ false
        → i < length v.nodes
        → Safe (ResolvedIn v) (walk v below follow i cs)
    unfolding walk
    walk-Safe follow i [] some_left h = cc
    walk-Safe follow i (c ∷ []) some_left h = elim (Bool-cases (bytes_eq c dot_dot)) [
      | inl up ↦
          rw (walk, up)
            (Safe-bind (node_at v i) _ (node-Safe i h)
              (λ n here. itself-Safe n.parent (closed.parents_in i n here)))
      | inr down ↦ rw (walk, down) (last-Safe follow i c h)
    ]
    walk-Safe follow i (c ∷ (d ∷ rest)) some_left h = elim (Bool-cases (bytes_eq c dot_dot)) [
      | inl up ↦
          rw (walk, up)
            (Safe-bind (node_at v i) _ (node-Safe i h)
              (λ n here. walk-Safe follow n.parent (d ∷ rest) refl (closed.parents_in i n here)))
      | inr down ↦
          rw (walk, down)
            (Safe-bind (inner_step v below i c) _ (inner-Safe i c h)
              (λ next inside. walk-Safe follow next (d ∷ rest) refl inside))
    ]

  depth-Safe :
      (left i : ℕ) (path : Bytes) (follow : Bool)
      → i < length v.nodes
      → Safe (ResolvedIn v) (resolve_depth left v i path follow)
  unfolding resolve_depth
  depth-Safe zero i path follow h = inl (eloop, refl)
  depth-Safe (suc left) i path follow h =
      let below : ℕ → Bytes → Result Fault Resolved =
        λ from target. resolve_depth left v from target true in
      let below_safe : (from : ℕ) (target : Bytes)
          → from < length v.nodes
          → Safe (ResolvedIn v) (below from target) =
        λ from target inside. depth-Safe left from target true inside in
      let current = if starts_at_root path then root else i in
      let current_in : current < length v.nodes = ground (arith, h, closed.root_in) in
      elim (Bool-cases (is_empty (components path))) [
        | inl bare ↦ rw (resolve_depth, bare) (itself-Safe below below_safe current current_in)
        | inr some_left ↦
            rw (resolve_depth, some_left)
              (walk-Safe below below_safe follow current (components path) some_left current_in)
      ]

  -- On a tree whose indices are all in the arena, resolving any path from a node of the arena ends
  -- without a panic: with an error number, or with a parent in the arena and a node, if there is one,
  -- in the arena too.
  pub resolve_lem :
      (start : ℕ) (path : Bytes) (follow : Bool)
      → start < length v.nodes
      → Safe (ResolvedIn v) (resolve v start path follow)
  unfolding resolve
  resolve_lem start path follow h = elim (Bool-cases (is_empty path)) [
    | inl nothing ↦ rw nothing (inl (enoent, refl))
    | inr path_given ↦ rw path_given (depth-Safe 9 start path follow h)
  ]
