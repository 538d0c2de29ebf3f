-- ===== src/Vfs/Edit/Link.antt =====
-- `link` of vfs.rs against the view of names, on every branch.
use web_tos.Prelude.{
  ℕ, ◌+◌, ◌%◌, ◌^◌, ◌<◌, ◌≡◌, ◌⊎◌, refl, ap, ◌∙◌, ◌&&◌, Option-cases, none, some, inl, inr, arith,
  if◌then◌else◌, ◌==◌, Result, ok, err, Result-cases, length,
}
use web_tos.Prelude.Bytes.{Bytes, bytes_eq}
use web_tos.Prelude.ByteMap.{ByteMap, get, insert, get-insert}
use web_tos.Abi.{eexist}
use web_tos.Vfs.{Vfs, Node, Fault, errno, dir_at}
use web_tos.Vfs.Edit.{link, set_entries, set_node}
use web_tos.Vfs.Edit.Lookup.{entry, lookup, set_entries_lem, set_node_lem, node_in_of_lt}

-- What `link` may do.
abbrev pub Linked : Vfs → ℕ → Bytes → ℕ → Result Fault (Unit {0}) × Vfs → Type 0
Linked v parent name node r =
    ((e : Fault) × (r ≡ (err e, v))
      × ((dir_at v parent ≡ err e)
          ⊎ ((i : ℕ) × (lookup v parent name ≡ some i) × (e ≡ errno eexist))))
    ⊎ ((lookup v parent name ≡ none)
        × (r.0 ≡ ok tt)
        × ((d : ℕ) (m : Bytes)
            → lookup r.1 d m
              ≡ (if d == parent && bytes_eq m name then some node else lookup v d m)))

linked :
    (v : Vfs) (parent : ℕ) (name : Bytes) (node : ℕ) (entries : ByteMap ℕ)
    → dir_at v parent ≡ ok entries
    → (i : ℕ) (m : Bytes)
    → entry (if parent == i then ok (insert name node entries) else dir_at v i) m
      ≡ (if i == parent && bytes_eq m name then some node else lookup v i m)
linked v parent name node entries here i m = ground (arith, get-insert name m node entries)

-- For a node of the arena: a failure leaves the filesystem exactly as it was, and it is that the
-- parent is no directory or that the name exists (EEXIST). A success had no such
-- name; afterwards it has the node that was given, and every other name in every directory the
-- node that it had.
pub link_lem :
    (v : Vfs) (parent : ℕ) (name : Bytes) (node : ℕ)
    → node < length v.nodes
    → Linked v parent name node (link parent name node v)
unfolding link
link_lem v parent name node inside = elim (Result-cases (dir_at v parent)) [
  | inr (e, bad) ↦ inl (e, rw (bad, link) refl, inl bad)
  | inl (entries, here) ↦ elim (Option-cases (get name entries)) [
    | inr (i, taken) ↦ inl (errno eexist, rw (here, link, taken) refl, inr (i, rw here taken, refl))
    | inl free ↦
        let s = set_entries_lem v parent entries (insert name node entries) here in
        let w = (set_entries parent (insert name node entries) v).1 in
        let (n, at) = node_in_of_lt w.nodes node (rw s.2 inside) in
        let m : Node = record n { nlink = (n.nlink + 1) % 2 ^ 64 } in
        let t = set_node_lem w node n m at refl in
        let runs : link parent name node v ≡ set_node node m w =
          rw (here, link, free, s.0, at) refl in
        rw runs (
          inr (
            rw here free,
            t.0,
            λ i q. ap (λ x. entry x q) (t.1 i ∙ s.1 i) ∙ linked v parent name node entries here i q,
          ))
  ]
]
