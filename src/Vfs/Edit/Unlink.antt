-- ===== src/Vfs/Edit/Unlink.antt =====
-- `unlink` of vfs.rs against the view of names, on every branch.
use web_tos.Prelude.{
  ℕ, ◌≡◌, ◌≢◌, ◌⊎◌, refl, ap, ◌∙◌, [], ◌∷◌, Bool, true, false, ◌&&◌, Option-cases, none, some, inl,
  inr, arith, if◌then◌else◌, ◌==◌, Result, ok, err, Result-cases,
}
use web_tos.Prelude.Bytes.{Bytes, bytes_eq}
use web_tos.Prelude.ByteMap.{ByteMap, get, remove, get-remove}
use web_tos.Abi.{enoent, enotdir, eisdir, enotempty}
use web_tos.Vfs.{
  Vfs, Node, NodeKind, dir, file, chunked, symlink, char_dev, Fault, errno, node_at, dir_at,
}
use web_tos.Vfs.Edit.{unlink, named_entry, check_removal, set_entries, drop_link}
use web_tos.Vfs.Edit.Lookup.{
  entry, lookup, set_entries_lem, drop_link_lem, node_in_of_lt, node_in-lt,
}

-- A node that may go: a directory as one and only if it is empty, another node as no directory.
abbrev pub Removable : NodeKind → Bool → Type 0
Removable (dir children) rmdir = (rmdir ≡ true) × (children ≡ [])
Removable _ rmdir = rmdir ≡ false

-- Why a node may not go.
abbrev pub Refused : NodeKind → Bool → Fault → Type 0
Refused (dir children) rmdir e =
    (rmdir ≡ false) × (e ≡ errno eisdir) ⊎ (rmdir ≡ true) × (children ≢ []) × (e ≡ errno enotempty)
Refused _ rmdir e = (rmdir ≡ true) × (e ≡ errno enotdir)

check_removal_lem :
    (k : NodeKind) (rmdir : Bool)
    → (check_removal k rmdir ≡ ok tt) × Removable k rmdir
      ⊎ ((e : Fault) × (check_removal k rmdir ≡ err e) × Refused k rmdir e)
unfolding check_removal
check_removal_lem (dir []) true = inl (refl, (refl, refl))
check_removal_lem (dir (c ∷ children)) true = inr (errno enotempty, refl, inr (refl, cc, refl))
check_removal_lem (dir []) false = inr (errno eisdir, refl, inl (refl, refl))
check_removal_lem (dir (c ∷ children)) false = inr (errno eisdir, refl, inl (refl, refl))
check_removal_lem (file _) true = inr (errno enotdir, refl, (refl, refl))
check_removal_lem (file _) false = inl (refl, refl)
check_removal_lem (chunked _) true = inr (errno enotdir, refl, (refl, refl))
check_removal_lem (chunked _) false = inl (refl, refl)
check_removal_lem (symlink _) true = inr (errno enotdir, refl, (refl, refl))
check_removal_lem (symlink _) false = inl (refl, refl)
check_removal_lem (char_dev _) true = inr (errno enotdir, refl, (refl, refl))
check_removal_lem (char_dev _) false = inl (refl, refl)

-- Why `unlink` fails.
abbrev pub UnlinkFails : Vfs → ℕ → Bytes → Bool → Fault → Type 0
UnlinkFails v parent name rmdir e =
    (dir_at v parent ≡ err e)
    ⊎ (lookup v parent name ≡ none) × (e ≡ errno enoent)
    ⊎ ((node : ℕ) × (lookup v parent name ≡ some node) × (node_at v node ≡ err e))
    ⊎ ((node : ℕ) × (n : Node) × (lookup v parent name ≡ some node)
        × (node_at v node ≡ ok n)
        × Refused n.kind rmdir e)

-- What `unlink` may do.
abbrev pub Unlinked : Vfs → ℕ → Bytes → Bool → Result Fault (Unit {0}) × Vfs → Type 0
Unlinked v parent name rmdir r =
    ((e : Fault) × (r ≡ (err e, v)) × UnlinkFails v parent name rmdir e)
    ⊎ ((node : ℕ) × (n : Node) × (lookup v parent name ≡ some node)
        × (node_at v node ≡ ok n)
        × Removable n.kind rmdir
        × (r.0 ≡ ok tt)
        × ((d : ℕ) (m : Bytes)
            → lookup r.1 d m ≡ (if d == parent && bytes_eq m name then none else lookup v d m)))

pub absent :
    (v : Vfs) (parent : ℕ) (name : Bytes) (entries : ByteMap ℕ) {e : Fault}
    → dir_at v parent ≡ ok entries
    → named_entry entries name ≡ err e
    → (lookup v parent name ≡ none) × (e ≡ errno enoent)
unfolding named_entry
absent v parent name entries {e} here gone = elim (Option-cases (get name entries)) [
  | inl none_there ↦ (rw here none_there, ground arith)
  | inr (i, there) ↦ absurd (ground arith)
]

pub named :
    (v : Vfs) (parent : ℕ) (name : Bytes) (entries : ByteMap ℕ) (node : ℕ)
    → dir_at v parent ≡ ok entries
    → named_entry entries name ≡ ok node
    → lookup v parent name ≡ some node
unfolding named_entry
named v parent name entries node here found = rw here (ground arith)

removed :
    (v : Vfs) (parent : ℕ) (name : Bytes) (entries : ByteMap ℕ)
    → dir_at v parent ≡ ok entries
    → (i : ℕ) (m : Bytes)
    → entry (if parent == i then ok (remove name entries) else dir_at v i) m
      ≡ (if i == parent && bytes_eq m name then none else lookup v i m)
removed v parent name entries here i m = ground (arith, get-remove name m entries)

-- A failure leaves the filesystem exactly as it was, and has one of four reasons: the parent is no
-- directory, it has no such name (ENOENT), the name leads out of the arena, or the node may not go
-- (a directory without `rmdir` is EISDIR, with entries ENOTEMPTY, another node with `rmdir`
-- ENOTDIR). A success had a node under that name which may go, and afterwards that name is gone and
-- every other name in every directory has the node that it had.
pub unlink_lem :
    (v : Vfs) (parent : ℕ) (name : Bytes) (rmdir : Bool)
    → Unlinked v parent name rmdir (unlink parent name rmdir v)
unfolding unlink
unlink_lem v parent name rmdir = elim (Result-cases (dir_at v parent)) [
  | inr (e, bad) ↦ inl (e, rw (bad, unlink) refl, inl bad)
  | inl (entries, here) ↦ elim (Result-cases (named_entry entries name)) [
    | inr (e, bad) ↦
        inl (e, rw (here, unlink, bad) refl, inr (inl (absent v parent name entries here bad)))
    | inl (node, found) ↦
        let there = named v parent name entries node here found in
        elim (Result-cases (node_at v node)) [
          | inr (e, bad) ↦
              inl (e, rw (here, unlink, found, bad) refl, inr (inr (inl (node, there, bad))))
          | inl (n, at) ↦ elim (check_removal_lem n.kind rmdir) [
            | inr (e, bad, why) ↦ inl (
              e,
              rw (here, unlink, found, at, bad) refl,
              inr (inr (inr (node, n, there, at, why))),
            )
            | inl (fine, may) ↦
                let s = set_entries_lem v parent entries (remove name entries) here in
                let w = (set_entries parent (remove name entries) v).1 in
                let (n', at') =
                  node_in_of_lt w.nodes node (omega (arith, s.2, node_in-lt v.nodes node at)) in
                let d = drop_link_lem w node n' at' in
                let runs : unlink parent name rmdir v ≡ drop_link node w =
                  rw (here, unlink, found, at, fine, s.0) refl in
                rw runs (
                  inr (
                    node,
                    n,
                    there,
                    at,
                    may,
                    d.0,
                    λ i m.
                        ap (λ x. entry x m) (d.1 i ∙ s.1 i)
                        ∙ removed v parent name entries here i m,
                  ))
          ]
        ]
  ]
]
