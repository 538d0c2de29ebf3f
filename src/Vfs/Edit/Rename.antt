-- ===== src/Vfs/Edit/Rename.antt =====
-- `rename` of vfs.rs against the view of names, on every branch.
use web_tos.Prelude.{
  ℕ, ◌<◌, ◌≡◌, ◌⊎◌, refl, ap, ◌∙◌, ◌&&◌, Option, none, some, inl, inr, arith, if◌then◌else◌, ◌==◌,
  Result, ok, err, Result-cases, Bool-cases, length,
}
use web_tos.Prelude.Bytes.{Bytes, bytes_eq}
use web_tos.Prelude.ByteMap.{ByteMap, get, insert, remove, get-remove, get-insert}
use web_tos.Abi.{enoent, enotempty}
use web_tos.Vfs.{Vfs, Fault, errno, dir_at}
use web_tos.Vfs.Edit.{rename, named_entry, check_replaced, set_entries, drop_displaced, set_parent}
use web_tos.Vfs.Edit.Lookup.{
  entry, lookup, set_entries_lem, drop_link_lem, set_parent_lem, node_in_of_lt,
}
use web_tos.Vfs.Edit.Unlink.{named, absent}
use web_tos.Vfs.Edit.Replace.{Replaceable, InTheWay, check_replaced_lem}

-- Every name leads to a node of the arena.
abbrev pub EntriesIn : Vfs → Type 0
EntriesIn v = (d : ℕ) (m : Bytes) (i : ℕ) → lookup v d m ≡ some i → i < length v.nodes

-- The entries after a rename: the new name has the node, the old one nothing.
abbrev pub moved : Vfs → ℕ → Bytes → ℕ → Bytes → ℕ → ℕ → Bytes → Option ℕ
moved v old_parent old_name new_parent new_name node d m =
    if d == new_parent && bytes_eq m new_name
    then some node
    else if d == old_parent && bytes_eq m old_name
    then none
    else lookup v d m

-- `drop_displaced` moves no entry, if what it drops is in the arena.
drop_displaced_lem :
    (v : Vfs) (o : Option ℕ) (node : ℕ)
    → ((i : ℕ) → o ≡ some i → i < length v.nodes)
    → ((drop_displaced o node v).0 ≡ ok tt)
      × ((j : ℕ) → dir_at (drop_displaced o node v).1 j ≡ dir_at v j)
      × (length (drop_displaced o node v).1.nodes ≡ length v.nodes)
drop_displaced_lem v none node h = (refl, λ j. refl, refl)
drop_displaced_lem v (some i) node h = elim (Bool-cases (i == node)) [
  | inl same ↦ rw same (refl, λ j. refl, refl)
  | inr differ ↦
      let (n, here) = node_in_of_lt v.nodes i (h i refl) in rw differ (drop_link_lem v i n here)
]

-- The state between the two writes of entries.
module _ (v : Vfs) (inside : EntriesIn v) (old_parent : ℕ) (old_name : Bytes) (new_parent : ℕ)
    (new_name : Bytes) (entries targets : ByteMap ℕ) (node : ℕ)
    (here : dir_at v old_parent ≡ ok entries) (there : dir_at v new_parent ≡ ok targets)
    (found : named_entry entries old_name ≡ ok node) where
  abbrev without : Vfs
  without = (set_entries old_parent (remove old_name entries) v).1

  abbrev kept : ByteMap ℕ
  kept = if old_parent == new_parent then remove old_name entries else targets

  there' : dir_at without new_parent ≡ ok kept
  there' =
      (set_entries_lem v old_parent entries (remove old_name entries) here).1 new_parent
      ∙ ground arith

  abbrev with_new : Vfs
  with_new = (set_entries new_parent (insert new_name node kept) without).1

  length-with_new : length with_new.nodes ≡ length v.nodes
  length-with_new =
      (set_entries_lem without new_parent kept (insert new_name node kept) there').2
      ∙ (set_entries_lem v old_parent entries (remove old_name entries) here).2

  kept_in : (i : ℕ) → get new_name kept ≡ some i → i < length with_new.nodes
  kept_in i h =
      rw length-with_new
        (inside new_parent new_name i (ground (arith, get-remove old_name new_name entries)))

  lookup-with_new :
      (d : ℕ) (m : Bytes)
      → lookup with_new d m ≡ moved v old_parent old_name new_parent new_name node d m
  lookup-with_new d m =
      ap (λ x. entry x m)
        ((set_entries_lem without new_parent kept (insert new_name node kept) there').1 d)
      ∙ ground (
        arith,
        (set_entries_lem v old_parent entries (remove old_name entries) here).1 d,
        get-insert new_name m node kept,
        get-remove old_name m entries,
      )

  rename_runs :
      check_replaced v (get new_name targets) ≡ ok tt
      → ((rename old_parent old_name new_parent new_name v).0 ≡ ok tt)
        × ((d : ℕ) (m : Bytes)
            → lookup (rename old_parent old_name new_parent new_name v).1 d m
              ≡ moved v old_parent old_name new_parent new_name node d m)
  unfolding rename
  rename_runs fine =
      let s = set_entries_lem v old_parent entries (remove old_name entries) here in
      let s' = set_entries_lem without new_parent kept (insert new_name node kept) there' in
      let x = drop_displaced_lem with_new (get new_name kept) node kept_in in
      let w = (drop_displaced (get new_name kept) node with_new).1 in
      let (n, at) = node_in_of_lt w.nodes node (
        rw (x.2, length-with_new)
          (inside old_parent old_name node
            (named v old_parent old_name entries node here found))) in
      let p = set_parent_lem w node new_parent n at in
      let runs : rename old_parent old_name new_parent new_name v ≡ set_parent node new_parent w =
        rw (here, rename, found, there, fine, s.0, there', s'.0, x.0) refl in
      rw runs (p.0, λ d m. ap (λ q. entry q m) (p.1 d ∙ x.1 d) ∙ lookup-with_new d m)

-- Why `rename` fails.
abbrev pub RenameFails : Vfs → ℕ → Bytes → ℕ → Bytes → Fault → Type 0
RenameFails v old_parent old_name new_parent new_name e =
    (dir_at v old_parent ≡ err e)
    ⊎ (lookup v old_parent old_name ≡ none) × (e ≡ errno enoent)
    ⊎ (dir_at v new_parent ≡ err e)
    ⊎ InTheWay v (lookup v new_parent new_name) × (e ≡ errno enotempty)

-- What `rename` may do.
abbrev pub Renamed : Vfs → ℕ → Bytes → ℕ → Bytes → Result Fault (Unit {0}) × Vfs → Type 0
Renamed v old_parent old_name new_parent new_name r =
    ((e : Fault) × (r ≡ (err e, v)) × RenameFails v old_parent old_name new_parent new_name e)
    ⊎ ((node : ℕ) × (lookup v old_parent old_name ≡ some node)
        × Replaceable v (lookup v new_parent new_name)
        × (r.0 ≡ ok tt)
        × ((d : ℕ) (m : Bytes)
            → lookup r.1 d m ≡ moved v old_parent old_name new_parent new_name node d m))

-- In a tree whose names all lead to nodes: a failure leaves the filesystem exactly as it was, and
-- has one of these reasons: a parent that is no directory, no such name (ENOENT), or a directory
-- with entries under the new name (ENOTEMPTY). A success had a node under the old name and no
-- directory with entries under the new one; afterwards the new name has that node, the old name
-- nothing (if it is another name), and every other name in every directory the node that it had.
pub rename_lem :
    (v : Vfs) (old_parent : ℕ) (old_name : Bytes) (new_parent : ℕ) (new_name : Bytes)
    → EntriesIn v
    → Renamed v old_parent old_name new_parent new_name
        (rename old_parent old_name new_parent new_name v)
unfolding rename
rename_lem v old_parent old_name new_parent new_name inside =
    elim (Result-cases (dir_at v old_parent)) [
      | inr (e, bad) ↦ inl (e, rw (bad, rename) refl, inl bad)
      | inl (entries, here) ↦ elim (Result-cases (named_entry entries old_name)) [
        | inr (e, bad) ↦ inl (
          e,
          rw (here, rename, bad) refl,
          inr (inl (absent v old_parent old_name entries here bad)),
        )
        | inl (node, found) ↦ elim (Result-cases (dir_at v new_parent)) [
          | inr (e, bad) ↦ inl (e, rw (here, rename, found, bad) refl, inr (inr (inl bad)))
          | inl (targets, there) ↦
              let at_new : lookup v new_parent new_name ≡ get new_name targets = rw there refl in
              elim (check_replaced_lem v (get new_name targets)
                (λ i h. inside new_parent new_name i (at_new ∙ h))) [
                  | inr (bad, why) ↦ inl (
                    errno enotempty,
                    rw (here, rename, found, there, bad) refl,
                    inr (inr (inr (rw at_new why, refl))),
                  )
                  | inl (fine, free) ↦
                      let r =
                        rename_runs v inside old_parent old_name new_parent new_name entries targets
                          node here there found fine in
                      inr (
                        node,
                        named v old_parent old_name entries node here found,
                        rw at_new free,
                        r.0,
                        r.1,
                      )
                ]
        ]
      ]
    ]
