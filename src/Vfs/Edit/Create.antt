-- ===== src/Vfs/Edit/Create.antt =====
-- `create` of vfs.rs against the view of names, on every branch.
use web_tos.Prelude.{
  ℕ, ◌<◌, ◌≡◌, ◌⊎◌, refl, ap, ◌∙◌, [], ◌∷◌, ◌++◌, true, ◌&&◌, Option-cases, none, some, inl, inr,
  arith, if◌then◌else◌, ◌==◌, Result, ok, err, Result-cases, Bool-cases, length,
}
use web_tos.Prelude.Bytes.{Bytes, bytes_eq}
use web_tos.Prelude.ByteMap.{ByteMap, get, insert, get-insert}
use web_tos.Abi.{eexist, enotdir}
use web_tos.Vfs.{Vfs, Node, NodeKind, Fault, errno, data_len, dir_at, entries_of}
use web_tos.Vfs.Storage.{reserve}
use web_tos.Vfs.Edit.{alloc, create, set_entries, is_reserved, fresh_node}
use web_tos.Vfs.Edit.Lookup.{entry, lookup, set_entries_lem, dir_in-push, dir_in-err}

-- The filesystem with one more node in the arena, which no name has.
abbrev pub with_node : Vfs → Node → Vfs
with_node v n = record v { nodes = v.nodes ++ (n ∷ []) }

created :
    (v : Vfs) (parent : ℕ) (name : Bytes) (entries : ByteMap ℕ) (n : Node)
    → dir_at v parent ≡ ok entries
    → parent < length v.nodes
    → (i : ℕ) (m : Bytes)
    → entry
        (if parent == i
          then ok (insert name (length v.nodes) entries)
          else dir_at (with_node v n) i)
        m
      ≡ (if i == parent && bytes_eq m name
          then some (length v.nodes)
          else if i == length v.nodes
          then entry (entries_of n.kind) m
          else lookup v i m)
created v parent name entries n here inside i m =
    ground (arith, get-insert name m (length v.nodes) entries, dir_in-push v.nodes i n)

-- What `create` may do.
abbrev pub Created : Vfs → ℕ → Bytes → NodeKind → ℕ → Result Fault ℕ × Vfs → Type 0
Created v parent name kind mode r =
    ((e : Fault) × (r ≡ (err e, v))
      × ((is_reserved name ≡ true) × (e ≡ errno eexist) ⊎ (reserve v (data_len kind) ≡ err e)))
    ⊎ ((e : Fault) × (r ≡ (err e, with_node v (fresh_node kind mode parent)))
        × ((dir_at v parent ≡ err e) × (e ≡ errno enotdir)
            ⊎ (e ≡ errno eexist) × ((i : ℕ) × (lookup v parent name ≡ some i))))
    ⊎ ((lookup v parent name ≡ none)
        × (reserve v (data_len kind) ≡ ok tt)
        × (r.0 ≡ ok (length v.nodes))
        × ((d : ℕ) (m : Bytes)
            → lookup r.1 d m ≡ (
                if d == parent && bytes_eq m name
                then some (length v.nodes)
                else if d == length v.nodes
                then entry (entries_of kind) m
                else lookup v d m)))

-- Below a parent of the arena. A reserved name (EEXIST) or a refusal of `reserve` leaves the
-- filesystem as it was. A name that exists (EEXIST) or a parent that is no directory (ENOTDIR)
-- leaves the new node in the arena with no name. A success had a free name and the bytes reserved,
-- and names a fresh node: no other name changes.
pub create_lem :
    (v : Vfs) (parent : ℕ) (name : Bytes) (kind : NodeKind) (mode : ℕ)
    → parent < length v.nodes
    → Created v parent name kind mode (create parent name kind mode v)
unfolding create alloc
create_lem v parent name kind mode inside =
    let n = fresh_node kind mode parent in
    let w = with_node v n in
    let same : dir_at w parent ≡ dir_at v parent = dir_in-push v.nodes parent n ∙ ground arith in
    elim (Bool-cases (is_reserved name)) [
      | inl bad ↦ inl (errno eexist, rw (bad, create) refl, inl (bad, refl))
      | inr fine ↦ elim (Result-cases (reserve v (data_len kind))) [
        | inr (e, full) ↦ inl (e, rw (fine, create, full) refl, inr full)
        | inl (done, room) ↦ elim (Result-cases (dir_at v parent)) [
          | inr (e, bad) ↦ inr (
              inl (
                e,
                rw (fine, create, room, same, bad) refl,
                inl (bad, dir_in-err v.nodes parent inside bad),
              ))
          | inl (entries, here) ↦ elim (Option-cases (get name entries)) [
            | inr (i, taken) ↦ inr (
                inl (
                  errno eexist,
                  rw (fine, create, room, same, here, taken) refl,
                  inr (refl, (i, rw here taken)),
                ))
            | inl free ↦
                let s =
                  set_entries_lem w parent entries (insert name (length v.nodes) entries)
                    (same ∙ here) in
                let runs : create parent name kind mode v ≡ (
                  ok (length v.nodes),
                  (set_entries parent (insert name (length v.nodes) entries) w).1,
                ) =
                  rw (fine, create, room, same, here, free, s.0) refl in
                rw runs (
                  inr (
                    inr (
                      rw here free,
                      room,
                      refl,
                      λ i m.
                          ap (λ x. entry x m) (s.1 i)
                          ∙ created v parent name entries n here inside i m,
                    )))
          ]
        ]
      ]
    ]
