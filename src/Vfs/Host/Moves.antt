-- ===== src/Vfs/Host/Moves.antt =====
-- `rename` of vfs.rs on a tree whose indices are all in the arena, and all edits of the guest.
use web_tos.Prelude.{ℕ, ◌≤◌, ◌<◌, ◌≡◌, refl, [], Bool, some, inl, inr, arith, length, Result}
use web_tos.Prelude.Exec.{reads, ◌>>=◌, ◌>>◌}
use web_tos.Prelude.Bytes.{Bytes}
use web_tos.Prelude.ByteMap.{ByteMap, get, insert, remove}
use web_tos.Vfs.{Vfs, NodeKind, dir, Fault, dir_at}
use web_tos.Vfs.Path.Safe.{IsClosed, Safe}
use web_tos.Vfs.Edit.{
  Edit, set_entries, set_parent, drop_displaced, check_replaced, named_entry, create, link, unlink,
  rename,
}
use web_tos.Vfs.Host.Keeps.{
  IsSound, IsSound→IsClosed, IsClosed→IsSound, Kept, failed, done, Keeps, Keeps-bind,
}
use web_tos.Vfs.Host.Writes.{
  Keeps-set_entries, Keeps-set_parent, EntriesBelow-dir, EntriesBelow-insert, EntriesBelow-remove,
  Keeps-dir_then, Keeps-check_then, Keeps-lift_then,
}
use web_tos.Vfs.Host.Added.{StaysClosed, Kept→StaysClosed, bare-KindBelow}
use web_tos.Vfs.Host.Guest.{
  AnyUnit, Keeps-unit, named_entry-Safe, check_replaced-Safe, Keeps-drop_displaced, Keeps-create,
  Keeps-link, Keeps-unlink,
}

-- The end of `rename`: the name at its new place, and the parent of the node.
Keeps-moved_in :
    (parent : ℕ) (name : Bytes) (node : ℕ) (v : Vfs)
    → IsSound v
    → parent < length v.nodes
    → node < length v.nodes
    → Keeps AnyUnit
        (reads (λ w. dir_at w parent) >>= λ entries.
          set_entries parent (insert name node entries)
          >> (drop_displaced (get name entries) node >> set_parent node parent))
        v
Keeps-moved_in parent name node v s h inside = Keeps-dir_then v s parent _ h (λ entries there.
    let below = EntriesBelow-dir v parent entries s there in
    Keeps-bind (set_entries parent (insert name node entries))
      (λ _. drop_displaced (get name entries) node >> set_parent node parent) v
      (Keeps-set_entries parent (insert name node entries) v s h
        (EntriesBelow-insert (length v.nodes) name node entries below inside))
      (λ u w sw g size.
        Keeps-bind (drop_displaced (get name entries) node) (λ _. set_parent node parent) w
          (Keeps-drop_displaced (get name entries) node w sw
            (λ i found. omega (arith, g, below name i found)))
          (λ t x sx gx p. Keeps-unit (set_parent node parent) x (
            Keeps-set_parent node parent x sx (omega (arith, g, gx, inside))
              (omega (arith, g, gx, h))))))

Keeps-rename :
    (old_parent : ℕ) (old_name : Bytes) (new_parent : ℕ) (new_name : Bytes) (v : Vfs)
    → IsSound v
    → old_parent < length v.nodes
    → new_parent < length v.nodes
    → Keeps AnyUnit (rename old_parent old_name new_parent new_name) v
unfolding rename
Keeps-rename old_parent old_name new_parent new_name v s h k =
    Keeps-dir_then v s old_parent _ h (λ entries there.
      let below = EntriesBelow-dir v old_parent entries s there in
      let moved_in : ℕ → Edit (Unit {0}) = λ node.
        reads (λ w. dir_at w new_parent) >>= λ new_entries.
        set_entries new_parent (insert new_name node new_entries)
        >> (drop_displaced (get new_name new_entries) node >> set_parent node new_parent) in
      let taken_out : ℕ → Edit (Unit {0}) =
        λ node. set_entries old_parent (remove old_name entries) >> moved_in node in
      let checked : ℕ → Edit (Unit {0}) = λ node. reads (λ w. dir_at w new_parent) >>= λ targets.
      reads (λ w. check_replaced w (get new_name targets)) >> taken_out node in
      Keeps-lift_then v s {R = λ (i : ℕ). get old_name entries ≡ some i}
        (named_entry entries old_name) checked (named_entry-Safe entries old_name)
        (λ node e found. Keeps-dir_then v s new_parent _ k (λ targets here.
          Keeps-check_then v s {R = λ (u : Unit {0}). Unit {0}}
            (λ w. check_replaced w (get new_name targets)) (λ _. taken_out node)
            (check_replaced-Safe v (get new_name targets)
              (EntriesBelow-dir v new_parent targets s here new_name))
            (λ u e2 t.
              Keeps-bind (set_entries old_parent (remove old_name entries)) (λ _. moved_in node) v
                (Keeps-set_entries old_parent (remove old_name entries) v s h
                  (EntriesBelow-remove (length v.nodes) old_name entries below))
                (λ x w sw g size.
                  Keeps-moved_in new_parent new_name node w sw (omega (arith, g, k))
                    (omega (arith, g, below old_name node found)))))))

-- As `StaysClosed`, where there is no value.
abbrev pub Closes : Vfs → Result Fault (Unit {0}) × Vfs → Type 0
Closes v o =
    IsClosed o.1 × (length v.nodes ≤ length o.1.nodes) × Safe (λ (u : Unit {0}). Unit {0}) o.0

Kept→Closes : (v : Vfs) (o : Result Fault (Unit {0}) × Vfs) → Kept AnyUnit v o → Closes v o
Kept→Closes v o (failed e w h s g) = rw h (IsSound→IsClosed w s, g, inl (e, refl))
Kept→Closes v o (done i w h s g p) = rw h (IsSound→IsClosed w s, g, inr (i, refl, tt))

-- On a tree whose indices are all in the arena, every edit of the guest at parents in the arena
-- (and, for `link`, of a node of the arena; for `create`, of an empty directory or another kind)
-- ends without a panic, with an error number or in success, and the indices of the tree are all in
-- its arena again.
pub edits_lem :
    (v : Vfs) (parent other node mode : ℕ) (name new_name : Bytes) (kind : NodeKind) (rmdir : Bool)
    → IsClosed v
    → parent < length v.nodes
    → other < length v.nodes
    → node < length v.nodes
    → ((entries : ByteMap ℕ) → kind ≡ dir entries → entries ≡ [])
    → StaysClosed v (create parent name kind mode v)
      × Closes v (link parent name node v)
      × Closes v (unlink parent name rmdir v)
      × Closes v (rename parent name other new_name v)
edits_lem v parent other node mode name new_name kind rmdir c h k i bare =
    let s = IsClosed→IsSound v c in
    (
      Kept→StaysClosed v _ (Keeps-create parent name kind mode v s h (bare-KindBelow kind v bare)),
      Kept→Closes v _ (Keeps-link parent name node v s h i),
      Kept→Closes v _ (Keeps-unlink parent name rmdir v s h),
      Kept→Closes v _ (Keeps-rename parent name other new_name v s h k),
    )
