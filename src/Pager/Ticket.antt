-- ===== src/Pager/Ticket.antt =====
-- Page-in tickets of pager.rs: what `complete` lets into the store, and when a request is stale.
use web_tos.Prelude.{
  ℕ, ◌+◌, ◌^◌, ◌<◌, ◌≡◌, ◌≢◌, ◌⊎◌, refl, ap, sym, subst, ◌∙◌, true, false, Bool-cases, Option-cases,
  none, some, inl, inr, arith, ltb, ◌==◌, List, [], ◌∷◌, ◌++◌, Result, Result-cases, ok, err,
}
use web_tos.Prelude.NatMap.{get, insert, remove, get-insert, get-remove}
use web_tos.Chunk.{ByteVec}
use web_tos.Vfs.{Vfs}
use web_tos.Vfs.Storage.{put_chunk, PutError}
use web_tos.Pager.{
  Pager, PageRequest, AddressSpace, with_mappings, with_space, bump, is_current, complete,
  delivered, CompleteError, none_pending, wrong_ticket, stale, not_put, unmap, protect, map_file,
  remap, drop_space,
}
use web_tos.Pager.Mapping.{FileMapping}
use web_tos.Pager.Refine.{bump-ne}

-- The cases of a delivery while `q` is pending.
abbrev pub Outcome :
    Pager → Vfs → ℕ → ByteVec → PageRequest → Result CompleteError (Unit {0}) × Pager × Vfs → Type 0
Outcome p v ticket bytes_of q r =
    (q.ticket ≢ ticket) × (r ≡ (err wrong_ticket, p, v))
    ⊎ (is_current p q ≡ false) × (r ≡ (err stale, record p { pending = none }, v))
    ⊎ ((e : PutError) × (put_chunk v q.hash bytes_of ≡ err e) × (r ≡ (err (not_put e), p, v)))
    ⊎ ((w : Vfs) × (q.ticket ≡ ticket)
        × (is_current p q ≡ true)
        × (put_chunk v q.hash bytes_of ≡ ok w)
        × (r ≡ (ok tt, record p { pending = none }, w)))

-- What `complete` may do.
abbrev pub Completed :
    Pager → Vfs → ℕ → ByteVec → Result CompleteError (Unit {0}) × Pager × Vfs → Type 0
Completed p v ticket bytes_of r =
    (p.pending ≡ none) × (r ≡ (err none_pending, p, v))
    ⊎ ((q : PageRequest) × (p.pending ≡ some q) × Outcome p v ticket bytes_of q r)

delivered_lem :
    (p : Pager) (v : Vfs) (ticket : ℕ) (bytes_of : ByteVec) (q : PageRequest)
    → Outcome p v ticket bytes_of q (delivered p v ticket bytes_of q)
unfolding delivered
delivered_lem p v ticket bytes_of q = elim (Bool-cases (q.ticket == ticket)) [
  | inr other ↦ inl (ground arith, rw other refl)
  | inl mine ↦ elim (Bool-cases (is_current p q)) [
    | inr late ↦ inr (inl (late, rw (mine, late) refl))
    | inl now ↦ elim (Result-cases (put_chunk v q.hash bytes_of)) [
      | inr (e, bad) ↦ inr (inr (inl (e, bad, rw (mine, now, delivered, bad) refl)))
      | inl (w, fine) ↦
          inr (inr (inr (w, ground arith, now, fine, rw (mine, now, delivered, fine) refl)))
    ]
  ]
]

Outcome-delivered :
    (p : Pager) (v : Vfs) (ticket : ℕ) (bytes_of : ByteVec) (q : PageRequest)
    (r : Result CompleteError (Unit {0}) × Pager × Vfs)
    → r ≡ delivered p v ticket bytes_of q
    → Outcome p v ticket bytes_of q (delivered p v ticket bytes_of q)
    → Outcome p v ticket bytes_of q r
Outcome-delivered p v ticket bytes_of q r e o =
    subst (λ x. Outcome p v ticket bytes_of q x) (sym e) o

-- A delivery changes the filesystem only if it has the ticket of the pending request, that request
-- is current, and the store accepts the bytes for the request's digest; then no request is
-- pending. A stale request is dropped; on every other failure the request stays pending.
pub complete_lem :
    (p : Pager) (v : Vfs) (ticket : ℕ) (bytes_of : ByteVec)
    → Completed p v ticket bytes_of (complete p v ticket bytes_of)
unfolding complete
complete_lem p v ticket bytes_of = elim (Option-cases p.pending) [
  | inl quiet ↦ inl (quiet, ground arith)
  | inr (q, waits) ↦
      let runs : complete p v ticket bytes_of ≡ delivered p v ticket bytes_of q = ground arith in
      inr (
        q,
        waits,
        Outcome-delivered p v ticket bytes_of q _ runs (delivered_lem p v ticket bytes_of q),
      )
]

-- The pending request is not current in `after`, and a delivery changes nothing of the filesystem.
abbrev pub Outdates : Pager → PageRequest → Type 0
Outdates after q =
    (is_current after q ≡ false)
    × (after.pending ≡ some q)
    × ((v : Vfs) (ticket : ℕ) (bytes_of : ByteVec) → (complete after v ticket bytes_of).2 ≡ v)

refused_late :
    (after : Pager) (q : PageRequest)
    → is_current after q ≡ false
    → after.pending ≡ some q
    → Outdates after q
unfolding complete delivered
refused_late after q late waits = (late, waits, λ v ticket bytes_of. ground (arith, late, waits))

drop_space-Outdates :
    (p : Pager) (q : PageRequest) → p.pending ≡ some q → Outdates (drop_space p q.asid) q
unfolding is_current drop_space
drop_space-Outdates p q waits =
    let gone : get q.asid (remove q.asid p.spaces) ≡ none =
      get-remove q.asid q.asid p.spaces ∙ ground arith in
    refused_late (drop_space p q.asid) q (rw (is_current, gone) refl) waits

generation-ne :
    (p : Pager) (q : PageRequest) (space : AddressSpace)
    → get q.asid p.spaces ≡ some space
    → is_current p q ≡ true
    → q.generation < 2 ^ 64
    → bump space.generation ≢ q.generation
unfolding is_current
generation-ne p q space there now word same =
    let here : space.generation ≡ q.generation = ground (arith, there, now) in
    bump-ne space.generation (omega (arith, here, word)) (same ∙ sym here)

-- A new list of mappings for the space makes the request stale.
Outdates-insert :
    (p after : Pager) (q : PageRequest) (space : AddressSpace) (mappings : List FileMapping)
    → get q.asid p.spaces ≡ some space
    → is_current p q ≡ true
    → q.generation < 2 ^ 64
    → after.spaces ≡ insert q.asid (with_mappings space mappings) p.spaces
    → after.pending ≡ some q
    → Outdates after q
unfolding is_current
Outdates-insert p after q space mappings there now word e waits =
    let ne = generation-ne p q space there now word in
    let new : get q.asid after.spaces ≡ some (with_mappings space mappings) =
      ap (λ m. get q.asid m) e
      ∙ get-insert q.asid q.asid (with_mappings space mappings) p.spaces
      ∙ ground arith in
    refused_late after q (ground (arith, new, ne)) waits

-- The space of a current request exists.
space_of_current :
    (p : Pager) (q : PageRequest)
    → is_current p q ≡ true
    → (space : AddressSpace) × (get q.asid p.spaces ≡ some space)
unfolding is_current
space_of_current p q now = elim (Option-cases (get q.asid p.spaces)) [
  | inl gone ↦ absurd (ground (arith, gone, now))
  | inr (space, there) ↦ (space, there)
]

-- While the pending request is current, its generation being a `u64`, each of these changes to its
-- address space makes it stale at once: a mapping added, a range unmapped (also one that passes the
-- last address), a range protected (inside the address space), a range moved, and the whole space
-- dropped. In the state after that one change the request is still pending, and whatever is
-- delivered then leaves the filesystem as it was.
pub is_current_lem :
    (p : Pager) (q : PageRequest) (m : FileMapping) (start len perm new_start new_len : ℕ)
    → p.pending ≡ some q
    → is_current p q ≡ true
    → q.generation < 2 ^ 64
    → start + len < 2 ^ 64
    → Outdates (map_file p q.asid m) q
      × ((l : ℕ) → Outdates (unmap p q.asid start l) q)
      × Outdates (protect p q.asid start len perm) q
      × Outdates (remap p q.asid start len new_start new_len) q
      × Outdates (drop_space p q.asid) q
unfolding map_file unmap protect remap
is_current_lem p q m start len perm new_start new_len waits now word fits =
    let (space, there) = space_of_current p q now in
    let by =
      λ (after : Pager) (ms : List FileMapping)
          (e : after.spaces ≡ insert q.asid (with_mappings space ms) p.spaces)
          (keeps : after.pending ≡ some q).
        Outdates-insert p after q space ms there now word e keeps in
    let small : ltb (start + len) (2 ^ 64) ≡ true = ground arith in
    let gone = drop_space-Outdates p q waits in
    (
      rw there (
          by (with_space p q.asid (with_mappings space (space.mappings ++ (m ∷ [])))) _ refl waits),
      λ l. elim (Bool-cases (ltb (start + l) (2 ^ 64))) [
        | inl inside ↦ rw (unmap, inside, there) (by _ _ refl waits)
        | inr past ↦ rw (unmap, past) gone
      ],
      rw (protect, small, there) (by _ _ refl waits),
      rw (remap, there) (by _ _ refl waits),
      gone,
    )
