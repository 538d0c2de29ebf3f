-- ===== src/Sched/Ready.antt =====
-- `find_ready` of proc.rs: the task that runs next.
use Prim.Native.Nat.{bit_and}
use web_tos.Prelude.{
  ℕ, zero, suc, ◌<◌, ◌≡◌, ◌≢◌, ◌⊎◌, refl, List, [], ◌∷◌, Bool, true, false, not, ◌&&◌, Bool-cases,
  none, some, inl, inr, arith, ◌==◌, get_elem?,
}
use web_tos.Sched.{
  World, Scheduler, Task, ParkState, ready_to_run, wait_child, futex, pipe_read, pipe_write,
  waiting, vfork_wait, runnable, wait_is_satisfied, position, find_ready, is_vfork, not64,
}

-- A task may run: it is not stopped, and what it waits for is there or a signal that it does not
-- block is pending; a signal does not end the wait of a vfork parent.
abbrev pub MayRun : World → Scheduler → ℕ → Task → Type 0
MayRun w s now t =
    (t.stopped ≡ false)
    × ((wait_is_satisfied w s t now ≡ true)
        ⊎ (bit_and t.pending_signals (not64 t.sigmask) ≢ 0)
          × ((done : ℕ) → t.state ≢ vfork_wait done))

vfork_none : (p : ParkState) → is_vfork p ≡ false → (done : ℕ) → p ≢ vfork_wait done
vfork_none (vfork_wait at) h done e = absurd (ground arith)
vfork_none ready_to_run h done e = cc
vfork_none (wait_child _ _) h done e = cc
vfork_none (futex _ _ _) h done e = cc
vfork_none (pipe_read _) h done e = cc
vfork_none (pipe_write _) h done e = cc
vfork_none (waiting _ _) h done e = cc

vfork_other : (p : ParkState) → ((done : ℕ) → p ≢ vfork_wait done) → is_vfork p ≡ false
vfork_other (vfork_wait done) h = absurd (h done refl)
vfork_other _ h = refl

runnable-MayRun :
    (w : World) (s : Scheduler) (now : ℕ) (t : Task) → runnable w s now t ≡ true → MayRun w s now t
unfolding runnable
runnable-MayRun w s now t h = elim (Bool-cases t.stopped) [
  | inl halted ↦ absurd (ground arith)
  | inr running ↦
      elim (Bool-cases
        (not (bit_and t.pending_signals (not64 t.sigmask) == 0) && not (is_vfork t.state))) [
          | inl signalled ↦ (running, inr (ground arith, vfork_none t.state (ground arith)))
          | inr quiet ↦ (running, inl (ground arith))
        ]
]

runnable_of_MayRun :
    (w : World) (s : Scheduler) (now : ℕ) (t : Task) → MayRun w s now t → runnable w s now t ≡ true
unfolding runnable
runnable_of_MayRun w s now t (running, inl fine) = ground arith
runnable_of_MayRun w s now t (running, inr (pending, other)) =
    let plain = vfork_other t.state other in ground arith

refused :
    (w : World) (s : Scheduler) (now : ℕ) (t : Task)
    → runnable w s now t ≡ false
    → ¬ MayRun w s now t
refused w s now t bad may = absurd (ground (arith, runnable_of_MayRun w s now t may))

module _ {A : Type 0} (p : A → Bool) (x : A) (xs : List A) where
  all_below :
      p x ≡ false
      → ((i : ℕ) (y : A) → get_elem? xs i ≡ some y → p y ≡ false)
      → (i : ℕ) (y : A) → get_elem? (x ∷ xs) i ≡ some y
      → p y ≡ false
  all_below bad none_of zero y h = ground arith
  all_below bad none_of (suc i) y h = none_of i y h

  below_suc :
      (n : ℕ)
      → p x ≡ false
      → ((j : ℕ) (y : A) → j < n → get_elem? xs j ≡ some y → p y ≡ false)
      → (j : ℕ) (y : A) → j < suc n
      → get_elem? (x ∷ xs) j ≡ some y
      → p y ≡ false
  below_suc n bad before zero y h e = ground arith
  below_suc n bad before (suc j) y h e = before j y (omega (arith, h)) e

position_lem :
    {A : Type 0} (p : A → Bool) (xs : List A)
    → (position p xs ≡ none) × ((i : ℕ) (x : A) → get_elem? xs i ≡ some x → p x ≡ false)
      ⊎ ((i : ℕ) × (x : A) × (position p xs ≡ some i)
          × (get_elem? xs i ≡ some x)
          × (p x ≡ true)
          × ((j : ℕ) (y : A) → j < i → get_elem? xs j ≡ some y → p y ≡ false))
unfolding position
position_lem p [] = inl (refl, λ i x h. cc)
position_lem p (x ∷ xs) = elim (Bool-cases (p x)) [
  | inl good_here ↦
      inr (0, x, rw good_here refl, refl, good_here, λ j y h e. absurd (omega (arith, h)))
  | inr bad ↦ elim (position_lem p xs) [
    | inl (gone, none_of) ↦ inl (rw (bad, position, gone) refl, all_below p x xs bad none_of)
    | inr (i, y, found, here, good, before) ↦
        inr (suc i, y, rw (bad, position, found) refl, here, good, below_suc p x xs i bad before)
  ]
]

-- The scheduler finds none exactly if no parked task may run. Else it takes one that may run, and
-- every task before it in the queue may not.
pub find_ready_lem :
    (w : World) (s : Scheduler) (now : ℕ)
    → (find_ready w s now ≡ none)
        × ((i : ℕ) (t : Task) → get_elem? s.parked i ≡ some t → ¬ MayRun w s now t)
      ⊎ ((i : ℕ) × (t : Task) × (find_ready w s now ≡ some i)
          × (get_elem? s.parked i ≡ some t)
          × MayRun w s now t
          × ((j : ℕ) (u : Task) → j < i → get_elem? s.parked j ≡ some u → ¬ MayRun w s now u))
unfolding find_ready
find_ready_lem w s now = elim (position_lem (runnable w s now) s.parked) [
  | inl (gone, none_of) ↦ inl (gone, λ i t here may. refused w s now t (none_of i t here) may)
  | inr (i, t, found, here, good, before) ↦ inr (
    i,
    t,
    found,
    here,
    runnable-MayRun w s now t good,
    λ j u h at may. refused w s now u (before j u h at) may,
  )
]
