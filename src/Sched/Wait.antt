-- ===== src/Sched/Wait.antt =====
-- The children of `wait4` in proc.rs: zombies, stop reports, and the wait for one of them.
use web_tos.Prelude.{
  ℕ, ◌≡◌, ◌⊎◌, refl, ap, List, [], ◌∷◌, ◌++◌, Bool, true, false, ◌&&◌, ◌||◌, Bool-cases, Option,
  Option-cases, none, some, inl, inr, arith, any, is_some,
}
use web_tos.Sched.{
  World, Scheduler, Task, Zombie, wait_child, matches, zombie_from, take_zombie, stop_report_from,
  take_stop_report, wait_is_satisfied,
}

-- What taking a zombie does to the list.
abbrev pub Taken : ℕ → ℕ → List Zombie → Option Zombie × List Zombie → Type 0
Taken ppid filter zombies r =
    (r ≡ (none, zombies)) × (any (λ z. matches ppid filter z.pid z.ppid) zombies ≡ false)
    ⊎ ((before : List Zombie) × (z : Zombie) × (after : List Zombie) × (zombies
          ≡ before ++ (z ∷ after))
        × (any (λ y. matches ppid filter y.pid y.ppid) before ≡ false)
        × (matches ppid filter z.pid z.ppid ≡ true)
        × (r ≡ (some z, before ++ after)))

zombie_from_lem :
    (ppid filter : ℕ) (zombies : List Zombie)
    → Taken ppid filter zombies (zombie_from ppid filter zombies)
unfolding zombie_from
zombie_from_lem ppid filter [] = inl (refl, refl)
zombie_from_lem ppid filter (z ∷ zombies) = elim (Bool-cases (matches ppid filter z.pid z.ppid)) [
  | inl mine ↦ inr ([], z, zombies, refl, refl, mine, rw mine refl)
  | inr other ↦ elim (zombie_from_lem ppid filter zombies) [
    | inl (e, nobody) ↦ inl (rw (other, zombie_from, e) refl, rw other nobody)
    | inr (before, y, after, split, early, mine, e) ↦ inr (
      z ∷ before,
      y,
      after,
      ap (λ l. z ∷ l) split,
      rw other early,
      mine,
      rw (other, zombie_from, e) refl,
    )
  ]
]

-- `take_zombie` takes the first zombie that is a child of `ppid` and matches the filter, leaves the
-- others in their order, and finds none exactly if there is none; the parked tasks stay as they are.
pub take_zombie_lem :
    (s : Scheduler) (ppid filter : ℕ)
    → let (found, t) = take_zombie s ppid filter in
      Taken ppid filter s.zombies (found, t.zombies) × (t.parked ≡ s.parked)
unfolding take_zombie
take_zombie_lem s ppid filter = (zombie_from_lem ppid filter s.zombies, refl)

zombie_found :
    (ppid filter : ℕ) (zombies : List Zombie)
    → is_some (zombie_from ppid filter zombies).0
      ≡ any (λ z. matches ppid filter z.pid z.ppid) zombies
unfolding zombie_from
zombie_found ppid filter [] = refl
zombie_found ppid filter (z ∷ zombies) = ground (arith, zombie_found ppid filter zombies)

report_found :
    (ppid filter : ℕ) (tasks : List Task)
    → is_some (stop_report_from ppid filter tasks).0
      ≡ any (λ u. is_some u.stop_report && matches ppid filter u.tgid u.ppid) tasks
unfolding stop_report_from
report_found ppid filter [] = refl
report_found ppid filter (u ∷ tasks) = elim (Option-cases u.stop_report) [
  | inl quiet ↦ rw quiet (ground (arith, report_found ppid filter tasks))
  | inr (sig, there) ↦ rw there (ground (arith, report_found ppid filter tasks))
]

-- A parent that waits for a child is runnable by that wait exactly when what it then does finds
-- something: a zombie to take or, with WUNTRACED, a stop report.
pub wait_child_lem :
    (w : World) (s : Scheduler) (t : Task) (now filter : ℕ) (untraced : Bool)
    → t.state ≡ wait_child filter untraced
    → wait_is_satisfied w s t now
      ≡ is_some (take_zombie s t.tgid filter).0
        || (untraced && is_some (take_stop_report s t.tgid filter).0)
unfolding wait_is_satisfied take_zombie take_stop_report
wait_child_lem w s t now filter untraced h =
    rw
      (
        h,
        wait_is_satisfied,
        zombie_found t.tgid filter s.zombies,
        report_found t.tgid filter s.parked,
      )
      refl
