-- ===== src/Sched/Clock.antt =====
-- `earliest_deadline` of proc.rs: the time to which an idle machine moves its clock.
use web_tos.Prelude.{
  ℕ, ◌≤◌, ◌≡◌, refl, sym, subst, ◌∙◌, is_some, List, [], ◌∷◌, ◌++◌, Bool, true, ◌||◌, ◌⊎◌, ◌+◌,
  Bool-cases, Option, Option-cases, none, some, inl, inr, arith, leb, any,
}
use web_tos.Sched.{
  World, Scheduler, Task, ParkState, futex, waiting, Watch, timer, ready, runnable,
  wait_is_satisfied, find_ready, position, deadlines, deadlines_of, timer_expiries, option_list,
  least, earliest_deadline, passed,
}
use web_tos.Sched.Ends.{
  SomeEndsAt, In, All-In, least-In, SomeEndsAt-In, In-SomeEndsAt, least-none, least_le,
}

-- Some deadline of the list has come.
abbrev pub has_come : ℕ → List ℕ → Bool
has_come now ds = any (λ d. leb d now) ds

has_come-append :
    (now : ℕ) (ds es : List ℕ) → has_come now (ds ++ es) ≡ has_come now ds || has_come now es
has_come-append now [] es = refl
has_come-append now (d ∷ ds) es = ground (arith, has_come-append now ds es)

or_right : (a : Bool) {b : Bool} → b ≡ true → a || b ≡ true
or_right a h = ground arith

least_come : (now : ℕ) (ds : List ℕ) → passed now (least ds) ≡ has_come now ds
unfolding least
least_come now [] = refl
least_come now (d ∷ ds) = elim (Option-cases (least ds)) [
  | inl empty ↦ rw (empty, least) (ground (arith, least_come now ds))
  | inr (e, rest) ↦ rw (rest, least) (ground (arith, least_come now ds))
]

timer_step :
    (now : ℕ) (o : Option ℕ) (ds : List ℕ) (others : Bool)
    → (has_come now ds ≡ true → others ≡ true)
    → has_come now (elim o [ none ↦ ds | some d ↦ d ∷ ds ]) ≡ true
    → passed now o || others ≡ true
timer_step now none ds others step h = step h
timer_step now (some d) ds others step h = elim (Bool-cases (leb d now)) [
  | inl come ↦ ground arith
  | inr later ↦ or_right (leb d now) (step (ground arith))
]

watches_ready :
    (w : World) (now : ℕ) (watches : List Watch)
    → has_come now (timer_expiries w watches) ≡ true
    → any (ready w now) watches ≡ true
unfolding ready
watches_ready w now [] h = cc
watches_ready w now (timer t ∷ watches) h =
    timer_step now (w.next_expiry t) (timer_expiries w watches) (any (ready w now) watches)
      (watches_ready w now watches) h
watches_ready w now (x ∷ watches) h = or_right (ready w now x) (watches_ready w now watches h)

passed_list : (now : ℕ) (o : Option ℕ) → has_come now (option_list o) ≡ true → passed now o ≡ true
passed_list now none h = cc
passed_list now (some d) h = ground arith

state_satisfied :
    (w : World) (s : Scheduler) (now : ℕ) (t : Task) (p : ParkState)
    → t.state ≡ p
    → has_come now (deadlines_of w p) ≡ true
    → wait_is_satisfied w s t now ≡ true
unfolding wait_is_satisfied deadlines_of
state_satisfied w s now t (futex at woken deadline) q h =
    rw (q, wait_is_satisfied) (or_right woken (passed_list now deadline h))
state_satisfied w s now t (waiting watches deadline) q h =
    let split = has_come-append now (timer_expiries w watches) (option_list deadline) in
    elim (Bool-cases (has_come now (timer_expiries w watches))) [
      | inl rung ↦
          rw (q, wait_is_satisfied)
            (or_right (passed now deadline) (watches_ready w now watches rung))
      | inr quiet ↦
          let come = passed_list now deadline (ground arith) in rw (q, wait_is_satisfied, come) refl
    ]
state_satisfied w s now t _ q h = cc

tasks_runnable :
    (w : World) (s : Scheduler) (now : ℕ) (tasks : List Task)
    → has_come now (deadlines w tasks) ≡ true
    → any (runnable w s now) tasks ≡ true
unfolding deadlines runnable
tasks_runnable w s now [] h = cc
tasks_runnable w s now (t ∷ tasks) h =
    let split = has_come-append now (deadlines_of w t.state) (deadlines w tasks) in
    elim (Bool-cases t.stopped) [
      | inl halted ↦ or_right (runnable w s now t) (tasks_runnable w s now tasks (ground arith))
      | inr running ↦ elim (Bool-cases (has_come now (deadlines_of w t.state))) [
        | inl come ↦ ground (arith, state_satisfied w s now t t.state refl come)
        | inr later ↦ or_right (runnable w s now t) (tasks_runnable w s now tasks (ground arith))
      ]
    ]

position-any : {A : Type 0} (p : A → Bool) (xs : List A) → is_some (position p xs) ≡ any p xs
unfolding position
position-any p [] = refl
position-any p (x ∷ xs) = elim (Option-cases (position p xs)) [
  | inl gone ↦ ground (arith, position-any p xs)
  | inr (i, found) ↦ ground (arith, position-any p xs)
]

-- The first time at which a wait ends by itself; a task can run from then on.
abbrev pub Earliest : World → Scheduler → Option ℕ → Type 0
Earliest w s o =
    (o ≡ none) × ((e : ℕ) → SomeEndsAt w s.parked e → ⊥)
    ⊎ ((d : ℕ) × (o ≡ some d)
        × SomeEndsAt w s.parked d
        × ((e : ℕ) → SomeEndsAt w s.parked e → d ≤ e)
        × ((k : ℕ) → is_some (find_ready w s (d + k)) ≡ true))

-- There is an earliest deadline unless no wait of a task that is not stopped ends by itself: by the
-- timeout of its futex or poll, or by a timer that it watches. Then it is such a time, none of them
-- lies before it, and at it and at each later time a task can run, so that an idle machine which
-- moves its clock there does not stay idle.
pub earliest_deadline_lem : (w : World) (s : Scheduler) → Earliest w s (earliest_deadline w s)
unfolding earliest_deadline find_ready
earliest_deadline_lem w s =
    let ds = deadlines w s.parked in
    elim (Option-cases (least ds)) [
      | inl gone ↦
          inl (gone, λ e h. subst (λ l. In e l) (least-none ds gone) (SomeEndsAt-In w s.parked e h))
      | inr (d, found) ↦ inr (
        d,
        found,
        In-SomeEndsAt w s.parked d (least-In ds d found),
        λ e h. All-In d e ds (least_le ds d found) (SomeEndsAt-In w s.parked e h),
        λ k.
            let come : passed (d + k) (least ds) ≡ true = rw found (ground arith) in
            position-any (runnable w s (d + k)) s.parked
            ∙ tasks_runnable w s (d + k) s.parked (sym (least_come (d + k) ds) ∙ come),
      )
    ]
