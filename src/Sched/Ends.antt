-- ===== src/Sched/Ends.antt =====
-- The deadlines that `earliest_deadline` of proc.rs collects, against the waits that end by themselves.
use web_tos.Prelude.{
  ℕ, ◌≤◌, ◌≡◌, refl, sym, subst, ◌∙◌, List, [], ◌∷◌, ◌++◌, Bool, false, ◌⊎◌, ap, Bool-cases, Option,
  Option-cases, none, some, inl, inr, arith, leb, All,
}
use web_tos.Sched.{
  World, Task, ParkState, futex, waiting, Watch, timer, deadlines, deadlines_of, timer_expiries,
  option_list, least,
}

-- A timer of the watches rings at `d`.
abbrev pub Rings : World → List Watch → ℕ → Type 0
Rings w [] d = ⊥
Rings w (x ∷ watches) d = ((k : ℕ) × (x ≡ timer k) × (w.next_expiry k ≡ some d)) ⊎ Rings w watches d

-- A wait ends by itself at `d`: the timeout of a futex or of a poll, or a timer that is watched.
abbrev pub EndsAt : World → ParkState → ℕ → Type 0
EndsAt w p d =
    ((at : ℕ) × (woken : Bool) × (p ≡ futex at woken (some d)))
    ⊎ ((watches : List Watch) × (p ≡ waiting watches (some d)))
    ⊎ ((watches : List Watch) × (timeout : Option ℕ) × (p ≡ waiting watches timeout)
        × Rings w watches d)

-- The wait of a task that is not stopped ends by itself at `d`.
abbrev pub SomeEndsAt : World → List Task → ℕ → Type 0
SomeEndsAt w [] d = ⊥
SomeEndsAt w (t ∷ tasks) d = ((t.stopped ≡ false) × EndsAt w t.state d) ⊎ SomeEndsAt w tasks d

abbrev pub In : ℕ → List ℕ → Type 0
In d [] = ⊥
In d (x ∷ xs) = (x ≡ d) ⊎ In d xs

In-append : (d : ℕ) (xs ys : List ℕ) → In d xs ⊎ In d ys → In d (xs ++ ys)
In-append d [] ys h = elim h [ inl none_here ↦ elim none_here [ ] | inr k ↦ k ]
In-append d (x ∷ xs) ys (inl (inl e)) = inl e
In-append d (x ∷ xs) ys (inl (inr h)) = inr (In-append d xs ys (inl h))
In-append d (x ∷ xs) ys (inr h) = inr (In-append d xs ys (inr h))

In-split : (d : ℕ) (xs ys : List ℕ) → In d (xs ++ ys) → In d xs ⊎ In d ys
In-split d [] ys h = inr h
In-split d (x ∷ xs) ys (inl e) = inl (inl e)
In-split d (x ∷ xs) ys (inr h) = elim (In-split d xs ys h) [ inl l ↦ inl (inr l) | inr r ↦ inr r ]

pub All-In : (d e : ℕ) (ds : List ℕ) → All (λ x. d ≤ x) ds → In e ds → d ≤ e
All-In d e [] a h = elim h [ ]
All-In d e (x ∷ ds) a (inl same) = omega (arith, a.0, same)
All-In d e (x ∷ ds) a (inr h) = All-In d e ds a.1 h

pub least-In : (ds : List ℕ) (d : ℕ) → least ds ≡ some d → In d ds
unfolding least
least-In [] d h = cc
least-In (x ∷ ds) d h = elim (Option-cases (least ds)) [
  | inl empty ↦ inl (ground arith)
  | inr (e, rest) ↦ elim (Bool-cases (leb x e)) [
    | inl first ↦ inl (ground arith)
    | inr later ↦ inr (least-In ds d (ground arith))
  ]
]

In-timer_expiries :
    (w : World) (watches : List Watch) (d : ℕ) → Rings w watches d → In d (timer_expiries w watches)
In-timer_expiries w [] d h = elim h [ ]
In-timer_expiries w (x ∷ watches) d (inl (k, same, rings)) = rw (same, rings) (inl refl)
In-timer_expiries w (timer t ∷ watches) d (inr h) = elim (Option-cases (w.next_expiry t)) [
  | inl off ↦
      let same : timer_expiries w (timer t ∷ watches) ≡ timer_expiries w watches =
        rw (off, timer_expiries) refl in
      subst (λ l. In d l) (sym same) (In-timer_expiries w watches d h)
  | inr (e, on) ↦
      let same : timer_expiries w (timer t ∷ watches) ≡ e ∷ timer_expiries w watches =
        rw (on, timer_expiries) refl in
      subst (λ l. In d l) (sym same) (inr (In-timer_expiries w watches d h))
]
In-timer_expiries w (x ∷ watches) d (inr h) = In-timer_expiries w watches d h

-- One timer in front of the watches.
Rings-cons :
    (w : World) (t d : ℕ) (watches : List Watch) (o : Option ℕ)
    → (In d (timer_expiries w watches) → Rings w watches d)
    → w.next_expiry t ≡ o
    → In d (elim o [ none ↦ timer_expiries w watches | some e ↦ e ∷ timer_expiries w watches ])
    → Rings w (timer t ∷ watches) d
Rings-cons w t d watches none rest off k = inr (rest k)
Rings-cons w t d watches (some e) rest on (inl same) = inl (t, refl, on ∙ ap some same)
Rings-cons w t d watches (some e) rest on (inr k) = inr (rest k)

Rings-In :
    (w : World) (watches : List Watch) (d : ℕ) → In d (timer_expiries w watches) → Rings w watches d
Rings-In w [] d h = h
Rings-In w (timer t ∷ watches) d h =
    Rings-cons w t d watches (w.next_expiry t) (Rings-In w watches d) refl h
Rings-In w (x ∷ watches) d h = inr (Rings-In w watches d h)

In-option : (o : Option ℕ) (d : ℕ) → In d (option_list o) → o ≡ some d
In-option none d h = elim h [ ]
In-option (some e) d (inl same) = ap some same
In-option (some e) d (inr h) = elim h [ ]

EndsAt-In : (w : World) (p : ParkState) (d : ℕ) → EndsAt w p d → In d (deadlines_of w p)
unfolding deadlines_of
EndsAt-In w p d (inl (at, woken, same)) = rw (same, deadlines_of) (inl refl)
EndsAt-In w p d (inr (inl (watches, same))) =
    rw (same, deadlines_of) (In-append d (timer_expiries w watches) (d ∷ []) (inr (inl refl)))
EndsAt-In w p d (inr (inr (watches, timeout, same, rings))) =
    rw (same, deadlines_of)
      (In-append d (timer_expiries w watches) (option_list timeout)
        (inl (In-timer_expiries w watches d rings)))

In-EndsAt : (w : World) (p : ParkState) (d : ℕ) → In d (deadlines_of w p) → EndsAt w p d
unfolding deadlines_of
In-EndsAt w (futex at woken timeout) d h =
    inl (at, woken, ap (futex at woken) (In-option timeout d h))
In-EndsAt w (waiting watches timeout) d h =
    elim (In-split d (timer_expiries w watches) (option_list timeout) h) [
      | inl rings ↦ inr (inr (watches, timeout, refl, Rings-In w watches d rings))
      | inr last ↦ inr (inl (watches, ap (waiting watches) (In-option timeout d last)))
    ]
In-EndsAt w _ d h = elim h [ ]

pub SomeEndsAt-In :
    (w : World) (tasks : List Task) (d : ℕ) → SomeEndsAt w tasks d → In d (deadlines w tasks)
unfolding deadlines
SomeEndsAt-In w [] d h = elim h [ ]
SomeEndsAt-In w (t ∷ tasks) d (inl (runs, ends)) =
    rw runs
      (In-append d (deadlines_of w t.state) (deadlines w tasks) (inl (EndsAt-In w t.state d ends)))
SomeEndsAt-In w (t ∷ tasks) d (inr h) = elim (Bool-cases t.stopped) [
  | inl halted ↦ rw halted (SomeEndsAt-In w tasks d h)
  | inr runs ↦
      rw runs
        (In-append d (deadlines_of w t.state) (deadlines w tasks) (inr (SomeEndsAt-In w tasks d h)))
]

pub In-SomeEndsAt :
    (w : World) (tasks : List Task) (d : ℕ) → In d (deadlines w tasks) → SomeEndsAt w tasks d
unfolding deadlines
In-SomeEndsAt w [] d h = h
In-SomeEndsAt w (t ∷ tasks) d h = elim (Bool-cases t.stopped) [
  | inl halted ↦
      let rest : In d (deadlines w tasks) = subst (λ l. In d l) (rw halted refl) h in
      inr (In-SomeEndsAt w tasks d rest)
  | inr runs ↦
      let both : In d (deadlines_of w t.state ++ deadlines w tasks) =
        subst (λ l. In d l) (rw runs refl) h in
      elim (In-split d (deadlines_of w t.state) (deadlines w tasks) both) [
        | inl here ↦ inl (runs, In-EndsAt w t.state d here)
        | inr later ↦ inr (In-SomeEndsAt w tasks d later)
      ]
]

pub least-none : (ds : List ℕ) → least ds ≡ none → ds ≡ []
unfolding least
least-none [] h = refl
least-none (d ∷ ds) h = elim (Option-cases (least ds)) [
  | inl empty ↦ absurd (ground arith)
  | inr (e, rest) ↦ absurd (ground arith)
]

All-le : (d e : ℕ) (ds : List ℕ) → d ≤ e → All (λ x. e ≤ x) ds → All (λ x. d ≤ x) ds
All-le d e [] h a = tt
All-le d e (x ∷ ds) h a = (omega (arith, h, a.0), All-le d e ds h a.1)

pub least_le : (ds : List ℕ) (d : ℕ) → least ds ≡ some d → All (λ x. d ≤ x) ds
unfolding least
least_le [] d h = cc
least_le (x ∷ ds) d h = elim (Option-cases (least ds)) [
  | inl empty ↦ (ground arith, rw (least-none ds empty) tt)
  | inr (e, rest) ↦ (ground arith, All-le d e ds (ground arith) (least_le ds e rest))
]
