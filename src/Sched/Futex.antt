-- ===== src/Sched/Futex.antt =====
-- `futex_wake` of proc.rs: which tasks it wakes.
use web_tos.Prelude.{ℕ, ◌+◌, List, [], ◌∷◌, Bool, false, Option, none, some, if◌then◌else◌}
use web_tos.Sched.{Task, waits_on, woken_task}

-- How many tasks wait on the futex and are not woken.
pub waiters : ℕ → List Task → ℕ
waiters addr [] = 0
waiters addr (t ∷ tasks) = (if waits_on addr t.state then 1 else 0) + waiters addr tasks

-- What becomes of the task at a place, given whether it is to be woken.
abbrev pub woken_if : Bool → Option Task → Option Task
woken_if chosen none = none
woken_if chosen (some t) = if chosen then some (woken_task t) else some t

abbrev pub waits_at : ℕ → Option Task → Bool
waits_at addr none = false
waits_at addr (some t) = waits_on addr t.state
