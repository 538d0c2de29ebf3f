-- ===== src/Sched/Tests.antt =====
-- The theorems about the scheduler at concrete inputs: two tasks on a futex, one of them with a
-- deadline, and a shell that waits for its child.
use web_tos.Prelude.{
  ℕ, ◌<◌, ◌≡◌, ◌⊎◌, refl, [], ◌∷◌, true, false, ◌&&◌, ◌||◌, none, some, get_elem?, is_some,
}
use web_tos.Sched.{
  World, Scheduler, Task, ParkState, futex, wait_child, any_child, find_ready, take_zombie,
  take_stop_report, wait_is_satisfied, earliest_deadline, deadlines, deadlines_of, least,
}
use web_tos.Sched.Ready.{MayRun, find_ready_lem}
use web_tos.Sched.Wait.{Taken, take_zombie_lem, wait_child_lem}
use web_tos.Sched.Clock.{Earliest, earliest_deadline_lem}
use web_tos.Sched.Hangup.{Description, pipe, drop_description, HungUp, drop_description_lem}

abbrev task : ℕ → ParkState → Task
task pid state = record {
  pid = pid;
  tgid = pid;
  ppid = 1000;
  sigmask = 0;
  pending_signals = 0;
  stopped = false;
  stop_report = none;
  state = state;
}

abbrev shell : Task
shell = task 1000 (wait_child any_child false)

abbrev queue : Scheduler
queue = record {
  parked = task 1001 (futex 64 false none) ∷ task 1002 (futex 64 false (some 500)) ∷ shell ∷ [];
  zombies = record { pid = 1003; ppid = 1000; status = 0 } ∷ [];
  next_pid = 1004;
}

abbrev idle : World
idle = record {
  pipes = λ p. record { data_len = 0; readers = 1; writers = 1; activity = 0 };
  event_count = λ e. 0;
  event_activity = λ e. 0;
  next_expiry = λ t. none;
  socket_handle = λ s. none;
  net_readable = λ h. false;
  ptys = λ p. record {
    m2s = [];
    s2m = [];
    masters = 1;
    slaves = 1;
    slave_ever_opened = true;
    pty_activity = 0;
  };
  inotify_queue_len = λ i. 0;
  inotify_overflowed = λ i. false;
  inotify_activity = λ i. 0;
  vfork_done = λ v. false;
}

find_ready_lem_example :
    (find_ready idle queue 0 ≡ none)
      × ((i : ℕ) (t : Task) → get_elem? queue.parked i ≡ some t → ¬ MayRun idle queue 0 t)
    ⊎ ((i : ℕ) × (t : Task) × (find_ready idle queue 0 ≡ some i)
        × (get_elem? queue.parked i ≡ some t)
        × MayRun idle queue 0 t
        × ((j : ℕ) (u : Task)
            → j < i
            → get_elem? queue.parked j ≡ some u
            → ¬ MayRun idle queue 0 u))
find_ready_lem_example = find_ready_lem idle queue 0

take_zombie_lem_example :
    let (found, t) = take_zombie queue 1000 any_child in
    Taken 1000 any_child queue.zombies (found, t.zombies) × (t.parked ≡ queue.parked)
take_zombie_lem_example = take_zombie_lem queue 1000 any_child

wait_child_lem_example :
    wait_is_satisfied idle queue shell 0
    ≡ is_some (take_zombie queue 1000 any_child).0
      || (false && is_some (take_stop_report queue 1000 any_child).0)
wait_child_lem_example = wait_child_lem idle queue shell 0 any_child false refl

first_deadline : earliest_deadline idle queue ≡ some 500
unfolding earliest_deadline deadlines deadlines_of least
first_deadline = refl

earliest_deadline_lem_example : Earliest idle queue (earliest_deadline idle queue)
earliest_deadline_lem_example = earliest_deadline_lem idle queue

abbrev write_end_of_pipe : Description
write_end_of_pipe = record { backing = pipe 7 true; offset = 0; flags = 1 }

drop_description_lem_example : HungUp idle 7 true (drop_description idle write_end_of_pipe).0
drop_description_lem_example = drop_description_lem idle write_end_of_pipe 7 true refl
