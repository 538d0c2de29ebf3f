-- ===== src/Sched.antt =====
-- crates/linux-compat/src/proc.rs: the cooperative scheduler, with the pipes, counters and terminals
-- of fd.rs that parked tasks wait on. A shared object (`Rc<RefCell<_>>`) is a number, and `World` holds what is
-- behind it at the time; whether a socket can be read is the host's answer.
pub mod Futex
pub mod Ready
pub mod Wait
pub mod Ends
pub mod Clock
pub mod Hangup
mod Tests
use Prim.Native.Nat.{bit_and, bit_xor}
use web_tos.Prelude.{
  ℕ, zero, suc, ◌+◌, ◌-◌, ◌%◌, ◌^◌, List, [], ◌∷◌, ◌++◌, Bool, true, false, not, ◌&&◌, ◌||◌, Option,
  none, some, if◌then◌else◌, ltb, leb, ◌==◌, is_empty, is_some, length, any, min,
}
use web_tos.Prelude.Bytes.{Bytes}

-- The fields of fd.rs that readiness depends on.
pub record Pipe : Type 0 where
  pub data_len : ℕ
  pub readers : ℕ
  pub writers : ℕ
  pub activity : ℕ

pub record PtyEnds : Type 0 where
  pub m2s : Bytes
  pub s2m : Bytes
  pub masters : ℕ
  pub slaves : ℕ
  pub slave_ever_opened : Bool
  pub pty_activity : ℕ

pub record World : Type 0 where
  pub pipes : ℕ → Pipe
  pub event_count : ℕ → ℕ
  pub event_activity : ℕ → ℕ
  pub next_expiry : ℕ → Option ℕ
  pub socket_handle : ℕ → Option ℕ
  pub net_readable : ℕ → Bool
  pub ptys : ℕ → PtyEnds
  pub inotify_queue_len : ℕ → ℕ
  pub inotify_overflowed : ℕ → Bool
  pub inotify_activity : ℕ → ℕ
  pub vfork_done : ℕ → Bool

pub data Watch : Type 0 where
  pipe_readable pipe_writable event timer net_readable_of : ℕ → Watch
  pipe_activity event_activity_of : ℕ → ℕ → Watch
  pty_readable : ℕ → Bool → Watch
  pty_activity_of : ℕ → ℕ → Watch
  inotify_readable : ℕ → Watch
  inotify_activity_of : ℕ → ℕ → Watch
  always : Watch

-- `wait4`'s pid is the bit pattern of its `i64`.
pub data ParkState : Type 0 where
  ready_to_run : ParkState
  wait_child : ℕ → Bool → ParkState
  futex : ℕ → Bool → Option ℕ → ParkState
  pipe_read pipe_write : ℕ → ParkState
  waiting : List Watch → Option ℕ → ParkState
  vfork_wait : ℕ → ParkState

-- The fields of `Process` that the scheduler reads, and the state of a `ParkedTask`.
pub record Task : Type 0 where
  pub pid : ℕ
  pub tgid : ℕ
  pub ppid : ℕ
  pub sigmask : ℕ
  pub pending_signals : ℕ
  pub stopped : Bool
  pub stop_report : Option ℕ
  pub state : ParkState

pub record Zombie : Type 0 where
  pub pid : ℕ
  pub ppid : ℕ
  pub status : ℕ

pub record Scheduler : Type 0 where
  pub parked : List Task
  pub zombies : List Zombie
  pub next_pid : ℕ

abbrev pub pipe_capacity : ℕ
pipe_capacity = 0x10_0000

abbrev pub root_pid : ℕ
root_pid = 1000

unfoldable pub new : Scheduler
new = record { parked = []; zombies = []; next_pid = root_pid + 1 }

unfoldable pub group_has_parked : Scheduler → ℕ → Bool
group_has_parked s tgid = any (λ t. t.tgid == tgid) s.parked

-- `next_pid`
unfoldable pub take_pid : Scheduler → ℕ × Scheduler
take_pid s = (s.next_pid, record s { next_pid = s.next_pid + 1 })

unfoldable pub pipe_can_read : Pipe → Bool
pipe_can_read p = not (p.data_len == 0) || p.writers == 0

unfoldable pub pipe_can_write : Pipe → Bool
pipe_can_write p = ltb p.data_len pipe_capacity || p.readers == 0

-- `is_some_and(|t| now >= t)`
abbrev pub passed : ℕ → Option ℕ → Bool
passed now none = false
passed now (some t) = leb t now

-- `Watch::ready`
unfoldable pub ready : World → ℕ → Watch → Bool
ready w now (pipe_readable p) = pipe_can_read (w.pipes p)
ready w now (pipe_writable p) = pipe_can_write (w.pipes p)
ready w now (event e) = ltb 0 (w.event_count e)
ready w now (timer t) = passed now (w.next_expiry t)
ready w now (net_readable_of s) = elim (w.socket_handle s) [
  | none ↦ false
  | some handle ↦ w.net_readable handle
]
ready w now (pipe_activity p seen) = not ((w.pipes p).activity == seen)
ready w now (event_activity_of e seen) = not (w.event_activity e == seen)
ready w now (pty_readable p master) =
    let pty = w.ptys p in
    if master
    then not (is_empty pty.s2m) || (pty.slave_ever_opened && pty.slaves == 0)
    else not (is_empty pty.m2s) || pty.masters == 0
ready w now (pty_activity_of p seen) = not ((w.ptys p).pty_activity == seen)
ready w now (inotify_readable i) = not (w.inotify_queue_len i == 0) || w.inotify_overflowed i
ready w now (inotify_activity_of i seen) = not (w.inotify_activity i == seen)
ready w now always = true

-- The pid filter of `wait4`: -1, or the child's.
abbrev pub any_child : ℕ
any_child = 2 ^ 64 - 1

abbrev pub matches : ℕ → ℕ → ℕ → ℕ → Bool
matches parent filter child_pid child_ppid =
    (child_ppid == parent) && (filter == any_child || child_pid == filter)

unfoldable pub has_child : Scheduler → ℕ → ℕ → Bool
has_child s ppid filter =
    any (λ z. matches ppid filter z.pid z.ppid) s.zombies
    || any (λ t. matches ppid filter t.tgid t.ppid) s.parked

-- The search of `take_stop_report` through the parked tasks.
unfoldable pub stop_report_from : ℕ → ℕ → List Task → Option (ℕ × ℕ) × List Task
stop_report_from ppid filter [] = (none, [])
stop_report_from ppid filter (t ∷ tasks) =
    let rest = stop_report_from ppid filter tasks in
    if matches ppid filter t.tgid t.ppid
    then (elim t.stop_report [
      | none ↦ (rest.0, t ∷ rest.1)
      | some sig ↦ (some (t.tgid, sig), record t { stop_report = none } ∷ tasks)
    ])
    else (rest.0, t ∷ rest.1)

unfoldable pub take_stop_report : Scheduler → ℕ → ℕ → Option (ℕ × ℕ) × Scheduler
take_stop_report s ppid filter =
    let (found, parked) = stop_report_from ppid filter s.parked in
    (found, record s { parked = parked })

unfoldable pub zombie_from : ℕ → ℕ → List Zombie → Option Zombie × List Zombie
zombie_from ppid filter [] = (none, [])
zombie_from ppid filter (z ∷ zombies) =
    let rest = zombie_from ppid filter zombies in
    if matches ppid filter z.pid z.ppid then (some z, zombies) else (rest.0, z ∷ rest.1)

unfoldable pub take_zombie : Scheduler → ℕ → ℕ → Option Zombie × Scheduler
take_zombie s ppid filter =
    let (found, zombies) = zombie_from ppid filter s.zombies in
    (found, record s { zombies = zombies })

-- A task that waits on the futex and is not woken.
abbrev pub waits_on : ℕ → ParkState → Bool
waits_on addr (futex at woken deadline) = (at == addr) && not woken
waits_on addr _ = false

abbrev pub woken_state : ParkState → ParkState
woken_state (futex at woken deadline) = futex at true deadline
woken_state p = p

abbrev pub woken_task : Task → Task
woken_task t = record t { state = woken_state t.state }

-- The loop of `futex_wake`, with the tasks woken before.
unfoldable pub wake_loop : ℕ → ℕ → ℕ → List Task → ℕ × List Task
wake_loop addr count woken [] = (woken, [])
wake_loop addr count woken (t ∷ tasks) =
    if leb count woken then (woken, t ∷ tasks) else elim (waits_on addr t.state) [
      | true ↦ let r = wake_loop addr count (woken + 1) tasks in (r.0, woken_task t ∷ r.1)
      | false ↦ let r = wake_loop addr count woken tasks in (r.0, t ∷ r.1)
    ]

unfoldable pub futex_wake : Scheduler → ℕ → ℕ → ℕ × Scheduler
futex_wake s addr count =
    let (woken, parked) = wake_loop addr count 0 s.parked in (woken, record s { parked = parked })

unfoldable pub wait_is_satisfied : World → Scheduler → Task → ℕ → Bool
wait_is_satisfied w s t now = elim t.state [
  | ready_to_run ↦ true
  | futex at woken deadline ↦ woken || passed now deadline
  | wait_child filter untraced ↦
      any (λ z. matches t.tgid filter z.pid z.ppid) s.zombies
      || (untraced
          && any (λ u. is_some u.stop_report && matches t.tgid filter u.tgid u.ppid) s.parked)
  | pipe_read p ↦ pipe_can_read (w.pipes p)
  | pipe_write p ↦ pipe_can_write (w.pipes p)
  | waiting watches deadline ↦ passed now deadline || any (ready w now) watches
  | vfork_wait done ↦ w.vfork_done done
]

abbrev pub is_vfork : ParkState → Bool
is_vfork (vfork_wait done) = true
is_vfork _ = false

abbrev pub not64 : ℕ → ℕ
not64 x = bit_xor x (2 ^ 64 - 1)

unfoldable pub runnable : World → Scheduler → ℕ → Task → Bool
runnable w s now t =
    if t.stopped
    then false
    else if not (bit_and t.pending_signals (not64 t.sigmask) == 0) && not (is_vfork t.state)
    then true
    else wait_is_satisfied w s t now

-- `Iterator::position`
unfoldable pub position {ℓ} : {A : Type ℓ} → (A → Bool) → List A → Option ℕ
position p [] = none
position p (x ∷ xs) =
    let rest = position p xs in
    if p x then some 0 else (elim rest [ none ↦ none | some i ↦ some (suc i) ])

unfoldable pub find_ready : World → Scheduler → ℕ → Option ℕ
find_ready w s now = position (runnable w s now) s.parked

abbrev pub timer_expiries : World → List Watch → List ℕ
timer_expiries w [] = []
timer_expiries w (timer t ∷ watches) = elim (w.next_expiry t) [
  | none ↦ timer_expiries w watches
  | some d ↦ d ∷ timer_expiries w watches
]
timer_expiries w (_ ∷ watches) = timer_expiries w watches

abbrev pub option_list : Option ℕ → List ℕ
option_list none = []
option_list (some d) = d ∷ []

unfoldable pub deadlines_of : World → ParkState → List ℕ
deadlines_of w (futex at woken deadline) = option_list deadline
deadlines_of w (waiting watches deadline) = timer_expiries w watches ++ option_list deadline
deadlines_of w _ = []

unfoldable pub deadlines : World → List Task → List ℕ
deadlines w [] = []
deadlines w (t ∷ tasks) =
    let rest = deadlines w tasks in if t.stopped then rest else deadlines_of w t.state ++ rest

unfoldable pub least : List ℕ → Option ℕ
least [] = none
least (d ∷ ds) = elim (least ds) [ none ↦ some d | some e ↦ some (min d e) ]

unfoldable pub earliest_deadline : World → Scheduler → Option ℕ
earliest_deadline w s = least (deadlines w s.parked)

abbrev pub handles_of : World → List Watch → List ℕ
handles_of w [] = []
handles_of w (net_readable_of s ∷ watches) = option_list (w.socket_handle s) ++ handles_of w watches
handles_of w (_ ∷ watches) = handles_of w watches

unfoldable pub net_watch_handles : World → List Task → List ℕ
net_watch_handles w [] = []
net_watch_handles w (t ∷ tasks) =
    let rest = net_watch_handles w tasks in
    elim t.state [ waiting watches deadline ↦ handles_of w watches ++ rest | _ ↦ rest ]
