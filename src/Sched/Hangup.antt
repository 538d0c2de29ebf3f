-- ===== src/Sched/Hangup.antt =====
-- `Description` of fd.rs and its `Drop`: what closing the last descriptor of an open file does to
-- the ends that others wait on.
use Prim.Native.Nat.{bit_and}
use web_tos.Prelude.{
  ℕ, ◌+◌, ◌-◌, ◌≡◌, ◌≢◌, Bool, true, false, not, ◌&&◌, ◌||◌, Option, none, arith, if◌then◌else◌,
  leb, ◌==◌,
}
use web_tos.Vfs.{Dev}
use web_tos.Sched.{World, Pipe, PtyEnds, pipe_activity, ready, pipe_can_read, pipe_can_write}

pub data StdStream : Type 0 where
  std_in std_out std_err : StdStream

-- What a description refers to; the shared objects are numbers, as in `World`.
pub data Backing : Type 0 where
  std : StdStream → Backing
  file : ℕ → Backing
  dir : ℕ → ℕ → Backing
  char_dev : Dev → Backing
  pipe : ℕ → Bool → Backing
  socket_pair : ℕ → ℕ → Backing
  event_fd timer_fd net epoll pty_master pty_slave inotify : ℕ → Backing

pub record Description : Type 0 where
  pub backing : Backing
  pub offset : ℕ
  pub flags : ℕ

-- `O_ACCMODE`, `O_RDONLY`, `O_WRONLY`
abbrev pub o_accmode : ℕ
o_accmode = 3

abbrev pub o_rdonly : ℕ
o_rdonly = 0

abbrev pub o_wronly : ℕ
o_wronly = 1

unfoldable pub readable : Description → Bool
readable d = not (bit_and d.flags o_accmode == o_wronly)

unfoldable pub writable : Description → Bool
writable d = not (bit_and d.flags o_accmode == o_rdonly)

abbrev pub set_pipe : World → ℕ → Pipe → World
set_pipe w i p = record w { pipes = λ j. if j == i then p else w.pipes j }

abbrev pub set_pty : World → ℕ → PtyEnds → World
set_pty w i p = record w { ptys = λ j. if j == i then p else w.ptys j }

abbrev pub drop_writer : World → ℕ → World
drop_writer w i =
    let p = w.pipes i in
    set_pipe w i (record p { writers = p.writers - 1; activity = p.activity + 1 })

abbrev pub drop_reader : World → ℕ → World
drop_reader w i =
    let p = w.pipes i in
    set_pipe w i (record p { readers = p.readers - 1; activity = p.activity + 1 })

-- `Drop for Description`, with the socket that the broker is told to close.
unfoldable pub drop_description : World → Description → World × Option ℕ
drop_description w d = elim d.backing [
  | pipe i write_end ↦ (if write_end then drop_writer w i else drop_reader w i, none)
  | socket_pair rx tx ↦ (drop_writer (drop_reader w rx) tx, none)
  | net socket ↦ (w, w.socket_handle socket)
  | pty_master i ↦
      let p = w.ptys i in
      (set_pty w i (record p { masters = p.masters - 1; pty_activity = p.pty_activity + 1 }), none)
  | pty_slave i ↦
      let p = w.ptys i in
      (set_pty w i (record p { slaves = p.slaves - 1; pty_activity = p.pty_activity + 1 }), none)
  | _ ↦ (w, none)
]

-- What closing one end of a pipe does.
abbrev pub HungUp : World → ℕ → Bool → World → Type 0
HungUp w i write_end after =
    (pipe_can_read (after.pipes i)
      ≡ pipe_can_read (w.pipes i) || (write_end && leb (w.pipes i).writers 1))
    × (pipe_can_write (after.pipes i)
        ≡ pipe_can_write (w.pipes i) || (not write_end && leb (w.pipes i).readers 1))
    × ((now : ℕ) → ready after now (pipe_activity i (w.pipes i).activity) ≡ true)
    × ((j : ℕ) → j ≢ i → after.pipes j ≡ w.pipes j)

-- Closing the last write end of a pipe makes it readable (end of file), closing the last read end
-- writable (EPIPE); an end that is not the last changes neither. Either way a watch on the pipe's
-- activity fires, and no other pipe changes.
pub drop_description_lem :
    (w : World) (d : Description) (i : ℕ) (write_end : Bool)
    → d.backing ≡ pipe i write_end
    → HungUp w i write_end (drop_description w d).0
unfolding drop_description pipe_can_read pipe_can_write ready
drop_description_lem w d i true h =
    rw (h, drop_description)
      (ground arith, ground arith, λ now. ground arith, λ j other. ground arith)
drop_description_lem w d i false h =
    rw (h, drop_description)
      (ground arith, ground arith, λ now. ground arith, λ j other. ground arith)
