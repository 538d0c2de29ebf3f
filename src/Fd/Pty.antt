-- ===== src/Fd/Pty.antt =====
-- `Pty` of fd.rs: the pseudoterminal pair and the input side of its line discipline. The activity
-- counter is a `u64` that is taken not to reach its end.
pub mod Input
mod Tests
use Prim.Native.Nat.{bit_and}
use web_tos.Prelude.{
  ℕ, zero, suc, ◌+◌, List, [], ◌∷◌, ◌++◌, Bool, true, false, not, ◌&&◌, Option, none, some,
  if◌then◌else◌, ◌==◌, get_or, take, drop, replicate,
}
use web_tos.Prelude.Bytes.{Bytes, le_bytes, from_le_bytes}

-- `data` queues are lists, oldest first.
pub record Pty : Type 0 where
  pub id : ℕ
  pub m2s : Bytes
  pub s2m : Bytes
  pub termios : Bytes
  pub winsize : List ℕ
  pub masters : ℕ
  pub slaves : ℕ
  pub slave_ever_opened : Bool
  pub activity : ℕ
  pub fg_pgrp : ℕ

abbrev pub c_cc : ℕ
c_cc = 17

-- The defaults of `Pty::new`: four flag words, the line discipline byte, the control characters.
abbrev pub default_termios : Bytes
default_termios =
    0x00 ∷ 0x05 ∷ 0x00 ∷ 0x00 ∷ 0x05 ∷ 0x00 ∷ 0x00 ∷ 0x00 ∷ 0xbf ∷ 0x00 ∷ 0x00 ∷ 0x00 ∷ 0x3b ∷ 0x8a
    ∷ 0x00 ∷ 0x00 ∷ 0 ∷ 3 ∷ 28 ∷ 127 ∷ 21 ∷ 4 ∷ 0 ∷ 1 ∷ 0 ∷ 17 ∷ 19 ∷ 26 ∷ 0 ∷ 18 ∷ 15 ∷ 23 ∷ 22 ∷ 0
    ∷ 0 ∷ 0 ∷ []

unfoldable pub new : ℕ → Pty
new id = record {
  id = id;
  m2s = [];
  s2m = [];
  termios = default_termios;
  winsize = 24 ∷ 80 ∷ 0 ∷ 0 ∷ [];
  masters = 1;
  slaves = 0;
  slave_ever_opened = false;
  activity = 0;
  fg_pgrp = 0;
}

-- `u32::from_le_bytes(self.termios[at..at + 4])`
abbrev pub flags_at : Pty → ℕ → ℕ
flags_at pty at = from_le_bytes (take 4 (drop at pty.termios))

unfoldable pub onlcr : Pty → Bool
onlcr pty =
    let oflag = flags_at pty 4 in not (bit_and oflag 0x1 == 0) && not (bit_and oflag 0x4 == 0)

unfoldable pub tostop : Pty → Bool
tostop pty = not (bit_and (flags_at pty 12) 0x100 == 0)

unfoldable pub isig : Pty → Bool
isig pty = not (bit_and (flags_at pty 12) 0x1 == 0)

abbrev pub sigint : ℕ
sigint = 2

abbrev pub sigquit : ℕ
sigquit = 3

abbrev pub sigtstp : ℕ
sigtstp = 20

abbrev pub control : Pty → ℕ → ℕ
control pty i = get_or pty.termios (c_cc + i) 0

-- The signal that a byte raises, if any; a disabled character (NUL) matches nothing.
unfoldable pub raised : Pty → ℕ → Option ℕ
raised pty byte =
    let intr = control pty 0 in
    let quit = control pty 1 in
    let susp = control pty 10 in
    if not (intr == 0) && byte == intr
    then some sigint
    else if not (quit == 0) && byte == quit
    then some sigquit
    else if not (susp == 0) && byte == susp
    then some sigtstp
    else none

-- The loop of `feed_input`: the queue and the last signal.
unfoldable pub feed_loop : Pty → Bytes → Bytes → Option ℕ → Bytes × Option ℕ
feed_loop pty [] queue signal = (queue, signal)
feed_loop pty (byte ∷ bytes) queue signal = elim (raised pty byte) [
  | some sig ↦ feed_loop pty bytes [] (some sig)
  | none ↦ feed_loop pty bytes (queue ++ (byte ∷ [])) signal
]

-- `feed_input`: the terminal afterwards and the signal for the caller to deliver.
unfoldable pub feed_input : Pty → Bytes → Pty × Option ℕ
feed_input pty bytes =
    let (queue, signal) = feed_loop pty bytes pty.m2s none in
    if isig pty
    then (record pty { m2s = queue; activity = pty.activity + 1 }, signal)
    else (record pty { m2s = pty.m2s ++ bytes; activity = pty.activity + 1 }, none)
