-- ===== src/Fd/Pty/Input.antt =====
-- What terminal input becomes (fd.rs, `Pty::feed_input`).
use mathlib.Core.List.{append_assoc}
use web_tos.Prelude.{
  ℕ, ◌+◌, ◌≡◌, ◌⊎◌, refl, ap, sym, ◌∙◌, [], ◌∷◌, ◌++◌, true, false, Bool-cases, Option,
  Option-cases, none, some, inl, inr, All, append_nil,
}
use web_tos.Prelude.Bytes.{Bytes}
use web_tos.Fd.Pty.{Pty, isig, raised, feed_loop, feed_input}

-- No byte of the text raises a signal.
abbrev pub Plain : Pty → Bytes → Type 0
Plain pty bytes = All (λ b. raised pty b ≡ none) bytes

feed-Plain :
    (pty : Pty) (bytes queue : Bytes) (signal : Option ℕ)
    → Plain pty bytes
    → feed_loop pty bytes queue signal ≡ (queue ++ bytes, signal)
unfolding feed_loop
feed-Plain pty [] queue signal h = ap (λ q. (q, signal)) (sym (append_nil queue))
feed-Plain pty (b ∷ bytes) queue signal h =
    rw (h.0, feed_loop)
      (feed-Plain pty bytes (queue ++ (b ∷ [])) signal h.1
        ∙ ap (λ q. (q, signal)) (append_assoc queue (b ∷ []) bytes))

feed_signal :
    (pty : Pty) (before after queue : Bytes) (c sig : ℕ) (signal : Option ℕ)
    → raised pty c ≡ some sig
    → Plain pty after
    → feed_loop pty (before ++ (c ∷ after)) queue signal ≡ (after, some sig)
unfolding feed_loop
feed_signal pty [] after queue c sig signal r h =
    rw (r, feed_loop) (feed-Plain pty after [] (some sig) h)
feed_signal pty (b ∷ before) after queue c sig signal r h = elim (Option-cases (raised pty b)) [
  | inl quiet ↦
      rw (quiet, feed_loop) (feed_signal pty before after (queue ++ (b ∷ [])) c sig signal r h)
  | inr (s, loud) ↦ rw (loud, feed_loop) (feed_signal pty before after [] c sig (some s) r h)
]

-- Every input either raises nothing, or has a last byte that raises a signal.
last_signal :
    (pty : Pty) (bytes : Bytes)
    → Plain pty bytes
      ⊎ ((before : Bytes) × (c : ℕ) × (after : Bytes) × (sig : ℕ) × (bytes ≡ before ++ (c ∷ after))
          × (raised pty c ≡ some sig)
          × Plain pty after)
last_signal pty [] = inl tt
last_signal pty (b ∷ bytes) = elim (last_signal pty bytes) [
  | inr (before, c, after, sig, e, r, h) ↦ inr (b ∷ before, c, after, sig, ap (λ l. b ∷ l) e, r, h)
  | inl plain ↦ elim (Option-cases (raised pty b)) [
    | inl quiet ↦ inl (quiet, plain)
    | inr (sig, loud) ↦ inr ([], b, bytes, sig, refl, loud, plain)
  ]
]

-- What `feed_input` may do to the queue and answer.
abbrev pub Fed : Pty → Bytes → Pty × Option ℕ → Type 0
Fed pty bytes r =
    (isig pty ≡ false)
      × (r ≡ (record pty { m2s = pty.m2s ++ bytes; activity = pty.activity + 1 }, none))
    ⊎ (isig pty ≡ true)
      × Plain pty bytes
      × (r ≡ (record pty { m2s = pty.m2s ++ bytes; activity = pty.activity + 1 }, none))
    ⊎ ((before : Bytes) × (c : ℕ) × (after : Bytes) × (sig : ℕ) × (isig pty ≡ true)
        × (bytes ≡ before ++ (c ∷ after))
        × (raised pty c ≡ some sig)
        × Plain pty after
        × (r ≡ (record pty { m2s = after; activity = pty.activity + 1 }, some sig)))

-- In raw mode, and where no byte is a signal character, the input is queued as it came and no
-- signal is raised. Otherwise the last signal character raises its signal, and only what follows
-- it is left in the queue. The rest of the terminal does not change, and the activity counter
-- moves by one each time.
pub feed_input_lem : (pty : Pty) (bytes : Bytes) → Fed pty bytes (feed_input pty bytes)
unfolding feed_input
feed_input_lem pty bytes = elim (Bool-cases (isig pty)) [
  | inr raw ↦ inl (raw, rw (raw, feed_input) refl)
  | inl cooked ↦ elim (last_signal pty bytes) [
    | inl plain ↦
        inr (
          inl
            (cooked, plain, rw (cooked, feed_input, feed-Plain pty bytes pty.m2s none plain) refl))
    | inr (before, c, after, sig, e, loud, quiet) ↦
        let fed : feed_loop pty bytes pty.m2s none ≡ (after, some sig) =
          rw e (feed_signal pty before after pty.m2s c sig none loud quiet) in
        inr (inr (before, c, after, sig, cooked, e, loud, quiet, rw (cooked, feed_input, fed) refl))
  ]
]
