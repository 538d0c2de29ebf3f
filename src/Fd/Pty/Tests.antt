-- ===== src/Fd/Pty/Tests.antt =====
-- The line discipline at concrete inputs.
use web_tos.Prelude.{◌≡◌, refl, [], ◌∷◌, some}
use web_tos.Fd.Pty.{new, isig, onlcr, tostop, raised, feed_loop, feed_input, sigint}
use web_tos.Fd.Pty.Input.{Fed, feed_input_lem}
use web_tos.Prelude.{true, false}

fresh_modes : (onlcr (new 0) ≡ true) × (isig (new 0) ≡ true) × (tostop (new 0) ≡ false)
unfolding onlcr isig tostop new web_tos.Prelude.Bytes.from_le_bytes
fresh_modes = (refl, refl, refl)

interrupt : (feed_input (new 0) (b'l' ∷ b's' ∷ 3 ∷ b'x' ∷ [])).1 ≡ some sigint
unfolding feed_input feed_loop raised isig new web_tos.Prelude.Bytes.from_le_bytes
interrupt = refl

feed_input_lem_example :
    Fed (new 0) (b'l' ∷ b's' ∷ 3 ∷ b'x' ∷ []) (feed_input (new 0) (b'l' ∷ b's' ∷ 3 ∷ b'x' ∷ []))
feed_input_lem_example = feed_input_lem (new 0) (b'l' ∷ b's' ∷ 3 ∷ b'x' ∷ [])
