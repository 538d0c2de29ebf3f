-- ===== src/Vfs/Snapshot/Reads.antt =====
-- What the readers of vfs.rs read: the cases of the shared lemmas.
use web_tos.Prelude.{ℕ, ◌^◌, ◌<◌, ◌≡◌, refl, [], true, arith, length, ltb}
use web_tos.Prelude.Bytes.{Bytes, le_bytes}
use web_tos.Prelude.Reader.{Reads, Reads-take_or, Reads-number_or}
use web_tos.Vfs.Snapshot.{truncated, taken, number, index}

pub Reads-taken : (n : ℕ) (bytes : Bytes) → length bytes ≡ n → Reads (taken n) bytes bytes
Reads-taken n bytes h = Reads-take_or truncated n bytes h

pub Reads-number : (w value : ℕ) → value < 256 ^ w → Reads (number w) (le_bytes w value) value
Reads-number w value h = Reads-number_or truncated w value h

pub Reads-index : (value : ℕ) → value < 2 ^ 32 → Reads (index value) [] value
unfolding index
Reads-index value h =
    let small : ltb value (2 ^ 32) ≡ true = ground arith in
    record { at_front = λ rest. rw (small, index) refl }
