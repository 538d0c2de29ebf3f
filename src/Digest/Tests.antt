-- ===== src/Digest/Tests.antt =====
-- Known answers for digest.rs, and the theorems about it at concrete inputs.
use web_tos.Prelude.{◌≡◌, ◌≤◌, refl, [], ◌∷◌, some, take, map, length, replicate, arith}
use web_tos.Prelude.Bytes.{Bytes}
use web_tos.Digest.{sha256, compress, new, update, padding, finish}
use web_tos.Digest.Hex.{hex, from_hex, to_upper, from_hex-hex}
use web_tos.Digest.Stream.{update_all, concat, finish-update_all, IsValid-new, update-padding}

sha256-abc : take 4 (sha256 (b'a' ∷ b'b' ∷ b'c' ∷ [])) ≡ 0xba ∷ 0x78 ∷ 0x16 ∷ 0xbf ∷ []
unfolding sha256 compress
sha256-abc = refl

abbrev long_piece : Bytes
long_piece = replicate 70 b'x'

finish-update_all_example :
    finish (update_all new (long_piece ∷ (b'a' ∷ []) ∷ long_piece ∷ []))
    ≡ finish (update new (concat (long_piece ∷ (b'a' ∷ []) ∷ long_piece ∷ [])))
finish-update_all_example =
    finish-update_all new (long_piece ∷ (b'a' ∷ []) ∷ long_piece ∷ []) IsValid-new

update-padding_example :
    ((update new (padding new.buffered new.bits)).buffered ≡ 0)
    × (length (padding new.buffered new.bits) ≤ 72)
update-padding_example = update-padding new IsValid-new

abbrev digest : Bytes
digest = replicate 32 0xab

from_hex-hex_example :
    (from_hex (hex digest) ≡ some digest) × (from_hex (map to_upper (hex digest)) ≡ some digest)
from_hex-hex_example = from_hex-hex digest refl (omega arith)
