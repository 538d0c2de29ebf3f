-- ===== src/Prelude/Bytes.antt =====
-- Byte strings (`Vec<u8>`), their order, and little-endian integers (`to_le_bytes`, `from_le_bytes`).
use Prim.Native.Nat.{ℕ, zero, suc, ◌+◌, ◌*◌, ◌/◌, ◌%◌, ◌^◌, ◌<◌, compare, Ordering, lt, eq, gt}
use mathlib.Core.Path.{◌≡◌, refl, ap}
use mathlib.Core.Logic.{◌↔◌}
use mathlib.Core.Bool.{Bool, true, false}
use mathlib.Core.List.{List, [], ◌∷◌}
use native.Mathlib.Nat.{pow-suc}
use native.Mathlib.Omega.{arith}
use web_tos.Prelude.Lists.{length}

abbrev pub Bytes : Type 0
Bytes = List ℕ

-- `Ord for Vec<u8>`: lexicographic.
unfoldable pub compare_bytes : Bytes → Bytes → Ordering
compare_bytes [] [] = eq
compare_bytes [] (y ∷ ys) = lt
compare_bytes (x ∷ xs) [] = gt
compare_bytes (x ∷ xs) (y ∷ ys) = elim (compare x y) [
  | lt ↦ lt
  | eq ↦ compare_bytes xs ys
  | gt ↦ gt
]

pub compare_bytes_refl : (xs : Bytes) → compare_bytes xs xs ≡ eq
unfolding compare_bytes
compare_bytes_refl [] = refl
compare_bytes_refl (x ∷ xs) = ground (arith, compare_bytes_refl xs)

pub eq_of_compare_bytes : (xs ys : Bytes) → compare_bytes xs ys ≡ eq → xs ≡ ys
unfolding compare_bytes
eq_of_compare_bytes [] [] h = refl
eq_of_compare_bytes [] (y ∷ ys) h = cc
eq_of_compare_bytes (x ∷ xs) [] h = cc
eq_of_compare_bytes (x ∷ xs) (y ∷ ys) h = ground (arith, eq_of_compare_bytes xs ys)

pub compare_bytes_swap : (xs ys : Bytes) → compare_bytes xs ys ≡ gt → compare_bytes ys xs ≡ lt
unfolding compare_bytes
compare_bytes_swap [] [] h = cc
compare_bytes_swap [] (y ∷ ys) h = cc
compare_bytes_swap (x ∷ xs) [] h = refl
compare_bytes_swap (x ∷ xs) (y ∷ ys) h = ground (arith, compare_bytes_swap xs ys)

pub compare_bytes_swap_lt : (xs ys : Bytes) → compare_bytes xs ys ≡ lt → compare_bytes ys xs ≡ gt
unfolding compare_bytes
compare_bytes_swap_lt [] [] h = cc
compare_bytes_swap_lt [] (y ∷ ys) h = refl
compare_bytes_swap_lt (x ∷ xs) [] h = cc
compare_bytes_swap_lt (x ∷ xs) (y ∷ ys) h = ground (arith, compare_bytes_swap_lt xs ys)

pub compare_bytes_trans :
    (xs ys zs : Bytes)
    → compare_bytes xs ys ≡ lt
    → compare_bytes ys zs ≡ lt
    → compare_bytes xs zs ≡ lt
unfolding compare_bytes
compare_bytes_trans [] [] zs h k = cc
compare_bytes_trans [] (y ∷ ys) [] h k = cc
compare_bytes_trans [] (y ∷ ys) (z ∷ zs) h k = refl
compare_bytes_trans (x ∷ xs) [] zs h k = cc
compare_bytes_trans (x ∷ xs) (y ∷ ys) [] h k = cc
compare_bytes_trans (x ∷ xs) (y ∷ ys) (z ∷ zs) h k = ground (arith, compare_bytes_trans xs ys zs)

-- `==` on byte strings.
abbrev pub bytes_eq : Bytes → Bytes → Bool
bytes_eq xs ys = elim (compare_bytes xs ys) [ eq ↦ true | _ ↦ false ]

pub bytes_eq_iff : (xs ys : Bytes) → (bytes_eq xs ys ≡ true) ↔ (xs ≡ ys)
bytes_eq_iff xs ys =
    (λ h. eq_of_compare_bytes xs ys (ground arith), λ e. ground (arith, compare_bytes_refl ys))

-- `to_le_bytes` of an integer of `w` bytes.
unfoldable pub le_bytes : ℕ → ℕ → Bytes
le_bytes zero v = []
le_bytes (suc w) v = (v % 256) ∷ le_bytes w (v / 256)

-- `from_le_bytes`
unfoldable pub from_le_bytes : Bytes → ℕ
from_le_bytes [] = 0
from_le_bytes (b ∷ bs) = b + 256 * from_le_bytes bs

pub length-le_bytes : (w v : ℕ) → length (le_bytes w v) ≡ w
unfolding le_bytes
length-le_bytes zero v = refl
length-le_bytes (suc w) v = ap suc (length-le_bytes w (v / 256))

pub from_le_bytes-le_bytes : (w v : ℕ) → v < 256 ^ w → from_le_bytes (le_bytes w v) ≡ v
unfolding le_bytes from_le_bytes
from_le_bytes-le_bytes zero v h = omega arith
from_le_bytes-le_bytes (suc w) v h =
    let bound : v < 256 ^ w * 256 = rw pow-suc at h in
    let rest : from_le_bytes (le_bytes w (v / 256)) ≡ v / 256 =
      from_le_bytes-le_bytes w (v / 256) (omega arith) in
    omega arith
