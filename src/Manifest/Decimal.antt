-- ===== src/Manifest/Decimal.antt =====
-- How manifest.rs writes and reads a size: `usize::to_string` and `str::parse::<usize>`, with 32
-- bits.
use web_tos.Prelude.{
  ℕ, zero, suc, ◌+◌, ◌-◌, ◌*◌, ◌/◌, ◌%◌, ◌^◌, ◌≤◌, ◌<◌, ◌≡◌, refl, ◌∙◌, [], ◌∷◌, ◌++◌, arith, true,
  false, Bool-cases, inl, inr, ◌&&◌, Option, none, some, leb, ltb, ◌==◌, if◌then◌else◌, All,
  All-append, is_empty, length, length-append,
}
use native.Mathlib.Nat.{pow-suc}
use web_tos.Prelude.Bytes.{Bytes}

unfoldable pub decimal_digits : ℕ → ℕ → Bytes
decimal_digits zero n = []
decimal_digits (suc fuel) n =
    let rest = decimal_digits fuel (n / 10) in
    if ltb n 10 then (b'0' + n) ∷ [] else rest ++ ((b'0' + n % 10) ∷ [])

-- A number of 32 bits has at most ten digits.
unfoldable pub decimal : ℕ → Bytes
decimal n = decimal_digits 10 n

unfoldable pub parse_from : ℕ → Bytes → Option ℕ
parse_from acc [] = some acc
parse_from acc (c ∷ text) =
    let value = acc * 10 + (c - b'0') in
    let rest = parse_from value text in
    if leb b'0' c && leb c b'9' && ltb value (2 ^ 32) then rest else none

unfoldable pub parse_usize : Bytes → Option ℕ
parse_usize [] = none
parse_usize (c ∷ text) =
    if c == b'+'
    then (if is_empty text then none else parse_from 0 text)
    else parse_from 0 (c ∷ text)

abbrev then_digit : Option ℕ → ℕ → Option ℕ
then_digit none c = none
then_digit (some acc) c = parse_from acc (c ∷ [])

parse_from-append :
    (acc : ℕ) (text : Bytes) (c : ℕ)
    → parse_from acc (text ++ (c ∷ [])) ≡ then_digit (parse_from acc text) c
unfolding parse_from
parse_from-append acc [] c = refl
parse_from-append acc (d ∷ text) c =
    elim (Bool-cases (leb b'0' d && leb d b'9' && ltb (acc * 10 + (d - b'0')) (2 ^ 32))) [
      | inl good ↦ rw good (parse_from-append (acc * 10 + (d - b'0')) text c)
      | inr bad ↦ rw bad refl
    ]

one_digit :
    (acc n : ℕ)
    → acc * 10 + n % 10 < 2 ^ 32
    → parse_from acc ((b'0' + n % 10) ∷ []) ≡ some (acc * 10 + n % 10)
unfolding parse_from
one_digit acc n h = ground arith

parse_from-decimal_digits :
    (fuel n : ℕ)
    → n < 10 ^ suc fuel
    → n < 2 ^ 32
    → parse_from 0 (decimal_digits (suc fuel) n) ≡ some n
unfolding decimal_digits parse_from
parse_from-decimal_digits zero n h w =
    let small : ltb n 10 ≡ true = ground arith in rw small (ground arith)
parse_from-decimal_digits (suc fuel) n h w = elim (Bool-cases (ltb n 10)) [
  | inl small ↦ rw small (ground arith)
  | inr large ↦
      let bound : n < 10 ^ suc fuel * 10 = rw pow-suc at h in
      let ih = parse_from-decimal_digits fuel (n / 10) (omega (arith, bound)) (omega arith) in
      let last : n / 10 * 10 + n % 10 ≡ n = omega arith in
      rw large (
        parse_from-append 0 (decimal_digits (suc fuel) (n / 10)) (b'0' + n % 10)
        ∙ rw ih (one_digit (n / 10) n (omega arith) ∙ rw last refl))
]

-- Every character is one after `/`: no space, sign or `#`.
abbrev pub IsPlain : ℕ → Type 0
IsPlain c = b'0' ≤ c

decimal_digits-IsPlain : (fuel n : ℕ) → All IsPlain (decimal_digits fuel n)
unfolding decimal_digits
decimal_digits-IsPlain zero n = tt
decimal_digits-IsPlain (suc fuel) n = elim (Bool-cases (ltb n 10)) [
  | inl small ↦ rw small (omega arith, tt)
  | inr large ↦ rw large (
      All-append IsPlain (decimal_digits fuel (n / 10)) ((b'0' + n % 10) ∷ [])
        (decimal_digits-IsPlain fuel (n / 10)) (omega arith, tt))
]

pub decimal-IsPlain : (n : ℕ) → All IsPlain (decimal n)
unfolding decimal
decimal-IsPlain n = decimal_digits-IsPlain 10 n

unsigned :
    (text : Bytes) (n : ℕ)
    → All IsPlain text
    → 0 < length text
    → parse_from 0 text ≡ some n
    → parse_usize text ≡ some n
unfolding parse_usize
unsigned [] n p l h = absurd (omega arith)
unsigned (c ∷ text) n p l h =
    let no_sign : (c == b'+') ≡ false = ground (arith, p.0) in rw no_sign h

length-decimal_digits : (fuel n : ℕ) → 0 < length (decimal_digits (suc fuel) n)
unfolding decimal_digits
length-decimal_digits fuel n = elim (Bool-cases (ltb n 10)) [
  | inl small ↦ rw small (omega arith)
  | inr large ↦
      rw large (omega (arith, length-append (decimal_digits fuel (n / 10)) ((b'0' + n % 10) ∷ [])))
]

pub parse_usize-decimal : (n : ℕ) → n < 2 ^ 32 → parse_usize (decimal n) ≡ some n
unfolding decimal
parse_usize-decimal n h =
    unsigned (decimal_digits 10 n) n (decimal_digits-IsPlain 10 n) (length-decimal_digits 9 n)
      (parse_from-decimal_digits 9 n (omega arith) h)
