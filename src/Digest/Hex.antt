-- ===== src/Digest/Hex.antt =====
-- `hex` and `from_hex` of digest.rs: how a digest is written in a manifest.
use Prim.Native.Nat.{bit_and, bit_or}
use web_tos.Prelude.{
  ℕ, zero, suc, ◌+◌, ◌-◌, ◌*◌, ◌/◌, ◌%◌, ◌^◌, ◌≤◌, ◌<◌, ◌≡◌, refl, ap, subst, Option-cases, [], ◌∷◌,
  arith, Bool, true, false, Bool-cases, inl, inr, ◌&&◌, Option, none, some, leb, ltb, ◌==◌, ==_iff,
  if◌then◌else◌, length, All, map,
}
use web_tos.Prelude.Bytes.{Bytes}

-- `char::from_digit(_, 16)` below 16, `char::to_digit(16)`
from_digit : ℕ → ℕ
from_digit d = if ltb d 10 then b'0' + d else b'a' + (d - 10)

to_digit : ℕ → Option ℕ
to_digit c =
    if leb b'0' c && leb c b'9'
    then some (c - b'0')
    else if leb b'a' c && leb c b'f'
    then some (c - b'a' + 10)
    else if leb b'A' c && leb c b'F'
    then some (c - b'A' + 10)
    else none

pub hex : Bytes → Bytes
hex [] = []
hex (byte ∷ bytes) = from_digit (byte / 2 ^ 4) ∷ from_digit (bit_and byte 0xf) ∷ hex bytes

-- One byte from its two digits.
from_pair : ℕ → ℕ → Option ℕ
unfolding to_digit
from_pair h l = elim (to_digit h) [
  | none ↦ none
  | some hi ↦ elim (to_digit l) [ none ↦ none | some lo ↦ some (bit_or (hi * 2 ^ 4) lo % 256) ]
]

-- The loop over `as_chunks::<2>`; an odd byte at the end is no chunk.
from_pairs : Bytes → Option Bytes
from_pairs [] = some []
from_pairs (h ∷ []) = some []
from_pairs (h ∷ l ∷ rest) = elim (from_pair h l) [
  | none ↦ none
  | some byte ↦ elim (from_pairs rest) [ none ↦ none | some bytes ↦ some (byte ∷ bytes) ]
]

unfoldable pub from_hex : Bytes → Option Bytes
unfolding from_pairs from_pair
from_hex text = if length text == 64 then from_pairs text else none

-- ASCII upper case.
abbrev pub to_upper : ℕ → ℕ
to_upper c = if leb b'a' c && leb c b'z' then c - 32 else c

abbrev pub IsByte : ℕ → Type 0
IsByte b = b < 256

-- A test on every byte, by counting down, and what it tells about one of them.
holds_from : ℕ → (ℕ → Bool) → Bool
holds_from zero test = true
holds_from (suc n) test = elim (test n) [ true ↦ holds_from n test | false ↦ false ]

holds_from_lem :
    (test : ℕ → Bool) (n byte : ℕ) → byte < n → holds_from n test ≡ true → test byte ≡ true
unfolding holds_from
holds_from_lem test zero byte inside h = absurd (omega (arith, inside))
holds_from_lem test (suc n) byte inside h = elim (Bool-cases (test n)) [
  | inl good ↦ ground (arith, holds_from_lem test n byte)
  | inr bad ↦ absurd (ground arith)
]

abbrev reads_as : ℕ → Option ℕ → Bool
reads_as b none = false
reads_as b (some c) = c == b

reads_as→eq : (b : ℕ) (o : Option ℕ) → reads_as b o ≡ true → o ≡ some b
reads_as→eq b none h = cc
reads_as→eq b (some c) h = ground arith

lower_table :
    holds_from 256
      (λ b. reads_as b (from_pair (from_digit (b / 2 ^ 4)) (from_digit (bit_and b 0xf))))
    ≡ true
unfolding holds_from from_pair from_digit
lower_table = refl

upper_table :
    holds_from 256 (λ b.
      reads_as b
        (from_pair (to_upper (from_digit (b / 2 ^ 4))) (to_upper (from_digit (bit_and b 0xf)))))
    ≡ true
unfolding holds_from from_pair from_digit
upper_table = refl

pub length-hex : (bytes : Bytes) → length (hex bytes) ≡ 2 * length bytes
unfolding hex
length-hex [] = refl
length-hex (b ∷ bytes) = omega (arith, length-hex bytes)

length-map : (f : ℕ → ℕ) (bytes : Bytes) → length (map f bytes) ≡ length bytes
length-map f [] = refl
length-map f (b ∷ bytes) = omega (arith, length-map f bytes)

from_pairs_step :
    (h l b : ℕ) (rest bytes : Bytes)
    → from_pair h l ≡ some b
    → from_pairs rest ≡ some bytes
    → from_pairs (h ∷ l ∷ rest) ≡ some (b ∷ bytes)
unfolding from_pairs
from_pairs_step h l b rest bytes e f = ground arith

from_pairs-hex : (bytes : Bytes) → All IsByte bytes → from_pairs (hex bytes) ≡ some bytes
unfolding hex from_pairs
from_pairs-hex [] h = refl
from_pairs-hex (b ∷ bytes) h =
    from_pairs_step _ _ b (hex bytes) bytes
      (reads_as→eq b _ (holds_from_lem _ 256 b h.0 lower_table)) (from_pairs-hex bytes h.1)

from_pairs-upper :
    (bytes : Bytes) → All IsByte bytes → from_pairs (map to_upper (hex bytes)) ≡ some bytes
unfolding hex from_pairs
from_pairs-upper [] h = refl
from_pairs-upper (b ∷ bytes) h =
    from_pairs_step _ _ b (map to_upper (hex bytes)) bytes
      (reads_as→eq b _ (holds_from_lem _ 256 b h.0 upper_table)) (from_pairs-upper bytes h.1)

-- A digest of 32 bytes is read back from its text, and from its text in upper case too.
pub from_hex-hex :
    (digest : Bytes)
    → length digest ≡ 32
    → All IsByte digest
    → (from_hex (hex digest) ≡ some digest) × (from_hex (map to_upper (hex digest)) ≡ some digest)
unfolding from_hex
from_hex-hex digest n h = (
  rw ((==_iff (length (hex digest)) 64).1 (omega (arith, length-hex digest)))
      (from_pairs-hex digest h),
  rw
      ((==_iff (length (map to_upper (hex digest))) 64).1
        (omega (arith, length-hex digest, length-map to_upper (hex digest))))
      (from_pairs-upper digest h),
)

-- No character of the text of a digest comes before `0`.
pub hex-from_zero : (bytes : Bytes) → All (λ c. b'0' ≤ c) (hex bytes)
unfolding hex from_digit
hex-from_zero [] = tt
hex-from_zero (b ∷ bytes) = (ground arith, (ground arith, hex-from_zero bytes))

some-inj {ℓ} : {A : Type ℓ} (a b : A) → some a ≡ some b → a ≡ b
some-inj a b e = cc

from_pair-IsByte : (h l b : ℕ) → from_pair h l ≡ some b → IsByte b
unfolding from_pair
from_pair-IsByte h l b e = ground arith

abbrev IsDigestOf : ℕ → Bytes → Type 0
IsDigestOf n digest = (length digest ≡ n) × All IsByte digest

from_pairs-IsDigestOf :
    (n : ℕ) (text digest : Bytes)
    → length text ≡ 2 * n
    → from_pairs text ≡ some digest
    → IsDigestOf n digest
unfolding from_pairs
from_pairs-IsDigestOf zero [] digest l e =
    subst (λ d. IsDigestOf 0 d) (some-inj [] digest e) (refl, tt)
from_pairs-IsDigestOf zero (h ∷ text) digest l e = absurd (omega (arith, l))
from_pairs-IsDigestOf (suc n) [] digest l e = absurd (omega (arith, l))
from_pairs-IsDigestOf (suc n) (h ∷ []) digest l e = absurd (omega (arith, l))
from_pairs-IsDigestOf (suc n) (h ∷ k ∷ text) digest l e = elim (Option-cases (from_pair h k)) [
  | inl bad ↦ absurd (ground (arith, bad, e))
  | inr (b, good) ↦ elim (Option-cases (from_pairs text)) [
    | inl worse ↦ absurd (ground (arith, good, worse, e))
    | inr (rest, fine) ↦
        let same : digest ≡ b ∷ rest = ground (arith, good, fine, e) in
        let ih = from_pairs-IsDigestOf n text rest (omega (arith, l)) fine in
        rw same (ap suc ih.0, (from_pair-IsByte h k b good, ih.1))
  ]
]

-- What `from_hex` reads is a digest of 32 bytes.
pub from_hex-IsByte :
    (text digest : Bytes) → from_hex text ≡ some digest → (length digest ≡ 32) × All IsByte digest
unfolding from_hex
from_hex-IsByte text digest e = elim (Bool-cases (length text == 64)) [
  | inl long ↦
      let f : from_pairs text ≡ some digest = ground (arith, long, e) in
      from_pairs-IsDigestOf 32 text digest ((==_iff (length text) 64).0 long) f
  | inr short ↦ absurd (ground (arith, short, e))
]
