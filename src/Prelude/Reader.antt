-- ===== src/Prelude/Reader.antt =====
-- A cursor over bytes, for readers of binary formats: the bytes that are left are the state. What a
-- reader reads is the piece that it takes off the front.
use mathlib.Core.List.{append_assoc}
use mathlib.Core.Path.{◌≡◌, refl, ap, ap₂, sym, subst, ◌∙◌}
use mathlib.Core.Logic.{inl, inr}
use mathlib.Core.Bool.{Bool, false}
use mathlib.Core.List.{[], ◌∷◌, ◌++◌}
use Prim.Native.Nat.{ℕ, ◌+◌, ◌*◌, ◌/◌, ◌%◌, ◌^◌, ◌<◌}
use native.Mathlib.Omega.{arith}
use web_tos.Prelude.Tests.{ltb, Bool-cases, if◌then◌else◌}
use web_tos.Prelude.Lists.{
  All, All-append_left, take-append-drop, length-take, length, take, drop, length-append,
  take-append_self, drop-append_self,
}
use web_tos.Prelude.Fallible.{Result, ok, err, Result-cases}
use web_tos.Prelude.Exec.{Exec, continue, pure, fail_if, ◌>>=◌, ◌>>◌}
use web_tos.Prelude.Bytes.{Bytes, le_bytes, from_le_bytes, length-le_bytes, from_le_bytes-le_bytes}

abbrev pub ReaderOf {ε ℓ} : Type ε → Type ℓ → Type (ε ⊔ ℓ)
ReaderOf E A = Exec Bytes E A

-- The next `n` bytes, or the error where fewer are left.
unfoldable pub take_or {ε} : {E : Type ε} → E → ℕ → ReaderOf E Bytes
take_or e n s = if ltb (length s) n then (err e, s) else (ok (take n s), drop n s)

-- The next little-endian integer of `w` bytes.
unfoldable pub number_or {ε} : {E : Type ε} → E → ℕ → ReaderOf E ℕ
number_or e w = do bytes ← take_or e w; pure (from_le_bytes bytes)

-- `r` reads `a` off the front of any bytes that begin with `piece`.
pub record Reads {ε ℓ} {E : Type ε} {A : Type ℓ} (r : ReaderOf E A) (piece : Bytes) (a : A)
    : Type (ε ⊔ ℓ) where
  pub at_front : (rest : Bytes) → r (piece ++ rest) ≡ (ok a, rest)

pub Reads-bind {ε ℓ κ} :
    {E : Type ε} {A : Type ℓ} {B : Type κ} {r : ReaderOf E A} (f : A → ReaderOf E B) {xs ys : Bytes}
    {a : A} {b : B}
    → Reads r xs a
    → Reads (f a) ys b
    → Reads (r >>= f) (xs ++ ys) b
Reads-bind f {xs = xs} {ys} first second = record {
  at_front =
      λ rest. rw (append_assoc xs ys rest, first.at_front (ys ++ rest)) (second.at_front rest);
}

-- The last piece, before steps that read nothing.
pub Reads-map {ε ℓ κ} :
    {E : Type ε} {A : Type ℓ} {B : Type κ} {r : ReaderOf E A} (f : A → ReaderOf E B) {xs : Bytes}
    {a : A} {b : B}
    → Reads r xs a
    → Reads (f a) [] b
    → Reads (r >>= f) xs b
Reads-map f first second = record {
  at_front = λ rest. rw (first.at_front rest) (second.at_front rest);
}

pub Reads-fail_if {ε ℓ} :
    {E : Type ε} {B : Type ℓ} {test : Bool} (e : E) {r : ReaderOf E B} {xs : Bytes} {b : B}
    → test ≡ false
    → Reads r xs b
    → Reads (fail_if test e >> r) xs b
Reads-fail_if e passes next = record { at_front = λ rest. rw passes (next.at_front rest) }

pub Reads-pure {ε ℓ} : {E : Type ε} {A : Type ℓ} (a : A) → Reads {E = E} (pure a) [] a
Reads-pure a = record { at_front = λ rest. refl }

pub Reads-take_or {ε} :
    {E : Type ε} (e : E) (n : ℕ) (bytes : Bytes)
    → length bytes ≡ n
    → Reads (take_or e n) bytes bytes
unfolding take_or
Reads-take_or e n bytes h = record {
  at_front = λ rest.
      let enough : ltb (length (bytes ++ rest)) n ≡ false =
        ground (arith, length-append bytes rest) in
      rw (enough, take_or, sym h, take-append_self bytes rest, drop-append_self bytes rest) refl;
}

pub Reads-number_or {ε} :
    {E : Type ε} (e : E) (w value : ℕ)
    → value < 256 ^ w
    → Reads (number_or e w) (le_bytes w value) value
unfolding number_or
Reads-number_or e w value h =
    Reads-map _ (Reads-take_or e w (le_bytes w value) (length-le_bytes w value))
      (record { at_front = λ rest. ap (λ x. (ok x, rest)) (from_le_bytes-le_bytes w value h) })

err-ne-ok {ε ℓ} :
    {E : Type ε} {A : Type ℓ} (x : E) (a : A) (s t : Bytes) {o : Result E A × Bytes}
    → o ≡ (err x, s)
    → o ≡ (ok a, t)
    → ⊥
err-ne-ok x a s t e h = cc

-- The two steps of a sequence that succeeds.
pub data Steps {ε ℓ κ} {E : Type ε} {A : Type ℓ} {B : Type κ} (r : ReaderOf E A)
    (f : A → ReaderOf E B) (s : Bytes) (b : B) (rest : Bytes) : Type (ε ⊔ (ℓ ⊔ κ)) where
  steps : (a : A) (mid : Bytes) → r s ≡ (ok a, mid) → f a mid ≡ (ok b, rest) → Steps r f s b rest

pub ok-bind {ε ℓ κ} :
    {E : Type ε} {A : Type ℓ} {B : Type κ} (r : ReaderOf E A) (f : A → ReaderOf E B) (s : Bytes)
    {b : B} {rest : Bytes}
    → (r >>= f) s ≡ (ok b, rest)
    → Steps r f s b rest
ok-bind r f s {b} {rest} h = elim (Result-cases (r s).0) [
  | inl (a, e) ↦
      let whole : r s ≡ (ok a, (r s).1) = ap (λ o. (o, (r s).1)) e in
      steps a (r s).1 whole (ap (λ o. continue o f (r s).1) (sym e) ∙ h)
  | inr (x, e) ↦ absurd (err-ne-ok x b (r s).1 rest (ap (λ o. continue o f (r s).1) e) h)
]

pub ok-pure {ε ℓ} :
    {E : Type ε} {A : Type ℓ} (a : A) (s : Bytes) {b : A} {rest : Bytes}
    → pure {E = E} a s ≡ (ok b, rest)
    → (a ≡ b) × (s ≡ rest)
ok-pure a s h = (cc, cc)

-- What `take_or` took.
pub ok-take_or {ε} :
    {E : Type ε} (e : E) (n : ℕ) (s : Bytes) {a rest : Bytes}
    → take_or e n s ≡ (ok a, rest)
    → (s ≡ a ++ rest) × (length a ≡ n)
unfolding take_or
ok-take_or e n s {a} {rest} h = elim (Bool-cases (ltb (length s) n)) [
  | inl short ↦ absurd (ground (arith, short, h))
  | inr enough ↦
      let first : take n s ≡ a = ground (arith, enough, h) in
      let last : drop n s ≡ rest = ground (arith, enough, h) in
      (
        sym (ap₂ (λ x y. x ++ y) (sym first) (sym last) ∙ take-append-drop n s),
        ap (λ x. length x) (sym first) ∙ ground (arith, length-take n s, enough),
      )
]

-- An integer that was read, where the bytes are bytes.
pub le_bytes-from_le_bytes :
    (bytes : Bytes)
    → All (λ b. b < 256) bytes
    → le_bytes (length bytes) (from_le_bytes bytes) ≡ bytes
unfolding le_bytes from_le_bytes
le_bytes-from_le_bytes [] h = refl
le_bytes-from_le_bytes (b ∷ bytes) h =
    let low : (b + 256 * from_le_bytes bytes) % 256 ≡ b = omega (arith, h.0) in
    let high : (b + 256 * from_le_bytes bytes) / 256 ≡ from_le_bytes bytes = omega (arith, h.0) in
    rw (low, high) (ap (λ x. b ∷ x) (le_bytes-from_le_bytes bytes h.1))

pub ok-number_or {ε} :
    {E : Type ε} (e : E) (w : ℕ) (s : Bytes) {value : ℕ} {rest : Bytes}
    → All (λ b. b < 256) s
    → number_or e w s ≡ (ok value, rest)
    → s ≡ le_bytes w value ++ rest
unfolding number_or
ok-number_or e w s {value} {rest} bytes h = elim (ok-bind (take_or e w) _ s h) [
  | steps a mid first second ↦
      let (cut, size) = ok-take_or e w s first in
      let same : from_le_bytes a ≡ value = cc in
      let last : mid ≡ rest = cc in
      let piece : All (λ b. b < 256) a =
        All-append_left (λ b. b < 256) a mid (subst (λ x. All (λ b. b < 256) x) cut bytes) in
      let text : le_bytes w value ≡ a =
        ap₂ le_bytes (sym size) (sym same) ∙ le_bytes-from_le_bytes a piece in
      cut ∙ ap₂ (λ x y. x ++ y) (sym text) last
]
