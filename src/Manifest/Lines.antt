-- ===== src/Manifest/Lines.antt =====
-- How manifest.rs takes a text apart: lines, fields and trimming.
use web_tos.Prelude.{
  ℕ, ◌<◌, ◌≡◌, ◌≢◌, refl, [], ◌∷◌, ◌++◌, true, false, some, arith, ◌==◌, All, length,
}
use web_tos.Prelude.Bytes.{Bytes}
use web_tos.Manifest.{
  is_space, is_comment, trim, trim_start, trim_end, split_lines, cut_at_space, split_fields,
  is_absolute,
}
use web_tos.Manifest.Decimal.{IsPlain}

-- No newline in the bytes.
abbrev pub IsLine : Bytes → Type 0
IsLine bytes = All (λ b. b ≢ 10) bytes

pub split_lines-append :
    (line text : Bytes) → IsLine line → split_lines (line ++ (10 ∷ text)) ≡ line ∷ split_lines text
unfolding split_lines
split_lines-append [] text h = refl
split_lines-append (b ∷ line) text h =
    let here : (b == 10) ≡ false = ground (arith, h.0) in
    rw here (rw (split_lines-append line text h.1) refl)

pub cut_at_space-append :
    (field rest : Bytes)
    → All IsPlain field
    → cut_at_space (field ++ (32 ∷ rest)) ≡ (field, some rest)
unfolding cut_at_space
cut_at_space-append [] rest h = refl
cut_at_space-append (b ∷ field) rest h =
    let here : (b == 32) ≡ false = ground (arith, h.0) in
    rw here (rw (cut_at_space-append field rest h.1) refl)

pub split_fields-append :
    (digest size path : Bytes)
    → All IsPlain digest
    → All IsPlain size
    → split_fields (digest ++ (32 ∷ (size ++ (32 ∷ path)))) ≡ some (digest, size, path)
unfolding split_fields
split_fields-append digest size path d s =
    let first = cut_at_space-append digest (size ++ (32 ∷ path)) d in
    let second = cut_at_space-append size path s in
    rw (split_fields, first, second) (rw (first, second) refl)

-- What ends with a trimmed part is trimmed at its end.
trim_end-append :
    (xs : Bytes) (c : ℕ) (ys : Bytes)
    → trim_end (c ∷ ys) ≡ c ∷ ys
    → trim_end (xs ++ (c ∷ ys)) ≡ xs ++ (c ∷ ys)
unfolding trim_end
trim_end-append [] c ys h = h
trim_end-append (x ∷ []) c ys h = rw (trim_end-append [] c ys h) refl
trim_end-append (x ∷ y ∷ xs) c ys h = rw (trim_end-append (y ∷ xs) c ys h) refl

-- A path as the parser keeps one: absolute, on one line, and trimmed at its end.
pub record IsPath (path : Bytes) : Type 0 where
  pub absolute : is_absolute path ≡ true
  pub one_line : IsLine path
  pub trimmed : trim_end path ≡ path

pub trim-path : (path : Bytes) → IsPath path → trim path ≡ path
unfolding trim trim_start trim_end
trim-path [] p = refl
trim-path (b ∷ path) p =
    let plain : is_space b ≡ false = ground (arith, p.absolute) in rw plain p.trimmed

-- A line of three fields is trimmed and no comment.
pub trim_fields :
    (digest size path : Bytes)
    → All IsPlain digest
    → 0 < length digest
    → IsPath path
    → (trim (digest ++ (32 ∷ (size ++ (32 ∷ path)))) ≡ digest ++ (32 ∷ (size ++ (32 ∷ path))))
      × (is_comment (digest ++ (32 ∷ (size ++ (32 ∷ path)))) ≡ false)
unfolding trim trim_start
trim_fields [] size path d l p = absurd (omega (arith, l))
trim_fields (b ∷ digest) size [] d l p = absurd (ground (arith, p.absolute))
trim_fields (b ∷ digest) size (c ∷ path) d l p =
    let plain : is_space b ≡ false = ground (arith, d.0) in
    let last = trim_end-append (32 ∷ []) c path p.trimmed in
    let middle = trim_end-append (32 ∷ size) 32 (c ∷ path) last in
    (
      rw plain (trim_end-append (b ∷ digest) 32 (size ++ (32 ∷ (c ∷ path))) middle),
      ground (arith, d.0),
    )
