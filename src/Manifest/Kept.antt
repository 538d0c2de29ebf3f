-- ===== src/Manifest/Kept.antt =====
-- What `parse` of manifest.rs accepts: the entries that its text can hold.
use web_tos.Prelude.{
  ℕ, ◌+◌, ◌-◌, ◌*◌, ◌<◌, ◌^◌, ◌≡◌, ◌≢◌, refl, subst, List, [], ◌∷◌, false, ◌&&◌, Bool-cases, Option,
  Option-cases, none, some, inl, inr, arith, leb, ltb, ◌==◌, All, is_empty, is_some, Result-cases,
  ok,
}
use web_tos.Prelude.Bytes.{Bytes}
use web_tos.Prelude.ByteMap.{get, insert, IsSorted, insert-IsSorted}
use web_tos.Digest.Hex.{from_hex, from_hex-IsByte}
use web_tos.Manifest.{
  Manifest, Entry, parse, to_text, read_entry, read_line, read_lines, split_lines, before_lines,
  split_fields, cut_at_space, trim, trim_start, trim_end, before_end, is_space, is_absolute,
  is_comment,
}
use web_tos.Manifest.Decimal.{parse_usize, parse_from}
use web_tos.Manifest.Lines.{IsLine}
use web_tos.Manifest.RoundTrip.{IsKept, AllKept, Readable, parse-to_text}

trim_start-IsLine : (bytes : Bytes) → IsLine bytes → IsLine (trim_start bytes)
unfolding trim_start
trim_start-IsLine [] h = tt
trim_start-IsLine (b ∷ bytes) h = elim (Bool-cases (is_space b)) [
  | inl space ↦ rw space (trim_start-IsLine bytes h.1)
  | inr plain ↦ rw plain h
]

before_end-IsLine : (b : ℕ) (rest : Bytes) → b ≢ 10 → IsLine rest → IsLine (before_end b rest)
before_end-IsLine b [] n h = elim (Bool-cases (is_space b)) [
  | inl space ↦ rw space tt
  | inr plain ↦ rw plain (n, tt)
]
before_end-IsLine b (c ∷ rest) n h = (n, h)

trim_end-IsLine : (bytes : Bytes) → IsLine bytes → IsLine (trim_end bytes)
unfolding trim_end
trim_end-IsLine [] h = tt
trim_end-IsLine (b ∷ bytes) h = before_end-IsLine b (trim_end bytes) h.0 (trim_end-IsLine bytes h.1)

trim-IsLine : (bytes : Bytes) → IsLine bytes → IsLine (trim bytes)
unfolding trim
trim-IsLine bytes h = trim_end-IsLine (trim_start bytes) (trim_start-IsLine bytes h)

trim_end-before_end :
    (b : ℕ) (rest : Bytes) → trim_end rest ≡ rest → trim_end (before_end b rest) ≡ before_end b rest
unfolding trim_end
trim_end-before_end b [] h = elim (Bool-cases (is_space b)) [
  | inl space ↦ rw space refl
  | inr plain ↦ rw plain (rw plain refl)
]
trim_end-before_end b (c ∷ rest) h = rw h refl

trim_end-trim_end : (bytes : Bytes) → trim_end (trim_end bytes) ≡ trim_end bytes
unfolding trim_end
trim_end-trim_end [] = refl
trim_end-trim_end (b ∷ bytes) = trim_end-before_end b (trim_end bytes) (trim_end-trim_end bytes)

trim_end-trim : (bytes : Bytes) → trim_end (trim bytes) ≡ trim bytes
unfolding trim
trim_end-trim bytes = trim_end-trim_end (trim_start bytes)

-- The bytes after a space are on the line.
abbrev OptLine : Option Bytes → Type 0
OptLine none = Unit
OptLine (some bytes) = IsLine bytes

cut_at_space-IsLine : (bytes : Bytes) → IsLine bytes → OptLine (cut_at_space bytes).1
unfolding cut_at_space
cut_at_space-IsLine [] h = tt
cut_at_space-IsLine (b ∷ bytes) h = elim (Bool-cases (b == 32)) [
  | inl space ↦ rw space h.1
  | inr plain ↦ rw plain (cut_at_space-IsLine bytes h.1)
]

before_lines-IsLine :
    (b : ℕ) (lines : List Bytes) → b ≢ 10 → All IsLine lines → All IsLine (before_lines b lines)
before_lines-IsLine b [] n h = ((n, tt), tt)
before_lines-IsLine b (line ∷ lines) n h = ((n, h.0), h.1)

split_lines-IsLine : (text : Bytes) → All IsLine (split_lines text)
unfolding split_lines
split_lines-IsLine [] = (tt, tt)
split_lines-IsLine (b ∷ text) = elim (Bool-cases (b == 10)) [
  | inl newline ↦ rw newline (tt, split_lines-IsLine text)
  | inr other ↦
      rw other
        (before_lines-IsLine b (split_lines text) (ground (arith, other)) (split_lines-IsLine text))
]

split_fields-IsLine :
    (line digest size path : Bytes)
    → IsLine line
    → split_fields line ≡ some (digest, size, path)
    → IsLine path
unfolding split_fields
split_fields-IsLine line digest size path h e = elim (Option-cases (cut_at_space line).1) [
  | inl none_left ↦ absurd (ground (arith, none_left, e))
  | inr (rest, left) ↦
      let r : IsLine rest = subst (λ o. OptLine o) left (cut_at_space-IsLine line h) in
      elim (Option-cases (cut_at_space rest).1) [
        | inl no_path ↦ absurd (ground (arith, left, no_path, e))
        | inr (p, there) ↦
            let same : p ≡ path = ground (arith, left, there, e) in
            let k : IsLine p = subst (λ o. OptLine o) there (cut_at_space-IsLine rest r) in
            subst (λ x. IsLine x) same k
      ]
]

parse_from-bound :
    (acc : ℕ) (text : Bytes) (n : ℕ) → acc < 2 ^ 32 → parse_from acc text ≡ some n → n < 2 ^ 32
unfolding parse_from
parse_from-bound acc [] n h e = ground (arith, h, e)
parse_from-bound acc (c ∷ text) n h e =
    elim (Bool-cases (leb b'0' c && leb c b'9' && ltb (acc * 10 + (c - b'0')) (2 ^ 32))) [
      | inl good ↦
          let value = acc * 10 + (c - b'0') in
          let rest : parse_from value text ≡ some n = rw good at e in
          parse_from-bound value text n (ground (arith, good)) rest
      | inr bad ↦ absurd (ground (arith, bad, e))
    ]

parse_usize-bound : (text : Bytes) (n : ℕ) → parse_usize text ≡ some n → n < 2 ^ 32
unfolding parse_usize
parse_usize-bound [] n e = absurd cc
parse_usize-bound (c ∷ text) n e =
    let unsigned = parse_from-bound 0 (c ∷ text) n (omega arith) in
    let signed = parse_from-bound 0 text n (omega arith) in ground (arith, e, unsigned, signed)

AllKept-insert :
    (path : Bytes) (entry : Entry) (entries : Manifest)
    → IsKept path entry
    → AllKept entries
    → AllKept (insert path entry entries)
unfolding insert
AllKept-insert path entry [] k h = (k, tt)
AllKept-insert path entry ((other, e) ∷ entries) k h =
    ground (arith, k, h.0, h.1, AllKept-insert path entry entries k h.1)

-- The manifests that the parser builds.
abbrev IsGood : Manifest → Type 0
IsGood entries = AllKept entries × IsSorted entries

module _ (number : ℕ) (entries : Manifest) (good : IsGood entries) where
  read_entry-IsGood :
      (line : Bytes) (more : Manifest)
      → IsLine line
      → read_entry number line entries ≡ ok more
      → IsGood more
  unfolding read_entry
  read_entry-IsGood line more h e = elim (Option-cases (split_fields line)) [
    | inl bad ↦ absurd (ground (arith, bad, e))
    | inr ((d, s, p), parts) ↦ elim (Option-cases (from_hex d)) [
      | inl bad ↦ absurd (ground (arith, parts, bad, e))
      | inr (digest, read) ↦ elim (Option-cases (parse_usize s)) [
        | inl bad ↦ absurd (ground (arith, parts, read, bad, e))
        | inr (size, counted) ↦
            let path = trim p in
            let entry : Entry = record { digest = digest; size = size } in
            elim (Bool-cases (is_absolute path)) [
              | inr relative ↦ absurd (ground (arith, parts, read, counted, relative, e))
              | inl absolute ↦ elim (Bool-cases (is_some (get path entries))) [
                | inl twice ↦ absurd (ground (arith, parts, read, counted, absolute, twice, e))
                | inr fresh ↦
                    let same : more ≡ insert path entry entries =
                      ground (arith, parts, read, counted, absolute, fresh, e) in
                    let kept : IsKept path entry = record {
                      path_ok = record {
                        absolute = absolute;
                        one_line = trim-IsLine p (split_fields-IsLine line d s p h parts);
                        trimmed = trim_end-trim p;
                      };
                      length_ok = (from_hex-IsByte d digest read).0;
                      bytes_ok = (from_hex-IsByte d digest read).1;
                      size_ok = parse_usize-bound s size counted;
                    } in
                    rw same (
                      AllKept-insert path entry entries kept good.0,
                      insert-IsSorted path entry entries good.1,
                    )
              ]
            ]
      ]
    ]
  ]

  read_line-IsGood :
      (line : Bytes) (more : Manifest)
      → IsLine line
      → read_line number line entries ≡ ok more
      → IsGood more
  unfolding read_line
  read_line-IsGood line more h e = elim (Bool-cases (is_comment (trim line))) [
    | inl comment ↦
        let same : entries ≡ more = ground (arith, comment, e) in subst (λ m. IsGood m) same good
    | inr text ↦
        let read : read_entry number (trim line) entries ≡ ok more = ground (arith, text, e) in
        read_entry-IsGood (trim line) more (trim-IsLine line h) read
  ]

read_lines-IsGood :
    (number : ℕ) (lines : List Bytes) (entries more : Manifest)
    → All IsLine lines
    → IsGood entries
    → read_lines number lines entries ≡ ok more
    → IsGood more
unfolding read_lines
read_lines-IsGood number [] entries more h good e =
    let same : entries ≡ more = ground (arith, e) in subst (λ m. IsGood m) same good
read_lines-IsGood number (line ∷ lines) entries more h good e =
    elim (Result-cases (read_line number line entries)) [
      | inr (bad, fails) ↦ absurd (ground (arith, fails, e))
      | inl (next, reads) ↦
          let rest : read_lines (number + 1) lines next ≡ ok more = ground (arith, reads, e) in
          read_lines-IsGood (number + 1) lines next more h.1
            (read_line-IsGood number entries good line next h.0 reads) rest
    ]

-- A manifest that the parser accepts names something, in the order of the paths, and holds only
-- absolute paths on one line without spaces at the end, digests of 32 bytes and sizes of 32 bits.
-- Where its paths are read as they are, its text is a canonical one: it is read back as the same.
pub parse_lem :
    (lossy : Bytes → Bytes) (text : Bytes) (manifest : Manifest)
    → parse text ≡ ok manifest
    → Readable lossy manifest
    → AllKept manifest
      × IsSorted manifest
      × (is_empty manifest ≡ false)
      × (parse (to_text lossy manifest) ≡ ok manifest)
unfolding parse
parse_lem lossy text manifest e r = elim (Result-cases (read_lines 1 (split_lines text) [])) [
  | inr (bad, fails) ↦ absurd (ground (arith, fails, e))
  | inl (entries, reads) ↦ elim (Bool-cases (is_empty entries)) [
    | inl bare ↦ absurd (ground (arith, reads, bare, e))
    | inr full ↦
        let same : entries ≡ manifest = ground (arith, reads, full, e) in
        let good : IsGood manifest =
          subst (λ m. IsGood m) same
            (read_lines-IsGood 1 (split_lines text) [] entries (split_lines-IsLine text) (tt, tt)
              reads) in
        let some_entry : is_empty manifest ≡ false = subst (λ m. is_empty m ≡ false) same full in
        (good.0, good.1, some_entry, parse-to_text lossy manifest good.0 r good.1 some_entry)
  ]
]
