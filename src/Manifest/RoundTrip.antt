-- ===== src/Manifest/RoundTrip.antt =====
-- `to_text` and `parse` of manifest.rs: what is written is read back.
use mathlib.Core.List.{append_assoc}
use web_tos.Prelude.{
  ℕ, ◌+◌, ◌<◌, ◌^◌, ◌≡◌, ◌≢◌, refl, ap, ◌∙◌, [], ◌∷◌, ◌++◌, false, none, arith, All, All-append,
  All-map_pred, length, is_empty, ok, append_nil,
}
use web_tos.Prelude.Bytes.{Bytes}
use web_tos.Prelude.ByteMap.{get, insert, IsSorted, insert-append, get-append}
use web_tos.Digest.Hex.{hex, from_hex-hex, hex-from_zero, length-hex, IsByte}
use web_tos.Manifest.{
  Manifest, Entry, parse, to_text, entry_text, read_entry, read_line, read_lines, split_lines, trim,
  trim_start, trim_end,
}
use web_tos.Manifest.Decimal.{decimal, IsPlain, decimal-IsPlain, parse_usize-decimal}
use web_tos.Manifest.Lines.{
  IsLine, IsPath, split_lines-append, split_fields-append, trim_fields, trim-path,
}

-- An entry that the text can hold.
pub record IsKept (path : Bytes) (entry : Entry) : Type 0 where
  pub path_ok : IsPath path
  pub length_ok : length entry.digest ≡ 32
  pub bytes_ok : All IsByte entry.digest
  pub size_ok : entry.size < 2 ^ 32

abbrev pub AllKept : Manifest → Type 0
AllKept [] = Unit
AllKept ((path, entry) ∷ entries) = IsKept path entry × AllKept entries

-- The paths are read as they are.
abbrev pub Readable : (Bytes → Bytes) → Manifest → Type 0
Readable lossy [] = Unit
Readable lossy ((path, entry) ∷ entries) = (lossy path ≡ path) × Readable lossy entries

plain-IsLine : (bytes : Bytes) → All IsPlain bytes → IsLine bytes
plain-IsLine bytes h = All-map_pred IsPlain bytes (λ b p. omega (arith, p)) h

-- The line of an entry whose path is read as it is.
abbrev line_of : Bytes → Entry → Bytes
line_of path entry = hex entry.digest ++ (32 ∷ (decimal entry.size ++ (32 ∷ path)))

line_of-IsLine : (path : Bytes) (entry : Entry) → IsPath path → IsLine (line_of path entry)
line_of-IsLine path entry p =
    let h = plain-IsLine (hex entry.digest) (hex-from_zero entry.digest) in
    let d = plain-IsLine (decimal entry.size) (decimal-IsPlain entry.size) in
    let last : IsLine (32 ∷ path) = (omega arith, p.one_line) in
    let middle : IsLine (32 ∷ (decimal entry.size ++ (32 ∷ path))) =
      (omega arith, All-append (λ b. b ≢ 10) (decimal entry.size) (32 ∷ path) d last) in
    All-append (λ b. b ≢ 10) (hex entry.digest) (32 ∷ (decimal entry.size ++ (32 ∷ path))) h middle

-- One line is read as its entry.
read_line-line_of :
    (path : Bytes) (entry : Entry) (number : ℕ) (entries : Manifest)
    → IsKept path entry
    → get path entries ≡ none
    → read_line number (line_of path entry) entries ≡ ok (insert path entry entries)
unfolding read_line read_entry
read_line-line_of path entry number entries w fresh =
    let plain = hex-from_zero entry.digest in
    let long : 0 < length (hex entry.digest) =
      omega (arith, length-hex entry.digest, w.length_ok) in
    let (trimmed, kept) =
      trim_fields (hex entry.digest) (decimal entry.size) path plain long w.path_ok in
    let parts =
      split_fields-append (hex entry.digest) (decimal entry.size) path plain
        (decimal-IsPlain entry.size) in
    let digest = (from_hex-hex entry.digest w.length_ok w.bytes_ok).0 in
    let size = parse_usize-decimal entry.size w.size_ok in
    let same = trim-path path w.path_ok in
    rw (read_line, trimmed, kept, read_entry, parts, digest, size, same, w.path_ok.absolute, fresh)
      refl

empty_line : (number : ℕ) (entries : Manifest) → read_lines number ([] ∷ []) entries ≡ ok entries
unfolding read_lines read_line trim trim_start trim_end
empty_line number entries = refl

module _ (lossy : Bytes → Bytes) where
  read_lines-to_text :
      (acc entries : Manifest) (number : ℕ)
      → AllKept entries
      → Readable lossy entries
      → IsSorted (acc ++ entries)
      → read_lines number (split_lines (to_text lossy entries)) acc ≡ ok (acc ++ entries)
  unfolding to_text split_lines read_lines
  read_lines-to_text acc [] number w r s = rw (append_nil acc) (empty_line number acc)
  read_lines-to_text acc ((path, entry) ∷ entries) number w r s =
      let written : entry_text lossy path entry ≡ line_of path entry =
        ap (λ p. hex entry.digest ++ (32 ∷ (decimal entry.size ++ (32 ∷ p)))) r.0 in
      let cut =
        split_lines-append (line_of path entry) (to_text lossy entries)
          (line_of-IsLine path entry w.0.path_ok) in
      let fresh = get-append path entry acc entries s in
      let first = read_line-line_of path entry number acc w.0 fresh in
      let grown = insert-append path entry acc entries s in
      let whole = append_assoc acc ((path, entry) ∷ []) entries in
      rw (written, cut, read_lines, first, grown)
        (read_lines-to_text (acc ++ ((path, entry) ∷ [])) entries (number + 1) w.1 r.1 (rw whole s)
          ∙ ap ok whole)

-- The text of a manifest that names something is read back as that manifest, when its paths are
-- absolute, without a newline or space at the end, and read as they are; its digests have 32 bytes,
-- and its sizes 32 bits.
pub parse-to_text :
    (lossy : Bytes → Bytes) (manifest : Manifest)
    → AllKept manifest
    → Readable lossy manifest
    → IsSorted manifest
    → is_empty manifest ≡ false
    → parse (to_text lossy manifest) ≡ ok manifest
unfolding parse
parse-to_text lossy manifest w r s some_entry =
    let lines = read_lines-to_text lossy [] manifest 1 w r s in rw (parse, lines, some_entry) refl
