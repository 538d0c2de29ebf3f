-- ===== src/Manifest.antt =====
-- crates/linux-compat/src/manifest.rs: the manifest of the images that a host may put in the guest,
-- its text, and the check of delivered bytes. `String::from_utf8_lossy` is a parameter.
pub mod Decimal
pub mod Lines
pub mod RoundTrip
pub mod Kept
mod Tests
use web_tos.Prelude.{
  ℕ, zero, suc, ◌+◌, List, [], ◌∷◌, ◌++◌, Bool, true, false, not, ◌&&◌, ◌||◌, Option, none, some,
  if◌then◌else◌, leb, ltb, ◌==◌, is_empty, is_some, Result, ok, err,
}
use web_tos.Prelude.Bytes.{Bytes, bytes_eq}
use web_tos.Prelude.ByteMap.{ByteMap, get, insert}
use web_tos.Digest.Hex.{hex, from_hex}
use web_tos.Manifest.Decimal.{decimal, parse_usize}

pub record Entry : Type 0 where
  pub digest : Bytes
  pub size : ℕ

abbrev pub Manifest : Type 0
Manifest = ByteMap Entry

-- `u8::is_ascii_whitespace`
abbrev pub is_space : ℕ → Bool
is_space b = b == 32 || b == 9 || b == 10 || b == 12 || b == 13

unfoldable pub trim_start : Bytes → Bytes
trim_start [] = []
trim_start (b ∷ bytes) = let rest = trim_start bytes in if is_space b then rest else b ∷ bytes

-- A byte before a trimmed end.
abbrev pub before_end : ℕ → Bytes → Bytes
before_end b [] = if is_space b then [] else b ∷ []
before_end b (c ∷ rest) = b ∷ (c ∷ rest)

unfoldable pub trim_end : Bytes → Bytes
trim_end [] = []
trim_end (b ∷ bytes) = before_end b (trim_end bytes)

-- `trim`
unfoldable pub trim : Bytes → Bytes
trim line = trim_end (trim_start line)

abbrev pub before_lines : ℕ → List Bytes → List Bytes
before_lines b [] = (b ∷ []) ∷ []
before_lines b (line ∷ lines) = (b ∷ line) ∷ lines

-- `text.split(|&b| b == b'\n')`
unfoldable pub split_lines : Bytes → List Bytes
split_lines [] = [] ∷ []
split_lines (b ∷ text) =
    let rest = split_lines text in if b == 10 then [] ∷ rest else before_lines b rest

-- What is before the first space, and what is after it if there is one: one step of `splitn`.
unfoldable pub cut_at_space : Bytes → Bytes × Option Bytes
cut_at_space [] = ([], none)
cut_at_space (b ∷ bytes) =
    let (field, rest) = cut_at_space bytes in
    if b == 32 then ([], some bytes) else (b ∷ field, rest)

-- The messages of `parse`, with the number of the line.
pub data ParseError : Type 0 where
  fields not_digest not_size not_absolute : ℕ → ParseError
  named_twice : ℕ → Bytes → ParseError
  names_nothing : ParseError

abbrev pub is_absolute : Bytes → Bool
is_absolute [] = false
is_absolute (b ∷ path) = b == b'/'

-- The three fields of a line.
unfoldable pub split_fields : Bytes → Option (Bytes × Bytes × Bytes)
split_fields line =
    let (digest, after) = cut_at_space line in
    elim after [
      | none ↦ none
      | some rest ↦
          let (size, last) = cut_at_space rest in
          elim last [ none ↦ none | some path ↦ some (digest, size, path) ]
    ]

-- A line that is neither empty nor a comment.
unfoldable pub read_entry : ℕ → Bytes → Manifest → Result ParseError Manifest
read_entry number line entries = elim (split_fields line) [
  | none ↦ err (fields number)
  | some (digest_text, size_text, path_text) ↦ elim (from_hex digest_text) [
    | none ↦ err (not_digest number)
    | some digest ↦ elim (parse_usize size_text) [
      | none ↦ err (not_size number)
      | some size ↦
          let path = trim path_text in
          if not (is_absolute path)
          then err (not_absolute number)
          else if is_some (get path entries)
          then err (named_twice number path)
          else ok (insert path (record { digest = digest; size = size }) entries)
    ]
  ]
]

abbrev pub is_comment : Bytes → Bool
is_comment [] = true
is_comment (b ∷ line) = b == b'#'

unfoldable pub read_line : ℕ → Bytes → Manifest → Result ParseError Manifest
read_line number line entries =
    let text = trim line in if is_comment text then ok entries else read_entry number text entries

unfoldable pub read_lines : ℕ → List Bytes → Manifest → Result ParseError Manifest
read_lines number [] entries = ok entries
read_lines number (line ∷ lines) entries = elim (read_line number line entries) [
  | err e ↦ err e
  | ok more ↦ read_lines (number + 1) lines more
]

-- `Manifest::parse`
unfoldable pub parse : Bytes → Result ParseError Manifest
parse text = elim (read_lines 1 (split_lines text) []) [
  | err e ↦ err e
  | ok entries ↦ if is_empty entries then err names_nothing else ok entries
]

-- `to_text`
abbrev pub entry_text : (Bytes → Bytes) → Bytes → Entry → Bytes
entry_text lossy path entry = hex entry.digest ++ (32 ∷ (decimal entry.size ++ (32 ∷ lossy path)))

unfoldable pub to_text : (Bytes → Bytes) → Manifest → Bytes
to_text lossy [] = []
to_text lossy ((path, entry) ∷ entries) =
    entry_text lossy path entry ++ (10 ∷ to_text lossy entries)

-- The messages of `check`.
pub data CheckError : Type 0 where
  not_in_manifest : CheckError
  wrong_size : ℕ → CheckError
  wrong_digest : Bytes → CheckError

unfoldable pub check : Manifest → Bytes → Bytes → ℕ → Result CheckError (Unit {0})
check manifest path digest size = elim (get path manifest) [
  | none ↦ err not_in_manifest
  | some entry ↦
      if not (entry.size == size)
      then err (wrong_size entry.size)
      else if not (bytes_eq entry.digest digest)
      then err (wrong_digest entry.digest)
      else ok tt
]

-- `Manifest::insert`, `covers`
abbrev pub put_entry : Manifest → Bytes → Bytes → ℕ → Manifest
put_entry manifest path digest size = insert path (record { digest = digest; size = size }) manifest

abbrev pub names : Manifest → Bytes → Bool
names manifest path = is_some (get path manifest)
