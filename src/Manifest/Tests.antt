-- ===== src/Manifest/Tests.antt =====
-- The theorems about manifests at concrete inputs: one image of three bytes at `/a`.
use web_tos.Prelude.{
  ℕ, zero, suc, ◌≡◌, refl, [], ◌∷◌, false, is_empty, arith, ok, err, replicate, All,
}
use web_tos.Prelude.Bytes.{Bytes, compare_bytes}
use web_tos.Prelude.ByteMap.{get, IsSorted}
use web_tos.Digest.Hex.{IsByte}
use web_tos.Manifest.{
  Manifest, Entry, parse, to_text, check, wrong_size, names_nothing, read_line, read_lines,
  split_lines, trim, trim_start, trim_end,
}
use web_tos.Manifest.Lines.{IsPath}
use web_tos.Manifest.RoundTrip.{AllKept, parse-to_text}
use web_tos.Manifest.Kept.{parse_lem}

abbrev path_a : Bytes
path_a = b'/' ∷ (b'a' ∷ [])

abbrev entry : Entry
entry = record { digest = replicate 32 7; size = 3 }

abbrev manifest : Manifest
manifest = (path_a, entry) ∷ []

path_a-IsPath : IsPath path_a
unfolding trim_end
path_a-IsPath = record {
  absolute = refl;
  one_line = (omega arith, (omega arith, tt));
  trimmed = refl;
}

bytes_below : (n : ℕ) → All IsByte (replicate n 7)
bytes_below zero = tt
bytes_below (suc n) = (omega arith, bytes_below n)

manifest-AllKept : AllKept manifest
manifest-AllKept = (
  record {
    path_ok = path_a-IsPath;
    length_ok = refl;
    bytes_ok = bytes_below 32;
    size_ok = omega arith;
  },
  tt,
)

comment_alone : parse (b'#' ∷ (10 ∷ (32 ∷ []))) ≡ err names_nothing
unfolding parse read_lines read_line split_lines trim trim_start trim_end
comment_alone = refl

short_delivery : check manifest path_a (replicate 32 7) 2 ≡ err (wrong_size 3)
unfolding check get compare_bytes
short_delivery = refl

parse-to_text_example : parse (to_text (λ p. p) manifest) ≡ ok manifest
parse-to_text_example = parse-to_text (λ p. p) manifest manifest-AllKept (refl, tt) (tt, tt) refl

parse_lem_example :
    AllKept manifest
    × IsSorted manifest
    × (is_empty manifest ≡ false)
    × (parse (to_text (λ p. p) manifest) ≡ ok manifest)
parse_lem_example =
    parse_lem (λ p. p) (to_text (λ p. p) manifest) manifest parse-to_text_example (refl, tt)
