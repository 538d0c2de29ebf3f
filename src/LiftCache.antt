-- ===== src/LiftCache.antt =====
-- crates/linux-compat/src/liftcache.rs: the header that keys a persisted lift cache to the
-- specification and the images it was made under.
pub mod RoundTrip
mod Tests
use web_tos.Prelude.{
  ℕ, zero, suc, ◌*◌, ◌^◌, List, [], ◌∷◌, ◌++◌, Bool, true, false, not, ◌||◌, Option, if◌then◌else◌,
  ltb, ◌==◌, leb, length, any, Result, ok, err,
}
use web_tos.Prelude.Exec.{Exec, pure, reads, fail_if, ◌>>=◌, ◌>>◌}
use web_tos.Prelude.Bytes.{Bytes, bytes_eq, le_bytes}
use web_tos.Prelude.Reader.{ReaderOf, take_or, number_or}
use web_tos.Digest.Hex.{hex, from_hex}

-- `MAGIC`, `FORMAT_VERSION`
abbrev pub cache_magic : Bytes
cache_magic = b'W' ∷ b'T' ∷ b'L' ∷ b'C' ∷ []

abbrev pub format_version : ℕ
format_version = 1

pub record LiftCacheHeader : Type 0 where
  pub spec_fingerprint : Bytes
  pub image_digests : List Bytes

-- `serialize`
unfoldable pub digests_image : List Bytes → Bytes
digests_image [] = []
digests_image (digest ∷ digests) = digest ++ digests_image digests

unfoldable pub serialize : LiftCacheHeader → Bytes
serialize h =
    cache_magic
    ++ (le_bytes 4 format_version
        ++ (h.spec_fingerprint
            ++ (le_bytes 4 (length h.image_digests) ++ digests_image h.image_digests)))

-- The messages of `parse` and `Cursor`.
pub data HeaderError : Type 0 where
  truncated not_a_cache too_many_images : HeaderError
  other_version : ℕ → HeaderError

-- `Cursor::take`, `Cursor::u32`
abbrev pub next_bytes : ℕ → ReaderOf HeaderError Bytes
next_bytes n = take_or truncated n

abbrev pub next_u32 : ReaderOf HeaderError ℕ
next_u32 = number_or truncated 4

-- The loop over the digests.
unfoldable pub read_digests : ℕ → ReaderOf HeaderError (List Bytes)
read_digests zero = pure []
read_digests (suc left) = do
  digest ← next_bytes 32
  digests ← read_digests left
  pure (digest ∷ digests)

-- `count.checked_mul(32).map(|n| n > remaining).unwrap_or(true)` on a `usize` of 32 bits
abbrev pub claims_too_many : ℕ → Bytes → Bool
claims_too_many count rest = leb (2 ^ 32) (count * 32) || ltb (length rest) (count * 32)

-- The count has to fit in the bytes that are left.
unfoldable pub check_count : ℕ → ReaderOf HeaderError (Unit {0})
check_count count rest = fail_if (claims_too_many count rest) too_many_images rest

unfoldable pub read_header : ReaderOf HeaderError LiftCacheHeader
read_header = do
  magic ← next_bytes 4
  fail_if (not (bytes_eq magic cache_magic)) not_a_cache
  version ← next_u32
  fail_if (not (version == format_version)) (other_version version)
  spec_fingerprint ← next_bytes 32
  count ← next_u32
  check_count count
  image_digests ← read_digests count
  pure (record { spec_fingerprint = spec_fingerprint; image_digests = image_digests })

-- `parse`
unfoldable pub parse : Bytes → Result HeaderError LiftCacheHeader
unfolding read_header
parse bytes = (read_header bytes).0

-- The message of `validate_spec` names the two specifications.
unfoldable pub validate_spec : LiftCacheHeader → Bytes → Result (Bytes × Bytes) (Unit {0})
validate_spec h current =
    if not (bytes_eq h.spec_fingerprint current)
    then err (hex h.spec_fingerprint, hex current)
    else ok tt

-- `covers_image`
unfoldable pub covers_image : LiftCacheHeader → Bytes → Bool
covers_image h digest = any (λ d. bytes_eq d digest) h.image_digests

abbrev pub fingerprint_hex : Bytes → Bytes
fingerprint_hex fingerprint = hex fingerprint

abbrev pub fingerprint_from_hex : Bytes → Option Bytes
fingerprint_from_hex text = from_hex text
