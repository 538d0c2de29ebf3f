-- ===== src/LiftCache/Tests.antt =====
-- The theorems about the header of a lift cache at concrete inputs: one image.
use web_tos.Prelude.{
  ℕ, ◌↔◌, zero, suc, ◌<◌, ◌≡◌, refl, [], ◌∷◌, ◌++◌, arith, replicate, All, ok, err,
}
use web_tos.Prelude.Bytes.{Bytes, compare_bytes, from_le_bytes}
use web_tos.Prelude.Reader.{take_or, number_or}
use web_tos.LiftCache.{
  LiftCacheHeader, too_many_images, parse, read_header, read_digests, check_count, cache_magic,
}
use web_tos.LiftCache.RoundTrip.{Accepted, parse-iff-Accepted}

abbrev header : LiftCacheHeader
header = record { spec_fingerprint = replicate 32 1; image_digests = replicate 32 2 ∷ [] }

abbrev two_claimed : Bytes
two_claimed = cache_magic ++ (1 ∷ 0 ∷ 0 ∷ 0 ∷ (replicate 32 1 ++ (2 ∷ 0 ∷ 0 ∷ 0 ∷ replicate 32 2)))

longer_count : parse two_claimed ≡ err too_many_images
unfolding parse read_header take_or number_or check_count compare_bytes from_le_bytes
longer_count = refl

abbrev one_claimed : Bytes
one_claimed =
    cache_magic
    ++ (1 ∷ 0 ∷ 0 ∷ 0 ∷ (replicate 32 1 ++ (1 ∷ 0 ∷ 0 ∷ 0 ∷ (replicate 32 2 ++ (9 ∷ [])))))

one_image : parse one_claimed ≡ ok header
unfolding parse read_header take_or number_or check_count read_digests compare_bytes from_le_bytes
one_image = refl

below_256 :
    (n b : ℕ) (rest : Bytes)
    → b < 256
    → All (λ c. c < 256) rest
    → All (λ c. c < 256) (replicate n b ++ rest)
below_256 zero b rest h r = r
below_256 (suc n) b rest h r = (h, below_256 n b rest h r)

one_claimed-small : All (λ c. c < 256) one_claimed
one_claimed-small = (
  omega arith,
  (
    omega arith,
    (
      omega arith,
      (
        omega arith,
        (
          omega arith,
          (
            omega arith,
            (
              omega arith,
              (
                omega arith,
                below_256 32 1 (1 ∷ 0 ∷ 0 ∷ 0 ∷ (replicate 32 2 ++ (9 ∷ []))) (omega arith) (
                  omega arith,
                  (
                    omega arith,
                    (
                      omega arith,
                      (omega arith, below_256 32 2 (9 ∷ []) (omega arith) (omega arith, tt)),
                    ),
                  ),
                ),
              ),
            ),
          ),
        ),
      ),
    ),
  ),
)

parse-iff-Accepted_example : (parse one_claimed ≡ ok header) ↔ Accepted one_claimed header
parse-iff-Accepted_example = parse-iff-Accepted one_claimed header one_claimed-small
