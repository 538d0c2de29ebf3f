-- ===== src/LiftCache/RoundTrip.antt =====
-- `serialize` and `parse` of liftcache.rs: the header that was written is read back, and any bytes
-- that are accepted begin with the header they are read as.
use web_tos.Prelude.{
  ℕ, ◌↔◌, zero, suc, ◌*◌, ◌^◌, ◌<◌, ◌≡◌, refl, ap, ◌∙◌, List, [], ◌∷◌, ◌++◌, Bool, true, false, not,
  arith, ◌==◌, length, length-append, All, All-append_right, ok, sym, subst,
}
use mathlib.Core.List.{append_assoc}
use web_tos.Prelude.Exec.{fail_if, ◌>>◌}
use web_tos.Prelude.Bytes.{Bytes, bytes_eq, bytes_eq_iff, compare_bytes, le_bytes}
use web_tos.Prelude.Reader.{
  steps, ok-bind, ok-pure, ok-take_or, ok-number_or, ReaderOf, take_or, number_or, Reads,
  Reads-bind, Reads-map, Reads-fail_if, Reads-pure, Reads-take_or, Reads-number_or,
}
use web_tos.LiftCache.{
  LiftCacheHeader, HeaderError, truncated, not_a_cache, other_version, too_many_images, cache_magic,
  format_version, digests_image, serialize, read_digests, claims_too_many, check_count, read_header,
  parse,
}

-- A digest has 32 bytes.
abbrev pub IsDigest : Bytes → Type 0
IsDigest digest = length digest ≡ 32

-- A header that the format has room for: the digests have to fit in an address space of 32 bits.
pub record IsStorable (h : LiftCacheHeader) : Type 0 where
  pub spec_ok : IsDigest h.spec_fingerprint
  pub digests_ok : All IsDigest h.image_digests
  pub count_ok : length h.image_digests * 32 < 2 ^ 32

Reads-read_digests :
    (digests : List Bytes)
    → All IsDigest digests
    → Reads (read_digests (length digests)) (digests_image digests) digests
unfolding read_digests digests_image
Reads-read_digests [] h = Reads-pure []
Reads-read_digests (digest ∷ digests) h =
    Reads-bind _ (Reads-take_or truncated 32 digest h.0)
      (Reads-map _ (Reads-read_digests digests h.1) (Reads-pure (digest ∷ digests)))

length-digests_image :
    (digests : List Bytes)
    → All IsDigest digests
    → length (digests_image digests) ≡ length digests * 32
unfolding digests_image
length-digests_image [] h = refl
length-digests_image (digest ∷ digests) h =
    omega
      (arith, length-append digest (digests_image digests), h.0, length-digests_image digests h.1)

-- The check of the count passes where the digests are there.
Reads-check_count :
    {A : Type 0} (count : ℕ) (r : ReaderOf HeaderError A) (xs : Bytes) (a : A)
    → count * 32 < 2 ^ 32
    → length xs ≡ count * 32
    → Reads r xs a
    → Reads (check_count count >> r) xs a
unfolding check_count
Reads-check_count count r xs a small size next = record {
  at_front = λ rest.
      let passes : claims_too_many count (xs ++ rest) ≡ false =
        ground (arith, small, size, length-append xs rest) in
      rw (check_count, passes) (next.at_front rest);
}

magic_ok : not (bytes_eq cache_magic cache_magic) ≡ false
unfolding compare_bytes
magic_ok = refl

Reads-read_header : (h : LiftCacheHeader) → IsStorable h → Reads read_header (serialize h) h
unfolding read_header serialize
Reads-read_header h w =
    let count = length h.image_digests in
    let size = length-digests_image h.image_digests w.digests_ok in
    Reads-bind _ (Reads-take_or truncated 4 cache_magic refl) (
      Reads-fail_if not_a_cache magic_ok (
        Reads-bind _ (Reads-number_or truncated 4 format_version (omega arith)) (
          Reads-fail_if (other_version format_version) refl (
            Reads-bind _ (Reads-take_or truncated 32 h.spec_fingerprint w.spec_ok) (
              Reads-bind _ (Reads-number_or truncated 4 count (omega (arith, w.count_ok))) (
                Reads-check_count count _ (digests_image h.image_digests) h w.count_ok size (
                  Reads-map _ (Reads-read_digests h.image_digests w.digests_ok)
                    (Reads-pure h))))))))

parse-serialize :
    (h : LiftCacheHeader) (body : Bytes) → IsStorable h → parse (serialize h ++ body) ≡ ok h
unfolding parse
parse-serialize h body w = ap (λ p. p.0) ((Reads-read_header h w).at_front body)

fail_if-ok :
    (test : Bool) (e : HeaderError) (s : Bytes) {u : Unit {0}} {rest : Bytes}
    → fail_if test e s ≡ (ok u, rest)
    → (test ≡ false) × (s ≡ rest)
fail_if-ok true e s h = absurd cc
fail_if-ok false e s h = (refl, cc)

read_digests-ok :
    (n : ℕ) (s : Bytes) {digests : List Bytes} {rest : Bytes}
    → read_digests n s ≡ (ok digests, rest)
    → (s ≡ digests_image digests ++ rest) × (length digests ≡ n) × All IsDigest digests
unfolding read_digests digests_image
read_digests-ok zero s {digests} {rest} h =
    let bare : [] ≡ digests = cc in
    let same : s ≡ rest = cc in
    subst (λ d. (s ≡ digests_image d ++ rest) × (length d ≡ 0) × All IsDigest d) bare
      (same, refl, tt)
read_digests-ok (suc n) s {digests} {rest} h = elim (ok-bind (take_or truncated 32) _ s h) [
  | steps d mid first more ↦ elim (ok-bind (read_digests n) _ mid more) [
    | steps ds end second last ↦
        let (cut, size) = ok-take_or truncated 32 s first in
        let (tail, count, sizes) = read_digests-ok n mid second in
        let (whole, same) = ok-pure (d ∷ ds) end last in
        let text : s ≡ digests_image (d ∷ ds) ++ end =
          cut ∙ ap (λ x. d ++ x) tail ∙ sym (append_assoc d (digests_image ds) end) in
        subst (λ l. (s ≡ digests_image l ++ rest) × (length l ≡ suc n) × All IsDigest l) whole
          (text ∙ ap (λ x. digests_image (d ∷ ds) ++ x) same, ap suc count, (size, sizes))
  ]
]

-- What an accepted text tells about the header.
abbrev pub Accepted : Bytes → LiftCacheHeader → Type 0
Accepted bytes h = IsStorable h × ((body : Bytes) × (bytes ≡ serialize h ++ body))

check_count-ok :
    (count : ℕ) (s : Bytes) {u : Unit {0}} {rest : Bytes}
    → check_count count s ≡ (ok u, rest)
    → (count * 32 < 2 ^ 32) × (s ≡ rest)
unfolding check_count
check_count-ok count s h =
    let (fits, same) = fail_if-ok (claims_too_many count s) too_many_images s h in
    (ground (arith, fits), same)

-- The parts of a text that `read_header` accepts, put together.
serialize-Accepted :
    (bytes magic spec body : Bytes) (version count : ℕ) (digests : List Bytes)
    → magic ≡ cache_magic
    → version ≡ format_version
    → IsDigest spec
    → All IsDigest digests
    → length digests ≡ count
    → count * 32 < 2 ^ 32
    → bytes
      ≡ magic
        ++ (le_bytes 4 version ++ (spec ++ (le_bytes 4 count ++ (digests_image digests ++ body))))
    → Accepted bytes (record { spec_fingerprint = spec; image_digests = digests })
unfolding serialize
serialize-Accepted bytes magic spec body version count digests m v s d n small text =
    let h : LiftCacheHeader = record { spec_fingerprint = spec; image_digests = digests } in
    let inner = append_assoc (le_bytes 4 count) (digests_image digests) body in
    let middle = append_assoc spec (le_bytes 4 count ++ digests_image digests) body in
    let outer =
      append_assoc (le_bytes 4 version) (spec ++ (le_bytes 4 count ++ digests_image digests))
        body in
    let whole =
      append_assoc magic
        (le_bytes 4 version ++ (spec ++ (le_bytes 4 count ++ digests_image digests))) body in
    let same : magic
          ++ (le_bytes 4 version ++ (spec ++ (le_bytes 4 count ++ digests_image digests)))
        ≡ serialize h =
      rw (m, v, n) refl in
    (
      record { spec_ok = s; digests_ok = d; count_ok = rw n small },
      (body, text ∙ (rw (whole, outer, middle, inner) refl ∙ ap (λ x. x ++ body) same)),
    )

below_rest :
    (bytes piece rest : Bytes)
    → bytes ≡ piece ++ rest
    → All (λ b. b < 256) bytes
    → All (λ b. b < 256) rest
below_rest bytes piece rest cut small =
    All-append_right (λ b. b < 256) piece rest (subst (λ x. All (λ b. b < 256) x) cut small)

read_header-Accepted :
    (bytes end : Bytes) (h : LiftCacheHeader)
    → All (λ b. b < 256) bytes
    → read_header bytes ≡ (ok h, end)
    → Accepted bytes h
unfolding read_header
read_header-Accepted bytes end h small run = elim (ok-bind (take_or truncated 4) _ bytes run) [
  | steps magic s1 t1 r1 ↦
      elim (ok-bind (fail_if (not (bytes_eq magic cache_magic)) not_a_cache) _ s1 r1) [
        | steps _ s2 t2 r2 ↦ elim (ok-bind (number_or truncated 4) _ s2 r2) [
          | steps version s3 t3 r3 ↦
              elim (ok-bind (fail_if (not (version == format_version)) (other_version version)) _ s3
                r3) [
                  | steps _ s4 t4 r4 ↦ elim (ok-bind (take_or truncated 32) _ s4 r4) [
                    | steps spec s5 t5 r5 ↦ elim (ok-bind (number_or truncated 4) _ s5 r5) [
                      | steps count s6 t6 r6 ↦ elim (ok-bind (check_count count) _ s6 r6) [
                        | steps _ s7 t7 r7 ↦ elim (ok-bind (read_digests count) _ s7 r7) [
                          | steps digests s8 t8 r8 ↦
                              let (c1, n1) = ok-take_or truncated 4 bytes t1 in
                              let (b2, c2) =
                                fail_if-ok (not (bytes_eq magic cache_magic)) not_a_cache s1 t2 in
                              let small2 =
                                subst (λ x. All (λ b. b < 256) x) c2
                                  (below_rest bytes magic s1 c1 small) in
                              let c3 = ok-number_or truncated 4 s2 small2 t3 in
                              let (b4, c4) =
                                fail_if-ok (not (version == format_version)) (other_version version)
                                  s3 t4 in
                              let small4 =
                                subst (λ x. All (λ b. b < 256) x) c4
                                  (below_rest s2 (le_bytes 4 version) s3 c3 small2) in
                              let (c5, n5) = ok-take_or truncated 32 s4 t5 in
                              let c6 =
                                ok-number_or truncated 4 s5 (below_rest s4 spec s5 c5 small4) t6 in
                              let (fits, c7) = check_count-ok count s6 t7 in
                              let (c8, n8, d8) = read_digests-ok count s7 t8 in
                              let is_magic : magic ≡ cache_magic =
                                (bytes_eq_iff magic cache_magic).0 (ground (arith, b2)) in
                              let is_version : version ≡ format_version = ground (arith, b4) in
                              let (same, _) = ok-pure _ s8 r8 in
                              subst (λ x. Accepted bytes x) same
                                (serialize-Accepted bytes magic spec s8 version count digests
                                  is_magic is_version n5 d8 n8 fits
                                  (c1
                                    ∙ ap (λ x. magic ++ x)
                                        (c2
                                          ∙ c3
                                          ∙ ap (λ x. le_bytes 4 version ++ x)
                                              (c4
                                                ∙ c5
                                                ∙ ap (λ x. spec ++ x)
                                                    (c6
                                                      ∙ ap (λ x. le_bytes 4 count ++ x)
                                                          (c7 ∙ c8))))))
                        ]
                      ]
                    ]
                  ]
                ]
        ]
      ]
]

-- Bytes are read as a header exactly if the header fits the format and they begin with it as it is
-- written, whatever body follows. So a header is read back, and a truncated text, a count that is
-- too long or another version is never taken for one.
pub parse-iff-Accepted :
    (bytes : Bytes) (h : LiftCacheHeader)
    → All (λ b. b < 256) bytes
    → (parse bytes ≡ ok h) ↔ Accepted bytes h
unfolding parse
parse-iff-Accepted bytes h small = (
  λ e.
      let run : read_header bytes ≡ (ok h, (read_header bytes).1) =
        ap (λ o. (o, (read_header bytes).1)) e in
      read_header-Accepted bytes (read_header bytes).1 h small run,
  λ a. rw a.1.1 (parse-serialize h a.1.0 a.0),
)
