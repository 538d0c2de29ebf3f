-- ===== src/Digest/Stream.antt =====
-- Hashing in pieces (digest.rs, `Sha256::update` and `finish`): what is fed, not how it is split,
-- decides the digest.
use mathlib.Core.List.{append_assoc}
use native.Mathlib.Decide.{dec_lt}
use web_tos.Prelude.{
  ℕ, zero, suc, ◌+◌, ◌-◌, ◌*◌, ◌/◌, ◌%◌, ◌^◌, ◌≤◌, ◌<◌, ◌≡◌, refl, ap, ap₂, sym, ◌∙◌, List, [], ◌∷◌,
  ◌++◌, arith, min, ltb, ltb→lt, Bool-cases, inl, inr, length, length-append, length-take,
  length-drop, take, drop, take_all, drop_all, take-append_add, drop-append_add, take-append_self,
  take-append_le, drop-append_le, append_nil, replicate, length-replicate,
}
use web_tos.Prelude.Bytes.{Bytes}
use web_tos.Digest.{
  Sha256, Words, compress, compress_blocks, copy_at, update_blocks, update, padding, finish,
  words_bytes, new, be_bytes,
}

-- Whole blocks go into the chaining state, the rest waits.
abbrev pub absorb : Words → Bytes → Words × Bytes
absorb s bytes = compress_blocks (length bytes / 64) s bytes

abbrev pub pending : Sha256 → Bytes
pending s = take s.buffered s.buffer

pub record IsValid (s : Sha256) : Type 0 where
  pub full : length s.buffer ≡ 64
  pub partial : s.buffered < 64
  pub bits_in : s.bits < 2 ^ 64

absorb_short : (s : Words) (bytes : Bytes) → length bytes < 64 → absorb s bytes ≡ (s, bytes)
unfolding compress_blocks
absorb_short s bytes h = let e : length bytes / 64 ≡ 0 = omega arith in rw e refl

absorb_step :
    (s : Words) (bytes : Bytes)
    → 64 ≤ length bytes
    → absorb s bytes ≡ absorb (compress s (take 64 bytes)) (drop 64 bytes)
unfolding compress_blocks
absorb_step s bytes h =
    let e : length bytes / 64 ≡ suc (length (drop 64 bytes) / 64) =
      omega (arith, length-drop 64 bytes) in
    rw e refl

absorb_fuel :
    (n : ℕ) (s : Words) (bytes more : Bytes)
    → length bytes < 64 * (n + 1)
    → absorb s (bytes ++ more) ≡ absorb (absorb s bytes).0 ((absorb s bytes).1 ++ more)
absorb_fuel zero s bytes more h = rw (absorb_short s bytes (omega arith)) refl
absorb_fuel (suc n) s bytes more h = elim (dec_lt (length bytes) 64) [
  | yes short ↦ rw (absorb_short s bytes short) refl
  | no long ↦
      let enough : 64 ≤ length bytes = omega arith in
      let whole : 64 ≤ length (bytes ++ more) = omega (arith, length-append bytes more) in
      rw
        (
          absorb_step s bytes enough,
          absorb_step s (bytes ++ more) whole,
          take-append_le bytes more 64 enough,
          drop-append_le bytes more 64 enough,
        )
        (absorb_fuel n (compress s (take 64 bytes)) (drop 64 bytes) more
          (omega (arith, length-drop 64 bytes)))
]

pub absorb-append :
    (s : Words) (bytes more : Bytes)
    → absorb s (bytes ++ more) ≡ absorb (absorb s bytes).0 ((absorb s bytes).1 ++ more)
absorb-append s bytes more = absorb_fuel (length bytes) s bytes more (omega arith)

length-absorb_fuel :
    (n : ℕ) (s : Words) (bytes : Bytes)
    → length bytes < 64 * (n + 1)
    → length (absorb s bytes).1 ≡ length bytes % 64
length-absorb_fuel zero s bytes h = rw (absorb_short s bytes (omega arith)) (omega arith)
length-absorb_fuel (suc n) s bytes h = elim (dec_lt (length bytes) 64) [
  | yes short ↦ rw (absorb_short s bytes short) (omega arith)
  | no long ↦ rw (absorb_step s bytes (omega arith)) (
      omega (
        arith,
        length-drop 64 bytes,
        length-absorb_fuel n (compress s (take 64 bytes)) (drop 64 bytes)
            (omega (arith, length-drop 64 bytes)),
      ))
]

pub length-absorb : (s : Words) (bytes : Bytes) → length (absorb s bytes).1 ≡ length bytes % 64
length-absorb s bytes = length-absorb_fuel (length bytes) s bytes (omega arith)

-- The buffer after a copy to its front, when no byte waited before.
update_blocks_lem :
    (s : Sha256) (bytes : Bytes)
    → ((update_blocks s bytes).state, pending (update_blocks s bytes)) ≡ absorb s.state bytes
unfolding update_blocks
update_blocks_lem s bytes =
    let r = absorb s.state bytes in
    ap (λ q. (r.0, q)) (take-append_self r.1 (drop (0 + length r.1) s.buffer))

update_blocks-IsValid :
    (s : Sha256) (bytes : Bytes)
    → length s.buffer ≡ 64
    → s.bits < 2 ^ 64
    → IsValid (update_blocks s bytes)
unfolding update_blocks
update_blocks-IsValid s bytes full small =
    let r = (absorb s.state bytes).1 in
    let short : length r < 64 = omega (arith, length-absorb s.state bytes) in
    record {
      full = omega (
        arith,
        length-append r (drop (0 + length r) s.buffer),
        length-drop (0 + length r) s.buffer,
      );
      partial = short;
      bits_in = small;
    }

module _ (s : Sha256) (bytes : Bytes) (v : IsValid s) where
  abbrev taken : ℕ
  taken = min (64 - s.buffered) (length bytes)

  abbrev counted : ℕ
  counted = (s.bits + length bytes * 8 % 2 ^ 64) % 2 ^ 64

  -- The state in which `update` goes on to whole blocks, with and without bytes that waited.
  abbrev flushed : Sha256
  flushed =
      let buffer = copy_at s.buffer s.buffered (take taken bytes) in
      record s { state = compress s.state buffer; buffer = buffer; buffered = 0; bits = counted }

  abbrev started : Sha256
  started = record s { bits = counted }

  -- What the first branch of `update` copies behind the bytes that wait.
  length-copied : length (copy_at s.buffer s.buffered (take taken bytes)) ≡ 64
  length-copied = omega (
    arith,
    v.full,
    v.partial,
    length-append (take s.buffered s.buffer)
        (take taken bytes ++ drop (s.buffered + length (take taken bytes)) s.buffer),
    length-append (take taken bytes) (drop (s.buffered + length (take taken bytes)) s.buffer),
    length-take s.buffered s.buffer,
    length-take taken bytes,
    length-drop (s.buffered + length (take taken bytes)) s.buffer,
  )

  length-pending : length (pending s) ≡ s.buffered
  length-pending = omega (arith, v.full, v.partial, length-take s.buffered s.buffer)

  -- A short piece only waits.
  pending_short :
      s.buffered + length bytes < 64
      → take (s.buffered + taken) (copy_at s.buffer s.buffered (take taken bytes))
        ≡ pending s ++ bytes
  pending_short h =
      let all : taken ≡ length bytes = omega arith in
      let rest = drop (s.buffered + length (take taken bytes)) s.buffer in
      take-append_add (pending s) (take taken bytes ++ rest) (s.buffered + taken) taken
        (omega (arith, length-pending))
      ∙ ap (λ q. pending s ++ q)
          (take-append_le (take taken bytes) rest taken (omega (arith, length-take taken bytes))
            ∙ (take_all taken (take taken bytes) (omega (arith, length-take taken bytes))
                ∙ take_all taken bytes (omega (arith, all))))

  -- A long one completes a block.
  block_long :
      64 ≤ s.buffered + length bytes
      → copy_at s.buffer s.buffered (take taken bytes) ≡ take 64 (pending s ++ bytes)
  block_long h =
      let most : s.buffered + taken ≡ 64 = omega (arith, v.partial) in
      let none_left : drop (s.buffered + length (take taken bytes)) s.buffer ≡ [] =
        drop_all (s.buffered + length (take taken bytes)) s.buffer
          (omega (arith, v.full, length-take taken bytes)) in
      ap (λ q. pending s ++ (take taken bytes ++ q)) none_left
      ∙ (ap (λ q. pending s ++ q) (append_nil (take taken bytes))
          ∙ sym (take-append_add (pending s) bytes 64 taken (omega (arith, length-pending, most))))

  rest_long : 64 ≤ s.buffered + length bytes → drop taken bytes ≡ drop 64 (pending s ++ bytes)
  rest_long h =
      sym (drop-append_add (pending s) bytes 64 taken (omega (arith, length-pending, v.partial)))

  -- A valid hasher absorbs what waits and then the new bytes.
  update_refines :
      ((update s bytes).state, pending (update s bytes)) ≡ absorb s.state (pending s ++ bytes)
  unfolding update
  update_refines = elim (Bool-cases (ltb 0 s.buffered)) [
    | inl some_wait ↦ elim (Bool-cases (ltb (s.buffered + taken) 64)) [
      | inl short ↦
          rw (some_wait, short)
            (ap (λ q. (s.state, q)) (pending_short (ground arith))
              ∙ sym (
                  absorb_short s.state (pending s ++ bytes)
                    (ground (arith, length-append (pending s) bytes, length-pending))))
      | inr long ↦
          rw (some_wait, long)
            (update_blocks_lem flushed (drop taken bytes)
              ∙ (ap (λ q. absorb (compress s.state q) (drop taken bytes))
                    (block_long (ground arith))
                  ∙ (ap (λ q. absorb (compress s.state (take 64 (pending s ++ bytes))) q)
                        (rest_long (ground arith))
                      ∙ sym (
                          absorb_step s.state (pending s ++ bytes)
                            (ground (arith, length-append (pending s) bytes, length-pending))))))
    ]
    | inr empty ↦
        let e : s.buffered ≡ 0 = ground arith in
        rw empty (
          update_blocks_lem started bytes
          ∙ ap (λ k. absorb s.state (take k s.buffer ++ bytes)) (sym e))
  ]

  update-IsValid : IsValid (update s bytes)
  unfolding update
  update-IsValid = elim (Bool-cases (ltb 0 s.buffered)) [
    | inl some_wait ↦ elim (Bool-cases (ltb (s.buffered + taken) 64)) [
      | inl short ↦
          rw (some_wait, short)
            (record { full = length-copied; partial = ltb→lt _ _ short; bits_in = omega arith })
      | inr long ↦
          rw (some_wait, long)
            (update_blocks-IsValid flushed (drop taken bytes) length-copied (omega arith))
    ]
    | inr empty ↦ rw empty (update_blocks-IsValid started bytes v.full (omega arith))
  ]

  bits-update : (update s bytes).bits ≡ (s.bits + length bytes * 8 % 2 ^ 64) % 2 ^ 64
  unfolding update
  bits-update = ground arith

-- The digest that `finish` gives, from what a hasher has absorbed.
abbrev digest_of : Words × Bytes → ℕ → ℕ → Bytes
digest_of r n bits = words_bytes (absorb r.0 (r.1 ++ padding n bits)).0

finish_lem :
    (s : Sha256) → IsValid s → finish s ≡ digest_of (s.state, pending s) (length (pending s)) s.bits
unfolding finish
finish_lem s v =
    ap (λ r. words_bytes r.0) (update_refines s (padding s.buffered s.bits) v)
    ∙ ap (λ n. digest_of (s.state, pending s) n s.bits) (sym (length-pending s [] v))

abbrev view : Sha256 → Words × Bytes
view s = (s.state, pending s)

-- Two valid hashers that have absorbed the same give the same digest.
finish_of_view :
    (s t : Sha256) → IsValid s → IsValid t → view s ≡ view t → s.bits ≡ t.bits → finish s ≡ finish t
finish_of_view s t vs vt e b =
    finish_lem s vs
    ∙ (ap₂ (λ (r : Words × Bytes) (n : ℕ). digest_of r (length r.1) n) e b ∙ sym (finish_lem t vt))

view-update_append :
    (s : Sha256) (xs ys : Bytes)
    → IsValid s
    → view (update (update s xs) ys) ≡ view (update s (xs ++ ys))
view-update_append s xs ys v =
    update_refines (update s xs) ys (update-IsValid s xs v)
    ∙ (ap (λ q. absorb q.0 (q.1 ++ ys)) (update_refines s xs v)
        ∙ (sym (absorb-append s.state (pending s ++ xs) ys)
            ∙ (ap (λ q. absorb s.state q) (append_assoc (pending s) xs ys)
                ∙ sym (update_refines s (xs ++ ys) v))))

bits-update_append :
    (s : Sha256) (xs ys : Bytes)
    → IsValid s
    → (update (update s xs) ys).bits ≡ (update s (xs ++ ys)).bits
bits-update_append s xs ys v = omega (
  arith,
  bits-update s xs v,
  bits-update (update s xs) ys (update-IsValid s xs v),
  bits-update s (xs ++ ys) v,
  length-append xs ys,
)

-- A valid hasher, whatever it has absorbed, gives the same digest if it is fed two pieces one
-- after the other as if it is fed their concatenation.
pub finish-update_append :
    (s : Sha256) (xs ys : Bytes)
    → IsValid s
    → finish (update (update s xs) ys) ≡ finish (update s (xs ++ ys))
finish-update_append s xs ys v =
    let vx = update-IsValid s xs v in
    finish_of_view (update (update s xs) ys) (update s (xs ++ ys))
      (update-IsValid (update s xs) ys vx) (update-IsValid s (xs ++ ys) v)
      (view-update_append s xs ys v) (bits-update_append s xs ys v)

pub IsValid-new : IsValid new
unfolding new
IsValid-new = record { full = refl; partial = omega arith; bits_in = omega arith }

-- `update` applied to each piece in order.
unfoldable pub update_all : Sha256 → List Bytes → Sha256
update_all s [] = s
update_all s (piece ∷ pieces) = update_all (update s piece) pieces

abbrev pub concat : List Bytes → Bytes
concat [] = []
concat (piece ∷ pieces) = piece ++ concat pieces

finish-update_nil : (s : Sha256) → IsValid s → finish s ≡ finish (update s [])
finish-update_nil s v =
    finish_of_view s (update s []) v (update-IsValid s [] v)
      (sym (
        update_refines s [] v
        ∙ (ap (λ q. absorb s.state q) (append_nil (pending s))
            ∙ absorb_short s.state (pending s) (omega (arith, length-pending s [] v)))))
      (omega (arith, bits-update s [] v))

-- A valid hasher that is fed an image piece by piece gives the digest that it gives for the whole
-- image at once, however the image is cut.
pub finish-update_all :
    (s : Sha256) (pieces : List Bytes)
    → IsValid s
    → finish (update_all s pieces) ≡ finish (update s (concat pieces))
unfolding update_all
finish-update_all s [] v = finish-update_nil s v
finish-update_all s (piece ∷ pieces) v =
    finish-update_all (update s piece) pieces (update-IsValid s piece v)
    ∙ finish-update_append s piece (concat pieces) v

length-be_bytes : (w n : ℕ) → length (be_bytes w n) ≡ w
unfolding be_bytes
length-be_bytes zero n = refl
length-be_bytes (suc w) n = ap suc (length-be_bytes w n)

-- The padding is at most 72 bytes, the length of the array that holds it, and it completes the
-- last block: a valid hasher has no byte waiting after `finish` has fed it.
pub update-padding :
    (s : Sha256)
    → IsValid s
    → ((update s (padding s.buffered s.bits)).buffered ≡ 0)
      × (length (padding s.buffered s.bits) ≤ 72)
unfolding padding
update-padding s v =
    let zeros = (2 ^ 32 + 56 - (s.buffered + 1)) % 2 ^ 32 % 64 in
    let pad = 0x80 ∷ (replicate zeros 0 ++ be_bytes 8 s.bits) in
    let size : length pad ≡ zeros + 9 = omega (
      arith,
      length-append (replicate zeros 0) (be_bytes 8 s.bits),
      length-replicate {A = ℕ} zeros 0,
      length-be_bytes 8 s.bits,
    ) in
    (
      omega (
        arith,
        size,
        length-pending (update s pad) [] (update-IsValid s pad v),
        length-pending s [] v,
        ap (λ (q : Words × Bytes). length q.1) (update_refines s pad v),
        length-absorb s.state (pending s ++ pad),
        length-append (pending s) pad,
      ),
      omega (arith, size),
    )
