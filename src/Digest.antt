-- ===== src/Digest.antt =====
-- crates/linux-compat/src/digest.rs: the streaming SHA-256 that commits to the bytes of an image.
-- A `u32` is a number below 2 ^ 32, arrays are lists of their fixed length.
pub mod Hex
pub mod Stream
mod Tests
use Prim.Native.Nat.{bit_and, bit_or, bit_xor}
use web_tos.Prelude.{
  ℕ, zero, suc, ◌+◌, ◌-◌, ◌*◌, ◌/◌, ◌%◌, ◌^◌, List, [], ◌∷◌, ◌++◌, min, Bool, if◌then◌else◌, ltb,
  length, get_or, set, take, drop, replicate,
}
use web_tos.Prelude.Bytes.{Bytes}

abbrev pub round_constants : List ℕ
round_constants =
    0x428a2f98 ∷ 0x71374491 ∷ 0xb5c0fbcf ∷ 0xe9b5dba5 ∷ 0x3956c25b ∷ 0x59f111f1 ∷ 0x923f82a4
    ∷ 0xab1c5ed5 ∷ 0xd807aa98 ∷ 0x12835b01 ∷ 0x243185be ∷ 0x550c7dc3 ∷ 0x72be5d74 ∷ 0x80deb1fe
    ∷ 0x9bdc06a7 ∷ 0xc19bf174 ∷ 0xe49b69c1 ∷ 0xefbe4786 ∷ 0x0fc19dc6 ∷ 0x240ca1cc ∷ 0x2de92c6f
    ∷ 0x4a7484aa ∷ 0x5cb0a9dc ∷ 0x76f988da ∷ 0x983e5152 ∷ 0xa831c66d ∷ 0xb00327c8 ∷ 0xbf597fc7
    ∷ 0xc6e00bf3 ∷ 0xd5a79147 ∷ 0x06ca6351 ∷ 0x14292967 ∷ 0x27b70a85 ∷ 0x2e1b2138 ∷ 0x4d2c6dfc
    ∷ 0x53380d13 ∷ 0x650a7354 ∷ 0x766a0abb ∷ 0x81c2c92e ∷ 0x92722c85 ∷ 0xa2bfe8a1 ∷ 0xa81a664b
    ∷ 0xc24b8b70 ∷ 0xc76c51a3 ∷ 0xd192e819 ∷ 0xd6990624 ∷ 0xf40e3585 ∷ 0x106aa070 ∷ 0x19a4c116
    ∷ 0x1e376c08 ∷ 0x2748774c ∷ 0x34b0bcb5 ∷ 0x391c0cb3 ∷ 0x4ed8aa4a ∷ 0x5b9cca4f ∷ 0x682e6ff3
    ∷ 0x748f82ee ∷ 0x78a5636f ∷ 0x84c87814 ∷ 0x8cc70208 ∷ 0x90befffa ∷ 0xa4506ceb ∷ 0xbef9a3f7
    ∷ 0xc67178f2 ∷ []

-- The eight words of the chaining state.
pub record Words : Type 0 where
  pub a : ℕ
  pub b : ℕ
  pub c : ℕ
  pub d : ℕ
  pub e : ℕ
  pub f : ℕ
  pub g : ℕ
  pub h : ℕ

pub record Sha256 : Type 0 where
  pub state : Words
  pub buffer : Bytes
  pub buffered : ℕ
  pub bits : ℕ

abbrev pub initial : Words
initial = record {
  a = 0x6a09e667;
  b = 0xbb67ae85;
  c = 0x3c6ef372;
  d = 0xa54ff53a;
  e = 0x510e527f;
  f = 0x9b05688c;
  g = 0x1f83d9ab;
  h = 0x5be0cd19;
}

unfoldable pub new : Sha256
new = record { state = initial; buffer = replicate 64 0; buffered = 0; bits = 0 }

-- `u32::rotate_right`, `wrapping_add`, `!`
rotate_right : ℕ → ℕ → ℕ
rotate_right x n = bit_or (x / 2 ^ n) (x * 2 ^ (32 - n) % 2 ^ 32)

abbrev add32 : ℕ → ℕ → ℕ
add32 x y = (x + y) % 2 ^ 32

abbrev not32 : ℕ → ℕ
not32 x = 2 ^ 32 - 1 - x

-- `u32::from_be_bytes`, `to_be_bytes`
be_word : Bytes → ℕ → ℕ
be_word block i =
    get_or block (i * 4) 0 * 2 ^ 24
    + get_or block (i * 4 + 1) 0 * 2 ^ 16
    + get_or block (i * 4 + 2) 0 * 2 ^ 8
    + get_or block (i * 4 + 3) 0

unfoldable pub be_bytes : ℕ → ℕ → Bytes
be_bytes zero v = []
be_bytes (suc w) v = (v / 256 ^ w % 256) ∷ be_bytes w v

-- The first loop of `compress`: sixteen big-endian words from the block.
load_words : ℕ → ℕ → Bytes → List ℕ → List ℕ
load_words zero i block w = w
load_words (suc n) i block w = load_words n (i + 1) block (set w i (be_word block i))

-- One round of the second loop: `w[i]` from earlier words.
schedule_word : List ℕ → ℕ → ℕ
unfolding rotate_right
schedule_word w i =
    let x = get_or w (i - 15) 0 in
    let y = get_or w (i - 2) 0 in
    let s0 = bit_xor (bit_xor (rotate_right x 7) (rotate_right x 18)) (x / 2 ^ 3) in
    let s1 = bit_xor (bit_xor (rotate_right y 17) (rotate_right y 19)) (y / 2 ^ 10) in
    add32 (add32 (add32 (get_or w (i - 16) 0) s0) (get_or w (i - 7) 0)) s1

extend_words : ℕ → ℕ → List ℕ → List ℕ
extend_words zero i w = w
extend_words (suc n) i w = extend_words n (i + 1) (set w i (schedule_word w i))

-- One round of the third loop.
round : ℕ → ℕ → Words → Words
unfolding rotate_right
round k w v =
    let s1 = bit_xor (bit_xor (rotate_right v.e 6) (rotate_right v.e 11)) (rotate_right v.e 25) in
    let ch = bit_xor (bit_and v.e v.f) (bit_and (not32 v.e) v.g) in
    let t1 = add32 (add32 (add32 (add32 v.h s1) ch) k) w in
    let s0 = bit_xor (bit_xor (rotate_right v.a 2) (rotate_right v.a 13)) (rotate_right v.a 22) in
    let maj = bit_xor (bit_xor (bit_and v.a v.b) (bit_and v.a v.c)) (bit_and v.b v.c) in
    let t2 = add32 s0 maj in
    record {
      a = add32 t1 t2;
      b = v.a;
      c = v.b;
      d = v.c;
      e = add32 v.d t1;
      f = v.e;
      g = v.f;
      h = v.g;
    }

rounds : List ℕ → List ℕ → Words → Words
rounds [] w v = v
rounds (k ∷ ks) [] v = v
rounds (k ∷ ks) (x ∷ w) v = rounds ks w (round k x v)

-- `Sha256::compress`
unfoldable pub compress : Words → Bytes → Words
unfolding load_words be_word extend_words schedule_word rounds round
compress s block =
    let w = extend_words 48 16 (load_words 16 0 block (replicate 64 0)) in
    let v = rounds round_constants w s in
    record {
      a = add32 s.a v.a;
      b = add32 s.b v.b;
      c = add32 s.c v.c;
      d = add32 s.d v.d;
      e = add32 s.e v.e;
      f = add32 s.f v.f;
      g = add32 s.g v.g;
      h = add32 s.h v.h;
    }

-- `buf[at..at + len].copy_from_slice(src)`
abbrev pub copy_at : Bytes → ℕ → Bytes → Bytes
copy_at buf at src = take at buf ++ (src ++ drop (at + length src) buf)

-- `for block in blocks { self.compress(block) }` over the `n` whole blocks of `as_chunks::<64>`,
-- with the rest.
unfoldable pub compress_blocks : ℕ → Words → Bytes → Words × Bytes
compress_blocks zero s bytes = (s, bytes)
compress_blocks (suc n) s bytes = compress_blocks n (compress s (take 64 bytes)) (drop 64 bytes)

-- The end of `update`, once the buffer is empty.
unfoldable pub update_blocks : Sha256 → Bytes → Sha256
unfolding compress_blocks
update_blocks s bytes =
    let (state, rest) = compress_blocks (length bytes / 64) s.state bytes in
    record s { state = state; buffer = copy_at s.buffer 0 rest; buffered = length rest }

-- `Sha256::update`
unfoldable pub update : Sha256 → Bytes → Sha256
unfolding update_blocks
update s bytes =
    let bits = (s.bits + length bytes * 8 % 2 ^ 64) % 2 ^ 64 in
    let taken = min (64 - s.buffered) (length bytes) in
    let buffer = copy_at s.buffer s.buffered (take taken bytes) in
    let filled = record s { bits = bits; buffer = buffer; buffered = s.buffered + taken } in
    if ltb 0 s.buffered
    then (if ltb filled.buffered 64
        then filled
        else update_blocks (record filled { state = compress s.state buffer; buffered = 0 })
            (drop taken bytes))
    else update_blocks (record s { bits = bits }) bytes

-- The padding that `finish` feeds through `update`: a one bit, zeros and the length in bits.
unfoldable pub padding : ℕ → ℕ → Bytes
unfolding be_bytes
padding buffered bits =
    let zeros = (2 ^ 32 + 56 - (buffered + 1)) % 2 ^ 32 % 64 in
    0x80 ∷ (replicate zeros 0 ++ be_bytes 8 bits)

unfoldable pub words_bytes : Words → Bytes
unfolding be_bytes
words_bytes v =
    be_bytes 4 v.a
    ++ (be_bytes 4 v.b
        ++ (be_bytes 4 v.c
            ++ (be_bytes 4 v.d
                ++ (be_bytes 4 v.e ++ (be_bytes 4 v.f ++ (be_bytes 4 v.g ++ be_bytes 4 v.h))))))

-- `Sha256::finish`
unfoldable pub finish : Sha256 → Bytes
unfolding update padding words_bytes
finish s = words_bytes (update s (padding s.buffered s.bits)).state

-- `sha256`
unfoldable pub sha256 : Bytes → Bytes
unfolding finish update new
sha256 bytes = finish (update new bytes)
