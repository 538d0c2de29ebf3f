-- ===== src/Chunk/Layout.antt =====
-- What `ChunkedFile::new` accepts (chunk.rs), and where `chunk_at` finds a byte.
use native.Mathlib.Nat.{div-add-mod, mod-lt, div-lt_iff_lt-mul, div-mul-le_self, lt-div-mul-add}
use native.Mathlib.Decide.{dec_lt}
use web_tos.Prelude.{
  ℕ, suc, ◌+◌, ◌*◌, ◌/◌, ◌%◌, ◌^◌, ◌≤◌, ◌<◌, ◌≡◌, refl, List, [], ◌∷◌, min, arith, true, false,
  Bool-cases, inl, inr, some, leb, ◌==◌, length, get_elem?, is_empty, get_elem?-lt_length, ok,
}
use web_tos.Chunk.{ChunkedFile, Chunk, Hash, new, chunk_at, div_ceil}

-- A layout that describes exactly `size` bytes, on the host that holds its list of hashes.
pub record IsValid (file : ChunkedFile) : Type 0 where
  pub positive : 0 < file.chunk_size
  pub aligned : file.chunk_size % 4096 ≡ 0
  pub chunk_size_in : file.chunk_size < 2 ^ 32
  pub covers : file.size ≤ length file.chunks * file.chunk_size
  pub tight : length file.chunks * file.chunk_size < file.size + file.chunk_size
  pub count_in : length file.chunks < 2 ^ 32

div_ceil_bounds :
    (size chunk_size : ℕ)
    → 0 < chunk_size
    → (size ≤ div_ceil size chunk_size * chunk_size)
      × (div_ceil size chunk_size * chunk_size < size + chunk_size)
div_ceil_bounds size chunk_size h =
    let e = div-add-mod size chunk_size in
    let l = mod-lt size h in
    elim (Bool-cases (size % chunk_size == 0)) [
      | inl whole ↦ rw whole (grind arith, grind arith)
      | inr part ↦ rw part (grind arith, grind arith)
    ]

length_of_is_empty : (chunks : List Hash) → is_empty chunks ≡ true → length chunks ≡ 0
length_of_is_empty [] h = refl
length_of_is_empty (c ∷ chunks) h = cc

-- `new` accepts only valid layouts, if its arguments are machine words and the list fits the host.
pub new-IsValid :
    (size chunk_size : ℕ) (chunks : List Hash) {file : ChunkedFile}
    → chunk_size < 2 ^ 32
    → length chunks < 2 ^ 32
    → new size chunk_size chunks ≡ ok file
    → IsValid file
unfolding new
new-IsValid size chunk_size chunks hc hn e = elim (dec_lt 0 chunk_size) [
  | yes positive ↦
      ground (arith, div_ceil_bounds size chunk_size positive, length_of_is_empty chunks)
  | no zero_size ↦ ground arith
]

-- Every byte of a valid file lies in one chunk: `chunk_at` finds it, and its range, without a
-- wrap, a truncation or a panic.
module _ (file : ChunkedFile) (offset : ℕ) (v : IsValid file) (inside : offset < file.size) where
  abbrev pub number : ℕ
  number = offset / file.chunk_size

  pub number-lt : number < length file.chunks
  number-lt = (div-lt_iff_lt-mul v.positive).1 (omega arith)

  pub start-le : number * file.chunk_size ≤ offset
  start-le = div-mul-le_self offset file.chunk_size

  pub end-gt : offset < number * file.chunk_size + file.chunk_size
  end-gt = lt-div-mul-add v.positive

  pub end-le : number * file.chunk_size + file.chunk_size ≤ length file.chunks * file.chunk_size
  end-le = let h : suc number ≤ length file.chunks = number-lt in grind arith

  pub words : length file.chunks * file.chunk_size < 2 ^ 64
  words = let h = v.count_in in let k = v.chunk_size_in in grind arith

  abbrev pub chunk_of : Hash → Chunk
  chunk_of hash = record {
    index = number;
    hash = hash;
    start = number * file.chunk_size;
    end = min (number * file.chunk_size + file.chunk_size) file.size;
  }

  pub chunk_at_lem :
      (hash : Hash) × (get_elem? file.chunks number ≡ some hash)
      × (chunk_at file offset ≡ ok (some (chunk_of hash)))
  unfolding chunk_at
  chunk_at_lem =
      let (hash, found) = get_elem?-lt_length file.chunks number number-lt in
      let before_end : leb file.size offset ≡ false = ground arith in
      let nonzero : (file.chunk_size == 0) ≡ false = ground (arith, v.positive) in
      let narrow : number % 2 ^ 32 ≡ number = omega (arith, number-lt, v.count_in) in
      let start : number * file.chunk_size % 2 ^ 64 ≡ number * file.chunk_size =
        omega (arith, words, end-le) in
      let end : (number * file.chunk_size + file.chunk_size) % 2 ^ 64
          ≡ number * file.chunk_size + file.chunk_size =
        omega (arith, words, end-le) in
      (hash, found, rw (before_end, nonzero, narrow, found, narrow, start, end) refl)
