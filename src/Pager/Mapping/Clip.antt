-- ===== src/Pager/Mapping/Clip.antt =====
-- What a clipped mapping of pager.rs shows at each address: the view that the pager keeps.
use web_tos.Prelude.{
  ℕ, ◌+◌, ◌-◌, ◌^◌, ◌≤◌, ◌<◌, ◌≡◌, refl, ap, ◌∙◌, min, max, true, false, ◌&&◌, ◌||◌, Bool-cases,
  Option, none, some, inl, inr, arith, if◌then◌else◌, ltb, leb, ok,
}
use web_tos.Chunk.{ChunkedFile}
use web_tos.Pager.Mapping.{FileMapping, new, clip, clipped, covers}

pub record IsValid (m : FileMapping) : Type 0 where
  pub nonempty : m.start < m.end
  pub words : m.end < 2 ^ 64
  pub data_from : m.start ≤ m.data_start
  pub data_to : m.data_start + m.file_len ≤ m.end
  pub file_words : m.file.size < 2 ^ 64
  pub in_file : 0 < m.file_len → m.file_offset + m.file_len ≤ m.file.size

pub new-IsValid :
    (start end data_start file_offset file_len final_perm fill : ℕ) (file : ChunkedFile)
    {m : FileMapping}
    → end < 2 ^ 64
    → file.size < 2 ^ 64
    → new start end data_start file_offset file_len final_perm fill file ≡ ok m
    → IsValid m
unfolding new
new-IsValid start end data_start file_offset file_len final_perm fill file we wf h = ground arith

-- Where the byte at an address comes from: an offset of a file, or the zeros of the mapping.
pub data Source : Type 0 where
  from_file : ChunkedFile → ℕ → Source
  zeros : Source

-- What a mapping shows at an address: the permission, and the source of the byte.
abbrev pub source : FileMapping → ℕ → Source
source m a =
    if leb m.data_start a && ltb a (m.data_start + m.file_len)
    then from_file m.file (m.file_offset + (a - m.data_start))
    else zeros

pub record Shown : Type 0 where
  pub perm : ℕ
  pub byte : Source

abbrev pub shown : FileMapping → ℕ → Option Shown
shown m a = if covers m a then some (record { perm = m.final_perm; byte = source m a }) else none

abbrev pub shown_opt : Option FileMapping → ℕ → Option Shown
shown_opt none a = none
shown_opt (some m) a = shown m a

abbrev pub ValidOpt : Option FileMapping → Type 0
ValidOpt none = Unit {0}
ValidOpt (some m) = IsValid m

clip-IsValid :
    (m : FileMapping) (start end : ℕ)
    → IsValid m
    → start < end
    → start < m.end
    → m.start < end
    → IsValid (clip m start end)
unfolding clip
clip-IsValid m start end v p q r = ground arith

pub clipped-IsValid : (m : FileMapping) (start end : ℕ) → IsValid m → ValidOpt (clipped m start end)
unfolding clipped
clipped-IsValid m start end v =
    elim (Bool-cases (leb end start || leb m.end start || leb end m.start)) [
      | inl miss ↦ rw miss tt
      | inr hit ↦ rw hit (
          clip-IsValid m start end v (ground (arith, hit)) (ground (arith, hit))
            (ground (arith, hit)))
    ]

covers-clip :
    (m : FileMapping) (start end a : ℕ)
    → covers (clip m start end) a ≡ (leb start a && ltb a end) && covers m a
unfolding clip
covers-clip m start end a = ground arith

-- The data of the clipped mapping is that of the mapping, inside the range.
data-clip :
    (m : FileMapping) (start end a : ℕ)
    → IsValid m
    → leb start a && ltb a end ≡ true
    → covers m a ≡ true
    → (leb (clip m start end).data_start a
        && ltb a ((clip m start end).data_start + (clip m start end).file_len))
      ≡ (leb m.data_start a && ltb a (m.data_start + m.file_len))
unfolding clip
data-clip m start end a v inside covered = ground arith

offset-clip :
    (m : FileMapping) (start end a : ℕ)
    → IsValid m
    → leb start a && ltb a end ≡ true
    → covers m a ≡ true
    → (leb m.data_start a && ltb a (m.data_start + m.file_len)) ≡ true
    → (clip m start end).file_offset + (a - (clip m start end).data_start)
      ≡ m.file_offset + (a - m.data_start)
unfolding clip
offset-clip m start end a v inside covered in_data =
    let skipped = min (max m.data_start (max start m.start)) (min end m.end) - m.data_start in
    let near : skipped ≤ a - m.data_start = ground (arith, inside, covered, in_data) in
    let fits : m.file_offset + (a - m.data_start) < 2 ^ 64 =
      ground (arith, in_data, v.in_file, v.file_words) in
    ground (arith, near, fits)

source-clip :
    (m : FileMapping) (start end a : ℕ)
    → IsValid m
    → leb start a && ltb a end ≡ true
    → covers m a ≡ true
    → source (clip m start end) a ≡ source m a
unfolding clip
source-clip m start end a v inside covered =
    let c = clip m start end in
    let same = data-clip m start end a v inside covered in
    elim (Bool-cases (leb m.data_start a && ltb a (m.data_start + m.file_len))) [
      | inl in_data ↦
          rw (same, in_data)
            (ap (λ n. from_file m.file n) (offset-clip m start end a v inside covered in_data))
      | inr in_zeros ↦ rw (same, in_zeros) refl
    ]

perm-clip : (m : FileMapping) (start end : ℕ) → (clip m start end).final_perm ≡ m.final_perm
unfolding clip
perm-clip m start end = refl

shown-clip :
    (m : FileMapping) (start end a : ℕ)
    → IsValid m
    → shown (clip m start end) a ≡ (if leb start a && ltb a end then shown m a else none)
shown-clip m start end a v =
    let c = covers-clip m start end a in
    elim (Bool-cases (leb start a && ltb a end)) [
      | inr outside ↦
          let off : covers (clip m start end) a ≡ false = c ∙ ground arith in rw (off, outside) refl
      | inl inside ↦ elim (Bool-cases (covers m a)) [
        | inr bare ↦
            let off : covers (clip m start end) a ≡ false = c ∙ ground arith in
            rw (off, inside, bare) refl
        | inl covered ↦
            let on : covers (clip m start end) a ≡ true = c ∙ ground arith in
            rw
              (
                on,
                inside,
                covered,
                perm-clip m start end,
                source-clip m start end a v inside covered,
              )
              refl
      ]
    ]

-- Clipping shows what was there inside the range, and nothing outside it.
pub shown-clipped :
    (m : FileMapping) (start end a : ℕ)
    → IsValid m
    → shown_opt (clipped m start end) a ≡ (if leb start a && ltb a end then shown m a else none)
unfolding clipped
shown-clipped m start end a v =
    elim (Bool-cases (leb end start || leb m.end start || leb end m.start)) [
      | inl miss ↦ rw miss (ground arith)
      | inr hit ↦ rw hit (shown-clip m start end a v)
    ]
