-- ===== src/Pager/Mapping.antt =====
-- `FileMapping` of pager.rs, its constructor and its clipping.
pub mod Clip
use web_tos.Prelude.{
  ℕ, ◌+◌, ◌-◌, ◌%◌, ◌^◌, min, max, Bool, true, false, not, ◌&&◌, ◌||◌, Option, none, some,
  if◌then◌else◌, ltb, leb, ◌==◌, Result, ok, err,
}
use web_tos.Chunk.{ChunkedFile}

abbrev pub page_size : ℕ
page_size = 4096

-- `address & !(PAGE_SIZE - 1)`
abbrev pub page_of : ℕ → ℕ
page_of address = address - address % page_size

pub record FileMapping : Type 0 where
  pub start : ℕ
  pub end : ℕ
  pub data_start : ℕ
  pub file_offset : ℕ
  pub file_len : ℕ
  pub final_perm : ℕ
  pub fill : ℕ
  pub file : ChunkedFile

-- The messages of `FileMapping::new`, in the order of the code.
pub data MappingError : Type 0 where
  range_misaligned data_overflow data_outside past_file : MappingError

-- `u64::checked_add`
abbrev pub checked_add : ℕ → ℕ → Option ℕ
checked_add a b = if ltb (a + b) (2 ^ 64) then some (a + b) else none

unfoldable pub new : ℕ → ℕ → ℕ → ℕ → ℕ → ℕ → ℕ → ChunkedFile → Result MappingError FileMapping
new start end data_start file_offset file_len final_perm fill file =
    if leb end start || not (start % page_size == 0) || not (end % page_size == 0)
    then err range_misaligned
    else elim (checked_add data_start file_len) [
      | none ↦ err data_overflow
      | some data_end ↦
          if ltb data_start start || ltb end data_end
          then err data_outside
          else elim (checked_add file_offset file_len) [
            | none ↦ err past_file
            | some file_end ↦
                if ltb file.size file_end
                then err past_file
                else ok (record {
                  start = start;
                  end = end;
                  data_start = data_start;
                  file_offset = file_offset;
                  file_len = file_len;
                  final_perm = final_perm;
                  fill = fill;
                  file = file;
                })
          ]
    ]

abbrev pub data_end : FileMapping → ℕ
data_end m = (m.data_start + m.file_len) % 2 ^ 64

-- `mapping.start <= page && page < mapping.end`
abbrev pub covers : FileMapping → ℕ → Bool
covers m page = leb m.start page && ltb page m.end

-- The mapping that `clipped` makes of a range that meets this one.
unfoldable pub clip : FileMapping → ℕ → ℕ → FileMapping
clip m start end =
    let lo = max start m.start in
    let hi = min end m.end in
    let data_lo = min (max m.data_start lo) hi in
    let data_hi = max (min (data_end m) hi) data_lo in
    record {
      start = lo;
      end = hi;
      data_start = data_lo;
      file_offset = (m.file_offset + (data_lo - m.data_start)) % 2 ^ 64;
      file_len = data_hi - data_lo;
      final_perm = m.final_perm;
      fill = m.fill;
      file = m.file;
    }

unfoldable pub clipped : FileMapping → ℕ → ℕ → Option FileMapping
clipped m start end =
    if leb end start || leb m.end start || leb end m.start then none else some (clip m start end)
