-- ===== src/Pager/Space.antt =====
-- How pager.rs cuts the mappings of an address space: the loops of `unmap`, `protect`, `remap`.
use web_tos.Prelude.{
  ℕ, ◌+◌, ◌-◌, ◌%◌, ◌^◌, min, List, [], ◌∷◌, ◌++◌, Bool, ◌&&◌, ◌||◌, Option, none, some,
  if◌then◌else◌, ltb, leb, ok, err,
}
use web_tos.Pager.Mapping.{FileMapping, new, clipped}

-- `if let Some(m) = … { kept.push(m) }`
abbrev pub pushed : Option FileMapping → List FileMapping
pushed none = []
pushed (some m) = m ∷ []

abbrev pub apart : FileMapping → ℕ → ℕ → Bool
apart m start end = leb m.end start || leb end m.start

-- What stays of a mapping outside a range.
abbrev pub sides : FileMapping → ℕ → ℕ → List FileMapping
sides m start end = pushed (clipped m m.start start) ++ pushed (clipped m end m.end)

unfoldable pub unmapped : List FileMapping → ℕ → ℕ → List FileMapping
unmapped [] start end = []
unmapped (m ∷ mappings) start end =
    (if apart m start end then m ∷ [] else sides m start end) ++ unmapped mappings start end

abbrev pub with_perm : ℕ → Option FileMapping → Option FileMapping
with_perm perm none = none
with_perm perm (some m) = some (record m { final_perm = perm })

unfoldable pub protected : List FileMapping → ℕ → ℕ → ℕ → List FileMapping
protected [] start end perm = []
protected (m ∷ mappings) start end perm =
    (if apart m start end
      then m ∷ []
      else (pushed (clipped m m.start start)
          ++ (pushed (with_perm perm (clipped m start end)) ++ pushed (clipped m end m.end))))
    ++ protected mappings start end perm

-- A part that `remap` moves by the difference of the two starts.
abbrev pub shifted : ℕ → ℕ → Option FileMapping → Option FileMapping
shifted old_start new_start none = none
shifted old_start new_start (some m) =
    let delta = (new_start + 2 ^ 64 - old_start) % 2 ^ 64 in
    some (record m {
      start = (m.start + delta) % 2 ^ 64;
      end = (m.end + delta) % 2 ^ 64;
      data_start = (m.data_start + delta) % 2 ^ 64;
    })

unfoldable pub moved_parts : List FileMapping → ℕ → ℕ → ℕ → ℕ → List FileMapping
moved_parts [] old_start old_end copy_end new_start = []
moved_parts (m ∷ mappings) old_start old_end copy_end new_start =
    (if apart m old_start old_end
      then []
      else pushed (shifted old_start new_start (clipped m old_start copy_end)))
    ++ moved_parts mappings old_start old_end copy_end new_start

-- The last mapping at the old end, which a growing `remap` extends.
unfoldable pub tail_source : List FileMapping → ℕ → Option FileMapping
tail_source [] old_end = none
tail_source (m ∷ mappings) old_end = elim (tail_source mappings old_end) [
  | some n ↦ some n
  | none ↦ if ltb m.start old_end && leb old_end m.end then some m else none
]

abbrev pub saturated : ℕ → ℕ → ℕ
saturated a b = min (a + b) (2 ^ 64 - 1)

unfoldable pub tail_of : FileMapping → ℕ → ℕ → ℕ → ℕ → List FileMapping
tail_of s old_end new_start old_len new_len =
    let tail_start = saturated new_start old_len in
    let tail_end = saturated new_start new_len in
    let offset_at_tail = min (saturated s.file_offset (old_end - s.data_start)) s.file.size in
    let file_len = min (s.file.size - offset_at_tail) (tail_end - tail_start) in
    if ltb tail_start tail_end
    then (elim (new tail_start tail_end tail_start offset_at_tail file_len s.final_perm s.fill
        s.file) [ ok tail ↦ tail ∷ [] | err e ↦ [] ])
    else []

-- The mappings after `remap`: what stays, what moves, and the tail of one that grows.
unfoldable pub moved : List FileMapping → ℕ → ℕ → ℕ → ℕ → List FileMapping
moved mappings old_start old_len new_start new_len =
    let old_end = saturated old_start old_len in
    let copy_end = saturated old_start (min old_len new_len) in
    let tail : List FileMapping =
      elim (if ltb old_len new_len then tail_source mappings old_end else none) [
        | none ↦ []
        | some s ↦ tail_of s old_end new_start old_len new_len
      ] in
    unmapped mappings old_start old_end
    ++ (moved_parts mappings old_start old_end copy_end new_start ++ tail)
