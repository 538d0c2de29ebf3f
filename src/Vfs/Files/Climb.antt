-- ===== src/Vfs/Files/Climb.antt =====
-- The path that `abs_path_of` (vfs.rs) finds, and when its loop ends.
use web_tos.Prelude.{
  ℕ, zero, suc, ◌+◌, ◌≤◌, ◌<◌, ◌≡◌, ◌≢◌, ◌⊎◌, refl, append_nil, List, [], ◌∷◌, ◌++◌, true, false,
  ◌||◌, Bool-cases, some, inl, inr, arith, leb, ◌==◌, length, ok, err, diverge,
}
use web_tos.Prelude.Bytes.{Bytes}
use web_tos.Prelude.ByteMap.{ByteMap}
use web_tos.Vfs.{Vfs, Node, dir, stopped, root, node_at}
use web_tos.Vfs.Files.{climb, joined, or_slash, name_of, name_in, abs_path_of}

-- A directory has an entry with this name and this node.
abbrev pub HasEntry : ByteMap ℕ → Bytes → ℕ → Type 0
HasEntry [] name i = ⊥
HasEntry ((other, j) ∷ entries) name i = ((other ≡ name) × (j ≡ i)) ⊎ HasEntry entries name i

-- The parents lead from a node to the root in so many steps, and each parent is a directory with an
-- entry for its child.
pub data Climbs (v : Vfs) : ℕ → ℕ → Type 0 where
  at_root : Climbs v 0 root
  up :
      (i k : ℕ) (n p : Node) (entries : ByteMap ℕ) (name : Bytes)
      → i ≢ root
      → node_at v i ≡ ok n
      → node_at v n.parent ≡ ok p
      → p.kind ≡ dir entries
      → HasEntry entries name i
      → Climbs v k n.parent
      → Climbs v (suc k) i

-- The names lead from one node down to another, each by an entry of the directory before it.
abbrev pub Leads : Vfs → ℕ → List Bytes → ℕ → Type 0
Leads v from [] to = from ≡ to
Leads v from (name ∷ names) to =
    (p : Node) × (entries : ByteMap ℕ) × (child : ℕ) × (node_at v from ≡ ok p)
    × (p.kind ≡ dir entries)
    × HasEntry entries name child
    × Leads v child names to

-- The text of an absolute path with these names.
abbrev pub path_text : List Bytes → Bytes
path_text [] = b'/' ∷ []
path_text (name ∷ []) = b'/' ∷ name
path_text (name ∷ (next ∷ names)) = b'/' ∷ (name ++ path_text (next ∷ names))

name_of_lem :
    (entries : ByteMap ℕ) (name : Bytes) (i : ℕ)
    → HasEntry entries name i
    → (found : Bytes) × (name_of entries i ≡ some found) × HasEntry entries found i
unfolding name_of
name_of_lem [] name i h = elim h [ ]
name_of_lem ((other, j) ∷ entries) name i (inl (e, same)) =
    let here : (j == i) ≡ true = ground (arith, same) in (other, rw here refl, inl (refl, same))
name_of_lem ((other, j) ∷ entries) name i (inr h) = elim (Bool-cases (j == i)) [
  | inl here ↦ (other, rw here refl, inl (refl, ground (arith, here)))
  | inr differ ↦
      let (found, first, there) = name_of_lem entries name i h in
      (found, rw differ first, inr there)
]

text_of_joined : (names : List Bytes) → or_slash (joined names) ≡ path_text names
unfolding joined
text_of_joined [] = refl
text_of_joined (name ∷ []) = ground (arith, append_nil name)
text_of_joined (name ∷ (next ∷ names)) = ground (arith, text_of_joined (next ∷ names))

module _ (v : Vfs) where
  -- What the climb adds in front of `segments` leads from the root to the node.
  abbrev Found : ℕ → ℕ → ℕ → List Bytes → Type 0
  Found i to fuel segments =
      (names : List Bytes) × (climb fuel v i segments ≡ ok names) × Leads v root names to

  climb_lem :
      (k i to fuel : ℕ) (segments : List Bytes)
      → Climbs v k i
      → k < fuel
      → k + length segments ≤ 256
      → Leads v i segments to
      → Found i to fuel segments
  unfolding climb
  climb_lem k i to zero segments c h short leads = absurd (omega (arith, h))
  climb_lem k i to (suc fuel) segments at_root h short leads = (segments, refl, leads)
  climb_lem (suc k) i to (suc fuel) segments (up _ _ n p entries name below here there kind has c) h
        short leads =
      let goes : (i == root || leb 256 (length segments)) ≡ false = ground (arith, below, short) in
      let (found, first, entry) = name_of_lem entries name i has in
      let added : name_in p.kind i segments ≡ found ∷ segments = rw (kind, name_in, first) refl in
      let (names, ends, all_the_way) =
        climb_lem k n.parent to fuel (found ∷ segments) c (omega (arith, h)) (omega (arith, short))
          (p, entries, i, there, kind, entry, leads) in
      (names, rw (climb, goes, here, there, added) ends, all_the_way)

-- Where the parents lead from a node to the root in at most 256 steps, each parent being a directory
-- with an entry for its child, `abs_path_of` ends within one round more than the steps, without a
-- panic. Its answer is the text of an absolute path whose names lead from the root to the node, each
-- by an entry of the directory before it.
pub abs_path_of_lem :
    (v : Vfs) (k i fuel : ℕ)
    → Climbs v k i
    → k < fuel
    → k ≤ 256
    → (names : List Bytes) × (abs_path_of fuel v i ≡ ok (path_text names)) × Leads v root names i
unfolding abs_path_of
abs_path_of_lem v k i fuel c h short = elim (Bool-cases (i == root)) [
  | inl top ↦ ([], rw top refl, ground (arith, top))
  | inr below ↦
      let (names, ends, leads) = climb_lem v k i i fuel [] c h (omega (arith, short)) refl in
      (names, rw (below, ends, text_of_joined names) refl, leads)
]

-- A directory that is its own parent and has no entry for itself is climbed without end.
pub climb_self :
    (v : Vfs) (i : ℕ) (n : Node) (fuel : ℕ)
    → node_at v i ≡ ok n
    → n.parent ≡ i
    → name_in n.kind i [] ≡ []
    → i ≢ root
    → climb fuel v i [] ≡ err (stopped diverge)
unfolding climb
climb_self v i n zero here loop bare h = refl
climb_self v i n (suc fuel) here loop bare h =
    let goes : (i == root || leb 256 (length {A = Bytes} [])) ≡ false = ground (arith, h) in
    rw (climb, goes, here, loop, here, bare) (climb_self v i n fuel here loop bare h)
