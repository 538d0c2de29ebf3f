-- ===== src/Prelude/NatMap.antt =====
-- Maps with number keys (`BTreeMap<u64, V>`, `HashMap<u64, V>`) where their order is not observed.
use mathlib.Core.Path.{◌≡◌}
use mathlib.Core.Option.{Option, none, some}
use mathlib.Core.List.{List, [], ◌∷◌}
use Prim.Native.Nat.{ℕ}
use native.Mathlib.Omega.{arith}
use web_tos.Prelude.Tests.{if◌then◌else◌, ◌==◌}

abbrev pub NatMap {ℓ} : Type ℓ → Type ℓ
NatMap V = List (ℕ × V)

module _ {ℓ} {V : Type ℓ} where
  unfoldable pub get : ℕ → NatMap V → Option V
  get k [] = none
  get k ((j, v) ∷ m) = if k == j then some v else get k m

  unfoldable pub remove : ℕ → NatMap V → NatMap V
  remove k [] = []
  remove k ((j, v) ∷ m) = let rest = remove k m in if k == j then rest else (j, v) ∷ rest

  abbrev pub insert : ℕ → V → NatMap V → NatMap V
  insert k v m = (k, v) ∷ remove k m

  pub get-remove :
      (k j : ℕ) (m : NatMap V) → get j (remove k m) ≡ (if j == k then none else get j m)
  unfolding get remove
  get-remove k j [] = ground arith
  get-remove k j ((i, v) ∷ m) = ground (arith, get-remove k j m)

  pub get-insert :
      (k j : ℕ) (v : V) (m : NatMap V) → get j (insert k v m) ≡ (if j == k then some v else get j m)
  unfolding get
  get-insert k j v m = ground (arith, get-remove k j m)
