-- ===== src/Prelude/ByteMap.antt =====
-- `BTreeMap<Vec<u8>, V>`: an association list in the order of its keys.
use Prim.Native.Nat.{lt, eq, gt}
use mathlib.Core.Path.{◌≡◌, refl, ap}
use mathlib.Core.Option.{Option, none, some}
use mathlib.Core.List.{List, [], ◌∷◌, ◌++◌}
use native.Mathlib.Omega.{arith}
use web_tos.Prelude.Tests.{if◌then◌else◌}
use web_tos.Prelude.Bytes.{
  Bytes, compare_bytes, compare_bytes_refl, eq_of_compare_bytes, compare_bytes_swap,
  compare_bytes_swap_lt, compare_bytes_trans, bytes_eq,
}

abbrev pub ByteMap {ℓ} : Type ℓ → Type ℓ
ByteMap V = List (Bytes × V)

module _ {ℓ} {V : Type ℓ} where
  unfoldable pub get : Bytes → ByteMap V → Option V
  get k [] = none
  get k ((j, v) ∷ m) = elim (compare_bytes k j) [ eq ↦ some v | _ ↦ get k m ]

  unfoldable pub insert : Bytes → V → ByteMap V → ByteMap V
  insert k v [] = (k, v) ∷ []
  insert k v ((j, w) ∷ m) = elim (compare_bytes k j) [
    | lt ↦ (k, v) ∷ (j, w) ∷ m
    | eq ↦ (k, v) ∷ m
    | gt ↦ (j, w) ∷ insert k v m
  ]

  unfoldable pub remove : Bytes → ByteMap V → ByteMap V
  remove k [] = []
  remove k ((j, w) ∷ m) = elim (compare_bytes k j) [ eq ↦ remove k m | _ ↦ (j, w) ∷ remove k m ]

  pub get-insert :
      (k j : Bytes) (v : V) (m : ByteMap V)
      → get j (insert k v m) ≡ (if bytes_eq j k then some v else get j m)
  unfolding get insert
  get-insert k j v [] = ground arith
  get-insert k j v ((i, w) ∷ m) = ground (
    arith,
    get-insert k j v m,
    eq_of_compare_bytes k i,
    eq_of_compare_bytes j i,
    eq_of_compare_bytes j k,
    compare_bytes_refl k,
    compare_bytes_refl j,
    compare_bytes_refl i,
  )

  pub get-remove :
      (k j : Bytes) (m : ByteMap V) → get j (remove k m) ≡ (if bytes_eq j k then none else get j m)
  unfolding get remove
  get-remove k j [] = ground arith
  get-remove k j ((i, w) ∷ m) = ground (
    arith,
    get-remove k j m,
    eq_of_compare_bytes k i,
    eq_of_compare_bytes j i,
    eq_of_compare_bytes j k,
    compare_bytes_refl k,
    compare_bytes_refl j,
    compare_bytes_refl i,
  )

-- Every key of `m` comes after `k`.
abbrev pub Above {ℓ} : {V : Type ℓ} → Bytes → ByteMap V → Type 0
Above k [] = Unit
Above k ((j, v) ∷ m) = (compare_bytes k j ≡ lt) × Above k m

abbrev pub IsSorted {ℓ} : {V : Type ℓ} → ByteMap V → Type 0
IsSorted [] = Unit
IsSorted ((j, v) ∷ m) = Above j m × IsSorted m

module _ {ℓ} {V : Type ℓ} where
  Above-trans : (i j : Bytes) (m : ByteMap V) → compare_bytes i j ≡ lt → Above j m → Above i m
  Above-trans i j [] h a = tt
  Above-trans i j ((k, v) ∷ m) h a = (compare_bytes_trans i j k h a.0, Above-trans i j m h a.1)

  Above-insert :
      (i k : Bytes) (v : V) (m : ByteMap V)
      → compare_bytes i k ≡ lt
      → Above i m
      → Above i (insert k v m)
  unfolding insert
  Above-insert i k v [] h a = (h, tt)
  Above-insert i k v ((j, w) ∷ m) h a = ground (arith, Above-insert i k v m h a.1)

  Above-remove : (i k : Bytes) (m : ByteMap V) → Above i m → Above i (remove k m)
  unfolding remove
  Above-remove i k [] a = tt
  Above-remove i k ((j, w) ∷ m) a = ground (arith, Above-remove i k m a.1)

  pub insert-IsSorted : (k : Bytes) (v : V) (m : ByteMap V) → IsSorted m → IsSorted (insert k v m)
  unfolding insert
  insert-IsSorted k v [] s = (tt, tt)
  insert-IsSorted k v ((j, w) ∷ m) s = ground (
    arith,
    insert-IsSorted k v m s.1,
    Above-trans k j m,
    Above-insert j k v m,
    compare_bytes_swap k j,
    eq_of_compare_bytes k j,
  )

  pub remove-IsSorted : (k : Bytes) (m : ByteMap V) → IsSorted m → IsSorted (remove k m)
  unfolding remove
  remove-IsSorted k [] s = tt
  remove-IsSorted k ((j, w) ∷ m) s = ground (arith, remove-IsSorted k m s.1, Above-remove j k m s.0)

  Above-append :
      (j k : Bytes) (v : V) (m rest : ByteMap V)
      → Above j (m ++ ((k, v) ∷ rest))
      → compare_bytes j k ≡ lt
  Above-append j k v [] rest h = h.0
  Above-append j k v (e ∷ m) rest h = Above-append j k v m rest h.1

  -- A key after all others is put at the end, and was not there.
  pub insert-append :
      (k : Bytes) (v : V) (m rest : ByteMap V)
      → IsSorted (m ++ ((k, v) ∷ rest))
      → insert k v m ≡ m ++ ((k, v) ∷ [])
  unfolding insert
  insert-append k v [] rest h = refl
  insert-append k v ((j, w) ∷ m) rest h =
      let after = compare_bytes_swap_lt j k (Above-append j k v m rest h.0) in
      rw (after, insert) (ap (λ n. (j, w) ∷ n) (insert-append k v m rest h.1))

  pub get-append :
      (k : Bytes) (v : V) (m rest : ByteMap V) → IsSorted (m ++ ((k, v) ∷ rest)) → get k m ≡ none
  unfolding get
  get-append k v [] rest h = refl
  get-append k v ((j, w) ∷ m) rest h =
      let after = compare_bytes_swap_lt j k (Above-append j k v m rest h.0) in
      rw (after, get) (get-append k v m rest h.1)
