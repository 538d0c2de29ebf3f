-- ===== src/Vfs/Storage/Budget.antt =====
-- The storage budget of vfs.rs: what `reserve` lets through.
use web_tos.Prelude.{
  ℕ, ◌+◌, ◌≤◌, ◌<◌, ◌≡◌, ◌⊎◌, refl, Bool-cases, some, inl, inr, arith, min, ok, err, leb, ◌==◌,
}
use web_tos.Abi.{enospc}
use web_tos.Vfs.{Vfs, errno}
use web_tos.Vfs.Storage.{bytes, reserve, usize_max}

-- With a budget below the largest word, `reserve` refuses with ENOSPC exactly when something is
-- added that would take the bytes held over the budget; else it succeeds.
pub reserve_lem :
    (v : Vfs) (growth budget : ℕ)
    → v.storage_budget ≡ some budget
    → budget < usize_max
    → (reserve v growth ≡ ok tt) × ((growth ≡ 0) ⊎ (bytes v + growth ≤ budget))
      ⊎ (reserve v growth ≡ err (errno enospc)) × (0 < growth) × (budget < bytes v + growth)
unfolding reserve
reserve_lem v growth budget set small = elim (Bool-cases (growth == 0)) [
  | inl nothing ↦ inl (rw (nothing, reserve) refl, inl (ground arith))
  | inr some_growth ↦ elim (Bool-cases (leb (min (bytes v + growth) usize_max) budget)) [
    | inl fits ↦ inl (rw (some_growth, reserve, set, fits) refl, inr (ground arith))
    | inr over ↦ inr (rw (some_growth, reserve, set, over) refl, ground arith, ground arith)
  ]
]
