-- ===== src/Portal/Words/Units.antt =====
-- assets/portal/portal.js, lines 113-124: the unit that `formatBytes` picks.
use vault_box.Base.{◌≡◌, ◌⊎◌, inl, inr, refl, arith, ℕ, zero, suc, ◌*◌, ◌≤◌, ◌<◌, leb, Bool-cases}
use vault_box.Portal.Words.{scale}

-- The unit picked is never larger than the size, where the first is not; and a size is less than
-- 1024 units, but for the last unit.
pub scale_bounds :
    (larger unit bytes : ℕ)
    → unit ≤ bytes
    → ((scale larger unit bytes).0 ≤ bytes)
      × (((scale larger unit bytes).1 ≡ 0) ⊎ (bytes < 1024 * (scale larger unit bytes).0))
unfolding scale
scale_bounds zero unit bytes h = (h, inl refl)
scale_bounds (suc k) unit bytes h = elim (Bool-cases (leb (1024 * unit) bytes)) [
  | inl e ↦ rw e (scale_bounds k (unit * 1024) bytes (ground arith))
  | inr e ↦ rw e (ground arith)
]
