-- ===== src/Base/Maps.antt =====
-- Total maps from addresses.
use Prim.Native.Nat.{ℕ}
use mathlib.Core.Path.{◌≡◌}
use mathlib.Core.Logic.{◌≢◌}
use native.Mathlib.Omega.{arith}
use wibo.Base.Tests.{◌==◌, if◌then◌else◌}

module _ {ℓ} {A : Type ℓ} where
  unfoldable pub put : (ℕ → A) → ℕ → A → ℕ → A
  put f k v j = if j == k then v else f j

  pub put-same : (f : ℕ → A) (k : ℕ) (v : A) → put f k v k ≡ v
  unfolding put
  put-same f k v = ground arith

  pub put-other : (f : ℕ → A) (k : ℕ) (v : A) (j : ℕ) → j ≢ k → put f k v j ≡ f j
  unfolding put
  put-other f k v j h = ground arith
