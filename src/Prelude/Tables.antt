-- ===== src/Prelude/Tables.antt =====
-- Facts about every number below a bound, by evaluation.
use Prim.Native.Nat.{ℕ, zero, suc, ◌<◌}
use mathlib.Core.Path.{◌≡◌}
use mathlib.Core.Bool.{Bool, true, ◌&&◌}
use native.Mathlib.Omega.{arith}

module _ (test : ℕ → Bool) where
  unfoldable pub passes : ℕ → Bool
  passes zero = true
  passes (suc bound) = passes bound && test bound

  pub passes-test : (bound i : ℕ) → i < bound → passes bound ≡ true → test i ≡ true
  unfolding passes
  passes-test zero i below all = elim below [ ]
  passes-test (suc bound) i below all = ground (arith, passes-test bound i)
