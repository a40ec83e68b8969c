-- ===== src/Base/Tables.antt =====
-- Claims about small numbers, checked by evaluation.
use Prim.Native.Nat.{ℕ, zero, suc, ◌<◌}
use mathlib.Core.Path.{◌≡◌}
use mathlib.Core.Bool.{Bool, true, false}
use native.Mathlib.Omega.{arith}
use lan_send.Base.Tests.{if◌then◌else◌}

-- The test passes for every number below the bound.
unfoldable pub passes_below : (ℕ → Bool) → ℕ → Bool
passes_below test zero = true
passes_below test (suc bound) = if test bound then passes_below test bound else false

pub passes_of_table :
    (test : ℕ → Bool) (bound i : ℕ) → i < bound → passes_below test bound ≡ true → test i ≡ true
unfolding passes_below
passes_of_table test zero i inside table = elim inside [ ]
passes_of_table test (suc bound) i inside table = ground (arith, passes_of_table test bound i)
