-- ===== src/Prelude/Table.antt =====
-- A property of all numbers below a bound, checked by evaluation.
use Prim.Native.Nat.{ℕ, zero, suc, ◌<◌}
use mathlib.Core.Path.{◌≡◌}
use mathlib.Core.Bool.{Bool, true, false}
use native.Mathlib.Omega.{arith}
use ems_esp_link.Prelude.Tests.{if◌then◌else◌}

-- `test` passes at each number below `bound`.
unfoldable pub every : (ℕ → Bool) → ℕ → Bool
every test zero = true
every test (suc bound) = let below = every test bound in if test bound then below else false

pub every_sound :
    (test : ℕ → Bool) (value bound : ℕ)
    → value < bound
    → every test bound ≡ true
    → test value ≡ true
unfolding every
every_sound test value zero inside passed = elim inside [ ]
every_sound test value (suc bound) inside passed = ground (arith, every_sound test value bound)
