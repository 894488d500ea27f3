-- ===== src/Prelude/Words.antt =====
-- 32-bit words as numbers below 2 ^ 32: an `int` is its two's complement pattern.
use Prim.Native.Nat.{ℕ, ◌+◌, ◌-◌, ◌%◌, ◌^◌}
use mathlib.Core.Bool.{Bool}
use ems_esp_link.Prelude.Tests.{ltb}

abbrev pub word : ℕ
word = 2 ^ 32

-- `a + b` and `a - b`, wrapping.
abbrev pub add32 : ℕ → ℕ → ℕ
add32 a b = (a + b) % 2 ^ 32

abbrev pub sub32 : ℕ → ℕ → ℕ
sub32 a b = (a + 2 ^ 32 - b) % 2 ^ 32

-- The signed comparison `a < b` of two patterns.
abbrev pub slt : ℕ → ℕ → Bool
slt a b = ltb ((a + 2 ^ 31) % 2 ^ 32) ((b + 2 ^ 31) % 2 ^ 32)
