-- ===== src/Prelude/Text.antt =====
-- Byte strings and the parts of the C library that the sources call on them. A C string is the
-- list of the bytes before its terminator.
pub mod Decimal
use Prim.Native.Char.{code}
use Prim.Native.String.{String}
use Prim.Native.Nat.{ℕ, zero, suc, ◌+◌, ◌-◌, ◌*◌, ◌/◌, ◌%◌, ◌^◌, ◌≤◌, ◌<◌}
use mathlib.Core.Path.{◌≡◌, refl}
use mathlib.Core.Bool.{Bool, true, false, ◌&&◌, ◌||◌}
use mathlib.Core.Option.{Option, none, some}
use mathlib.Core.List.{List, [], ◌∷◌, ◌++◌}
use native.Mathlib.Omega.{arith}
use ems_esp_link.Prelude.Tests.{ltb, leb, ◌==◌, if◌then◌else◌}
use ems_esp_link.Prelude.Lists.{length}

abbrev pub Bytes : Type 0
Bytes = List ℕ

-- The code points of a literal, which are its bytes where it is ASCII.
abbrev pub codes : String → Bytes
codes String.[] = []
codes (String.◌∷◌ c s) = code c ∷ codes s

-- The C string in a buffer: the bytes before the first zero.
abbrev pub c_string : Bytes → Bytes
c_string [] = []
c_string (c ∷ s) = let rest = c_string s in if c == 0 then [] else c ∷ rest

-- `strcmp(a, b) == 0`
abbrev pub str_eq : Bytes → Bytes → Bool
str_eq [] [] = true
str_eq [] (_ ∷ _) = false
str_eq (_ ∷ _) [] = false
str_eq (a ∷ s) (b ∷ t) = a == b && str_eq s t

-- `strncmp(s, p, strlen(p)) == 0`: `p` is a prefix of `s`.
abbrev pub starts_with : Bytes → Bytes → Bool
starts_with s [] = true
starts_with [] (_ ∷ _) = false
starts_with (a ∷ s) (b ∷ p) = a == b && starts_with s p

-- `strstr(s, p)`: the rest of `s` from the first place where `p` stands.
abbrev pub strstr : Bytes → Bytes → Option Bytes
strstr [] p = if starts_with [] p then some [] else none
strstr (a ∷ s) p = if starts_with (a ∷ s) p then some (a ∷ s) else strstr s p

-- `isspace` in the C locale.
abbrev pub is_space : ℕ → Bool
is_space c = c == 32 || (leb 9 c && leb c 13)

abbrev pub is_digit : ℕ → Bool
is_digit c = leb b'0' c && leb c b'9'

-- The digits at the head of a text, as a number.
pub digits_value : ℕ → Bytes → ℕ
digits_value acc [] = acc
digits_value acc (c ∷ s) =
    let rest = digits_value (acc * 10 + (c - b'0')) s in if is_digit c then rest else acc

abbrev signed_digits : Bytes → ℕ
signed_digits [] = 0
signed_digits (c ∷ s) =
    if c == b'-'
    then (2 ^ 32 - digits_value 0 s % 2 ^ 32) % 2 ^ 32
    else if c == b'+'
    then digits_value 0 s % 2 ^ 32
    else digits_value 0 (c ∷ s) % 2 ^ 32

-- `atoi`, whose result is an `int` pattern.
unfoldable pub atoi : Bytes → ℕ
unfolding digits_value
atoi [] = 0
atoi (c ∷ s) = let rest = atoi s in if is_space c then rest else signed_digits (c ∷ s)

signed_digits_lt : (s : Bytes) → signed_digits s < 2 ^ 32
signed_digits_lt [] = omega arith
signed_digits_lt (c ∷ s) = ground arith

pub atoi_lt : (s : Bytes) → atoi s < 2 ^ 32
unfolding atoi
atoi_lt [] = omega arith
atoi_lt (c ∷ s) = ground (arith, atoi_lt s, signed_digits_lt (c ∷ s))

-- `%d` for a number that is not negative: its decimal digits, on fuel.
unfoldable pub decimal_fuel : ℕ → ℕ → Bytes → Bytes
decimal_fuel zero n acc = acc
decimal_fuel (suc f) n acc =
    let rest = decimal_fuel f (n / 10) ((b'0' + n % 10) ∷ acc) in
    if ltb n 10 then (b'0' + n) ∷ acc else rest

-- `%d`: 10 digits hold every `int`.
unfoldable pub decimal : ℕ → Bytes
unfolding decimal_fuel
decimal n = if ltb n (2 ^ 31) then decimal_fuel 10 n [] else b'-' ∷ decimal_fuel 10 (2 ^ 32 - n) []

decimal_fuel-length : (f n : ℕ) (acc : Bytes) → length (decimal_fuel f n acc) ≤ f + length acc
unfolding decimal_fuel
decimal_fuel-length zero n acc = omega arith
decimal_fuel-length (suc f) n acc =
    ground (arith, decimal_fuel-length f (n / 10) ((b'0' + n % 10) ∷ acc))

pub length-decimal : (n : ℕ) → length (decimal n) ≤ 11
unfolding decimal
length-decimal n =
    ground (arith, decimal_fuel-length 10 n [], decimal_fuel-length 10 (2 ^ 32 - n) [])

-- `%x` for one hexadecimal digit.
unfoldable pub hex_digit : ℕ → ℕ
hex_digit d = if ltb d 10 then b'0' + d else b'a' + (d - 10)

pub str_eq_refl : (s : Bytes) → str_eq s s ≡ true
str_eq_refl [] = refl
str_eq_refl (c ∷ s) = ground (arith, str_eq_refl s)

pub str_eq_sound : (s t : Bytes) → str_eq s t ≡ true → s ≡ t
str_eq_sound [] [] h = refl
str_eq_sound [] (c ∷ t) h = ground arith
str_eq_sound (c ∷ s) [] h = ground arith
str_eq_sound (c ∷ s) (d ∷ t) h = ground (arith, str_eq_sound s t)

pub starts_with-append : (p s : Bytes) → starts_with (p ++ s) p ≡ true
starts_with-append [] s = refl
starts_with-append (c ∷ p) s = ground (arith, starts_with-append p s)

test_atoi : atoi (codes "  -12x") ≡ 2 ^ 32 - 12
unfolding atoi
test_atoi = refl

test_decimal : decimal (2 ^ 32 - 120) ≡ codes "-120"
unfolding decimal
test_decimal = refl
