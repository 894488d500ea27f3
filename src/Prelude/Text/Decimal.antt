-- ===== src/Prelude/Text/Decimal.antt =====
-- `atoi` reads back what `%d` prints.
use ems_esp_link.Prelude.{
  ℕ, zero, suc, ◌+◌, ◌-◌, ◌*◌, ◌/◌, ◌%◌, ◌^◌, ◌<◌, ◌≡◌, refl, ap, ◌∙◌, Bool, true, false, [], ◌∷◌,
  ltb, ◌==◌, if◌then◌else◌, arith, if_lem,
}
use ems_esp_link.Prelude.Text.{Bytes, is_digit, is_space, digits_value, atoi, decimal, decimal_fuel}

starts_digit : Bytes → Bool
starts_digit [] = false
starts_digit (c ∷ s) = is_digit c

atoi-digits_value : (s : Bytes) → starts_digit s ≡ true → atoi s ≡ digits_value 0 s % 2 ^ 32
unfolding atoi starts_digit
atoi-digits_value [] h = cc
atoi-digits_value (c ∷ s) h =
    let space : is_space c ≡ false = ground (arith, h) in
    let minus : (c == b'-') ≡ false = ground (arith, h) in
    let plus : (c == b'+') ≡ false = ground (arith, h) in rw (space, minus, plus) refl

decimal_fuel-starts_digit :
    (f n : ℕ) (acc : Bytes) → n < 10 ^ suc f → starts_digit (decimal_fuel (suc f) n acc) ≡ true
unfolding starts_digit decimal_fuel
decimal_fuel-starts_digit zero n acc lt =
    let one : ltb n 10 ≡ true = ground (arith, lt) in
    let digit : is_digit (b'0' + n) ≡ true = ground (arith, lt) in rw one digit
decimal_fuel-starts_digit (suc f) n acc lt =
    if_lem (λ (s : Bytes). starts_digit s ≡ true) (ltb n 10) _ _
      (λ e. let digit : is_digit (b'0' + n) ≡ true = ground (arith, e) in digit)
      (λ _. decimal_fuel-starts_digit f (n / 10) ((b'0' + n % 10) ∷ acc) (omega (arith, lt)))

digits_value_step :
    (a d : ℕ) (s : Bytes) → d < 10 → digits_value a ((b'0' + d) ∷ s) ≡ digits_value (a * 10 + d) s
unfolding digits_value
digits_value_step a d s lt =
    let digit : is_digit (b'0' + d) ≡ true = ground (arith, lt) in
    let value : b'0' + d - b'0' ≡ d = omega arith in
    ap (λ b. if b then digits_value (a * 10 + (b'0' + d - b'0')) s else a) digit
    ∙ ap (λ v. digits_value (a * 10 + v) s) value

digits_value-decimal_fuel :
    (f n : ℕ) (acc : Bytes)
    → n < 10 ^ suc f
    → digits_value 0 (decimal_fuel (suc f) n acc) ≡ digits_value n acc
unfolding digits_value decimal_fuel
digits_value-decimal_fuel zero n acc lt =
    let one : ltb n 10 ≡ true = ground (arith, lt) in
    let same : 0 * 10 + n ≡ n = omega arith in
    ap (λ b. digits_value 0 (if b then (b'0' + n) ∷ acc else (b'0' + n % 10) ∷ acc)) one
    ∙ (digits_value_step 0 n acc (omega (arith, lt)) ∙ ap (λ v. digits_value v acc) same)
digits_value-decimal_fuel (suc f) n acc lt =
    if_lem (λ (s : Bytes). digits_value 0 s ≡ digits_value n acc) (ltb n 10) _ _
      (λ e.
        let same : 0 * 10 + n ≡ n = omega arith in
        digits_value_step 0 n acc (ground (arith, e)) ∙ ap (λ v. digits_value v acc) same)
      (λ _.
        let whole : n / 10 * 10 + n % 10 ≡ n = omega arith in
        digits_value-decimal_fuel f (n / 10) ((b'0' + n % 10) ∷ acc) (omega (arith, lt))
        ∙ (digits_value_step (n / 10) (n % 10) acc (omega arith)
            ∙ ap (λ v. digits_value v acc) whole))

-- A number that is not negative is printed in decimal and read back as itself.
pub atoi-decimal : (n : ℕ) → n < 2 ^ 31 → atoi (decimal n) ≡ n
unfolding decimal digits_value
atoi-decimal n lt =
    let plain : ltb n (2 ^ 31) ≡ true = ground (arith, lt) in
    let text : decimal n ≡ decimal_fuel 10 n [] =
      ap (λ b. if b then decimal_fuel 10 n [] else b'-' ∷ decimal_fuel 10 (2 ^ 32 - n) []) plain in
    let small : n < 10 ^ 10 = omega (arith, lt) in
    ap atoi text
    ∙ (atoi-digits_value (decimal_fuel 10 n []) (decimal_fuel-starts_digit 9 n [] small)
        ∙ (ap (λ v. v % 2 ^ 32) (digits_value-decimal_fuel 9 n [] small) ∙ omega (arith, lt)))
