-- ===== src/Wifi/Address.antt =====
-- Addresses in dotted form, `parse_ip` of user/cgiwifi.c.
use ems_esp_link.Prelude.{
  ℕ, zero, suc, ◌+◌, ◌-◌, ◌*◌, ◌/◌, ◌%◌, ◌^◌, ◌<◌, ◌≤◌, ◌≡◌, refl, sym, ap, ◌∙◌, Bool, true, false,
  ◌&&◌, ◌||◌, Option, none, some, [], ◌∷◌, ◌++◌, ltb, leb, ◌==◌, if◌then◌else◌, length, arith,
  append_assoc, append-nil, ==_iff,
}
use ems_esp_link.Prelude.Text.{Bytes, atoi, decimal, decimal_fuel, is_digit}

-- The loop, with the rounds that are left, the integers found, the address so far and the characters of
-- the integer at hand. The parts of the address do not overlap as long as there are four of them, and
-- with more it is refused.
unfoldable pub parse_from : ℕ → ℕ → ℕ → Bytes → Bytes → Option ℕ
parse_from zero found ip part s = none
parse_from (suc n) found ip part [] =
    if found + 1 == 4 then some (ip + atoi part % 2 ^ 8 * 2 ^ (found * 8)) else none
parse_from (suc n) found ip part (c ∷ s) =
    let rest = parse_from n (found + 1) (ip + atoi part % 2 ^ 8 * 2 ^ (found * 8)) [] s in
    let longer = parse_from n found ip (part ++ (c ∷ [])) s in
    if c == b'.' then rest else if ltb c b'0' || ltb b'9' c then none else longer

-- `parse_ip`: the address, or `none` where the code gives false.
unfoldable pub parse_ip : Bytes → Option ℕ
parse_ip buff = parse_from 32 0 0 [] buff

-- `%d.%d.%d.%d` with `IP2STR`
abbrev pub dotted : ℕ → Bytes
dotted ip =
    decimal (ip % 2 ^ 8)
    ++ (b'.'
        ∷ (decimal (ip / 2 ^ 8 % 2 ^ 8)
            ++ (b'.' ∷ (decimal (ip / 2 ^ 16 % 2 ^ 8) ++ (b'.' ∷ decimal (ip / 2 ^ 24 % 2 ^ 8))))))

all_digits : Bytes → Bool
all_digits [] = true
all_digits (c ∷ s) = is_digit c && all_digits s

-- A byte prints as at most three digits, which read back as the byte.
good_print : ℕ → Bool
good_print n = leb (length (decimal n)) 3 && (all_digits (decimal n) && atoi (decimal n) == n)

left : (x y : Bool) → x && y ≡ true → x ≡ true
left true y e = refl
left false y e = e

right : (x y : Bool) → x && y ≡ true → y ≡ true
right true y e = e
right false y e = cc

-- Whether the bytes from a number on, so many of them, print like that.
print_well : ℕ → ℕ → Bool
print_well zero first = true
print_well (suc k) first = good_print first && print_well k (first + 1)

print_well-good_print :
    (k first i : ℕ) → print_well k first ≡ true → i < k → good_print (first + i) ≡ true
unfolding print_well
print_well-good_print zero first i h lt = absurd (omega (arith, lt))
print_well-good_print (suc k) first zero h lt =
    let at : first + 0 ≡ first = omega arith in
    ap good_print at ∙ left (good_print first) (print_well k (first + 1)) h
print_well-good_print (suc k) first (suc i) h lt =
    let at : first + suc i ≡ first + 1 + i = omega arith in
    ap good_print at
    ∙ print_well-good_print k (first + 1) i (right (good_print first) (print_well k (first + 1)) h)
        (omega (arith, lt))

bytes_print_well : print_well 256 0 ≡ true
unfolding print_well good_print all_digits decimal decimal_fuel atoi
bytes_print_well = refl

record Prints (n : ℕ) : Type 0 where
  short : length (decimal n) ≤ 3
  digits : all_digits (decimal n) ≡ true
  value : atoi (decimal n) ≡ n

byte-Prints : (n : ℕ) → n < 2 ^ 8 → Prints n
unfolding good_print
byte-Prints n lt =
    let at : n ≡ 0 + n = omega arith in
    let good : good_print n ≡ true =
      ap good_print at ∙ print_well-good_print 256 0 n bytes_print_well lt in
    let rest =
      right (leb (length (decimal n)) 3) (all_digits (decimal n) && atoi (decimal n) == n) good in
    record {
      short =
          let e =
            left (leb (length (decimal n)) 3) (all_digits (decimal n) && atoi (decimal n) == n)
              good in
          ground (arith, e);
      digits = left (all_digits (decimal n)) (atoi (decimal n) == n) rest;
      value =
          (==_iff (atoi (decimal n)) n).0
            (right (all_digits (decimal n)) (atoi (decimal n) == n) rest);
    }

-- The characters of an integer are collected.
parse_digits :
    (ds : Bytes) (n k found ip : ℕ) (part s : Bytes)
    → all_digits ds ≡ true
    → n ≡ k + length ds
    → parse_from n found ip part (ds ++ s) ≡ parse_from k found ip (part ++ ds) s
unfolding parse_from all_digits
parse_digits [] n k found ip part s e m =
    let same : n ≡ k = omega arith in
    ap (λ j. parse_from j found ip part s) same
    ∙ ap (λ p. parse_from k found ip p s) (sym (append-nil part))
parse_digits (c ∷ ds) zero k found ip part s e m = absurd (omega (arith, m))
parse_digits (c ∷ ds) (suc n) k found ip part s e m =
    let digit : is_digit c ≡ true = left (is_digit c) (all_digits ds) e in
    let dot : (c == b'.') ≡ false = ground (arith, digit) in
    let inside : (ltb c b'0' || ltb b'9' c) ≡ false = ground (arith, digit) in
    rw (dot, inside)
      (parse_digits ds n k found ip (part ++ (c ∷ [])) s (right (is_digit c) (all_digits ds) e)
          (omega (arith, m))
        ∙ ap (λ p. parse_from k found ip p s) (append_assoc part (c ∷ []) ds))

parse_part :
    (v n k found ip : ℕ) (s : Bytes)
    → v < 2 ^ 8
    → n ≡ suc (k + length (decimal v))
    → parse_from n found ip [] (decimal v ++ (b'.' ∷ s))
      ≡ parse_from k (found + 1) (ip + v * 2 ^ (found * 8)) [] s
unfolding parse_from
parse_part v n k found ip s lt m =
    let p = byte-Prints v lt in
    let value : atoi (decimal v) % 2 ^ 8 ≡ v = ap (λ x. x % 2 ^ 8) p.value ∙ omega (arith, lt) in
    parse_digits (decimal v) n (suc k) found ip [] (b'.' ∷ s) p.digits (omega (arith, m))
    ∙ ap (λ x. parse_from k (found + 1) (ip + x * 2 ^ (found * 8)) [] s) value

parse_last :
    (v n k ip : ℕ)
    → v < 2 ^ 8
    → n ≡ suc (k + length (decimal v))
    → parse_from n 3 ip [] (decimal v) ≡ some (ip + v * 2 ^ 24)
unfolding parse_from
parse_last v n k ip lt m =
    let p = byte-Prints v lt in
    let value : atoi (decimal v) % 2 ^ 8 ≡ v = ap (λ x. x % 2 ^ 8) p.value ∙ omega (arith, lt) in
    ap (parse_from n 3 ip []) (sym (append-nil (decimal v)))
    ∙ (parse_digits (decimal v) n (suc k) 3 ip [] [] p.digits (omega (arith, m))
        ∙ ap (λ x. some (ip + x * 2 ^ 24)) value)

-- Every address that the pages print in dotted form is read back as the same address.
pub parse_ip-dotted : (ip : ℕ) → ip < 2 ^ 32 → parse_ip (dotted ip) ≡ some ip
unfolding parse_ip
parse_ip-dotted ip lt =
    let a : ℕ = ip % 2 ^ 8 in
    let b : ℕ = ip / 2 ^ 8 % 2 ^ 8 in
    let c : ℕ = ip / 2 ^ 16 % 2 ^ 8 in
    let d : ℕ = ip / 2 ^ 24 % 2 ^ 8 in
    let la = (byte-Prints a (omega arith)).short in
    let lb = (byte-Prints b (omega arith)).short in
    let lc = (byte-Prints c (omega arith)).short in
    let ld = (byte-Prints d (omega arith)).short in
    let k1 : ℕ = 31 - length (decimal a) in
    let k2 : ℕ = k1 - 1 - length (decimal b) in
    let k3 : ℕ = k2 - 1 - length (decimal c) in
    let k4 : ℕ = k3 - 1 - length (decimal d) in
    parse_part a 32 k1 0 0 _ (omega arith) (omega (arith, la))
    ∙ (parse_part b k1 k2 1 (0 + a * 2 ^ 0) _ (omega arith) (omega (arith, la, lb))
        ∙ (parse_part c k2 k3 2 (0 + a * 2 ^ 0 + b * 2 ^ 8) _ (omega arith)
              (omega (arith, la, lb, lc))
            ∙ (parse_last d k3 k4 (0 + a * 2 ^ 0 + b * 2 ^ 8 + c * 2 ^ 16) (omega arith)
                  (omega (arith, la, lb, lc, ld))
                ∙ ap (λ n. some n) (omega (arith, lt)))))
