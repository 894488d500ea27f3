-- ===== src/SerBridge/Telegram/Text.antt =====
-- The text of a telegram on the console.
use native.Mathlib.Nat.{pow-suc}
use ems_esp_link.Prelude.{
  ℕ, zero, suc, ◌+◌, ◌-◌, ◌/◌, ◌%◌, ◌^◌, ◌≤◌, ◌<◌, ◌≡◌, [], ◌∷◌, ◌++◌, ◌⊎◌, inl, inr, arith, length,
  length-append, length-replicate, replicate,
}
use ems_esp_link.Prelude.Text.{Bytes, codes, decimal, decimal_fuel}
use ems_esp_link.SerBridge.Telegram.{EmsRxBuf, zero_pad, padded, int_div, int_mod, caption}

decimal_fuel-digits :
    (k f n : ℕ) (acc : Bytes) → n < 10 ^ suc k → length (decimal_fuel f n acc) ≤ suc k + length acc
unfolding decimal_fuel
decimal_fuel-digits k zero n acc h = omega arith
decimal_fuel-digits zero (suc f) n acc h = ground arith
decimal_fuel-digits (suc k) (suc f) n acc h =
    ground (arith, pow-suc 10 (suc k), decimal_fuel-digits k f (n / 10) ((b'0' + n % 10) ∷ acc))

digits_lem : (k n : ℕ) → n < 10 ^ suc k → length (decimal_fuel 10 n []) ≤ suc k
digits_lem k n h = omega (arith, decimal_fuel-digits k 10 n [] h)

-- A number of at most `suc k` digits, or the pattern of minus such a number.
abbrev IsShort : ℕ → ℕ → Type 0
IsShort k n = (n < 10 ^ suc k) ⊎ ((2 ^ 31 ≤ n) × (2 ^ 32 - n < 10 ^ suc k))

signed_length : (k n : ℕ) → IsShort k n → 10 ^ suc k ≤ 2 ^ 31 → length (decimal n) ≤ suc (suc k)
unfolding decimal
signed_length k n (inl l) m = ground (arith, digits_lem k n l)
signed_length k n (inr (g, l)) m = ground (arith, digits_lem k (2 ^ 32 - n) l)

zero_pad-length : (w m : ℕ) (ds : Bytes) → length ds ≤ m → w ≤ m → length (zero_pad w ds) ≤ m
zero_pad-length w m ds h wide = omega (
  arith,
  length-append (replicate (w - length ds) b'0') ds,
  length-replicate {A = ℕ} (w - length ds) b'0',
)

padded-length : (k n : ℕ) → n < 10 ^ suc k → 10 ^ suc k ≤ 2 ^ 31 → length (padded (suc k) n) ≤ suc k
unfolding padded
padded-length k n l m =
    ground (
      arith,
      zero_pad-length (suc k) (suc k) (decimal_fuel 10 n []) (digits_lem k n l) (omega arith),
    )

padded_signed_length :
    (k n : ℕ) → IsShort k n → 10 ^ suc k ≤ 2 ^ 31 → length (padded (suc k) n) ≤ suc (suc k)
unfolding padded
padded_signed_length k n (inl l) m = omega (arith, padded-length k n l m)
padded_signed_length k n (inr (g, l)) m =
    let digits = decimal_fuel 10 (2 ^ 32 - n) [] in
    ground (arith, zero_pad-length k (suc k) digits (digits_lem k (2 ^ 32 - n) l) (omega arith))

seconds-IsShort : (w : ℕ) → w < 2 ^ 32 → IsShort 6 (int_div w 1000)
unfolding int_div
seconds-IsShort w h = ground arith

millis-IsShort : (w : ℕ) → w < 2 ^ 32 → IsShort 2 (int_mod w 1000)
unfolding int_mod
millis-IsShort w h = ground arith

count_length : (n : ℕ) → n < 1002 → length (decimal ((n + 2 ^ 32 - 2) % 2 ^ 32)) ≤ 3
unfolding decimal
count_length n h =
    let m = (n + 2 ^ 32 - 2) % 2 ^ 32 in ground (arith, digits_lem 2 m, digits_lem 0 (2 ^ 32 - m))

-- The six parts of the text and the characters between them.
joined-length :
    (a b c d e f : Bytes)
    → length (
        a
        ++ (codes ":"
            ++ (b
                ++ (codes ":"
                    ++ (c
                        ++ (codes " ["
                            ++ (d ++ (codes "." ++ (e ++ (codes "]: <" ++ (f ++ codes ">")))))))))))
      ≡ length a + length b + length c + length d + length e + length f + 10
joined-length a b c d e f =
    let f1 = f ++ codes ">" in
    let e1 = e ++ (codes "]: <" ++ f1) in
    let d1 = d ++ (codes "." ++ e1) in
    let c1 = c ++ (codes " [" ++ d1) in
    let b1 = b ++ (codes ":" ++ c1) in
    omega (
      arith,
      length-append f (codes ">"),
      length-append e (codes "]: <" ++ f1),
      length-append d (codes "." ++ e1),
      length-append c (codes " [" ++ d1),
      length-append b (codes ":" ++ c1),
      length-append a (codes ":" ++ b1),
    )

-- The text in front of the bytes fits `tmp`, of 32 bytes, with its terminator, whatever the two
-- clocks show, if the telegram is not longer than its three digits.
pub caption_fits :
    (p : EmsRxBuf)
    → p.sntp_time_stamp < 2 ^ 32
    → p.sys_time_stamp < 2 ^ 32
    → p.write_ptr < 1002
    → length (caption p) + 1 ≤ 32
unfolding caption
caption_fits p h1 h2 h3 =
    let hours = padded 2 (p.sntp_time_stamp % 86400 / 3600) in
    let minutes = padded 2 (p.sntp_time_stamp % 3600 / 60) in
    let seconds = padded 2 (p.sntp_time_stamp % 60) in
    let uptime = decimal (int_div p.sys_time_stamp 1000) in
    let millis = padded 3 (int_mod p.sys_time_stamp 1000) in
    let bytes = decimal ((p.write_ptr + 2 ^ 32 - 2) % 2 ^ 32) in
    let hours_fit : length hours ≤ 2 = padded-length 1 _ (omega arith) (omega arith) in
    let minutes_fit : length minutes ≤ 2 = padded-length 1 _ (omega arith) (omega arith) in
    let seconds_fit : length seconds ≤ 2 = padded-length 1 _ (omega arith) (omega arith) in
    let uptime_fits : length uptime ≤ 8 =
      signed_length 6 _ (seconds-IsShort p.sys_time_stamp h2) (omega arith) in
    let millis_fit : length millis ≤ 4 =
      padded_signed_length 2 _ (millis-IsShort p.sys_time_stamp h2) (omega arith) in
    let bytes_fit : length bytes ≤ 3 = count_length p.write_ptr h3 in
    omega (arith, joined-length hours minutes seconds uptime millis bytes)
