-- ===== src/Base64.antt =====
-- Base64 decoding, httpd/base64.c. The encoders of that file are compiled out.
pub mod RoundTrip
use ems_esp_link.Prelude.{
  ℕ, zero, suc, ◌+◌, ◌-◌, ◌*◌, ◌/◌, ◌%◌, ◌^◌, Bool, true, false, ◌||◌, Option, none, some, List, [],
  ◌∷◌, leb, ◌==◌, if◌then◌else◌, get_or,
}
use ems_esp_link.Prelude.Text.{Bytes, is_space}

-- `base64dec_tab`
pub base64dec_tab : Bytes
base64dec_tab =
    255 ∷ 255 ∷ 255 ∷ 255 ∷ 255 ∷ 255 ∷ 255 ∷ 255 ∷ 255 ∷ 255 ∷ 255 ∷ 255 ∷ 255 ∷ 255 ∷ 255 ∷ 255
    ∷ 255 ∷ 255 ∷ 255 ∷ 255 ∷ 255 ∷ 255 ∷ 255 ∷ 255 ∷ 255 ∷ 255 ∷ 255 ∷ 255 ∷ 255 ∷ 255 ∷ 255 ∷ 255
    ∷ 255 ∷ 255 ∷ 255 ∷ 255 ∷ 255 ∷ 255 ∷ 255 ∷ 255 ∷ 255 ∷ 255 ∷ 255 ∷ 62 ∷ 255 ∷ 255 ∷ 255 ∷ 63
    ∷ 52 ∷ 53 ∷ 54 ∷ 55 ∷ 56 ∷ 57 ∷ 58 ∷ 59 ∷ 60 ∷ 61 ∷ 255 ∷ 255 ∷ 255 ∷ 0 ∷ 255 ∷ 255 ∷ 255 ∷ 0
    ∷ 1 ∷ 2 ∷ 3 ∷ 4 ∷ 5 ∷ 6 ∷ 7 ∷ 8 ∷ 9 ∷ 10 ∷ 11 ∷ 12 ∷ 13 ∷ 14 ∷ 15 ∷ 16 ∷ 17 ∷ 18 ∷ 19 ∷ 20 ∷ 21
    ∷ 22 ∷ 23 ∷ 24 ∷ 25 ∷ 255 ∷ 255 ∷ 255 ∷ 255 ∷ 255 ∷ 255 ∷ 26 ∷ 27 ∷ 28 ∷ 29 ∷ 30 ∷ 31 ∷ 32 ∷ 33
    ∷ 34 ∷ 35 ∷ 36 ∷ 37 ∷ 38 ∷ 39 ∷ 40 ∷ 41 ∷ 42 ∷ 43 ∷ 44 ∷ 45 ∷ 46 ∷ 47 ∷ 48 ∷ 49 ∷ 50 ∷ 51 ∷ 255
    ∷ 255 ∷ 255 ∷ 255 ∷ 255 ∷ 255 ∷ 255 ∷ 255 ∷ 255 ∷ 255 ∷ 255 ∷ 255 ∷ 255 ∷ 255 ∷ 255 ∷ 255 ∷ 255
    ∷ 255 ∷ 255 ∷ 255 ∷ 255 ∷ 255 ∷ 255 ∷ 255 ∷ 255 ∷ 255 ∷ 255 ∷ 255 ∷ 255 ∷ 255 ∷ 255 ∷ 255 ∷ 255
    ∷ 255 ∷ 255 ∷ 255 ∷ 255 ∷ 255 ∷ 255 ∷ 255 ∷ 255 ∷ 255 ∷ 255 ∷ 255 ∷ 255 ∷ 255 ∷ 255 ∷ 255 ∷ 255
    ∷ 255 ∷ 255 ∷ 255 ∷ 255 ∷ 255 ∷ 255 ∷ 255 ∷ 255 ∷ 255 ∷ 255 ∷ 255 ∷ 255 ∷ 255 ∷ 255 ∷ 255 ∷ 255
    ∷ 255 ∷ 255 ∷ 255 ∷ 255 ∷ 255 ∷ 255 ∷ 255 ∷ 255 ∷ 255 ∷ 255 ∷ 255 ∷ 255 ∷ 255 ∷ 255 ∷ 255 ∷ 255
    ∷ 255 ∷ 255 ∷ 255 ∷ 255 ∷ 255 ∷ 255 ∷ 255 ∷ 255 ∷ 255 ∷ 255 ∷ 255 ∷ 255 ∷ 255 ∷ 255 ∷ 255 ∷ 255
    ∷ 255 ∷ 255 ∷ 255 ∷ 255 ∷ 255 ∷ 255 ∷ 255 ∷ 255 ∷ 255 ∷ 255 ∷ 255 ∷ 255 ∷ 255 ∷ 255 ∷ 255 ∷ 255
    ∷ 255 ∷ 255 ∷ 255 ∷ 255 ∷ 255 ∷ 255 ∷ 255 ∷ 255 ∷ 255 ∷ 255 ∷ 255 ∷ 255 ∷ 255 ∷ 255 ∷ 255 ∷ 255
    ∷ 255 ∷ 255 ∷ 255 ∷ 255 ∷ []

-- A byte that is stored in front of what the rest of the loop stores.
abbrev pub store : ℕ → Option Bytes → Option Bytes
store b none = none
store b (some out) = some (b ∷ out)

-- One digit of 6 bits. `v << 6 | ch` is a sum, since the low bits are free. `more` is the rest of
-- the loop over `out_len - io`, `v` and `rem`; storing past `out_len` is the error -1.
unfoldable pub take_digit : (ℕ → ℕ → ℕ → Option Bytes) → ℕ → ℕ → ℕ → ℕ → Option Bytes
take_digit more room v rem ch =
    let v' = (v * 2 ^ 6 + ch) % 2 ^ 32 in
    let rem' = rem + 6 in
    elim (leb 8 rem') [
      | false ↦ more room v' rem'
      | true ↦ elim room [
        | zero ↦ none
        | suc left ↦ store (v' / 2 ^ (rem' - 8) % 256) (more left v' (rem' - 8))
      ]
    ]

-- What stands behind the loop.
unfoldable pub finish : ℕ → ℕ → ℕ → Option Bytes
finish room v rem = elim (leb 8 rem) [
  | false ↦ some []
  | true ↦ elim room [ zero ↦ none | suc left ↦ some (v / 2 ^ (rem - 8) % 256 ∷ []) ]
]

-- The loop: blanks are skipped, and `=` or a byte that is no digit ends it.
unfoldable pub decode_from : Bytes → ℕ → ℕ → ℕ → Option Bytes
decode_from [] room v rem = finish room v rem
decode_from (c ∷ s) room v rem =
    let ch = get_or base64dec_tab c 255 in
    elim (is_space c) [
      | true ↦ decode_from s room v rem
      | false ↦ elim (c == b'=' || ch == 255) [
        | true ↦ finish room v rem
        | false ↦ take_digit (decode_from s) room v rem ch
      ]
    ]

-- `base64_decode`: what it stores, or `none` for -1.
unfoldable pub base64_decode : Bytes → ℕ → Option Bytes
base64_decode text out_len = decode_from text out_len 0 0
