-- ===== src/Httpd/Decode.antt =====
-- Percent-decoding, `httpdHexVal` and `httpdUrlDecode` of httpd/httpd.c.
use ems_esp_link.Prelude.{
  ℕ, zero, suc, ◌+◌, ◌-◌, ◌*◌, ◌≤◌, ◌<◌, ◌≡◌, ◌≢◌, refl, Bool, true, false, ◌&&◌, [], ◌∷◌, leb, ltb,
  ◌==◌, if◌then◌else◌, arith, length, length-take, take, All,
}
use ems_esp_link.Prelude.Text.{Bytes}

-- `httpdHexVal`
unfoldable pub hex_val : ℕ → ℕ
hex_val c =
    if leb b'0' c && leb c b'9'
    then c - b'0'
    else if leb b'A' c && leb c b'F'
    then c - b'A' + 10
    else if leb b'a' c && leb c b'f'
    then c - b'a' + 10
    else 0

-- The variable `esced` with the `escVal` that belongs to it.
pub data Escape : Type 0 where
  plain : Escape
  high : Escape
  low : ℕ → Escape

-- The loop of `httpdUrlDecode`; the second argument is `retLen - d`.
unfoldable pub decode_from : Bytes → ℕ → Escape → Bytes
decode_from [] room e = []
decode_from (c ∷ cs) zero e = []
decode_from (c ∷ cs) (suc room) high = decode_from cs (suc room) (low (hex_val c * 16))
decode_from (c ∷ cs) (suc room) (low v) = (v + hex_val c) ∷ decode_from cs room plain
decode_from (c ∷ cs) (suc room) plain = elim (c == b'%') [
  | true ↦ decode_from cs (suc room) high
  | false ↦ (if c == b'+' then b' ' else c) ∷ decode_from cs room plain
]

-- What `httpdUrlDecode` stores, and whether it adds the terminator.
pub record Decoded : Type 0 where
  pub ret : Bytes
  pub terminated : Bool

unfoldable pub url_decode : Bytes → ℕ → Decoded
unfolding decode_from hex_val
url_decode val ret_len =
    let ret = decode_from val ret_len plain in
    record { ret = ret; terminated = ltb (length ret) ret_len }

-- A hexadecimal digit `c`, in either case, of value `v`.
pub data HexDigit (c v : ℕ) : Type 0 where
  number : c ≡ b'0' + v → v < 10 → HexDigit c v
  upper : c + 10 ≡ b'A' + v → 10 ≤ v → v < 16 → HexDigit c v
  lower : c + 10 ≡ b'a' + v → 10 ≤ v → v < 16 → HexDigit c v

-- `Encodes val text`: `val` is a form encoding of `text`. A byte may always be written `%hh`.
pub data Encodes : Bytes → Bytes → Type 0 where
  nil : Encodes [] []
  literal :
      {c : ℕ} {val text : Bytes}
      → c ≢ b'%'
      → c ≢ b'+'
      → Encodes val text
      → Encodes (c ∷ val) (c ∷ text)
  space :
      {c d : ℕ} {val text : Bytes}
      → c ≡ b'+'
      → d ≡ b' '
      → Encodes val text
      → Encodes (c ∷ val) (d ∷ text)
  percent :
      {p a b c x y : ℕ} {val text : Bytes}
      → p ≡ b'%'
      → HexDigit a x
      → HexDigit b y
      → c ≡ x * 16 + y
      → Encodes val text
      → Encodes (p ∷ a ∷ b ∷ val) (c ∷ text)

hex_val_digit : {c v : ℕ} → HexDigit c v → hex_val c ≡ v
unfolding hex_val
hex_val_digit (number e l) = ground arith
hex_val_digit (upper e l m) = ground arith
hex_val_digit (lower e l m) = ground arith

hex_val_lt : (c : ℕ) → hex_val c < 16
unfolding hex_val
hex_val_lt c = ground arith

decode_from_full : (val : Bytes) (e : Escape) → decode_from val 0 e ≡ []
unfolding decode_from
decode_from_full [] e = refl
decode_from_full (c ∷ cs) e = refl

decode_from-Encodes :
    {val text : Bytes} → Encodes val text → (room : ℕ) → decode_from val room plain ≡ take room text
unfolding decode_from
decode_from-Encodes nil zero = refl
decode_from-Encodes nil (suc room) = refl
decode_from-Encodes (literal n m e) zero = refl
decode_from-Encodes (literal n m e) (suc room) = ground (arith, decode_from-Encodes e room)
decode_from-Encodes (space n m e) zero = refl
decode_from-Encodes (space n m e) (suc room) = ground (arith, decode_from-Encodes e room)
decode_from-Encodes (percent n h l m e) zero = refl
decode_from-Encodes (percent n h l m e) (suc room) =
    ground (arith, decode_from-Encodes e room, hex_val_digit h, hex_val_digit l)

-- Decoding an encoded text gives back as much of the text as the buffer holds, and the result has
-- its terminator exactly when the text is shorter than the buffer.
pub url_decode-Encodes :
    {val text : Bytes}
    → Encodes val text
    → (ret_len : ℕ)
    → ((url_decode val ret_len).ret ≡ take ret_len text)
      × ((url_decode val ret_len).terminated ≡ ltb (length text) ret_len)
unfolding url_decode
url_decode-Encodes {text} e ret_len =
    let same = decode_from-Encodes e ret_len in
    (same, rw same (ground (arith, length-take ret_len text)))

-- A pending high digit leaves room for the low one in a byte.
abbrev IsPending : Escape → Type 0
IsPending plain = Unit
IsPending high = Unit
IsPending (low v) = v ≤ 240

abbrev Stored : ℕ → Bytes → Type 0
Stored room ret = (length ret ≤ room) × All (λ b. b < 256) ret

decode_from-Stored :
    (val : Bytes) (room : ℕ) (e : Escape)
    → All (λ b. b < 256) val
    → IsPending e
    → Stored room (decode_from val room e)
unfolding decode_from
decode_from-Stored [] room e h p = omega arith
decode_from-Stored (c ∷ cs) zero e h p = omega arith
decode_from-Stored (c ∷ cs) (suc room) high h p =
    decode_from-Stored cs (suc room) (low (hex_val c * 16)) h.1 (omega (arith, hex_val_lt c))
decode_from-Stored (c ∷ cs) (suc room) (low v) h p =
    ground (arith, decode_from-Stored cs room plain h.1 tt, hex_val_lt c)
decode_from-Stored (c ∷ cs) (suc room) plain h p =
    ground
      (arith, decode_from-Stored cs room plain h.1 tt, decode_from-Stored cs (suc room) high h.1 tt)

-- Whatever the input, malformed escapes included, `httpdUrlDecode` stores at most `retLen` bytes,
-- each in the range of a byte, and the terminator that it may add still lies in the buffer.
pub url_decode_bounds :
    (val : Bytes) (ret_len : ℕ)
    → All (λ b. b < 256) val
    → let r = url_decode val ret_len in
      (length r.ret ≤ ret_len)
      × All (λ b. b < 256) r.ret
      × (r.terminated ≡ true → length r.ret < ret_len)
unfolding url_decode
url_decode_bounds val ret_len h =
    let s = decode_from-Stored val ret_len plain h tt in (s.0, s.1, λ t. ground arith)
