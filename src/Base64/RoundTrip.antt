-- ===== src/Base64/RoundTrip.antt =====
-- Decoding against base 64 as RFC 4648 writes it.
use ems_esp_link.Prelude.{
  ℕ, zero, suc, ◌+◌, ◌-◌, ◌*◌, ◌/◌, ◌%◌, ◌^◌, ◌≤◌, ◌<◌, ◌≡◌, refl, ◌∙◌, Bool, true, not, ◌&&◌, ◌||◌,
  Option, none, some, [], ◌∷◌, ltb, leb, ◌==◌, if◌then◌else◌, arith, length, Bool-cases, inl, inr,
  get_or, All,
}
use ems_esp_link.Prelude.Text.{Bytes, is_space}
use ems_esp_link.Prelude.Table.{every, every_sound}
use ems_esp_link.Base64.{base64dec_tab, store, take_digit, finish, decode_from, base64_decode}

-- The alphabet.
unfoldable pub digit : ℕ → ℕ
digit x =
    if ltb x 26
    then b'A' + x
    else if ltb x 52
    then b'a' + (x - 26)
    else if ltb x 62
    then b'0' + (x - 52)
    else if x == 62
    then b'+'
    else b'/'

-- The encoding of a text, padded.
unfoldable pub encode : Bytes → Bytes
encode [] = []
encode (a ∷ []) = digit (a / 4) ∷ digit (a % 4 * 16) ∷ b'=' ∷ b'=' ∷ []
encode (a ∷ b ∷ []) = digit (a / 4) ∷ digit (a % 4 * 16 + b / 16) ∷ digit (b % 16 * 4) ∷ b'=' ∷ []
encode (a ∷ b ∷ c ∷ rest) =
    digit (a / 4)
    ∷ digit (a % 4 * 16 + b / 16)
    ∷ digit (b % 16 * 4 + c / 64)
    ∷ digit (c % 64)
    ∷ encode rest

-- The table gives each digit of the alphabet its value, and no digit is a blank or `=`.
abbrev is_inverse : ℕ → Bool
is_inverse x =
    (get_or base64dec_tab (digit x) 255 == x) && (not (is_space (digit x)) && not (digit x == b'='))

inverse_table : every is_inverse 64 ≡ true
unfolding every digit base64dec_tab
inverse_table = refl

decode_digit :
    (x : ℕ) (s : Bytes) (room v rem : ℕ)
    → x < 64
    → decode_from (digit x ∷ s) room v rem ≡ take_digit (decode_from s) room v rem x
unfolding decode_from
decode_digit x s room v rem h = ground (arith, every_sound is_inverse x 64 h inverse_table)

-- What the loop should store: the text, if there is room for it.
abbrev fitting : ℕ → Bytes → Option Bytes
fitting room text = if leb (length text) room then some text else none

-- A byte is stored if there is room.
abbrev emit : ℕ → ℕ → (ℕ → Option Bytes) → Option Bytes
emit zero b more = none
emit (suc left) b more = store b (more left)

abbrev shifted : ℕ → ℕ → ℕ
shifted v x = (v * 2 ^ 6 + x) % 2 ^ 32

module _ (x : ℕ) (s : Bytes) (room v : ℕ) (small : x < 64) where
  step_0 : decode_from (digit x ∷ s) room v 0 ≡ decode_from s room (shifted v x) 6
  step_0 = decode_digit x s room v 0 small ∙ (unfold take_digit in refl)

  step_6 :
      decode_from (digit x ∷ s) room v 6
      ≡ emit room (shifted v x / 16 % 256) (λ left. decode_from s left (shifted v x) 4)
  step_6 = decode_digit x s room v 6 small ∙ (unfold take_digit in ground arith)

  step_4 :
      decode_from (digit x ∷ s) room v 4
      ≡ emit room (shifted v x / 4 % 256) (λ left. decode_from s left (shifted v x) 2)
  step_4 = decode_digit x s room v 4 small ∙ (unfold take_digit in ground arith)

  step_2 :
      decode_from (digit x ∷ s) room v 2
      ≡ emit room (shifted v x / 1 % 256) (λ left. decode_from s left (shifted v x) 0)
  step_2 = decode_digit x s room v 2 small ∙ (unfold take_digit in ground arith)

-- At a pad character the loop ends, with fewer than 8 bits left.
decode_pad : (s : Bytes) (room v rem : ℕ) → rem < 8 → decode_from (b'=' ∷ s) room v rem ≡ some []
unfolding decode_from finish
decode_pad s room v rem h = ground arith

fitting-cons :
    (a room : ℕ) (text : Bytes) → emit room a (λ left. fitting left text) ≡ fitting room (a ∷ text)
fitting-cons a zero text = ground arith
fitting-cons a (suc room) text = ground arith

emit-eq :
    (room : ℕ) {a b : ℕ} {f g : ℕ → Option Bytes}
    → b ≡ a
    → ((left : ℕ) → f left ≡ g left)
    → emit room b f ≡ emit room a g
emit-eq zero e h = refl
emit-eq (suc left) e h = rw (e, h left)

fitting_nil : (room : ℕ) → some [] ≡ fitting room []
fitting_nil room = ground arith

-- The end of a text in `n` digits and a pad.
decode_end :
    (s : Bytes) (room v rem : ℕ) → rem < 8 → decode_from (b'=' ∷ s) room v rem ≡ fitting room []
decode_end s room v rem h = decode_pad s room v rem h ∙ fitting_nil room

decode_nil : (room v : ℕ) → decode_from [] room v 0 ≡ fitting room []
unfolding decode_from finish
decode_nil room v = fitting_nil room

decode_text :
    (text : Bytes) (room v : ℕ)
    → All (λ b. b < 256) text
    → decode_from (encode text) room v 0 ≡ fitting room text
unfolding encode
decode_text [] room v h = decode_nil room v
decode_text (a ∷ []) room v h =
    step_0 (a / 4) _ room v (omega arith)
    ∙ step_6 (a % 4 * 16) _ room _ (omega arith)
    ∙ emit-eq room (omega arith) (λ l. decode_end (b'=' ∷ []) l _ 4 (omega arith))
    ∙ fitting-cons a room []
decode_text (a ∷ b ∷ []) room v h =
    step_0 (a / 4) _ room v (omega arith)
    ∙ step_6 (a % 4 * 16 + b / 16) _ room _ (omega arith)
    ∙ emit-eq room (omega arith) (λ l.
      step_4 (b % 16 * 4) _ l _ (omega arith)
      ∙ emit-eq l (omega arith) (λ k. decode_end [] k _ 2 (omega arith))
      ∙ fitting-cons b l [])
    ∙ fitting-cons a room (b ∷ [])
decode_text (a ∷ b ∷ c ∷ rest) room v h =
    step_0 (a / 4) _ room v (omega arith)
    ∙ step_6 (a % 4 * 16 + b / 16) _ room _ (omega arith)
    ∙ emit-eq room (omega arith) (λ l.
      step_4 (b % 16 * 4 + c / 64) _ l _ (omega arith)
      ∙ emit-eq l (omega arith) (λ k.
        step_2 (c % 64) _ k _ (omega arith)
        ∙ emit-eq k (omega arith) (λ j. decode_text rest j _ h.1.1.1)
        ∙ fitting-cons c k rest)
      ∙ fitting-cons b l (c ∷ rest))
    ∙ fitting-cons a room (b ∷ c ∷ rest)

-- The error, or at most `room` bytes.
pub data Bounded (room : ℕ) : Option Bytes → Type 0 where
  failed : Bounded room none
  stored : {out : Bytes} → length out ≤ room → Bounded room (some out)

store-Bounded : (b left : ℕ) (o : Option Bytes) → Bounded left o → Bounded (suc left) (store b o)
store-Bounded b left none h = failed
store-Bounded b left (some out) (stored h) = stored (omega arith)

finish-Bounded : (room v rem : ℕ) → Bounded room (finish room v rem)
unfolding finish
finish-Bounded room v rem = elim (Bool-cases (leb 8 rem)) [
  | inr e ↦ rw (e, finish) (stored (omega arith))
  | inl e ↦ rw (e, finish) (at_room room)
]
  where
    at_room :
        (r : ℕ)
        → Bounded r (elim r [ zero ↦ none | suc left ↦ some (v / 2 ^ (rem - 8) % 256 ∷ []) ])
    at_room zero = failed
    at_room (suc left) = stored (omega arith)

take_digit-Bounded :
    (more : ℕ → ℕ → ℕ → Option Bytes) (room v rem ch : ℕ)
    → ((r v' rem' : ℕ) → Bounded r (more r v' rem'))
    → Bounded room (take_digit more room v rem ch)
unfolding take_digit
take_digit-Bounded more room v rem ch keep = elim (Bool-cases (leb 8 (rem + 6))) [
  | inr e ↦ rw (e, take_digit) (keep room (shifted v ch) (rem + 6))
  | inl e ↦ rw (e, take_digit) (at_room room)
]
  where
    at_room :
        (r : ℕ)
        → Bounded r (elim r [
          | zero ↦ none
          | suc left ↦
              store
                (shifted v ch / 2 ^ (rem + 6 - 8) % 256)
                (more left (shifted v ch) (rem + 6 - 8))
        ])
    at_room zero = failed
    at_room (suc left) = store-Bounded _ left _ (keep left (shifted v ch) (rem + 6 - 8))

decode_from-Bounded : (s : Bytes) (room v rem : ℕ) → Bounded room (decode_from s room v rem)
unfolding decode_from
decode_from-Bounded [] room v rem = finish-Bounded room v rem
decode_from-Bounded (c ∷ s) room v rem = elim (Bool-cases (is_space c)) [
  | inl e ↦ rw (e, decode_from) (decode_from-Bounded s room v rem)
  | inr e ↦
      rw (e, decode_from)
        (elim (Bool-cases (c == b'=' || get_or base64dec_tab c 255 == 255)) [
          | inl e' ↦ rw (e', decode_from) (finish-Bounded room v rem)
          | inr e' ↦
              rw (e', decode_from)
                (take_digit-Bounded (decode_from s) room v rem (get_or base64dec_tab c 255)
                  (decode_from-Bounded s))
        ])
]

-- Whatever the input, at most `out_len` bytes are stored.
pub base64_decode_bounds :
    (text : Bytes) (out_len : ℕ) → Bounded out_len (base64_decode text out_len)
unfolding base64_decode
base64_decode_bounds text out_len = decode_from-Bounded text out_len 0 0

-- Decoding the padded encoding of any bytes gives them back, or the error -1 when they do not fit
-- the output.
pub base64_decode-encode :
    (text : Bytes) (out_len : ℕ)
    → All (λ b. b < 256) text
    → base64_decode (encode text) out_len ≡ (if leb (length text) out_len then some text else none)
unfolding base64_decode
base64_decode-encode text out_len h = decode_text text out_len 0 h
