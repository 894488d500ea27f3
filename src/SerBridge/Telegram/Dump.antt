-- ===== src/SerBridge/Telegram/Dump.antt =====
-- The bytes of a telegram on the console.
use ems_esp_link.Prelude.{
  ℕ, zero, suc, ◌+◌, ◌-◌, ◌*◌, ◌/◌, ◌%◌, ◌^◌, ◌<◌, ◌≤◌, ◌≡◌, refl, ap, sym, ◌∙◌, if_lem, length, [],
  ◌∷◌, ◌++◌, arith, take, All,
}
use ems_esp_link.Prelude.Text.{Bytes}
use ems_esp_link.Prelude.Words.{sub32, slt}
use ems_esp_link.CharRing.{CharRing}
use ems_esp_link.CharRing
use ems_esp_link.Console.{console_write_str}
use ems_esp_link.Httpd.Decode.{hex_val}
use ems_esp_link.SerBridge.Telegram.{
  EmsRxBuf, hex_nipple, caption, write_dump, shown_bytes, show_telegram,
}

-- A blank and two hexadecimal digits for each byte.
abbrev pub dump : Bytes → Bytes
dump [] = []
dump (b ∷ bs) = b' ' ∷ hex_nipple (b / 16) ∷ hex_nipple (b % 16) ∷ dump bs

-- The bytes that such a text denotes.
abbrev pub undump : Bytes → Bytes
undump (_ ∷ h ∷ l ∷ rest) = (hex_val h * 16 + hex_val l) ∷ undump rest
undump other = []

write_dump-write_str :
    (bs rest : Bytes) (r : CharRing)
    → console_write_str (write_dump r bs) rest ≡ console_write_str r (dump bs ++ rest)
unfolding write_dump CharRing.write_str
write_dump-write_str [] rest r = refl
write_dump-write_str (b ∷ bs) rest r = write_dump-write_str bs rest _

write_str-append :
    (s t : Bytes) (r : CharRing)
    → console_write_str (console_write_str r s) t ≡ console_write_str r (s ++ t)
unfolding CharRing.write_str
write_str-append [] t r = refl
write_str-append (c ∷ s) t r = write_str-append s t _

hex_val-hex_nipple :
    (b : ℕ) → b < 2 ^ 8 → hex_val (hex_nipple (b / 16)) * 16 + hex_val (hex_nipple (b % 16)) ≡ b
unfolding hex_val hex_nipple
hex_val-hex_nipple b h = ground arith

undump-dump : (bs : Bytes) → All (λ b. b < 2 ^ 8) bs → undump (dump bs) ≡ bs
undump-dump [] a = refl
undump-dump (b ∷ bs) a = cc (hex_val-hex_nipple b a.0, undump-dump bs a.1)

All-take : (n : ℕ) (bs : Bytes) → All (λ b. b < 2 ^ 8) bs → All (λ b. b < 2 ^ 8) (take n bs)
All-take zero bs a = tt
All-take (suc n) [] a = tt
All-take (suc n) (b ∷ bs) a = (a.0, All-take n bs a.1)

take_buffer : (n : ℕ) (xs ys : Bytes) → n ≤ length xs → take n (xs ++ ys) ≡ take n xs
take_buffer zero xs ys le = refl
take_buffer (suc n) [] ys le = absurd (omega (arith, le))
take_buffer (suc n) (x ∷ xs) ys le = ap (λ r. x ∷ r) (take_buffer n xs ys (omega (arith, le)))

-- A count that is not past the buffer shows bytes of the buffer alone.
shown_bytes_lem :
    (behind : Bytes) (p : EmsRxBuf)
    → length p.buffer ≤ 128
    → p.write_ptr ≤ length p.buffer + 2
    → shown_bytes behind p ≡ take (p.write_ptr - 2) p.buffer
unfolding shown_bytes
shown_bytes_lem behind p room fits =
    if_lem (λ (s : Bytes). s ≡ take (p.write_ptr - 2) p.buffer) (slt 0 (sub32 p.write_ptr 2)) _ _
      (λ t.
        let same : sub32 p.write_ptr 2 ≡ p.write_ptr - 2 = ground (arith, t, room, fits) in
        ap (λ n. take n (p.buffer ++ behind)) same
        ∙ take_buffer (p.write_ptr - 2) p.buffer behind (omega (arith, fits)))
      (λ f.
        let few : p.write_ptr - 2 ≡ 0 = ground (arith, f, room, fits) in
        sym (ap (λ n. take n p.buffer) few))

-- A telegram whose count, with its trailer of two, is not past a buffer of at most 128 bytes adds one
-- line to the console, whatever lies in memory behind: the text with the times and the length, then a dump
-- from which the bytes of the telegram without its trailer can be read back. A count below two shows none.
pub show_telegram-dump :
    (behind : Bytes) (r : CharRing) (p : EmsRxBuf)
    → All (λ b. b < 2 ^ 8) p.buffer
    → length p.buffer ≤ 128
    → p.write_ptr ≤ length p.buffer + 2
    → (show_telegram behind r p
        ≡ console_write_str r
            (caption p ++ (dump (take (p.write_ptr - 2) p.buffer) ++ (b'\n' ∷ []))))
      × (undump (dump (take (p.write_ptr - 2) p.buffer)) ≡ take (p.write_ptr - 2) p.buffer)
unfolding show_telegram CharRing.write_str
show_telegram-dump behind r p a room fits =
    let bytes = take (p.write_ptr - 2) p.buffer in
    (
      ap (λ s. console_write_str (write_dump (console_write_str r (caption p)) s) (b'\n' ∷ []))
            (shown_bytes_lem behind p room fits)
          ∙ write_dump-write_str bytes (b'\n' ∷ []) (console_write_str r (caption p))
          ∙ write_str-append (caption p) (dump bytes ++ (b'\n' ∷ [])) r,
      undump-dump bytes (All-take (p.write_ptr - 2) p.buffer a),
    )
