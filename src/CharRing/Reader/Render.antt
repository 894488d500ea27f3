-- ===== src/CharRing/Reader/Render.antt =====
-- The readers' loop: it ends, it fits its buffer, and it shows the characters in order.
use ems_esp_link.Prelude.{
  ℕ, zero, suc, ◌+◌, ◌-◌, ◌%◌, ◌≤◌, ◌<◌, ◌≡◌, [], ◌∷◌, ◌++◌, ltb, if◌then◌else◌, arith, length,
  get_or, length-append,
}
use ems_esp_link.Prelude.Text.{Bytes, codes, decimal, length-decimal}
use ems_esp_link.CharRing.{CharRing, span}
use ems_esp_link.CharRing.Inv.{IsValid, next_lem, distance_lem}
use ems_esp_link.CharRing.Reader.{preamble, render}

-- Escaped characters are added while the output is below 2040 bytes.
unfoldable pub escape_all : (ℕ → Bytes) → Bytes → Bytes → Bytes
escape_all escape out [] = out
escape_all escape out (c ∷ cs) =
    let more = escape_all escape (out ++ escape c) cs in if ltb (length out) 2040 then more else out

-- No character takes more than the six bytes of a `\\u` escape.
abbrev pub Short : (ℕ → Bytes) → Type 0
Short escape = (c : ℕ) → length (escape c) ≤ 6

pub length-preamble : (len start : ℕ) → length (preamble len start) ≤ 50
length-preamble len start = omega (
  arith,
  length-append (decimal len) (codes ", \"start\":" ++ (decimal start ++ codes ", \"text\": \"")),
  length-append (decimal start) (codes ", \"text\": \""),
  length-decimal len,
  length-decimal start,
)

module _ (size : ℕ) (escape : ℕ → Bytes) where
  -- From an index that is `n` steps before `wr`, the loop shows the `n` characters on the way.
  pub render-span :
      (f n : ℕ) (r : CharRing) (out : Bytes) (rd : ℕ)
      → IsValid size r
      → rd < size
      → (r.wr + size - rd) % size ≡ n
      → n < f
      → render size escape f r out rd ≡ escape_all escape out (span size r.buf rd n)
  unfolding render escape_all
  render-span zero n r out rd v hr e h = absurd (omega arith)
  render-span (suc f) zero r out rd v hr e h = ground (arith, distance_lem size r.wr rd v.wr_in hr)
  render-span (suc f) (suc n) r out rd v hr e h = ground (
    arith,
    distance_lem size r.wr rd v.wr_in hr,
    next_lem size rd hr,
    distance_lem size r.wr ((rd + 1) % size) v.wr_in,
    render-span f n r (out ++ escape (get_or r.buf rd 0)) ((rd + 1) % size) v,
  )

  pub render-length :
      (f : ℕ) (r : CharRing) (out : Bytes) (rd : ℕ)
      → Short escape
      → length out ≤ 2045
      → length (render size escape f r out rd) ≤ 2045
  unfolding render
  render-length zero r out rd s h = h
  render-length (suc f) r out rd s h = ground (
    arith,
    render-length f r (out ++ escape (get_or r.buf rd 0)) ((rd + 1) % size) s,
    length-append out (escape (get_or r.buf rd 0)),
    s (get_or r.buf rd 0),
  )
