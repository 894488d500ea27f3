-- ===== src/CharRing/Reader/Window.antt =====
-- The readers' answers against the text written so far: which characters they show, and that they
-- fit the buffer of 2048 bytes.
use native.Mathlib.Nat.{mod-eq_of_lt, mod-eq-sub-mod, mod-add-mod}
use native.Mathlib.Decide.{dec_lt}
use ems_esp_link.Prelude.{
  ℕ, zero, suc, ◌+◌, ◌-◌, ◌%◌, ◌^◌, ◌≤◌, ◌<◌, min, ◌≡◌, refl, ap, sym, ◌∙◌, ◌⊎◌, inl, inr, not,
  ◌||◌, some, [], ◌++◌, ltb, ◌==◌, if◌then◌else◌, arith, length, drop, length-append, drop-drop,
}
use ems_esp_link.Prelude.Text.{Bytes, codes, atoi, atoi_lt}
use ems_esp_link.Httpd.Args.{Found, no_line, value, missing, find_arg}
use ems_esp_link.Httpd.Conn.{Conn, done}
use ems_esp_link.Httpd.Send.Json.{json_head, send-json_header}
use ems_esp_link.CharRing.{CharRing, count, span}
use ems_esp_link.CharRing.Inv.{distance_lem, count_lt}
use ems_esp_link.CharRing.History.{Shows, count-Shows}
use ems_esp_link.CharRing.Reader.{start_offset, preamble, render, answer, ajax, ajax_open}
use ems_esp_link.CharRing.Reader.Render.{
  escape_all, Short, length-preamble, render-span, render-length,
}

-- A reduction that goes round at most once.
mod_once :
    (size i : ℕ)
    → i < size + size
    → ((i < size) × (i % size ≡ i)) ⊎ ((size ≤ i) × (i % size ≡ i - size))
mod_once size i h = elim (dec_lt i size) [
  | yes p ↦ inl (p, mod-eq_of_lt p)
  | no p ↦ inr (
    omega arith,
    mod-eq-sub-mod {n = i} {m = size} (omega arith)
        ∙ mod-eq_of_lt {n = i - size} {m = size} (omega arith),
  )
]

-- The distance to `wr` falls by what is skipped.
skip_lem :
    (size wr rd k n : ℕ)
    → wr < size
    → rd < size
    → (wr + size - rd) % size ≡ n
    → k ≤ n
    → (wr + size - (rd + k) % size) % size ≡ n - k
skip_lem size wr rd k n hw hr e h = ground (
  arith,
  distance_lem size wr rd hw hr,
  mod_once size (rd + k),
  distance_lem size wr ((rd + k) % size) hw,
)

span-drop :
    (size : ℕ) (buf : Bytes) (k i n : ℕ)
    → i < size
    → k ≤ n
    → drop k (span size buf i n) ≡ span size buf ((i + k) % size) (n - k)
span-drop size buf zero i n hi h =
    let e : (i + 0) % size ≡ i = ground (arith, mod_once size (i + 0)) in
    let e' : n - 0 ≡ n = omega arith in rw (e, e')
span-drop size buf (suc k) i zero hi h = absurd (omega arith)
span-drop size buf (suc k) i (suc n) hi h =
    let e : suc n - suc k ≡ n - k = omega arith in
    rw (e, ← turn) (span-drop size buf k ((i + 1) % size) n (omega arith) (omega arith))
  where
    turn : ((i + 1) % size + k) % size ≡ (i + suc k) % size
    turn = rw mod-add-mod (ap (λ j. j % size) (omega arith))

-- The position in the whole text where an answer begins: that of the argument `start`, if it is
-- given, but no character that is lost, and none that is not yet written.
unfoldable pub first_shown : ℕ → Bytes → Found → ℕ
first_shown size h no_line = length h - (size - 1)
first_shown size h missing = length h - (size - 1)
first_shown size h (value v) =
    let lost = length h - (size - 1) in
    if length v.ret == 0 || not (ltb (atoi v.ret) (2 ^ 31))
    then lost
    else if ltb (atoi v.ret) lost
    then lost
    else min (atoi v.ret) (length h)

module _ (size : ℕ) (escape : ℕ → Bytes) where
  start_offset_lem :
      (pos len total : ℕ) (h : Bytes) (found : Found)
      → total ≡ length h
      → pos ≡ total - (size - 1)
      → len ≡ min total (size - 1)
      → total < 2 ^ 31
      → (start_offset pos len found ≤ len)
        × (pos + start_offset pos len found ≡ first_shown size h found)
  unfolding start_offset first_shown
  start_offset_lem pos len total h no_line t p l b = omega arith
  start_offset_lem pos len total h missing t p l b = omega arith
  start_offset_lem pos len total h (value v) t p l b = ground (arith, atoi_lt v.ret)

  module _ (r : CharRing) (h : Bytes) (found : Found) (s : Shows size r h)
      (small : length h < 2 ^ 31) where
    abbrev from : ℕ
    from = first_shown size h found

    abbrev skipped : ℕ
    skipped = start_offset r.pos (count size r) found

    lost-pos : r.pos ≡ length h - (size - 1)
    lost-pos = omega (arith, s.lost)

    start_lem : (skipped ≤ count size r) × (r.pos + skipped ≡ from)
    start_lem =
        start_offset_lem r.pos (count size r) (length h) h found refl lost-pos
          (count-Shows size r h s) small

    shown_lem : span size r.buf ((r.rd + skipped) % size) (count size r - skipped) ≡ drop from h
    shown_lem =
        sym (span-drop size r.buf skipped r.rd (count size r) s.valid.rd_in start_lem.0)
        ∙ ap (drop skipped) s.shown
        ∙ drop-drop (length h - (size - 1)) skipped from h (omega (arith, start_lem.1, lost-pos))

    counts_lem :
        ((count size r + 2 ^ 32 - skipped) % 2 ^ 32 ≡ length h - from)
        × ((r.pos + skipped) % 2 ^ 32 ≡ from)
    counts_lem = omega (arith, start_lem, lost-pos, count-Shows size r h s)

    pub answer_shows :
        answer size escape r found
        ≡ escape_all escape (preamble (length h - from) from) (drop from h) ++ codes "\"}"
    unfolding answer
    answer_shows =
        let loop =
          render-span size escape size (count size r - skipped) r (preamble (length h - from) from)
            ((r.rd + skipped) % size) s.valid (omega (arith, s.valid))
            (skip_lem size r.wr r.rd skipped (count size r) s.valid.wr_in s.valid.rd_in
              (unfold count in refl) start_lem.0)
            (omega (arith, count_lt size r s.valid)) in
        rw counts_lem.0 (
          rw counts_lem.1 (
            ap (λ t. t ++ codes "\"}")
              (loop ∙ ap (escape_all escape (preamble (length h - from) from)) shown_lem)))

-- The loop leaves room for the end of the object and the terminator: all of an answer lies in the
-- buffer of 2048 bytes, whatever the ring holds and the client asks for, if no character takes more
-- than six bytes.
pub answer_fits :
    (size : ℕ) (escape : ℕ → Bytes) (r : CharRing) (found : Found)
    → Short escape
    → length (answer size escape r found) + 1 ≤ 2048
unfolding answer
answer_fits size escape r found short =
    let k = start_offset r.pos (count size r) found in
    let out = preamble ((count size r + 2 ^ 32 - k) % 2 ^ 32) ((r.pos + k) % 2 ^ 32) in
    omega (
      arith,
      length-preamble ((count size r + 2 ^ 32 - k) % 2 ^ 32) ((r.pos + k) % 2 ^ 32),
      render-length size escape size r out ((r.rd + k) % size) short,
      length-append (render size escape size r out ((r.rd + k) % size)) (codes "\"}"),
    )

-- Over an open connection with nothing else to send, the whole answer is sent behind the head.
pub ajax_sent :
    (size : ℕ) (escape : ℕ → Bytes) (r : CharRing) (c : Conn) {id : ℕ}
    → Short escape
    → c.conn ≡ some id
    → c.send_buff ≡ []
    → let out = ajax size escape r c in
      (out.0 ≡ done)
      × (out.1.send_buff
          ≡ json_head ++ answer size escape r (find_arg (codes "start") 2048 c.get_args))
ajax_sent size escape r c s e b =
    let found = find_arg (codes "start") 2048 c.get_args in
    let open_lem = ajax_open size escape r c e in
    (
      ap (λ o. o.0) open_lem,
      ap (λ o. o.1.send_buff) open_lem
          ∙ send-json_header c (answer size escape r found) b
              (omega (arith, answer_fits size escape r found s)),
    )
