-- ===== src/CharRing/Reader.antt =====
-- The JSON readers of the circular buffers, which `ajaxConsole` and `ajaxLog` share but for the
-- escape of one character and the size.
pub mod Render
pub mod Window
use ems_esp_link.Prelude.{
  ℕ, zero, suc, ◌+◌, ◌-◌, ◌*◌, ◌/◌, ◌%◌, ◌≡◌, Bool, true, false, not, ◌&&◌, ◌||◌, Option, none,
  some, List, [], ◌∷◌, ◌++◌, ltb, ◌==◌, if◌then◌else◌, length, get_or,
}
use ems_esp_link.Prelude.Text.{Bytes, codes, atoi, decimal, hex_digit}
use ems_esp_link.Prelude.Words.{add32, sub32, slt}
use ems_esp_link.CharRing.{CharRing, count}
use ems_esp_link.Httpd.Args.{Found, no_line, value, missing, find_arg}
use ems_esp_link.Httpd.Conn.{Conn, Code, done}
use ems_esp_link.Httpd.Send.{send, json_header}

-- `\\u%04x` of a control character.
unfoldable pub escape_control : ℕ → Bytes
unfolding hex_digit
escape_control c = codes "\\u00" ++ (hex_digit (c / 16) ∷ hex_digit (c % 16) ∷ [])

-- The characters that JSON text escapes by a backslash.
abbrev pub is_quoted : ℕ → Bool
is_quoted c = c == b'\\' || c == b'"'

-- `int start`: where the answer begins, as an offset into the characters held. The argument is
-- what `httpdFindArg` found, `pos` and `len` are the ring's.
unfoldable pub start_offset : ℕ → ℕ → Found → ℕ
start_offset pos len no_line = 0
start_offset pos len missing = 0
start_offset pos len (value v) =
    let start = atoi v.ret in
    if length v.ret == 0
    then 0
    else if slt start pos
    then 0
    else if not (slt start (add32 pos len))
    then len
    else sub32 start pos

-- The object up to the text.
abbrev pub preamble : ℕ → ℕ → Bytes
preamble len start =
    codes "{\"len\":"
    ++ (decimal len ++ (codes ", \"start\":" ++ (decimal start ++ codes ", \"text\": \"")))

module _ (size : ℕ) (escape : ℕ → Bytes) where
  -- The `while` loop, on fuel: `out` is what `buff` holds, and `len` its length.
  unfoldable pub render : ℕ → CharRing → Bytes → ℕ → Bytes
  render zero r out rd = out
  render (suc f) r out rd = elim (ltb (length out) 2040 && not (rd == r.wr)) [
    | false ↦ out
    | true ↦ render f r (out ++ escape (get_or r.buf rd 0)) ((rd + 1) % size)
  ]

  -- The text of the answer. The loop passes each index at most once, so `size` rounds are enough.
  unfoldable pub answer : CharRing → Found → Bytes
  answer r found =
      let len = count size r in
      let start = start_offset r.pos len found in
      render size r (preamble (sub32 len start) (add32 r.pos start)) ((r.rd + start) % size)
      ++ codes "\"}"

  -- The handler. The buffer for the argument has 2048 bytes.
  unfoldable pub ajax : CharRing → Conn → Code × Conn
  ajax r c = elim c.conn [
    | none ↦ (done, c)
    | some _ ↦
        (done, (send (json_header c 200) (answer r (find_arg (codes "start") 2048 c.get_args))).1)
  ]

  -- What the handler sends over an open connection.
  pub ajax_open :
      (r : CharRing) (c : Conn) {id : ℕ}
      → c.conn ≡ some id
      → ajax r c
        ≡ (done, (send (json_header c 200) (answer r (find_arg (codes "start") 2048 c.get_args))).1)
  unfolding ajax
  ajax_open r c e = cc e
