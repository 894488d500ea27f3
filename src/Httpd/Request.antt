-- ===== src/Httpd/Request.antt =====
-- `httpdParseHeader` of httpd/httpd.c and the loop over the lines of the head. `os_malloc` is taken
-- to succeed, as the code does.
pub mod FirstLine
pub mod Keeps
pub mod Length
use ems_esp_link.Prelude.{
  ℕ, zero, suc, ◌+◌, ◌-◌, ◌^◌, Bool, true, false, Option, none, some, List, [], ◌∷◌, ◌++◌, ltb,
  ◌==◌, if◌then◌else◌, length, take, drop,
}
use ems_esp_link.Prelude.Text.{Bytes, codes, c_string, starts_with, strstr, atoi}
use ems_esp_link.Prelude.Words.{slt}
use ems_esp_link.Httpd.Conn.{Conn, PostData, Method, get, post}

-- MAX_POST
abbrev pub max_post : ℕ
max_post = 1024

-- A line of the head as the parser leaves it, and the connection.
abbrev pub Parsed : Type 0
Parsed = Bytes × Conn

-- Writes `c` in place of the character in front of the last `length rest` bytes of `h`.
abbrev pub put_before : ℕ → Bytes → Bytes → Bytes
put_before c h rest = take (length h - suc (length rest)) h ++ (c ∷ rest)

-- The text up to the terminator that is written at `e`, the rest of `s`.
abbrev pub up_to : Bytes → Bytes → Bytes
up_to s e = take (length s - length e) s

-- The URL without its arguments, and the arguments.
unfoldable pub set_url : Bytes → Conn → Conn
set_url text c = elim (strstr text (b'?' ∷ [])) [
  | none ↦ record c { url = some text; get_args = none }
  | some q ↦ record c { url = some (up_to text q); get_args = some (drop 1 q) }
]

-- What becomes of the line: a zero for the space behind the URL, and one for the question mark.
unfoldable pub cut_line : Bytes → Bytes → Bytes → Bytes
cut_line h text e =
    let h' = put_before 0 h (drop 1 e) in
    elim (strstr text (b'?' ∷ [])) [
      | none ↦ h'
      | some q ↦ put_before 0 h' (drop 1 q ++ (0 ∷ drop 1 e))
    ]

-- The first line; `s` is what stands behind the first space. Without a second space only the URL is
-- set.
unfoldable pub parse_first_line : Method → Bytes → Bytes → Conn → Parsed
unfolding set_url cut_line
parse_first_line method h s c = elim (strstr s (b' ' ∷ [])) [
  | none ↦ (h, record c { request_type = method; url = some s })
  | some e ↦ (cut_line h (up_to s e) e, set_url (up_to s e) (record c { request_type = method }))
]

pub skip_blanks : Bytes → Bytes
skip_blanks [] = []
skip_blanks (c ∷ s) = let rest = skip_blanks s in if c == b' ' then rest else c ∷ s

-- `Content-Length:`; `s` is what stands behind it.
unfoldable pub set_length : Bytes → PostData → PostData
unfolding skip_blanks
set_length s p =
    let len = atoi (skip_blanks s) in
    record p { len = len; buff_size = (if slt max_post len then max_post else len); buff = some [] }

-- `Content-Type: `: the boundary of a form with two dashes in front, which are written over the end
-- of its name.
unfoldable pub parse_type : Bytes → Conn → Parsed
parse_type h c = elim (strstr h (codes "multipart/form-data")) [
  | none ↦ (h, c)
  | some _ ↦ elim (strstr h (codes "boundary=")) [
    | none ↦ (h, c)
    | some b ↦
        let boundary = b'-' ∷ b'-' ∷ drop 9 b in
        (
          up_to h b ++ (codes "boundar" ++ boundary),
          record c { body = record c.body { multipart_boundary = some boundary } },
        )
  ]
]

-- `httpdParseHeader`
unfoldable pub parse_header : Bytes → Conn → Parsed
unfolding parse_first_line set_length parse_type
parse_header h c =
    if starts_with h (codes "GET ")
    then parse_first_line get h (drop 4 h) c
    else if starts_with h (codes "POST ")
    then parse_first_line post h (drop 5 h) c
    else if starts_with h (codes "Content-Length:")
    then (h, record c { body = set_length (drop 15 h) c.body })
    else if starts_with h (codes "Content-Type: ")
    then parse_type h c
    else (h, c)

-- The loop over the head from `p` on, on fuel: what becomes of it, and the connection.
unfoldable pub parse_lines : ℕ → Bytes → Conn → Parsed
unfolding parse_header
parse_lines zero p c = (p, c)
parse_lines (suc f) p c = elim (ltb 4 (length p)) [
  | false ↦ (p, c)
  | true ↦ elim (strstr (c_string p) (codes "\r\n")) [
    | none ↦ (p, c)
    | some e ↦
        let (line, c') = parse_header (up_to (c_string p) e) c in
        let (rest, c'') = parse_lines f (drop (length line + 2) p) c' in
        (line ++ (0 ∷ b'\n' ∷ rest), c'')
  ]
]
