-- ===== src/Httpd/Request/Keeps.antt =====
-- What the parser of the head leaves alone: a property of the connection that its writes keep.
use ems_esp_link.Prelude.{
  ℕ, zero, suc, inl, inr, Bool, true, false, Option, none, some, [], ◌∷◌, ltb, if◌then◌else◌,
  length, drop, Bool-cases, Option-cases,
}
use ems_esp_link.Prelude.Text.{Bytes, codes, c_string, starts_with, strstr}
use ems_esp_link.Httpd.Conn.{Conn, Method, get, post}
use ems_esp_link.Httpd.Request.{
  Parsed, up_to, set_url, parse_first_line, set_length, parse_type, parse_header, parse_lines,
}

pub record IsKept (P : Conn → Type 0) : Type 0 where
  pub by_url :
      (c : Conn) (method : Method) (url args : Option Bytes)
      → P c
      → P (record c { request_type = method; url = url; get_args = args })
  pub by_length : (c : Conn) (s : Bytes) → P c → P (record c { body = set_length s c.body })
  pub by_boundary :
      (c : Conn) (b : Option Bytes)
      → P c
      → P (record c { body = record c.body { multipart_boundary = b } })

module _ (P : Conn → Type 0) (keep : IsKept P) where
  first_line_lem :
      (method : Method) (h s : Bytes) (c : Conn) → P c → P (parse_first_line method h s c).1
  unfolding parse_first_line
  first_line_lem method h s c p = elim (Option-cases (strstr s (b' ' ∷ []))) [
    | inl n ↦ rw (n, parse_first_line) (keep.by_url c method (some s) c.get_args p)
    | inr (e, n) ↦ elim (Option-cases (strstr (up_to s e) (b'?' ∷ []))) [
      | inl m ↦ rw (n, parse_first_line) (rw (m, set_url) (keep.by_url c method _ none p))
      | inr (q, m) ↦ rw (n, parse_first_line) (rw (m, set_url) (keep.by_url c method _ _ p))
    ]
  ]

  type_lem : (h : Bytes) (c : Conn) → P c → P (parse_type h c).1
  unfolding parse_type
  type_lem h c p = elim (Option-cases (strstr h (codes "multipart/form-data"))) [
    | inl n ↦ rw (n, parse_type) p
    | inr (e, n) ↦ elim (Option-cases (strstr h (codes "boundary="))) [
      | inl m ↦ rw (n, m, parse_type) p
      | inr (b, m) ↦ rw (n, m, parse_type) (keep.by_boundary c _ p)
    ]
  ]

  either : (b : Bool) (x y : Parsed) → P x.1 → P y.1 → P (if b then x else y).1
  either true x y p q = p
  either false x y p q = q

  pub parse_header_lem : (h : Bytes) (c : Conn) → P c → P (parse_header h c).1
  unfolding parse_header
  parse_header_lem h c p =
      let typed : Parsed =
        if starts_with h (codes "Content-Type: ") then parse_type h c else (h, c) in
      let sized : Parsed = (h, record c { body = set_length (drop 15 h) c.body }) in
      let fields : Parsed = if starts_with h (codes "Content-Length:") then sized else typed in
      let posted : Parsed =
        if starts_with h (codes "POST ") then parse_first_line post h (drop 5 h) c else fields in
      let typed_lem : P typed.1 =
        either (starts_with h (codes "Content-Type: ")) (parse_type h c) (h, c) (type_lem h c p)
          p in
      let fields_lem : P fields.1 =
        either (starts_with h (codes "Content-Length:")) sized typed
          (keep.by_length c (drop 15 h) p) typed_lem in
      let posted_lem : P posted.1 =
        either (starts_with h (codes "POST ")) (parse_first_line post h (drop 5 h) c) fields
          (first_line_lem post h (drop 5 h) c p) fields_lem in
      either (starts_with h (codes "GET ")) (parse_first_line get h (drop 4 h) c) posted
        (first_line_lem get h (drop 4 h) c p) posted_lem

  pub parse_lines_lem : (f : ℕ) (p : Bytes) (c : Conn) → P c → P (parse_lines f p c).1
  unfolding parse_lines
  parse_lines_lem zero p c k = k
  parse_lines_lem (suc f) p c k = elim (Bool-cases (ltb 4 (length p))) [
    | inr e ↦ rw (e, parse_lines) k
    | inl e ↦ elim (Option-cases (strstr (c_string p) (codes "\r\n"))) [
      | inl n ↦ rw (e, n, parse_lines) k
      | inr (q, n) ↦
          rw (e, n, parse_lines)
            (parse_lines_lem f _ _ (parse_header_lem (up_to (c_string p) q) c k))
    ]
  ]
