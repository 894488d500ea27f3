-- ===== src/Httpd/Request/Length.antt =====
-- The parser writes in place: the head keeps its length.
use ems_esp_link.Prelude.{
  ℕ, zero, suc, ◌+◌, ◌-◌, ◌≤◌, ◌<◌, ◌≡◌, refl, ◌∙◌, inl, inr, Bool, true, false, some, [], ◌∷◌,
  ◌++◌, ltb, if◌then◌else◌, length, take, drop, length-append, length-take, length-drop, Bool-cases,
  Option-cases, arith,
}
use ems_esp_link.Prelude.Text.{Bytes, codes, c_string, starts_with, strstr}
use ems_esp_link.Httpd.Conn.{Conn, Method, get, post}
use ems_esp_link.Httpd.Request.{
  Parsed, put_before, up_to, cut_line, parse_first_line, set_length, parse_type, parse_header,
  parse_lines,
}

starts_with-length : (s p : Bytes) → starts_with s p ≡ true → length p ≤ length s
starts_with-length s [] h = omega arith
starts_with-length [] (c ∷ p) h = ground arith
starts_with-length (a ∷ s) (c ∷ p) h = ground (arith, starts_with-length s p)

-- What is found is not longer than the text, and not shorter than what is looked for.
strstr_bounds :
    (s p e : Bytes) → strstr s p ≡ some e → (length p ≤ length e) × (length e ≤ length s)
strstr_bounds [] p e h = ground (arith, starts_with-length [] p)
strstr_bounds (a ∷ s) p e h = ground (arith, starts_with-length (a ∷ s) p, strstr_bounds s p e)

c_string-length : (s : Bytes) → length (c_string s) ≤ length s
c_string-length [] = omega arith
c_string-length (c ∷ s) = ground (arith, c_string-length s)

up_to-length : (s e : Bytes) → length (up_to s e) ≡ length s - length e
up_to-length s e = omega (arith, length-take (length s - length e) s)

put_before-length :
    (c : ℕ) (h r : Bytes) → length r < length h → length (put_before c h r) ≡ length h
put_before-length c h r l = omega (
  arith,
  length-append (take (length h - suc (length r)) h) (c ∷ r),
  length-take (length h - suc (length r)) h,
)

cut_line-length :
    (h s e : Bytes)
    → length s ≤ length h
    → strstr s (b' ' ∷ []) ≡ some e
    → length (cut_line h (up_to s e) e) ≡ length h
unfolding cut_line
cut_line-length h s e l f =
    let bounds = strstr_bounds s (b' ' ∷ []) e f in
    let h' = put_before 0 h (drop 1 e) in
    let h'_lem : length h' ≡ length h =
      put_before-length 0 h (drop 1 e) (omega (arith, length-drop 1 e, bounds)) in
    elim (Option-cases (strstr (up_to s e) (b'?' ∷ []))) [
      | inl n ↦ rw (n, cut_line) h'_lem
      | inr (q, n) ↦
          let inner = strstr_bounds (up_to s e) (b'?' ∷ []) q n in
          rw (n, cut_line)
            (put_before-length 0 h' (drop 1 q ++ (0 ∷ drop 1 e)) (
                omega (
                  arith,
                  bounds,
                  inner,
                  h'_lem,
                  up_to-length s e,
                  length-drop 1 e,
                  length-drop 1 q,
                  length-append (drop 1 q) (0 ∷ drop 1 e),
                ))
              ∙ h'_lem)
    ]

first_line-length :
    (m : Method) (h s : Bytes) (c : Conn)
    → length s ≤ length h
    → length (parse_first_line m h s c).0 ≡ length h
unfolding parse_first_line
first_line-length m h s c l = elim (Option-cases (strstr s (b' ' ∷ []))) [
  | inl n ↦ rw (n, parse_first_line)
  | inr (e, n) ↦ rw (n, parse_first_line) (cut_line-length h s e l n)
]

parse_type-length : (h : Bytes) (c : Conn) → length (parse_type h c).0 ≡ length h
unfolding parse_type
parse_type-length h c = elim (Option-cases (strstr h (codes "multipart/form-data"))) [
  | inl n ↦ rw (n, parse_type)
  | inr (e, n) ↦ elim (Option-cases (strstr h (codes "boundary="))) [
    | inl m ↦ rw (n, m, parse_type)
    | inr (b, m) ↦
        rw (n, m, parse_type)
          (omega (
            arith,
            strstr_bounds h (codes "boundary=") b m,
            up_to-length h b,
            length-drop 9 b,
            length-append (up_to h b) (codes "boundar--" ++ drop 9 b),
          ))
  ]
]

either :
    (n : ℕ) (b : Bool) (x y : Parsed)
    → length x.0 ≡ n
    → length y.0 ≡ n
    → length (if b then x else y).0 ≡ n
either n true x y p q = p
either n false x y p q = q

pub parse_header-length : (h : Bytes) (c : Conn) → length (parse_header h c).0 ≡ length h
unfolding parse_header
parse_header-length h c =
    let typed : Parsed =
      if starts_with h (codes "Content-Type: ") then parse_type h c else (h, c) in
    let sized : Parsed = (h, record c { body = set_length (drop 15 h) c.body }) in
    let fields : Parsed = if starts_with h (codes "Content-Length:") then sized else typed in
    let posted : Parsed =
      if starts_with h (codes "POST ") then parse_first_line post h (drop 5 h) c else fields in
    either (length h) (starts_with h (codes "GET ")) (parse_first_line get h (drop 4 h) c) posted
      (first_line-length get h (drop 4 h) c (omega (arith, length-drop 4 h)))
      (either (length h) (starts_with h (codes "POST ")) (parse_first_line post h (drop 5 h) c)
        fields (first_line-length post h (drop 5 h) c (omega (arith, length-drop 5 h)))
        (either (length h) (starts_with h (codes "Content-Length:")) sized typed refl (
          either (length h) (starts_with h (codes "Content-Type: ")) (parse_type h c) (h, c)
            (parse_type-length h c) refl)))

-- The loop over the lines writes in place: whatever is in the head, it keeps its length.
pub parse_lines-length : (f : ℕ) (p : Bytes) (c : Conn) → length (parse_lines f p c).0 ≡ length p
unfolding parse_lines
parse_lines-length zero p c = refl
parse_lines-length (suc f) p c = elim (Bool-cases (ltb 4 (length p))) [
  | inr e ↦ rw (e, parse_lines)
  | inl e ↦ elim (Option-cases (strstr (c_string p) (codes "\r\n"))) [
    | inl n ↦ rw (e, n, parse_lines)
    | inr (q, n) ↦
        let r = parse_header (up_to (c_string p) q) c in
        let rest = parse_lines f (drop (length r.0 + 2) p) r.1 in
        rw (e, n, parse_lines)
          (omega (
            arith,
            strstr_bounds (c_string p) (codes "\r\n") q n,
            c_string-length p,
            up_to-length (c_string p) q,
            parse_header-length (up_to (c_string p) q) c,
            length-drop (length r.0 + 2) p,
            parse_lines-length f (drop (length r.0 + 2) p) r.1,
            length-append r.0 (0 ∷ b'\n' ∷ rest.0),
          ))
  ]
]
