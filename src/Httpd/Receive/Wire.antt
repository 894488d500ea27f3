-- ===== src/Httpd/Receive/Wire.antt =====
-- A head as a client sends it, and what the server has after parsing it.
use ems_esp_link.Prelude.{
  ℕ, zero, suc, ◌+◌, ◌≤◌, ◌<◌, ◌≡◌, refl, ap, sym, ◌∙◌, true, false, none, some, List, [], ◌∷◌,
  ◌++◌, ltb, length, drop, length-append, All, arith, append_assoc,
}
use ems_esp_link.Prelude.Text.{Bytes, codes, c_string, starts_with, strstr}
use ems_esp_link.Httpd.Conn.{Conn, Method}
use ems_esp_link.Httpd.Head.{get_header}
use ems_esp_link.Httpd.Head.Lookup.{
  Plain, IsLine, terminated_lines, first_value, get_header-first_value,
}
use ems_esp_link.Httpd.Request.{up_to, parse_header, parse_lines}
use ems_esp_link.Httpd.Request.FirstLine.{Lacks, up_to-append, Verb, parse_header_plain}
use ems_esp_link.Httpd.Request.Length.{parse_header-length}
use ems_esp_link.Httpd.Receive.{parse_head}

c_string-line : (s t : Bytes) → Plain s → c_string (s ++ t) ≡ s ++ c_string t
c_string-line [] t h = refl
c_string-line (c ∷ s) t h = ground (arith, h.0, c_string-line s t h.1)

strstr_crlf :
    (s t : Bytes)
    → Lacks b'\r' s
    → strstr (s ++ (b'\r' ∷ b'\n' ∷ t)) (codes "\r\n") ≡ some (b'\r' ∷ b'\n' ∷ t)
strstr_crlf [] t h = refl
strstr_crlf (c ∷ s) t h = ground (arith, h.0, strstr_crlf s t h.1)

drop-append_lem : (n : ℕ) (s t : Bytes) → n ≡ length s → drop (n + 2) (s ++ (b'\r' ∷ b'\n' ∷ t)) ≡ t
drop-append_lem n [] t e =
    let e' : n + 2 ≡ 2 = omega arith in ap (λ k. drop k (b'\r' ∷ b'\n' ∷ t)) e'
drop-append_lem zero (c ∷ s) t e = absurd (omega arith)
drop-append_lem (suc n) (c ∷ s) t e =
    let e' : suc n + 2 ≡ suc (n + 2) = omega arith in
    ap (λ k. drop k ((c ∷ s) ++ (b'\r' ∷ b'\n' ∷ t))) e' ∙ drop-append_lem n s t (omega arith)

-- A line as it is sent, without its end: no terminator and no carriage return.
abbrev pub IsSent : Bytes → Type 0
IsSent s = Plain s × Lacks b'\r' s

parse_lines-line :
    (f : ℕ) (s rest : Bytes) (c : Conn)
    → IsSent s
    → 2 < length s + length rest
    → (let r = parse_header s c in
        let next = parse_lines f rest r.1 in
        parse_lines (suc f) (s ++ (b'\r' ∷ b'\n' ∷ rest)) c ≡ (r.0 ++ (0 ∷ b'\n' ∷ next.0), next.1))
unfolding parse_lines
parse_lines-line f s rest c h l =
    let p = s ++ (b'\r' ∷ b'\n' ∷ rest) in
    let long : ltb 4 (length p) ≡ true = ground (arith, length-append s (b'\r' ∷ b'\n' ∷ rest)) in
    let found : strstr (c_string p) (codes "\r\n") ≡ some (b'\r' ∷ b'\n' ∷ c_string rest) =
      ap (λ t. strstr t (codes "\r\n")) (c_string-line s (b'\r' ∷ b'\n' ∷ rest) h.0)
      ∙ strstr_crlf s (c_string rest) h.1 in
    let cut : up_to (c_string p) (b'\r' ∷ b'\n' ∷ c_string rest) ≡ s =
      ap (λ t. up_to t (b'\r' ∷ b'\n' ∷ c_string rest)) (c_string-line s (b'\r' ∷ b'\n' ∷ rest) h.0)
      ∙ up_to-append s (b'\r' ∷ b'\n' ∷ c_string rest) in
    let r = parse_header s c in
    rw (long, found, parse_lines)
      (ap
          (λ t. (
            (parse_header t c).0
                ++ (0
                    ∷ b'\n'
                    ∷ (parse_lines f (drop (length (parse_header t c).0 + 2) p)
                        (parse_header t c).1).0),
            (parse_lines f (drop (length (parse_header t c).0 + 2) p) (parse_header t c).1).1,
          ))
          cut
        ∙ ap (λ t. (r.0 ++ (0 ∷ b'\n' ∷ (parse_lines f t r.1).0), (parse_lines f t r.1).1))
            (drop-append_lem (length r.0) s rest (parse_header-length s c)))

-- The header lines and the empty line, as they are sent.
abbrev pub wire_lines : List Bytes → Bytes
wire_lines [] = codes "\r\n"
wire_lines (s ∷ ss) = s ++ (b'\r' ∷ b'\n' ∷ wire_lines ss)

-- A header line in which the parser has no interest.
abbrev pub IsOther : Bytes → Type 0
IsOther s =
    (starts_with s (codes "GET ") ≡ false)
    × (starts_with s (codes "POST ") ≡ false)
    × (starts_with s (codes "Content-Length:") ≡ false)
    × (starts_with s (codes "Content-Type: ") ≡ false)

parse_header_other : (s : Bytes) (c : Conn) → IsOther s → parse_header s c ≡ (s, c)
unfolding parse_header
parse_header_other s c (a, b, d, e) = rw (a, b, d, e, parse_header)

parse_lines_end : (f : ℕ) (c : Conn) → parse_lines f (codes "\r\n") c ≡ (codes "\r\n", c)
unfolding parse_lines
parse_lines_end zero c = refl
parse_lines_end (suc f) c = refl

abbrev pub IsField : Bytes → Type 0
IsField s = IsSent s × (IsLine s × IsOther s)

wire_lines-length : (ss : List Bytes) → 2 ≤ length (wire_lines ss)
wire_lines-length [] = omega arith
wire_lines-length (s ∷ ss) =
    omega (arith, length-append s (b'\r' ∷ b'\n' ∷ wire_lines ss), wire_lines-length ss)

parse_lines-fields :
    (ss : List Bytes) (f : ℕ) (c : Conn)
    → All IsField ss
    → length (wire_lines ss) ≤ f
    → (b'\n' ∷ (parse_lines f (wire_lines ss) c).0 ≡ terminated_lines ss)
      × ((parse_lines f (wire_lines ss) c).1 ≡ c)
parse_lines-fields [] f c h l =
    (ap (λ r. b'\n' ∷ r.0) (parse_lines_end f c), ap (λ r. r.1) (parse_lines_end f c))
parse_lines-fields (s ∷ ss) zero c h l =
    absurd (omega (arith, length-append s (b'\r' ∷ b'\n' ∷ wire_lines ss)))
parse_lines-fields (s ∷ ss) (suc f) c h l =
    let rest = wire_lines ss in
    let whole_length = length-append s (b'\r' ∷ b'\n' ∷ rest) in
    let ih = parse_lines-fields ss f c h.1 (omega (arith, whole_length)) in
    let step =
      parse_lines-line f s rest c h.0.0 (omega (arith, wire_lines-length ss, h.0.1.0.1))
      ∙ ap (λ r. (r.0 ++ (0 ∷ b'\n' ∷ (parse_lines f rest r.1).0), (parse_lines f rest r.1).1))
          (parse_header_other s c h.0.1.1) in
    (ap (λ r. b'\n' ∷ r.0) step ∙ ap (λ t. (b'\n' ∷ s) ++ (0 ∷ t)) ih.0, ap (λ r. r.1) step ∙ ih.1)

-- A head with a request line without arguments.
abbrev pub wire_head : Bytes → Bytes → Bytes → List Bytes → Bytes
wire_head pre target version ss =
    (pre ++ (target ++ (b' ' ∷ version))) ++ (b'\r' ∷ b'\n' ∷ wire_lines ss)

-- The same head after parsing.
abbrev pub parsed_head : Bytes → Bytes → Bytes → List Bytes → Bytes
parsed_head pre target version ss = (pre ++ (target ++ (0 ∷ version))) ++ (0 ∷ terminated_lines ss)

parse_lines-wire_head :
    {m : Method} {pre : Bytes}
    → Verb m pre
    → (target version : Bytes) (ss : List Bytes) (f : ℕ) (c : Conn)
    → IsSent (pre ++ (target ++ (b' ' ∷ version)))
    → Lacks b' ' target
    → Lacks b'?' target
    → All IsField ss
    → length (wire_head pre target version ss) ≡ f
    → parse_lines f (wire_head pre target version ss) c ≡ (
      parsed_head pre target version ss,
      record c { request_type = m; url = some target; get_args = none },
    )
parse_lines-wire_head {m} {pre} v target version ss zero c sent space mark h l = absurd (
    omega
      (arith, length-append (pre ++ (target ++ (b' ' ∷ version))) (b'\r' ∷ b'\n' ∷ wire_lines ss)))
parse_lines-wire_head {m} {pre} v target version ss (suc f) c sent space mark h l =
    let first = pre ++ (target ++ (b' ' ∷ version)) in
    let rest = wire_lines ss in
    let c' = record c { request_type = m; url = some target; get_args = none } in
    let fields =
      parse_lines-fields ss f c' h (omega (arith, length-append first (b'\r' ∷ b'\n' ∷ rest))) in
    parse_lines-line f first rest c sent (
      omega (
        arith,
        length-append pre (target ++ (b' ' ∷ version)),
        length-append target (b' ' ∷ version),
        wire_lines-length ss,
      ))
    ∙ ap (λ r. (r.0 ++ (0 ∷ b'\n' ∷ (parse_lines f rest r.1).0), (parse_lines f rest r.1).1))
        (parse_header_plain v target version c space mark)
    ∙ ap (λ t. ((pre ++ (target ++ (0 ∷ version))) ++ (0 ∷ t), (parse_lines f rest c').1)) fields.0
    ∙ ap (λ k. (parsed_head pre target version ss, k)) fields.1

All-IsLine : (ss : List Bytes) → All IsField ss → All IsLine ss
All-IsLine [] h = tt
All-IsLine (s ∷ ss) h = (h.0.1.0, All-IsLine ss h.1)

-- A complete head, of a request line with a method that the server knows and a URL without
-- arguments, and of header lines other than those that the parser reads: the method and the URL are
-- those of the line, there is no body, and `httpdGetHeader` then finds for each name the value of
-- the first line of that name, cut to the buffer.
pub parse_head-wire_head :
    {m : Method} {pre : Bytes}
    → Verb m pre
    → (target version : Bytes) (ss : List Bytes) (c : Conn)
    → c.head ≡ wire_head pre target version ss
    → IsSent (pre ++ (target ++ (b' ' ∷ version)))
    → Lacks b' ' target
    → Lacks b'?' target
    → Plain (pre ++ target) × Plain version
    → All IsField ss
    → (let c' = parse_head c in
        (c'.request_type ≡ m)
        × (c'.url ≡ some target)
        × (c'.get_args ≡ none)
        × (c'.body.len ≡ 0)
        × ((name : Bytes) (ret_len : ℕ)
            → Plain name
            → get_header name ret_len c'.head ≡ first_value name ret_len ss))
unfolding parse_head
parse_head-wire_head {m} {pre} v target version ss c e sent space mark plain h =
    let start = record c { url = none; body = record c.body { len = 0 } } in
    let parsed =
      ap (λ t. parse_lines (length t) t start) e
      ∙ parse_lines-wire_head v target version ss _ start sent space mark h refl in
    let rest = terminated_lines ss in
    (
      ap (λ r. r.1.request_type) parsed,
      ap (λ r. r.1.url) parsed,
      ap (λ r. r.1.get_args) parsed,
      ap (λ r. r.1.body.len) parsed,
      λ name ret_len n.
          ap (λ r. get_header name ret_len r.0) parsed
          ∙ ap (λ t. get_header name ret_len t)
              (append_assoc pre (target ++ (0 ∷ version)) (0 ∷ rest)
                ∙ ap (λ t. pre ++ t) (append_assoc target (0 ∷ version) (0 ∷ rest))
                ∙ sym (append_assoc pre target (0 ∷ (version ++ (0 ∷ rest)))))
          ∙ get_header-first_value name ret_len (pre ++ target) version ss n plain.0 plain.1
              (All-IsLine ss h),
    )
