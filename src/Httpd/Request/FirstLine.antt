-- ===== src/Httpd/Request/FirstLine.antt =====
-- The request line: method, URL and arguments.
use ems_esp_link.Prelude.{
  ℕ, suc, ◌-◌, ◌≡◌, ◌≢◌, refl, ap, sym, ◌∙◌, none, some, [], ◌∷◌, ◌++◌, length, take, length-append,
  All, arith, append_assoc,
}
use ems_esp_link.Prelude.Text.{Bytes, codes, strstr}
use ems_esp_link.Httpd.Conn.{Conn, Method, get, post}
use ems_esp_link.Httpd.Request.{
  put_before, up_to, set_url, cut_line, parse_first_line, parse_header,
}

-- The text has no `x`.
abbrev pub Lacks : ℕ → Bytes → Type 0
Lacks x = All (λ c. c ≢ x)

pub strstr_first :
    (x : ℕ) (s rest : Bytes) → Lacks x s → strstr (s ++ (x ∷ rest)) (x ∷ []) ≡ some (x ∷ rest)
strstr_first x [] rest h = ground arith
strstr_first x (c ∷ s) rest h = ground (arith, h.0, strstr_first x s rest h.1)

pub no_match_lem : (x : ℕ) (s : Bytes) → Lacks x s → strstr s (x ∷ []) ≡ none
no_match_lem x [] h = refl
no_match_lem x (c ∷ s) h = ground (arith, h.0, no_match_lem x s h.1)

pub take-append : (s t : Bytes) → take (length s) (s ++ t) ≡ s
take-append [] t = refl
take-append (c ∷ s) t = ap (◌∷◌ c) (take-append s t)

pub up_to-append : (s t : Bytes) → up_to (s ++ t) t ≡ s
up_to-append s t =
    let e : length (s ++ t) - length t ≡ length s = omega (arith, length-append s t) in
    ap (λ n. take n (s ++ t)) e ∙ take-append s t

put_before-append : (c d : ℕ) (s t : Bytes) → put_before c (s ++ (d ∷ t)) t ≡ s ++ (c ∷ t)
put_before-append c d s t =
    let e : length (s ++ (d ∷ t)) - suc (length t) ≡ length s =
      omega (arith, length-append s (d ∷ t)) in
    ap (λ n. take n (s ++ (d ∷ t)) ++ (c ∷ t)) e ∙ ap (λ u. u ++ (c ∷ t)) (take-append s (d ∷ t))

-- A request without arguments: `target` is the URL.
set_url_plain :
    (target : Bytes) (c : Conn)
    → Lacks b'?' target
    → set_url target c ≡ record c { url = some target; get_args = none }
unfolding set_url
set_url_plain target c h = rw (no_match_lem b'?' target h, set_url)

set_url_args :
    (path args : Bytes) (c : Conn)
    → Lacks b'?' path
    → set_url (path ++ (b'?' ∷ args)) c ≡ record c { url = some path; get_args = some args }
unfolding set_url
set_url_args path args c h =
    rw (strstr_first b'?' path args h, set_url)
      (ap (λ u. record c { url = some u; get_args = some args }) (up_to-append path (b'?' ∷ args)))

put_before_lem :
    (c d : ℕ) (pre s t : Bytes) → put_before c (pre ++ (s ++ (d ∷ t))) t ≡ pre ++ (s ++ (c ∷ t))
put_before_lem c d pre s t =
    ap (λ u. put_before c u t) (sym (append_assoc pre s (d ∷ t)))
    ∙ put_before-append c d (pre ++ s) t
    ∙ append_assoc pre s (c ∷ t)

cut_line_plain :
    (pre target rest : Bytes)
    → Lacks b'?' target
    → cut_line (pre ++ (target ++ (b' ' ∷ rest))) target (b' ' ∷ rest)
      ≡ pre ++ (target ++ (0 ∷ rest))
unfolding cut_line
cut_line_plain pre target rest h =
    rw (no_match_lem b'?' target h, cut_line) (put_before_lem 0 b' ' pre target rest)

cut_line_args :
    (pre path args rest : Bytes)
    → Lacks b'?' path
    → cut_line
        (pre ++ ((path ++ (b'?' ∷ args)) ++ (b' ' ∷ rest)))
        (path ++ (b'?' ∷ args))
        (b' ' ∷ rest)
      ≡ pre ++ (path ++ (0 ∷ (args ++ (0 ∷ rest))))
unfolding cut_line
cut_line_args pre path args rest h =
    rw (strstr_first b'?' path args h, cut_line)
      (ap (λ u. put_before 0 u (args ++ (0 ∷ rest)))
          (put_before_lem 0 b' ' pre (path ++ (b'?' ∷ args)) rest
            ∙ ap (λ u. pre ++ u) (append_assoc path (b'?' ∷ args) (0 ∷ rest)))
        ∙ put_before_lem 0 b'?' pre path (args ++ (0 ∷ rest)))

-- The two methods that the server knows.
pub data Verb : Method → Bytes → Type 0 where
  get_verb : {s : Bytes} → s ≡ codes "GET " → Verb get s
  post_verb : {s : Bytes} → s ≡ codes "POST " → Verb post s

verb_lem :
    {m : Method} {pre : Bytes}
    → Verb m pre
    → (s : Bytes) (c : Conn) → parse_header (pre ++ s) c ≡ parse_first_line m (pre ++ s) s c
unfolding parse_header
verb_lem (get_verb e) s c = rw e refl
verb_lem (post_verb e) s c = rw e refl

first_line_lem :
    (m : Method) (h target rest : Bytes) (c : Conn)
    → Lacks b' ' target
    → parse_first_line m h (target ++ (b' ' ∷ rest)) c
      ≡ (cut_line h target (b' ' ∷ rest), set_url target (record c { request_type = m }))
unfolding parse_first_line
first_line_lem m h target rest c l =
    rw (strstr_first b' ' target rest l, parse_first_line)
      (ap (λ t. (cut_line h t (b' ' ∷ rest), set_url t (record c { request_type = m })))
        (up_to-append target (b' ' ∷ rest)))

-- A request line with a URL that has no question mark: the URL is found, there are no arguments, and
-- in the head a terminator stands for the space behind the URL.
pub parse_header_plain :
    {m : Method} {pre : Bytes}
    → Verb m pre
    → (target version : Bytes) (c : Conn) → Lacks b' ' target
    → Lacks b'?' target
    → parse_header (pre ++ (target ++ (b' ' ∷ version))) c ≡ (
      pre ++ (target ++ (0 ∷ version)),
      record c { request_type = m; url = some target; get_args = none },
    )
parse_header_plain {m} {pre} v target version c l q =
    verb_lem v (target ++ (b' ' ∷ version)) c
    ∙ first_line_lem m (pre ++ (target ++ (b' ' ∷ version))) target version c l
    ∙ ap (λ h. (h, set_url target (record c { request_type = m })))
        (cut_line_plain pre target version q)
    ∙ ap (λ k. (pre ++ (target ++ (0 ∷ version)), k))
        (set_url_plain target (record c { request_type = m }) q)

-- A request line whose URL has arguments: the path and the arguments are split at the first question
-- mark, and in the head terminators stand for it and for the space behind the arguments.
pub parse_header_args :
    {m : Method} {pre : Bytes}
    → Verb m pre
    → (path args version : Bytes) (c : Conn) → Lacks b' ' (path ++ (b'?' ∷ args))
    → Lacks b'?' path
    → parse_header (pre ++ ((path ++ (b'?' ∷ args)) ++ (b' ' ∷ version))) c ≡ (
      pre ++ (path ++ (0 ∷ (args ++ (0 ∷ version)))),
      record c { request_type = m; url = some path; get_args = some args },
    )
parse_header_args {m} {pre} v path args version c l q =
    let target = path ++ (b'?' ∷ args) in
    verb_lem v (target ++ (b' ' ∷ version)) c
    ∙ first_line_lem m (pre ++ (target ++ (b' ' ∷ version))) target version c l
    ∙ ap (λ h. (h, set_url target (record c { request_type = m })))
        (cut_line_args pre path args version q)
    ∙ ap (λ k. (pre ++ (path ++ (0 ∷ (args ++ (0 ∷ version)))), k))
        (set_url_args path args (record c { request_type = m }) q)
