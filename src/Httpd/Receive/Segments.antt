-- ===== src/Httpd/Receive/Segments.antt =====
-- How the network splits a request into packets makes no difference.
use ems_esp_link.Prelude.{
  inl, inr, subst, ℕ, ◌≡◌, refl, ap, sym, ◌∙◌, List, [], ◌∷◌, ◌++◌, arith, append_assoc, Bool-cases,
  Option-cases, length,
}
use ems_esp_link.Prelude.Text.{Bytes}
use ems_esp_link.Httpd.Conn.{Conn, Code, more, done, not_found, authenticated}
use ems_esp_link.Httpd.Send.{send}
use ems_esp_link.Httpd.Dispatch.{
  Output, BuiltInUrl, Handlers, transmit, http_not_found_header, react, try_rows, process_request,
}
use ems_esp_link.Httpd.Dispatch.{url_matches, url_of, assign}
use ems_esp_link.Httpd.Dispatch.Barrier.{with_url, without_url}
use ems_esp_link.Httpd.Request.Keeps.{IsKept, parse_lines_lem}
use ems_esp_link.Httpd.Receive.{
  push_head, push_body, parse_head, empty_buff, recv_byte, recv_bytes, recv_data,
}

abbrev HasSent : Conn → Type 0
HasSent c = c.send_buff ≡ []

HasSent-IsKept : IsKept HasSent
HasSent-IsKept = record {
  by_url = λ c method url args e. e;
  by_length = λ c s e. e;
  by_boundary = λ c b e. e;
}

parse_head-HasSent : (c : Conn) → HasSent c → HasSent (parse_head c)
unfolding parse_head
parse_head-HasSent c e = parse_lines_lem HasSent HasSent-IsKept (length c.head) c.head _ e

transmit-HasSent : (c : Conn) → HasSent (transmit c).1
unfolding transmit
transmit-HasSent c = ground arith

module _ {W : Type 0} (handlers : Handlers W) where
  react-HasSent :
      (rows : List BuiltInUrl)
      → ((w : W) (c : Conn) → HasSent (try_rows handlers rows w c).2)
      → (r : Code) (w : W) (c : Conn) → HasSent (react handlers (try_rows handlers rows) r w c).2
  unfolding react
  react-HasSent rows below more w c = transmit-HasSent c
  react-HasSent rows below done w c = transmit-HasSent c
  react-HasSent rows below not_found w c = below w c
  react-HasSent rows below authenticated w c = below w c

  try_rows-HasSent :
      (rows : List BuiltInUrl) (w : W) (c : Conn) → HasSent (try_rows handlers rows w c).2
  unfolding try_rows
  try_rows-HasSent [] w c = transmit-HasSent (send c http_not_found_header).1
  try_rows-HasSent (row ∷ rows) w c = elim (Bool-cases (url_matches row.url (url_of c))) [
    | inl m ↦
        rw (m, try_rows)
          (react-HasSent rows (try_rows-HasSent rows) (handlers row.cgi_cb w (assign row c)).0
            (handlers row.cgi_cb w (assign row c)).1 (handlers row.cgi_cb w (assign row c)).2)
    | inr m ↦ rw (m, try_rows) (try_rows-HasSent rows w c)
  ]

  module _ (table : List BuiltInUrl) where
    process_request-HasSent :
        (w : W) (c : Conn) → HasSent c → HasSent (process_request handlers table w c).2
    process_request-HasSent w c e = elim (Option-cases c.url) [
      | inl n ↦ subst HasSent (ap (λ x. x.2) (sym (without_url handlers table w c n))) e
      | inr (u, s) ↦
          subst HasSent (ap (λ x. x.2) (sym (with_url handlers table w c u s)))
            (try_rows-HasSent table w c)
    ]

    recv_byte-HasSent :
        (w : W) (c : Conn) (x : ℕ) → HasSent c → HasSent (recv_byte handlers table w c x).2
    unfolding recv_byte empty_buff
    recv_byte-HasSent w c x e =
        let c1 = record c { head = push_head c.head x } in
        let c2 = parse_head c1 in
        let c3 = record c { body = push_body c.body x } in
        ground (
          arith,
          parse_head-HasSent c1 e,
          process_request-HasSent w c2 (parse_head-HasSent c1 e),
          process_request-HasSent w c3 e,
        )

    recv_bytes-HasSent :
        (xs : Bytes) (w : W) (c : Conn) → HasSent c → HasSent (recv_bytes handlers table w c xs).2
    unfolding recv_bytes
    recv_bytes-HasSent [] w c e = e
    recv_bytes-HasSent (x ∷ xs) w c e =
        let r = recv_byte handlers table w c x in
        recv_bytes-HasSent xs r.1 r.2 (recv_byte-HasSent w c x e)

    -- One run after another, with the outputs in order.
    abbrev pub and_then :
        List Output × W × Conn → (W → Conn → List Output × W × Conn) → List Output × W × Conn
    and_then (out, w, c) next = (out ++ (next w c).0, (next w c).1, (next w c).2)

    recv_bytes-append :
        (xs ys : Bytes) (w : W) (c : Conn)
        → recv_bytes handlers table w c (xs ++ ys)
          ≡ and_then
              (recv_bytes handlers table w c xs)
              (λ w' c'. recv_bytes handlers table w' c' ys)
    unfolding recv_bytes
    recv_bytes-append [] ys w c = refl
    recv_bytes-append (x ∷ xs) ys w c =
        let r = recv_byte handlers table w c x in
        let first = recv_bytes handlers table r.1 r.2 xs in
        let second = recv_bytes handlers table first.1 first.2 ys in
        ap (λ a. (r.0 ++ a.0, a.1, a.2)) (recv_bytes-append xs ys r.1 r.2)
        ∙ ap (λ o. (o, second.1, second.2)) (sym (append_assoc r.0 first.0 second.0))

    -- A packet has the effect of its two parts received one after the other, wherever it is split.
    pub recv_data-append :
        (w : W) (c : Conn) (xs ys : Bytes)
        → recv_data handlers table w c (xs ++ ys)
          ≡ and_then (recv_data handlers table w c xs) (λ w' c'. recv_data handlers table w' c' ys)
    unfolding recv_data
    recv_data-append w c xs ys =
        let c0 = record c { send_buff = [] } in
        let first = recv_bytes handlers table w c0 xs in
        let sent_lem : HasSent first.2 = recv_bytes-HasSent xs w c0 refl in
        recv_bytes-append xs ys w c0
        ∙ ap
            (λ s.
              and_then first
                (λ w' c'. recv_bytes handlers table w' (record first.2 { send_buff = s }) ys))
            sent_lem
