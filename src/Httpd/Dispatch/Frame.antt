-- ===== src/Httpd/Dispatch/Frame.antt =====
-- What the handling of a request leaves alone.
use ems_esp_link.Prelude.{
  ℕ, ◌≡◌, sym, subst, ◌⊎◌, inl, inr, Option, none, some, List, [], ◌∷◌, ◌++◌, arith, Bool-cases,
  Option-cases,
}
use ems_esp_link.Prelude.Text.{Bytes}
use ems_esp_link.Httpd.Conn.{Conn, Code, more, done, not_found, authenticated}
use ems_esp_link.Httpd.Send.{send}
use ems_esp_link.Httpd.Dispatch.{
  BuiltInUrl, Handlers, transmit, http_not_found_header, url_matches, url_of, assign, react,
  try_rows, process_request,
}
use ems_esp_link.Httpd.Dispatch.Barrier.{with_url, without_url}

-- A property that the writes of the search keep, and the handlers.
pub record IsFramed {W : Type 0} (handlers : Handlers W) (P : Conn → Type 0) : Type 0 where
  pub by_cgi :
      (c : Conn) (cgi cgi_data : Option ℕ) (cgi_arg : ℕ)
      → P c
      → P (record c { cgi = cgi; cgi_data = cgi_data; cgi_arg = cgi_arg })
  pub by_send : (c : Conn) (text : Bytes) → P c → P (record c { send_buff = text })
  pub by_handler : (k : ℕ) (w : W) (c : Conn) → P c → P (handlers k w c).2

module _ {W : Type 0} (handlers : Handlers W) (P : Conn → Type 0)
    (frame : IsFramed handlers P) where
  pub transmit_frame : (c : Conn) → P c → P (transmit c).1
  unfolding transmit
  transmit_frame c p =
      let e : (transmit c).1 ≡ record c { send_buff = [] } = ground arith in
      subst P (sym e) (frame.by_send c [] p)

  send_frame : (c : Conn) (text : Bytes) → P c → P (send c text).1
  unfolding send
  send_frame c text p =
      let e : ((send c text).1 ≡ c)
          ⊎ ((send c text).1 ≡ record c { send_buff = c.send_buff ++ text }) =
        ground arith in
      elim e [
        | inl same ↦ subst P (sym same) p
        | inr longer ↦ subst P (sym longer) (frame.by_send c _ p)
      ]

  closing_frame : (c : Conn) → P c → P (record (transmit c).1 { cgi = none })
  closing_frame c p =
      let c' = (transmit c).1 in frame.by_cgi c' none c'.cgi_data c'.cgi_arg (transmit_frame c p)

  react_frame :
      (rows : List BuiltInUrl)
      → ((w : W) (c : Conn) → P c → P (try_rows handlers rows w c).2)
      → (r : Code) (w : W) (c : Conn) → P c
      → P (react handlers (try_rows handlers rows) r w c).2
  unfolding react
  react_frame rows below more w c p = transmit_frame c p
  react_frame rows below done w c p = closing_frame c p
  react_frame rows below not_found w c p = below w c p
  react_frame rows below authenticated w c p = below w c p

  try_rows_frame :
      (rows : List BuiltInUrl) (w : W) (c : Conn) → P c → P (try_rows handlers rows w c).2
  unfolding try_rows
  try_rows_frame [] w c p =
      closing_frame (send c http_not_found_header).1 (send_frame c http_not_found_header p)
  try_rows_frame (row ∷ rows) w c p = elim (Bool-cases (url_matches row.url (url_of c))) [
    | inl m ↦
        let h = handlers row.cgi_cb w (assign row c) in
        rw (m, try_rows)
          (react_frame rows (try_rows_frame rows) h.0 h.1 h.2 (
            frame.by_handler row.cgi_cb w (assign row c)
              (frame.by_cgi c (some row.cgi_cb) none row.cgi_arg p)))
    | inr m ↦ rw (m, try_rows) (try_rows_frame rows w c p)
  ]

  pub process_request_frame :
      (table : List BuiltInUrl) (w : W) (c : Conn) → P c → P (process_request handlers table w c).2
  process_request_frame table w c p = elim (Option-cases c.url) [
    | inl n ↦ subst (λ r. P r.2) (sym (without_url handlers table w c n)) p
    | inr (u, s) ↦
        subst (λ r. P r.2) (sym (with_url handlers table w c u s)) (try_rows_frame table w c p)
  ]
