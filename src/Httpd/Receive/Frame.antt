-- ===== src/Httpd/Receive/Frame.antt =====
-- What receiving data leaves alone.
use ems_esp_link.Prelude.{ℕ, ◌==◌, inl, inr, none, List, [], ◌∷◌, length, Bool-cases}
use ems_esp_link.Prelude.Words.{slt}
use ems_esp_link.Prelude.Text.{Bytes}
use ems_esp_link.Httpd.Conn.{Conn, PostData}
use ems_esp_link.Httpd.Dispatch.{BuiltInUrl, Handlers, process_request}
use ems_esp_link.Httpd.Dispatch.Frame.{IsFramed, process_request_frame}
use ems_esp_link.Httpd.Request.{parse_lines}
use ems_esp_link.Httpd.Request.Keeps.{IsKept, parse_lines_lem}
use ems_esp_link.Httpd.Receive.{
  push_head, push_body, ends_head, is_chunk, parse_head, empty_buff, head_byte, body_byte,
  recv_byte, recv_bytes, recv_data,
}

-- A property that does not look at the request.
pub record IsApart {W : Type 0} (handlers : Handlers W) (P : Conn → Type 0) : Type 0 where
  pub framed : IsFramed handlers P
  pub by_request :
      (c : Conn) (m : Conn)
      → P c
      → P (record c {
        request_type = m.request_type;
        url = m.url;
        get_args = m.get_args;
        head = m.head;
        body = m.body;
      })

module _ {W : Type 0} (handlers : Handlers W) (P : Conn → Type 0) (apart : IsApart handlers P) where
  IsApart-IsKept : IsKept P
  IsApart-IsKept = record {
    by_url =
        λ c m u a p. apart.by_request c (record c { request_type = m; url = u; get_args = a }) p;
    by_length = λ c s p. apart.by_request c (record c { body = _ }) p;
    by_boundary = λ c b p. apart.by_request c (record c { body = _ }) p;
  }

  by_head : (c : Conn) (h : Bytes) → P c → P (record c { head = h })
  by_head c h p = apart.by_request c (record c { head = h }) p

  by_body : (c : Conn) (b : PostData) → P c → P (record c { body = b })
  by_body c b p = apart.by_request c (record c { body = b }) p

  parse_head_frame : (c : Conn) → P c → P (parse_head c)
  unfolding parse_head
  parse_head_frame c p =
      let start = record c { url = none; body = record c.body { len = 0 } } in
      let r = parse_lines (length c.head) c.head start in
      by_head r.1 r.0
        (parse_lines_lem P IsApart-IsKept (length c.head) c.head start (apart.by_request c start p))

  module _ (table : List BuiltInUrl) where
    request : (w : W) (c : Conn) → P c → P (process_request handlers table w c).2
    request w c p = process_request_frame handlers P apart.framed table w c p

    head_byte_frame : (w : W) (c : Conn) (x : ℕ) → P c → P (head_byte handlers table w c x).2
    unfolding head_byte
    head_byte_frame w c x p =
        let c1 = record c { head = push_head c.head x } in
        let pushed = by_head c (push_head c.head x) p in
        let parsed = parse_head_frame c1 pushed in
        elim (Bool-cases (ends_head c1.head x)) [
          | inr e ↦ rw (e, head_byte) pushed
          | inl e ↦ elim (Bool-cases ((parse_head c1).body.len == 0)) [
            | inl z ↦ rw (e, z, head_byte) (request w (parse_head c1) parsed)
            | inr z ↦ rw (e, z, head_byte) parsed
          ]
        ]

    body_byte_frame : (w : W) (c : Conn) (x : ℕ) → P c → P (body_byte handlers table w c x).2
    unfolding body_byte
    body_byte_frame w c x p =
        let c1 = record c { body = push_body c.body x } in
        let pushed = by_body c (push_body c.body x) p in
        let c2 = (process_request handlers table w c1).2 in
        elim (Bool-cases (is_chunk c1.body)) [
          | inl z ↦ rw (z, body_byte) (by_body c2 (empty_buff c2).body (request w c1 pushed))
          | inr z ↦ rw (z, body_byte) pushed
        ]

    recv_byte_frame : (w : W) (c : Conn) (x : ℕ) → P c → P (recv_byte handlers table w c x).2
    unfolding recv_byte
    recv_byte_frame w c x p = elim (Bool-cases (slt c.body.len 0)) [
      | inl e ↦ rw (e, recv_byte) (head_byte_frame w c x p)
      | inr e ↦ elim (Bool-cases (c.body.len == 0)) [
        | inl z ↦ rw (e, z, recv_byte) p
        | inr z ↦ rw (e, z, recv_byte) (body_byte_frame w c x p)
      ]
    ]

    recv_bytes_frame :
        (xs : Bytes) (w : W) (c : Conn) → P c → P (recv_bytes handlers table w c xs).2
    unfolding recv_bytes
    recv_bytes_frame [] w c p = p
    recv_bytes_frame (x ∷ xs) w c p =
        let r = recv_byte handlers table w c x in
        recv_bytes_frame xs r.1 r.2 (recv_byte_frame w c x p)

    pub recv_data_frame :
        (w : W) (c : Conn) (text : Bytes) → P c → P (recv_data handlers table w c text).2
    unfolding recv_data
    recv_data_frame w c text p =
        recv_bytes_frame text w (record c { send_buff = [] }) (apart.framed.by_send c [] p)
