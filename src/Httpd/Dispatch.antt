-- ===== src/Httpd/Dispatch.antt =====
-- `httpdProcessRequest` of httpd/httpd.c: the search of the URL table. The handlers are a parameter,
-- by their number in the table, over the state of the rest of the firmware.
pub mod Barrier
pub mod Frame
use ems_esp_link.Prelude.{
  ℕ, ◌+◌, ◌-◌, Bool, true, false, ◌&&◌, ◌||◌, Option, none, some, List, [], ◌∷◌, ◌++◌, ◌==◌,
  if◌then◌else◌, length, get_or, take,
}
use ems_esp_link.Prelude.Text.{Bytes, codes, str_eq, starts_with}
use ems_esp_link.Httpd.Conn.{Conn, Code, more, done, not_found, authenticated}
use ems_esp_link.Httpd.Send.{send, xmit_send_buff}

-- What the server does to the network: `espconn_sent` and `espconn_disconnect`.
pub data Output : Type 0 where
  sent : Option ℕ → Bytes → Output
  disconnect : Option ℕ → Output

-- `HttpdBuiltInUrl`
pub record BuiltInUrl : Type 0 where
  pub url : Bytes
  pub cgi_cb : ℕ
  pub cgi_arg : ℕ

-- A literal match, or a match up to a final asterisk.
unfoldable pub url_matches : Bytes → Bytes → Bool
url_matches pat url =
    str_eq pat url
    || (get_or pat (length pat - 1) 0 == b'*' && starts_with url (take (length pat - 1) pat))

-- `xmitSendBuff` with the call that it makes.
unfoldable pub transmit : Conn → List Output × Conn
unfolding xmit_send_buff
transmit c =
    let (text, c') = xmit_send_buff c in
    elim text [ none ↦ ([], c') | some bytes ↦ (sent c.conn bytes ∷ [], c') ]

-- `httpNotFoundHeader`
abbrev pub http_not_found_header : Bytes
http_not_found_header =
    codes
      "HTTP/1.0 404 Not Found\r\nConnection: close\r\nContent-Type: text/plain\r\nContent-Length: 12\r\n\r\nNot Found.\r\n"

-- The connection with the handler of a row.
abbrev pub assign : BuiltInUrl → Conn → Conn
assign row c = record c { cgi_data = none; cgi = some row.cgi_cb; cgi_arg = row.cgi_arg }

-- The text of `url`, which stays while the request is handled.
abbrev pub url_of : Conn → Bytes
url_of c = elim c.url [ none ↦ [] | some u ↦ u ]

abbrev pub Handlers : Type 0 → Type 0
Handlers W = ℕ → W → Conn → Code × W × Conn

module _ {W : Type 0} (handlers : Handlers W) where
  -- What follows the call of a handler; `next` is the search of the rows below.
  unfoldable pub react :
      (W → Conn → List Output × W × Conn) → Code → W → Conn → List Output × W × Conn
  unfolding transmit
  react next more w c = let (out, c') = transmit c in (out, w, c')
  react next done w c = let (out, c') = transmit c in (out, w, record c' { cgi = none })
  react next not_found w c = next w c
  react next authenticated w c = next w c

  -- The loop over the rows that are left.
  unfoldable pub try_rows : List BuiltInUrl → W → Conn → List Output × W × Conn
  unfolding url_matches react
  try_rows [] w c =
      let (out, c') = transmit (send c http_not_found_header).1 in
      (out, w, record c' { cgi = none })
  try_rows (row ∷ rows) w c = elim (url_matches row.url (url_of c)) [
    | false ↦ try_rows rows w c
    | true ↦ let (r, w', c') = handlers row.cgi_cb w (assign row c) in react (try_rows rows) r w' c'
  ]

  -- `httpdProcessRequest`
  unfoldable pub process_request : List BuiltInUrl → W → Conn → List Output × W × Conn
  unfolding try_rows
  process_request table w c = elim c.url [ none ↦ ([], w, c) | some _ ↦ try_rows table w c ]
