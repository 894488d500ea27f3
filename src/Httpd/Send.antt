-- ===== src/Httpd/Send.antt =====
-- The response functions of httpd/httpd.c and user/cgi.c, which add to the send buffer.
pub mod Json
use ems_esp_link.Prelude.{
  ℕ, zero, suc, ◌+◌, ◌≤◌, ◌≡◌, refl, ◌∙◌, Bool, true, false, Option, none, some, List, [], ◌∷◌,
  ◌++◌, ltb, if◌then◌else◌, Bool-cases, arith, length, length-append,
}
use ems_esp_link.Prelude.Text.{Bytes, codes, decimal}
use ems_esp_link.Httpd.Conn.{Conn, Code, done}

-- MAX_SENDBUFF_LEN
abbrev pub max_sendbuff_len : ℕ
max_sendbuff_len = 2600

-- `httpdSend`: all of the data is added, or none of it.
unfoldable pub send : Conn → Bytes → Bool × Conn
send c text =
    if ltb max_sendbuff_len (length c.send_buff + length text)
    then (false, c)
    else (true, record c { send_buff = c.send_buff ++ text })

-- `httpdStartResponse`
unfoldable pub start_response : Conn → ℕ → Conn
start_response c code =
    (send c (
      codes "HTTP/1.0 "
      ++ (decimal code
          ++ (codes " "
              ++ ((if ltb code 400 then codes "OK" else codes "ERROR")
                  ++ codes "\r\nServer: esp-link\r\nConnection: close\r\n"))))).1

-- `httpdHeader`
unfoldable pub header : Conn → Bytes → Bytes → Conn
header c field val = (send c (field ++ (codes ": " ++ (val ++ codes "\r\n")))).1

-- `httpdEndHeaders`
unfoldable pub end_headers : Conn → Conn
end_headers c = (send c (codes "\r\n")).1

-- `httpdRedirect`
unfoldable pub redirect : Conn → Bytes → Conn
redirect c new_url =
    (send c (
      codes "HTTP/1.0 302 Found\r\nServer: esp8266-link\r\nConnection: close\r\nLocation: "
      ++ (new_url ++ (codes "\r\n\r\nRedirecting to " ++ (new_url ++ codes "\r\n"))))).1

-- `cgiRedirect`, whose URL is what the table's `cgiArg` points to.
unfoldable pub cgi_redirect : Bytes → Conn → Code × Conn
cgi_redirect target c = elim c.conn [ none ↦ (done, c) | some _ ↦ (done, redirect c target) ]

-- `jsonHeader` of user/cgi.c
unfoldable pub json_header : Conn → ℕ → Conn
json_header c code =
    let c1 = start_response c code in
    let c2 = header c1 (codes "Cache-Control") (codes "no-cache, no-store, must-revalidate") in
    let c3 = header c2 (codes "Pragma") (codes "no-cache") in
    let c4 = header c3 (codes "Expires") (codes "0") in
    let c5 = header c4 (codes "Content-Type") (codes "application/json") in end_headers c5

-- `xmitSendBuff`: what it hands to `espconn_sent`, if anything.
unfoldable pub xmit_send_buff : Conn → Option Bytes × Conn
xmit_send_buff c = elim c.send_buff [
  | [] ↦ (none, c)
  | x ∷ xs ↦ (some (x ∷ xs), record c { send_buff = [] })
]

-- Nothing is ever written past the end of the send buffer.
abbrev pub Fits : Conn → Type 0
Fits c = length c.send_buff ≤ max_sendbuff_len

pub send-Fits : (c : Conn) (text : Bytes) → Fits c → Fits (send c text).1
unfolding send
send-Fits c text h = ground (arith, length-append c.send_buff text)

-- What fits is appended.
pub send_room :
    (c : Conn) (text : Bytes)
    → length c.send_buff + length text ≤ max_sendbuff_len
    → send c text ≡ (true, record c { send_buff = c.send_buff ++ text })
unfolding send
send_room c text h = ground arith
