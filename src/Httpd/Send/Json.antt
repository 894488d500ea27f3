-- ===== src/Httpd/Send/Json.antt =====
-- The head of a JSON response, `jsonHeader` of user/cgi.c, on an empty send buffer.
use ems_esp_link.Prelude.{◌≤◌, ◌≡◌, refl, ap, ◌∙◌, [], ◌++◌, arith, length}
use ems_esp_link.Prelude.Text.{Bytes, codes, decimal}
use ems_esp_link.Httpd.Conn.{Conn}
use ems_esp_link.Httpd.Send.{send, send_room, start_response, header, end_headers, json_header}

-- The bytes of the head.
abbrev pub json_head : Bytes
json_head =
    codes
      "HTTP/1.0 200 OK\r\nServer: esp-link\r\nConnection: close\r\nCache-Control: no-cache, no-store, must-revalidate\r\nPragma: no-cache\r\nExpires: 0\r\nContent-Type: application/json\r\n\r\n"

json_header_cleared :
    (c : Conn) → json_header (record c { send_buff = [] }) 200 ≡ record c { send_buff = json_head }
unfolding json_header start_response header end_headers send decimal
json_header_cleared c = refl

pub json_header_empty :
    (c : Conn) → c.send_buff ≡ [] → json_header c 200 ≡ record c { send_buff = json_head }
json_header_empty c e =
    ap (λ t. json_header (record c { send_buff = t }) 200) e ∙ json_header_cleared c

-- A body of at most 2400 bytes follows the head, whole.
pub send-json_header :
    (c : Conn) (text : Bytes)
    → c.send_buff ≡ []
    → length text ≤ 2400
    → (send (json_header c 200) text).1.send_buff ≡ json_head ++ text
send-json_header c text e h =
    rw (json_header_empty c e)
      (ap (λ r. r.1.send_buff) (send_room (record c { send_buff = json_head }) text (omega arith)))
