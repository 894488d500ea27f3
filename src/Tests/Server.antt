-- ===== src/Tests/Server.antt =====
-- The HTTP server at concrete requests.
use ems_esp_link.Prelude.{
  ℕ, zero, suc, ◌+◌, ◌-◌, ◌^◌, ◌≡◌, refl, ap, none, some, List, [], ◌∷◌, ◌++◌, ◌==◌, if◌then◌else◌,
  arith, replicate,
}
use ems_esp_link.Prelude.Text.{Bytes, codes}
use ems_esp_link.Httpd.Conn.{Conn, more, done, not_found, get}
use ems_esp_link.Httpd.Head.{get_header}
use ems_esp_link.Httpd.Head.Lookup.{Plain, first_value}
use ems_esp_link.Httpd.Dispatch.{sent, BuiltInUrl, Handlers, process_request}
use ems_esp_link.Httpd.Dispatch.Barrier.{Served, process_request-Served}
use ems_esp_link.Httpd.Request.{parse_header, parse_lines}
use ems_esp_link.Httpd.Request.FirstLine.{get_verb, parse_header_args}
use ems_esp_link.Httpd.Receive.{store_byte, terminate, parse_head, recv_data}
use ems_esp_link.Httpd.Receive.Segments.{and_then, recv_data-append}
use ems_esp_link.Httpd.Receive.Post.{Same, IsSafe, recv_data-IsSafe}
use ems_esp_link.Httpd.Receive.Wire.{wire_head, parse_head-wire_head}
use ems_esp_link.Httpd.Pool.{
  Peers, Server, vacant, max_conn, entry, find_index, connect_cb, recv_cb, sent_cb,
}
use ems_esp_link.Httpd.Pool.Tracked.{HasPeer, IsTracked}
use ems_esp_link.Httpd.Pool.Kept.{SamePeer}
use ems_esp_link.Httpd.Pool.Steps.{
  connected, received, acknowledged, Reach, here, next, Reach-find_index,
}

-- Handler 0 declines, handler 1 sends a letter twice, and the others are done at once.
abbrev serve : Handlers ℕ
serve zero w c = (not_found, w, c)
serve (suc zero) w c = ((if w == 0 then more else done), w + 1, record c { send_buff = 65 ∷ [] })
serve (suc (suc k)) w c = (done, w, c)

serve-SamePeer : (k w : ℕ) (c : Conn) → SamePeer c (serve k w c).2
serve-SamePeer zero w c = (refl, refl, refl)
serve-SamePeer (suc zero) w c = (refl, refl, refl)
serve-SamePeer (suc (suc k)) w c = (refl, refl, refl)

serve-Same : (k w : ℕ) (c : Conn) → Same c (serve k w c).2
serve-Same zero w c = (refl, refl)
serve-Same (suc zero) w c = (refl, refl)
serve-Same (suc (suc k)) w c = (refl, refl)

abbrev table : List BuiltInUrl
table =
    record { url = codes "/a*"; cgi_cb = 0; cgi_arg = 0 }
    ∷ record { url = codes "/ab"; cgi_cb = 1; cgi_arg = 5 }
    ∷ record { url = codes "*"; cgi_cb = 2; cgi_arg = 0 }
    ∷ []

abbrev peers : Peers
peers = record { port = λ h. 5000 + h; ip = λ h. 10 ∷ 0 ∷ 0 ∷ h ∷ [] }

-- An open connection that waits for its head.
abbrev waiting : Conn
waiting = record vacant {
  conn = some 3;
  remote_port = 5003;
  remote_ip = 10 ∷ 0 ∷ 0 ∷ 3 ∷ [];
  body = record vacant.body { len = 2 ^ 32 - 1 };
}

abbrev asking : Conn
asking = record waiting { url = some (codes "/ab") }

process_request-Served_example : Served serve table 0 asking (process_request serve table 0 asking)
process_request-Served_example = process_request-Served serve table 0 asking (codes "/ab") refl

process_request_test : (process_request serve table 0 asking).0 ≡ sent (some 3) (65 ∷ []) ∷ []
unfolding process_request
process_request_test = refl

recv_data-append_example :
    recv_data serve table 0 waiting (codes "GET /a" ++ codes "b HTTP/1.1\r\n\r\n")
    ≡ and_then serve table
        (recv_data serve table 0 waiting (codes "GET /a"))
        (λ w c. recv_data serve table w c (codes "b HTTP/1.1\r\n\r\n"))
recv_data-append_example =
    recv_data-append serve table 0 waiting (codes "GET /a") (codes "b HTTP/1.1\r\n\r\n")

recv_data_test :
    (recv_data serve table 0 waiting (codes "GET /ab HTTP/1.1\r\n\r\n")).0
    ≡ sent (some 3) (65 ∷ []) ∷ []
unfolding recv_data process_request parse_lines store_byte terminate
recv_data_test = refl

-- A request with a body of two bytes, of which one is sent along.
abbrev posting : Bytes
posting = codes "POST /ab HTTP/1.1\r\nContent-Length: 2\r\n\r\nx"

recv_data-IsSafe_example : IsSafe (recv_data serve table 0 waiting posting).2
recv_data-IsSafe_example =
    recv_data-IsSafe serve serve-Same table 0 waiting posting
      (record { head_fits = omega arith; body_ready = λ h n. ground arith })

parse_header_args_example :
    parse_header
      (codes "GET " ++ ((codes "/a" ++ (b'?' ∷ codes "b=1")) ++ (b' ' ∷ codes "H")))
      waiting
    ≡ (
      codes "GET " ++ (codes "/a" ++ (0 ∷ (codes "b=1" ++ (0 ∷ codes "H")))),
      record waiting { request_type = get; url = some (codes "/a"); get_args = some (codes "b=1") },
    )
parse_header_args_example =
    parse_header_args (get_verb refl) (codes "/a") (codes "b=1") (codes "H") waiting
      (omega arith, (omega arith, (omega arith, (omega arith, (omega arith, (omega arith, tt))))))
      (omega arith, (omega arith, tt))

abbrev asked : Conn
asked = record waiting {
  head = wire_head (codes "GET ") (codes "/") (codes "H") (codes "A: b" ∷ []);
}

parse_head-wire_head_example :
    let c' = parse_head asked in
    (c'.request_type ≡ get)
    × (c'.url ≡ some (codes "/"))
    × (c'.get_args ≡ none)
    × (c'.body.len ≡ 0)
    × ((name : Bytes) (ret_len : ℕ)
        → Plain name
        → get_header name ret_len c'.head ≡ first_value name ret_len (codes "A: b" ∷ []))
parse_head-wire_head_example =
    parse_head-wire_head (get_verb refl) (codes "/") (codes "H") (codes "A: b" ∷ []) asked refl
      (ground arith) (ground arith) (ground arith) (ground arith) (ground arith)

abbrev idle : Server ℕ
idle = record { world = 0; conn_data = replicate max_conn vacant }

idle-entry : (i : ℕ) → entry idle i ≡ vacant
idle-entry zero = refl
idle-entry (suc zero) = refl
idle-entry (suc (suc zero)) = refl
idle-entry (suc (suc (suc zero))) = refl
idle-entry (suc (suc (suc (suc zero)))) = refl
idle-entry (suc (suc (suc (suc (suc zero))))) = refl
idle-entry (suc (suc (suc (suc (suc (suc i)))))) = refl

idle-IsTracked : IsTracked peers idle
idle-IsTracked = record {
  linked = λ i h e. cc (idle-entry i);
  closed = λ i e. cc (idle-entry i);
  distinct = λ i j n a b. absurd (n (ap (λ c. c.remote_port) (idle-entry i)));
}

idle_fresh : (h j : ℕ) → ¬ HasPeer peers h (entry idle j)
idle_fresh h j p = absurd (omega (arith, p.0, ap (λ c. c.remote_port) (idle-entry j)))

abbrev after_connect : Server ℕ
after_connect = (connect_cb peers idle 3).0

abbrev after_request : Server ℕ
after_request = (recv_cb serve table peers after_connect 3 (codes "GET /ab HTTP/1.1\r\n\r\n")).0

session : Reach serve serve-SamePeer table peers idle (sent_cb serve peers after_request 3).0
session =
    next
      (next (next here (connected idle 3 (idle_fresh 3)))
        (received after_connect 3 (codes "GET /ab HTTP/1.1\r\n\r\n")))
      (acknowledged after_request 3)

Reach-find_index_example :
    let t = (sent_cb serve peers after_request 3).0 in
    ((i h : ℕ) → (entry t i).conn ≡ some h → find_index peers h t.conn_data ≡ some i)
    × ((i : ℕ) → (entry t i).conn ≡ none → (entry t i).remote_port ≡ 0)
Reach-find_index_example =
    Reach-find_index serve serve-SamePeer table peers (λ h. ground arith) idle-IsTracked session
