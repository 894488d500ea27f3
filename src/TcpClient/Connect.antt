-- ===== src/TcpClient/Connect.antt =====
-- The connect command of serial/tcpclient.c: a host, a colon and a port.
use ems_esp_link.Prelude.{
  take_short, ℕ, suc, ◌+◌, ◌-◌, ◌<◌, ◌≡◌, refl, true, false, ◌⊎◌, Option, none, some, [], ◌∷◌, ◌++◌,
  ◌==◌, arith, length, take, drop, All, ap, length-append,
}
use ems_esp_link.Prelude.Text.{Bytes, atoi, atoi_lt, strstr}
use ems_esp_link.TcpClient.{
  TcpConn, connecting, resolve, connect, espconn_ok, is_idle, tcp_conn_alloc, hostname_cb, dial,
  attach,
}
use ems_esp_link.TcpClient.Serial.{Answers, look_up, begin, connect_command, command, bad_port}

take-append : (s r : Bytes) → take (length s) (s ++ r) ≡ s
take-append [] r = refl
take-append (c ∷ s) r = ap (λ r. c ∷ r) (take-append s r)

-- A text without a colon.
abbrev pub NoColon : Bytes → Type 0
NoColon s = All (λ c. (c == b':') ≡ false) s

strstr_colon :
    (host port : Bytes)
    → NoColon host
    → strstr (host ++ (b':' ∷ port)) (b':' ∷ []) ≡ some (b':' ∷ port)
strstr_colon [] port n = refl
strstr_colon (c ∷ host) port n = rw n.0 (strstr_colon host port n.1)

-- The stack has memory for a connection and knows the address of the host, and starts to connect.
abbrev pub ready : ℕ → Bytes → Answers
ready h a = record {
  new_conn = some h;
  has_tcp = true;
  dns_result = espconn_ok;
  address = some a;
  connect_result = espconn_ok;
}

begin_lem :
    (t : TcpConn) (h : ℕ) (a host : Bytes) (port : ℕ)
    → is_idle t.state ≡ true
    → begin (ready h a) host port t ≡ (
      true,
      record t {
        conn = some h;
        tcp = some (record { remote_port = port; remote_ip = a });
        state = connecting;
      },
      resolve (some h) host ∷ connect (some h) (record { remote_port = port; remote_ip = a }) ∷ [],
    )
unfolding begin tcp_conn_alloc attach look_up hostname_cb dial
begin_lem t h a host port i = rw i refl

-- The connect command with a host that has no colon and a text whose number is a port, on an idle
-- connection, where the stack has memory and knows the address, and the command fits its copy of 127
-- characters, asks the name service for that host and connects to that port at the address.
pub command-connect :
    (t : TcpConn) (h : ℕ) (a host port : Bytes)
    → is_idle t.state ≡ true
    → NoColon host
    → length host + length port < 127
    → bad_port (atoi port) ≡ false
    → command (ready h a) b'T' (host ++ (b':' ∷ port)) t ≡ (
      true,
      record t {
        conn = some h;
        tcp = some (record { remote_port = atoi port; remote_ip = a });
        state = connecting;
      },
      resolve (some h) host
          ∷ connect (some h) (record { remote_port = atoi port; remote_ip = a })
          ∷ [],
    )
unfolding command connect_command
command-connect t h a host port i n lt good =
    let text : Bytes = host ++ (b':' ∷ port) in
    let len : length text ≡ length host + suc (length port) = length-append host (b':' ∷ port) in
    let host_len : length text - suc (length port) ≡ length host = omega (arith, len) in
    let short : take 127 text ≡ text = take_short 127 text (omega (arith, len)) in
    rw (short, strstr_colon host port n, good, host_len, take-append host (b':' ∷ port))
      (begin_lem t h a host (atoi port) i)

-- The connect command without a colon in its 127 characters, or with a number behind the first colon
-- that is no port from 1 to 65535, fails, asks for nothing and leaves the connection as it was.
pub command-refuses :
    (env : Answers) (t : TcpConn) (text : Bytes)
    → ((rest : Bytes)
        → strstr (take 127 text) (b':' ∷ []) ≡ some rest
        → (atoi (drop 1 rest) ≡ 0) ⊎ (65535 < atoi (drop 1 rest)))
    → command env b'T' text t ≡ (false, t, [])
unfolding command
command-refuses env t text f = go (strstr (take 127 text) (b':' ∷ [])) f
  where
    go :
        (o : Option Bytes)
        → ((rest : Bytes) → o ≡ some rest → (atoi (drop 1 rest) ≡ 0) ⊎ (65535 < atoi (drop 1 rest)))
        → connect_command env (take 127 text) t o ≡ (false, t, [])
    go none g = refl
    go (some rest) g =
        let bad : bad_port (atoi (drop 1 rest)) ≡ true =
          ground (arith, g rest refl, atoi_lt (drop 1 rest)) in
        rw bad refl
