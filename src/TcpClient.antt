-- ===== src/TcpClient.antt =====
-- TCP connections for the microcontroller, serial/tcpclient.c. The results of os_malloc, of the name
-- service and of espconn_connect and espconn_sent are parameters of the calls that ask for them.
pub mod Serial
pub mod Invariant
pub mod Reach
pub mod Counter
pub mod Connect
use ems_esp_link.Prelude.{
  ℕ, zero, suc, ◌+◌, ◌-◌, ◌%◌, ◌^◌, Bool, true, false, not, ◌&&◌, ◌||◌, Option, none, some, List,
  [], ◌∷◌, ◌++◌, ltb, ◌==◌, if◌then◌else◌, length, take, drop, set, get_or,
}
use ems_esp_link.Prelude.Fill.{put_at}
use ems_esp_link.Prelude.Text.{Bytes, codes, c_string, decimal, atoi}
use ems_esp_link.Prelude.Words.{slt}

-- MAX_CHAN, MAX_TXBUF
abbrev pub max_chan : ℕ
max_chan = 8

abbrev pub max_txbuf : ℕ
max_txbuf = 1024

-- `enum TcpState`
pub data TcpState : Type 0 where
  idle dns connecting connected : TcpState

-- `esp_tcp`, of which the code uses the peer.
pub record Peer : Type 0 where
  pub remote_port : ℕ
  pub remote_ip : Bytes

-- `TcpConn`. The pointers are `none` where they are NULL; `tx_buf` is what has been written to the
-- buffer so far, and `tx_buf_len` is a `uint8_t`.
pub record TcpConn : Type 0 where
  pub conn : Option ℕ
  pub tcp : Option Peer
  pub tx_buf : Option Bytes
  pub tx_buf_sent : Option Bytes
  pub tx_buf_len : ℕ
  pub state : TcpState

-- `memset(tci, 0, sizeof(TcpConn))`
abbrev pub cleared : TcpConn
cleared = record {
  conn = none;
  tcp = none;
  tx_buf = none;
  tx_buf_sent = none;
  tx_buf_len = 0;
  state = idle;
}

-- The calls that leave the file: `uart0_tx_buffer`, `espconn_sent`, `espconn_connect`,
-- `espconn_gethostbyname`, `espconn_disconnect`, `serledFlash`.
pub data Effect : Type 0 where
  uart : Bytes → Effect
  sent : Option ℕ → Bytes → Effect
  connect : Option ℕ → Peer → Effect
  resolve : Option ℕ → Bytes → Effect
  disconnect : Option ℕ → Effect
  led : ℕ → Effect

-- ESPCONN_OK, ESPCONN_INPROGRESS (-5)
abbrev pub espconn_ok : ℕ
espconn_ok = 0

abbrev pub espconn_in_progress : ℕ
espconn_in_progress = 2 ^ 32 - 5

abbrev is_idle : TcpState → Bool
is_idle idle = true
is_idle dns = false
is_idle connecting = false
is_idle connected = false

abbrev is_connected : TcpState → Bool
is_connected idle = false
is_connected dns = false
is_connected connecting = false
is_connected connected = true

abbrev pub is_null {ℓ} : {A : Type ℓ} → Option A → Bool
is_null none = true
is_null (some x) = false

-- `tcpConnFree`
unfoldable pub tcp_conn_free : TcpConn → TcpConn
tcp_conn_free t = cleared

-- The common start of a connection, or the way out at the label `fail`.
unfoldable pub attach : Option ℕ → Bool → TcpConn → Bool × TcpConn
unfolding tcp_conn_free
attach none has_tcp t = (false, tcp_conn_free t)
attach (some h) has_tcp t =
    if has_tcp
    then (
      true,
      record t {
        conn = some h;
        tcp = some (record { remote_port = 80; remote_ip = 0 ∷ 0 ∷ 0 ∷ 0 ∷ [] });
        state = dns;
      },
    )
    else (false, tcp_conn_free t)

-- `tcpConnAlloc`: whether it succeeds, and the connection. The arguments are what the two calls of
-- os_malloc give: the new `espconn`, and whether there is memory for the `esp_tcp`.
unfoldable pub tcp_conn_alloc : Option ℕ → Bool → TcpConn → Bool × TcpConn
unfolding attach
tcp_conn_alloc new_conn has_tcp t =
    if not (is_idle t.state) && not (is_null t.conn) then (true, t) else attach new_conn has_tcp t

-- `tcpDoSend`, where espconn_sent returns `err`. A buffer that is sent gets a NUL behind its text.
unfoldable pub tcp_do_send : ℕ → TcpConn → TcpConn × List Effect
tcp_do_send err t =
    let text : Bytes = elim t.tx_buf [ none ↦ [] | some buf ↦ take t.tx_buf_len buf ] in
    (
      (if err == espconn_ok
          then record t {
            tx_buf_sent = (elim t.tx_buf [
              | none ↦ none
              | some buf ↦ some (put_at buf t.tx_buf_len 0)
            ]);
            tx_buf = none;
            tx_buf_len = 0;
          }
          else t),
      sent t.conn text ∷ [],
    )

abbrev pub has_text : TcpConn → Bool
has_text t = not (is_null t.tx_buf) && ltb 0 t.tx_buf_len

-- The address is known, and the peer is dialled; `status` is what espconn_connect returns.
unfoldable pub dial : ℕ → Bytes → TcpConn → Option Peer → TcpConn × List Effect
unfolding tcp_conn_free
dial status a t none = (t, [])
dial status a t (some p) =
    let p' = record p { remote_ip = a } in
    (
      (if status == espconn_ok
          then record t { tcp = some p'; state = connecting }
          else tcp_conn_free t),
      connect t.conn p' ∷ [],
    )

-- `tcpClientHostnameCb`
unfoldable pub hostname_cb : ℕ → Option Bytes → TcpConn → TcpConn × List Effect
unfolding tcp_conn_free dial
hostname_cb status none t = (tcp_conn_free t, [])
hostname_cb status (some a) t = dial status a t t.tcp

-- The notice of an event on a channel: a newline, a tilde, the channel and a letter.
abbrev pub notice : ℕ → ℕ → Bytes
notice chan letter = codes "\n~@" ++ (decimal chan ++ (letter ∷ b'\n' ∷ []))

-- `tcpConnectCb`
unfoldable pub connected_cb : ℕ → ℕ → TcpConn → TcpConn × List Effect
unfolding tcp_do_send
connected_cb chan err t =
    let t1 = record t { state = connected } in
    let (t2, done) = tcp_do_send err t1 in
    if has_text t1
    then (t2, done ++ (uart (notice chan b'C') ∷ []))
    else (t1, uart (notice chan b'C') ∷ [])

-- `tcpDisconCb`, `tcpResetCb`
unfoldable pub discon_cb : ℕ → TcpConn → TcpConn × List Effect
unfolding tcp_conn_free
discon_cb chan t = (tcp_conn_free t, uart (notice chan b'Z') ∷ [])

-- `tcpSentCb`
unfoldable pub sent_cb : ℕ → TcpConn → TcpConn × List Effect
unfolding tcp_do_send
sent_cb err t =
    let t1 = record t { tx_buf_sent = none } in
    if not (is_null t1.tx_buf) && t1.tx_buf_len == max_txbuf then tcp_do_send err t1 else (t1, [])

-- `tcpRecvCb`. The search for the channel has the test that follows it as its body, and leaves the
-- number of the channel all the same.
unfoldable pub recv_cb : ℕ → Bytes → TcpConn → TcpConn × List Effect
recv_cb chan text t = (
  t,
  (if is_connected t.state
      then uart (codes "\n~" ++ decimal chan) ∷ uart text ∷ uart (0 ∷ b'\n' ∷ []) ∷ led 50 ∷ []
      else led 50 ∷ []),
)
