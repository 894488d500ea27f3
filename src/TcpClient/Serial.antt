-- ===== src/TcpClient/Serial.antt =====
-- The side of serial/tcpclient.c that the serial port calls: characters, pushes and commands.
use ems_esp_link.Prelude.{
  ℕ, ◌+◌, ◌-◌, ◌%◌, ◌^◌, Bool, true, false, not, ◌||◌, Option, none, some, List, [], ◌∷◌, ltb, ◌==◌,
  if◌then◌else◌, length, take, drop,
}
use ems_esp_link.Prelude.Fill.{put_at}
use ems_esp_link.Prelude.Text.{Bytes, strstr, atoi}
use ems_esp_link.Prelude.Words.{slt}
use ems_esp_link.TcpClient.{
  TcpConn, idle, dns, Peer, Effect, resolve, disconnect, max_txbuf, espconn_ok, espconn_in_progress,
  is_null, is_idle, is_connected, tcp_conn_free, tcp_conn_alloc, tcp_do_send, hostname_cb,
}

-- `txBuf[txBufLen++] = c`: the length is a byte, and wraps.
unfoldable pub append_char : TcpConn → Bytes → ℕ → TcpConn
append_char t buf c = record t {
  tx_buf = some (put_at buf t.tx_buf_len c);
  tx_buf_len = (t.tx_buf_len + 1) % 2 ^ 8;
}

-- A buffer is allocated for the character, if there is memory.
unfoldable pub start_buf : Bool → TcpConn → ℕ → TcpConn
unfolding append_char
start_buf has_memory t c =
    let t1 = record t { tx_buf_len = 0 } in
    if has_memory then append_char t1 [] c else record t1 { tx_buf = none }

-- The full buffer is sent off, if no other is on its way.
unfoldable pub send_full : Bool → ℕ → TcpConn → ℕ → TcpConn × List Effect
unfolding tcp_do_send start_buf
send_full has_memory err t c =
    let (t1, done) = (if is_connected t.state then tcp_do_send err t else (t, [])) in
    if not (is_null t.tx_buf_sent)
    then (t, [])
    else (if not (is_null t1.tx_buf) then (t1, done) else (start_buf has_memory t1 c, done))

-- A character for a connection in use, by the buffer it has.
unfoldable pub store_char : Bool → ℕ → TcpConn → ℕ → Option Bytes → TcpConn × List Effect
unfolding append_char start_buf send_full
store_char has_memory err t c none = (start_buf has_memory t c, [])
store_char has_memory err t c (some buf) =
    if ltb t.tx_buf_len max_txbuf then (append_char t buf c, []) else send_full has_memory err t c

-- `tcpClientSendChar`
unfoldable pub send_char : Bool → ℕ → TcpConn → ℕ → TcpConn × List Effect
unfolding store_char
send_char has_memory err t c =
    if is_idle t.state then (t, []) else store_char has_memory err t c t.tx_buf

-- `tcpClientSendPush`
unfoldable pub send_push : ℕ → TcpConn → TcpConn × List Effect
unfolding tcp_do_send
send_push err t =
    if not (is_connected t.state)
    then (t, [])
    else if is_null t.tx_buf || t.tx_buf_len == 0
    then (t, [])
    else if not (is_null t.tx_buf_sent)
    then (t, [])
    else tcp_do_send err t

-- What the environment answers while a connection is made: memory for the `espconn` and for the
-- `esp_tcp`, the result of the name service, the address if it is known, and the result of
-- espconn_connect.
pub record Answers : Type 0 where
  pub new_conn : Option ℕ
  pub has_tcp : Bool
  pub dns_result : ℕ
  pub address : Option Bytes
  pub connect_result : ℕ

-- `portInt < 1 || portInt > 65535`
abbrev pub bad_port : ℕ → Bool
bad_port p = slt p 1 || slt 65535 p

-- The port goes into the peer of the connection.
abbrev pub with_port : ℕ → Option Peer → Option Peer
with_port port none = none
with_port port (some p) = some (record p { remote_port = port })

-- The name of the server is looked up.
unfoldable pub look_up : Answers → Bytes → TcpConn → Bool × TcpConn × List Effect
unfolding tcp_conn_free hostname_cb
look_up env host t =
    let (t', done) = hostname_cb env.connect_result env.address t in
    if env.dns_result == espconn_ok
    then (true, t', resolve t.conn host ∷ done)
    else if env.dns_result == espconn_in_progress
    then (true, t, resolve t.conn host ∷ [])
    else (false, tcp_conn_free t, resolve t.conn host ∷ [])

-- A connection to a host and a port is begun.
unfoldable pub begin : Answers → Bytes → ℕ → TcpConn → Bool × TcpConn × List Effect
unfolding tcp_conn_alloc look_up
begin env host port t =
    let (ok, t1) = tcp_conn_alloc env.new_conn env.has_tcp t in
    if ok
    then look_up env host (record t1 { state = dns; tcp = with_port port t1.tcp })
    else (false, t1, [])

-- The connect command: `rest` starts at the colon between the host and the port.
unfoldable pub connect_command :
    Answers → Bytes → TcpConn → Option Bytes → Bool × TcpConn × List Effect
unfolding begin
connect_command env buf t none = (false, t, [])
connect_command env buf t (some rest) =
    let port = atoi (drop 1 rest) in
    if bad_port port then (false, t, []) else begin env (take (length buf - length rest) buf) port t

-- The close command.
unfoldable pub close_command : TcpConn → Bool × TcpConn × List Effect
close_command t =
    if is_idle t.state
    then (false, t, [])
    else (false, record t { state = idle }, disconnect t.conn ∷ [])

-- `tcpClientCommand`: 127 characters of the command are read.
unfoldable pub command : Answers → ℕ → Bytes → TcpConn → Bool × TcpConn × List Effect
unfolding connect_command close_command
command env cmd cmd_buf t =
    if cmd == b'T'
    then connect_command env (take 127 cmd_buf) t (strstr (take 127 cmd_buf) (b':' ∷ []))
    else if cmd == b'C'
    then close_command t
    else (false, t, [])
