-- ===== src/TcpClient/Reach.antt =====
-- The states of a TCP connection of serial/tcpclient.c that its callers can bring about, in any order.
use ems_esp_link.Prelude.{
  if_lem, ℕ, ◌-◌, ◌≡◌, refl, Bool, true, false, not, ◌&&◌, Option, none, some, List, [], ◌∷◌, ◌==◌,
  length, take, drop,
}
use ems_esp_link.Prelude.Text.{Bytes, atoi, strstr}
use ems_esp_link.TcpClient.{
  TcpConn, TcpState, idle, dns, Peer, Effect, cleared, espconn_ok, espconn_in_progress, is_null,
  is_idle, tcp_conn_alloc, hostname_cb, connected_cb, discon_cb, sent_cb, recv_cb, attach,
}
use ems_esp_link.TcpClient.Serial.{
  send_char, send_push, Answers, look_up, begin, with_port, connect_command, close_command, command,
  bad_port,
}
use ems_esp_link.TcpClient.Invariant.{
  IsBuffered, IsAttached, IsSound, sent_cb-IsSound, connected_cb-IsSound, hostname_cb-IsSound,
  send_char-IsSound, send_push-IsSound,
}

-- What a command leaves is sound.
abbrev Ends : Bool × TcpConn × List Effect → Type 0
Ends r = IsSound r.1

-- The connection is allocated where the command goes on.
IsAlloc : Bool × TcpConn → Type 0
IsAlloc r = IsSound r.1 × (r.0 ≡ true → is_null r.1.conn ≡ false)

attach-IsAlloc :
    (new_conn : Option ℕ) (has_tcp : Bool) (t : TcpConn)
    → IsSound t
    → IsAlloc (attach new_conn has_tcp t)
unfolding attach IsAlloc IsSound IsBuffered IsAttached
attach-IsAlloc none m t s = ((refl, refl), λ e. cc)
attach-IsAlloc (some h) true t s = ((s.0, tt), λ e. refl)
attach-IsAlloc (some h) false t s = ((refl, refl), λ e. cc)

tcp_conn_alloc-IsAlloc :
    (new_conn : Option ℕ) (has_tcp : Bool) (t : TcpConn)
    → IsSound t
    → IsAlloc (tcp_conn_alloc new_conn has_tcp t)
unfolding tcp_conn_alloc IsAlloc
tcp_conn_alloc-IsAlloc new_conn has_tcp t s =
    if_lem IsAlloc (not (is_idle t.state) && not (is_null t.conn)) _ _
      (λ e. (s, λ _. alive (is_idle t.state) (is_null t.conn) e))
      (λ e. attach-IsAlloc new_conn has_tcp t s)
  where
    alive : (a b : Bool) → not a && not b ≡ true → b ≡ false
    alive true b e = cc
    alive false true e = cc
    alive false false e = refl

look_up-IsSound :
    (env : Answers) (host : Bytes) (t : TcpConn) → IsSound t → IsSound (look_up env host t).1
unfolding look_up IsSound IsBuffered IsAttached
look_up-IsSound env host t s =
    if_lem Ends (env.dns_result == espconn_ok) _ _
      (λ e. hostname_cb-IsSound env.connect_result env.address t s)
      (λ e. if_lem Ends (env.dns_result == espconn_in_progress) _ _ (λ e. s) (λ e. (refl, refl)))

ported :
    (c : Option ℕ) (o : Option Peer) (st : TcpState) (port : ℕ)
    → is_null c ≡ false
    → IsAttached c o st
    → IsAttached c (with_port port o) dns
unfolding IsAttached
ported none none st port e a = cc
ported none (some p) st port e a = a
ported (some h) none st port e a = a
ported (some h) (some p) st port e a = tt

begin-IsSound :
    (env : Answers) (host : Bytes) (port : ℕ) (t : TcpConn)
    → IsSound t
    → IsSound (begin env host port t).1
unfolding begin IsSound IsAlloc
begin-IsSound env host port t s =
    if_lem Ends r.0 _ _
      (λ e.
        look_up-IsSound env host (record r.1 { state = dns; tcp = with_port port r.1.tcp })
          (a.0.0, ported r.1.conn r.1.tcp r.1.state port (a.1 e) a.0.1))
      (λ e. a.0)
  where
    r : Bool × TcpConn
    r = tcp_conn_alloc env.new_conn env.has_tcp t

    a : IsAlloc r
    a = tcp_conn_alloc-IsAlloc env.new_conn env.has_tcp t s

connect_command-IsSound :
    (env : Answers) (buf : Bytes) (t : TcpConn) (o : Option Bytes)
    → IsSound t
    → IsSound (connect_command env buf t o).1
unfolding connect_command
connect_command-IsSound env buf t none s = s
connect_command-IsSound env buf t (some rest) s =
    if_lem Ends (bad_port (atoi (drop 1 rest))) _ _ (λ e. s)
      (λ e. begin-IsSound env (take (length buf - length rest) buf) (atoi (drop 1 rest)) t s)

close_command-IsSound : (t : TcpConn) → IsSound t → IsSound (close_command t).1
unfolding close_command IsSound IsAttached
close_command-IsSound t s =
    if_lem Ends (is_idle t.state) _ _ (λ e. s) (λ e. (s.0, closed t.conn t.tcp t.state s.1))
  where
    closed :
        (c : Option ℕ) (p : Option Peer) (st : TcpState) → IsAttached c p st → IsAttached c p idle
    closed none none st a = refl
    closed none (some p) st a = a
    closed (some h) none st a = a
    closed (some h) (some p) st a = tt

command-IsSound :
    (env : Answers) (cmd : ℕ) (cmd_buf : Bytes) (t : TcpConn)
    → IsSound t
    → IsSound (command env cmd cmd_buf t).1
unfolding command
command-IsSound env cmd cmd_buf t s =
    if_lem Ends (cmd == b'T') _ _
      (λ e.
        connect_command-IsSound env (take 127 cmd_buf) t (strstr (take 127 cmd_buf) (b':' ∷ [])) s)
      (λ e. if_lem Ends (cmd == b'C') _ _ (λ e. close_command-IsSound t s) (λ e. s))

-- What the serial port and the network stack do to a connection, with any answers of the stack. The
-- stack reports a connection only on an `espconn` that is allocated.
pub data Step : TcpConn → TcpConn → Type 0 where
  char : (t : TcpConn) (has_memory : Bool) (err c : ℕ) → Step t (send_char has_memory err t c).0
  push : (t : TcpConn) (err : ℕ) → Step t (send_push err t).0
  commanded :
      (t : TcpConn) (env : Answers) (cmd : ℕ) (buf : Bytes) → Step t (command env cmd buf t).1
  resolved : (t : TcpConn) (status : ℕ) (ip : Option Bytes) → Step t (hostname_cb status ip t).0
  opened : (t : TcpConn) (chan err h : ℕ) → t.conn ≡ some h → Step t (connected_cb chan err t).0
  closed : (t : TcpConn) (chan : ℕ) → Step t (discon_cb chan t).0
  acknowledged : (t : TcpConn) (err : ℕ) → Step t (sent_cb err t).0
  received : (t : TcpConn) (chan : ℕ) (text : Bytes) → Step t (recv_cb chan text t).0

pub data Reach : TcpConn → Type 0 where
  start : Reach cleared
  next : {t u : TcpConn} → Reach t → Step t u → Reach u

Step-IsSound : {t u : TcpConn} → Step t u → IsSound t → IsSound u
unfolding discon_cb recv_cb IsSound IsBuffered IsAttached
Step-IsSound (char t m err c) s = send_char-IsSound m err t c s
Step-IsSound (push t err) s = send_push-IsSound err t s
Step-IsSound (commanded t env cmd buf) s = command-IsSound env cmd buf t s
Step-IsSound (resolved t status ip) s = hostname_cb-IsSound status ip t s
Step-IsSound (opened t chan err h e) s = connected_cb-IsSound chan err t h e s
Step-IsSound (closed t chan) s = (refl, refl)
Step-IsSound (acknowledged t err) s = sent_cb-IsSound err t s
Step-IsSound (received t chan text) s = s

-- In every state that any order of characters, pushes, commands and callbacks leads to from the
-- cleared connection, with any answers of the memory allocator and the network stack: at most 256 of
-- the 1024 bytes of the buffer have been written, the count is below 256 and within what is written,
-- it is 0 without a buffer, and a connection that is not idle has both its structures.
pub Reach-IsSound : {t : TcpConn} → Reach t → IsSound t
unfolding IsSound IsBuffered IsAttached
Reach-IsSound start = (refl, refl)
Reach-IsSound (next r st) = Step-IsSound st (Reach-IsSound r)
