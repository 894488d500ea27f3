-- ===== src/TcpClient/Invariant.antt =====
-- What holds of a TCP connection of serial/tcpclient.c in every state its callers can bring about.
use ems_esp_link.Prelude.{
  ℕ, ◌+◌, ◌%◌, ◌^◌, ◌<◌, ◌≤◌, ◌≡◌, refl, Bool, true, not, ◌&&◌, ◌||◌, Option, none, some, List, [],
  ◌∷◌, ◌++◌, ltb, ◌==◌, if◌then◌else◌, if_lem, arith, length, set, subst, length-append, length-set,
}
use ems_esp_link.Prelude.Fill.{put_at}
use ems_esp_link.Prelude.Text.{Bytes}
use ems_esp_link.TcpClient.{
  TcpConn, TcpState, connecting, connected, Peer, Effect, max_txbuf, espconn_ok, is_null, is_idle,
  is_connected, has_text, tcp_do_send, hostname_cb, connected_cb, sent_cb, dial,
}
use ems_esp_link.TcpClient.Serial.{
  append_char, start_buf, send_full, send_char, send_push, store_char,
}

-- No more than 256 bytes of a buffer are ever written; without a buffer the count is 0.
unfoldable pub IsBuffered : Option Bytes → ℕ → Type 0
IsBuffered none n = n ≡ 0
IsBuffered (some buf) n = (n < 256) × (n ≤ length buf) × (length buf ≤ 256)

-- The two parts of a connection are allocated together, and stand while it is in use.
unfoldable pub IsAttached : Option ℕ → Option Peer → TcpState → Type 0
IsAttached none none s = is_idle s ≡ true
IsAttached none (some p) s = ⊥
IsAttached (some h) none s = ⊥
IsAttached (some h) (some p) s = Unit

unfoldable pub IsSound : TcpConn → Type 0
IsSound t = IsBuffered t.tx_buf t.tx_buf_len × IsAttached t.conn t.tcp t.state

-- What an operation leaves is sound.
abbrev pub Leaves : TcpConn × List Effect → Type 0
Leaves r = IsSound r.0

pub any_peer :
    (c : Option ℕ) (p p' : Peer) (s s' : TcpState)
    → IsAttached c (some p) s
    → IsAttached c (some p') s'
unfolding IsAttached
any_peer none p p' s s' a = a
any_peer (some h) p p' s s' a = tt

pub put_at-length :
    (buf : Bytes) (i c : ℕ)
    → i < 256
    → i ≤ length buf
    → length buf ≤ 256
    → ((i + 1) % 2 ^ 8 ≤ length (put_at buf i c)) × (length (put_at buf i c) ≤ 256)
put_at-length buf i c lt le m =
    if_lem (λ b. ((i + 1) % 2 ^ 8 ≤ length b) × (length b ≤ 256)) (i == length buf)
      (buf ++ (c ∷ [])) (set buf i c) (λ e. ground (arith, e, lt, le, length-append buf (c ∷ [])))
      (λ e. ground (arith, e, lt, le, m, length-set buf i c))

append_char-IsSound :
    (t : TcpConn) (buf : Bytes) (c : ℕ)
    → IsBuffered (some buf) t.tx_buf_len
    → IsAttached t.conn t.tcp t.state
    → IsSound (append_char t buf c)
unfolding append_char IsSound IsBuffered
append_char-IsSound t buf c b a =
    let w = put_at-length buf t.tx_buf_len c b.0 b.1 b.2 in ((omega arith, w.0, w.1), a)

start_buf-IsSound :
    (m : Bool) (t : TcpConn) (c : ℕ) → IsAttached t.conn t.tcp t.state → IsSound (start_buf m t c)
unfolding start_buf IsSound IsBuffered
start_buf-IsSound m t c a =
    if_lem IsSound m _ _
      (λ e.
        append_char-IsSound (record t { tx_buf_len = 0 }) [] c
          (omega arith, omega arith, omega arith) a)
      (λ e. (refl, a))

pub tcp_do_send-IsSound : (err : ℕ) (t : TcpConn) → IsSound t → IsSound (tcp_do_send err t).0
unfolding tcp_do_send IsSound IsBuffered
tcp_do_send-IsSound err t s = if_lem IsSound (err == espconn_ok) _ _ (λ e. (refl, s.1)) (λ e. s)

pub sent_cb-IsSound : (err : ℕ) (t : TcpConn) → IsSound t → IsSound (sent_cb err t).0
unfolding sent_cb IsSound
sent_cb-IsSound err t s =
    let t1 = record t { tx_buf_sent = none } in
    if_lem Leaves (not (is_null t.tx_buf) && t.tx_buf_len == max_txbuf) _ _
      (λ e. tcp_do_send-IsSound err t1 s) (λ e. s)

pub connected_cb-IsSound :
    (chan err : ℕ) (t : TcpConn) (h : ℕ)
    → t.conn ≡ some h
    → IsSound t
    → IsSound (connected_cb chan err t).0
unfolding connected_cb IsSound IsAttached
connected_cb-IsSound chan err t h e s =
    let t1 = record t { state = connected } in
    let s1 : IsSound t1 = (s.0, live t.conn t.tcp t.state e s.1) in
    if_lem Leaves (has_text t1) _ _ (λ e. tcp_do_send-IsSound err t1 s1) (λ e. s1)
  where
    live :
        (c : Option ℕ) (p : Option Peer) (st : TcpState)
        → c ≡ some h
        → IsAttached c p st
        → IsAttached c p connected
    live none none st e a = cc
    live none (some p) st e a = elim a [ ]
    live (some k) none st e a = elim a [ ]
    live (some k) (some p) st e a = tt

dial-IsSound :
    (status : ℕ) (a : Bytes) (t : TcpConn) (o : Option Peer)
    → t.tcp ≡ o
    → IsSound t
    → IsSound (dial status a t o).0
unfolding dial IsSound IsBuffered IsAttached
dial-IsSound status a t none e s = s
dial-IsSound status a t (some p) e s =
    if_lem IsSound (status == espconn_ok) _ _
      (λ ok. (
        s.0,
        any_peer t.conn p (record p { remote_ip = a }) t.state connecting
            (subst (λ o. IsAttached t.conn o t.state) e s.1),
      ))
      (λ bad. (refl, refl))

pub hostname_cb-IsSound :
    (status : ℕ) (ip : Option Bytes) (t : TcpConn) → IsSound t → IsSound (hostname_cb status ip t).0
unfolding hostname_cb IsSound IsBuffered IsAttached
hostname_cb-IsSound status none t s = (refl, refl)
hostname_cb-IsSound status (some a) t s = dial-IsSound status a t t.tcp refl s

send_full-IsSound :
    (m : Bool) (err : ℕ) (t : TcpConn) (c : ℕ) → IsSound t → IsSound (send_full m err t c).0
unfolding send_full IsSound
send_full-IsSound m err t c s =
    if_lem Leaves (not (is_null t.tx_buf_sent)) _ _ (λ e. s)
      (λ e.
        if_lem Leaves (not (is_null r.0.tx_buf)) _ _ (λ e. r_sound)
          (λ e. start_buf-IsSound m r.0 c r_sound.1))
  where
    r : TcpConn × List Effect
    r = if is_connected t.state then tcp_do_send err t else (t, [])

    r_sound : IsSound r.0
    r_sound = if_lem Leaves (is_connected t.state) _ _ (λ e. tcp_do_send-IsSound err t s) (λ e. s)

store_char-IsSound :
    (m : Bool) (err : ℕ) (t : TcpConn) (c : ℕ) (o : Option Bytes)
    → t.tx_buf ≡ o
    → IsSound t
    → IsSound (store_char m err t c o).0
unfolding store_char IsSound
store_char-IsSound m err t c none e s = start_buf-IsSound m t c s.1
store_char-IsSound m err t c (some buf) e s =
    if_lem Leaves (ltb t.tx_buf_len max_txbuf) _ _
      (λ room. append_char-IsSound t buf c (subst (λ o. IsBuffered o t.tx_buf_len) e s.0) s.1)
      (λ full. send_full-IsSound m err t c s)

pub send_char-IsSound :
    (m : Bool) (err : ℕ) (t : TcpConn) (c : ℕ) → IsSound t → IsSound (send_char m err t c).0
unfolding send_char
send_char-IsSound m err t c s =
    if_lem Leaves (is_idle t.state) _ _ (λ e. s) (λ e. store_char-IsSound m err t c t.tx_buf refl s)

pub send_push-IsSound : (err : ℕ) (t : TcpConn) → IsSound t → IsSound (send_push err t).0
unfolding send_push
send_push-IsSound err t s =
    if_lem Leaves (not (is_connected t.state)) _ _ (λ e. s)
      (λ e.
        if_lem Leaves (is_null t.tx_buf || t.tx_buf_len == 0) _ _ (λ e. s)
          (λ e.
            if_lem Leaves (not (is_null t.tx_buf_sent)) _ _ (λ e. s)
              (λ e. tcp_do_send-IsSound err t s)))
