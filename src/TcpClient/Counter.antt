-- ===== src/TcpClient/Counter.antt =====
-- How many characters serial/tcpclient.c holds back for a push: the count of them is a `uint8_t`.
use ems_esp_link.Prelude.{
  if_lem, ℕ, suc, ◌+◌, ◌%◌, ◌^◌, ◌<◌, ◌≤◌, ◌≡◌, ◌≢◌, refl, sym, ◌∙◌, inl, inr, Bool, true, false,
  not, ◌||◌, Option, none, some, List, [], ◌∷◌, ◌++◌, ltb, ◌==◌, if◌then◌else◌, arith, length, take,
  ap, subst, Bool-cases, length-append, append-nil, append_assoc,
}
use ems_esp_link.Prelude.Fill.{put_at, take-put_at}
use ems_esp_link.Prelude.Text.{Bytes}
use ems_esp_link.TcpClient.{
  TcpConn, connected, Effect, sent, max_txbuf, is_null, is_idle, is_connected, tcp_do_send,
}
use ems_esp_link.TcpClient.Serial.{append_char, start_buf, send_char, send_push, store_char}
use ems_esp_link.TcpClient.Invariant.{IsBuffered, put_at-length}

-- The characters that a push would send.
abbrev pub held : Option Bytes → ℕ → Bytes
held none n = []
held (some buf) n = take n buf

-- Characters in a row, with memory for the buffers.
unfoldable pub send_chars : ℕ → TcpConn → Bytes → TcpConn
send_chars err t [] = t
send_chars err t (c ∷ cs) = send_chars err (send_char true err t c).0 cs

-- A connection `t` with nothing on its way holds back `acc`.
record Holds (h : Option ℕ) (t : TcpConn) (acc : Bytes) : Type 0 where
  text : held t.tx_buf t.tx_buf_len ≡ acc
  count : t.tx_buf_len ≡ length acc
  buffered : IsBuffered t.tx_buf t.tx_buf_len
  state : t.state ≡ connected
  unsent : t.tx_buf_sent ≡ none
  handle : t.conn ≡ h

-- The text held after one more character: the count wraps behind the 255th.
abbrev grown : Bytes → ℕ → Bytes
grown acc c = if length acc == 255 then [] else acc ++ (c ∷ [])

put_at-grown :
    (buf acc : Bytes) (n c : ℕ)
    → take n buf ≡ acc
    → n ≡ length acc
    → n < 256
    → n ≤ length buf
    → (take ((n + 1) % 2 ^ 8) (put_at buf n c) ≡ grown acc c)
      × ((n + 1) % 2 ^ 8 ≡ length (grown acc c))
put_at-grown buf acc n c e len lt le = elim (Bool-cases (length acc == 255)) [
  | inl full ↦ let z : (n + 1) % 2 ^ 8 ≡ 0 = grind arith in rw (full, z) (refl, refl)
  | inr room ↦
      let z : (n + 1) % 2 ^ 8 ≡ suc n = grind arith in
      rw (room, z)
        (
          take-put_at buf n c le ∙ ap (λ r. r ++ (c ∷ [])) e,
          omega (arith, length-append acc (c ∷ []), len),
        )
]

append_char-Holds :
    (h : Option ℕ) (t : TcpConn) (acc : Bytes) (buf : Bytes) (c : ℕ)
    → t.tx_buf ≡ some buf
    → Holds h t acc
    → Holds h (append_char t buf c) (grown acc c)
unfolding append_char IsBuffered
append_char-Holds h t acc buf c e s =
    let b = subst (λ o. IsBuffered o t.tx_buf_len) e s.buffered in
    let tx = subst (λ o. held o t.tx_buf_len ≡ acc) e s.text in
    let w = put_at-length buf t.tx_buf_len c b.0 b.1 b.2 in
    record {
      text = (put_at-grown buf acc t.tx_buf_len c tx s.count b.0 b.1).0;
      count = (put_at-grown buf acc t.tx_buf_len c tx s.count b.0 b.1).1;
      buffered = (omega arith, w.0, w.1);
      state = s.state;
      unsent = s.unsent;
      handle = s.handle;
    }

start_buf-Holds :
    (h : Option ℕ) (t : TcpConn) (acc : Bytes) (c : ℕ)
    → t.tx_buf ≡ none
    → Holds h t acc
    → Holds h (start_buf true t c) (grown acc c)
unfolding start_buf append_char IsBuffered
start_buf-Holds h t acc c e s =
    let empty : acc ≡ [] = cc (e, s.text) in
    rw empty (record {
      text = refl;
      count = refl;
      buffered = (omega arith, omega arith, omega arith);
      state = s.state;
      unsent = s.unsent;
      handle = s.handle;
    })

store_char-Holds :
    (err : ℕ) (h : Option ℕ) (t : TcpConn) (acc : Bytes) (c : ℕ) (o : Option Bytes)
    → t.tx_buf ≡ o
    → Holds h t acc
    → Holds h (store_char true err t c o).0 (grown acc c)
unfolding store_char IsBuffered
store_char-Holds err h t acc c none e s = start_buf-Holds h t acc c e s
store_char-Holds err h t acc c (some buf) e s =
    let b = subst (λ o. IsBuffered o t.tx_buf_len) e s.buffered in
    let room : ltb t.tx_buf_len max_txbuf ≡ true = grind (arith, b.0) in
    rw room (append_char-Holds h t acc buf c e s)

send_char-Holds :
    (err : ℕ) (h : Option ℕ) (t : TcpConn) (acc : Bytes) (c : ℕ)
    → Holds h t acc
    → Holds h (send_char true err t c).0 (grown acc c)
unfolding send_char
send_char-Holds err h t acc c s =
    let live : is_idle t.state ≡ false = ap is_idle s.state in
    rw live (store_char-Holds err h t acc c t.tx_buf refl s)

send_chars-Holds :
    (err : ℕ) (h : Option ℕ) (t : TcpConn) (acc cs : Bytes)
    → length acc + length cs < 256
    → Holds h t acc
    → Holds h (send_chars err t cs) (acc ++ cs)
unfolding send_chars
send_chars-Holds err h t acc [] lt s = rw (append-nil acc) s
send_chars-Holds err h t acc (c ∷ cs) lt s =
    let room : (length acc == 255) ≡ false = ground arith in
    let g : grown acc c ≡ acc ++ (c ∷ []) = rw room refl in
    let s' : Holds h (send_char true err t c).0 (acc ++ (c ∷ [])) =
      subst (Holds h (send_char true err t c).0) g (send_char-Holds err h t acc c s) in
    subst (Holds h (send_chars err t (c ∷ cs))) (append_assoc acc (c ∷ []) cs) (
      send_chars-Holds err h (send_char true err t c).0 (acc ++ (c ∷ [])) cs
        (omega (arith, length-append acc (c ∷ []))) s')

send_chars-wraps :
    (err : ℕ) (h : Option ℕ) (t : TcpConn) (acc cs : Bytes)
    → length acc < 256
    → length acc + length cs ≡ 256
    → Holds h t acc
    → Holds h (send_chars err t cs) []
unfolding send_chars
send_chars-wraps err h t acc [] lt e s = absurd (omega arith)
send_chars-wraps err h t acc (c ∷ []) lt e s =
    let full : (length acc == 255) ≡ true = ground arith in
    let g : grown acc c ≡ [] = rw full refl in
    subst (Holds h (send_char true err t c).0) g (send_char-Holds err h t acc c s)
send_chars-wraps err h t acc (c ∷ d ∷ cs) lt e s =
    let room : (length acc == 255) ≡ false = ground arith in
    let g : grown acc c ≡ acc ++ (c ∷ []) = rw room refl in
    let s' : Holds h (send_char true err t c).0 (acc ++ (c ∷ [])) =
      subst (Holds h (send_char true err t c).0) g (send_char-Holds err h t acc c s) in
    send_chars-wraps err h (send_char true err t c).0 (acc ++ (c ∷ [])) (d ∷ cs)
      (omega (arith, length-append acc (c ∷ []))) (omega (arith, length-append acc (c ∷ []))) s'

-- A connection that is up, with no buffer and nothing on its way.
pub record IsClear (t : TcpConn) : Type 0 where
  pub state : t.state ≡ connected
  pub no_buffer : t.tx_buf ≡ none
  pub count : t.tx_buf_len ≡ 0
  pub unsent : t.tx_buf_sent ≡ none

IsClear-Holds : (t : TcpConn) → IsClear t → Holds t.conn t []
unfolding IsBuffered
IsClear-Holds t k = record {
  text = ap (λ o. held o t.tx_buf_len) k.no_buffer;
  count = k.count;
  buffered = subst (λ o. IsBuffered o t.tx_buf_len) (sym k.no_buffer) k.count;
  state = k.state;
  unsent = k.unsent;
  handle = refl;
}

tcp_do_send-held :
    (err : ℕ) (t : TcpConn) → (tcp_do_send err t).1 ≡ sent t.conn (held t.tx_buf t.tx_buf_len) ∷ []
unfolding tcp_do_send
tcp_do_send-held err t = go t.tx_buf
  where
    go :
        (o : Option Bytes)
        → sent t.conn (elim o [ none ↦ [] | some buf ↦ take t.tx_buf_len buf ]) ∷ []
          ≡ sent t.conn (held o t.tx_buf_len) ∷ []
    go none = refl
    go (some buf) = refl

filled :
    (o : Option Bytes) (n : ℕ) (acc : Bytes)
    → held o n ≡ acc
    → n ≡ length acc
    → acc ≢ []
    → (is_null o || n == 0) ≡ false
filled none n acc e len ne = absurd (ne (sym e))
filled (some buf) n [] e len ne = absurd (ne refl)
filled (some buf) n (a ∷ acc) e len ne = ground arith

push_sends :
    (err : ℕ) (h : Option ℕ) (u : TcpConn) (acc : Bytes)
    → Holds h u acc
    → acc ≢ []
    → (send_push err u).1 ≡ sent h acc ∷ []
unfolding send_push
push_sends err h u acc s ne =
    let up : is_connected u.state ≡ true = ap is_connected s.state in
    let sends : TcpConn × List Effect → Type 0 = λ r. r.1 ≡ sent h acc ∷ [] in
    if_lem sends (not (is_connected u.state)) _ _ (λ e. cc)
      (λ e.
        if_lem sends (is_null u.tx_buf || u.tx_buf_len == 0) _ _
          (λ e. cc (e, filled u.tx_buf u.tx_buf_len acc s.text s.count ne))
          (λ e.
            if_lem sends (not (is_null u.tx_buf_sent)) _ _ (λ e. cc (e, ap is_null s.unsent))
              (λ e. tcp_do_send-held err u ∙ cong_sent s.handle s.text)))
  where
    cong_sent : {g g' : Option ℕ} {x y : Bytes} → g ≡ g' → x ≡ y → sent g x ∷ [] ≡ sent g' y ∷ []
    cong_sent p q = cc

push_idles : (err : ℕ) (h : Option ℕ) (u : TcpConn) → Holds h u [] → send_push err u ≡ (u, [])
unfolding send_push
push_idles err h u s =
    let idles : TcpConn × List Effect → Type 0 = λ r. r ≡ (u, []) in
    if_lem idles (not (is_connected u.state)) _ _ (λ e. refl)
      (λ e.
        if_lem idles (is_null u.tx_buf || u.tx_buf_len == 0) _ _ (λ e. refl)
          (λ e. absurd (full (is_null u.tx_buf) (u.tx_buf_len == 0) e (ground (arith, s.count)))))
  where
    full : (a b : Bool) → (a || b) ≡ false → b ≡ true → ⊥
    full true b e f = cc
    full false b e f = cc

-- On a connection that is up, with no buffer and nothing on its way, where there is memory: from 1 to
-- 255 characters and a push send exactly those characters in their order, in one segment.
pub send_push-send_chars :
    (err err' : ℕ) (t : TcpConn) (cs : Bytes)
    → IsClear t
    → cs ≢ []
    → length cs < 256
    → (send_push err' (send_chars err t cs)).1 ≡ sent t.conn cs ∷ []
unfolding send_push
send_push-send_chars err err' t cs k n lt =
    push_sends err' t.conn (send_chars err t cs) cs
      (send_chars-Holds err t.conn t [] cs (omega arith) (IsClear-Holds t k)) n

-- On a connection that is up, with no buffer and nothing on its way, where there is memory: 256
-- characters are lost, since the count of them wraps to 0 and a push sends nothing.
pub send_push-wraps :
    (err err' : ℕ) (t : TcpConn) (cs : Bytes)
    → IsClear t
    → length cs ≡ 256
    → send_push err' (send_chars err t cs) ≡ (send_chars err t cs, [])
unfolding send_push
send_push-wraps err err' t cs k e =
    push_idles err' t.conn (send_chars err t cs)
      (send_chars-wraps err t.conn t [] cs (omega arith) (omega arith) (IsClear-Holds t k))
