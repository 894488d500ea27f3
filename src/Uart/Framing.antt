-- ===== src/Uart/Framing.antt =====
-- How serial/uart.c frames telegrams.
use ems_esp_link.Prelude.{
  ℕ, suc, ◌+◌, ◌%◌, ◌^◌, ◌<◌, ◌≤◌, ◌≡◌, refl, sym, ◌∙◌, Bool, true, false, not, Option, List, [],
  ◌∷◌, ◌++◌, ◌==◌, if◌then◌else◌, if_lem, arith, length, take, drop, All, ap, subst, length-append,
  append-nil, append_assoc,
}
use ems_esp_link.Prelude.Fill.{put_at, fill, take-fill, fill_covers}
use ems_esp_link.Prelude.Text.{Bytes}
use ems_esp_link.SerBridge.Telegram.{EmsRxBuf}
use ems_esp_link.Uart.{
  Uart, Irq, drain, begin_rx, take_fifo, end_rx, to_int16, rx_intr_handler, hand_on, recv_task,
}

drain-fill :
    (buf : Bytes) (i : ℕ) (cs : Bytes)
    → i + length cs < 2 ^ 16
    → drain buf i cs ≡ (fill buf i cs, i + length cs)
unfolding drain
drain-fill buf i [] lt = ap (λ n. (buf, n)) (omega arith)
drain-fill buf i (c ∷ cs) lt =
    let z : (i + 1) % 2 ^ 16 ≡ suc i = omega arith in
    ap (λ n. drain (put_at buf i c) n cs) z
    ∙ drain-fill (put_at buf i c) (suc i) cs (omega arith)
    ∙ ap (λ n. (fill (put_at buf i c) (suc i) cs, n)) (omega arith)

-- Interrupts in a row.
unfoldable pub interrupts : Uart → List Irq → Uart
interrupts u [] = u
interrupts u (q ∷ qs) = interrupts (rx_intr_handler q u).0 qs

-- The characters of interrupts in a row.
abbrev pub received : List Irq → Bytes
received [] = []
received (q ∷ qs) = q.fifo ++ received qs

abbrev pub first_of : List Irq → Irq → Irq
first_of [] z = z
first_of (q ∷ qs) z = q

-- An interrupt that brings characters, and no break.
abbrev pub IsData : Irq → Type 0
IsData q = (q.pending ≡ true) × (q.brk ≡ false)

-- The receiver `v` is in a telegram that began at `f` on `u`, and has `acc`.
record Collects (u : Uart) (f : Irq) (acc : Bytes) (v : Uart) : Type 0 where
  len : v.len ≡ length acc
  text : take (length acc) v.uart_buffer ≡ acc
  covered : length acc ≤ length v.uart_buffer
  started : v.ems_init_done ≡ true
  busy : v.ems_bus_busy ≡ true
  sys : v.sys_time_stamp ≡ f.wdev_now
  sntp : v.sntp_time_stamp ≡ f.realtime_stamp
  place : v.ems_rx_buf ≡ u.ems_rx_buf
  bufs : v.pa_ems_rx_buf ≡ u.pa_ems_rx_buf
  cbs : v.uart_recv_cb ≡ u.uart_recv_cb

begin-Collects :
    (u : Uart) (q : Irq)
    → u.ems_init_done ≡ true
    → u.ems_bus_busy ≡ false
    → Collects u q [] (begin_rx q u)
unfolding begin_rx
begin-Collects u q i b =
    if_lem (Collects u q []) u.ems_bus_busy _ _ (λ e. cc (e, b))
      (λ e. record {
        len = refl;
        text = refl;
        covered = omega arith;
        started = i;
        busy = refl;
        sys = refl;
        sntp = refl;
        place = refl;
        bufs = refl;
        cbs = refl;
      })

busy-Collects :
    (u : Uart) (f q : Irq) (acc : Bytes) (v : Uart)
    → Collects u f acc v
    → Collects u f acc (begin_rx q v)
unfolding begin_rx
busy-Collects u f q acc v k =
    if_lem (Collects u f acc) v.ems_bus_busy _ _ (λ e. k) (λ e. cc (e, k.busy))

take_fifo-Collects :
    (u : Uart) (f q : Irq) (acc : Bytes) (v : Uart)
    → q.pending ≡ true
    → length acc + length q.fifo < 2 ^ 16
    → Collects u f acc v
    → Collects u f (acc ++ q.fifo) (take_fifo q v)
unfolding take_fifo
take_fifo-Collects u f q acc v p lt k =
    let d : drain v.uart_buffer v.len q.fifo
        ≡ (fill v.uart_buffer (length acc) q.fifo, length acc + length q.fifo) =
      ap (λ n. drain v.uart_buffer n q.fifo) k.len
      ∙ drain-fill v.uart_buffer (length acc) q.fifo lt in
    let n : length (acc ++ q.fifo) ≡ length acc + length q.fifo = length-append acc q.fifo in
    rw (p, d)
      (record {
        len = sym n;
        text =
            take-fill v.uart_buffer (length acc) q.fifo (length (acc ++ q.fifo)) k.covered n
            ∙ ap (λ r. r ++ q.fifo) k.text;
        covered = omega (arith, n, fill_covers v.uart_buffer (length acc) q.fifo k.covered);
        started = k.started;
        busy = k.busy;
        sys = k.sys;
        sntp = k.sntp;
        place = k.place;
        bufs = k.bufs;
        cbs = k.cbs;
      })

rx_intr_handler_lem :
    (q : Irq) (v : Uart)
    → v.ems_init_done ≡ true
    → rx_intr_handler q v ≡ (
        if q.brk
        then (end_rx (take_fifo q (begin_rx q v)), true)
        else (take_fifo q (begin_rx q v), false))
unfolding rx_intr_handler
rx_intr_handler_lem q v i =
    if_lem
      (λ r. r ≡ (
        if q.brk
        then (end_rx (take_fifo q (begin_rx q v)), true)
        else (take_fifo q (begin_rx q v), false)))
      (not v.ems_init_done) _ _ (λ e. cc (e, i)) (λ e. refl)

data_step :
    (u : Uart) (f q : Irq) (acc : Bytes) (v : Uart)
    → v.ems_init_done ≡ true
    → IsData q
    → length acc + length q.fifo < 2 ^ 16
    → Collects u f acc (begin_rx q v)
    → Collects u f (acc ++ q.fifo) (rx_intr_handler q v).0
unfolding begin_rx take_fifo
data_step u f q acc v i d lt k =
    rw (rx_intr_handler_lem q v i, d.1) (take_fifo-Collects u f q acc (begin_rx q v) d.0 lt k)

collects :
    (u : Uart) (f : Irq) (qs : List Irq) (acc : Bytes) (v : Uart)
    → All IsData qs
    → length acc + length (received qs) < 2 ^ 16
    → Collects u f acc v
    → Collects u f (acc ++ received qs) (interrupts v qs)
unfolding interrupts
collects u f [] acc v d lt k = rw (append-nil acc) k
collects u f (q ∷ qs) acc v d lt k =
    let n : length (q.fifo ++ received qs) ≡ length q.fifo + length (received qs) =
      length-append q.fifo (received qs) in
    let k' =
      data_step u f q acc v k.started d.0 (omega (arith, n, lt)) (busy-Collects u f q acc v k) in
    subst (λ r. Collects u f r (interrupts (rx_intr_handler q v).0 qs))
      (append_assoc acc q.fifo (received qs))
      (collects u f qs (acc ++ q.fifo) (rx_intr_handler q v).0 d.1
        (omega (arith, n, lt, length-append acc q.fifo)) k')

abbrev buf_of : ℕ → ℕ → ℕ → Bytes → EmsRxBuf
buf_of sntp sys n bytes = record {
  sntp_time_stamp = sntp;
  sys_time_stamp = sys;
  write_ptr = n;
  buffer = bytes;
}

-- The receive buffer after the telegram `text`, over the bytes that stood in it.
abbrev pub framed : Irq → Bytes → Bytes → EmsRxBuf
framed f text old =
    buf_of f.realtime_stamp f.wdev_now (length text + 2)
      ((text ++ (0xe5 ∷ 0x1a ∷ [])) ++ drop (length text + 2) old)

hand_on_lem :
    (cbs cbs' : List (Option ℕ)) (b : Bool) (x x' y y' n n' : ℕ) (s s' t t' : Bytes) (o : EmsRxBuf)
    → b ≡ true
    → cbs ≡ cbs'
    → x ≡ x'
    → y ≡ y'
    → n ≡ n'
    → s ≡ s'
    → t ≡ t'
    → hand_on cbs (if b then buf_of x y n (s ++ t) else o)
      ≡ hand_on cbs' (buf_of x' y' n' (s' ++ t'))
hand_on_lem cbs cbs' true x x' y y' n n' s s' t t' o b c p q r u v = cc
hand_on_lem cbs cbs' false x x' y y' n n' s s' t t' o b c p q r u v = cc

end_rx-framed :
    (u : Uart) (f : Irq) (acc : Bytes) (w : Uart)
    → length acc ≤ 126
    → Collects u f acc w
    → (recv_task (end_rx w)).1
      ≡ hand_on u.uart_recv_cb (framed f acc (u.pa_ems_rx_buf u.ems_rx_buf).buffer)
unfolding recv_task end_rx
end_rx-framed u f acc w le k =
    let trailer : Bytes = 0xe5 ∷ 0x1a ∷ [] in
    let d : drain w.uart_buffer w.len trailer
        ≡ (fill w.uart_buffer (length acc) trailer, length acc + 2) =
      ap (λ n. drain w.uart_buffer n trailer) k.len
      ∙ drain-fill w.uart_buffer (length acc) trailer (omega arith) in
    let old : w.pa_ems_rx_buf w.ems_rx_buf ≡ u.pa_ems_rx_buf u.ems_rx_buf = cc (k.bufs, k.place) in
    rw d (
      hand_on_lem w.uart_recv_cb u.uart_recv_cb (w.ems_rx_buf == w.ems_rx_buf) w.sntp_time_stamp
        f.realtime_stamp w.sys_time_stamp f.wdev_now (to_int16 (length acc + 2)) (length acc + 2)
        (take (length acc + 2) (fill w.uart_buffer (length acc) trailer)) (acc ++ trailer)
        (drop (length acc + 2) (w.pa_ems_rx_buf w.ems_rx_buf).buffer)
        (drop (length acc + 2) (u.pa_ems_rx_buf u.ems_rx_buf).buffer) (w.pa_ems_rx_buf w.ems_rx_buf)
        (ground arith) k.cbs k.sntp k.sys (ground arith)
        (take-fill w.uart_buffer (length acc) trailer (length acc + 2) k.covered refl
          ∙ ap (λ r. r ++ trailer) k.text)
        (ap {A = EmsRxBuf} (λ p. drop (length acc + 2) p.buffer) old))

last_step :
    (u : Uart) (f z : Irq) (acc : Bytes) (v : Uart)
    → v.ems_init_done ≡ true
    → z.pending ≡ true
    → z.brk ≡ true
    → length acc + length z.fifo ≤ 126
    → Collects u f acc (begin_rx z v)
    → (recv_task (rx_intr_handler z v).0).1
      ≡ hand_on u.uart_recv_cb (framed f (acc ++ z.fifo) (u.pa_ems_rx_buf u.ems_rx_buf).buffer)
unfolding begin_rx take_fifo
last_step u f z acc v i p b le k =
    rw (rx_intr_handler_lem z v i, b)
      (end_rx-framed u f (acc ++ z.fifo) (take_fifo z (begin_rx z v))
        (omega (arith, le, length-append acc z.fifo))
        (take_fifo-Collects u f z acc (begin_rx z v) p (omega arith) k))

-- Once the EMS part is initialised and no telegram is under way: when interrupts bring at most 126
-- characters in any portions and the last of them ends with a break, the task that it posts gives
-- every callback one receive buffer, which holds the time of the first interrupt, all the characters
-- in their order, the trailer of two bytes, and the count of both.
pub recv_task-rx_intr_handler :
    (u : Uart) (qs : List Irq) (z : Irq)
    → u.ems_init_done ≡ true
    → u.ems_bus_busy ≡ false
    → All IsData qs
    → z.pending ≡ true
    → z.brk ≡ true
    → length (received qs) + length z.fifo ≤ 126
    → (recv_task (rx_intr_handler z (interrupts u qs)).0).1
      ≡ hand_on u.uart_recv_cb
          (framed (first_of qs z) (received qs ++ z.fifo) (u.pa_ems_rx_buf u.ems_rx_buf).buffer)
unfolding interrupts
recv_task-rx_intr_handler u [] z i e d p b le =
    last_step u z z [] u i p b (omega arith) (begin-Collects u z i e)
recv_task-rx_intr_handler u (q ∷ qs) z i e d p b le =
    let n : length (q.fifo ++ received qs) ≡ length q.fifo + length (received qs) =
      length-append q.fifo (received qs) in
    let k = data_step u q q [] u i d.0 (omega arith) (begin-Collects u q i e) in
    let v : Uart = interrupts (rx_intr_handler q u).0 qs in
    let k' : Collects u q (q.fifo ++ received qs) v =
      collects u q qs q.fifo (rx_intr_handler q u).0 d.1 (omega arith) k in
    last_step u q z (q.fifo ++ received qs) v k'.started p b le
      (busy-Collects u q z (q.fifo ++ received qs) v k')
