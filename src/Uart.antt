-- ===== src/Uart.antt =====
-- The receiver of serial/uart.c with the buffers of user/ems.c: the interrupt handler collects a telegram
-- up to a break, and the task hands it on. What the handler reads from the UART, the clock and
-- `realtime_stamp` are parameters of each interrupt.
pub mod Framing
pub mod Registers
use ems_esp_link.Prelude.{
  ℕ, ◌+◌, ◌-◌, ◌%◌, ◌^◌, Bool, true, false, not, Option, none, some, List, [], ◌∷◌, ◌++◌, ltb, ◌==◌,
  if◌then◌else◌, length, take, drop,
}
use ems_esp_link.Prelude.Fill.{put_at}
use ems_esp_link.Prelude.Text.{Bytes, c_string}
use ems_esp_link.SerBridge.Telegram.{EmsRxBuf, int_mod}

-- `uart0_tx_buffer` and `uart0_sendStr`: the characters in the order in which they go to the FIFO. The
-- length is a `uint16`.
unfoldable pub tx_buffer : Bytes → ℕ → Bytes
tx_buffer buf len = take (len % 2 ^ 16) buf

unfoldable pub send_str : Bytes → Bytes
send_str str = c_string str

-- EMS_MAXBUFFERS, MAX_CB, and sizeof(_EMSRxBuf) - EMS_MAXBUFFERSIZE
abbrev pub ems_max_buffers : ℕ
ems_max_buffers = 4

abbrev pub max_cb : ℕ
max_cb = 4

abbrev pub header_size : ℕ
header_size = 10

-- The statics of the interrupt handler, the globals of user/ems.c and the list of callbacks. Of
-- `uart_buffer` the list is what has been written so far; a pointer to a receive buffer is its place in
-- `paEMSRxBuf`.
pub record Uart : Type 0 where
  pub len : ℕ
  pub sys_time_stamp : ℕ
  pub sntp_time_stamp : ℕ
  pub uart_buffer : Bytes
  pub ems_init_done : Bool
  pub ems_bus_busy : Bool
  pub ems_rx_buf_idx : ℕ
  pub ems_rx_buf : ℕ
  pub pa_ems_rx_buf : ℕ → EmsRxBuf
  pub uart_recv_cb : List (Option ℕ)

-- An interrupt: whether one of its three causes is set, the characters in the FIFO, whether a break is
-- set behind them, the clock and `realtime_stamp`.
pub record Irq : Type 0 where
  pub pending : Bool
  pub fifo : Bytes
  pub brk : Bool
  pub wdev_now : ℕ
  pub realtime_stamp : ℕ

-- The loop that empties the FIFO; `length` is a `uint16_t`.
unfoldable pub drain : Bytes → ℕ → Bytes → Bytes × ℕ
drain buf i [] = (buf, i)
drain buf i (c ∷ cs) = drain (put_at buf i c) ((i + 1) % 2 ^ 16) cs

-- The start of a telegram takes the time.
unfoldable pub begin_rx : Irq → Uart → Uart
begin_rx q u = if u.ems_bus_busy then u else record u {
  ems_bus_busy = true;
  len = 0;
  sys_time_stamp = q.wdev_now;
  sntp_time_stamp = q.realtime_stamp;
}

unfoldable pub take_fifo : Irq → Uart → Uart
take_fifo q u =
    let (buf, n) = drain u.uart_buffer u.len q.fifo in
    if q.pending then record u { uart_buffer = buf; len = n } else u

-- A `uint16_t` that is stored in an `int16_t`, as an `int` pattern.
abbrev pub to_int16 : ℕ → ℕ
to_int16 n = if ltb n (2 ^ 15) then n else n + 2 ^ 32 - 2 ^ 16

-- The trailer, and the copy into the receive buffer.
unfoldable pub end_rx : Uart → Uart
end_rx u =
    let (buf, n) = drain u.uart_buffer u.len (0xe5 ∷ 0x1a ∷ []) in
    let old = u.pa_ems_rx_buf u.ems_rx_buf in
    let new : EmsRxBuf = record {
      sntp_time_stamp = u.sntp_time_stamp;
      sys_time_stamp = u.sys_time_stamp;
      write_ptr = to_int16 n;
      buffer = take n buf ++ drop n old.buffer;
    } in
    record u {
      uart_buffer = buf;
      len = n;
      ems_bus_busy = false;
      pa_ems_rx_buf = λ k. if k == u.ems_rx_buf then new else u.pa_ems_rx_buf k;
    }

-- `uart0_rx_intr_handler`: the state, and whether the task is posted.
unfoldable pub rx_intr_handler : Irq → Uart → Uart × Bool
rx_intr_handler q u =
    let u2 = take_fifo q (begin_rx q u) in
    if not u.ems_init_done then (u, false) else if q.brk then (end_rx u2, true) else (u2, false)

-- The calls of the callbacks, each with the buffer and the length of what is in it.
unfoldable pub hand_on : List (Option ℕ) → EmsRxBuf → List (ℕ × EmsRxBuf × ℕ)
hand_on [] p = []
hand_on (none ∷ cbs) p = hand_on cbs p
hand_on (some cb ∷ cbs) p = (cb, p, (p.write_ptr + header_size) % 2 ^ 32) ∷ hand_on cbs p

-- `uart_recvTask`
unfoldable pub recv_task : Uart → Uart × List (ℕ × EmsRxBuf × ℕ)
recv_task u =
    let idx = (u.ems_rx_buf_idx + 1) % 2 ^ 32 in
    (
      record u { ems_rx_buf_idx = idx; ems_rx_buf = int_mod idx ems_max_buffers },
      hand_on u.uart_recv_cb (u.pa_ems_rx_buf u.ems_rx_buf),
    )

-- `uart_add_recv_cb`
unfoldable pub add_recv_cb : ℕ → List (Option ℕ) → List (Option ℕ)
add_recv_cb cb [] = []
add_recv_cb cb (none ∷ cbs) = some cb ∷ cbs
add_recv_cb cb (some k ∷ cbs) = some k ∷ add_recv_cb cb cbs

-- `emsInit`, with what os_malloc gives for the buffers.
unfoldable pub ems_init : (ℕ → EmsRxBuf) → Uart → Uart
ems_init bufs u = record u { ems_bus_busy = false; pa_ems_rx_buf = bufs; ems_rx_buf = 0 }

-- `emsSNTPReInit`: the calls of the time service, for a name of a server and a time zone.
pub data SntpCall : Type 0 where
  stop init : SntpCall
  set_server_name : Bytes → SntpCall
  set_timezone : ℕ → SntpCall

unfoldable pub ems_sntp_re_init : Bytes → ℕ → List SntpCall
ems_sntp_re_init [] zone = stop ∷ []
ems_sntp_re_init (c ∷ name) zone = stop ∷ set_server_name (c ∷ name) ∷ set_timezone zone ∷ init ∷ []
