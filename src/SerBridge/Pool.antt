-- ===== src/SerBridge/Pool.antt =====
-- The connection pool of serial/serbridge.c and its callbacks.
pub mod Linked
pub mod Accept
use ems_esp_link.Prelude.{
  ℕ, zero, suc, ◌+◌, Bool, true, false, ◌&&◌, Option, none, some, List, [], ◌∷◌, ◌++◌, ltb, leb,
  ◌==◌, if◌then◌else◌, length, get_or, set,
}
use ems_esp_link.Prelude.Text.{Bytes, starts_with}
use ems_esp_link.SerBridge.Effect.{Effect, pin, disconnect, led, uart_all}
use ems_esp_link.SerBridge.Slot.{
  ConnMode, init, transparent, avr, arm, echo, telnet, tcp_client, ConnData, espbuffsend, sent_cb,
}
use ems_esp_link.SerBridge.Telnet.{
  State, normal, Pins, telnet_unwrap, iac_char, will_char, com_port_opt,
}

-- MAX_CONN
abbrev pub max_conn : ℕ
max_conn = 4

-- `connData`, of MAX_CONN entries, and the `reverse` pointer of each `espconn`: an index into it.
pub record Bridge : Type 0 where
  pub conn_data : List ConnData
  pub reverse : ℕ → Option ℕ

-- An entry as it is at power-up; it stands for what lies outside the pool.
abbrev pub vacant : ConnData
vacant = record {
  conn = none;
  conn_mode = init;
  txbuffer = [];
  readytosend = false;
  telnet_state = normal;
}

abbrev pub entry : Bridge → ℕ → ConnData
entry b i = get_or b.conn_data i vacant

abbrev pub put_entry : Bridge → ℕ → ConnData → Bridge
put_entry b i s = record b { conn_data = set b.conn_data i s }

-- `serbridgeFindConnData`; `none` is a NULL argument, or a `reverse` that is NULL.
unfoldable pub find_conn_data : Bridge → Option ℕ → Option ℕ
find_conn_data b none = none
find_conn_data b (some h) = b.reverse h

-- The mode after the first packet of a connection.
unfoldable pub first_mode : Bytes → ConnMode
first_mode text =
    if leb 3 (length text) && starts_with text (iac_char ∷ will_char ∷ com_port_opt ∷ [])
    then telnet
    else transparent

-- The dispatch of `serbridgeRecvCb` on a connection that is still in `cmInit`.
unfoldable pub dispatch : ConnData → Bytes → ConnData
unfolding first_mode
dispatch s text = elim s.conn_mode [
  | init ↦ elim (first_mode text) [
    | telnet ↦ record s { conn_mode = telnet; telnet_state = normal }
    | other ↦ record s { conn_mode = other }
  ]
  | _ ↦ s
]

-- The end of `serbridgeRecvCb`: the data goes to the UART, unwrapped on a telnet connection.
unfoldable pub deliver : Pins → ConnData → Bytes → ConnData × List Effect
deliver pins s text =
    let (state, done) = telnet_unwrap pins text s.telnet_state in
    elim s.conn_mode [ telnet ↦ (record s { telnet_state = state }, done) | _ ↦ (s, uart_all text) ]

-- `serbridgeRecvCb`
unfoldable pub recv_cb : Pins → Bridge → Option ℕ → Bytes → Bridge × List Effect
unfolding dispatch deliver
recv_cb pins b arg text = elim (find_conn_data b arg) [
  | none ↦ (b, [])
  | some i ↦
      let (s, done) = deliver pins (dispatch (entry b i) text) text in
      (put_entry b i s, done ++ (led 50 ∷ []))
]

-- `serbridgeSentCb`
unfoldable pub bridge_sent_cb : ℕ → Bridge → Option ℕ → Bridge × List Effect
bridge_sent_cb status b arg = elim (find_conn_data b arg) [
  | none ↦ (b, [])
  | some i ↦ let (s, done) = sent_cb status (entry b i) in (put_entry b i s, done)
]

-- The test of `serbridgeUartCb` for a connection that is to get the data.
unfoldable pub gets_data : ConnData → Bool
gets_data s = elim s.conn [
  | none ↦ false
  | some _ ↦ elim s.conn_mode [ tcp_client ↦ false | _ ↦ true ]
]

-- The end of `serbridgeUartCb`: the data goes to each open connection. `status` is what
-- `espconn_sent` returns.
unfoldable pub push_each : ℕ → List ConnData → Bytes → List ConnData × List Effect
unfolding gets_data
push_each status [] text = ([], [])
push_each status (s ∷ ss) text =
    let (_, s', done) = espbuffsend status s text in
    let (ss', more) = push_each status ss text in
    if gets_data s then (s' ∷ ss', done ++ more) else (s ∷ ss', more)

unfoldable pub push : ℕ → Bridge → Bytes → Bridge × List Effect
unfolding push_each
push status b text =
    let (ss, done) = push_each status b.conn_data text in
    if ltb 0 (length text) then (record b { conn_data = ss }, done) else (b, [])

abbrev close : Option ℕ → List Effect
close none = []
close (some h) = disconnect h ∷ []

-- `serbridgeReconCb`
unfoldable pub recon_cb : Bridge → Option ℕ → Bridge × List Effect
recon_cb b arg = elim (find_conn_data b arg) [
  | none ↦ (b, [])
  | some i ↦ let s = entry b i in (put_entry b i (record s { conn = none }), close s.conn)
]

-- The reset pulse that a closed programming connection gives.
unfoldable pub reset_pulse : Pins → ConnMode → List Effect
reset_pulse pins mode = elim mode [
  | avr ↦ elim pins.mcu_reset [ none ↦ [] | some p ↦ pin p false ∷ pin p true ∷ [] ]
  | _ ↦ []
]

-- `serbridgeDisconCb`
unfoldable pub discon_cb : Pins → Bridge → Option ℕ → Bridge × List Effect
discon_cb pins b arg = elim (find_conn_data b arg) [
  | none ↦ (b, [])
  | some i ↦
      let s = entry b i in (put_entry b i (record s { conn = none }), reset_pulse pins s.conn_mode)
]

-- The search for an empty entry: its index, or MAX_CONN.
unfoldable pub free_entry : List ConnData → ℕ
free_entry [] = 0
free_entry (s ∷ ss) = elim s.conn [ none ↦ 0 | some _ ↦ suc (free_entry ss) ]

-- An entry as `serbridgeConnectCb` sets it.
abbrev pub opened : ℕ → ConnData
opened h = record {
  conn = some h;
  conn_mode = init;
  txbuffer = [];
  readytosend = true;
  telnet_state = normal;
}

-- `serbridgeConnectCb`; the argument is the new `espconn`. The pool has MAX_CONN entries.
unfoldable pub connect_cb : Bridge → ℕ → Bridge × List Effect
unfolding free_entry
connect_cb b h =
    let i = free_entry b.conn_data in
    if i == length b.conn_data then (b, disconnect h ∷ []) else (
      record {
        conn_data = set b.conn_data i (opened h);
        reverse = λ k. if k == h then some i else b.reverse k;
      },
      [],
    )

-- The loop of `serbridgeInit`, which also gives each entry its own transmit buffer.
unfoldable pub clear_each : List ConnData → List ConnData
clear_each [] = []
clear_each (s ∷ ss) = record s { conn = none } ∷ clear_each ss
