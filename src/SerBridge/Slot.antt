-- ===== src/SerBridge/Slot.antt =====
-- One entry of the connection pool of serial/serbridge.c, and the buffered sending over it.
pub mod Pacing
use ems_esp_link.Prelude.{
  ℕ, ◌+◌, Bool, true, false, Option, none, some, List, [], ◌∷◌, ◌++◌, ltb, ◌==◌, if◌then◌else◌,
  length,
}
use ems_esp_link.Prelude.Text.{Bytes}
use ems_esp_link.SerBridge.Effect.{Effect, sent}
use ems_esp_link.SerBridge.Telnet.{State}

-- cmInit and so on.
pub data ConnMode : Type 0 where
  init transparent avr arm echo telnet tcp_client : ConnMode

-- `serbridgeConnData`: `txbuffer` holds `txbufferlen` bytes, and `conn` is `none` for NULL.
pub record ConnData : Type 0 where
  pub conn : Option ℕ
  pub conn_mode : ConnMode
  pub txbuffer : Bytes
  pub readytosend : Bool
  pub telnet_state : State

-- MAX_TXBUFFER
abbrev pub max_txbuffer : ℕ
max_txbuffer = 1472

-- ESPCONN_OK, and -128 as a `sint8`.
abbrev pub espconn_ok : ℕ
espconn_ok = 0

abbrev pub buffer_full : ℕ
buffer_full = 128

abbrev handed_over : Option ℕ → Bytes → List Effect
handed_over none text = []
handed_over (some h) text = sent h text ∷ []

-- `sendtxbuffer`, where `espconn_sent` returns `status`.
unfoldable pub sendtxbuffer : ℕ → ConnData → ℕ × ConnData × List Effect
sendtxbuffer status s = elim s.txbuffer [
  | [] ↦ (espconn_ok, s, [])
  | c ∷ cs ↦ (status, record s { readytosend = false; txbuffer = [] }, handed_over s.conn (c ∷ cs))
]

-- `espbuffsend`
unfoldable pub espbuffsend : ℕ → ConnData → Bytes → ℕ × ConnData × List Effect
unfolding sendtxbuffer
espbuffsend status s text =
    if ltb max_txbuffer (length s.txbuffer + length text)
    then (buffer_full, s, [])
    else if s.readytosend
    then sendtxbuffer status (record s { txbuffer = s.txbuffer ++ text })
    else (espconn_ok, record s { txbuffer = s.txbuffer ++ text }, [])

-- The body of `serbridgeSentCb` for the connection that it finds.
unfoldable pub sent_cb : ℕ → ConnData → ConnData × List Effect
unfolding sendtxbuffer
sent_cb status s =
    let (_, s', done) = sendtxbuffer status (record s { readytosend = true }) in (s', done)
