-- ===== src/SerBridge/Telnet.antt =====
-- The telnet state machine, `telnetUnwrap` of serial/serbridge.c.
pub mod Stream
use ems_esp_link.Prelude.{
  ℕ, Bool, true, false, Option, none, some, List, [], ◌∷◌, ◌++◌, ◌==◌, if◌then◌else◌,
}
use ems_esp_link.Prelude.Text.{Bytes}
use ems_esp_link.SerBridge.Effect.{Effect, uart, pin}

-- IAC, WILL, SB, SE, ComPortOpt, SetControl, DTR_ON, DTR_OFF, RTS_ON, RTS_OFF
abbrev pub iac_char : ℕ
iac_char = 255

abbrev pub will_char : ℕ
will_char = 251

abbrev pub sb_char : ℕ
sb_char = 250

abbrev pub se_char : ℕ
se_char = 240

abbrev pub com_port_opt : ℕ
com_port_opt = 44

abbrev pub set_control_cmd : ℕ
set_control_cmd = 5

abbrev pub dtr_on : ℕ
dtr_on = 8

abbrev pub dtr_off : ℕ
dtr_off = 9

abbrev pub rts_on : ℕ
rts_on = 11

abbrev pub rts_off : ℕ
rts_off = 12

-- TN_normal and so on.
pub data State : Type 0 where
  normal iac will start finish com_port set_control : State

-- `mcu_reset_pin` and `mcu_isp_pin`; `none` is a negative number, no pin.
pub record Pins : Type 0 where
  pub mcu_reset : Option ℕ
  pub mcu_isp : Option ℕ

abbrev set_pin : Option ℕ → Bool → List Effect
set_pin none level = []
set_pin (some p) level = pin p level ∷ []

-- The switch of a control line.
unfoldable pub control : Pins → ℕ → List Effect
control pins c =
    if c == dtr_on
    then set_pin pins.mcu_reset false
    else if c == dtr_off
    then set_pin pins.mcu_reset true
    else if c == rts_on
    then set_pin pins.mcu_isp false
    else if c == rts_off
    then set_pin pins.mcu_isp true
    else []

-- The character behind an escape.
unfoldable pub command : ℕ → State × List Effect
command c =
    if c == iac_char
    then (normal, uart c ∷ [])
    else if c == will_char
    then (will, [])
    else if c == sb_char
    then (start, [])
    else if c == se_char
    then (normal, [])
    else (iac, uart iac_char ∷ uart c ∷ [])

-- One round of the loop.
unfoldable pub step : Pins → State → ℕ → State × List Effect
unfolding control command
step pins normal c = if c == iac_char then (iac, []) else (normal, uart c ∷ [])
step pins iac c = command c
step pins will c = (normal, [])
step pins start c = (if c == com_port_opt then com_port else finish, [])
step pins finish c = (if c == iac_char then iac else finish, [])
step pins com_port c = (if c == set_control_cmd then set_control else finish, [])
step pins set_control c = (finish, control pins c)

-- `telnetUnwrap`: the state that it returns, and what it does.
unfoldable pub telnet_unwrap : Pins → Bytes → State → State × List Effect
unfolding step
telnet_unwrap pins [] s = (s, [])
telnet_unwrap pins (c ∷ cs) s =
    let (s', done) = step pins s c in
    let (last, more) = telnet_unwrap pins cs s' in (last, done ++ more)
