-- ===== src/Tests/Bridge.antt =====
-- The serial bridge at concrete inputs.
use ems_esp_link.Prelude.{◌≡◌, refl, true, false, none, some, List, [], ◌∷◌, ◌++◌}
use ems_esp_link.SerBridge.Effect.{uart, pin}
use ems_esp_link.SerBridge.Slot.{ConnData, telnet}
use ems_esp_link.SerBridge.Slot.Pacing.{
  Event, data_in, acked, run, IsPaced, given, taken, run-IsPaced, run-given,
}
use ems_esp_link.SerBridge.Telnet.{Pins, normal, telnet_unwrap, dtr_on}
use ems_esp_link.SerBridge.Telnet.Stream.{
  Item, text, control_line, negotiation, wire, meaning, telnet_unwrap-wire, escape,
}

abbrev pins : Pins
pins = record { mcu_reset = some 12; mcu_isp = none }

abbrev session : List Item
session = negotiation 44 ∷ text (7 ∷ 255 ∷ 8 ∷ []) ∷ control_line dtr_on ∷ []

telnet_unwrap-wire_example :
    telnet_unwrap pins (wire session) normal ≡ (normal, meaning pins session)
telnet_unwrap-wire_example = telnet_unwrap-wire pins session

session_test :
    telnet_unwrap pins (wire session) normal
    ≡ (normal, uart 7 ∷ uart 255 ∷ uart 8 ∷ pin 12 false ∷ [])
unfolding telnet_unwrap escape
session_test = refl

abbrev slot : ConnData
slot = record {
  conn = some 3;
  conn_mode = telnet;
  txbuffer = [];
  readytosend = true;
  telnet_state = normal;
}

abbrev events : List Event
events = data_in (1 ∷ 2 ∷ []) 0 ∷ data_in (3 ∷ []) 0 ∷ acked 0 ∷ acked 0 ∷ []

run-IsPaced_example : IsPaced false (run slot events).1
run-IsPaced_example = run-IsPaced 3 events slot refl

run-given_example : given (run slot events).1 ++ (run slot events).0.txbuffer ≡ taken slot events
run-given_example = run-given 3 events slot refl
