-- ===== src/SerBridge/Effect.antt =====
-- What the bridge does to the world: the calls that leave serial/serbridge.c, in order. Delays and
-- debug messages are left out.
use ems_esp_link.Prelude.{ℕ, Bool, List, map}
use ems_esp_link.Prelude.Text.{Bytes}

-- `uart0_write_char`, `GPIO_OUTPUT_SET`, `espconn_sent`, `espconn_disconnect`, `serledFlash`
pub data Effect : Type 0 where
  uart : ℕ → Effect
  pin : ℕ → Bool → Effect
  sent : ℕ → Bytes → Effect
  disconnect : ℕ → Effect
  led : ℕ → Effect

-- Characters written to the UART one after the other.
abbrev pub uart_all : Bytes → List Effect
uart_all = map uart
