-- ===== src/Console.antt =====
-- The microcontroller console, serial/console.c: the last characters for a web page.
pub mod Answers
use ems_esp_link.Prelude.{
  ℕ, ◌+◌, ◌/◌, ◌≤◌, Bool, true, false, not, ◌&&◌, Option, none, some, List, [], ◌∷◌, ◌++◌, ltb,
  ◌==◌, if◌then◌else◌, length,
}
use ems_esp_link.Prelude.Text.{Bytes, codes, atoi, decimal}
use ems_esp_link.Prelude.Words.{slt}
use ems_esp_link.CharRing
use ems_esp_link.CharRing.{CharRing}
use ems_esp_link.CharRing.Reader.{escape_control, is_quoted, ajax}
use ems_esp_link.Config.{FlashConfig, Spi, config_save}
use ems_esp_link.Httpd.Args.{Found, no_line, value, missing, find_arg}
use ems_esp_link.Httpd.Conn.{Conn, Code, done, Method, get}
use ems_esp_link.Httpd.Send.{send, json_header}

-- BUF_MAX
abbrev pub buf_max : ℕ
buf_max = 1024

abbrev pub console_write : CharRing → ℕ → CharRing
console_write = CharRing.write buf_max

-- `console_write_char`
abbrev pub console_write_char : CharRing → ℕ → CharRing
console_write_char r c = console_write r c

-- `console_write_str`
abbrev pub console_write_str : CharRing → Bytes → CharRing
console_write_str = CharRing.write_str buf_max

-- `consoleInit`
unfoldable pub console_init : CharRing → CharRing
console_init r = record r { wr = 0; rd = 0 }

-- `ajaxConsoleReset`
unfoldable pub ajax_console_reset : CharRing → Conn → Code × Conn × CharRing
ajax_console_reset r c = elim c.conn [
  | none ↦ (done, c, r)
  | some _ ↦ (done, json_header c 200, record r { wr = 0; rd = 0; pos = 0 })
]

-- The characters of the answer: a carriage return is left out.
unfoldable pub escape : ℕ → Bytes
unfolding escape_control
escape c =
    if is_quoted c
    then b'\\' ∷ c ∷ []
    else if c == 13
    then []
    else if ltb c b' '
    then escape_control c
    else c ∷ []

-- `ajaxConsole`
unfoldable pub ajax_console : CharRing → Conn → Code × Conn
ajax_console = ajax buf_max escape

-- UART_CLK_FREQ, and what is left by `ajaxConsoleBaud`: `divider` is what `uart0_baud` hands to
-- `uart_div_modify`, if it is called.
module _ {F : Type 0} (spi : Spi F) (chksum : FlashConfig → ℕ)
    (firmware_size uart_clk_freq : ℕ) where
  pub record BaudStep : Type 0 where
    pub status : ℕ
    pub cfg : FlashConfig
    pub flash : F
    pub divider : Option ℕ

  -- The rates that are accepted: 9600 to 1000000, as `int`s.
  unfoldable pub is_rate : ℕ → Bool
  is_rate rate = not (slt rate 9600) && not (slt 1000000 rate)

  unfoldable pub set_rate : ℕ → FlashConfig → F → BaudStep
  unfolding is_rate
  set_rate rate cfg f =
      let cfg' = record cfg { baud_rate = rate } in
      let saved = config_save spi chksum firmware_size cfg' f in
      if is_rate rate
      then record {
        status = if saved.0 then 200 else 400;
        cfg = cfg';
        flash = saved.1;
        divider = some (uart_clk_freq / rate);
      }
      else record { status = 400; cfg = cfg; flash = f; divider = none }

  abbrev without_rate : Method → FlashConfig → F → BaudStep
  without_rate get cfg f = record { status = 200; cfg = cfg; flash = f; divider = none }
  without_rate _ cfg f = record { status = 400; cfg = cfg; flash = f; divider = none }

  unfoldable pub baud_step : Found → Method → FlashConfig → F → BaudStep
  unfolding set_rate
  baud_step (value v) m cfg f =
      if ltb 0 (length v.ret) then set_rate (atoi v.ret) cfg f else without_rate m cfg f
  baud_step _ m cfg f = without_rate m cfg f

  -- `ajaxConsoleBaud`. The buffer for the argument has 512 bytes.
  unfoldable pub ajax_console_baud :
      FlashConfig → F → Conn → Code × Conn × FlashConfig × F × Option ℕ
  ajax_console_baud cfg f c =
      let s = baud_step (find_arg (codes "rate") 512 c.get_args) c.request_type cfg f in
      elim c.conn [
        | none ↦ (done, c, cfg, f, none)
        | some _ ↦ (
          done,
          (send (json_header c s.status)
              (codes "{\"rate\": " ++ (decimal s.cfg.baud_rate ++ codes "}"))).1,
          s.cfg,
          s.flash,
          s.divider,
        )
      ]
