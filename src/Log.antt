-- ===== src/Log.antt =====
-- The debug log, user/log.c: text on UART1 and in a buffer for a web page.
pub mod Answers
use ems_esp_link.Prelude.{
  ℕ, zero, suc, ◌+◌, ◌-◌, ◌*◌, ◌/◌, ◌%◌, Bool, true, false, not, ◌&&◌, Option, none, some, List, [],
  ◌∷◌, ◌++◌, ltb, ◌==◌, if◌then◌else◌, length, replicate,
}
use ems_esp_link.Prelude.Text.{Bytes, codes, decimal, str_eq, c_string}
use ems_esp_link.CharRing
use ems_esp_link.CharRing.{CharRing}
use ems_esp_link.CharRing.Reader.{escape_control, is_quoted, ajax}
use ems_esp_link.Config.{FlashConfig, Spi, config_save}
use ems_esp_link.Httpd.Args.{Found, no_line, value, missing, find_arg}
use ems_esp_link.Httpd.Conn.{Conn, Code, done, Method, get}
use ems_esp_link.Httpd.Send.{send, json_header}

-- BUF_MAX
abbrev pub buf_max : ℕ
buf_max = 1400

-- LOG_MODE_AUTO, LOG_MODE_OFF, LOG_MODE_ON
abbrev pub log_mode_auto : ℕ
log_mode_auto = 0

abbrev pub log_mode_off : ℕ
log_mode_off = 1

abbrev pub log_mode_on : ℕ
log_mode_on = 2

-- The static variables; `uart` is what has been written to UART1 since.
pub record Log : Type 0 where
  pub ring : CharRing
  pub no_uart : Bool
  pub newline : Bool
  pub uart : Bytes

-- `log_write`
abbrev pub log_write : CharRing → ℕ → CharRing
log_write = CharRing.write buf_max

-- `%6d> ` of the milliseconds; `now` is `system_get_time()`.
unfoldable pub stamp : ℕ → Bytes
stamp now =
    let ms = decimal (now / 1000 % 1000000) in replicate (6 - length ms) b' ' ++ (ms ++ codes "> ")

-- The UART half of `log_write_char`.
unfoldable pub uart_write_char : ℕ → Log → ℕ → Log
uart_write_char now l c =
    let stamped = if l.newline then l.uart ++ stamp now else l.uart in
    if l.no_uart
    then l
    else if c == b'\n'
    then record l { newline = true; uart = stamped ++ (c ∷ 13 ∷ []) }
    else record l { newline = false; uart = stamped ++ (c ∷ []) }

-- `log_write_char`
unfoldable pub log_write_char : ℕ → Log → ℕ → Log
unfolding uart_write_char
log_write_char now l c =
    let l' = uart_write_char now l c in
    let ring = if c == b'\n' then log_write l'.ring 13 else l'.ring in
    record l' { ring = log_write ring c }

-- `os_printf` of a text, through the function that `logInit` installs.
unfoldable pub print : ℕ → Log → Bytes → Log
print now l [] = l
print now l (c ∷ cs) = print now (log_write_char now l c) cs

-- `log_uart`: the message is printed while the UART is on.
unfoldable pub log_uart : ℕ → FlashConfig → Bool → Log → Log
log_uart now cfg enable l =
    if not enable && (not l.no_uart && not (cfg.log_mode == log_mode_on))
    then record (print now l (codes "Turning OFF uart log\n")) { no_uart = not enable }
    else if enable && (l.no_uart && not (cfg.log_mode == log_mode_off))
    then print now (record l { no_uart = not enable }) (codes "Turning ON uart log\n")
    else l

-- `logInit`
unfoldable pub log_init : FlashConfig → Log → Log
log_init cfg l = record l {
  no_uart = cfg.log_mode == log_mode_off;
  ring = let r = l.ring in record r { wr = 0; rd = 0 };
}

-- The characters of the answer.
unfoldable pub escape : ℕ → Bytes
unfolding escape_control
escape c = if is_quoted c then b'\\' ∷ c ∷ [] else if ltb c b' ' then escape_control c else c ∷ []

-- `ajaxLog`
unfoldable pub ajax_log : Log → Conn → Code × Conn
ajax_log l = ajax buf_max escape l.ring

-- `dbg_mode`; the source indexes it by a mode below 3 only.
unfoldable pub dbg_mode : ℕ → Bytes
dbg_mode zero = codes "auto"
dbg_mode (suc zero) = codes "off"
dbg_mode (suc (suc n)) = codes "on"

-- The `mode` that an argument names.
unfoldable pub mode_of : Bytes → Option ℕ
mode_of t =
    if str_eq t (codes "on")
    then some log_mode_on
    else if str_eq t (codes "off")
    then some log_mode_off
    else if str_eq t (codes "auto")
    then some log_mode_auto
    else none

module _ {F : Type 0} (spi : Spi F) (chksum : FlashConfig → ℕ) (firmware_size : ℕ) where
  pub record ModeStep : Type 0 where
    pub status : ℕ
    pub cfg : FlashConfig
    pub flash : F
    pub log : Log

  -- A mode is stored, switches the UART unless it is `auto`, and is saved.
  unfoldable pub set_mode : ℕ → Option ℕ → FlashConfig → F → Log → ModeStep
  set_mode now none cfg f l = record { status = 400; cfg = cfg; flash = f; log = l }
  set_mode now (some mode) cfg f l =
      let cfg' = record cfg { log_mode = mode } in
      let saved = config_save spi chksum firmware_size cfg' f in
      record {
        status = if saved.0 then 200 else 400;
        cfg = cfg';
        flash = saved.1;
        log = if mode == log_mode_auto then l else log_uart now cfg' (mode == log_mode_on) l;
      }

  abbrev without_mode : Method → FlashConfig → F → Log → ModeStep
  without_mode get cfg f l = record { status = 200; cfg = cfg; flash = f; log = l }
  without_mode _ cfg f l = record { status = 400; cfg = cfg; flash = f; log = l }

  unfoldable pub mode_step : ℕ → Found → Method → FlashConfig → F → Log → ModeStep
  unfolding set_mode mode_of
  mode_step now (value v) m cfg f l =
      if ltb 0 (length v.ret)
      then set_mode now (mode_of (c_string v.ret)) cfg f l
      else without_mode m cfg f l
  mode_step now _ m cfg f l = without_mode m cfg f l

  -- `ajaxLogDbg`. The buffer for the argument has 512 bytes.
  unfoldable pub ajax_log_dbg :
      ℕ → FlashConfig → F → Log → Conn → Code × Conn × FlashConfig × F × Log
  ajax_log_dbg now cfg f l c =
      let s = mode_step now (find_arg (codes "mode") 512 c.get_args) c.request_type cfg f l in
      elim c.conn [
        | none ↦ (done, c, cfg, f, l)
        | some _ ↦ (
          done,
          (send (json_header c s.status)
              (codes "{\"mode\": \"" ++ (dbg_mode s.cfg.log_mode ++ codes "\"}"))).1,
          s.cfg,
          s.flash,
          s.log,
        )
      ]
