-- ===== src/Log/Answers.antt =====
-- What the log keeps, what it sends to a client, and when it writes to the UART.
use ems_esp_link.Prelude.{
  ℕ, ◌-◌, ◌≡◌, refl, ◌∙◌, Bool, true, false, not, [], ◌∷◌, ◌++◌, arith, length, drop, ◌==◌,
  if◌then◌else◌,
}
use ems_esp_link.Prelude.Text.{Bytes, codes}
use ems_esp_link.CharRing
use ems_esp_link.CharRing.{CharRing}
use ems_esp_link.CharRing.Reader.{preamble}
use ems_esp_link.CharRing.Reader.Render.{escape_all, Short}
use ems_esp_link.CharRing.Reader.Window.{first_shown}
use ems_esp_link.Config.{FlashConfig}
use ems_esp_link.Httpd.Args.{Found}
use ems_esp_link.Httpd.Conn.{Conn}
use ems_esp_link.Log.{
  Log, buf_max, log_mode_on, log_mode_off, log_write_char, print, log_uart, escape,
}

pub escape-Short : Short escape
unfolding escape
escape-Short c = ground arith

-- The text as the log keeps it: a carriage return before each newline.
unfoldable pub stored : Bytes → Bytes
stored [] = []
stored (c ∷ cs) = if c == b'\n' then 13 ∷ c ∷ stored cs else c ∷ stored cs

log_write_char-ring :
    (now : ℕ) (l : Log) (c : ℕ)
    → (log_write_char now l c).ring
      ≡ CharRing.write_str buf_max l.ring (if c == b'\n' then 13 ∷ c ∷ [] else c ∷ [])
unfolding log_write_char CharRing.write_str
log_write_char-ring now l c = ground arith

write_str-append :
    (xs ys : Bytes) (r : CharRing)
    → CharRing.write_str buf_max r (xs ++ ys)
      ≡ CharRing.write_str buf_max (CharRing.write_str buf_max r xs) ys
unfolding CharRing.write_str
write_str-append [] ys r = refl
write_str-append (x ∷ xs) ys r = write_str-append xs ys (CharRing.write buf_max r x)

stored-cons :
    (c : ℕ) (cs : Bytes)
    → stored (c ∷ cs) ≡ (if c == b'\n' then 13 ∷ c ∷ [] else c ∷ []) ++ stored cs
unfolding stored
stored-cons c cs = ground arith

-- Every character printed goes to the buffer, a newline as two, whether the UART is on or off.
pub print-ring :
    (cs : Bytes) (now : ℕ) (l : Log)
    → (print now l cs).ring ≡ CharRing.write_str buf_max l.ring (stored cs)
unfolding print
print-ring [] now l = unfold stored CharRing.write_str in refl
print-ring (c ∷ cs) now l =
    print-ring cs now (log_write_char now l c)
    ∙ rw (log_write_char-ring now l c, stored-cons c cs, write_str-append)

log_write_char-no_uart : (now : ℕ) (l : Log) (c : ℕ) → (log_write_char now l c).no_uart ≡ l.no_uart
unfolding log_write_char
log_write_char-no_uart now l c = ground arith

print-no_uart : (cs : Bytes) (now : ℕ) (l : Log) → (print now l cs).no_uart ≡ l.no_uart
unfolding print
print-no_uart [] now l = refl
print-no_uart (c ∷ cs) now l =
    print-no_uart cs now (log_write_char now l c) ∙ log_write_char-no_uart now l c

-- While the UART is off, printing writes nothing to it.
pub print-uart_off :
    (cs : Bytes) (now : ℕ) (l : Log) → l.no_uart ≡ true → (print now l cs).uart ≡ l.uart
unfolding print
print-uart_off [] now l h = refl
print-uart_off (c ∷ cs) now l h =
    print-uart_off cs now (log_write_char now l c) (log_write_char-no_uart now l c ∙ h)
    ∙ (unfold log_write_char in ground arith)

-- The UART after a request to switch it: the mode `on` keeps it from being switched off, the mode
-- `off` from being switched on, and any other request is obeyed.
pub log_uart-no_uart :
    (now : ℕ) (cfg : FlashConfig) (enable : Bool) (l : Log)
    → (log_uart now cfg enable l).no_uart ≡ (
        if enable
        then (if cfg.log_mode == log_mode_off then l.no_uart else false)
        else if cfg.log_mode == log_mode_on
        then l.no_uart
        else true)
unfolding log_uart
log_uart-no_uart now cfg enable l =
    ground
      (arith, print-no_uart (codes "Turning ON uart log\n") now (record l { no_uart = not enable }))

-- The object that answers a request for the text `h` from the position that `found` asks for.
unfoldable pub log_object : Bytes → Found → Bytes
log_object h found =
    let from = first_shown buf_max h found in
    escape_all escape (preamble (length h - from) from) (drop from h) ++ codes "\"}"
