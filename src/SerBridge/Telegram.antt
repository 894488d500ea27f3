-- ===== src/SerBridge/Telegram.antt =====
-- Telegrams from the UART, `serbridgeUartCb` of serial/serbridge.c.
pub mod Text
pub mod Dump
use ems_esp_link.Prelude.{
  ℕ, ◌+◌, ◌-◌, ◌*◌, ◌/◌, ◌%◌, ◌^◌, List, [], ◌∷◌, ◌++◌, ltb, if◌then◌else◌, length, take, replicate,
}
use ems_esp_link.Prelude.Text.{Bytes, codes, decimal, decimal_fuel}
use ems_esp_link.Prelude.Words.{sub32, slt}
use ems_esp_link.CharRing.{CharRing}
use ems_esp_link.Console.{console_write_char, console_write_str}
use ems_esp_link.SerBridge.Effect.{Effect}
use ems_esp_link.SerBridge.Pool.{Bridge, push}

-- `_EMSRxBuf` of user/ems.h; `writePtr` as an `int` pattern.
pub record EmsRxBuf : Type 0 where
  pub sntp_time_stamp : ℕ
  pub sys_time_stamp : ℕ
  pub write_ptr : ℕ
  pub buffer : Bytes

-- `hexNipple`
unfoldable pub hex_nipple : ℕ → ℕ
hex_nipple byte = if ltb byte 10 then byte + 0x30 else byte + 0x61 - 10

abbrev pub zero_pad : ℕ → Bytes → Bytes
zero_pad width digits = replicate (width - length digits) b'0' ++ digits

-- `%02d` and `%03d`, whose width counts the sign.
unfoldable pub padded : ℕ → ℕ → Bytes
padded width n =
    if ltb n (2 ^ 31)
    then zero_pad width (decimal_fuel 10 n [])
    else b'-' ∷ zero_pad (width - 1) (decimal_fuel 10 (2 ^ 32 - n) [])

-- `/` and `%` of an `int` by a positive constant: both cut towards zero.
abbrev pub negated : ℕ → ℕ
negated n = (2 ^ 32 - n) % 2 ^ 32

unfoldable pub int_div : ℕ → ℕ → ℕ
int_div w d = if ltb w (2 ^ 31) then w / d else negated ((2 ^ 32 - w) / d)

unfoldable pub int_mod : ℕ → ℕ → ℕ
int_mod w d = if ltb w (2 ^ 31) then w % d else negated ((2 ^ 32 - w) % d)

-- `tmp`, as `os_sprintf` fills it. The count does not show the trailer of two bytes.
unfoldable pub caption : EmsRxBuf → Bytes
caption p =
    padded 2 (p.sntp_time_stamp % 86400 / 3600)
    ++ (codes ":"
        ++ (padded 2 (p.sntp_time_stamp % 3600 / 60)
            ++ (codes ":"
                ++ (padded 2 (p.sntp_time_stamp % 60)
                    ++ (codes " ["
                        ++ (decimal (int_div p.sys_time_stamp 1000)
                            ++ (codes "."
                                ++ (padded 3 (int_mod p.sys_time_stamp 1000)
                                    ++ (codes "]: <"
                                        ++ (decimal ((p.write_ptr + 2 ^ 32 - 2) % 2 ^ 32)
                                            ++ codes ">"))))))))))

-- The loop over the bytes of the telegram: each is a blank and two digits.
unfoldable pub write_dump : CharRing → Bytes → CharRing
write_dump r [] = r
write_dump r (b ∷ bs) =
    write_dump
      (console_write_char (console_write_char (console_write_char r b' ') (hex_nipple (b / 16)))
        (hex_nipple (b % 16)))
      bs

-- The bytes that the loop reads, with `behind` in memory after the buffer. Its bound has a sign.
unfoldable pub shown_bytes : Bytes → EmsRxBuf → Bytes
shown_bytes behind p =
    if slt 0 (sub32 p.write_ptr 2) then take (sub32 p.write_ptr 2) (p.buffer ++ behind) else []

-- The console after a telegram.
unfoldable pub show_telegram : Bytes → CharRing → EmsRxBuf → CharRing
show_telegram behind r p =
    console_write_char (write_dump (console_write_str r (caption p)) (shown_bytes behind p)) b'\n'

-- `serbridgeUartCb`; `text` is the memory of the telegram that goes to the connections.
unfoldable pub uart_cb :
    Bytes → ℕ → CharRing → Bridge → EmsRxBuf → Bytes → CharRing × Bridge × List Effect
uart_cb behind status r b p text =
    let (b', done) = push status b text in (show_telegram behind r p, b', done)
