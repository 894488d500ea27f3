-- ===== src/Console/Answers.antt =====
-- What a client of the console page sees.
use ems_esp_link.Prelude.{ℕ, ◌-◌, ◌^◌, ◌<◌, ◌≡◌, refl, ap, ◌∙◌, some, [], ◌++◌, arith, length, drop}
use ems_esp_link.Prelude.Text.{Bytes, codes}
use ems_esp_link.CharRing.{CharRing}
use ems_esp_link.CharRing.Inv.{IsValid}
use ems_esp_link.CharRing.History.{Shows, empty-Shows, write_str-Shows}
use ems_esp_link.CharRing.Reader.{preamble}
use ems_esp_link.CharRing.Reader.Render.{escape_all, Short}
use ems_esp_link.CharRing.Reader.Window.{first_shown, answer_shows, ajax_sent}
use ems_esp_link.Httpd.Args.{find_arg, Found}
use ems_esp_link.Httpd.Conn.{Conn, done}
use ems_esp_link.Httpd.Send.Json.{json_head}
use ems_esp_link.Console.{buf_max, console_write_str, ajax_console_reset, escape, ajax_console}

pub escape-Short : Short escape
unfolding escape
escape-Short c = ground arith

-- After a reset over an open connection the buffer is empty, and its counter is zero.
reset-Shows :
    (r : CharRing) (c : Conn) {id : ℕ}
    → IsValid buf_max r
    → c.conn ≡ some id
    → Shows buf_max (ajax_console_reset r c).2 []
unfolding ajax_console_reset
reset-Shows r c v e = rw e (empty-Shows buf_max _ (omega arith) v.storage refl refl refl)

-- The object that answers a request for the text `h` from the position that `found` asks for.
unfoldable pub console_object : Bytes → Found → Bytes
console_object h found =
    let from = first_shown buf_max h found in
    escape_all escape (preamble (length h - from) from) (drop from h) ++ codes "\"}"

-- When a client resets the console, the characters of `h` are then written, and a client asks for
-- the text over a connection with nothing else to send, it is sent `h` from the position that it
-- asks for, or from the oldest character still held if that lies later, escaped, as far as it fits.
-- The text must be shorter than 2 ^ 31.
pub ajax_console-shows :
    (r : CharRing) (c d : Conn) (h : Bytes) {id other : ℕ}
    → IsValid buf_max r
    → c.conn ≡ some id
    → d.conn ≡ some other
    → d.send_buff ≡ []
    → length h < 2 ^ 31
    → let out = ajax_console (console_write_str (ajax_console_reset r c).2 h) d in
      (out.0 ≡ done)
      × (out.1.send_buff ≡ json_head ++ console_object h (find_arg (codes "start") 2048 d.get_args))
unfolding ajax_console console_object
ajax_console-shows r c d h v e e' b small =
    let s = write_str-Shows buf_max h (ajax_console_reset r c).2 [] (reset-Shows r c v e) in
    let (code, sent) = ajax_sent buf_max escape _ d escape-Short e' b in
    let shows =
      answer_shows buf_max escape _ h (find_arg (codes "start") 2048 d.get_args) s small in
    (code, sent ∙ ap (λ t. json_head ++ t) shows)
