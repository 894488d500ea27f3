-- ===== src/Tests/Buffers.antt =====
-- The console and the log at concrete inputs.
use ems_esp_link.Prelude.{
  ℕ, ◌≡◌, refl, false, none, some, [], ◌∷◌, ◌++◌, arith, replicate, length-replicate,
}
use ems_esp_link.Prelude.Text.{Bytes, codes, atoi, decimal}
use ems_esp_link.CharRing.{CharRing}
use ems_esp_link.CharRing.Inv.{IsValid}
use ems_esp_link.CharRing.Reader.Window.{first_shown}
use ems_esp_link.CharRing.Reader.Render.{escape_all}
use ems_esp_link.Httpd.Decode.{url_decode}
use ems_esp_link.Console
use ems_esp_link.Console.{console_write_str, ajax_console_reset, ajax_console}
use ems_esp_link.Console.Answers.{ajax_console-shows, console_object}
use ems_esp_link.Httpd.Args.{find_arg}
use ems_esp_link.Httpd.Conn.{Conn, PostData, done, get}
use ems_esp_link.Httpd.Send.Json.{json_head}
use ems_esp_link.Log.{Log}

abbrev console_ring : CharRing
console_ring = record { buf = replicate 1024 0; wr = 7; rd = 3; pos = 5 }

abbrev log_ring : CharRing
log_ring = record { buf = replicate 1400 0; wr = 0; rd = 0; pos = 0 }

abbrev log_state : Log
log_state = record { ring = log_ring; no_uart = false; newline = false; uart = [] }

abbrev body : PostData
body = record { len = 0; buff_size = 0; buff = none; received = 0; multipart_boundary = none }

-- A request for `?start=1`.
abbrev request : Conn
request = record {
  conn = some 1;
  remote_port = 4000;
  remote_ip = 10 ∷ 0 ∷ 0 ∷ 2 ∷ [];
  request_type = get;
  url = some (codes "/console/text");
  get_args = some (codes "start=1");
  cgi_arg = 0;
  cgi_data = none;
  cgi = some 0;
  head = [];
  send_buff = [];
  body = body;
}

console_ring-IsValid : IsValid 1024 console_ring
console_ring-IsValid = record {
  room = omega arith;
  storage = length-replicate {A = ℕ} 1024 0;
  wr_in = omega arith;
  rd_in = omega arith;
}

abbrev hello : Bytes
hello = codes "say \"hi\"\r\n"

ajax_console-shows_example :
    let out =
      ajax_console (console_write_str (ajax_console_reset console_ring request).2 hello) request in
    (out.0 ≡ done)
    × (out.1.send_buff
        ≡ json_head ++ console_object hello (find_arg (codes "start") 2048 request.get_args))
ajax_console-shows_example =
    ajax_console-shows console_ring request request hello console_ring-IsValid refl refl refl
      (omega arith)

-- The object for `hello` from position 1.
console_object_test :
    console_object hello (find_arg (codes "start") 2048 request.get_args)
    ≡ codes "{\"len\":9, \"start\":1, \"text\": \"ay \\\"hi\\\"\\u000a\"}"
unfolding console_object find_arg escape_all first_shown Console.escape atoi decimal url_decode
console_object_test = refl
