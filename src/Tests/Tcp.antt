-- ===== src/Tests/Tcp.antt =====
-- The TCP connections of the microcontroller at concrete inputs.
use ems_esp_link.Prelude.{◌≡◌, refl, true, none, some, [], ◌∷◌, ◌++◌, arith}
use ems_esp_link.Prelude.Text.{Bytes, codes, atoi, decimal, decimal_fuel}
use ems_esp_link.TcpClient.{
  TcpConn, connecting, connected, sent, resolve, connect, uart, cleared, connected_cb,
}
use ems_esp_link.TcpClient.Serial.{send_char, send_push, command}
use ems_esp_link.TcpClient.Invariant.{IsSound}
use ems_esp_link.TcpClient.Reach.{start, next, commanded, char, Reach-IsSound}
use ems_esp_link.TcpClient.Counter.{IsClear, send_chars, send_push-send_chars}
use ems_esp_link.TcpClient.Connect.{ready, command-connect}

abbrev address : Bytes
address = 10 ∷ 0 ∷ 0 ∷ 1 ∷ []

abbrev host : Bytes
host = codes "a.io"

-- A connection that is up.
abbrev up : TcpConn
up = record {
  conn = some 7;
  tcp = some (record { remote_port = 23; remote_ip = address });
  tx_buf = none;
  tx_buf_sent = none;
  tx_buf_len = 0;
  state = connected;
}

up-IsClear : IsClear up
up-IsClear = record { state = refl; no_buffer = refl; count = refl; unsent = refl }

Reach-IsSound_example :
    IsSound (send_char true 0 (command (ready 7 address) b'T' (codes "a.io:23") cleared).1 b'x').0
Reach-IsSound_example = Reach-IsSound (
    next (next start (commanded cleared (ready 7 address) b'T' (codes "a.io:23")))
      (char (command (ready 7 address) b'T' (codes "a.io:23") cleared).1 true 0 b'x'))

send_push-send_chars_example :
    (send_push 0 (send_chars 0 up (codes "hello"))).1 ≡ sent (some 7) (codes "hello") ∷ []
send_push-send_chars_example =
    send_push-send_chars 0 0 up (codes "hello") up-IsClear (λ e. cc) (omega arith)

command-connect_example :
    command (ready 7 address) b'T' (codes "a.io" ++ (b':' ∷ codes "23")) cleared ≡ (
      true,
      record cleared {
        conn = some 7;
        tcp = some (record { remote_port = atoi (codes "23"); remote_ip = address });
        state = connecting;
      },
      resolve (some 7) (codes "a.io")
          ∷ connect (some 7) (record { remote_port = atoi (codes "23"); remote_ip = address })
          ∷ [],
    )
unfolding atoi
command-connect_example =
    command-connect cleared 7 address (codes "a.io") (codes "23") refl
      (refl, (refl, (refl, (refl, tt)))) (omega arith) refl

-- The notice of a connection on channel 3 is one byte longer than the buffer it is printed in.
test_notice : (connected_cb 3 0 up).1 ≡ uart (codes "\n~@3C\n") ∷ []
unfolding connected_cb decimal decimal_fuel
test_notice = refl
