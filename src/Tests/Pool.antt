-- ===== src/Tests/Pool.antt =====
-- The connection pool and the telegrams at concrete inputs.
use ems_esp_link.Prelude.{ℕ, zero, suc, ◌≡◌, refl, none, some, [], ◌∷◌, ◌++◌, arith, replicate}
use ems_esp_link.Prelude.Text.{codes, decimal, decimal_fuel}
use ems_esp_link.CharRing.{CharRing}
use ems_esp_link.Console.{console_write_str}
use ems_esp_link.SerBridge.Effect.{sent, led, uart}
use ems_esp_link.SerBridge.Slot.{espbuffsend}
use ems_esp_link.SerBridge.Telnet.{Pins}
use ems_esp_link.SerBridge.Pool.{
  Bridge, max_conn, vacant, entry, find_conn_data, connect_cb, recv_cb, push, discon_cb,
}
use ems_esp_link.SerBridge.Pool.Linked.{
  IsLinked, connected, received, telegram, disconnected, Reach, here, next, Reach-IsLinked,
}
use ems_esp_link.SerBridge.Telegram.{EmsRxBuf, caption, show_telegram, padded, int_div, int_mod}
use ems_esp_link.SerBridge.Telegram.Dump.{dump, undump, show_telegram-dump}

abbrev no_pins : Pins
no_pins = record { mcu_reset = none; mcu_isp = none }

abbrev idle : Bridge
idle = record { conn_data = replicate max_conn vacant; reverse = λ _. none }

idle-entry : (i : ℕ) → entry idle i ≡ vacant
idle-entry zero = refl
idle-entry (suc zero) = refl
idle-entry (suc (suc zero)) = refl
idle-entry (suc (suc (suc zero))) = refl
idle-entry (suc (suc (suc (suc i)))) = refl

idle-IsLinked : IsLinked idle
idle-IsLinked = record {
  linked = λ i h e. cc (idle-entry i);
  fits = λ i. rw (idle-entry i) (omega arith);
}

abbrev after_connect : Bridge
after_connect = (connect_cb idle 7).0

abbrev after_receive : Bridge
after_receive = (recv_cb no_pins after_connect (some 7) (1 ∷ [])).0

abbrev after_push : Bridge
after_push = (push 0 after_receive (2 ∷ 3 ∷ [])).0

session : Reach no_pins idle (discon_cb no_pins after_push (some 7)).0
session =
    next
      (next
        (next (next here (connected idle 7 (λ i e. cc (idle-entry i))))
          (received after_connect (some 7) (1 ∷ [])))
        (telegram after_receive (2 ∷ 3 ∷ []) 0))
      (disconnected after_push (some 7))

Reach-IsLinked_example : IsLinked (discon_cb no_pins after_push (some 7)).0
Reach-IsLinked_example = Reach-IsLinked session idle-IsLinked

push_test : (push 0 after_connect (2 ∷ 3 ∷ [])).1 ≡ sent 7 (2 ∷ 3 ∷ []) ∷ []
unfolding push connect_cb espbuffsend
push_test = refl

recv_cb_test : (recv_cb no_pins after_connect (some 7) (1 ∷ [])).1 ≡ uart 1 ∷ led 50 ∷ []
unfolding recv_cb connect_cb find_conn_data
recv_cb_test = refl

abbrev received_telegram : EmsRxBuf
received_telegram = record {
  sntp_time_stamp = 45296;
  sys_time_stamp = 4294967176;
  write_ptr = 4;
  buffer = 11 ∷ 136 ∷ 0 ∷ 0 ∷ [];
}

abbrev empty_ring : CharRing
empty_ring = record { buf = replicate 1024 0; wr = 0; rd = 0; pos = 0 }

caption_test : caption received_telegram ≡ codes "12:34:56 [0.-120]: <2>"
unfolding caption padded decimal_fuel decimal int_div int_mod
caption_test = refl

show_telegram-dump_example :
    (show_telegram (7 ∷ 7 ∷ []) empty_ring received_telegram
      ≡ console_write_str empty_ring
          (caption received_telegram ++ (dump (11 ∷ 136 ∷ []) ++ (b'\n' ∷ []))))
    × (undump (dump (11 ∷ 136 ∷ [])) ≡ 11 ∷ 136 ∷ [])
show_telegram-dump_example =
    show_telegram-dump (7 ∷ 7 ∷ []) empty_ring received_telegram
      (omega arith, (omega arith, (omega arith, (omega arith, tt)))) (omega arith) (omega arith)
