-- ===== src/Tests/Uart.antt =====
-- The receiver of the UART at concrete inputs.
use ems_esp_link.Prelude.{
  ℕ, not, ◌&&◌, ◌||◌, ◌==◌, if◌then◌else◌, ◌≡◌, refl, true, false, none, some, [], ◌∷◌, ◌++◌, arith,
}
use ems_esp_link.SerBridge.Telegram.{EmsRxBuf}
use ems_esp_link.Uart.{Uart, Irq, rx_intr_handler, recv_task, hand_on, add_recv_cb}
use ems_esp_link.Uart.Framing.{interrupts, received, framed, recv_task-rx_intr_handler}
use ems_esp_link.Uart.Registers.{
  Register, uart_int_ena, uart_clkdiv, uart_conf0, Bits, Peri, same_register, in_mask, bit_of,
  send_brk, rx_intr_registers, UartDevice, uart_init,
}
use ems_esp_link.Uart.Registers.SetUp.{
  IsPeri, rx_intr_registers-send_brk, is_enabled, uart_init-uart_int_ena,
}

abbrev pub fresh : EmsRxBuf
fresh = record { sntp_time_stamp = 0; sys_time_stamp = 0; write_ptr = 0; buffer = [] }

abbrev pub waiting : Uart
waiting = record {
  len = 0;
  sys_time_stamp = 0;
  sntp_time_stamp = 0;
  uart_buffer = [];
  ems_init_done = true;
  ems_bus_busy = false;
  ems_rx_buf_idx = 0;
  ems_rx_buf = 0;
  pa_ems_rx_buf = λ k. fresh;
  uart_recv_cb = some 1 ∷ none ∷ some 2 ∷ none ∷ [];
}

abbrev pub portion : Irq
portion = record {
  pending = true;
  fifo = 8 ∷ 0 ∷ [];
  brk = false;
  wdev_now = 5000;
  realtime_stamp = 60;
}

abbrev pub ending : Irq
ending = record { pending = true; fifo = 24 ∷ []; brk = true; wdev_now = 7000; realtime_stamp = 61 }

recv_task-rx_intr_handler_example :
    (recv_task (rx_intr_handler ending (interrupts waiting (portion ∷ []))).0).1
    ≡ hand_on
        (some 1 ∷ none ∷ some 2 ∷ none ∷ [])
        (framed portion (received (portion ∷ []) ++ (24 ∷ [])) [])
recv_task-rx_intr_handler_example =
    recv_task-rx_intr_handler waiting (portion ∷ []) ending refl refl ((refl, refl), tt) refl refl
      (omega arith)

test_hand_on : hand_on (none ∷ some 2 ∷ []) fresh ≡ (2, fresh, 10) ∷ []
unfolding hand_on
test_hand_on = refl

test_add_recv_cb : add_recv_cb 5 (some 1 ∷ none ∷ none ∷ []) ≡ some 1 ∷ some 5 ∷ none ∷ []
unfolding add_recv_cb
test_add_recv_cb = refl

-- Registers as functions, whose divider is the one register that `uart_div_modify` changes.
abbrev Bank : Type 0
Bank = ℕ → Register → Bits

abbrev bank : Peri Bank
bank = record {
  write_peri_reg = λ u r v h u' r' i. if u' == u && same_register r' r then v i else h u' r' i;
  set_peri_reg_mask =
      λ u r mask h u' r' i. h u' r' i || (u' == u && (same_register r' r && in_mask mask i));
  clear_peri_reg_mask =
      λ u r mask h u' r' i. h u' r' i && not (u' == u && (same_register r' r && in_mask mask i));
  uart_div_modify =
      λ u div h u' r' i. if same_register r' uart_clkdiv then bit_of div i else h u' r' i;
  held = λ h. h;
}

bank-IsPeri : IsPeri bank
bank-IsPeri = record {
  written = λ u r v h u' r' i k. refl;
  masked = λ u r mask h u' r' i k. refl;
  unmasked = λ u r mask h u' r' i k. refl;
  divided = λ u div h u' i. refl;
}

abbrev all_clear : Bank
all_clear u r i = false

abbrev uart_dev : UartDevice
uart_dev = record { baut_rate = 0; data_bits = 3; parity = 0; stop_bits = 0; trig_lvl = 16 }

rx_intr_registers-send_brk_example :
    (send_brk bank 80000000 all_clear 0 uart_conf0 8 ≡ true)
    × (send_brk bank 80000000 all_clear 0 uart_conf0 14 ≡ true)
    × (rx_intr_registers bank 80000000 true true true
          (send_brk bank 80000000 all_clear)
          0
          uart_conf0
          8
        ≡ false)
rx_intr_registers-send_brk_example =
    rx_intr_registers-send_brk bank bank-IsPeri 80000000 true all_clear 0 uart_conf0 8 refl

uart_init-uart_int_ena_example :
    (uart_init bank 80000000 9600 115200 uart_dev all_clear).1 0 uart_int_ena 7
    ≡ false || is_enabled 0 7
uart_init-uart_int_ena_example =
    uart_init-uart_int_ena bank bank-IsPeri 80000000 9600 115200 uart_dev all_clear 0 7
