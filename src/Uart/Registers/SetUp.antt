-- ===== src/Uart/Registers/SetUp.antt =====
-- What the set-up of the UARTs and a break leave in the registers.
use ems_esp_link.Prelude.{
  ℕ, ◌+◌, ◌*◌, ◌%◌, ◌^◌, ◌/◌, ◌≡◌, refl, ap, ◌∙◌, Bool, true, false, not, ◌&&◌, ◌||◌, List, [], ◌∷◌,
  if_lem, ◌==◌, if◌then◌else◌, arith,
}
use ems_esp_link.Uart.Registers.{
  Register, uart_fifo, uart_int_ena, uart_int_clr, uart_conf0, uart_conf1, Bits, Peri,
  same_register, in_mask, bit_of, calc_uartmode, txfifo_rst, rxfifo_rst, loopback, txd_brk,
  rx_intr_registers, rxfifo_tout_int_ena, brk_det_int_ena, rxfifo_full_int_ena, send_brk, end_brk,
  UartDevice, reset_fifos, set_conditions, uart_config, tx_one_char, uart_init,
}

-- The registers that keep what is written; the FIFO and UART_INT_CLR cannot be read back.
abbrev pub is_kept : Register → Bool
is_kept uart_fifo = false
is_kept uart_int_clr = false
is_kept _ = true

-- What the SDK documents: each macro changes its register alone, `uart_div_modify` enables and disables no
-- interrupt.
pub record IsPeri {H : Type 0} (peri : Peri H) : Type 0 where
  pub written :
      (u : ℕ) (r : Register) (v : Bits) (h : H) (u' : ℕ) (r' : Register) (i : ℕ)
      → is_kept r' ≡ true
      → peri.held (peri.write_peri_reg u r v h) u' r' i
        ≡ (if u' == u && same_register r' r then v i else peri.held h u' r' i)
  pub masked :
      (u : ℕ) (r : Register) (mask : List ℕ) (h : H) (u' : ℕ) (r' : Register) (i : ℕ)
      → is_kept r' ≡ true
      → peri.held (peri.set_peri_reg_mask u r mask h) u' r' i
        ≡ peri.held h u' r' i || (u' == u && (same_register r' r && in_mask mask i))
  pub unmasked :
      (u : ℕ) (r : Register) (mask : List ℕ) (h : H) (u' : ℕ) (r' : Register) (i : ℕ)
      → is_kept r' ≡ true
      → peri.held (peri.clear_peri_reg_mask u r mask h) u' r' i
        ≡ peri.held h u' r' i && not (u' == u && (same_register r' r && in_mask mask i))
  pub divided :
      (u div : ℕ) (h : H) (u' i : ℕ)
      → peri.held (peri.uart_div_modify u div h) u' uart_int_ena i ≡ peri.held h u' uart_int_ena i

-- The three interrupts of UART0.
abbrev pub is_enabled : ℕ → ℕ → Bool
is_enabled v i =
    v == 0 && in_mask (rxfifo_full_int_ena ∷ rxfifo_tout_int_ena ∷ brk_det_int_ena ∷ []) i

module _ {H : Type 0} (peri : Peri H) (laws : IsPeri peri) (clk : ℕ) where
  -- The bits that a break sets and clears.
  send_brk_lem :
      (h : H) (u : ℕ) (r : Register) (i : ℕ)
      → is_kept r ≡ true
      → peri.held (send_brk peri clk h) u r i
        ≡ peri.held h u r i
            && not (u == 0 && (same_register r uart_conf0 && in_mask (txfifo_rst ∷ []) i))
          || (u == 0 && (same_register r uart_conf0 && in_mask (loopback ∷ txd_brk ∷ []) i))
  unfolding send_brk in_mask
  send_brk_lem h u r i kept =
      let h1 = peri.set_peri_reg_mask 0 uart_conf0 (txfifo_rst ∷ []) h in
      let h2 = peri.clear_peri_reg_mask 0 uart_conf0 (txfifo_rst ∷ []) h1 in
      let h3 = peri.set_peri_reg_mask 0 uart_conf0 (loopback ∷ []) h2 in
      ground (
        arith,
        laws.masked 0 uart_conf0 (txfifo_rst ∷ []) h u r i kept,
        laws.unmasked 0 uart_conf0 (txfifo_rst ∷ []) h1 u r i kept,
        laws.masked 0 uart_conf0 (loopback ∷ []) h2 u r i kept,
        laws.masked 0 uart_conf0 (txd_brk ∷ []) h3 u r i kept,
      )

  end_brk-send_brk :
      (h h1 : H) (u : ℕ) (r : Register) (i : ℕ)
      → is_kept r ≡ true
      → peri.held h1 u r i ≡ peri.held (send_brk peri clk h) u r i
      → peri.held (end_brk peri clk h1) u r i
        ≡ peri.held h u r i
          && not (
              u == 0
              && (same_register r uart_conf0 && in_mask (txfifo_rst ∷ loopback ∷ txd_brk ∷ []) i))
  unfolding end_brk in_mask
  end_brk-send_brk h h1 u r i kept same =
      let h2 = peri.clear_peri_reg_mask 0 uart_conf0 (loopback ∷ []) h1 in
      ground (
        arith,
        same,
        send_brk_lem h u r i kept,
        laws.unmasked 0 uart_conf0 (loopback ∷ []) h1 u r i kept,
        laws.unmasked 0 uart_conf0 (txd_brk ∷ []) h2 u r i kept,
      )

  -- A write to UART_INT_CLR leaves the other registers as they were.
  cleared_lem :
      (v : Bits) (h : H) (u : ℕ) (r : Register) (i : ℕ)
      → is_kept r ≡ true
      → peri.held (peri.write_peri_reg 0 uart_int_clr v h) u r i ≡ peri.held h u r i
  cleared_lem v h u r i kept = ground (arith, laws.written 0 uart_int_clr v h u r i kept, kept)

  -- On registers that work as documented: while a break is sent, UART_CONF0 of UART0 has the two bits for
  -- it set. When the interrupt handler, with the EMS part initialised, has noticed the break, they are clear,
  -- as is the bit that resets the FIFO, and all else is as it was before in the registers that keep what is
  -- written.
  pub rx_intr_registers-send_brk :
      (pending : Bool) (h : H) (u : ℕ) (r : Register) (i : ℕ)
      → is_kept r ≡ true
      → (peri.held (send_brk peri clk h) 0 uart_conf0 txd_brk ≡ true)
        × (peri.held (send_brk peri clk h) 0 uart_conf0 loopback ≡ true)
        × (peri.held (rx_intr_registers peri clk true pending true (send_brk peri clk h)) u r i
            ≡ peri.held h u r i
              && not (
                  u == 0
                  && (same_register r uart_conf0
                      && in_mask (txfifo_rst ∷ loopback ∷ txd_brk ∷ []) i)))
  unfolding rx_intr_registers in_mask
  rx_intr_registers-send_brk pending h u r i kept =
      let sent = send_brk peri clk h in
      (
        ground (arith, send_brk_lem h 0 uart_conf0 txd_brk refl),
        ground (arith, send_brk_lem h 0 uart_conf0 loopback refl),
        cleared_lem _ _ u r i kept
            ∙ end_brk-send_brk h _ u r i kept (
                if_lem (λ (x : H). peri.held x u r i ≡ peri.held sent u r i) pending _ _
                  (λ _. cleared_lem _ sent u r i kept) (λ _. refl)),
      )

  set_conditions-uart_int_ena :
      (u : ℕ) (dev : UartDevice) (h : H) (v i : ℕ)
      → peri.held (set_conditions peri clk u dev h) v uart_int_ena i
        ≡ peri.held h v uart_int_ena i || (u == 0 && is_enabled v i)
  unfolding set_conditions in_mask
  set_conditions-uart_int_ena u dev h v i =
      let h1 = peri.write_peri_reg u uart_conf1 (bit_of (1 + 1 * 2 ^ 24 + 2 ^ 31)) h in
      ground (
        arith,
        laws.written u uart_conf1 (bit_of (1 + 1 * 2 ^ 24 + 2 ^ 31)) h v uart_int_ena i refl,
        laws.written u uart_conf1 (bit_of (dev.trig_lvl % 2 ^ 7)) h v uart_int_ena i refl,
        laws.masked u uart_int_ena
            (rxfifo_full_int_ena ∷ rxfifo_tout_int_ena ∷ brk_det_int_ena ∷ []) h1 v uart_int_ena i
            refl,
      )

  reset_fifos-uart_int_ena :
      (u : ℕ) (h : H) (v i : ℕ)
      → peri.held (reset_fifos peri clk u h) v uart_int_ena i ≡ peri.held h v uart_int_ena i
  unfolding reset_fifos
  reset_fifos-uart_int_ena u h v i =
      let h1 = peri.set_peri_reg_mask u uart_conf0 (rxfifo_rst ∷ txfifo_rst ∷ []) h in
      ground (
        arith,
        laws.masked u uart_conf0 (rxfifo_rst ∷ txfifo_rst ∷ []) h v uart_int_ena i refl,
        laws.unmasked u uart_conf0 (rxfifo_rst ∷ txfifo_rst ∷ []) h1 v uart_int_ena i refl,
      )

  write_lem :
      (u : ℕ) (r : Register) (v : Bits) (h : H) (u' i : ℕ)
      → same_register uart_int_ena r ≡ false
      → peri.held (peri.write_peri_reg u r v h) u' uart_int_ena i ≡ peri.held h u' uart_int_ena i
  write_lem u r v h u' i other = ground (arith, laws.written u r v h u' uart_int_ena i refl, other)

  uart_config-uart_int_ena :
      (u : ℕ) (dev : UartDevice) (h : H) (v i : ℕ)
      → peri.held (uart_config peri clk u dev h) v uart_int_ena i
        ≡ peri.held h v uart_int_ena i || (u == 0 && is_enabled v i)
  unfolding uart_config
  uart_config-uart_int_ena u dev h v i =
      let h1 = peri.uart_div_modify u (clk / dev.baut_rate) h in
      let mode : ℕ =
        if u == 1
        then calc_uartmode 3 0 0
        else calc_uartmode dev.data_bits dev.parity dev.stop_bits in
      let h2 = peri.write_peri_reg u uart_conf0 (bit_of mode) h1 in
      let h3 = reset_fifos peri clk u h2 in
      write_lem u uart_int_clr (bit_of 0xffff) (set_conditions peri clk u dev h3) v i refl
      ∙ (set_conditions-uart_int_ena u dev h3 v i
          ∙ ap (λ b. b || (u == 0 && is_enabled v i))
              (reset_fifos-uart_int_ena u h2 v i
                ∙ (write_lem u uart_conf0 (bit_of mode) h1 v i refl
                    ∙ laws.divided u (clk / dev.baut_rate) h v i)))

  -- After `uart_init`, whatever was set before, on registers that work as documented: of UART0 the
  -- interrupts for a full FIFO, for a pause and for a break are enabled besides those that were, and of
  -- UART1, whose interrupts go to the same handler, none is enabled that was not.
  pub uart_init-uart_int_ena :
      (uart0_br uart1_br : ℕ) (dev : UartDevice) (h : H) (v i : ℕ)
      → peri.held (uart_init peri clk uart0_br uart1_br dev h).1 v uart_int_ena i
        ≡ peri.held h v uart_int_ena i || is_enabled v i
  unfolding uart_init tx_one_char
  uart_init-uart_int_ena uart0_br uart1_br dev h v i =
      let dev0 : UartDevice = record dev { baut_rate = uart0_br } in
      let dev1 : UartDevice = record dev { baut_rate = uart1_br } in
      let h0 = uart_config peri clk 0 dev0 h in
      let h1 = uart_config peri clk 1 dev1 h0 in
      let put : (x : H)
          → peri.held (tx_one_char peri clk 1 10 x) v uart_int_ena i
            ≡ peri.held x v uart_int_ena i =
        λ x. write_lem 1 uart_fifo (bit_of 10) x v i refl in
      put _
      ∙ (put _
          ∙ (put _
              ∙ (put h1
                  ∙ ground (
                    arith,
                    uart_config-uart_int_ena 1 dev1 h0 v i,
                    uart_config-uart_int_ena 0 dev0 h v i,
                  ))))
