-- ===== src/Uart/Registers.antt =====
-- The registers of the UARTs as serial/uart.c sets them up, with the masks of include/uart_hw.h. A register is
-- its 32 bits, and a mask is a list of them.
pub mod SetUp
use ems_esp_link.Prelude.{
  ℕ, zero, suc, ◌+◌, ◌-◌, ◌*◌, ◌/◌, ◌%◌, ◌^◌, Bool, true, false, not, ◌&&◌, ◌||◌, List, [], ◌∷◌,
  ◌++◌, ltb, ◌==◌, if◌then◌else◌,
}

-- UART_FIFO, UART_INT_ENA, UART_INT_CLR, UART_CLKDIV, UART_CONF0, UART_CONF1
pub data Register : Type 0 where
  uart_fifo uart_int_ena uart_int_clr uart_clkdiv uart_conf0 uart_conf1 : Register

abbrev pub Bits : Type 0
Bits = ℕ → Bool

abbrev pub same_register : Register → Register → Bool
same_register uart_fifo uart_fifo = true
same_register uart_int_ena uart_int_ena = true
same_register uart_int_clr uart_int_clr = true
same_register uart_clkdiv uart_clkdiv = true
same_register uart_conf0 uart_conf0 = true
same_register uart_conf1 uart_conf1 = true
same_register _ _ = false

-- A bit is one of a mask.
unfoldable pub in_mask : List ℕ → ℕ → Bool
in_mask [] i = false
in_mask (b ∷ bs) i = i == b || in_mask bs i

-- Bit `i` of a number.
abbrev pub bit_of : ℕ → Bits
bit_of n i = n / 2 ^ i % 2 == 1

-- What the SDK gives for the registers of both UARTs, on a hardware of type `H`: WRITE_PERI_REG,
-- SET_PERI_REG_MASK and CLEAR_PERI_REG_MASK with the number of the UART and the register,
-- `uart_div_modify`, and what a register holds.
pub record Peri (H : Type 0) : Type 0 where
  pub write_peri_reg : ℕ → Register → Bits → H → H
  pub set_peri_reg_mask : ℕ → Register → List ℕ → H → H
  pub clear_peri_reg_mask : ℕ → Register → List ℕ → H → H
  pub uart_div_modify : ℕ → ℕ → H → H
  pub held : H → ℕ → Register → Bits

-- UART_TXFIFO_RST, UART_RXFIFO_RST, UART_LOOPBACK, UART_TXD_BRK
abbrev pub txfifo_rst : ℕ
txfifo_rst = 18

abbrev pub rxfifo_rst : ℕ
rxfifo_rst = 17

abbrev pub loopback : ℕ
loopback = 14

abbrev pub txd_brk : ℕ
txd_brk = 8

-- UART_RXFIFO_TOUT_INT_ENA, UART_BRK_DET_INT_ENA, UART_RXFIFO_FULL_INT_ENA, and the same bits of
-- UART_INT_CLR
abbrev pub rxfifo_tout_int_ena : ℕ
rxfifo_tout_int_ena = 8

abbrev pub brk_det_int_ena : ℕ
brk_det_int_ena = 7

abbrev pub rxfifo_full_int_ena : ℕ
rxfifo_full_int_ena = 0

-- CALC_UARTMODE, with NONE_BITS, UART_PARITY_EN | (parity & UART_PARITY), and the two fields.
abbrev pub calc_uartmode : ℕ → ℕ → ℕ → ℕ
calc_uartmode data_bits parity stop_bits =
    (if parity == 0 then 0 else 2 + parity % 2) + stop_bits % 4 * 2 ^ 4 + data_bits % 4 * 2 ^ 2

-- `UartDev`, as far as it is read.
pub record UartDevice : Type 0 where
  pub baut_rate : ℕ
  pub data_bits : ℕ
  pub parity : ℕ
  pub stop_bits : ℕ
  pub trig_lvl : ℕ

-- `clk` is UART_CLK_FREQ.
module _ {H : Type 0} (peri : Peri H) (clk : ℕ) where
  -- `uart0_sendBrk`
  unfoldable pub send_brk : H → H
  send_brk h0 =
      let h1 = peri.set_peri_reg_mask 0 uart_conf0 (txfifo_rst ∷ []) h0 in
      let h2 = peri.clear_peri_reg_mask 0 uart_conf0 (txfifo_rst ∷ []) h1 in
      let h3 = peri.set_peri_reg_mask 0 uart_conf0 (loopback ∷ []) h2 in
      peri.set_peri_reg_mask 0 uart_conf0 (txd_brk ∷ []) h3

  -- The end of a break in UART_CONF0.
  unfoldable pub end_brk : H → H
  end_brk h0 =
      let h1 = peri.clear_peri_reg_mask 0 uart_conf0 (loopback ∷ []) h0 in
      peri.clear_peri_reg_mask 0 uart_conf0 (txd_brk ∷ []) h1

  -- The reset of both FIFOs.
  unfoldable pub reset_fifos : ℕ → H → H
  reset_fifos u h =
      peri.clear_peri_reg_mask u uart_conf0 (rxfifo_rst ∷ txfifo_rst ∷ [])
        (peri.set_peri_reg_mask u uart_conf0 (rxfifo_rst ∷ txfifo_rst ∷ []) h)

  -- What `uart0_rx_intr_handler` writes to the registers: whether the EMS part is initialised, whether one
  -- of the three interrupts is pending, and whether a break is, which is read last.
  unfoldable pub rx_intr_registers : Bool → Bool → Bool → H → H
  rx_intr_registers false pending brk h =
      peri.write_peri_reg 0 uart_int_clr
        (in_mask (rxfifo_full_int_ena ∷ rxfifo_tout_int_ena ∷ brk_det_int_ena ∷ []))
        (if pending then reset_fifos 0 h else h)
  rx_intr_registers true pending brk h =
      let h1 =
        if pending
        then peri.write_peri_reg 0 uart_int_clr
            (in_mask (rxfifo_full_int_ena ∷ rxfifo_tout_int_ena ∷ [])) h
        else h in
      if brk
      then peri.write_peri_reg 0 uart_int_clr (in_mask (brk_det_int_ena ∷ [])) (end_brk h1)
      else h1

  -- The conditions of the interrupts.
  unfoldable pub set_conditions : ℕ → UartDevice → H → H
  set_conditions u dev h =
      if u == 0
      then peri.set_peri_reg_mask u uart_int_ena
          (rxfifo_full_int_ena ∷ rxfifo_tout_int_ena ∷ brk_det_int_ena ∷ [])
          (peri.write_peri_reg u uart_conf1 (bit_of (1 + 1 * 2 ^ 24 + 2 ^ 31)) h)
      else peri.write_peri_reg u uart_conf1 (bit_of (dev.trig_lvl % 2 ^ 7)) h

  -- `uart_config`: the pins and the handler are not registers of the UART.
  unfoldable pub uart_config : ℕ → UartDevice → H → H
  uart_config u dev h0 =
      let h1 = peri.uart_div_modify u (clk / dev.baut_rate) h0 in
      let mode =
        if u == 1
        then calc_uartmode 3 0 0
        else calc_uartmode dev.data_bits dev.parity dev.stop_bits in
      let h2 = peri.write_peri_reg u uart_conf0 (bit_of mode) h1 in
      peri.write_peri_reg u uart_int_clr (bit_of 0xffff) (set_conditions u dev (reset_fifos u h2))

  -- `uart0_baud`
  unfoldable pub uart0_baud : ℕ → H → H
  uart0_baud rate h = peri.uart_div_modify 0 (clk / rate) h

  -- `uart_tx_one_char`, behind the wait for room.
  unfoldable pub tx_one_char : ℕ → ℕ → H → H
  tx_one_char u c h = peri.write_peri_reg u uart_fifo (bit_of c) h

  -- `uart_init`, but for the task and the function for messages.
  unfoldable pub uart_init : ℕ → ℕ → UartDevice → H → UartDevice × H
  uart_init uart0_br uart1_br dev h =
      let dev0 = record dev { baut_rate = uart0_br } in
      let dev1 = record dev { baut_rate = uart1_br } in
      let h1 = uart_config 1 dev1 (uart_config 0 dev0 h) in
      (dev1, tx_one_char 1 10 (tx_one_char 1 10 (tx_one_char 1 10 (tx_one_char 1 10 h1))))
