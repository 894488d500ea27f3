-- ===== src/UserMain/Start.antt =====
-- `user_init` of user/user_main.c, step by step, with the interrupts of the UART that come in between.
pub mod Running
use ems_esp_link.Prelude.{
  ℕ, zero, suc, ◌+◌, ◌≡◌, refl, sym, ap, subst, ◌∙◌, Bool, true, false, Option, none, some, List,
  [], ◌∷◌, ◌++◌, All, arith,
}
use ems_esp_link.Config.{config_restore}
use ems_esp_link.EspFs.{espfs_init}
use ems_esp_link.Httpd.Conn.{Conn}
use ems_esp_link.Httpd.Pool as HttpPool
use ems_esp_link.Log.{log_init}
use ems_esp_link.SerBridge.Pool as BridgePool
use ems_esp_link.SerBridge.Pool.{Bridge}
use ems_esp_link.SerBridge.Telegram.{EmsRxBuf}
use ems_esp_link.Uart.{Uart, Irq, rx_intr_handler, ems_init, add_recv_cb}
use ems_esp_link.Uart.Framing.{interrupts}
use ems_esp_link.Wifi.Settings.{Setup, wifi_init}
use ems_esp_link.UserMain.{Outside, Firmware, setup_of, put_setup}

-- The state of the whole device.
pub record Device (F : Type 0) : Type 0 where
  pub firmware : Firmware F
  pub uart : Uart
  pub http : List Conn
  pub bridge : Bridge

-- `bufs` are the buffers that os_malloc gives, `dhcp` is whether the DHCP client runs, `img` is the address
-- of the file system, and `bridge_cb` is the number of `serbridgeUartCb`.
pub record Boot : Type 0 where
  pub bufs : ℕ → EmsRxBuf
  pub dhcp : Bool
  pub img : ℕ
  pub bridge_cb : ℕ

module _ {F : Type 0} (e : Outside F) (b : Boot) where
  abbrev pub on_firmware : (Firmware F → Firmware F) → Device F → Device F
  on_firmware f d = record d { firmware = f d.firmware }

  abbrev pub on_uart : (Uart → Uart) → Device F → Device F
  on_uart f d = record d { uart = f d.uart }

  -- The calls of `user_init` that change the state; `emsInit` calls `emsSNTPReInit`, which only calls the
  -- time service, and `uart_init` and `statusInit` change registers or nothing.
  unfoldable pub restore_config : Firmware F → Firmware F
  restore_config w = record w { config = (config_restore e.spi e.chksum e.firmware_size w.flash).1 }

  unfoldable pub init_log : Firmware F → Firmware F
  init_log w = record w { log = log_init w.config w.log }

  unfoldable pub init_wifi : Firmware F → Firmware F
  init_wifi w = put_setup e (wifi_init b.dhcp (setup_of e w)) w

  unfoldable pub init_files : Firmware F → Firmware F
  init_files w = record w { esp_fs_data = (espfs_init e.memory b.img w.esp_fs_data).1 }

  abbrev pub steps : List (Device F → Device F)
  steps =
      on_firmware restore_config
      ∷ on_uart (ems_init b.bufs)
      ∷ on_firmware init_log
      ∷ on_firmware init_wifi
      ∷ on_firmware init_files
      ∷ (λ d. record d { http = HttpPool.clear_each d.http })
      ∷ (λ d. record d {
        bridge = record d.bridge { conn_data = BridgePool.clear_each d.bridge.conn_data };
      })
      ∷ on_uart (λ u. record u { uart_recv_cb = add_recv_cb b.bridge_cb u.uart_recv_cb })
      ∷ []

  -- The last line of `user_init`.
  abbrev pub init_done : Device F → Device F
  init_done = on_uart (λ u. record u { ems_init_done = true })

  unfoldable pub run : List (Device F → Device F) → Device F → Device F
  run [] d = d
  run (f ∷ fs) d = run fs (f d)

  -- `user_init`
  unfoldable pub user_init : Device F → Device F
  unfolding run
  user_init d = init_done (run steps d)

  -- The same with interrupts before each step, and the last of them before the end.
  unfoldable pub run_among : List (Device F → Device F) → List (List Irq) → Device F → Device F
  run_among [] [] d = d
  run_among [] (qs ∷ more) d = on_uart (λ u. interrupts u qs) d
  run_among (f ∷ fs) [] d = run_among fs [] (f d)
  run_among (f ∷ fs) (qs ∷ more) d = run_among fs more (f (on_uart (λ u. interrupts u qs) d))

  unfoldable pub user_init_among : List (List Irq) → Device F → Device F
  unfolding run_among
  user_init_among irqs d = init_done (run_among steps irqs d)

  -- The EMS part does not take interrupts yet.
  abbrev IsDeaf : Device F → Type 0
  IsDeaf d = d.uart.ems_init_done ≡ false

  interrupts_lem : (u : Uart) (qs : List Irq) → u.ems_init_done ≡ false → interrupts u qs ≡ u
  unfolding interrupts rx_intr_handler
  interrupts_lem u [] h = refl
  interrupts_lem u (q ∷ qs) h =
      let same : (rx_intr_handler q u).0 ≡ u = ground (arith, h) in
      ap (λ v. interrupts v qs) same ∙ interrupts_lem u qs h

  run_among-run :
      (fs : List (Device F → Device F)) (irqs : List (List Irq)) (d : Device F)
      → All (λ f. (x : Device F) → IsDeaf x → IsDeaf (f x)) fs
      → IsDeaf d
      → run_among fs irqs d ≡ run fs d
  unfolding run run_among
  run_among-run [] [] d k h = refl
  run_among-run [] (qs ∷ more) d k h = ap (λ u. record d { uart = u }) (interrupts_lem d.uart qs h)
  run_among-run (f ∷ fs) [] d k h = run_among-run fs [] (f d) k.1 (k.0 d h)
  run_among-run (f ∷ fs) (qs ∷ more) d k h =
      ap (λ u. run_among fs more (f (record d { uart = u }))) (interrupts_lem d.uart qs h)
      ∙ run_among-run fs more (f d) k.1 (k.0 d h)

  -- Whatever interrupts the UART raises during the start, they are discarded: the state afterwards is
  -- that of a start without any. Before it the EMS part is not initialised.
  pub user_init_among-user_init :
      (irqs : List (List Irq)) (d : Device F)
      → d.uart.ems_init_done ≡ false
      → user_init_among irqs d ≡ user_init d
  unfolding user_init user_init_among ems_init
  user_init_among-user_init irqs d h = ap init_done (
      run_among-run steps irqs d
        (
          (λ x k. k),
          (
            (λ x k. k),
            ((λ x k. k), ((λ x k. k), ((λ x k. k), ((λ x k. k), ((λ x k. k), ((λ x k. k), tt)))))),
          ),
        )
        h)
