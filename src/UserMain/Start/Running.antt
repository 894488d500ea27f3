-- ===== src/UserMain/Start/Running.antt =====
-- The device after the start: the first telegram, and requests until a restart.
use ems_esp_link.Prelude.{
  ◌+◌, ◌%◌, ◌^◌, ◌≤◌, ◌≡◌, refl, ap, ◌∙◌, true, false, none, some, List, [], ◌∷◌, ◌++◌, All, arith,
  length,
}
use ems_esp_link.Prelude.Text.{Bytes, str_eq}
use ems_esp_link.Config.{FlashConfig, config_save, config_restore}
use ems_esp_link.Config.RoundTrip.{FlashLaws, config_restore-IsCurrent}
use ems_esp_link.Httpd.Conn.{Conn}
use ems_esp_link.Httpd.Dispatch.{process_request}
use ems_esp_link.SerBridge.Telegram.{EmsRxBuf}
use ems_esp_link.Uart.{Irq, rx_intr_handler, recv_task, hand_on, header_size, ems_init, add_recv_cb}
use ems_esp_link.Uart.Framing.{
  interrupts, received, first_of, IsData, framed, recv_task-rx_intr_handler,
}
use ems_esp_link.Wifi.Settings.{wifi_init, config_wifi}
use ems_esp_link.UserMain.{Outside, Firmware, built_in_urls, handlers, perform}
use ems_esp_link.UserMain.InStep.{
  Unchanged, Unchanged-InStep, InStep, upload_url, process_request-InStep,
}
use ems_esp_link.UserMain.Start.{
  Device, Boot, restore_config, init_log, init_wifi, init_files, run, user_init, user_init_among,
  user_init_among-user_init,
}

module _ {F : Type 0} (e : Outside F) where
  -- What the buffer of the first telegram holds when it is handed to a callback.
  abbrev pub first_telegram : Boot → List Irq → Irq → EmsRxBuf
  first_telegram b qs z = framed (first_of qs z) (received qs ++ z.fifo) (b.bufs 0).buffer

  -- Whatever interrupts came during the start: when the first interrupts after it bring at most 126
  -- characters in any portions, and the last of them ends with a break, then the task hands the telegram,
  -- with its times, its trailer and its length, to `serbridgeUartCb` and to nothing else. At power-up the EMS part
  -- is not initialised and there are no callbacks.
  pub recv_task-user_init :
      (b : Boot) (irqs : List (List Irq)) (d : Device F) (qs : List Irq) (z : Irq)
      → d.uart.ems_init_done ≡ false
      → d.uart.uart_recv_cb ≡ none ∷ none ∷ none ∷ none ∷ []
      → All IsData qs
      → z.pending ≡ true
      → z.brk ≡ true
      → length (received qs) + length z.fifo ≤ 126
      → (recv_task (rx_intr_handler z (interrupts (user_init_among e b irqs d).uart qs)).0).1
        ≡ (
          b.bridge_cb,
          first_telegram b qs z,
          ((first_telegram b qs z).write_ptr + header_size) % 2 ^ 32,
        )
          ∷ []
  unfolding user_init run ems_init add_recv_cb hand_on
  recv_task-user_init b irqs d qs z deaf vacant parts pending brk le =
      let after = user_init e b d in
      ap (λ (x : Device F). (recv_task (rx_intr_handler z (interrupts x.uart qs)).0).1)
        (user_init_among-user_init e b irqs d deaf)
      ∙ (recv_task-rx_intr_handler after.uart qs z refl refl parts pending brk le
          ∙ ap (λ cbs. hand_on (add_recv_cb b.bridge_cb cbs) (first_telegram b qs z)) vacant)

  -- Requests one after the other.
  unfoldable pub requests : List Conn → Firmware F → Firmware F
  requests [] w = w
  requests (c ∷ cs) w = requests cs (process_request (handlers e) built_in_urls w c).1

  -- A request with a URL that is not that of the upload.
  abbrev pub IsPage : Conn → Type 0
  IsPage c = (u : Bytes) × (c.url ≡ some u) × (str_eq upload_url u ≡ false)

  requests-InStep :
      (laws : FlashLaws e.spi) (cs : List Conn) (w : Firmware F)
      → ((cfg : FlashConfig) (f : F) → (config_save e.spi e.chksum e.firmware_size cfg f).0 ≡ true)
      → All IsPage cs
      → InStep e w
      → InStep e (requests cs w)
  unfolding requests
  requests-InStep laws [] w works p i = i
  requests-InStep laws (c ∷ cs) w works p i =
      requests-InStep laws cs _ works p.1
        (process_request-InStep e laws w c p.0.0 works p.0.1 p.0.2 i)

  init_wifi-Unchanged : (b : Boot) (w : Firmware F) → Unchanged e w (init_wifi e b w)
  unfolding Unchanged init_wifi perform wifi_init config_wifi
  init_wifi-Unchanged b w = ground arith

  user_init-InStep :
      (b : Boot) (d : Device F)
      → (config_restore e.spi e.chksum e.firmware_size d.firmware.flash).0 ≡ true
      → InStep e (user_init e b d).firmware
  unfolding user_init run InStep Unchanged restore_config init_log init_files
  user_init-InStep b d ok =
      let restored = config_restore e.spi e.chksum e.firmware_size d.firmware.flash in
      let w : Firmware F = init_log e b (restore_config e b d.firmware) in
      let k = init_wifi-Unchanged b w in
      Unchanged-InStep e w (init_files e b (init_wifi e b w)) (k.0, k.1)
        (
          config_restore-IsCurrent e.spi e.chksum e.firmware_size d.firmware.flash,
          ap (λ x. (x, restored.1)) ok,
        )

  -- A restart after any requests: the flash keeps to its documented behaviour and does not fail, and held a good
  -- configuration when the device was started. Then after any requests, none of them for the upload,
  -- a restart gives back the configuration in use.
  pub requests-user_init :
      (laws : FlashLaws e.spi) (b : Boot) (d : Device F) (cs : List Conn)
      → ((cfg : FlashConfig) (f : F) → (config_save e.spi e.chksum e.firmware_size cfg f).0 ≡ true)
      → (config_restore e.spi e.chksum e.firmware_size d.firmware.flash).0 ≡ true
      → All IsPage cs
      → config_restore e.spi e.chksum e.firmware_size (requests cs (user_init e b d).firmware).flash
        ≡ (true, (requests cs (user_init e b d).firmware).config)
  unfolding InStep
  requests-user_init laws b d cs works ok p =
      (requests-InStep laws cs (user_init e b d).firmware works p (user_init-InStep b d ok)).1
