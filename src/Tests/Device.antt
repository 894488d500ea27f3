-- ===== src/Tests/Device.antt =====
-- The whole device at concrete inputs, on the flash of two sectors.
use ems_esp_link.Prelude.{◌≡◌, refl, true, false, none, some, List, [], ◌∷◌, arith, replicate}
use ems_esp_link.Prelude.Text.{Bytes, codes}
use ems_esp_link.Config.{
  config_save, config_restore, erase_primary, write_primary, erase_backup, select_flash, chosen,
  is_good, flash_default,
}
use ems_esp_link.CharRing.{CharRing}
use ems_esp_link.Httpd.Conn.{Conn, get}
use ems_esp_link.Httpd.Dispatch.{process_request}
use ems_esp_link.Httpd.Pool.{vacant}
use ems_esp_link.Uart.{rx_intr_handler, recv_task}
use ems_esp_link.Uart.Framing.{interrupts}
use ems_esp_link.Wifi.{wifi_is_connected}
use ems_esp_link.UserMain.{Outside, Firmware, built_in_urls, handlers}
use ems_esp_link.UserMain.Routes.{
  page_of, pages, catch_all, finish, call_row, process_request-page_of,
}
use ems_esp_link.UserMain.InStep.Pages.{Untouched, process_request-Untouched}
use ems_esp_link.UserMain.Start.{Device, Boot, user_init, user_init_among}
use ems_esp_link.UserMain.Start.Running.{
  first_telegram, recv_task-user_init, requests, requests-user_init,
}
use ems_esp_link.Tests.Settings.{Flash, spi, laws, chksum, firmware_size, saved}
use ems_esp_link.Tests.Uart.{fresh, waiting, portion, ending}

abbrev outside : Outside Flash
outside = record {
  spi = spi;
  spi_flash = record { erase_sector = λ s f. f; write = λ a s f. f; read = λ a n f. [] };
  chksum = chksum;
  firmware_size = firmware_size;
  userbin = 1;
  uart_clk_freq = 80000000;
  garbage = λ name. [];
  behind = λ name. [];
  beyond = [];
  nil = codes "(null)";
  past = λ i. [];
  esp_link_version = codes "2.1";
  httpd_version = codes "0.3";
  memory = λ a. 0;
  rounds = 8;
  now = 5000000;
  report = record {
    ssid = codes "home";
    opmode = 1;
    connect_status = 5;
    phy_mode = 3;
    rssi = 0;
    mac = λ i. i;
    channel = 11;
    ip_info = none;
  };
}

abbrev ring : CharRing
ring = record { buf = replicate 1024 0; wr = 0; rd = 0; pos = 0 }

abbrev firmware : Firmware Flash
firmware = record {
  config = flash_default;
  flash = saved;
  saved_opmode = 3;
  console = ring;
  log = record { ring = ring; no_uart = false; newline = false; uart = [] };
  wifi = record { wifi_state = wifi_is_connected; wifi_reason = 0 };
  scan = record { scan_in_progress = false; ap_data = [] };
  ssid = [];
  password = [];
  calls = [];
  timers = [];
  divider = none;
  cgi_priv_data = false;
  rebooting = false;
  files = record { files = λ k. none; given = some 9; stack = []; wire = [] };
  esp_fs_data = none;
  hung = false;
}

abbrev page : Bytes → Bytes → Conn
page u args = record vacant {
  conn = some 1;
  request_type = get;
  url = some u;
  get_args = some args;
}

process_request-page_of_example :
    process_request (handlers outside) built_in_urls firmware (page (codes "/wifi/scan") [])
    ≡ finish outside (
        call_row outside
          (page_of pages (codes "/wifi/scan") catch_all)
          firmware
          (page (codes "/wifi/scan") []))
process_request-page_of_example =
    process_request-page_of outside firmware (page (codes "/wifi/scan") []) (codes "/wifi/scan")
      refl

process_request-Untouched_example :
    Untouched outside
      (codes "/wifi/setmode")
      firmware
      (process_request
        (handlers outside)
        built_in_urls
        firmware
        (page (codes "/wifi/setmode") (codes "mode=1"))).1
process_request-Untouched_example =
    process_request-Untouched outside firmware (page (codes "/wifi/setmode") (codes "mode=1"))
      (codes "/wifi/setmode") refl (refl, (refl, (refl, (refl, (refl, tt)))))

abbrev device : Device Flash
device = record {
  firmware = firmware;
  uart = record waiting { ems_init_done = false; uart_recv_cb = none ∷ none ∷ none ∷ none ∷ [] };
  http = vacant ∷ [];
  bridge = record { conn_data = []; reverse = λ h. none };
}

abbrev boot : Boot
boot = record { bufs = λ k. fresh; dhcp = false; img = 0; bridge_cb = 7 }

recv_task-user_init_example :
    (recv_task
      (rx_intr_handler ending (
        interrupts
          (user_init_among outside boot ((ending ∷ []) ∷ (portion ∷ []) ∷ []) device).uart
          (portion ∷ []))).0).1
    ≡ (7, first_telegram outside boot (portion ∷ []) ending, 15) ∷ []
recv_task-user_init_example =
    recv_task-user_init outside boot ((ending ∷ []) ∷ (portion ∷ []) ∷ []) device (portion ∷ [])
      ending refl refl ((refl, refl), tt) refl refl (omega arith)

abbrev settings : List Conn
settings =
    page (codes "/console/baud") (codes "rate=19200")
    ∷ page (codes "/wifi/emssettings") (codes "ntpserver=&timezone=1&collectord=em%3a8080")
    ∷ page (codes "/log/dbg") (codes "mode=off")
    ∷ []

requests-user_init_example :
    config_restore spi chksum firmware_size
      (requests outside settings (user_init outside boot device).firmware).flash
    ≡ (true, (requests outside settings (user_init outside boot device).firmware).config)
requests-user_init_example =
    requests-user_init outside laws boot device settings
      (λ cfg f. unfold config_save erase_primary write_primary erase_backup in refl)
      (unfold config_restore select_flash chosen is_good in refl)
      (
        (codes "/console/baud", refl, refl),
        ((codes "/wifi/emssettings", refl, refl), ((codes "/log/dbg", refl, refl), tt)),
      )
