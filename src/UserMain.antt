-- ===== src/UserMain.antt =====
-- The URL table of user/user_main.c with the handlers that it names, over the state of the whole
-- firmware, and `cgiMenu` of user/cgi.c.
pub mod Routes
pub mod InStep
pub mod Start
use ems_esp_link.Prelude.{
  ℕ, zero, suc, Bool, true, false, Option, none, some, List, [], ◌∷◌, ◌++◌, if◌then◌else◌, get_or,
}
use ems_esp_link.Prelude.Text.{Bytes, codes}
use ems_esp_link.CharRing.{CharRing}
use ems_esp_link.CgiFlash.{
  SpiFlash, Upload, cgi_get_firmware_next, cgi_upload_firmware, cgi_reboot_firmware,
}
use ems_esp_link.Config
use ems_esp_link.Config.{FlashConfig, Spi}
use ems_esp_link.Console.{ajax_console, ajax_console_baud, ajax_console_reset}
use ems_esp_link.EspFs.{Memory}
use ems_esp_link.Httpd.Conn.{Conn, Code, done}
use ems_esp_link.Httpd.Dispatch.{BuiltInUrl, Handlers}
use ems_esp_link.Httpd.Files.{FileWorld, cgi_espfs_hook, is_null}
use ems_esp_link.Httpd.Send.{send, start_response, header, end_headers, cgi_redirect}
use ems_esp_link.Log.{Log, ajax_log, ajax_log_dbg}
use ems_esp_link.Wifi.{Wifi, Timer, Callback}
use ems_esp_link.Wifi.Info.{Report, cgi_wifi_conn_status, cgi_wifi_info}
use ems_esp_link.Wifi.Scan.{ScanResultData, cgi_wifi_scan}
use ems_esp_link.Wifi.Settings.{
  Call, config_save, set_opmode, Setup, cgi_wifi_connect, cgi_wifi_ems_setting, cgi_wifi_set_mode,
  cgi_wifi_special,
}

-- What is not in the repository, as the parts of the firmware take it, and what they read of it while
-- a handler runs.
pub record Outside (F : Type 0) : Type 0 where
  pub spi : Spi F
  pub spi_flash : SpiFlash F
  pub chksum : FlashConfig → ℕ
  pub firmware_size : ℕ
  pub userbin : ℕ
  pub uart_clk_freq : ℕ
  pub garbage : Bytes → Bytes
  pub behind : Bytes → Bytes
  pub beyond : Bytes
  pub nil : Bytes
  pub past : ℕ → Bytes
  pub esp_link_version : Bytes
  pub httpd_version : Bytes
  pub memory : Memory
  pub rounds : ℕ
  pub now : ℕ
  pub report : Report

-- The state that the handlers share. `calls` and `timers` are what the WiFi pages did to the SDK,
-- `divider` what `uart0_baud` set last. `flash` leaves out the sectors in which the SDK keeps its own
-- parameters, and `saved_opmode` is the mode there, which `wifi_set_opmode` saves. `hung` is set when a search of the file system has not ended
-- within `rounds`.
pub record Firmware (F : Type 0) : Type 0 where
  pub config : FlashConfig
  pub flash : F
  pub saved_opmode : ℕ
  pub console : CharRing
  pub log : Log
  pub wifi : Wifi
  pub scan : ScanResultData
  pub ssid : Bytes
  pub password : Bytes
  pub calls : List Call
  pub timers : List (Timer × Callback × ℕ)
  pub divider : Option ℕ
  pub cgi_priv_data : Bool
  pub rebooting : Bool
  pub files : FileWorld
  pub esp_fs_data : Option ℕ
  pub hung : Bool

-- `cgiMenu`, with `esp_link_version`
unfoldable pub cgi_menu : Bytes → Conn → Code × Conn
cgi_menu version c =
    let c1 =
      header (start_response c 200) (codes "Cache-Control")
        (codes "max-age=600, must-revalidate") in
    let c2 = end_headers (header c1 (codes "Content-Type") (codes "application/json")) in
    let text =
      codes
        "{\"menu\": [\"Home\", \"/home.html\",\"Wifi\", \"/wifi/wifi.html\",\"EMS Console\", \"/emsconsole.html\",\"EMS Debug Log\", \"/console.html\",\"Debug log\", \"/log.html\" ],\n \"version\": \""
      ++ (version ++ codes "\" }") in
    if is_null c.conn then (done, c) else (done, (send c2 text).1)

-- The functions of the table.
pub data Cgi : Type 0 where
  redirect menu firmware_next upload_firmware reboot_firmware log_text log_dbg console_reset : Cgi
  console_baud console_text wifi_info wifi_scan wifi_connect wifi_conn_status wifi_set_mode : Cgi
  wifi_special wifi_ems_setting espfs_hook : Cgi

-- A number of the table as a function, and the text that a `cgiArg` points to.
abbrev pub cgis : List Cgi
cgis =
    redirect ∷ menu ∷ firmware_next ∷ upload_firmware ∷ reboot_firmware ∷ log_text ∷ log_dbg
    ∷ console_reset ∷ console_baud ∷ console_text ∷ wifi_info ∷ wifi_scan ∷ wifi_connect
    ∷ wifi_conn_status ∷ wifi_set_mode ∷ wifi_special ∷ wifi_ems_setting ∷ espfs_hook ∷ []

abbrev pub arg_text : ℕ → Bytes
arg_text n = get_or ([] ∷ codes "/home.html" ∷ codes "/wifi/wifi.html" ∷ []) n []

abbrev pub row : Bytes → ℕ → ℕ → BuiltInUrl
row u cb arg = record { url = u; cgi_cb = cb; cgi_arg = arg }

-- `builtInUrls`, without the row that ends it.
abbrev pub built_in_urls : List BuiltInUrl
built_in_urls =
    row (codes "/") 0 1
    ∷ row (codes "/menu") 1 0
    ∷ row (codes "/flash/next") 2 0
    ∷ row (codes "/flash/upload") 3 0
    ∷ row (codes "/flash/reboot") 4 0
    ∷ row (codes "/log/text") 5 0
    ∷ row (codes "/log/dbg") 6 0
    ∷ row (codes "/console/reset") 7 0
    ∷ row (codes "/console/baud") 8 0
    ∷ row (codes "/console/text") 9 0
    ∷ row (codes "/wifi") 0 2
    ∷ row (codes "/wifi/") 0 2
    ∷ row (codes "/wifi/info") 10 0
    ∷ row (codes "/wifi/scan") 11 0
    ∷ row (codes "/wifi/connect") 12 0
    ∷ row (codes "/wifi/connstatus") 13 0
    ∷ row (codes "/wifi/setmode") 14 0
    ∷ row (codes "/wifi/special") 15 0
    ∷ row (codes "/wifi/emssettings") 16 0
    ∷ row (codes "*") 17 0
    ∷ []

module _ {F : Type 0} (e : Outside F) where
  -- The flash after the calls of a WiFi page, but for the sectors of the SDK: `configSave` is one of them.
  unfoldable pub perform : List Call → F → F
  perform [] f = f
  perform (config_save cfg ∷ calls) f =
      perform calls (Config.config_save e.spi e.chksum e.firmware_size cfg f).1
  perform (_ ∷ calls) f = perform calls f

  -- The mode that the SDK keeps in its sectors, after these calls.
  unfoldable pub save_opmode : List Call → ℕ → ℕ
  save_opmode [] m = m
  save_opmode (set_opmode mode ∷ calls) m = save_opmode calls mode
  save_opmode (_ ∷ calls) m = save_opmode calls m

  abbrev pub setup_of : Firmware F → Setup
  setup_of w = record { config = w.config; ssid = w.ssid; password = w.password; calls = [] }

  abbrev pub put_setup : Setup → Firmware F → Firmware F
  put_setup s w = record w {
    config = s.config;
    ssid = s.ssid;
    password = s.password;
    calls = w.calls ++ s.calls;
    flash = perform s.calls w.flash;
    saved_opmode = save_opmode s.calls w.saved_opmode;
  }

  abbrev pub upload_of : Firmware F → Upload F
  upload_of w = record { cgi_priv_data = w.cgi_priv_data; flash = w.flash; rebooting = w.rebooting }

  abbrev pub put_upload : Upload F → Firmware F → Firmware F
  put_upload u w = record w {
    cgi_priv_data = u.cgi_priv_data;
    flash = u.flash;
    rebooting = u.rebooting;
  }

  -- What a page that only reads the state leaves.
  abbrev pub answered : Firmware F → Code × Conn → Code × Firmware F × Conn
  answered w (r, c) = (r, w, c)

  abbrev pub set_up : Firmware F → Code × Setup × Conn → Code × Firmware F × Conn
  set_up w (r, s, c) = (r, put_setup s w, c)

  abbrev pub uploaded : Firmware F → Code × Upload F × Conn → Code × Firmware F × Conn
  uploaded w (r, u, c) = (r, put_upload u w, c)

  abbrev pub scanned :
      Firmware F
      → Code × ScanResultData × List (Timer × Callback × ℕ) × Conn
      → Code × Firmware F × Conn
  scanned w (r, s, ts, c) = (r, record w { scan = s; timers = w.timers ++ ts }, c)

  abbrev pub served :
      Firmware F → Conn → Option (Code × FileWorld × Conn) → Code × Firmware F × Conn
  served w c none = (done, record w { hung = true }, c)
  served w c (some (r, fs, c')) = (r, record w { files = fs }, c')

  -- The call of a handler.
  unfoldable pub call : Cgi → Firmware F → Conn → Code × Firmware F × Conn
  call redirect w c = answered w (cgi_redirect (arg_text c.cgi_arg) c)
  call menu w c = answered w (cgi_menu e.esp_link_version c)
  call firmware_next w c =
      answered w (cgi_get_firmware_next e.spi_flash e.firmware_size e.userbin c)
  call upload_firmware w c =
      uploaded w (cgi_upload_firmware e.spi_flash e.firmware_size e.userbin (upload_of w) c)
  call reboot_firmware w c =
      uploaded w (cgi_reboot_firmware e.spi_flash e.firmware_size e.userbin (upload_of w) c)
  call log_text w c = answered w (ajax_log w.log c)
  call log_dbg w c =
      let (r, c', cfg, f, l) =
        ajax_log_dbg e.spi e.chksum e.firmware_size e.now w.config w.flash w.log c in
      (r, record w { config = cfg; flash = f; log = l }, c')
  call console_reset w c =
      let (r, c', ring) = ajax_console_reset w.console c in (r, record w { console = ring }, c')
  call console_baud w c =
      let (r, c', cfg, f, d) =
        ajax_console_baud e.spi e.chksum e.firmware_size e.uart_clk_freq w.config w.flash c in
      (r, record w { config = cfg; flash = f; divider = if is_null d then w.divider else d }, c')
  call console_text w c = answered w (ajax_console w.console c)
  call wifi_info w c = answered w (cgi_wifi_info e.nil e.past w.config e.report c)
  call wifi_scan w c = scanned w (cgi_wifi_scan e.beyond w.scan c)
  call wifi_connect w c = set_up w (cgi_wifi_connect e.garbage e.behind (setup_of w) c)
  call wifi_conn_status w c =
      answered w (cgi_wifi_conn_status e.nil e.past w.config w.wifi e.report c)
  call wifi_set_mode w c = set_up w (cgi_wifi_set_mode e.garbage e.behind (setup_of w) c)
  call wifi_special w c = set_up w (cgi_wifi_special e.garbage e.behind (setup_of w) c)
  call wifi_ems_setting w c = set_up w (cgi_wifi_ems_setting e.garbage e.behind (setup_of w) c)
  call espfs_hook w c =
      served w c (cgi_espfs_hook e.httpd_version e.memory w.esp_fs_data e.rounds w.files c)

  -- The handlers by their numbers.
  abbrev pub handlers : Handlers (Firmware F)
  handlers k w c = call (get_or cgis k espfs_hook) w c

-- `myPassFn`, the users for `authBasic` by their numbers.
unfoldable pub my_pass_fn : ℕ → Option (Bytes × Bytes)
my_pass_fn zero = some (codes "admin", codes "s3cr3t")
my_pass_fn (suc n) = none
