-- ===== src/Wifi/Info.antt =====
-- The pages that show the state of the WiFi: printWifiInfo, cgiWiFiConnStatus and cgiWifiInfo of
-- user/cgiwifi.c.
pub mod Fits
use ems_esp_link.Prelude.{
  ℕ, zero, suc, ◌+◌, ◌-◌, ◌*◌, ◌/◌, ◌%◌, ◌^◌, ◌<◌, ◌≤◌, ◌≡◌, refl, ap, Bool, true, false, not, ◌&&◌,
  Option, none, some, List, [], ◌∷◌, ◌++◌, ltb, ◌==◌, if◌then◌else◌, if_lem, length, get_or, arith,
  All, length-append,
}
use ems_esp_link.Prelude.Text.{Bytes, codes, decimal, length-decimal, hex_digit}
use ems_esp_link.Prelude.Words.{slt}
use ems_esp_link.Config.{FlashConfig}
use ems_esp_link.Httpd.Conn.{Conn, Code, done}
use ems_esp_link.Httpd.Send.{send, json_header}
use ems_esp_link.Httpd.Send.Json.{json_head, send-json_header}
use ems_esp_link.Httpd.Files.{is_null}
use ems_esp_link.Wifi.{Wifi, wifi_reasons, wifi_get_reason}
use ems_esp_link.Wifi.Address.{dotted}

-- `wifiMode`, `wifiPhy` and `wifiWarn` behind their NULL, and `connStatuses`.
abbrev pub wifi_mode : List Bytes
wifi_mode = codes "STA" ∷ codes "AP" ∷ codes "AP+STA" ∷ []

abbrev pub wifi_phy : List Bytes
wifi_phy = codes "11b" ∷ codes "11g" ∷ codes "11n" ∷ []

abbrev pub wifi_warn : List Bytes
wifi_warn =
    codes "Switch to <a href=\\\"#\\\" onclick=\\\"changeWifiMode(3)\\\">STA+AP mode</a>"
    ∷ codes
        "<b>Can't scan in this mode!</b> Switch to <a href=\\\"#\\\" onclick=\\\"changeWifiMode(3)\\\">STA+AP mode</a>"
    ∷ codes "Switch to <a href=\\\"#\\\" onclick=\\\"changeWifiMode(1)\\\">STA mode</a>"
    ∷ []

abbrev pub conn_statuses : List Bytes
conn_statuses =
    codes "idle"
    ∷ codes "connecting"
    ∷ codes "wrong password"
    ∷ codes "AP not found"
    ∷ codes "failed"
    ∷ codes "got IP address"
    ∷ []

-- What the SDK reports: the C string of the SSID, the mode, the status, the kind of radio, `int`
-- patterns of the strength and the channel, the six bytes of the MAC address, and the addresses in use,
-- if it has them.
pub record Report : Type 0 where
  pub ssid : Bytes
  pub opmode : ℕ
  pub connect_status : ℕ
  pub phy_mode : ℕ
  pub rssi : ℕ
  pub mac : ℕ → ℕ
  pub channel : ℕ
  pub ip_info : Option (ℕ × ℕ × ℕ)

-- The pieces of a text, one after the other.
abbrev pub join : List Bytes → Bytes
join [] = []
join (s ∷ ss) = s ++ join ss

-- `%02x` for a byte
abbrev pub hex_byte : ℕ → Bytes
hex_byte b = hex_digit (b / 16 % 16) ∷ hex_digit (b % 16) ∷ []

-- An `int16_t` pattern as an `int` pattern.
abbrev pub int_of_short : ℕ → ℕ
int_of_short w = if ltb (w % 2 ^ 16) (2 ^ 15) then w % 2 ^ 16 else w % 2 ^ 16 + (2 ^ 32 - 2 ^ 16)

-- The reason of a failed connection, if there is one.
abbrev pub reason_text : Wifi → Bytes
reason_text w =
    if w.wifi_reason == 0
    then []
    else join (codes "\"reason\": \"" ∷ wifi_get_reason w ∷ codes "\", " ∷ [])

-- `nil` is what `%s` prints for NULL, and `past` the strings that the memory behind `connStatuses` is
-- taken for: its size in bytes is the bound of the index.
module _ (nil : Bytes) (past : ℕ → Bytes) where
  -- An entry of a table whose first one is NULL.
  abbrev pub entry_of : List Bytes → ℕ → Bytes
  entry_of table zero = nil
  entry_of table (suc i) = get_or table i nil

  abbrev pub status_text : ℕ → Bytes
  status_text st =
      if slt 0 st && ltb st 24 then get_or conn_statuses st (past st) else codes "unknown"

  abbrev pub address_info : FlashConfig → Option (ℕ × ℕ × ℕ) → List Bytes
  address_info cfg none = codes ", \"ip\": \"-none-\"" ∷ []
  address_info cfg (some (ip, netmask, gw)) =
      (codes ", \"ip\": \""
        ∷ dotted ip
        ∷ codes "\""
        ∷ codes ", \"netmask\": \""
        ∷ dotted netmask
        ∷ codes "\""
        ∷ codes ", \"gateway\": \""
        ∷ dotted gw
        ∷ codes "\""
        ∷ codes ", \"hostname\": \""
        ∷ cfg.hostname
        ∷ codes "\""
        ∷ [])

  -- The pieces of the first line that is printed, with CHANGE_TO_STA as in the Makefile.
  abbrev pub radio_info : Report → List Bytes
  radio_info r =
      (codes "\"mode\": \""
        ∷ entry_of wifi_mode (r.opmode % 4)
        ∷ codes "\", \"modechange\": \"yes\", \"ssid\": \""
        ∷ r.ssid
        ∷ codes "\", \"status\": \""
        ∷ status_text r.connect_status
        ∷ codes "\", \"phy\": \""
        ∷ entry_of wifi_phy (r.phy_mode % 4)
        ∷ codes "\", \"rssi\": \""
        ∷ decimal (if slt 0 r.rssi then 0 else r.rssi)
        ∷ codes "dB\", \"warn\": \""
        ∷ entry_of wifi_warn (r.opmode % 4)
        ∷ codes "\", \"mac\":\""
        ∷ hex_byte (r.mac 0)
        ∷ codes ":"
        ∷ hex_byte (r.mac 1)
        ∷ codes ":"
        ∷ hex_byte (r.mac 2)
        ∷ codes ":"
        ∷ hex_byte (r.mac 3)
        ∷ codes ":"
        ∷ hex_byte (r.mac 4)
        ∷ codes ":"
        ∷ hex_byte (r.mac 5)
        ∷ codes "\", \"chan\":"
        ∷ decimal r.channel
        ∷ [])

  abbrev pub config_info : FlashConfig → List Bytes
  config_info cfg =
      (codes ", \"staticip\": \""
        ∷ dotted cfg.staticip
        ∷ codes "\""
        ∷ codes ", \"dhcp\": \""
        ∷ (if ltb 0 cfg.staticip then codes "off" else codes "on")
        ∷ codes "\""
        ∷ codes ", \"ntpserver\": \""
        ∷ cfg.ntp_server
        ∷ codes "\""
        ∷ codes ", \"timezone\": \""
        ∷ decimal (int_of_short cfg.timezone)
        ∷ codes "\""
        ∷ codes ", \"collectord\": \""
        ∷ cfg.collectord
        ∷ codes ":"
        ∷ decimal (int_of_short cfg.collectord_port)
        ∷ codes "\""
        ∷ [])

  -- `printWifiInfo`
  unfoldable pub print_wifi_info : FlashConfig → Report → Bytes
  print_wifi_info cfg r =
      join (radio_info r) ++ (join (address_info cfg r.ip_info) ++ join (config_info cfg))

  -- The text of `cgiWiFiConnStatus`.
  unfoldable pub conn_status_json : FlashConfig → Wifi → Report → Bytes
  conn_status_json cfg w r =
      join
        (codes "{" ∷ print_wifi_info cfg r ∷ codes ", " ∷ reason_text w ∷ codes "\"x\":0}\n" ∷ [])

  -- `cgiWiFiConnStatus`
  unfoldable pub cgi_wifi_conn_status : FlashConfig → Wifi → Report → Conn → Code × Conn
  cgi_wifi_conn_status cfg w r c =
      if is_null c.conn
      then (done, c)
      else (done, (send (json_header c 200) (conn_status_json cfg w r)).1)

  -- The text of `cgiWifiInfo`.
  unfoldable pub wifi_info_json : FlashConfig → Report → Bytes
  wifi_info_json cfg r = codes "{" ++ (print_wifi_info cfg r ++ codes "}")

  -- `cgiWifiInfo`
  unfoldable pub cgi_wifi_info : FlashConfig → Report → Conn → Code × Conn
  cgi_wifi_info cfg r c =
      if is_null c.conn
      then (done, c)
      else (done, (send (json_header c 200) (wifi_info_json cfg r)).1)
