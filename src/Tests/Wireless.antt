-- ===== src/Tests/Wireless.antt =====
-- The WiFi pages at concrete inputs.
use ems_esp_link.Prelude.{
  ℕ, ◌+◌, ◌-◌, ◌^◌, ◌<◌, ◌≡◌, refl, true, false, none, some, List, [], ◌∷◌, ◌++◌, length, arith,
}
use ems_esp_link.Prelude.Text.{Bytes, codes, decimal, decimal_fuel}
use ems_esp_link.Config.{flash_default}
use ems_esp_link.Httpd.Conn.{Conn, get}
use ems_esp_link.Httpd.Decode.{decode_from, hex_val, url_decode}
use ems_esp_link.Httpd.Args.{find_from, find_arg}
use ems_esp_link.Httpd.Pool.{vacant}
use ems_esp_link.Httpd.Send.Json.{json_head}
use ems_esp_link.Wifi.Info.{
  Report, conn_status_json, cgi_wifi_conn_status, wifi_info_json, cgi_wifi_info,
}
use ems_esp_link.Wifi.Info.Fits.{IsFitting, cgi_wifi_conn_status-conn_status_json}
use ems_esp_link.Wifi.{
  Wifi, wifi_is_disconnected, wifi_is_connected, wifi_get_reason, stamode_disconnected,
  wifi_handle_event_cb,
}
use ems_esp_link.Wifi.Address.{parse_from, parse_ip}
use ems_esp_link.Wifi.Scan.{
  BssInfo, ScanResultData, IsPlain, wifi_scan_done_cb, scan_json, cgi_wifi_get_scan,
  cgi_wifi_get_scan-wifi_scan_done_cb,
}
use ems_esp_link.Wifi.Settings.{
  Setup, found_arg, split_port, put_collectord, config_wifi, cgi_wifi_ems_setting, cgi_wifi_special,
}
use ems_esp_link.Wifi.Settings.Collector.{IsHost, IsSaved, cgi_wifi_ems_setting-int_of_short}
use ems_esp_link.Wifi.Settings.Static.{static_calls, config_wifi-cgi_wifi_special}

three_parts : parse_ip (codes "192.168.1") ≡ none
unfolding parse_ip parse_from
three_parts = refl

-- The reason 200 shows the text of 24, and 24 is the last that is shown by its own number.
beacon_reason :
    wifi_get_reason (
      wifi_handle_event_cb
        (stamode_disconnected 200)
        (record { wifi_state = wifi_is_connected; wifi_reason = 0 }))
    ≡ codes "beacon_timeout"
unfolding wifi_get_reason wifi_handle_event_cb
beacon_reason = refl

split_example : (split_port (codes "collectord:7950") flash_default).collectord ≡ codes "collectord"
unfolding split_port put_collectord
split_example = refl

abbrev stack_text : Bytes → Bytes
stack_text name = []

abbrev two_found : List BssInfo
two_found =
    record { ssid = codes "home" ++ (0 ∷ []); rssi = 2 ^ 32 - 70; authmode = 3 }
    ∷ record { ssid = codes "guest" ++ (0 ∷ []); rssi = 2 ^ 32 - 8; authmode = 0 }
    ∷ []

abbrev scan_before : ScanResultData
scan_before = record { scan_in_progress = true; ap_data = [] }

abbrev page_request : Conn
page_request = record vacant { conn = some 1; request_type = get }

cgi_wifi_get_scan-wifi_scan_done_cb_example :
    (length (scan_json [] (wifi_scan_done_cb true two_found scan_before)) < 2048)
    × ((cgi_wifi_get_scan []
          (wifi_scan_done_cb true two_found scan_before)
          page_request).1.send_buff
        ≡ json_head ++ scan_json [] (wifi_scan_done_cb true two_found scan_before))
unfolding IsPlain decimal decimal_fuel
cgi_wifi_get_scan-wifi_scan_done_cb_example =
    cgi_wifi_get_scan-wifi_scan_done_cb [] two_found scan_before page_request (omega arith)
      ((omega arith, omega arith, omega arith), ((omega arith, omega arith, omega arith), tt)) refl
      refl

abbrev special_request : Conn
special_request = record page_request {
  get_args =
      some (
        codes "dhcp=off&hostname=&staticip=192.168.1.10&netmask=255.255.255.0&gateway=192.168.1.1");
}

abbrev setup_before : Setup
setup_before = record { config = flash_default; ssid = []; password = []; calls = [] }

config_wifi-cgi_wifi_special_example :
    (config_wifi false
      (cgi_wifi_special stack_text stack_text setup_before special_request).1).calls
    ≡ static_calls
        (record flash_default { staticip = 0x0a01a8c0; netmask = 0x00ffffff; gateway = 0x0101a8c0 })
unfolding found_arg find_arg find_from decode_from url_decode decimal decimal_fuel
config_wifi-cgi_wifi_special_example =
    config_wifi-cgi_wifi_special stack_text stack_text setup_before special_request 0x0a01a8c0
      0x00ffffff 0x0101a8c0 false refl (omega arith, omega arith) refl refl
      (omega arith, omega arith) refl (omega arith, omega arith) refl (omega arith, omega arith)
      refl (omega arith) (omega arith) (omega arith) (omega arith)

abbrev report : Report
report = record {
  ssid = codes "home";
  opmode = 1;
  connect_status = 5;
  phy_mode = 3;
  rssi = 2 ^ 32 - 61;
  mac = λ i. 0x50 + i;
  channel = 11;
  ip_info = some (0x0a01a8c0, 0x00ffffff, 0x0101a8c0);
}

abbrev lost : Wifi
lost = record { wifi_state = wifi_is_disconnected; wifi_reason = 201 }

abbrev nothing_past : ℕ → Bytes
nothing_past i = []

cgi_wifi_conn_status-conn_status_json_example :
    (length (conn_status_json (codes "(null)") nothing_past flash_default lost report) < 1024)
    × ((cgi_wifi_conn_status
          (codes "(null)")
          nothing_past
          flash_default
          lost
          report
          page_request).1.send_buff
        ≡ json_head ++ conn_status_json (codes "(null)") nothing_past flash_default lost report)
    × (length (wifi_info_json (codes "(null)") nothing_past flash_default report) < 1024)
    × ((cgi_wifi_info (codes "(null)") nothing_past flash_default report page_request).1.send_buff
        ≡ json_head ++ wifi_info_json (codes "(null)") nothing_past flash_default report)
unfolding IsFitting
cgi_wifi_conn_status-conn_status_json_example =
    cgi_wifi_conn_status-conn_status_json (codes "(null)") nothing_past flash_default lost report
      page_request (omega arith) (omega arith, omega arith, omega arith, omega arith, omega arith)
      refl refl

abbrev collector_request : Conn
collector_request = record page_request {
  get_args = some (codes "ntpserver=&timezone=2&collectord=em%3a8080");
}

cgi_wifi_ems_setting-int_of_short_example :
    IsSaved
      (codes "em")
      8080
      setup_before
      (cgi_wifi_ems_setting stack_text stack_text setup_before collector_request).1
unfolding IsHost found_arg find_arg find_from decode_from url_decode hex_val decimal decimal_fuel
cgi_wifi_ems_setting-int_of_short_example =
    cgi_wifi_ems_setting-int_of_short stack_text stack_text setup_before collector_request
      (codes "em") 8080 refl ((ground arith), ((ground arith), tt)) (omega arith) (omega arith)
      (ground arith) refl
