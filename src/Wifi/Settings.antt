-- ===== src/Wifi/Settings.antt =====
-- The settings of the WiFi and of the EMS link: the callbacks of the timers and the handlers of
-- user/cgiwifi.c that change something.
pub mod Static
pub mod Collector
pub mod Fields
use ems_esp_link.Prelude.{
  ℕ, zero, suc, ◌+◌, ◌-◌, ◌*◌, ◌/◌, ◌%◌, ◌^◌, get_or, Bool, true, false, not, ◌&&◌, ◌||◌, Option,
  none, some, List, [], ◌∷◌, ◌++◌, ltb, ◌==◌, if◌then◌else◌, length, take, drop,
}
use ems_esp_link.Prelude.Text.{Bytes, codes, c_string, str_eq, strstr, atoi}
use ems_esp_link.Prelude.Words.{slt}
use ems_esp_link.Config.{FlashConfig}
use ems_esp_link.Httpd.Decode.{Decoded}
use ems_esp_link.Httpd.Args.{Found, no_line, value, missing, find_arg}
use ems_esp_link.Httpd.Conn.{Conn, Code, done}
use ems_esp_link.Httpd.Send.{send, json_header}
use ems_esp_link.Httpd.Files.{is_null}
use ems_esp_link.Wifi.{
  Timer, reset_timer, reass_timer, Callback, reset_timer_cb, reass_timer_cb, config_wifi_ip,
}
use ems_esp_link.Wifi.Address.{parse_ip, dotted}

-- The calls that leave the file; `arm` sets a timer anew, and `arm_again` only starts it.
pub data Call : Type 0 where
  arm : Timer → Callback → ℕ → Call
  arm_again : Timer → ℕ → Call
  set_opmode : ℕ → Call
  set_sleep_type : Call
  log_uart : Bool → Call
  station_disconnect station_connect dhcpc_stop dhcpc_start : Call
  set_station_config : Bytes → Bytes → Call
  set_hostname : Bytes → Call
  set_ip_info : ℕ → ℕ → ℕ → Call
  config_save ems_sntp_re_init : FlashConfig → Call

-- `flashConfig`, the parts of `stconf` that are set, and the calls so far.
pub record Setup : Type 0 where
  pub config : FlashConfig
  pub ssid : Bytes
  pub password : Bytes
  pub calls : List Call

abbrev pub with_calls : Setup → List Call → Setup
with_calls w new = record w { calls = w.calls ++ new }

-- RESET_TIMEOUT
abbrev pub reset_timeout : ℕ
reset_timeout = 15000

-- `resetTimerCb`, with CHANGE_TO_STA as in the Makefile: whether the station has an address, and the mode.
unfoldable pub reset_timer_done : Bool → ℕ → Setup → Setup
reset_timer_done got_ip mode w =
    if got_ip
    then with_calls w (
        (if mode % 4 == 1
          then []
          else set_opmode 1 ∷ set_sleep_type ∷ arm_again reset_timer reset_timeout ∷ [])
        ++ (log_uart false ∷ []))
    else with_calls w (
        (if mode % 4 == 3 then [] else set_opmode 3 ∷ [])
        ++ (log_uart true ∷ arm_again reset_timer reset_timeout ∷ []))

-- `reassTimerCb`
unfoldable pub reass_timer_done : Setup → Setup
reass_timer_done w = with_calls w (
    station_disconnect
    ∷ set_station_config w.ssid w.password
    ∷ station_connect
    ∷ arm reset_timer reset_timer_cb reset_timeout
    ∷ [])

-- `configWifiIP`, with whether DHCP is started.
unfoldable pub config_wifi : Bool → Setup → Setup
config_wifi dhcp_started w =
    if w.config.staticip == 0
    then with_calls w (
        set_hostname w.config.hostname
        ∷ ((if dhcp_started then dhcpc_stop ∷ [] else []) ++ (dhcpc_start ∷ [])))
    else with_calls w
        (dhcpc_stop ∷ set_ip_info w.config.staticip w.config.netmask w.config.gateway ∷ [])

-- `wifiInit`, behind the call that sets the radio.
unfoldable pub wifi_init : Bool → Setup → Setup
wifi_init dhcp_started w =
    with_calls (config_wifi dhcp_started w) (arm reset_timer reset_timer_cb reset_timeout ∷ [])

-- An address that may be left out.
abbrev pub optional_ip : ℕ × Bytes → ℕ → Option ℕ
optional_ip arg default = if slt 0 arg.0 then parse_ip arg.1 else some default

-- The three addresses, if all can be read.
abbrev pub all_three : Option ℕ → Option ℕ → Option ℕ → Option (ℕ × ℕ × ℕ)
all_three (some ip) (some netmask) (some gw) = some (ip, netmask, gw)
all_three (some ip) (some netmask) none = none
all_three (some ip) none gw = none
all_three none netmask gw = none

-- The end of `cgiWiFiSpecial`: the configuration is saved, and the change is scheduled.
unfoldable pub change_over : FlashConfig → Bytes → Setup → Conn → Code × Setup × Conn
change_over cfg url w c = (
  done,
  with_calls (record w { config = cfg })
      (config_save cfg ∷ ems_sntp_re_init cfg ∷ arm reass_timer config_wifi_ip 1000 ∷ []),
  (send (json_header c 200) url).1,
)

unfoldable pub static_ip : Option (ℕ × ℕ × ℕ) → Setup → Conn → Code × Setup × Conn
static_ip none w c = (done, w, (send (json_header c 400) (codes "Cannot parse static IP config")).1)
static_ip (some (ip, netmask, gw)) w c =
    change_over (record w.config { staticip = ip; netmask = netmask; gateway = gw })
      (codes "{\"url\": \"http://" ++ (dotted ip ++ codes "\"}")) w c

-- `hostname`, which has a default.
abbrev pub host_name : ℕ × Bytes → Bytes
host_name arg = if arg.0 == 0 then codes "ems-link" else arg.1

-- A field of `n` bytes whose first bytes are replaced.
abbrev overlay : ℕ → Bytes → ℕ → ℕ
overlay zero over v = 0
overlay (suc n) over v = get_or over 0 (v % 2 ^ 8) + 2 ^ 8 * overlay n (drop 1 over) (v / 2 ^ 8)

-- `os_strcpy` into a field of 32 bytes of `flashConfig`. What a longer text and its terminator have beyond
-- the field goes to the fields behind it: `collectord_port` and `api_key`; a byte of padding and
-- `timezone`, behind which lies `collectord`; the addresses, `log_mode` and `ntp_server`.
unfoldable pub put_collectord : Bytes → FlashConfig → FlashConfig
put_collectord text cfg =
    if ltb (length text) 32 then record cfg { collectord = text } else record cfg {
      collectord = text;
      collectord_port = overlay 2 (drop 32 (text ++ (0 ∷ []))) cfg.collectord_port;
      api_key = (if ltb (length text) 34 then cfg.api_key else drop 34 text);
    }

unfoldable pub put_ntp_server : Bytes → FlashConfig → FlashConfig
put_ntp_server text cfg =
    if ltb (length text) 33 then record cfg { ntp_server = text } else record cfg {
      ntp_server = text;
      timezone = overlay 2 (drop 33 (text ++ (0 ∷ []))) cfg.timezone;
      collectord = (if ltb (length text) 35 then cfg.collectord else drop 35 text);
    }

unfoldable pub put_hostname : Bytes → FlashConfig → FlashConfig
put_hostname text cfg =
    if ltb (length text) 32 then record cfg { hostname = text } else record cfg {
      hostname = text;
      staticip = overlay 4 (drop 32 (text ++ (0 ∷ []))) cfg.staticip;
      netmask = overlay 4 (drop 36 (text ++ (0 ∷ []))) cfg.netmask;
      gateway = overlay 4 (drop 40 (text ++ (0 ∷ []))) cfg.gateway;
      log_mode = overlay 1 (drop 44 (text ++ (0 ∷ []))) cfg.log_mode;
      ntp_server = (if ltb (length text) 45 then cfg.ntp_server else drop 45 text);
    }

-- The host and the port of `collectord`; the port is an `int16_t` pattern, which is written first.
abbrev pub with_port : Bytes → FlashConfig → Option Bytes → FlashConfig
with_port text cfg none = put_collectord text (record cfg { collectord_port = 7950 })
with_port text cfg (some rest) =
    put_collectord (take (length text - length rest) text)
      (record cfg { collectord_port = atoi (drop 1 rest) % 2 ^ 16 })

unfoldable pub split_port : Bytes → FlashConfig → FlashConfig
split_port text cfg = with_port text cfg (strstr text (b':' ∷ []))

-- `garbage` is what stands on the stack in the buffer of an argument before the call, and `behind` what
-- follows the buffer.
module _ (garbage behind : Bytes → Bytes) where
  -- What `httpdFindArg` returns, as an `int` pattern, and the C string in the buffer then.
  unfoldable pub found_arg : Bytes → Found → ℕ × Bytes
  found_arg name no_line = (0, c_string (garbage name))
  found_arg name missing = (2 ^ 32 - 1, c_string (garbage name))
  found_arg name (value d) =
      (length d.ret, c_string (if d.terminated then d.ret else d.ret ++ behind name))

  abbrev pub read_arg : Conn → Bytes → ℕ → ℕ × Bytes
  read_arg c name size = found_arg name (find_arg name size c.get_args)

  -- `cgiWiFiConnect`
  unfoldable pub cgi_wifi_connect : Setup → Conn → Code × Setup × Conn
  cgi_wifi_connect w c =
      let el = read_arg c (codes "essid") 128 in
      let pl = read_arg c (codes "passwd") 128 in
      if is_null c.conn
      then (done, w, c)
      else if slt 0 el.0 && not (slt pl.0 0)
      then (
        done,
        with_calls (record w { ssid = take 32 el.1; password = take 64 pl.1 })
            (arm reass_timer reass_timer_cb 1000 ∷ []),
        json_header c 200,
      )
      else (done, w, (send (json_header c 400) (codes "Cannot parse ssid or password")).1)

  -- `cgiWiFiSpecial`
  unfoldable pub cgi_wifi_special : Setup → Conn → Code × Setup × Conn
  cgi_wifi_special w c =
      let dl = read_arg c (codes "dhcp") 8 in
      let hl = read_arg c (codes "hostname") 32 in
      let sl = read_arg c (codes "staticip") 20 in
      let nl = read_arg c (codes "netmask") 20 in
      let gl = read_arg c (codes "gateway") 20 in
      if is_null c.conn
      then (done, w, c)
      else if not (
          slt 0 dl.0
          && (not (slt hl.0 0) && (not (slt sl.0 0) && (not (slt nl.0 0) && not (slt gl.0 0)))))
      then (done, w, (send (json_header c 400) (codes "Request is missing fields")).1)
      else if str_eq dl.1 (codes "off")
      then static_ip (all_three (parse_ip sl.1) (optional_ip nl 0x00ffffff) (optional_ip gl 0)) w c
      else change_over (put_hostname (host_name hl) (record w.config { staticip = 0 }))
          (codes "{\"url\": \"http://" ++ (host_name hl ++ codes "\"}")) w c

  -- `cgiWiFiEMSSetting`
  unfoldable pub cgi_wifi_ems_setting : Setup → Conn → Code × Setup × Conn
  cgi_wifi_ems_setting w c =
      let nl = read_arg c (codes "ntpserver") 32 in
      let tl = read_arg c (codes "timezone") 4 in
      let cl = read_arg c (codes "collectord") 32 in
      let cfg1 =
        put_ntp_server (if nl.0 == 0 then [] else nl.1)
          (record w.config { timezone = (if tl.0 == 0 then 0 else atoi tl.1 % 2 ^ 16) }) in
      let cfg2 = if cl.0 == 0 then put_collectord cl.1 cfg1 else split_port cl.1 cfg1 in
      if is_null c.conn then (done, w, c) else (
        done,
        with_calls (record w { config = cfg2 }) (config_save cfg2 ∷ ems_sntp_re_init cfg2 ∷ []),
        json_header c 200,
      )

  -- `cgiWiFiSetMode`
  unfoldable pub cgi_wifi_set_mode : Setup → Conn → Code × Setup × Conn
  cgi_wifi_set_mode w c =
      let len = read_arg c (codes "mode") 1024 in
      let m = atoi len.1 in
      if is_null c.conn
      then (done, w, c)
      else if not (len.0 == 0)
      then (
        done,
        with_calls w (
            set_opmode (m % 4)
            ∷ (if m == 1
                then set_sleep_type ∷ arm reset_timer reset_timer_cb reset_timeout ∷ []
                else [])),
        json_header c 200,
      )
      else (done, w, json_header c 400)
