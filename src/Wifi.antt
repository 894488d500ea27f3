-- ===== src/Wifi.antt =====
-- The WiFi pages, user/cgiwifi.c. The calls of the SDK that change something are a list of effects; what
-- it reports is a parameter.
pub mod Address
pub mod Scan
pub mod Settings
pub mod Info
use ems_esp_link.Prelude.{
  ℕ, ◌+◌, ◌-◌, ◌%◌, ◌^◌, Bool, true, false, not, ◌&&◌, ◌||◌, Option, none, some, List, [], ◌∷◌,
  ◌++◌, leb, ltb, ◌==◌, if◌then◌else◌, get_or,
}
use ems_esp_link.Prelude.Text.{Bytes, codes}

-- wifiIsDisconnected, wifiIsConnected, wifiGotIP
pub data WifiState : Type 0 where
  wifi_is_disconnected wifi_is_connected wifi_got_ip : WifiState

-- `wifiState` and `wifiReason`
pub record Wifi : Type 0 where
  pub wifi_state : WifiState
  pub wifi_reason : ℕ

-- `System_Event_t`, as far as the handler reads it.
pub data Event : Type 0 where
  stamode_connected stamode_got_ip other : Event
  stamode_disconnected : ℕ → Event

-- `wifiHandleEventCb`; the reason is a `uint8_t`.
unfoldable pub wifi_handle_event_cb : Event → Wifi → Wifi
wifi_handle_event_cb stamode_connected w = record w {
  wifi_state = wifi_is_connected;
  wifi_reason = 0;
}
wifi_handle_event_cb (stamode_disconnected reason) w = record w {
  wifi_state = wifi_is_disconnected;
  wifi_reason = reason % 2 ^ 8;
}
wifi_handle_event_cb stamode_got_ip w = record w { wifi_state = wifi_got_ip; wifi_reason = 0 }
wifi_handle_event_cb other w = w

-- `wifiReasons`
abbrev pub wifi_reasons : List Bytes
wifi_reasons =
    codes ""
    ∷ codes "unspecified"
    ∷ codes "auth_expire"
    ∷ codes "auth_leave"
    ∷ codes "assoc_expire"
    ∷ codes "assoc_toomany"
    ∷ codes "not_authed"
    ∷ codes "not_assoced"
    ∷ codes "assoc_leave"
    ∷ codes "assoc_not_authed"
    ∷ codes "disassoc_pwrcap_bad"
    ∷ codes "disassoc_supchan_bad"
    ∷ codes "ie_invalid"
    ∷ codes "mic_failure"
    ∷ codes "4way_handshake_timeout"
    ∷ codes "group_key_update_timeout"
    ∷ codes "ie_in_4way_differs"
    ∷ codes "group_cipher_invalid"
    ∷ codes "pairwise_cipher_invalid"
    ∷ codes "akmp_invalid"
    ∷ codes "unsupp_rsn_ie_version"
    ∷ codes "invalid_rsn_ie_cap"
    ∷ codes "802_1x_auth_failed"
    ∷ codes "cipher_suite_rejected"
    ∷ codes "beacon_timeout"
    ∷ codes "no_ap_found"
    ∷ []

-- `wifiGetReason`
unfoldable pub wifi_get_reason : Wifi → Bytes
wifi_get_reason w =
    if leb w.wifi_reason 24
    then get_or wifi_reasons w.wifi_reason []
    else if leb 200 w.wifi_reason && leb w.wifi_reason 201
    then get_or wifi_reasons (w.wifi_reason - 200 + 24) []
    else get_or wifi_reasons 1 []

-- The callbacks that `os_timer_setfn` sets.
pub data Callback : Type 0 where
  scan_start_cb reset_timer_cb reass_timer_cb config_wifi_ip : Callback

-- `scanTimer`, `resetTimer` and `reassTimer`
pub data Timer : Type 0 where
  scan_timer reset_timer reass_timer : Timer
