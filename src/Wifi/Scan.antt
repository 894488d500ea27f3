-- ===== src/Wifi/Scan.antt =====
-- The scan for access points, wifiScanDoneCb and cgiWiFiScan of user/cgiwifi.c.
use ems_esp_link.Prelude.{
  ℕ, suc, ◌+◌, ◌*◌, ◌%◌, ◌^◌, ◌<◌, ◌≤◌, ◌≡◌, refl, ap, Bool, true, false, not, List, [], ◌∷◌, ◌++◌,
  ltb, if◌then◌else◌, if_lem, length, take, arith, All, length-append, length-take,
}
use ems_esp_link.Prelude.Text.{Bytes, codes, c_string, decimal}
use ems_esp_link.Httpd.Conn.{Conn, Code, done, unset, get, post}
use ems_esp_link.Httpd.Send.{send, json_header}
use ems_esp_link.Httpd.Send.Json.{json_head, send-json_header}
use ems_esp_link.Httpd.Files.{is_null}
use ems_esp_link.Wifi.{Timer, scan_timer, Callback, scan_start_cb}

-- `ApData`: the bytes of the 32 of `ssid` before a terminator, an `int` pattern of `rssi`, and `enc`.
pub record ApData : Type 0 where
  pub ssid : Bytes
  pub rssi : ℕ
  pub enc : ℕ

-- `ScanResultData`; `apData` with `noAps` entries is a list.
pub record ScanResultData : Type 0 where
  pub scan_in_progress : Bool
  pub ap_data : List ApData

-- `struct bss_info`, as far as it is read.
pub record BssInfo : Type 0 where
  pub ssid : Bytes
  pub rssi : ℕ
  pub authmode : ℕ

abbrev pub ap_of : BssInfo → ApData
ap_of b = record { ssid = take 32 (c_string b.ssid); rssi = b.rssi; enc = b.authmode % 2 ^ 8 }

unfoldable pub ap_list : List BssInfo → List ApData
ap_list [] = []
ap_list (b ∷ bs) = ap_of b ∷ ap_list bs

-- `wifiScanDoneCb`, with whether the status is OK.
unfoldable pub wifi_scan_done_cb : Bool → List BssInfo → ScanResultData → ScanResultData
wifi_scan_done_cb ok found r =
    if not ok
    then record r { scan_in_progress = false }
    else record r { scan_in_progress = false; ap_data = ap_list found }

-- `cgiWiFiStartScan`: the timer that it arms, if any, with the callback and the milliseconds.
unfoldable pub cgi_wifi_start_scan :
    ScanResultData → Conn → Code × ScanResultData × List (Timer × Callback × ℕ) × Conn
cgi_wifi_start_scan r c =
    if is_null c.conn
    then (done, r, [], c)
    else if not r.scan_in_progress
    then (
      done,
      record r { scan_in_progress = true },
      (scan_timer, scan_start_cb, 1000) ∷ [],
      json_header c 200,
    )
    else (done, r, [], json_header c 200)

-- `ssid` as `%s` prints it: without a terminator in its 32 bytes the text goes on over the bytes that
-- follow it in the structure, and `beyond`.
abbrev pub ssid_text : Bytes → ApData → Bytes
ssid_text beyond a =
    if ltb (length a.ssid) 32 then a.ssid else a.ssid ++ c_string (a.rssi % 2 ^ 8 ∷ a.enc ∷ beyond)

-- One access point, with a comma where another follows.
unfoldable pub ap_json : Bytes → ApData → Bool → Bytes
ap_json beyond a last =
    codes "{\"essid\": \""
    ++ (ssid_text beyond a
        ++ (codes "\", \"rssi\": "
            ++ (decimal a.rssi
                ++ (codes ", \"enc\": \""
                    ++ (decimal a.enc
                        ++ (codes "\"}" ++ ((if last then [] else codes ",") ++ codes "\n")))))))

-- The loop over the access points.
unfoldable pub aps_json : Bytes → List ApData → Bytes
aps_json beyond [] = []
aps_json beyond (a ∷ []) = ap_json beyond a true
aps_json beyond (a ∷ b ∷ aps) = ap_json beyond a false ++ aps_json beyond (b ∷ aps)

-- The text of the answer.
unfoldable pub scan_json : Bytes → ScanResultData → Bytes
scan_json beyond r =
    if r.scan_in_progress
    then codes "{\n \"result\": { \n\"inProgress\": \"1\"\n }\n}\n"
    else codes "{\"result\": {\"inProgress\": \"0\", \"APs\": [\n"
      ++ (aps_json beyond r.ap_data ++ codes "]}}\n")

-- `cgiWiFiGetScan`
unfoldable pub cgi_wifi_get_scan : Bytes → ScanResultData → Conn → Code × Conn
cgi_wifi_get_scan beyond r c =
    if is_null c.conn then (done, c) else (done, (send (json_header c 200) (scan_json beyond r)).1)

-- `cgiWiFiScan`
unfoldable pub cgi_wifi_scan :
    Bytes → ScanResultData → Conn → Code × ScanResultData × List (Timer × Callback × ℕ) × Conn
cgi_wifi_scan beyond r c = elim c.request_type [
  | get ↦ let (code, c') = cgi_wifi_get_scan beyond r c in (code, r, [], c')
  | post ↦ cgi_wifi_start_scan r c
  | unset ↦ (done, r, [], json_header c 404)
]

-- What is printed of an access point is short: its name leaves room for a terminator.
unfoldable pub IsShort : ApData → Type 0
IsShort a = (length a.ssid < 32) × (length (decimal a.rssi) ≤ 4) × (length (decimal a.enc) ≤ 3)

-- The same of what the scan reports.
unfoldable pub IsPlain : BssInfo → Type 0
IsPlain b =
    (length (c_string b.ssid) < 32)
    × (length (decimal b.rssi) ≤ 4)
    × (length (decimal (b.authmode % 2 ^ 8)) ≤ 3)

ssid_text_lem : (beyond : Bytes) (a : ApData) → length a.ssid < 32 → ssid_text beyond a ≡ a.ssid
ssid_text_lem beyond a lt =
    let e : ltb (length a.ssid) 32 ≡ true = ground (arith, lt) in
    ap (λ b. if b then a.ssid else a.ssid ++ c_string (a.rssi % 2 ^ 8 ∷ a.enc ∷ beyond)) e

-- The text of an access point around its three values.
frame-length :
    (name strength kind comma : Bytes)
    → length (
        codes "{\"essid\": \""
        ++ (name
            ++ (codes "\", \"rssi\": "
                ++ (strength
                    ++ (codes ", \"enc\": \""
                        ++ (kind ++ (codes "\"}" ++ (comma ++ codes "\n"))))))))
      ≡ 35 + length name + length strength + length kind + length comma
frame-length name strength kind comma =
    let t1 = codes "\"}" ++ (comma ++ codes "\n") in
    let t2 = codes ", \"enc\": \"" ++ (kind ++ t1) in
    let t3 = codes "\", \"rssi\": " ++ (strength ++ t2) in
    omega (
      arith,
      length-append name t3,
      length-append strength t2,
      length-append kind t1,
      length-append comma (codes "\n"),
    )

ap_json-length :
    (beyond : Bytes) (a : ApData) (last : Bool) → IsShort a → length (ap_json beyond a last) ≤ 76
unfolding ap_json IsShort
ap_json-length beyond a true p = omega (
  arith,
  p.0,
  p.1,
  p.2,
  frame-length (ssid_text beyond a) (decimal a.rssi) (decimal a.enc) [],
  ap length (ssid_text_lem beyond a p.0),
)
ap_json-length beyond a false p = omega (
  arith,
  p.0,
  p.1,
  p.2,
  frame-length (ssid_text beyond a) (decimal a.rssi) (decimal a.enc) (codes ","),
  ap length (ssid_text_lem beyond a p.0),
)

aps_json-length :
    (beyond : Bytes) (aps : List ApData)
    → All IsShort aps
    → length (aps_json beyond aps) ≤ 76 * length aps
unfolding aps_json
aps_json-length beyond [] p = omega arith
aps_json-length beyond (a ∷ []) p = omega (arith, ap_json-length beyond a true p.0)
aps_json-length beyond (a ∷ b ∷ aps) p = omega (
  arith,
  ap_json-length beyond a false p.0,
  aps_json-length beyond (b ∷ aps) p.1,
  length-append (ap_json beyond a false) (aps_json beyond (b ∷ aps)),
)

ap_list-IsShort :
    (found : List BssInfo)
    → All IsPlain found
    → All IsShort (ap_list found) × (length (ap_list found) ≡ length found)
unfolding ap_list IsPlain IsShort
ap_list-IsShort [] p = (tt, refl)
ap_list-IsShort (b ∷ bs) p =
    let r = ap_list-IsShort bs p.1 in
    (((omega (arith, p.0.0, length-take 32 (c_string b.ssid)), p.0.1, p.0.2), r.0), ap suc r.1)

-- After a scan that found at most 26 access points, each with a name of fewer than 32 bytes, a
-- strength that prints as at most 4 characters and an encryption that prints as at most 3: the text of
-- the answer fits its buffer of 2048 bytes with the terminator, and a request on an empty send buffer
-- is answered by the head and the whole of that text.
pub cgi_wifi_get_scan-wifi_scan_done_cb :
    (beyond : Bytes) (found : List BssInfo) (r : ScanResultData) (c : Conn)
    → length found ≤ 26
    → All IsPlain found
    → is_null c.conn ≡ false
    → c.send_buff ≡ []
    → (length (scan_json beyond (wifi_scan_done_cb true found r)) < 2048)
      × ((cgi_wifi_get_scan beyond (wifi_scan_done_cb true found r) c).1.send_buff
          ≡ json_head ++ scan_json beyond (wifi_scan_done_cb true found r))
unfolding scan_json wifi_scan_done_cb cgi_wifi_get_scan
cgi_wifi_get_scan-wifi_scan_done_cb beyond found r c few plain live empty =
    let short = ap_list-IsShort found plain in
    let bound = aps_json-length beyond (ap_list found) short.0 in
    let text : Bytes = scan_json beyond (wifi_scan_done_cb true found r) in
    let fits : length text < 2048 = omega (
      arith,
      bound,
      short.1,
      few,
      length-append (aps_json beyond (ap_list found)) (codes "]}}\n"),
    ) in
    (
      fits,
      if_lem (λ (x : Code × Conn). x.1.send_buff ≡ json_head ++ text) (is_null c.conn) _ _
          (λ e. cc (e, live)) (λ _. send-json_header c text empty (omega (arith, fits))),
    )
