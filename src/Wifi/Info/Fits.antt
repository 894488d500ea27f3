-- ===== src/Wifi/Info/Fits.antt =====
-- The texts of the WiFi pages fit the buffers into which they are printed.
use ems_esp_link.Prelude.{
  ℕ, zero, suc, ◌+◌, ◌-◌, ◌/◌, ◌%◌, ◌^◌, ◌<◌, ◌≤◌, ◌≡◌, refl, Bool, true, false, ◌&&◌, Option, none,
  some, List, [], ◌∷◌, ◌++◌, leb, ltb, ◌==◌, if◌then◌else◌, if_lem, length, get_or, arith,
  length-append,
}
use ems_esp_link.Prelude.Text.{Bytes, codes, decimal, length-decimal}
use ems_esp_link.Prelude.Words.{slt}
use ems_esp_link.Config.{FlashConfig}
use ems_esp_link.Httpd.Conn.{Conn, Code, done}
use ems_esp_link.Httpd.Send.{send, json_header}
use ems_esp_link.Httpd.Send.Json.{json_head, send-json_header}
use ems_esp_link.Httpd.Files.{is_null}
use ems_esp_link.Wifi.{Wifi, wifi_reasons, wifi_get_reason}
use ems_esp_link.Wifi.Address.{dotted}
use ems_esp_link.Wifi.Info.{
  wifi_mode, wifi_phy, wifi_warn, conn_statuses, Report, join, int_of_short, entry_of, status_text,
  address_info, radio_info, config_info, print_wifi_info, reason_text, conn_status_json,
  wifi_info_json, cgi_wifi_conn_status, cgi_wifi_info,
}

-- The texts of the configuration and of the report have the room of their fields.
unfoldable pub IsFitting : FlashConfig → Report → Type 0
IsFitting cfg r =
    (length cfg.hostname < 32)
    × (length cfg.ntp_server < 32)
    × (length cfg.collectord < 32)
    × (length r.ssid ≤ 32)
    × (r.connect_status < 6)

total : List Bytes → ℕ
total [] = 0
total (s ∷ ss) = length s + total ss

length-join : (ss : List Bytes) → length (join ss) ≡ total ss
unfolding total
length-join [] = refl
length-join (s ∷ ss) = omega (arith, length-append s (join ss), length-join ss)

-- Whether every text of a table is short; then so is each entry.
all_short : ℕ → List Bytes → Bool
all_short bound [] = true
all_short bound (s ∷ ss) = leb (length s) bound && all_short bound ss

get_or_short :
    (bound : ℕ) (table : List Bytes) (i : ℕ) (default : Bytes)
    → all_short bound table ≡ true
    → length default ≤ bound
    → length (get_or table i default) ≤ bound
unfolding all_short
get_or_short bound [] i default h d = d
get_or_short bound (s ∷ ss) zero default h d = ground (arith, h)
get_or_short bound (s ∷ ss) (suc i) default h d =
    get_or_short bound ss i default (ground (arith, h)) d

get_or_within :
    (bound : ℕ) (table : List Bytes) (i : ℕ) (default : Bytes)
    → all_short bound table ≡ true
    → i < length table
    → length (get_or table i default) ≤ bound
unfolding all_short
get_or_within bound [] i default h lt = absurd (omega (arith, lt))
get_or_within bound (s ∷ ss) zero default h lt = ground (arith, h)
get_or_within bound (s ∷ ss) (suc i) default h lt =
    get_or_within bound ss i default (ground (arith, h)) (omega (arith, lt))

length-dotted : (ip : ℕ) → length (dotted ip) ≤ 47
length-dotted ip =
    let a = decimal (ip % 2 ^ 8) in
    let b = decimal (ip / 2 ^ 8 % 2 ^ 8) in
    let c = decimal (ip / 2 ^ 16 % 2 ^ 8) in
    let d = decimal (ip / 2 ^ 24 % 2 ^ 8) in
    let t1 = c ++ (b'.' ∷ d) in
    let t2 = b ++ (b'.' ∷ t1) in
    omega (
      arith,
      length-append a (b'.' ∷ t2),
      length-append b (b'.' ∷ t1),
      length-append c (b'.' ∷ d),
      length-decimal (ip % 2 ^ 8),
      length-decimal (ip / 2 ^ 8 % 2 ^ 8),
      length-decimal (ip / 2 ^ 16 % 2 ^ 8),
      length-decimal (ip / 2 ^ 24 % 2 ^ 8),
    )

wifi_get_reason-length : (w : Wifi) → length (wifi_get_reason w) ≤ 25
unfolding wifi_get_reason all_short
wifi_get_reason-length w =
    let Short : Bytes → Type 0 = λ s. length s ≤ 25 in
    let reasons : all_short 25 wifi_reasons ≡ true = refl in
    let other : Bytes = get_or wifi_reasons 1 [] in
    if_lem Short (leb w.wifi_reason 24) _ _
      (λ _. get_or_short 25 wifi_reasons w.wifi_reason [] reasons (omega arith))
      (λ _.
        if_lem Short (leb 200 w.wifi_reason && leb w.wifi_reason 201) _ other
          (λ _. get_or_short 25 wifi_reasons (w.wifi_reason - 200 + 24) [] reasons (omega arith))
          (λ _. get_or_short 25 wifi_reasons 1 [] reasons (omega arith)))

-- The text of the reason, if there is one.
reason_text-length : (w : Wifi) → length (reason_text w) ≤ 39
unfolding total
reason_text-length w =
    let reason : Bytes = wifi_get_reason w in
    if_lem (λ (s : Bytes). length s ≤ 39) (w.wifi_reason == 0) _ _ (λ _. omega arith)
      (λ _. omega (
        arith,
        wifi_get_reason-length w,
        length-join (codes "\"reason\": \"" ∷ reason ∷ codes "\", " ∷ []),
      ))

abbrev sent_of : Code × Conn → Bytes
sent_of answer = answer.1.send_buff

answered_whole :
    (text : Bytes) (c : Conn)
    → is_null c.conn ≡ false
    → c.send_buff ≡ []
    → length text < 1024
    → sent_of (if is_null c.conn then (done, c) else (done, (send (json_header c 200) text).1))
      ≡ json_head ++ text
answered_whole text c live empty fits =
    if_lem (λ (x : Code × Conn). x.1.send_buff ≡ json_head ++ text) (is_null c.conn) _ _
      (λ e. cc (e, live)) (λ _. send-json_header c text empty (omega (arith, fits)))

module _ (nil : Bytes) (past : ℕ → Bytes) where
  entry_of-length :
      (bound : ℕ) (table : List Bytes) (i : ℕ)
      → all_short bound table ≡ true
      → length nil ≤ bound
      → length (entry_of nil past table i) ≤ bound
  entry_of-length bound table zero h n = n
  entry_of-length bound table (suc i) h n = get_or_short bound table i nil h n

  status_text-length : (st : ℕ) → st < 6 → length (status_text nil past st) ≤ 14
  unfolding all_short
  status_text-length st lt =
      let statuses : all_short 14 conn_statuses ≡ true = refl in
      if_lem (λ (s : Bytes). length s ≤ 14) (slt 0 st && ltb st 24) _ _
        (λ _. get_or_within 14 conn_statuses st (past st) statuses (omega (arith, lt)))
        (λ _. omega arith)

  radio_info-length :
      (cfg : FlashConfig) (r : Report)
      → length nil ≤ 6
      → IsFitting cfg r
      → length (join (radio_info nil past r)) ≤ 370
  unfolding IsFitting total all_short
  radio_info-length cfg r n h = omega (
    arith,
    n,
    h.3,
    length-join (radio_info nil past r),
    entry_of-length 6 wifi_mode (r.opmode % 4) refl n,
    status_text-length r.connect_status h.4,
    entry_of-length 6 wifi_phy (r.phy_mode % 4) refl n,
    length-decimal (if slt 0 r.rssi then 0 else r.rssi),
    entry_of-length 110 wifi_warn (r.opmode % 4) refl (omega (arith, n)),
    length-decimal r.channel,
  )

  address_info-length :
      (cfg : FlashConfig) (info : Option (ℕ × ℕ × ℕ))
      → length cfg.hostname < 32
      → length (join (address_info nil past cfg info)) ≤ 250
  unfolding total
  address_info-length cfg none h = omega arith
  address_info-length cfg (some (ip, netmask, gw)) h = omega (
    arith,
    h,
    length-join (address_info nil past cfg (some (ip, netmask, gw))),
    length-dotted ip,
    length-dotted netmask,
    length-dotted gw,
  )

  config_info-length :
      (cfg : FlashConfig) (r : Report)
      → IsFitting cfg r
      → length (join (config_info nil past cfg)) ≤ 260
  unfolding IsFitting total
  config_info-length cfg r h =
      let word : length (if ltb 0 cfg.staticip then codes "off" else codes "on") ≤ 3 =
        if_lem (λ (s : Bytes). length s ≤ 3) (ltb 0 cfg.staticip) _ _ (λ _. omega arith)
          (λ _. omega arith) in
      omega (
        arith,
        h.1,
        h.2,
        word,
        length-join (config_info nil past cfg),
        length-dotted cfg.staticip,
        length-decimal (int_of_short cfg.timezone),
        length-decimal (int_of_short cfg.collectord_port),
      )

  print_wifi_info-length :
      (cfg : FlashConfig) (r : Report)
      → length nil ≤ 6
      → IsFitting cfg r
      → length (print_wifi_info nil past cfg r) ≤ 880
  unfolding print_wifi_info IsFitting
  print_wifi_info-length cfg r n h =
      let a = join (radio_info nil past r) in
      let b = join (address_info nil past cfg r.ip_info) in
      let d = join (config_info nil past cfg) in
      omega (
        arith,
        length-append a (b ++ d),
        length-append b d,
        radio_info-length cfg r n h,
        address_info-length cfg r.ip_info h.0,
        config_info-length cfg r h,
      )

  -- With texts that have the room of their fields, a status of the SDK below 6, and at most 6 characters
  -- printed for NULL: the text of either page fits its buffer of 1024 bytes with the terminator, whatever
  -- the state of the WiFi, and a request on an empty send buffer is answered by the head and the
  -- whole of that text.
  pub cgi_wifi_conn_status-conn_status_json :
      (cfg : FlashConfig) (w : Wifi) (r : Report) (c : Conn)
      → length nil ≤ 6
      → IsFitting cfg r
      → is_null c.conn ≡ false
      → c.send_buff ≡ []
      → (length (conn_status_json nil past cfg w r) < 1024)
        × ((cgi_wifi_conn_status nil past cfg w r c).1.send_buff
            ≡ json_head ++ conn_status_json nil past cfg w r)
        × (length (wifi_info_json nil past cfg r) < 1024)
        × ((cgi_wifi_info nil past cfg r c).1.send_buff
            ≡ json_head ++ wifi_info_json nil past cfg r)
  unfolding conn_status_json cgi_wifi_conn_status wifi_info_json cgi_wifi_info total
  cgi_wifi_conn_status-conn_status_json cfg w r c n h live empty =
      let info : Bytes = print_wifi_info nil past cfg r in
      let status : Bytes = conn_status_json nil past cfg w r in
      let brief : Bytes = wifi_info_json nil past cfg r in
      let bound : length info ≤ 880 = print_wifi_info-length cfg r n h in
      let fits : length status < 1024 = omega (
        arith,
        bound,
        reason_text-length w,
        length-join (codes "{" ∷ info ∷ codes ", " ∷ reason_text w ∷ codes "\"x\":0}\n" ∷ []),
      ) in
      let brief_fits : length brief < 1024 = omega (arith, bound, length-append info (codes "}")) in
      (
        fits,
        answered_whole status c live empty fits,
        brief_fits,
        answered_whole brief c live empty brief_fits,
      )
