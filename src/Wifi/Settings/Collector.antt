-- ===== src/Wifi/Settings/Collector.antt =====
-- The host and the port of the collector, as the page shows them and as the form sends them back.
use ems_esp_link.Prelude.{
  ℕ, zero, suc, ◌+◌, ◌-◌, ◌%◌, ◌^◌, ◌<◌, ◌≡◌, ◌≢◌, refl, ap, ◌∙◌, true, false, some, [], ◌∷◌, ◌++◌,
  ◌==◌, ltb, if◌then◌else◌, if_lem, length, take, arith, All, length-append,
}
use ems_esp_link.Prelude.Text.{Bytes, codes, strstr, atoi, decimal}
use ems_esp_link.Prelude.Text.Decimal.{atoi-decimal}
use ems_esp_link.Config.{FlashConfig}
use ems_esp_link.Httpd.Conn.{Conn, Code}
use ems_esp_link.Httpd.Files.{is_null}
use ems_esp_link.Wifi.Info.{int_of_short}
use ems_esp_link.Wifi.Settings.{
  config_save, ems_sntp_re_init, Setup, read_arg, with_port, split_port, put_collectord,
  put_ntp_server, cgi_wifi_ems_setting,
}

-- A name with no colon in it.
unfoldable pub IsHost : Bytes → Type 0
IsHost host = All (λ c. c ≢ b':') host

strstr_lem :
    (host rest : Bytes)
    → IsHost host
    → strstr (host ++ (b':' ∷ rest)) (b':' ∷ []) ≡ some (b':' ∷ rest)
unfolding IsHost
strstr_lem [] rest h = refl
strstr_lem (c ∷ host) rest h =
    let other : (c == b':') ≡ false = ground (arith, h.0) in rw other (strstr_lem host rest h.1)

take_front : (n : ℕ) (xs ys : Bytes) → n ≡ length xs → take n (xs ++ ys) ≡ xs
take_front zero [] ys e = refl
take_front zero (x ∷ xs) ys e = absurd (omega (arith, e))
take_front (suc n) [] ys e = absurd (omega (arith, e))
take_front (suc n) (x ∷ xs) ys e = ap (λ r. x ∷ r) (take_front n xs ys (omega (arith, e)))

put_collectord_lem :
    (host : Bytes) (cfg : FlashConfig)
    → length host < 32
    → put_collectord host cfg ≡ record cfg { collectord = host }
unfolding put_collectord
put_collectord_lem host cfg short =
    let fits : ltb (length host) 32 ≡ true = ground (arith, short) in rw fits refl

split_port-decimal :
    (host : Bytes) (port : ℕ) (cfg : FlashConfig)
    → IsHost host
    → length host < 32
    → port < 2 ^ 15
    → split_port (host ++ (b':' ∷ decimal (int_of_short port))) cfg
      ≡ record cfg { collectord = host; collectord_port = port }
unfolding split_port
split_port-decimal host port cfg h short lt =
    let digits : Bytes = decimal (int_of_short port) in
    let kept : port % 2 ^ 16 ≡ port = omega (arith, lt) in
    let low : ltb (port % 2 ^ 16) (2 ^ 15) ≡ true = ground (arith, lt) in
    let whole : int_of_short port ≡ port =
      ap (λ b. if b then port % 2 ^ 16 else port % 2 ^ 16 + (2 ^ 32 - 2 ^ 16)) low ∙ kept in
    let front : take (length (host ++ (b':' ∷ digits)) - length (b':' ∷ digits))
          (host ++ (b':' ∷ digits))
        ≡ host =
      take_front _ host (b':' ∷ digits) (omega (arith, length-append host (b':' ∷ digits))) in
    let back : atoi digits % 2 ^ 16 ≡ port =
      ap (λ v. v % 2 ^ 16)
        (ap (λ v. atoi (decimal v)) whole ∙ atoi-decimal port (omega (arith, lt)))
      ∙ kept in
    ap (λ found. with_port (host ++ (b':' ∷ digits)) cfg found) (strstr_lem host digits h)
    ∙ (ap (λ t. put_collectord t (record cfg { collectord_port = atoi digits % 2 ^ 16 })) front
        ∙ (ap (λ v. put_collectord host (record cfg { collectord_port = v })) back
            ∙ put_collectord_lem host (record cfg { collectord_port = port }) short))

-- After the form the configuration has the host and the port, and was saved.
unfoldable pub IsSaved : Bytes → ℕ → Setup → Setup → Type 0
IsSaved host port before after =
    (after.config.collectord ≡ host)
    × (after.config.collectord_port ≡ port)
    × (after.calls
        ≡ before.calls ++ (config_save after.config ∷ ems_sntp_re_init after.config ∷ []))

module _ (garbage behind : Bytes → Bytes) where
  -- On a connection that is up, when the form sends for the collector a host without a colon that fits its
  -- field of 32 bytes with the terminator, a colon and the port as the page shows it, for a port below
  -- 2^15: the configuration has that host and port afterwards, and it is what is saved and what the time
  -- service is started with.
  pub cgi_wifi_ems_setting-int_of_short :
      (w : Setup) (c : Conn) (host : Bytes) (port : ℕ)
      → is_null c.conn ≡ false
      → IsHost host
      → length host < 32
      → port < 2 ^ 15
      → (read_arg garbage behind c (codes "collectord") 32).0 ≢ 0
      → (read_arg garbage behind c (codes "collectord") 32).1
        ≡ host ++ (b':' ∷ decimal (int_of_short port))
      → IsSaved host port w (cgi_wifi_ems_setting garbage behind w c).1
  unfolding cgi_wifi_ems_setting IsSaved
  cgi_wifi_ems_setting-int_of_short w c host port live h short lt given text =
      let nl = read_arg garbage behind c (codes "ntpserver") 32 in
      let tl = read_arg garbage behind c (codes "timezone") 4 in
      let cl = read_arg garbage behind c (codes "collectord") 32 in
      let cfg1 : FlashConfig =
        put_ntp_server (if nl.0 == 0 then [] else nl.1)
          (record w.config { timezone = (if tl.0 == 0 then 0 else atoi tl.1 % 2 ^ 16) }) in
      let sent : (cl.0 == 0) ≡ false = ground (arith, given) in
      let config : (if cl.0 == 0 then put_collectord cl.1 cfg1 else split_port cl.1 cfg1)
          ≡ record cfg1 { collectord = host; collectord_port = port } =
        ap (λ b. if b then put_collectord cl.1 cfg1 else split_port cl.1 cfg1) sent
        ∙ (ap (λ t. split_port t cfg1) text ∙ split_port-decimal host port cfg1 h short lt) in
      if_lem (λ (r : Code × Setup × Conn). IsSaved host port w r.1) (is_null c.conn) _ _
        (λ e. cc (e, live))
        (λ _. (
          ap (λ (x : FlashConfig). x.collectord) config,
          ap (λ (x : FlashConfig). x.collectord_port) config,
          refl,
        ))
