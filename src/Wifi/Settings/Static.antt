-- ===== src/Wifi/Settings/Static.antt =====
-- A static address, from the form of the page to the network stack.
use ems_esp_link.Prelude.{
  ℕ, ◌^◌, ◌<◌, ◌≡◌, refl, sym, ap, subst, ◌∙◌, Bool, true, false, not, ◌&&◌, some, List, [], ◌∷◌,
  ◌++◌, ◌==◌, if◌then◌else◌, if_lem, arith, append_assoc,
}
use ems_esp_link.Prelude.Text.{Bytes, codes, str_eq}
use ems_esp_link.Prelude.Words.{slt}
use ems_esp_link.Config.{FlashConfig}
use ems_esp_link.Httpd.Conn.{Conn, Code, done}
use ems_esp_link.Httpd.Send.{send, json_header}
use ems_esp_link.Httpd.Files.{is_null}
use ems_esp_link.Wifi.{reass_timer, config_wifi_ip}
use ems_esp_link.Wifi.Address.{parse_ip, dotted, parse_ip-dotted}
use ems_esp_link.Wifi.Settings.{
  Call, arm, config_save, ems_sntp_re_init, dhcpc_stop, set_ip_info, Setup, read_arg, optional_ip,
  all_three, change_over, static_ip, cgi_wifi_special, config_wifi, host_name, put_hostname,
}

-- A positive length, as an `int`.
abbrev pub IsLength : ℕ → Type 0
IsLength n = (0 < n) × (n < 2 ^ 31)

then_case {ℓ κ} :
    {A : Type ℓ} (P : A → Type κ) {b : Bool} (x y : A) → b ≡ true → P x → P (if b then x else y)
then_case P x y e p = if_lem P _ x y (λ _. p) (λ n. cc (e, n))

else_case {ℓ κ} :
    {A : Type ℓ} (P : A → Type κ) {b : Bool} (x y : A) → b ≡ false → P y → P (if b then x else y)
else_case P x y e p = if_lem P _ x y (λ t. cc (e, t)) (λ _. p)

all_there :
    (d h s n g : ℕ)
    → IsLength d
    → slt h 0 ≡ false
    → IsLength s
    → IsLength n
    → IsLength g
    → not (slt 0 d && (not (slt h 0) && (not (slt s 0) && (not (slt n 0) && not (slt g 0)))))
      ≡ false
all_there d h s n g dl hl sl nl gl =
    let e1 : slt 0 d ≡ true = ground (arith, dl) in
    let e3 : slt s 0 ≡ false = ground (arith, sl) in
    let e4 : slt n 0 ≡ false = ground (arith, nl) in
    let e5 : slt g 0 ≡ false = ground (arith, gl) in rw (e1, hl, e3, e4, e5) refl

-- What a static address leads to.
abbrev pub static_calls : FlashConfig → List Call
static_calls cfg =
    config_save cfg
    ∷ ems_sntp_re_init cfg
    ∷ arm reass_timer config_wifi_ip 1000
    ∷ dhcpc_stop
    ∷ set_ip_info cfg.staticip cfg.netmask cfg.gateway
    ∷ []

config_wifi-static_ip :
    (w : Setup) (c : Conn) (ip netmask gw : ℕ) (dhcp_started : Bool)
    → 0 < ip
    → (config_wifi dhcp_started (static_ip (some (ip, netmask, gw)) w c).1).calls
      ≡ w.calls ++ static_calls (record w.config { staticip = ip; netmask = netmask; gateway = gw })
unfolding config_wifi static_ip change_over
config_wifi-static_ip w c ip netmask gw dhcp_started pos =
    let cfg = record w.config { staticip = ip; netmask = netmask; gateway = gw } in
    let e : (ip == 0) ≡ false = ground (arith, pos) in
    if_lem (λ (x : Setup). x.calls ≡ w.calls ++ static_calls cfg) (ip == 0) _ _ (λ y. cc (y, e))
      (λ _.
        append_assoc w.calls
          (config_save cfg ∷ ems_sntp_re_init cfg ∷ arm reass_timer config_wifi_ip 1000 ∷ [])
          (dhcpc_stop ∷ set_ip_info ip netmask gw ∷ []))

optional_ip-dotted :
    (arg : ℕ × Bytes) (default ip : ℕ)
    → IsLength arg.0
    → arg.1 ≡ dotted ip
    → ip < 2 ^ 32
    → optional_ip arg default ≡ some ip
optional_ip-dotted arg default ip n e lt =
    let given : slt 0 arg.0 ≡ true = ground (arith, n) in
    ap (λ b. if b then parse_ip arg.1 else some default) given
    ∙ (ap parse_ip e ∙ parse_ip-dotted ip lt)

module _ (garbage behind : Bytes → Bytes) where
  -- A form with DHCP off, whose three addresses are given in dotted form and the first is not 0, on a
  -- connection that is up, with a host name that is there: the configuration is saved with
  -- these addresses and all else as it was, the time service is started anew, and the call that is
  -- scheduled gives the network stack exactly these addresses.
  pub config_wifi-cgi_wifi_special :
      (w : Setup) (c : Conn) (ip netmask gw : ℕ) (dhcp_started : Bool)
      → is_null c.conn ≡ false
      → IsLength (read_arg garbage behind c (codes "dhcp") 8).0
      → (read_arg garbage behind c (codes "dhcp") 8).1 ≡ codes "off"
      → slt (read_arg garbage behind c (codes "hostname") 32).0 0 ≡ false
      → IsLength (read_arg garbage behind c (codes "staticip") 20).0
      → (read_arg garbage behind c (codes "staticip") 20).1 ≡ dotted ip
      → IsLength (read_arg garbage behind c (codes "netmask") 20).0
      → (read_arg garbage behind c (codes "netmask") 20).1 ≡ dotted netmask
      → IsLength (read_arg garbage behind c (codes "gateway") 20).0
      → (read_arg garbage behind c (codes "gateway") 20).1 ≡ dotted gw
      → 0 < ip
      → ip < 2 ^ 32
      → netmask < 2 ^ 32
      → gw < 2 ^ 32
      → (config_wifi dhcp_started (cgi_wifi_special garbage behind w c).1).calls
        ≡ w.calls
          ++ static_calls (record w.config { staticip = ip; netmask = netmask; gateway = gw })
  unfolding cgi_wifi_special
  config_wifi-cgi_wifi_special w c ip netmask gw dhcp_started live dl off hl sl st nl nt gl gt pos
        li ln lg =
      let dhcp = read_arg garbage behind c (codes "dhcp") 8 in
      let host = read_arg garbage behind c (codes "hostname") 32 in
      let address = read_arg garbage behind c (codes "staticip") 20 in
      let mask = read_arg garbage behind c (codes "netmask") 20 in
      let gate = read_arg garbage behind c (codes "gateway") 20 in
      let read : all_three (parse_ip address.1) (optional_ip mask 0x00ffffff) (optional_ip gate 0)
          ≡ some (ip, netmask, gw) =
        ap (λ x. all_three x (optional_ip mask 0x00ffffff) (optional_ip gate 0))
          (ap parse_ip st ∙ parse_ip-dotted ip li)
        ∙ (ap (λ x. all_three (some ip) x (optional_ip gate 0))
              (optional_ip-dotted mask 0x00ffffff netmask nl nt ln)
            ∙ ap (all_three (some ip) (some netmask)) (optional_ip-dotted gate 0 gw gl gt lg)) in
      let is_off : str_eq dhcp.1 (codes "off") ≡ true = ap (λ t. str_eq t (codes "off")) off in
      let complete : not (
            slt 0 dhcp.0
            && (not (slt host.0 0)
                && (not (slt address.0 0) && (not (slt mask.0 0) && not (slt gate.0 0)))))
          ≡ false =
        all_there dhcp.0 host.0 address.0 mask.0 gate.0 dl hl sl nl gl in
      let Good : Code × Setup × Conn → Type 0 = λ r.
        (config_wifi dhcp_started r.1).calls
        ≡ w.calls
          ++ static_calls (record w.config { staticip = ip; netmask = netmask; gateway = gw }) in
      let saved : Code × Setup × Conn =
        static_ip
          (all_three (parse_ip address.1) (optional_ip mask 0x00ffffff) (optional_ip gate 0)) w c in
      let dynamic : Code × Setup × Conn =
        change_over (put_hostname (host_name host) (record w.config { staticip = 0 }))
          (codes "{\"url\": \"http://" ++ (host_name host ++ codes "\"}")) w c in
      let refused : Code × Setup × Conn =
        (done, w, (send (json_header c 400) (codes "Request is missing fields")).1) in
      let good : Good saved =
        subst (λ x. Good (static_ip x w c)) (sym read)
          (config_wifi-static_ip w c ip netmask gw dhcp_started pos) in
      else_case Good (done, w, c) _ live
        (else_case Good refused _ complete (then_case Good saved dynamic is_off good))
