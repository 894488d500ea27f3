-- ===== src/UserMain/InStep.antt =====
-- What requests do to the configuration: which pages may change it, and that the one in use is the one
-- in flash.
pub mod Pages
use ems_esp_link.Prelude.{
  ◌≡◌, ◌==◌, ◌%◌, ◌^◌, if◌then◌else◌, refl, sym, ap, subst, ◌∙◌, Bool, true, false, ◌||◌, some,
  List, [], ◌∷◌, if_lem, get_or, arith, All, ◌⊎◌, inl, inr,
}
use ems_esp_link.Prelude.Text.{Bytes, codes, str_eq}
use ems_esp_link.CgiFlash.{cgi_reboot_firmware}
use ems_esp_link.Config.{FlashConfig, config_save, config_restore}
use ems_esp_link.Config.RoundTrip.{FlashLaws, IsCurrent}
use ems_esp_link.Config.PowerCut.{config_restore-config_save}
use ems_esp_link.Console.{ajax_console_baud, ajax_console_reset, baud_step, set_rate}
use ems_esp_link.Httpd.Conn.{Conn, Code, more, done, not_found, authenticated}
use ems_esp_link.Httpd.Dispatch.{BuiltInUrl, assign, react, try_rows, process_request}
use ems_esp_link.Log.{ajax_log_dbg, mode_step, set_mode}
use ems_esp_link.Wifi.Settings.{
  host_name, cgi_wifi_connect, cgi_wifi_ems_setting, cgi_wifi_set_mode, cgi_wifi_special, static_ip,
  change_over, split_port, put_collectord, put_ntp_server, put_hostname, Setup, read_arg,
}
use ems_esp_link.Wifi.Settings.Fields.{
  SameHead, put_collectord-SameHead, put_ntp_server-SameHead, put_hostname-SameHead,
  split_port-SameHead,
}
use ems_esp_link.Httpd.Files.{is_null}
use ems_esp_link.Prelude.Text.{atoi}
use ems_esp_link.UserMain.{
  set_up, Outside, Firmware, Cgi, redirect, menu, firmware_next, upload_firmware, reboot_firmware,
  log_text, log_dbg, console_reset, console_baud, console_text, wifi_info, wifi_scan, wifi_connect,
  wifi_conn_status, wifi_set_mode, wifi_special, wifi_ems_setting, espfs_hook, cgis, built_in_urls,
  call, handlers, perform,
}
use ems_esp_link.UserMain.Routes.{
  page_of, pages, catch_all, finish, call_row, process_request-page_of,
}

-- The functions that may write the configuration, and with the upload all that may write the flash.
unfoldable pub is_setting : Cgi → Bool
is_setting log_dbg = true
is_setting console_baud = true
is_setting wifi_special = true
is_setting wifi_ems_setting = true
is_setting _ = false

unfoldable pub is_upload : Cgi → Bool
is_upload upload_firmware = true
is_upload _ = false

-- The URLs of the pages that change settings, and of the upload.
abbrev pub setting_urls : List Bytes
setting_urls =
    codes "/log/dbg"
    ∷ codes "/console/baud"
    ∷ codes "/wifi/special"
    ∷ codes "/wifi/emssettings"
    ∷ []

abbrev pub upload_url : Bytes
upload_url = codes "/flash/upload"

module _ {F : Type 0} (e : Outside F) where
  -- The configuration and the flash are as they were.
  unfoldable pub Unchanged : Firmware F → Firmware F → Type 0
  Unchanged w w' = (w'.config ≡ w.config) × (w'.flash ≡ w.flash)

  pub call-Unchanged :
      (k : Cgi) (w : Firmware F) (c : Conn)
      → is_setting k || is_upload k ≡ false
      → Unchanged w (call e k w c).1
  unfolding call is_setting is_upload Unchanged cgi_reboot_firmware ajax_console_reset
      cgi_wifi_connect cgi_wifi_set_mode perform
  call-Unchanged redirect w c h = (refl, refl)
  call-Unchanged menu w c h = (refl, refl)
  call-Unchanged firmware_next w c h = (refl, refl)
  call-Unchanged upload_firmware w c h = cc
  call-Unchanged reboot_firmware w c h = ground arith
  call-Unchanged log_text w c h = (refl, refl)
  call-Unchanged log_dbg w c h = cc
  call-Unchanged console_reset w c h = (refl, refl)
  call-Unchanged console_baud w c h = cc
  call-Unchanged console_text w c h = (refl, refl)
  call-Unchanged wifi_info w c h = (refl, refl)
  call-Unchanged wifi_scan w c h = (refl, refl)
  call-Unchanged wifi_connect w c h = ground arith
  call-Unchanged wifi_conn_status w c h = (refl, refl)
  call-Unchanged wifi_set_mode w c h = ground arith
  call-Unchanged wifi_special w c h = cc
  call-Unchanged wifi_ems_setting w c h = cc
  call-Unchanged espfs_hook w c h = ground arith

  -- The configuration was saved, with what it has of the old one.
  unfoldable pub Saved : Firmware F → Firmware F → Type 0
  Saved w w' =
      (w'.config.version ≡ w.config.version)
      × (w'.config.crc ≡ w.config.crc)
      × (w'.flash ≡ (config_save e.spi e.chksum e.firmware_size w'.config w.flash).1)

  call-Saved :
      (k : Cgi) (w : Firmware F) (c : Conn)
      → is_upload k ≡ false
      → Unchanged w (call e k w c).1 ⊎ Saved w (call e k w c).1
  unfolding call is_upload is_setting Unchanged Saved ajax_log_dbg mode_step set_mode
      ajax_console_baud baud_step set_rate cgi_wifi_special static_ip change_over
      cgi_wifi_ems_setting perform
  call-Saved log_dbg w c h = ground arith
  call-Saved console_baud w c h = ground arith
  call-Saved wifi_special w c h = ground (
    arith,
    put_hostname-SameHead (host_name (read_arg e.garbage e.behind c (codes "hostname") 32))
        (record w.config { staticip = 0 }),
  )
  call-Saved wifi_ems_setting w c h =
      let nl = read_arg e.garbage e.behind c (codes "ntpserver") 32 in
      let tl = read_arg e.garbage e.behind c (codes "timezone") 4 in
      let cl = read_arg e.garbage e.behind c (codes "collectord") 32 in
      let cfg0 : FlashConfig = record w.config {
        timezone = (if tl.0 == 0 then 0 else atoi tl.1 % 2 ^ 16);
      } in
      let cfg1 = put_ntp_server (if nl.0 == 0 then [] else nl.1) cfg0 in
      let same1 : SameHead w.config cfg1 = put_ntp_server-SameHead _ cfg0 in
      let same : SameHead cfg1
          (if cl.0 == 0 then put_collectord cl.1 cfg1 else split_port cl.1 cfg1) =
        if_lem (SameHead cfg1) (cl.0 == 0) _ _ (λ _. put_collectord-SameHead cl.1 cfg1)
          (λ _. split_port-SameHead cl.1 cfg1) in
      if_lem (λ (r : Code × Setup × Conn). Unchanged w (set_up e w r).1 ⊎ Saved w (set_up e w r).1)
        (is_null c.conn) _ _ (λ _. inl (refl, refl))
        (λ _. inr (same.0 ∙ same1.0, same.1 ∙ same1.1, refl))
  call-Saved upload_firmware w c h = cc
  call-Saved redirect w c h = inl (call-Unchanged redirect w c refl)
  call-Saved menu w c h = inl (call-Unchanged menu w c refl)
  call-Saved firmware_next w c h = inl (call-Unchanged firmware_next w c refl)
  call-Saved reboot_firmware w c h = inl (call-Unchanged reboot_firmware w c refl)
  call-Saved log_text w c h = inl (call-Unchanged log_text w c refl)
  call-Saved console_reset w c h = inl (call-Unchanged console_reset w c refl)
  call-Saved console_text w c h = inl (call-Unchanged console_text w c refl)
  call-Saved wifi_info w c h = inl (call-Unchanged wifi_info w c refl)
  call-Saved wifi_scan w c h = inl (call-Unchanged wifi_scan w c refl)
  call-Saved wifi_connect w c h = inl (call-Unchanged wifi_connect w c refl)
  call-Saved wifi_conn_status w c h = inl (call-Unchanged wifi_conn_status w c refl)
  call-Saved wifi_set_mode w c h = inl (call-Unchanged wifi_set_mode w c refl)
  call-Saved espfs_hook w c h = inl (call-Unchanged espfs_hook w c refl)

  -- The server keeps what the handler left.
  finish_lem : (r : Code) (w : Firmware F) (c : Conn) → (finish e (r, w, c)).1 ≡ w
  unfolding react try_rows
  finish_lem more w c = refl
  finish_lem done w c = refl
  finish_lem not_found w c = refl
  finish_lem authenticated w c = refl

  -- The function of a page, and what it leaves.
  abbrev pub cgi_of : Bytes → Cgi
  cgi_of u = let r = page_of pages u catch_all in get_or cgis r.cgi_cb espfs_hook

  pub page_of_lem :
      (P : BuiltInUrl → Type 0) (rs : List BuiltInUrl) (last : BuiltInUrl) (u : Bytes)
      → All (λ r. (str_eq r.url u ≡ false) ⊎ P r) rs
      → P last
      → P (page_of rs u last)
  unfolding page_of
  page_of_lem P [] last u h p = p
  page_of_lem P (r ∷ rs) last u h p =
      if_lem P (str_eq r.url u) r (page_of rs u last)
        (λ t. elim h.0 [ inl f ↦ cc (t, f) | inr q ↦ q ]) (λ _. page_of_lem P rs last u h.1 p)

  pub served_lem :
      (Q : Firmware F → Type 0) (w : Firmware F) (c : Conn) (u : Bytes)
      → c.url ≡ some u
      → ((c' : Conn) → Q (call e (cgi_of u) w c').1)
      → Q (process_request (handlers e) built_in_urls w c).1
  served_lem Q w c u s q =
      let r = page_of pages u catch_all in
      let x = call_row e r w c in
      subst (λ a. Q a.1) (sym (process_request-page_of e w c u s))
        (subst Q (sym (finish_lem x.0 x.1 x.2)) (q (assign r c)))

  -- The configuration in use has the firmware's version and is what a restart restores.
  unfoldable pub InStep : Firmware F → Type 0
  InStep w =
      IsCurrent w.config
      × (config_restore e.spi e.chksum e.firmware_size w.flash ≡ (true, w.config))

  pub Unchanged-InStep : (w w' : Firmware F) → Unchanged w w' → InStep w → InStep w'
  unfolding Unchanged InStep
  Unchanged-InStep w w' k i = (
    subst IsCurrent (sym k.0) i.0,
    ap (λ f. config_restore e.spi e.chksum e.firmware_size f) k.1
        ∙ (i.1 ∙ ap (λ x. (true, x)) (sym k.0)),
  )

  Saved-InStep :
      (laws : FlashLaws e.spi) (w w' : Firmware F)
      → ((cfg : FlashConfig) (f : F) → (config_save e.spi e.chksum e.firmware_size cfg f).0 ≡ true)
      → Saved w w'
      → InStep w
      → InStep w'
  unfolding Saved InStep
  Saved-InStep laws w w' works k i =
      let current : IsCurrent w'.config = record {
        version_is = k.0 ∙ i.0.version_is;
        crc_is = k.1 ∙ i.0.crc_is;
      } in
      (
        current,
        ap (λ f. config_restore e.spi e.chksum e.firmware_size f) k.2
            ∙ config_restore-config_save e.spi e.chksum e.firmware_size laws w'.config w.flash
                current (works w'.config w.flash),
      )

  -- On flash that keeps to its documented behaviour and never fails: if the configuration in use has the
  -- firmware's version and is the one that a restart restores, this stays so through a request for any
  -- URL but that of the upload.
  pub process_request-InStep :
      (laws : FlashLaws e.spi) (w : Firmware F) (c : Conn) (u : Bytes)
      → ((cfg : FlashConfig) (f : F) → (config_save e.spi e.chksum e.firmware_size cfg f).0 ≡ true)
      → c.url ≡ some u
      → str_eq upload_url u ≡ false
      → InStep w
      → InStep (process_request (handlers e) built_in_urls w c).1
  unfolding is_upload
  process_request-InStep laws w c u works s up i =
      let Other : BuiltInUrl → Type 0 = λ r. is_upload (get_or cgis r.cgi_cb espfs_hook) ≡ false in
      served_lem InStep w c u s (λ c'.
        elim (call-Saved (cgi_of u) w c' (
          page_of_lem Other pages catch_all u
            (
              inr refl,
              (
                inr refl,
                (
                  inr refl,
                  (
                    inl up,
                    (
                      inr refl,
                      (
                        inr refl,
                        (
                          inr refl,
                          (
                            inr refl,
                            (
                              inr refl,
                              (
                                inr refl,
                                (
                                  inr refl,
                                  (
                                    inr refl,
                                    (
                                      inr refl,
                                      (
                                        inr refl,
                                        (
                                          inr refl,
                                          (inr refl, (inr refl, (inr refl, (inr refl, tt)))),
                                        ),
                                      ),
                                    ),
                                  ),
                                ),
                              ),
                            ),
                          ),
                        ),
                      ),
                    ),
                  ),
                ),
              ),
            )
            refl)) [ inl k ↦ Unchanged-InStep w _ k i | inr k ↦ Saved-InStep laws w _ works k i ])
