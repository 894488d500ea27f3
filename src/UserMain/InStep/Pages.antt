-- ===== src/UserMain/InStep/Pages.antt =====
-- The pages that change no setting.
use ems_esp_link.Prelude.{
  ◌≡◌, refl, Bool, true, false, ◌||◌, some, ◌∷◌, get_or, arith, All, ◌⊎◌, inl, inr, Bool-cases,
}
use ems_esp_link.Prelude.Text.{Bytes, codes, str_eq}
use ems_esp_link.CgiFlash.{cgi_reboot_firmware}
use ems_esp_link.Httpd.Conn.{Conn}
use ems_esp_link.Httpd.Dispatch.{BuiltInUrl, process_request}
use ems_esp_link.Console.{ajax_console_reset}
use ems_esp_link.Wifi.Settings.{cgi_wifi_connect}
use ems_esp_link.UserMain.{
  Outside, Firmware, Cgi, redirect, menu, firmware_next, upload_firmware, reboot_firmware, log_text,
  log_dbg, console_reset, console_baud, console_text, wifi_info, wifi_scan, wifi_connect,
  wifi_conn_status, wifi_set_mode, wifi_special, wifi_ems_setting, espfs_hook, cgis, built_in_urls,
  call, handlers, save_opmode,
}
use ems_esp_link.UserMain.Routes.{page_of, pages, catch_all}
use ems_esp_link.UserMain.InStep.{
  is_setting, is_upload, setting_urls, upload_url, Unchanged, call-Unchanged, cgi_of, page_of_lem,
  served_lem,
}

-- The function that sets the mode of the WiFi, and its page.
is_mode : Cgi → Bool
is_mode wifi_set_mode = true
is_mode _ = false

abbrev pub mode_url : Bytes
mode_url = codes "/wifi/setmode"

-- A row whose function changes no setting, and the mode only at the page for it.
IsQuiet : Bytes → BuiltInUrl → Type 0
IsQuiet u r =
    (is_setting (get_or cgis r.cgi_cb espfs_hook) || is_upload (get_or cgis r.cgi_cb espfs_hook)
      ≡ false)
    × (str_eq mode_url u ≡ false → is_mode (get_or cgis r.cgi_cb espfs_hook) ≡ false)

mode_row :
    (u : Bytes)
    → (str_eq mode_url u ≡ false) ⊎ IsQuiet u (record { url = mode_url; cgi_cb = 14; cgi_arg = 0 })
unfolding IsQuiet is_setting is_upload
mode_row u = elim (Bool-cases (str_eq mode_url u)) [
  | inl t ↦ inr (refl, λ f. cc (t, f))
  | inr f ↦ inl f
]

module _ {F : Type 0} (e : Outside F) where
  -- The configuration and the flash are as they were, and so is the mode that the SDK keeps, but for the
  -- URL `u` that sets it.
  unfoldable pub Untouched : Bytes → Firmware F → Firmware F → Type 0
  Untouched u w w' =
      Unchanged e w w' × ((str_eq mode_url u ≡ true) ⊎ (w'.saved_opmode ≡ w.saved_opmode))

  call-saved_opmode :
      (k : Cgi) (w : Firmware F) (c : Conn)
      → is_setting k || is_upload k ≡ false
      → is_mode k ≡ false
      → (call e k w c).1.saved_opmode ≡ w.saved_opmode
  unfolding call is_setting is_upload is_mode cgi_wifi_connect save_opmode cgi_reboot_firmware
      ajax_console_reset
  call-saved_opmode redirect w c h m = refl
  call-saved_opmode menu w c h m = refl
  call-saved_opmode firmware_next w c h m = refl
  call-saved_opmode upload_firmware w c h m = refl
  call-saved_opmode reboot_firmware w c h m = refl
  call-saved_opmode log_text w c h m = refl
  call-saved_opmode log_dbg w c h m = refl
  call-saved_opmode console_reset w c h m = refl
  call-saved_opmode console_baud w c h m = refl
  call-saved_opmode console_text w c h m = refl
  call-saved_opmode wifi_info w c h m = refl
  call-saved_opmode wifi_scan w c h m = refl
  call-saved_opmode wifi_connect w c h m = ground arith
  call-saved_opmode wifi_conn_status w c h m = refl
  call-saved_opmode wifi_set_mode w c h m = cc
  call-saved_opmode wifi_special w c h m = cc
  call-saved_opmode wifi_ems_setting w c h m = cc
  call-saved_opmode espfs_hook w c h m = ground arith

  -- A request for any URL but those of the four pages for settings and of the upload leaves the
  -- configuration and the flash that the firmware writes as they were, whatever its arguments and its
  -- method; and the mode that the SDK keeps in its own sectors, unless the URL is the one for it.
  pub process_request-Untouched :
      (w : Firmware F) (c : Conn) (u : Bytes)
      → c.url ≡ some u
      → All (λ s. str_eq s u ≡ false) (upload_url ∷ setting_urls)
      → Untouched u w (process_request (handlers e) built_in_urls w c).1
  unfolding Untouched IsQuiet is_setting is_upload is_mode
  process_request-Untouched w c u s (up, (dbg, (baud, (special, (ems, _))))) =
      let quiet : IsQuiet u (page_of pages u catch_all) =
        page_of_lem e (IsQuiet u) pages catch_all u
          (
            inr (refl, λ _. refl),
            (
              inr (refl, λ _. refl),
              (
                inr (refl, λ _. refl),
                (
                  inl up,
                  (
                    inr (refl, λ _. refl),
                    (
                      inr (refl, λ _. refl),
                      (
                        inl dbg,
                        (
                          inr (refl, λ _. refl),
                          (
                            inl baud,
                            (
                              inr (refl, λ _. refl),
                              (
                                inr (refl, λ _. refl),
                                (
                                  inr (refl, λ _. refl),
                                  (
                                    inr (refl, λ _. refl),
                                    (
                                      inr (refl, λ _. refl),
                                      (
                                        inr (refl, λ _. refl),
                                        (
                                          inr (refl, λ _. refl),
                                          (mode_row u, (inl special, (inl ems, tt))),
                                        ),
                                      ),
                                    ),
                                  ),
                                ),
                              ),
                            ),
                          ),
                        ),
                      ),
                    ),
                  ),
                ),
              ),
            ),
          )
          (refl, λ _. refl) in
      served_lem e (Untouched u w) w c u s (λ c'. (
        call-Unchanged e (cgi_of e u) w c' quiet.0,
        elim (Bool-cases (str_eq mode_url u)) [
          | inl t ↦ inl t
          | inr m ↦ inr (call-saved_opmode (cgi_of e u) w c' quiet.0 (quiet.1 m))
        ],
      ))
