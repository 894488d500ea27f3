-- ===== src/UserMain/Routes.antt =====
-- Which page serves a request: the rows of the URL table by the text of their URLs.
use ems_esp_link.Prelude.{
  ◌-◌, ◌≡◌, refl, ap, ◌∙◌, Bool, true, false, not, ◌&&◌, none, some, List, [], ◌∷◌, ◌++◌,
  if◌then◌else◌, if_lem, get_or, arith, ◌==◌, length, take,
}
use ems_esp_link.Prelude.Text.{Bytes, codes, str_eq}
use ems_esp_link.CharRing.Reader.{ajax}
use ems_esp_link.CgiFlash.{
  cgi_get_firmware_next, cgi_upload_firmware, upload_at, checked, cgi_reboot_firmware,
}
use ems_esp_link.Console.{ajax_console, ajax_console_baud, ajax_console_reset}
use ems_esp_link.Httpd.Conn.{Conn, Code, more, done, not_found, authenticated}
use ems_esp_link.Httpd.Dispatch.{
  Output, BuiltInUrl, url_matches, url_of, assign, react, try_rows, process_request,
}
use ems_esp_link.Httpd.Dispatch.Barrier.{matched, unmatched, with_url}
use ems_esp_link.Httpd.Send.{cgi_redirect}
use ems_esp_link.Log.{ajax_log, ajax_log_dbg}
use ems_esp_link.Wifi.Info.{cgi_wifi_conn_status, cgi_wifi_info}
use ems_esp_link.Wifi.Scan.{cgi_wifi_scan, cgi_wifi_get_scan, cgi_wifi_start_scan}
use ems_esp_link.Wifi.Settings.{
  cgi_wifi_connect, cgi_wifi_ems_setting, cgi_wifi_set_mode, cgi_wifi_special, static_ip,
  change_over,
}
use ems_esp_link.UserMain.{
  Outside, Firmware, cgi_menu, Cgi, redirect, menu, firmware_next, upload_firmware, reboot_firmware,
  log_text, log_dbg, console_reset, console_baud, console_text, wifi_info, wifi_scan, wifi_connect,
  wifi_conn_status, wifi_set_mode, wifi_special, wifi_ems_setting, espfs_hook, cgis, row,
  built_in_urls, call, handlers,
}

-- The answer ends the search of the table.
settles : Code → Bool
settles more = true
settles done = true
settles not_found = false
settles authenticated = false

is_hook : Cgi → Bool
is_hook espfs_hook = true
is_hook _ = false

-- The URL of the row does not end in an asterisk, and its function is not `cgiEspFsHook`.
is_exact : BuiltInUrl → Bool
is_exact r =
    not (get_or r.url (length r.url - 1) 0 == b'*')
    && not (is_hook (get_or cgis r.cgi_cb espfs_hook))

all_exact : List BuiltInUrl → Bool
all_exact [] = true
all_exact (r ∷ rs) = is_exact r && all_exact rs

url_matches_exact :
    (r : BuiltInUrl) (u : Bytes) → is_exact r ≡ true → url_matches r.url u ≡ str_eq r.url u
unfolding is_exact url_matches
url_matches_exact r u h = ground arith

is_exact-is_hook :
    (r : BuiltInUrl) → is_exact r ≡ true → is_hook (get_or cgis r.cgi_cb espfs_hook) ≡ false
unfolding is_exact
is_exact-is_hook r h = ground arith

-- The row whose URL is the text, or the last.
unfoldable pub page_of : List BuiltInUrl → Bytes → BuiltInUrl → BuiltInUrl
page_of [] u last = last
page_of (r ∷ rs) u last = if str_eq r.url u then r else page_of rs u last

-- The rows above the last, and the last.
abbrev pub pages : List BuiltInUrl
pages = take 19 built_in_urls

abbrev pub catch_all : BuiltInUrl
catch_all = row (codes "*") 17 0

module _ {F : Type 0} (e : Outside F) where
  call-settles :
      (k : Cgi) (w : Firmware F) (c : Conn) → is_hook k ≡ false → settles (call e k w c).0 ≡ true
  unfolding call settles is_hook cgi_redirect cgi_menu cgi_get_firmware_next cgi_upload_firmware
      upload_at checked cgi_reboot_firmware ajax_console_baud ajax_console_reset ajax_log_dbg
      cgi_wifi_conn_status cgi_wifi_info cgi_wifi_scan cgi_wifi_get_scan cgi_wifi_start_scan
      cgi_wifi_connect cgi_wifi_ems_setting cgi_wifi_set_mode cgi_wifi_special static_ip change_over
      ajax_console ajax_log ajax
  call-settles redirect w c h = ground arith
  call-settles menu w c h = ground arith
  call-settles firmware_next w c h = ground arith
  call-settles upload_firmware w c h = ground arith
  call-settles reboot_firmware w c h = ground arith
  call-settles log_text w c h = ground arith
  call-settles log_dbg w c h = ground arith
  call-settles console_reset w c h = ground arith
  call-settles console_baud w c h = ground arith
  call-settles console_text w c h = ground arith
  call-settles wifi_info w c h = ground arith
  call-settles wifi_scan w c h = ground arith
  call-settles wifi_connect w c h = ground arith
  call-settles wifi_conn_status w c h = ground arith
  call-settles wifi_set_mode w c h = ground arith
  call-settles wifi_special w c h = ground arith
  call-settles wifi_ems_setting w c h = ground arith
  call-settles espfs_hook w c h = cc

  abbrev pub Answer : Type 0
  Answer = List Output × Firmware F × Conn

  react-settles :
      (next other : Firmware F → Conn → Answer) (r : Code) (w : Firmware F) (c : Conn)
      → settles r ≡ true
      → react (handlers e) next r w c ≡ react (handlers e) other r w c
  unfolding react settles
  react-settles next other more w c h = refl
  react-settles next other done w c h = refl
  react-settles next other not_found w c h = cc
  react-settles next other authenticated w c h = cc

  -- What the server does with the result of a handler when no row is left.
  abbrev pub finish : Code × Firmware F × Conn → Answer
  finish x = react (handlers e) (try_rows (handlers e) []) x.0 x.1 x.2

  -- The call of the function of a row.
  abbrev pub call_row : BuiltInUrl → Firmware F → Conn → Code × Firmware F × Conn
  call_row r w c = handlers e r.cgi_cb w (assign r c)

  meets :
      (r : BuiltInUrl) (c : Conn) (u : Bytes) (b : Bool)
      → c.url ≡ some u
      → url_matches r.url u ≡ b
      → url_matches r.url (url_of c) ≡ b
  meets r c u b s m =
      ap (λ o. url_matches r.url (elim o as (λ _. Bytes) [ none ↦ [] | some t ↦ t ])) s ∙ m

  try_rows-page_of :
      (rs : List BuiltInUrl) (last : BuiltInUrl) (w : Firmware F) (c : Conn) (u : Bytes)
      → all_exact rs ≡ true
      → c.url ≡ some u
      → url_matches last.url u ≡ true
      → try_rows (handlers e) (rs ++ (last ∷ [])) w c ≡ finish (call_row (page_of rs u last) w c)
  unfolding page_of all_exact
  try_rows-page_of [] last w c u h s m =
      let x = call_row last w c in
      matched (handlers e) last [] w x.1 c x.2 x.0 (meets last c u true s m) refl
  try_rows-page_of (r ∷ rs) last w c u h s m =
      let x = call_row r w c in
      let exact : is_exact r ≡ true = ground (arith, h) in
      if_lem (λ p. try_rows (handlers e) ((r ∷ rs) ++ (last ∷ [])) w c ≡ finish (call_row p w c))
        (str_eq r.url u) r (page_of rs u last)
        (λ t.
          matched (handlers e) r (rs ++ (last ∷ [])) w x.1 c x.2 x.0
            (meets r c u true s (url_matches_exact r u exact ∙ t)) refl
          ∙ react-settles (try_rows (handlers e) (rs ++ (last ∷ []))) (try_rows (handlers e) []) x.0
              x.1 x.2
              (call-settles (get_or cgis r.cgi_cb espfs_hook) w (assign r c)
                (is_exact-is_hook r exact)))
        (λ f.
          unmatched (handlers e) r (rs ++ (last ∷ [])) w c
            (meets r c u false s (url_matches_exact r u exact ∙ f))
          ∙ try_rows-page_of rs last w c u (ground (arith, h)) s m)

  catch_all-url_matches : (u : Bytes) → url_matches catch_all.url u ≡ true
  unfolding url_matches
  catch_all-url_matches u = ground arith

  -- No row of the table hides another. A request is served by the function of the row whose URL is that
  -- of the request, and by `cgiEspFsHook` where there is no such row; where that declines, the error
  -- page follows.
  pub process_request-page_of :
      (w : Firmware F) (c : Conn) (u : Bytes)
      → c.url ≡ some u
      → process_request (handlers e) built_in_urls w c
        ≡ finish (call_row (page_of pages u catch_all) w c)
  unfolding all_exact is_exact is_hook
  process_request-page_of w c u s =
      with_url (handlers e) built_in_urls w c u s
      ∙ try_rows-page_of pages catch_all w c u refl s (catch_all-url_matches u)
