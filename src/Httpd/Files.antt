-- ===== src/Httpd/Files.antt =====
-- Static files over HTTP, `cgiEspFsHook` of httpd/httpdespfs.c. The memory behind the flash, `espFsData`
-- and the rounds of the search are parameters.
pub mod Transfer
pub mod Serve
use ems_esp_link.Prelude.{
  ℕ, zero, suc, ◌+◌, ◌-◌, ◌/◌, ◌%◌, ◌^◌, Bool, true, false, not, ◌&&◌, Option, none, some, List, [],
  ◌∷◌, ◌++◌, ltb, ◌==◌, if◌then◌else◌, length,
}
use ems_esp_link.Prelude.Text.{Bytes, codes, c_string, strstr}
use ems_esp_link.Prelude.Words.{slt}
use ems_esp_link.EspFs.{Memory, EspFsFile, espfs_open, espfs_flags, espfs_read}
use ems_esp_link.Httpd.Conn.{Conn, Code, more, done, not_found, authenticated}
use ems_esp_link.Httpd.Send.{send, start_response, header, end_headers}
use ems_esp_link.Httpd.Head.{get_header}
use ems_esp_link.Httpd.Mime.{get_mimetype}
use ems_esp_link.Httpd.Dispatch.{url_of}

-- The open files by their address, what `os_malloc` gives for the next one, the bytes on the stack
-- where `acceptEncodingBuffer` lies, and the calls of `espconn_sent`.
pub record FileWorld : Type 0 where
  pub files : ℕ → Option EspFsFile
  pub given : Option ℕ
  pub stack : Bytes
  pub wire : List (Option ℕ × Bytes)

-- `gzipNonSupportedMessage`, with the version that the build gives.
abbrev pub gzip_non_supported_message : Bytes → Bytes
gzip_non_supported_message version =
    codes "HTTP/1.0 501 Not implemented\r\nServer: esp8266-httpd/"
    ++ (version
        ++ codes
            "\r\nConnection: close\r\nContent-Type: text/plain\r\nContent-Length: 52\r\n\r\nYour browser does not accept gzip-compressed data.\r\n")

-- A file is stored at an address, or closed.
abbrev pub keep : ℕ → Option EspFsFile → FileWorld → FileWorld
keep k o w = record w { files = λ j. if j == k then o else w.files j }

-- `espFsClose`
abbrev pub espfs_close : Option ℕ → FileWorld → FileWorld
espfs_close none w = w
espfs_close (some k) w = keep k none w

abbrev pub is_null {ℓ} : {A : Type ℓ} → Option A → Bool
is_null none = true
is_null (some x) = false

-- What stands in `acceptEncodingBuffer`: a header that is not there leaves it as it was.
unfoldable pub accept_encoding : FileWorld → Conn → Bytes
accept_encoding w c = elim (get_header (codes "Accept-Encoding") 64 c.head) [
  | none ↦ c_string w.stack
  | some val ↦ val
]

-- FLAG_GZIP is set.
abbrev pub is_gzip : ℕ → Bool
is_gzip flags = flags / 2 % 2 == 1

abbrev pub mimetype : Conn → Bytes
mimetype c = elim (get_mimetype (url_of c)) [ none ↦ [] | some t ↦ t ]

-- The head of the answer.
unfoldable pub answer_head : Bool → Conn → Conn
answer_head gzip c =
    let c1 = start_response c 200 in
    let c2 = header c1 (codes "Content-Type") (mimetype c) in
    let c3 = if gzip then header c2 (codes "Content-Encoding") (codes "gzip") else c2 in
    end_headers (header c3 (codes "Cache-Control") (codes "max-age=3600, must-revalidate"))

module _ (version : Bytes) (m : Memory) where
  -- The first call, with the file that has been opened at an address.
  unfoldable pub first_call : ℕ → EspFsFile → FileWorld → Conn → Code × FileWorld × Conn
  first_call k f w c =
      let gzip = is_gzip (espfs_flags m (some f)) in
      if gzip && is_null (strstr (accept_encoding w c) (codes "gzip"))
      then (done, keep k none w, (send c (gzip_non_supported_message version)).1)
      else (more, keep k (some f) w, answer_head gzip (record c { cgi_data = some k }))

  -- What follows the read of the file at an address.
  unfoldable pub after_read :
      ℕ → FileWorld → Conn → ℕ → Bytes → Option EspFsFile → Code × FileWorld × Conn
  after_read k w c len text f =
      let w1 = if slt 0 len then record w { wire = w.wire ++ ((c.conn, text) ∷ []) } else w in
      if not (len == 1024) then (done, keep k none w1, c) else (more, keep k f w1, c)

  -- A later call, with the file at an address.
  unfoldable pub next_call : ℕ → FileWorld → Conn → Code × FileWorld × Conn
  next_call k w c = let r = espfs_read m (w.files k) 1024 in after_read k w c r.0 r.1 r.2

  -- The file of the URL: `none` where the search has not ended.
  unfoldable pub open_url : Option ℕ → ℕ → FileWorld → Conn → Option (Option EspFsFile)
  open_url start fuel w c = espfs_open fuel m start (url_of c) (not (is_null w.given))

  unfoldable pub opened_call :
      Option (Option EspFsFile) → Option ℕ → FileWorld → Conn → Option (Code × FileWorld × Conn)
  opened_call none given w c = none
  opened_call (some none) given w c = some (not_found, w, c)
  opened_call (some (some f)) none w c = some (not_found, w, c)
  opened_call (some (some f)) (some k) w c = some (first_call k f w c)

  unfoldable pub called :
      Option ℕ → ℕ → Option ℕ → FileWorld → Conn → Option (Code × FileWorld × Conn)
  called start fuel none w c = opened_call (open_url start fuel w c) w.given w c
  called start fuel (some k) w c = some (next_call k w c)

  -- `cgiEspFsHook`
  unfoldable pub cgi_espfs_hook : Option ℕ → ℕ → FileWorld → Conn → Option (Code × FileWorld × Conn)
  cgi_espfs_hook start fuel w c =
      if is_null c.conn
      then some (done, espfs_close c.cgi_data w, c)
      else called start fuel c.cgi_data w c

-- The next call follows only when there is more.
abbrev pub carry_on :
    Code → Option (FileWorld × Conn) → FileWorld → Conn → Option (FileWorld × Conn)
carry_on more rest w c = rest
carry_on done rest w c = some (w, c)
carry_on not_found rest w c = some (w, c)
carry_on authenticated rest w c = some (w, c)

-- A call, and the next ones where there is more.
abbrev pub follow :
    (FileWorld → Conn → Option (FileWorld × Conn))
    → Option (Code × FileWorld × Conn)
    → Option (FileWorld × Conn)
follow go none = none
follow go (some (r, w, c)) = carry_on r (go w (record c { send_buff = [] })) w c

-- The calls for one request, each after the data of the one before is acknowledged, and the world and
-- the connection after the last: `none` where the rounds are too few.
unfoldable pub serve :
    Bytes → Memory → Option ℕ → ℕ → ℕ → FileWorld → Conn → Option (FileWorld × Conn)
serve version m start fuel zero w c = none
serve version m start fuel (suc n) w c =
    follow (serve version m start fuel n) (cgi_espfs_hook version m start fuel w c)
