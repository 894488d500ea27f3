-- ===== src/Httpd/Files/Serve.antt =====
-- From the builder of the image to the network: what `cgiEspFsHook` sends for a file.
use ems_esp_link.Prelude.{
  ℕ, suc, ◌+◌, ◌/◌, ◌%◌, ◌^◌, ◌<◌, ◌≡◌, refl, sym, ap, subst, ◌∙◌, Bool, true, false, not, ◌&&◌,
  Option, none, some, List, [], ◌++◌, ◌==◌, if◌then◌else◌, if_lem, length, arith, All, get_or,
}
use ems_esp_link.Prelude.Text.{Bytes, codes, strstr}
use ems_esp_link.EspFs.{
  Memory, EspFsFile, bytes_at, espfs_flags, espfs_open, from_int8, strip_slashes,
}
use ems_esp_link.EspFs.Memory.{IsByteWise, StandsAt, memcpy_aligned-bytes_at}
use ems_esp_link.MkEspfs.{Compressor, build, real_name}
use ems_esp_link.MkEspfs.Image.Open.{
  IsGoodName, IsFile, Matches, Matches-IsFile, wanted, espfs_open-build,
}
use ems_esp_link.Httpd.Conn.{Conn, Code, more, done}
use ems_esp_link.Httpd.Send.{send, start_response, header, end_headers}
use ems_esp_link.Httpd.Dispatch.{url_of}
use ems_esp_link.Httpd.Files.{
  FileWorld, keep, is_null, is_gzip, accept_encoding, gzip_non_supported_message, mimetype,
  answer_head, first_call, open_url, opened_call, called, cgi_espfs_hook, follow, serve,
  espfs_close,
}
use ems_esp_link.Httpd.Files.Transfer.{payload, serve-rest}

-- The connection and the memory of its handler are the same.
abbrev Keeps : Conn → Conn → Type 0
Keeps c c' = (c'.conn ≡ c.conn) × (c'.cgi_data ≡ c.cgi_data)

send-Keeps : (c c' : Conn) (text : Bytes) → Keeps c c' → Keeps c (send c' text).1
unfolding send
send-Keeps c c' text k =
    if_lem {A = Bool × Conn} (λ r. Keeps c r.1) _ (false, c') _ (λ _. k) (λ _. k)

start_response-Keeps : (c c' : Conn) (code : ℕ) → Keeps c c' → Keeps c (start_response c' code)
unfolding start_response
start_response-Keeps c c' code k = send-Keeps c c' _ k

header-Keeps : (c c' : Conn) (field val : Bytes) → Keeps c c' → Keeps c (header c' field val)
unfolding header
header-Keeps c c' field val k = send-Keeps c c' _ k

end_headers-Keeps : (c c' : Conn) → Keeps c c' → Keeps c (end_headers c')
unfolding end_headers
end_headers-Keeps c c' k = send-Keeps c c' _ k

answer_head-Keeps : (gzip : Bool) (c : Conn) → Keeps c (answer_head gzip c)
unfolding answer_head
answer_head-Keeps gzip c =
    let c1 = start_response c 200 in
    let c2 = header c1 (codes "Content-Type") (mimetype c) in
    let k2 =
      header-Keeps c c1 (codes "Content-Type") (mimetype c)
        (start_response-Keeps c c 200 (refl, refl)) in
    let c3 = if gzip then header c2 (codes "Content-Encoding") (codes "gzip") else c2 in
    let k3 : Keeps c c3 =
      if_lem (Keeps c) gzip (header c2 (codes "Content-Encoding") (codes "gzip")) c2
        (λ _. header-Keeps c c2 (codes "Content-Encoding") (codes "gzip") k2) (λ _. k2) in
    end_headers-Keeps c (header c3 (codes "Cache-Control") (codes "max-age=3600, must-revalidate"))
      (header-Keeps c c3 (codes "Cache-Control") (codes "max-age=3600, must-revalidate") k3)

is_gzip-from_int8 : (fl : ℕ) → fl < 2 ^ 8 → is_gzip (from_int8 fl) ≡ is_gzip fl
is_gzip-from_int8 fl lt = ground arith

espfs_flags_lem :
    (m : Memory) (f : EspFsFile) (fl : ℕ) (body : Bytes)
    → IsByteWise m
    → IsFile m f fl body
    → is_gzip (espfs_flags m (some f)) ≡ is_gzip fl
unfolding espfs_flags bytes_at
espfs_flags_lem m f fl body h k =
    ap (λ s. is_gzip (from_int8 (get_or s 0 0))) (memcpy_aligned-bytes_at m (f.header + 4) 1 h)
    ∙ is_gzip-from_int8 (m (f.header + 4)) (h (f.header + 4))
    ∙ ap is_gzip k.flags

module _ (version : Bytes) (m : Memory) (bytewise : IsByteWise m) where
  first_hook :
      (start : Option ℕ) (fuel k : ℕ) (f : EspFsFile) (w : FileWorld) (c : Conn)
      → is_null c.conn ≡ false
      → c.cgi_data ≡ none
      → w.given ≡ some k
      → open_url version m start fuel w c ≡ some (some f)
      → cgi_espfs_hook version m start fuel w c ≡ some (first_call version m k f w c)
  unfolding cgi_espfs_hook called opened_call
  first_hook start fuel k f w c live fresh given o =
      let hooked : Bool → Option (Code × FileWorld × Conn) = λ b.
        if b
        then some (done, espfs_close c.cgi_data w, c)
        else called version m start fuel c.cgi_data w c in
      ap hooked live
      ∙ (ap (λ d. called version m start fuel d w c) fresh
          ∙ (ap (λ x. opened_call version m x w.given w c) o
              ∙ ap (λ g. opened_call version m (some (some f)) g w c) given))

  first_call_lem :
      (k : ℕ) (f : EspFsFile) (w : FileWorld) (c : Conn)
      → (is_gzip (espfs_flags m (some f)) && is_null (strstr (accept_encoding w c) (codes "gzip")))
        ≡ false
      → first_call version m k f w c ≡ (
        more,
        keep k (some f) w,
        answer_head (is_gzip (espfs_flags m (some f))) (record c { cgi_data = some k }),
      )
  unfolding first_call
  first_call_lem k f w c e =
      ap
        (λ b.
          if b then (done, keep k none w, (send c (gzip_non_supported_message version)).1) else (
            more,
            keep k (some f) w,
            answer_head (is_gzip (espfs_flags m (some f))) (record c { cgi_data = some k }),
          ))
        e

  -- A file that has just been found is sent to its end.
  serve-IsFile :
      (start : Option ℕ) (fuel k fl : ℕ) (f : EspFsFile) (body : Bytes) (w : FileWorld) (c : Conn)
      → is_null c.conn ≡ false
      → c.cgi_data ≡ none
      → w.given ≡ some k
      → open_url version m start fuel w c ≡ some (some f)
      → IsFile m f fl body
      → (is_gzip fl && is_null (strstr (accept_encoding w c) (codes "gzip"))) ≡ false
      → (w' : FileWorld) × (c' : Conn) × (serve version m start fuel (length body / 1024 + 2) w c
          ≡ some (w', c'))
        × (payload w'.wire ≡ payload w.wire ++ body)
        × (w'.files k ≡ none)
  unfolding serve
  serve-IsFile start fuel k fl f body w c live fresh given o file accepted =
      let gz : is_gzip (espfs_flags m (some f)) ≡ is_gzip fl =
        espfs_flags_lem m f fl body bytewise file in
      let c1 : Conn =
        answer_head (is_gzip (espfs_flags m (some f))) (record c { cgi_data = some k }) in
      let same : Keeps (record c { cgi_data = some k }) c1 =
        answer_head-Keeps (is_gzip (espfs_flags m (some f))) (record c { cgi_data = some k }) in
      let w1 : FileWorld = keep k (some f) w in
      let self : (k == k) ≡ true = ground arith in
      let step : cgi_espfs_hook version m start fuel w c ≡ some (more, w1, c1) =
        first_hook start fuel k f w c live fresh given o
        ∙ ap (λ r. some r)
            (first_call_lem k f w c (
              ap (λ g. g && is_null (strstr (accept_encoding w c) (codes "gzip"))) gz
              ∙ accepted)) in
      let rounds : length body / 1024 + 2 ≡ suc (length body / 1024 + 1) = omega arith in
      let (w', c', run, sent, shut) =
        serve-rest version m bytewise (length body / 1024 + 1) start fuel k f (length body) body w1
          (record c1 { send_buff = [] }) (ap is_null same.0 ∙ live) same.1
          (ap (λ b. if b then some f else w.files k) self)
          (record {
            plain = file.plain;
            len = file.len;
            place = ap (λ q. q + length body) (sym file.start);
            content = file.content;
            left = omega arith;
            fits = subst (λ q. q + length body < 2 ^ 31) (sym file.start) file.fits;
          })
          (omega arith) in
      (
        w',
        c',
        ap (λ n. serve version m start fuel n w c) rounds
            ∙ (ap (follow (serve version m start fuel (length body / 1024 + 1))) step ∙ run),
        sent,
        shut,
      )

  -- From the builder to the network. An image that the builder makes of some files stands at an
  -- aligned address of memory, below 2 GiB, with names of at most 254 bytes and no terminator. A
  -- request is new, on a connection that is up, there is memory for a file, and its URL, less slashes in
  -- front, names a file of the image, which is not compressed or the client accepts gzip. Then the
  -- calls of the handler end within one for each 1024 bytes and two more, they hand the network
  -- exactly the bytes that the builder stored, in order, and the file is closed.
  pub serve-build :
      (gzip : Compressor) (exts : List Bytes) (compression level : ℕ)
      (files : List (Bytes × Option Bytes)) (img : Bytes) (base k fl : ℕ) (body : Bytes)
      (w : FileWorld) (c : Conn)
      → build gzip exts compression level files ≡ some img
      → All (λ file. IsGoodName (real_name file.0)) files
      → base % 4 ≡ 0
      → base + length img < 2 ^ 31
      → StandsAt m base img
      → is_null c.conn ≡ false
      → c.cgi_data ≡ none
      → w.given ≡ some k
      → wanted gzip exts compression level (strip_slashes (url_of c)) files ≡ some (fl, body)
      → (is_gzip fl && is_null (strstr (accept_encoding w c) (codes "gzip"))) ≡ false
      → (w' : FileWorld) × (c' : Conn) × (serve version m
            (some base)
            (suc (length files))
            (length body / 1024 + 2)
            w
            c
          ≡ some (w', c'))
        × (payload w'.wire ≡ payload w.wire ++ body)
        × (w'.files k ≡ none)
  unfolding open_url
  serve-build gzip exts compression level files img base k fl body w c e good al fits s live fresh
        given want accepted =
      let (r, opens, match) =
        (espfs_open-build gzip exts compression level files img m base (url_of c) e good al fits
          s).1 in
      let (f, is_f, file) = Matches-IsFile m r fl body (subst (Matches m r) want match) in
      let url : open_url version m (some base) (suc (length files)) w c ≡ some (some f) =
        ap (λ g. espfs_open (suc (length files)) m (some base) (url_of c) (not (is_null g))) given
        ∙ (opens ∙ ap (λ o. some o) is_f) in
      serve-IsFile (some base) (suc (length files)) k fl f body w c live fresh given url file
        accepted
