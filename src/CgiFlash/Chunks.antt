-- ===== src/CgiFlash/Chunks.antt =====
-- An upload to user/cgiflash.c in the chunks in which httpd/httpd.c hands it over.
use ems_esp_link.Prelude.{
  ℕ, ◌+◌, ◌%◌, ◌^◌, ◌<◌, ◌≤◌, ◌≡◌, refl, sym, ap, subst, ◌∙◌, Bool, true, false, not, ◌&&◌, ◌||◌,
  ◌⊎◌, Option, none, some, List, [], ◌∷◌, ◌++◌, ◌==◌, if◌then◌else◌, if_lem, length, arith,
  append-nil, append_assoc, length-append,
}
use ems_esp_link.Prelude.Text.{Bytes}
use ems_esp_link.Prelude.Words.{slt, sub32}
use ems_esp_link.Httpd.Conn.{Conn, Code, more, done, not_found, authenticated, post}
use ems_esp_link.Httpd.Files.{is_null}
use ems_esp_link.CgiFlash.{
  SpiFlash, Upload, check_header, put_chunk, is_post, request_error, header_error, buffer_error,
  upload_error, checked, begun, upload_at, cgi_upload_firmware, next_address,
}
use ems_esp_link.EspFs.Memory.{StandsAt}
use ems_esp_link.CgiFlash.Partition.{IsNor, Holds, put_chunk-Holds}

-- The connection when a chunk is in the buffer.
abbrev pub with_chunk : Conn → ℕ → ℕ → Bytes → Conn
with_chunk c total received chunk = record c {
  body = record c.body { len = total; received = received; buff = some chunk };
}

abbrev pub joined : List Bytes → Bytes
joined [] = []
joined (chunk ∷ chunks) = chunk ++ joined chunks

-- Every chunk has 1024 bytes, but for the last, which may have fewer and has one at least.
unfoldable pub IsCut : List Bytes → Type 0
IsCut [] = ⊥
IsCut (chunk ∷ []) = (0 < length chunk) × (length chunk ≤ 1024)
IsCut (chunk ∷ next ∷ chunks) = (length chunk ≡ 1024) × IsCut (next ∷ chunks)

-- The next chunk is handed over where more is asked for.
abbrev go_on : {F : Type 0} → Code → Code × Upload F → Upload F → Code × Upload F
go_on more rest u = rest
go_on done rest u = (done, u)
go_on not_found rest u = (not_found, u)
go_on authenticated rest u = (authenticated, u)

and_false : (x : Bool) → (x && false) ≡ false
and_false true = refl
and_false false = refl

both : (x y : Bool) → x && y ≡ true → y ≡ true
both true y e = e
both false y e = cc

-- Some bytes are left in every cut.
IsCut-positive : (chunks : List Bytes) → IsCut chunks → 0 < length (joined chunks)
unfolding IsCut
IsCut-positive [] k = elim k [ ]
IsCut-positive (chunk ∷ []) k = omega (arith, k.0, length-append chunk [])
IsCut-positive (chunk ∷ next ∷ chunks) k =
    omega (arith, k.0, length-append chunk (joined (next ∷ chunks)))

-- The header of the first chunk is in order.
abbrev pub StartsWell : List Bytes → Type 0
StartsWell [] = Unit
StartsWell (chunk ∷ chunks) = check_header chunk ≡ none

module _ {F : Type 0} (spi : SpiFlash F) (firmware_size id : ℕ) where
  -- The calls for an upload of `total` bytes, of which `sent` have been handed over.
  unfoldable pub upload : Conn → ℕ → ℕ → List Bytes → Upload F → Code × Upload F
  upload c total sent [] u = (more, u)
  upload c total sent (chunk ∷ chunks) u =
      let r =
        cgi_upload_firmware spi firmware_size id u
          (with_chunk c total (sent + length chunk) chunk) in
      go_on r.0 (upload c total (sent + length chunk) chunks r.1) r.1

  upload_error_lem :
      (c : Conn) (total sent : ℕ) (chunk : Bytes)
      → c.request_type ≡ post
      → 1024 ≤ total
      → total ≤ firmware_size
      → firmware_size < 2 ^ 30
      → sent % 1024 ≡ 0
      → (sent ≡ 0 → check_header chunk ≡ none)
      → upload_error spi firmware_size id sent (with_chunk c total (sent + length chunk) chunk)
        ≡ none
  unfolding upload_error
  upload_error_lem c total sent chunk p ge le small al head =
      let q : Conn = with_chunk c total (sent + length chunk) chunk in
      let none_at : Option Bytes → Type 0 = λ r. r ≡ none in
      let posted : is_post c.request_type ≡ true = ap is_post p in
      let long : slt total 1024 ≡ false = ground (arith, ge, le, small) in
      let short : slt firmware_size total ≡ false = ground (arith, ge, le, small) in
      let asked : (not (is_post c.request_type) || slt total 1024) ≡ false =
        ap (λ b. not b || slt total 1024) posted ∙ long in
      let request : request_error spi firmware_size id q ≡ none =
        if_lem none_at (not (is_post c.request_type) || slt total 1024) _ _ (λ e. cc (e, asked))
          (λ _. if_lem none_at (slt firmware_size total) _ _ (λ e. cc (e, short)) (λ _. refl)) in
      let begins : header_error spi firmware_size id sent q ≡ none =
        if_lem none_at (is_null (request_error spi firmware_size id q) && sent == 0) _ _
          (λ e. head (
            let z = both (is_null (request_error spi firmware_size id q)) (sent == 0) e in
            ground (arith, z)))
          (λ _. request) in
      ap (buffer_error spi firmware_size id sent) begins
      ∙ if_lem (λ (r : Option (ℕ × Bytes)). r ≡ none) (not (sent % 1024 == 0)) _ _
          (λ e. ground (arith, e, al)) (λ _. refl)

  upload_at_lem :
      (c : Conn) (total sent : ℕ) (chunk : Bytes) (u : Upload F)
      → is_null c.conn ≡ false
      → (not (sent == 0) && u.cgi_priv_data) ≡ false
      → upload_error spi firmware_size id sent (with_chunk c total (sent + length chunk) chunk)
        ≡ none
      → upload_at spi firmware_size id sent u (with_chunk c total (sent + length chunk) chunk)
        ≡ checked spi firmware_size id sent none
            (begun spi firmware_size id sent u)
            (with_chunk c total (sent + length chunk) chunk)
  unfolding upload_at
  upload_at_lem c total sent chunk u live fine none_yet =
      let q : Conn = with_chunk c total (sent + length chunk) chunk in
      let good : Code × Upload F × Conn → Type 0 =
        λ r. r ≡ checked spi firmware_size id sent none (begun spi firmware_size id sent u) q in
      if_lem good (is_null c.conn) _ _ (λ e. cc (e, live))
        (λ _.
          if_lem good (not (sent == 0) && u.cgi_priv_data) _ _ (λ e. cc (e, fine))
            (λ _.
              ap (λ o. checked spi firmware_size id sent o (begun spi firmware_size id sent u) q)
                none_yet))

  -- A call without an error: the chunk is written behind what has been sent.
  call_lem :
      (c : Conn) (total sent : ℕ) (chunk : Bytes) (u : Upload F)
      → is_null c.conn ≡ false
      → c.request_type ≡ post
      → 1024 ≤ total
      → total ≤ firmware_size
      → firmware_size < 2 ^ 30
      → sent + length chunk ≤ total
      → sent % 1024 ≡ 0
      → (sent ≡ 0 → check_header chunk ≡ none)
      → (not (sent == 0) && u.cgi_priv_data) ≡ false
      → cgi_upload_firmware spi firmware_size id u (with_chunk c total (sent + length chunk) chunk)
        ≡ checked spi firmware_size id sent none
            (begun spi firmware_size id sent u)
            (with_chunk c total (sent + length chunk) chunk)
  unfolding cgi_upload_firmware
  call_lem c total sent chunk u live p ge le small fits al head fine =
      let offset : sub32 (sent + length chunk) (length chunk) ≡ sent =
        omega (arith, fits, le, small) in
      ap (λ o. upload_at spi firmware_size id o u (with_chunk c total (sent + length chunk) chunk))
        offset
      ∙ upload_at_lem c total sent chunk u live fine
          (upload_error_lem c total sent chunk p ge le small al head)

  begun-cgi_priv_data :
      (sent : ℕ) (u : Upload F)
      → (not (sent == 0) && u.cgi_priv_data) ≡ false
      → (begun spi firmware_size id sent u).cgi_priv_data ≡ false
  begun-cgi_priv_data sent u fine =
      if_lem (λ (v : Upload F). v.cgi_priv_data ≡ false) (sent == 0) _ _ (λ _. refl)
        (λ e. ap (λ b. not b && u.cgi_priv_data) (sym e) ∙ fine)

  begun-flash : (sent : ℕ) (u : Upload F) → (begun spi firmware_size id sent u).flash ≡ u.flash
  begun-flash sent u =
      if_lem (λ (v : Upload F). v.flash ≡ u.flash) (sent == 0) _ _ (λ _. refl) (λ _. refl)

  -- What a call without an error does.
  stored_by : (sent : ℕ) (chunk : Bytes) (u : Upload F) → Upload F
  stored_by sent chunk u = record (begun spi firmware_size id sent u) {
    flash =
        put_chunk spi (next_address spi firmware_size id + sent) chunk
          (begun spi firmware_size id sent u).flash;
  }

  checked_lem :
      (c : Conn) (total sent : ℕ) (chunk : Bytes) (u : Upload F) (rest : Upload F → Code × Upload F)
      (b : Bool)
      → (sent + length chunk == total) ≡ b
      → (let r =
            checked spi firmware_size id sent none
              (begun spi firmware_size id sent u)
              (with_chunk c total (sent + length chunk) chunk) in
          go_on r.0 (rest r.1) r.1)
        ≡ (if b then (done, stored_by sent chunk u) else rest (stored_by sent chunk u))
  unfolding checked stored_by
  checked_lem c total sent chunk u rest true e =
      if_lem
        (λ (r : Code × Upload F × Conn). go_on r.0 (rest r.1) r.1 ≡ (done, stored_by sent chunk u))
        (sent + length chunk == total) _ _ (λ _. refl) (λ d. cc (e, d))
  checked_lem c total sent chunk u rest false e =
      if_lem
        (λ (r : Code × Upload F × Conn). go_on r.0 (rest r.1) r.1 ≡ rest (stored_by sent chunk u))
        (sent + length chunk == total) _ _ (λ d. cc (e, d)) (λ _. refl)

  module _ (byte : F → ℕ → ℕ) (nor : IsNor spi byte) (start : F) (c : Conn)
      (live : is_null c.conn ≡ false) (posted : c.request_type ≡ post) (total : ℕ)
      (ge : 1024 ≤ total) (le : total ≤ firmware_size) (small : firmware_size < 2 ^ 30)
      (aligned : next_address spi firmware_size id % 4096 ≡ 0) where
    stored_by-Holds :
        (s chunk : Bytes) (u : Upload F)
        → length s % 1024 ≡ 0
        → length chunk ≤ 1024
        → Holds spi byte nor start (next_address spi firmware_size id) s u.flash
        → Holds spi byte nor start
            (next_address spi firmware_size id)
            (s ++ chunk)
            (stored_by (length s) chunk u).flash
    unfolding stored_by
    stored_by-Holds s chunk u al short h =
        put_chunk-Holds spi byte nor start (next_address spi firmware_size id) s chunk
          (begun spi firmware_size id (length s) u).flash (omega arith) short
          (subst (Holds spi byte nor start (next_address spi firmware_size id) s)
            (sym (begun-flash (length s) u)) h)

    upload-IsCut :
        (chunks : List Bytes) (s : Bytes) (u : Upload F)
        → IsCut chunks
        → length s % 1024 ≡ 0
        → length s + length (joined chunks) ≡ total
        → (length s ≡ 0 → StartsWell chunks)
        → (not (length s == 0) && u.cgi_priv_data) ≡ false
        → Holds spi byte nor start (next_address spi firmware_size id) s u.flash
        → (u' : Upload F) × (upload c total (length s) chunks u ≡ (done, u'))
          × Holds spi byte nor start
              (next_address spi firmware_size id)
              (s ++ joined chunks)
              u'.flash
          × (u'.cgi_priv_data ≡ false)
    unfolding upload IsCut stored_by
    upload-IsCut [] s u cut al sum head fine h = elim cut [ ]
    upload-IsCut (chunk ∷ []) s u cut al sum head fine h =
        let n : length (chunk ++ []) ≡ length chunk + 0 = length-append chunk [] in
        let call =
          call_lem c total (length s) chunk u live posted ge le small (omega (arith, n, sum)) al
            head fine in
        let over : (length s + length chunk == total) ≡ true = ground (arith, n, sum) in
        (
          stored_by (length s) chunk u,
          ap (λ r. go_on r.0 (upload c total (length s + length chunk) [] r.1) r.1) call
              ∙ checked_lem c total (length s) chunk u (upload c total (length s + length chunk) [])
                  true over,
          subst
              (λ t.
                Holds spi byte nor start (next_address spi firmware_size id) (s ++ t)
                  (stored_by (length s) chunk u).flash)
              (sym (append-nil chunk)) (stored_by-Holds s chunk u al cut.1 h),
          begun-cgi_priv_data (length s) u fine,
        )
    upload-IsCut (chunk ∷ next ∷ chunks) s u cut al sum head fine h =
        let n : length (chunk ++ joined (next ∷ chunks))
            ≡ length chunk + length (joined (next ∷ chunks)) =
          length-append chunk (joined (next ∷ chunks)) in
        let call =
          call_lem c total (length s) chunk u live posted ge le small (omega (arith, n, sum)) al
            head fine in
        let more_left : (length s + length chunk == total) ≡ false =
          ground (arith, n, sum, IsCut-positive (next ∷ chunks) cut.1) in
        let len : length (s ++ chunk) ≡ length s + length chunk = length-append s chunk in
        let v : Upload F = stored_by (length s) chunk u in
        let (u', run, held, clean) =
          upload-IsCut (next ∷ chunks) (s ++ chunk) v cut.1 (omega (arith, len, cut.0, al))
            (omega (arith, len, n, sum)) (λ z. absurd (omega (arith, len, cut.0, z)))
            (ap (λ p. not (length (s ++ chunk) == 0) && p) (begun-cgi_priv_data (length s) u fine)
              ∙ and_false (not (length (s ++ chunk) == 0)))
            (stored_by-Holds s chunk u al (omega (arith, cut.0)) h) in
        (
          u',
          ap (λ r. go_on r.0 (upload c total (length s + length chunk) (next ∷ chunks) r.1) r.1)
                call
              ∙ (checked_lem c total (length s) chunk u
                    (upload c total (length s + length chunk) (next ∷ chunks)) false more_left
                  ∙ (ap (λ k. upload c total k (next ∷ chunks) v) (sym len) ∙ run)),
          subst (λ t. Holds spi byte nor start (next_address spi firmware_size id) t u'.flash)
              (append_assoc s chunk (joined (next ∷ chunks))) held,
          clean,
        )

    -- A firmware image comes as a POST over a connection that is up, in chunks of 1024 bytes but for the
    -- last, which is not empty. It has at least 1024 bytes and at most the firmware size, which is
    -- below 1 GiB, its header is in order, and the partition starts at a sector. On flash that works as
    -- documented, the calls then end with the last chunk and without an error, the image stands in the
    -- partition that is not booted, and a byte in front of it or a sector behind it is as it was.
    pub upload-StandsAt :
        (chunks : List Bytes) (u : Upload F) (a : ℕ)
        → u.flash ≡ start
        → IsCut chunks
        → length (joined chunks) ≡ total
        → StartsWell chunks
        → (a < next_address spi firmware_size id)
          ⊎ (next_address spi firmware_size id + total + 4096 ≤ a)
        → (u' : Upload F) × (upload c total 0 chunks u ≡ (done, u'))
          × (u'.cgi_priv_data ≡ false)
          × StandsAt (byte u'.flash) (next_address spi firmware_size id) (joined chunks)
          × (byte u'.flash a ≡ byte start a)
    unfolding StandsAt
    upload-StandsAt chunks u a begins cut sum head off =
        let empty : Holds spi byte nor start (next_address spi firmware_size id) [] start = record {
          stored = tt;
          blank = λ a odd ge e. absurd (omega (arith, odd, aligned));
          outside = λ a o. refl;
        } in
        let (u', run, held, clean) =
          upload-IsCut chunks [] u cut (omega arith) (omega (arith, sum)) (λ _. head) refl
            (subst (Holds spi byte nor start (next_address spi firmware_size id) []) (sym begins)
              empty) in
        (u', run, clean, held.stored, held.outside a (ground (arith, off, sum)))
