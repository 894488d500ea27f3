-- ===== src/Tests/Firmware.antt =====
-- The upload of firmware at concrete inputs.
use ems_esp_link.Prelude.{
  ℕ, suc, ◌+◌, ◌-◌, ◌/◌, ◌%◌, ◌<◌, ◌≡◌, refl, sym, ap, ◌∙◌, inl, true, false, ◌&&◌, none, some,
  List, [], ◌∷◌, ◌++◌, ltb, leb, ◌==◌, if◌then◌else◌, length, replicate, get_or, arith,
  length-append, length-replicate,
}
use ems_esp_link.Prelude.Text.{Bytes}
use ems_esp_link.EspFs.Memory.{StandsAt}
use ems_esp_link.Httpd.Conn.{Conn, done, post}
use ems_esp_link.Httpd.Pool.{vacant}
use ems_esp_link.CgiFlash.{SpiFlash, Upload, check_header, next_address, sector}
use ems_esp_link.CgiFlash.Partition.{IsNor}
use ems_esp_link.CgiFlash.Chunks.{IsCut, joined, upload, upload-StandsAt}

-- A flash that works as documented.
abbrev memory_flash : SpiFlash (ℕ → ℕ)
memory_flash = record {
  erase_sector = λ s f a. if a / sector == s then 255 else f a;
  write = λ p s f a. if leb p a && ltb a (p + length s) then get_or s (a - p) 0 else f a;
  read = λ p n f. [];
}

abbrev view : (ℕ → ℕ) → ℕ → ℕ
view f a = f a

reads-StandsAt :
    (m : ℕ → ℕ) (p : ℕ) (s : Bytes)
    → ((i : ℕ) → i < length s → m (p + i) ≡ get_or s i 0)
    → StandsAt m p s
unfolding StandsAt
reads-StandsAt m p [] h = tt
reads-StandsAt m p (b ∷ s) h =
    let here : p + 0 ≡ p = omega arith in
    (
      ap m (sym here) ∙ h 0 (omega arith),
      reads-StandsAt m (suc p) s (λ i lt.
          let at : suc p + i ≡ p + suc i = omega arith in ap m at ∙ h (suc i) (omega arith)),
    )

memory_flash-IsNor : IsNor memory_flash view
memory_flash-IsNor = record {
  erased = λ s f a e. ground (arith, e);
  erase_else = λ s f a n. ground (arith, n);
  written = λ p s f blank. reads-StandsAt _ p s (λ i lt.
      let inside : (leb p (p + i) && ltb (p + i) (p + length s)) ≡ true = ground arith in
      let at : p + i - p ≡ i = omega arith in
      ap (λ b. if b then get_or s (p + i - p) 0 else f (p + i)) inside ∙ ap (λ j. get_or s j 0) at);
  write_else = λ p s f a o.
      let off : (leb p a && ltb a (p + length s)) ≡ false = ground (arith, o) in
      ap (λ b. if b then get_or s (a - p) 0 else f a) off;
}

-- An image of 1027 bytes.
abbrev first_chunk : Bytes
first_chunk = (0xea ∷ 4 ∷ 0 ∷ 0 ∷ 0 ∷ 0 ∷ 0x10 ∷ 0x40 ∷ 0 ∷ 0 ∷ 0 ∷ 0 ∷ []) ++ replicate 1012 7

abbrev two_chunks : List Bytes
two_chunks = first_chunk ∷ (1 ∷ 2 ∷ 3 ∷ []) ∷ []

first_chunk-length : length first_chunk ≡ 1024
first_chunk-length = omega (arith, length-replicate {A = ℕ} 1012 7)

joined-length : length (joined two_chunks) ≡ 1027
joined-length = omega (arith, first_chunk-length, length-append first_chunk (1 ∷ 2 ∷ 3 ∷ []))

two_chunks-IsCut : IsCut two_chunks
unfolding IsCut
two_chunks-IsCut = (first_chunk-length, (omega arith, omega arith))

first_chunk-header : check_header first_chunk ≡ none
unfolding check_header
first_chunk-header = refl

address-aligned : next_address memory_flash 4096 1 % 4096 ≡ 0
unfolding next_address
address-aligned = refl

address-positive : 0 < next_address memory_flash 4096 1
unfolding next_address
address-positive = omega arith

abbrev old_flash : Upload (ℕ → ℕ)
old_flash = record { cgi_priv_data = true; flash = λ a. 9; rebooting = false }

abbrev browser : Conn
browser = record vacant { conn = some 2; request_type = post }

upload-StandsAt_example :
    (u' : Upload (ℕ → ℕ)) × (upload memory_flash 4096 1 browser 1027 0 two_chunks old_flash
      ≡ (done, u'))
    × (u'.cgi_priv_data ≡ false)
    × StandsAt (view u'.flash) (next_address memory_flash 4096 1) (joined two_chunks)
    × (view u'.flash 0 ≡ view old_flash.flash 0)
upload-StandsAt_example =
    upload-StandsAt memory_flash 4096 1 view memory_flash-IsNor old_flash.flash browser refl refl
      1027 (omega arith) (omega arith) (omega arith) address-aligned two_chunks old_flash 0 refl
      two_chunks-IsCut joined-length first_chunk-header (inl address-positive)
