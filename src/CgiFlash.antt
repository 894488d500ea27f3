-- ===== src/CgiFlash.antt =====
-- Upload of firmware, user/cgiflash.c. The flash functions of the SDK and the partition that it boots
-- are parameters.
pub mod Partition
pub mod Chunks
use ems_esp_link.Prelude.{
  ℕ, ◌+◌, ◌-◌, ◌*◌, ◌/◌, ◌%◌, ◌^◌, Bool, true, false, not, ◌&&◌, ◌||◌, Option, none, some, List, [],
  ◌∷◌, ◌++◌, ltb, ◌==◌, if◌then◌else◌, length, get_or,
}
use ems_esp_link.Prelude.Text.{Bytes, codes}
use ems_esp_link.Prelude.Words.{slt, sub32}
use ems_esp_link.EspFs.{le16, le32}
use ems_esp_link.Httpd.Conn.{Conn, Code, more, done, Method, unset, get, post}
use ems_esp_link.Httpd.Send.{send, start_response, header, end_headers}
use ems_esp_link.Httpd.Files.{is_null}

-- `check_header`: an error, or `none`.
unfoldable pub check_header : Bytes → Option Bytes
check_header cd =
    if not (get_or cd 0 0 == 0xea)
    then some (codes "IROM magic missing")
    else if not (get_or cd 1 0 == 4) || (ltb 3 (get_or cd 2 0) || ltb 6 (get_or cd 3 0 / 2 ^ 4))
    then some (codes "bad flash header")
    else if not (le16 cd 6 == 0x4010)
    then some (codes "Invalid entry addr")
    else if not (le32 cd 8 == 0)
    then some (codes "Invalid start offset")
    else none

-- `spi_flash_erase_sector`, `spi_flash_write` and `spi_flash_read` on a flash of type `F`.
pub record SpiFlash (F : Type 0) : Type 0 where
  pub erase_sector : ℕ → F → F
  pub write : ℕ → Bytes → F → F
  pub read : ℕ → ℕ → F → Bytes

-- What an upload keeps: `cgiPrivData`, which is set after an error, the flash, and whether a reboot is
-- scheduled.
pub record Upload (F : Type 0) : Type 0 where
  pub cgi_priv_data : Bool
  pub flash : F
  pub rebooting : Bool

-- SPI_FLASH_SEC_SIZE
abbrev pub sector : ℕ
sector = 4096

abbrev pub is_post : Method → Bool
is_post unset = false
is_post get = false
is_post post = true

abbrev pub buff_of : Conn → Bytes
buff_of c = elim c.body.buff [ none ↦ [] | some b ↦ b ]

-- The answer to an error.
unfoldable pub fail : ℕ → Bytes → Conn → Conn
fail code err c =
    let c1 =
      end_headers (header (start_response c code) (codes "Content-Type") (codes "text/plain")) in
    (send (send c1 err).1 (codes "\r\n")).1

-- The flash after a chunk is written at an address: a new sector is erased first.
unfoldable pub put_chunk : {F : Type 0} → SpiFlash F → ℕ → Bytes → F → F
put_chunk spi address buff f =
    spi.write address buff
      (if address % sector == 0 then spi.erase_sector (address / sector) f else f)

-- `firmware_size` is FIRMWARE_SIZE, and `id` what system_upgrade_userbin_check gives.
module _ {F : Type 0} (spi : SpiFlash F) (firmware_size id : ℕ) where
  -- The partition that is not booted.
  unfoldable pub next_address : ℕ
  next_address = if id == 1 then 4 * 1024 else 4 * 1024 + firmware_size + 16 * 1024 + 4 * 1024

  -- `cgiGetFirmwareNext`
  unfoldable pub cgi_get_firmware_next : Conn → Code × Conn
  cgi_get_firmware_next c =
      let c1 = header (start_response c 200) (codes "Content-Type") (codes "text/plain") in
      let c2 = end_headers (header c1 (codes "Content-Length") (codes "9")) in
      if is_null c.conn
      then (done, c)
      else (done, (send c2 (if id == 1 then codes "user1.bin" else codes "user2.bin")).1)

  -- The checks of a call, in their order: a later one only if there is no error yet, but for the second.
  abbrev pub size_error : Conn → Option Bytes
  size_error c =
      if slt firmware_size c.body.len then some (codes "Firmware image too large") else none

  abbrev pub request_error : Conn → Option Bytes
  request_error c =
      if is_null c.body.buff || (not (is_post c.request_type) || slt c.body.len 1024)
      then some (codes "Invalid request")
      else size_error c

  abbrev pub header_error : ℕ → Conn → Option Bytes
  header_error offset c =
      let err = request_error c in
      if is_null err && offset == 0 then check_header (buff_of c) else err

  abbrev pub buffer_error : ℕ → Option Bytes → Option (ℕ × Bytes)
  buffer_error offset none =
      if not (offset % 1024 == 0) then some (500, codes "Buffering problem") else none
  buffer_error offset (some e) = some (400, e)

  unfoldable pub upload_error : ℕ → Conn → Option (ℕ × Bytes)
  upload_error offset c = buffer_error offset (header_error offset c)

  -- What follows the checks.
  unfoldable pub checked : ℕ → Option (ℕ × Bytes) → Upload F → Conn → Code × Upload F × Conn
  checked offset (some (code, err)) u c = (done, record u { cgi_priv_data = true }, fail code err c)
  checked offset none u c =
      let u' = record u { flash = put_chunk spi (next_address + offset) (buff_of c) u.flash } in
      if c.body.received == c.body.len
      then (done, u', end_headers (start_response c 200))
      else (more, u', c)

  -- An upload that begins has no error yet.
  abbrev pub begun : ℕ → Upload F → Upload F
  begun offset u = if offset == 0 then record u { cgi_priv_data = false } else u

  -- `cgiUploadFirmware`, from the offset of the buffer in the file.
  unfoldable pub upload_at : ℕ → Upload F → Conn → Code × Upload F × Conn
  upload_at offset u c =
      if is_null c.conn
      then (done, u, c)
      else if not (offset == 0) && u.cgi_priv_data
      then (done, u, c)
      else checked offset (upload_error offset c) (begun offset u) c

  unfoldable pub cgi_upload_firmware : Upload F → Conn → Code × Upload F × Conn
  cgi_upload_firmware u c = upload_at (sub32 c.body.received (length (buff_of c))) u c

  -- `cgiRebootFirmware`
  unfoldable pub cgi_reboot_firmware : Upload F → Conn → Code × Upload F × Conn
  cgi_reboot_firmware u c =
      if is_null c.conn
      then (done, u, c)
      else (elim (check_header (spi.read next_address 32 u.flash)) [
        | some err ↦ (done, u, fail 400 err c)
        | none ↦ (
          done,
          record u { rebooting = true },
          end_headers (header (start_response c 200) (codes "Content-Length") (codes "0")),
        )
      ])
