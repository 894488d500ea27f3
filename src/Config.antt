-- ===== src/Config.antt =====
-- The configuration in flash, user/config.c and user/config.h.
pub mod RoundTrip
pub mod PowerCut
use ems_esp_link.Prelude.{
  ℕ, ◌+◌, ◌-◌, ◌*◌, ◌/◌, ◌^◌, Bool, true, false, not, ◌&&◌, Option, none, some, List, [], ◌==◌,
  if◌then◌else◌,
}
use ems_esp_link.Prelude.Text.{Bytes, codes}

-- `FlashConfig`; the text fields hold the bytes before the terminator.
pub record FlashConfig : Type 0 where
  pub version : ℕ
  pub crc : ℕ
  pub baud_rate : ℕ
  pub hostname : Bytes
  pub staticip : ℕ
  pub netmask : ℕ
  pub gateway : ℕ
  pub log_mode : ℕ
  pub ntp_server : Bytes
  pub timezone : ℕ
  pub collectord : Bytes
  pub collectord_port : ℕ
  pub api_key : Bytes

-- `flashDefault`
abbrev pub flash_default : FlashConfig
flash_default = record {
  version = 2107;
  crc = 0;
  baud_rate = 9600;
  hostname = codes "ems-link";
  staticip = 0;
  netmask = 0x00ffffff;
  gateway = 0;
  log_mode = 0;
  ntp_server = codes "0.europe.pool.ntp.org";
  timezone = 2;
  collectord = codes "collectord";
  collectord_port = 7950;
  api_key = [];
}

-- What `memset(&ff, 0, sizeof(ff))` leaves.
abbrev pub cleared : FlashConfig
cleared = record {
  version = 0;
  crc = 0;
  baud_rate = 0;
  hostname = [];
  staticip = 0;
  netmask = 0;
  gateway = 0;
  log_mode = 0;
  ntp_server = [];
  timezone = 0;
  collectord = [];
  collectord_port = 0;
  api_key = [];
}

-- The flash functions of the SDK on a flash of type `F`. An image is `sizeof(FlashFull)` bytes,
-- which are those of a `FlashConfig`; `false` and `none` stand for any result but
-- SPI_FLASH_RESULT_OK. `erase` takes a sector's number, the others an address.
pub record Spi (F : Type 0) : Type 0 where
  pub erase : ℕ → F → Bool × F
  pub write : ℕ → FlashConfig → F → Bool × F
  pub read : ℕ → F → Option FlashConfig

-- The result of `selectFlash`: 0, 1 or -1.
pub data Selected : Type 0 where
  first second neither : Selected

-- `chksum` is `inet_chksum` over an image, and `firmware_size` the build's FIRMWARE_SIZE.
module _ {F : Type 0} (spi : Spi F) (chksum : FlashConfig → ℕ) (firmware_size : ℕ) where
  -- FLASH_ADDR, and the backup behind it: a sector is FLASH_SECT bytes.
  unfoldable pub flash_addr : ℕ
  flash_addr = 4 * 1024 + firmware_size + 16 * 1024 - 8 * 1024

  unfoldable pub backup_addr : ℕ
  unfolding flash_addr
  backup_addr = flash_addr + 4096

  -- The image that `configSave` writes.
  abbrev pub image : FlashConfig → FlashConfig
  image cfg = record cfg { crc = chksum cfg }

  -- The flash calls of `configSave` one by one, each on the flash that the one before left.
  unfoldable pub erase_primary : F → Bool × F
  erase_primary f = spi.erase (flash_addr / 2 ^ 12) f

  unfoldable pub write_primary : FlashConfig → F → Bool × F
  write_primary cfg f = spi.write flash_addr (image cfg) (erase_primary f).1

  unfoldable pub erase_backup : FlashConfig → F → Bool × F
  erase_backup cfg f = spi.erase (backup_addr / 2 ^ 12) (write_primary cfg f).1

  unfoldable pub write_backup : FlashConfig → F → Bool × F
  write_backup cfg f = spi.write backup_addr (image cfg) (erase_backup cfg f).1

  -- `configSave`: a failing call on the backup does not make it fail.
  unfoldable pub config_save : FlashConfig → F → Bool × F
  config_save cfg f =
      if not (erase_primary f).0
      then (false, (erase_primary f).1)
      else if not (write_primary cfg f).0
      then (false, (write_primary cfg f).1)
      else if not (erase_backup cfg f).0
      then (true, (erase_backup cfg f).1)
      else (true, (write_backup cfg f).1)

  -- `configWipe`
  unfoldable pub config_wipe : F → F
  config_wipe f =
      let (_, f1) = spi.erase (flash_addr / 2 ^ 12) f in
      let (_, f2) = spi.erase (backup_addr / 2 ^ 12) f1 in f2

  -- The test that `selectFlash` makes of each image, and what it leaves of the image.
  abbrev pub without_crc : FlashConfig → FlashConfig
  without_crc ff = record ff { crc = 0 }

  unfoldable pub is_good : FlashConfig → Bool
  is_good ff = ff.version == flash_default.version && chksum (without_crc ff) == ff.crc

  -- `selectFlash`, with the images as it leaves them.
  unfoldable pub select_flash : FlashConfig → FlashConfig → Selected × FlashConfig × FlashConfig
  select_flash ff0 ff1 =
      if is_good ff0
      then (first, without_crc ff0, ff1)
      else if is_good ff1
      then (second, without_crc ff0, without_crc ff1)
      else (neither, without_crc ff0, without_crc ff1)

  -- An image, cleared in case of an error.
  abbrev pub read_or_clear : ℕ → F → FlashConfig
  read_or_clear addr f = elim (spi.read addr f) [ none ↦ cleared | some ff ↦ ff ]

  -- The end of `configRestore`: its result, and what it copies to `flashConfig`.
  unfoldable pub chosen : Selected × FlashConfig × FlashConfig → Bool × FlashConfig
  chosen (first, ff0, ff1) = (true, ff0)
  chosen (second, ff0, ff1) = (true, ff1)
  chosen (neither, ff0, ff1) = (false, flash_default)

  -- `configRestore`
  unfoldable pub config_restore : F → Bool × FlashConfig
  config_restore f =
      chosen (select_flash (read_or_clear flash_addr f) (read_or_clear backup_addr f))
