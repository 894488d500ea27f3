-- ===== src/Config/RoundTrip.antt =====
-- Saving and restoring the configuration, with the power cut at any point of the save.
use ems_esp_link.Prelude.{
  ℕ, ◌-◌, ◌/◌, ◌^◌, ◌≡◌, ◌≢◌, ap, inl, inr, Bool, true, false, some, Option-cases, arith,
}
use ems_esp_link.Config.{
  FlashConfig, Spi, flash_addr, backup_addr, image, without_crc, is_good, select_flash,
  read_or_clear, chosen, config_restore,
}

-- What the SDK documents of its flash functions: an erased sector reads as ones, a write into an
-- erased sector is read back, and neither touches another sector.
pub record FlashLaws {F : Type 0} (spi : Spi F) : Type 1 where
  pub Erased : ℕ → F → Type 0
  pub erase_done : (s : ℕ) (f : F) → (spi.erase s f).0 ≡ true → Erased s (spi.erase s f).1
  pub erased_read :
      (a : ℕ) (f : F) (ff : FlashConfig)
      → Erased (a / 2 ^ 12) f
      → spi.read a f ≡ some ff
      → ff.version ≡ 2 ^ 32 - 1
  pub write_done :
      (a : ℕ) (ff : FlashConfig) (f : F)
      → Erased (a / 2 ^ 12) f
      → (spi.write a ff f).0 ≡ true
      → spi.read a (spi.write a ff f).1 ≡ some ff
  pub erase_elsewhere :
      (s a : ℕ) (f : F) → a / 2 ^ 12 ≢ s → spi.read a (spi.erase s f).1 ≡ spi.read a f
  pub write_elsewhere :
      (b a : ℕ) (ff : FlashConfig) (f : F)
      → a / 2 ^ 12 ≢ b / 2 ^ 12
      → spi.read a (spi.write b ff f).1 ≡ spi.read a f

-- What every configuration in memory is: `crc` is zero, and the version is the firmware's.
pub record IsCurrent (cfg : FlashConfig) : Type 0 where
  pub version_is : cfg.version ≡ 2107
  pub crc_is : cfg.crc ≡ 0

module _ {F : Type 0} (spi : Spi F) (chksum : FlashConfig → ℕ) (firmware_size : ℕ) where
  -- Whatever the flash holds, and whichever reads fail, the configuration after `configRestore`
  -- has the firmware's version and a zero `crc`.
  pub config_restore-IsCurrent : (f : F) → IsCurrent (config_restore spi chksum firmware_size f).1
  unfolding config_restore select_flash chosen is_good
  config_restore-IsCurrent f = ground arith

  pub sectors-ne :
      flash_addr spi chksum firmware_size / 2 ^ 12 ≢ backup_addr spi chksum firmware_size / 2 ^ 12
  unfolding flash_addr backup_addr
  sectors-ne = omega arith

  abbrev pub primary : ℕ
  primary = flash_addr spi chksum firmware_size

  abbrev pub backup : ℕ
  backup = backup_addr spi chksum firmware_size

  abbrev pub restore : F → Bool × FlashConfig
  restore = config_restore spi chksum firmware_size

  abbrev pub good : FlashConfig → Bool
  good = is_good spi chksum firmware_size

  -- The sector at `a` holds a valid image of `cfg`.
  pub record Holds (a : ℕ) (cfg : FlashConfig) (f : F) : Type 0 where
    pub stored : FlashConfig
    pub read_is : spi.read a f ≡ some stored
    pub good_is : good stored ≡ true
    pub cfg_is : without_crc spi chksum firmware_size stored ≡ cfg

  -- The sector at `a` is not readable, or what it reads as has another version.
  abbrev pub Unusable : ℕ → F → Type 0
  Unusable a f = (ff : FlashConfig) → spi.read a f ≡ some ff → ff.version ≢ 2107

  image-good :
      (cfg : FlashConfig) → IsCurrent cfg → good (image spi chksum firmware_size cfg) ≡ true
  unfolding is_good
  image-good cfg h =
      let e : record cfg { crc = 0 } ≡ cfg = ground arith in ground (arith, ap chksum e)

  pub Holds-image :
      (a : ℕ) (cfg : FlashConfig) (f : F)
      → IsCurrent cfg
      → spi.read a f ≡ some (image spi chksum firmware_size cfg)
      → Holds a cfg f
  Holds-image a cfg f h r = record {
    stored = image spi chksum firmware_size cfg;
    read_is = r;
    good_is = image-good cfg h;
    cfg_is = ground arith;
  }

  chosen_first :
      (ff0 ff1 : FlashConfig)
      → good ff0 ≡ true
      → chosen spi chksum firmware_size (select_flash spi chksum firmware_size ff0 ff1)
        ≡ (true, without_crc spi chksum firmware_size ff0)
  unfolding chosen select_flash
  chosen_first ff0 ff1 h = rw (h, select_flash, chosen)

  chosen_second :
      (ff0 ff1 : FlashConfig)
      → good ff0 ≡ false
      → good ff1 ≡ true
      → chosen spi chksum firmware_size (select_flash spi chksum firmware_size ff0 ff1)
        ≡ (true, without_crc spi chksum firmware_size ff1)
  unfolding chosen select_flash
  chosen_second ff0 ff1 h k = rw (h, k, select_flash, chosen)

  read-Holds :
      (a : ℕ) {cfg : FlashConfig} {f : F} (h : Holds a cfg f)
      → read_or_clear spi chksum firmware_size a f ≡ h.stored
  read-Holds a h = rw (h.read_is, read_or_clear)

  bad-Unusable :
      (a : ℕ) (f : F) → Unusable a f → good (read_or_clear spi chksum firmware_size a f) ≡ false
  unfolding is_good
  bad-Unusable a f u = elim (Option-cases (spi.read a f)) [
    | inl e ↦ rw (e, read_or_clear)
    | inr (ff, e) ↦ rw (e, read_or_clear) (ground (arith, u ff e))
  ]

  pub restore-primary : {cfg : FlashConfig} {f : F} → Holds primary cfg f → restore f ≡ (true, cfg)
  unfolding config_restore
  restore-primary {f} h =
      rw
        (
          read-Holds primary h,
          chosen_first h.stored (read_or_clear spi chksum firmware_size backup f) h.good_is,
        )
        (ap (λ c. (true, c)) h.cfg_is)

  pub restore-backup :
      {cfg : FlashConfig} {f : F}
      → Unusable primary f
      → Holds backup cfg f
      → restore f ≡ (true, cfg)
  unfolding config_restore
  restore-backup {f} u h =
      rw
        (
          read-Holds backup h,
          chosen_second (read_or_clear spi chksum firmware_size primary f) h.stored
              (bad-Unusable primary f u) h.good_is,
        )
        (ap (λ c. (true, c)) h.cfg_is)
