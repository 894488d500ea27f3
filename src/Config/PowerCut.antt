-- ===== src/Config/PowerCut.antt =====
-- What survives a save: its result on every path, and the flash at each point where the power may
-- fail.
use ems_esp_link.Prelude.{
  ℕ, ◌/◌, ◌^◌, ◌≡◌, sym, ◌∙◌, ◌⊎◌, inl, inr, true, List, [], ◌∷◌, All, arith,
}
use ems_esp_link.Config.{
  FlashConfig, Spi, flash_addr, backup_addr, image, config_save, erase_primary, write_primary,
  erase_backup, write_backup, config_restore,
}
use ems_esp_link.Config.RoundTrip.{
  FlashLaws, IsCurrent, Holds, Holds-image, Unusable, sectors-ne, restore-primary, restore-backup,
}

module _ {F : Type 0} (spi : Spi F) (chksum : FlashConfig → ℕ) (firmware_size : ℕ)
    (laws : FlashLaws spi) where
  abbrev primary : ℕ
  primary = flash_addr spi chksum firmware_size

  abbrev backup : ℕ
  backup = backup_addr spi chksum firmware_size

  abbrev At : ℕ → FlashConfig → F → Type 0
  At a cfg f = Holds spi chksum firmware_size a cfg f

  -- An image in another sector than the one that is erased or written stays.
  Holds-same :
      {a : ℕ} {cfg : FlashConfig} {f g : F} → spi.read a g ≡ spi.read a f → At a cfg f → At a cfg g
  Holds-same e h = record {
    stored = h.stored;
    read_is = e ∙ h.read_is;
    good_is = h.good_is;
    cfg_is = h.cfg_is;
  }

  Unusable-erased :
      (f : F)
      → (erase_primary spi chksum firmware_size f).0 ≡ true
      → Unusable spi chksum firmware_size primary (erase_primary spi chksum firmware_size f).1
  unfolding erase_primary
  Unusable-erased f e ff r =
      let v =
        laws.erased_read primary (spi.erase (primary / 2 ^ 12) f).1 ff
          (laws.erase_done (primary / 2 ^ 12) f e) r in
      omega (arith, v)

  backup-erase_primary :
      {cfg : FlashConfig} (f : F)
      → At backup cfg f
      → At backup cfg (erase_primary spi chksum firmware_size f).1
  unfolding erase_primary
  backup-erase_primary f h =
      Holds-same
        (laws.erase_elsewhere (primary / 2 ^ 12) backup f
          (λ e. sectors-ne spi chksum firmware_size (sym e)))
        h

  module _ (cfg : FlashConfig) (current : IsCurrent cfg) (f : F) where
    primary-written :
        (erase_primary spi chksum firmware_size f).0 ≡ true
        → (write_primary spi chksum firmware_size cfg f).0 ≡ true
        → At primary cfg (write_primary spi chksum firmware_size cfg f).1
    unfolding write_primary erase_primary
    primary-written e w = Holds-image spi chksum firmware_size primary cfg _ current (
        laws.write_done primary (image spi chksum firmware_size cfg)
          (spi.erase (primary / 2 ^ 12) f).1 (laws.erase_done (primary / 2 ^ 12) f e) w)

    primary-erase_backup :
        At primary cfg (write_primary spi chksum firmware_size cfg f).1
        → At primary cfg (erase_backup spi chksum firmware_size cfg f).1
    unfolding erase_backup
    primary-erase_backup = Holds-same (
        laws.erase_elsewhere (backup / 2 ^ 12) primary
          (write_primary spi chksum firmware_size cfg f).1 (sectors-ne spi chksum firmware_size))

    primary-write_backup :
        At primary cfg (erase_backup spi chksum firmware_size cfg f).1
        → At primary cfg (write_backup spi chksum firmware_size cfg f).1
    unfolding write_backup
    primary-write_backup = Holds-same (
        laws.write_elsewhere backup primary (image spi chksum firmware_size cfg)
          (erase_backup spi chksum firmware_size cfg f).1 (sectors-ne spi chksum firmware_size))

    backup-written :
        (erase_backup spi chksum firmware_size cfg f).0 ≡ true
        → (write_backup spi chksum firmware_size cfg f).0 ≡ true
        → At backup cfg (write_backup spi chksum firmware_size cfg f).1
    unfolding write_backup erase_backup
    backup-written e w = Holds-image spi chksum firmware_size backup cfg _ current (
        laws.write_done backup (image spi chksum firmware_size cfg)
          (spi.erase (backup / 2 ^ 12) (write_primary spi chksum firmware_size cfg f).1).1
          (laws.erase_done (backup / 2 ^ 12) (write_primary spi chksum firmware_size cfg f).1 e) w)

    -- The result of `configSave`, in terms of its flash calls.
    save_done :
        (config_save spi chksum firmware_size cfg f).0 ≡ true
        → ((erase_primary spi chksum firmware_size f).0 ≡ true)
          × ((write_primary spi chksum firmware_size cfg f).0 ≡ true)
          × (((config_save spi chksum firmware_size cfg f).1
                ≡ (erase_backup spi chksum firmware_size cfg f).1)
              ⊎ ((config_save spi chksum firmware_size cfg f).1
                  ≡ (write_backup spi chksum firmware_size cfg f).1))
    unfolding config_save
    save_done done = ground arith

    restore-erase_backup :
        At primary cfg (write_primary spi chksum firmware_size cfg f).1
        → config_restore spi chksum firmware_size (erase_backup spi chksum firmware_size cfg f).1
          ≡ (true, cfg)
    restore-erase_backup h = restore-primary spi chksum firmware_size (primary-erase_backup h)

    restore-write_backup :
        At primary cfg (write_primary spi chksum firmware_size cfg f).1
        → config_restore spi chksum firmware_size (write_backup spi chksum firmware_size cfg f).1
          ≡ (true, cfg)
    restore-write_backup h =
        restore-primary spi chksum firmware_size (primary-write_backup (primary-erase_backup h))

-- When `configSave` reports success, whatever became of the backup, `configRestore` gives the
-- configuration back. The flash functions keep to their documented behaviour, and the
-- configuration has the firmware's version and a zero `crc`.
pub config_restore-config_save :
    {F : Type 0} (spi : Spi F) (chksum : FlashConfig → ℕ) (firmware_size : ℕ) (laws : FlashLaws spi)
    (cfg : FlashConfig) (f : F)
    → IsCurrent cfg
    → (config_save spi chksum firmware_size cfg f).0 ≡ true
    → config_restore spi chksum firmware_size (config_save spi chksum firmware_size cfg f).1
      ≡ (true, cfg)
config_restore-config_save spi chksum firmware_size laws cfg f current done =
    let (e, w, last) = save_done spi chksum firmware_size laws cfg current f done in
    let held = primary-written spi chksum firmware_size laws cfg current f e w in
    elim last [
      | inl same ↦ rw same (restore-erase_backup spi chksum firmware_size laws cfg current f held)
      | inr same ↦ rw same (restore-write_backup spi chksum firmware_size laws cfg current f held)
    ]

-- The flash before a save and after each of its calls.
abbrev pub save_points :
    {F : Type 0} (spi : Spi F) (chksum : FlashConfig → ℕ) (firmware_size : ℕ)
    → FlashConfig
    → F
    → List F
save_points spi chksum firmware_size cfg f =
    f
    ∷ (erase_primary spi chksum firmware_size f).1
    ∷ (write_primary spi chksum firmware_size cfg f).1
    ∷ (erase_backup spi chksum firmware_size cfg f).1
    ∷ (write_backup spi chksum firmware_size cfg f).1
    ∷ []

-- If the power fails between two calls of a save whose calls on the primary sector succeed, then
-- `configRestore` gives the old configuration or the new one, provided that both sectors held the
-- old one before. The flash functions keep to their documented behaviour, and the new configuration
-- has the firmware's version and a zero `crc`.
pub power_cut :
    {F : Type 0} (spi : Spi F) (chksum : FlashConfig → ℕ) (firmware_size : ℕ) (laws : FlashLaws spi)
    (old cfg : FlashConfig) (f : F)
    → IsCurrent cfg
    → Holds spi chksum firmware_size (flash_addr spi chksum firmware_size) old f
    → Holds spi chksum firmware_size (backup_addr spi chksum firmware_size) old f
    → (erase_primary spi chksum firmware_size f).0 ≡ true
    → (write_primary spi chksum firmware_size cfg f).0 ≡ true
    → All
        (λ g.
          (config_restore spi chksum firmware_size g ≡ (true, old))
          ⊎ (config_restore spi chksum firmware_size g ≡ (true, cfg)))
        (save_points spi chksum firmware_size cfg f)
power_cut spi chksum firmware_size laws old cfg f current p b e w =
    let held = primary-written spi chksum firmware_size laws cfg current f e w in
    (
      inl (restore-primary spi chksum firmware_size p),
      (
        inl (
            restore-backup spi chksum firmware_size
              (Unusable-erased spi chksum firmware_size laws f e)
              (backup-erase_primary spi chksum firmware_size laws f b)),
        (
          inr (restore-primary spi chksum firmware_size held),
          (
            inr (restore-erase_backup spi chksum firmware_size laws cfg current f held),
            (inr (restore-write_backup spi chksum firmware_size laws cfg current f held), tt),
          ),
        ),
      ),
    )
