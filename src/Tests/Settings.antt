-- ===== src/Tests/Settings.antt =====
-- The configuration at concrete inputs, on a flash of two sectors.
use ems_esp_link.Prelude.{
  ℕ, ◌+◌, ◌-◌, ◌%◌, ap, sym, ◌∙◌, ◌/◌, ◌^◌, ◌≡◌, ◌≢◌, refl, true, Option, none, some, ◌==◌,
  if◌then◌else◌, arith, ◌⊎◌, All,
}
use ems_esp_link.Config.{
  FlashConfig, Spi, flash_default, flash_addr, backup_addr, image, is_good, erase_primary,
  write_primary, config_restore,
}
use ems_esp_link.Config.RoundTrip.{FlashLaws, IsCurrent, Holds}
use ems_esp_link.Config.PowerCut.{power_cut, save_points}

-- A flash as a function of the sector; `none` is erased.
abbrev pub Flash : Type 0
Flash = ℕ → Option FlashConfig

abbrev pub ones : FlashConfig
ones = record flash_default { version = 2 ^ 32 - 1; crc = 2 ^ 16 - 1 }

abbrev pub put : ℕ → Option FlashConfig → Flash → Flash
put s v f t = if t == s then v else f t

abbrev pub contents : Option FlashConfig → FlashConfig
contents none = ones
contents (some ff) = ff

abbrev pub spi : Spi Flash
spi = record {
  erase = λ s f. (true, put s none f);
  write = λ a ff f. (true, put (a / 2 ^ 12) (some ff) f);
  read = λ a f. some (contents (f (a / 2 ^ 12)));
}

erased_version : (o : Option FlashConfig) → o ≡ none → (contents o).version ≡ 2 ^ 32 - 1
erased_version none e = refl
erased_version (some ff) e = cc

put_same : (s : ℕ) (v : Option FlashConfig) (f : Flash) → put s v f s ≡ v
put_same s v f = ground arith

put_other : (s t : ℕ) (v : Option FlashConfig) (f : Flash) → t ≢ s → put s v f t ≡ f t
put_other s t v f h = ground arith

abbrev o_version : Option FlashConfig → ℕ
o_version none = 0
o_version (some ff) = ff.version

pub laws : FlashLaws spi
laws = record {
  Erased = λ s f. f s ≡ none;
  erase_done = λ s f e. put_same s none f;
  erased_read = λ a f ff e r. ap (λ o. o_version o) (sym r) ∙ erased_version (f (a / 2 ^ 12)) e;
  write_done = λ a ff f e w. ap (λ o. some (contents o)) (put_same (a / 2 ^ 12) (some ff) f);
  erase_elsewhere = λ s a f h. ap (λ o. some (contents o)) (put_other s (a / 2 ^ 12) none f h);
  write_elsewhere =
      λ b a ff f h. ap (λ o. some (contents o)) (put_other (b / 2 ^ 12) (a / 2 ^ 12) (some ff) f h);
}

abbrev pub chksum : FlashConfig → ℕ
chksum ff = (ff.version + ff.baud_rate + ff.log_mode) % 2 ^ 16

abbrev pub old : FlashConfig
old = record flash_default { baud_rate = 57600 }

abbrev new : FlashConfig
new = record flash_default { log_mode = 2 }

abbrev pub firmware_size : ℕ
firmware_size = 0x64000

-- Both sectors hold `old`.
abbrev pub saved : Flash
saved s = some (image spi chksum firmware_size old)

saved-Holds : (a : ℕ) → Holds spi chksum firmware_size a old saved
saved-Holds a = record {
  stored = image spi chksum firmware_size old;
  read_is = refl;
  good_is = unfold is_good in refl;
  cfg_is = refl;
}

new-IsCurrent : IsCurrent new
new-IsCurrent = record { version_is = refl; crc_is = refl }

power_cut_example :
    All
      (λ g.
        (config_restore spi chksum firmware_size g ≡ (true, old))
        ⊎ (config_restore spi chksum firmware_size g ≡ (true, new)))
      (save_points spi chksum firmware_size new saved)
power_cut_example =
    power_cut spi chksum firmware_size laws old new saved new-IsCurrent
      (saved-Holds (flash_addr spi chksum firmware_size))
      (saved-Holds (backup_addr spi chksum firmware_size)) (unfold erase_primary in refl)
      (unfold write_primary in refl)
