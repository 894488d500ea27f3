-- ===== src/EspFs/Extract.antt =====
-- The extractor of files from an image, espfs/espfstest/main.c.
pub mod Image
use ems_esp_link.Prelude.{
  ℕ, zero, suc, Bool, true, false, Option, none, some, List, [], ◌∷◌, ◌++◌, ◌==◌, if◌then◌else◌,
}
use ems_esp_link.Prelude.Text.{Bytes}
use ems_esp_link.EspFs.{
  Memory, InitResult, init_ok, bad_align, no_image, EspFsFile, espfs_init, espfs_open, espfs_read,
}

-- How the program ends: the text on its use, an exit with 1, or what it has written.
pub data Extracted : Type 0 where
  usage exit_1 : Extracted
  written : Bytes → Extracted

abbrev pub behind_part : Bytes → Option Bytes → Option Bytes
behind_part part none = none
behind_part part (some rest) = some (part ++ rest)

-- The loop that copies the file.
unfoldable pub read_all : Memory → ℕ → Option EspFsFile → Option Bytes
read_all m zero ef = none
read_all m (suc n) ef =
    let (len, buff, ef') = espfs_read m ef 128 in
    let rest = read_all m n ef' in if len == 0 then some [] else behind_part buff rest

abbrev pub as_written : Option Bytes → Option Extracted
as_written none = none
as_written (some text) = some (written text)

-- `mapped` is where the file of a name is mapped, if that works, and `creates` is whether a file of a
-- name can be created. A result `none` is a loop that has not ended within its rounds.
module _ (m : Memory) (mapped : Bytes → Option ℕ) (creates : Bytes → Bool)
    (search_rounds read_rounds : ℕ) where
  unfoldable pub copy_file : Bytes → Option (Option EspFsFile) → Option Extracted
  copy_file name none = none
  copy_file name (some none) = some exit_1
  copy_file name (some (some ef)) =
      if creates name then as_written (read_all m read_rounds (some ef)) else some exit_1

  unfoldable pub extract_from : Bytes → InitResult × Option ℕ → Option Extracted
  extract_from name (init_ok, start) = copy_file name (espfs_open search_rounds m start name true)
  extract_from name (bad_align, start) = some exit_1
  extract_from name (no_image, start) = some exit_1

  unfoldable pub extract_mapped : Bytes → Option ℕ → Option Extracted
  extract_mapped name none = some exit_1
  extract_mapped name (some p) = extract_from name (espfs_init m p none)

  -- `main`, from the arguments.
  unfoldable pub extract : List Bytes → Option Extracted
  extract (image ∷ name ∷ []) = extract_mapped name (mapped image)
  extract [] = some usage
  extract (image ∷ []) = some usage
  extract (image ∷ name ∷ other ∷ more) = some usage
