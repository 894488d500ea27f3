-- ===== src/Tests/Tools.antt =====
-- The builder and the extractor of images, from their command lines, at concrete inputs.
use ems_esp_link.Prelude.{ℕ, ◌≡◌, refl, Bool, true, false, Option, none, some, [], ◌∷◌, arith}
use ems_esp_link.Prelude.Text.{Bytes, codes}
use ems_esp_link.MkEspfs.{build}
use ems_esp_link.MkEspfs.Options.{Options, no_options, flag_of, read_options, made_of, mkespfs}
use ems_esp_link.MkEspfs.Options.Settings.{NoComma, IsExtension, command_line, mkespfs-command_line}
use ems_esp_link.Tests.Image.{squeeze, extensions, two_files}

mkespfs-command_line_example :
    mkespfs squeeze two_files (command_line 0 9 extensions)
    ≡ some (made_of (build squeeze extensions 0 9 two_files))
unfolding IsExtension NoComma
mkespfs-command_line_example =
    mkespfs-command_line squeeze two_files 0 9 extensions (omega arith) (omega arith) (omega arith)
      (
        (ground arith, (ground arith, (ground arith, (ground arith, tt)))),
        ((ground arith, (ground arith, tt)), tt),
      )

-- An option that lacks its value makes the program read the NULL behind the arguments.
lacks_value : read_options (codes "-l" ∷ []) no_options ≡ none
unfolding read_options flag_of
lacks_value = refl

abbrev given : Options
given = record { comp_type = 0; comp_lvl = 9; gzip_extensions = some extensions; err = false }

abbrev at_zero : Bytes → Option ℕ
at_zero name = some 0

abbrev creates : Bytes → Bool
creates name = true
