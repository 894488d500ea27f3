-- ===== src/MkEspfs/Options.antt =====
-- The command line of espfs/mkespfsimage/main.c.
pub mod Settings
use ems_esp_link.Prelude.{
  ℕ, zero, suc, ◌-◌, ◌^◌, Bool, true, false, ◌||◌, Option, none, some, List, [], ◌∷◌, ◌++◌,
  if◌then◌else◌,
}
use ems_esp_link.Prelude.Text.{Bytes, codes, str_eq, atoi}
use ems_esp_link.Prelude.Words.{slt}
use ems_esp_link.MkEspfs.{Compressor, compress_none, parse_gzip_extensions, build}

-- `compType`, `compLvl` as an `int` pattern, `gzipExtensions` and `err`.
pub record Options : Type 0 where
  pub comp_type : ℕ
  pub comp_lvl : ℕ
  pub gzip_extensions : Option (List Bytes)
  pub err : Bool

abbrev pub no_options : Options
no_options = record {
  comp_type = compress_none;
  comp_lvl = 2 ^ 32 - 1;
  gzip_extensions = none;
  err = false;
}

-- What an argument is; each of the first three takes the next one, whether or not it is there.
pub data Flag : Type 0 where
  compressor compression_level extensions unknown : Flag

unfoldable pub flag_of : Bytes → Flag
flag_of arg =
    if str_eq arg (codes "-c")
    then compressor
    else if str_eq arg (codes "-l")
    then compression_level
    else if str_eq arg (codes "-g")
    then extensions
    else unknown

unfoldable pub set_option : Flag → Bytes → Options → Options
set_option compressor val o = record o { comp_type = atoi val }
set_option compression_level val o = record o {
  comp_lvl = atoi val;
  err = o.err || (slt (atoi val) 1 || slt 9 (atoi val));
}
set_option extensions val o = record o { gzip_extensions = some (parse_gzip_extensions val) }
set_option unknown val o = record o { err = true }

-- The loop over the arguments. The result is `none` where it reads the NULL behind the last one.
unfoldable pub read_options : List Bytes → Options → Option Options
read_options [] o = some o
read_options (arg ∷ []) o = elim (flag_of arg) [
  | unknown ↦ some (record o { err = true })
  | compressor ↦ none
  | compression_level ↦ none
  | extensions ↦ none
]
read_options (arg ∷ val ∷ rest) o = elim (flag_of arg) [
  | unknown ↦ read_options (val ∷ rest) (record o { err = true })
  | compressor ↦ read_options rest (set_option compressor val o)
  | compression_level ↦ read_options rest (set_option compression_level val o)
  | extensions ↦ read_options rest (set_option extensions val o)
]

-- The extensions, which have a default.
abbrev pub extensions_of : Option (List Bytes) → List Bytes
extensions_of none = parse_gzip_extensions (codes "html,css,js,ico")
extensions_of (some exts) = exts

-- How the program ends: the text on its use, an exit with 1, or the image on its output.
pub data Made : Type 0 where
  usage exit_1 : Made
  image : Bytes → Made

abbrev pub made_of : Option Bytes → Made
made_of none = exit_1
made_of (some img) = image img

-- The end of `main`, with the options.
unfoldable pub make : Compressor → List (Bytes × Option Bytes) → Options → Made
make gzip files o =
    if o.err
    then usage
    else made_of (build gzip (extensions_of o.gzip_extensions) o.comp_type o.comp_lvl files)

abbrev pub map_option : (Options → Made) → Option Options → Option Made
map_option f none = none
map_option f (some o) = some (f o)

-- `main`, from the arguments behind the name of the program.
unfoldable pub mkespfs : Compressor → List (Bytes × Option Bytes) → List Bytes → Option Made
mkespfs gzip files args = map_option (make gzip files) (read_options args no_options)
