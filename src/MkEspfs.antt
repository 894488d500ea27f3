-- ===== src/MkEspfs.antt =====
-- The builder of file system images, espfs/mkespfsimage/main.c with ESPFS_GZIP. The compressor of zlib
-- is a parameter: what it gives for a level, an input and the size of the output buffer, or `none`
-- where it fails and the program exits. `mmap` gives the content of a file, or `none`.
pub mod Image
pub mod Options
use ems_esp_link.Prelude.{
  ℕ, zero, suc, ◌+◌, ◌-◌, ◌*◌, ◌/◌, ◌%◌, ◌^◌, Bool, true, false, ◌&&◌, ◌||◌, Option, none, some,
  List, [], ◌∷◌, ◌++◌, ltb, ◌==◌, if◌then◌else◌, length, replicate,
}
use ems_esp_link.Prelude.Text.{Bytes, codes, str_eq}
use ems_esp_link.EspFs.{espfs_magic}
use ems_esp_link.Httpd.Mime.{behind_dot}

-- `htoxs` and `htoxl` store these bytes.
abbrev pub htoxs : ℕ → Bytes
htoxs n = n % 2 ^ 8 ∷ n / 2 ^ 8 % 2 ^ 8 ∷ []

abbrev pub htoxl : ℕ → Bytes
htoxl n = n % 2 ^ 8 ∷ n / 2 ^ 8 % 2 ^ 8 ∷ n / 2 ^ 16 % 2 ^ 8 ∷ n / 2 ^ 24 % 2 ^ 8 ∷ []

-- COMPRESS_NONE, FLAG_LASTFILE, FLAG_GZIP
abbrev pub compress_none : ℕ
compress_none = 0

abbrev pub flag_lastfile : ℕ
flag_lastfile = 1

abbrev pub flag_gzip : ℕ
flag_gzip = 2

abbrev pub Compressor : Type 0
Compressor = ℕ → Bytes → ℕ → Option Bytes

-- The zeros up to the next multiple of 4.
abbrev pub padding : ℕ → Bytes
padding n = replicate ((4 - n % 4) % 4) 0

-- `nameLen` of a name, with its terminator and rounded up.
abbrev pub name_field : Bytes → ℕ
name_field name =
    let n = (length name + 1) % 2 ^ 16 in if n % 4 == 0 then n else (n + 4 - n % 4) % 2 ^ 16

-- The header of a file.
abbrev pub header_bytes : ℕ → ℕ → ℕ → ℕ → Bytes
header_bytes flags name_len csize size =
    htoxl espfs_magic ++ ((flags ∷ compress_none ∷ htoxs name_len) ++ (htoxl csize ++ htoxl size))

-- What is written for a file whose stored form is `cdat`.
unfoldable pub write_file : ℕ → Bytes → Bytes → ℕ → Bytes
write_file flags name cdat size =
    header_bytes flags (name_field name) (length cdat) size
    ++ ((name ++ (0 ∷ [])) ++ (padding (length name + 1) ++ (cdat ++ padding (length cdat))))

-- `strtok` with commas: the parts that are not empty.
unfoldable pub split_commas : Bytes → Bytes → List Bytes
split_commas [] [] = []
split_commas (c ∷ part) [] = (c ∷ part) ∷ []
split_commas part (c ∷ s) =
    let rest = split_commas [] s in
    let longer = split_commas (part ++ (c ∷ [])) s in
    if c == b',' then (elim part [ [] ↦ rest | x ∷ xs ↦ (x ∷ xs) ∷ rest ]) else longer

-- `parseGzipExtensions`
unfoldable pub parse_gzip_extensions : Bytes → List Bytes
unfolding split_commas
parse_gzip_extensions input = split_commas [] input

unfoldable pub is_listed : Bytes → List Bytes → Bool
is_listed ext [] = false
is_listed ext (e ∷ es) = str_eq ext e || is_listed ext es

-- `shouldCompressGzip`
unfoldable pub should_compress_gzip : List Bytes → Bytes → Bool
unfolding behind_dot is_listed
should_compress_gzip exts name = elim (behind_dot name) [
  | none ↦ false
  | some ext ↦ is_listed ext exts
]

-- The form in which a file is stored: its flags and its bytes. A form that is longer than the file is
-- given up.
abbrev pub stored : Bytes → Bytes → ℕ × Bytes
stored fdat cdat = if ltb (length fdat) (length cdat) then (0, fdat) else (flag_gzip, cdat)

abbrev pub gzipped : Bytes → Option Bytes → Option (ℕ × Bytes)
gzipped fdat none = none
gzipped fdat (some cdat) = some (stored fdat cdat)

-- The output buffer of the compressor.
abbrev pub gzip_room : Bytes → ℕ
gzip_room fdat = let n = length fdat * 3 in if ltb n 100 then 100 else n

-- The name of a file in the image: `./` or `/` in front is no part of it.
abbrev pub strip : ℕ → Bytes → Bytes
strip c [] = []
strip c (x ∷ s) = if x == c then s else x ∷ s

abbrev pub real_name : Bytes → Bytes
real_name file_name = strip b'/' (strip b'.' file_name)

-- `finishArchive`
abbrev pub finish_archive : Bytes
finish_archive =
    htoxl espfs_magic ++ ((flag_lastfile ∷ compress_none ∷ htoxs 0) ++ (htoxl 0 ++ htoxl 0))

-- What is written for a file by the form that is chosen, and behind it what is written for the rest.
abbrev pub filed : Bytes → ℕ → Option (ℕ × Bytes) → Option Bytes
filed name size none = none
filed name size (some (flags, cdat)) = some (write_file flags name cdat size)

abbrev pub glue : Option Bytes → Option Bytes → Option Bytes
glue none rest = none
glue (some out) none = none
glue (some out) (some rest) = some (out ++ rest)

module _ (gzip : Compressor) (exts : List Bytes) (compression level : ℕ) where
  -- How a file is stored, or `none` where the program exits.
  unfoldable pub choose : Bytes → Bytes → Option (ℕ × Bytes)
  choose name fdat =
      if should_compress_gzip exts name
      then gzipped fdat (gzip level fdat (gzip_room fdat))
      else if compression == compress_none
      then some (0, fdat)
      else none

  -- `handleFile`: what it writes, or `none` where the program exits. A file that `mmap` refuses, as it
  -- does an empty one, is left out.
  unfoldable pub handle_file : Bytes → Option Bytes → Option Bytes
  handle_file name none = some []
  handle_file name (some fdat) = filed name (length fdat) (choose name fdat)

  -- The loop of `main` over the lines of the input: a name, and what the file holds if it is a regular
  -- file that opens and maps. It is the image, or `none` where the program exits.
  unfoldable pub build : List (Bytes × Option Bytes) → Option Bytes
  build [] = some finish_archive
  build ((file_name, text) ∷ files) = glue (handle_file (real_name file_name) text) (build files)
