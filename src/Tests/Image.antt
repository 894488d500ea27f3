-- ===== src/Tests/Image.antt =====
-- The file system image, its builder, and the files over HTTP at concrete inputs.
use ems_esp_link.Prelude.{
  zero, suc, ◌+◌, ◌/◌, ◌≡◌, refl, subst, Bool, true, false, ◌&&◌, Option, none, some, List, [], ◌∷◌,
  ◌++◌, ltb, length, get_or, arith, All, append_assoc, length-append,
}
use ems_esp_link.Prelude.Text.{Bytes, codes}
use ems_esp_link.EspFs.{
  Memory, bytes_at, memcpy_aligned, espfs_init, init_ok, espfs_open, strip_slashes, EspFsFile,
}
use ems_esp_link.EspFs.Memory.{IsByteWise, StandsAt, memcpy_aligned-bytes_at}
use ems_esp_link.MkEspfs.{
  real_name, Compressor, build, handle_file, choose, write_file, should_compress_gzip,
  parse_gzip_extensions, split_commas, is_listed,
}
use ems_esp_link.MkEspfs.Image.Open.{IsGoodName, Matches, wanted, espfs_open-build}
use ems_esp_link.Httpd.Conn.{Conn}
use ems_esp_link.Httpd.Mime.{behind_dot}
use ems_esp_link.Httpd.Pool.{vacant}
use ems_esp_link.Httpd.Files.{FileWorld, serve}
use ems_esp_link.Httpd.Files.Transfer.{payload}
use ems_esp_link.Httpd.Files.Serve.{serve-build}

-- A memory that holds a text from address 0 on.
abbrev pub holding : Bytes → Memory
holding s a = get_or s a 0

pub holding-StandsAt : (pre s : Bytes) → StandsAt (holding (pre ++ s)) (length pre) s
unfolding StandsAt
holding-StandsAt pre [] = tt
holding-StandsAt pre (b ∷ s) = (
  here pre,
  let at : length (pre ++ (b ∷ [])) ≡ suc (length pre) =
        omega (arith, length-append pre (b ∷ [])) in
      subst (λ p. StandsAt (holding (pre ++ (b ∷ s))) p s) at
        (subst (λ t. StandsAt (holding t) (length (pre ++ (b ∷ []))) s)
          (append_assoc pre (b ∷ []) s) (holding-StandsAt (pre ++ (b ∷ [])) s)),
)
  where
    here : (pre : Bytes) → get_or (pre ++ (b ∷ s)) (length pre) 0 ≡ b
    here [] = refl
    here (x ∷ pre) = here pre

abbrev bytes_only : Bytes → Bool
bytes_only [] = true
bytes_only (b ∷ s) = ltb b 256 && bytes_only s

holding-IsByteWise : (s : Bytes) → bytes_only s ≡ true → IsByteWise (holding s)
holding-IsByteWise [] e a = omega arith
holding-IsByteWise (b ∷ s) e zero = ground arith
holding-IsByteWise (b ∷ s) e (suc a) = holding-IsByteWise s (right (ltb b 256) (bytes_only s) e) a
  where
    right : (x y : Bool) → x && y ≡ true → y ≡ true
    right true y e = e
    right false y e = cc

-- A compressor that leaves one byte.
abbrev pub squeeze : Compressor
squeeze level text room = some (7 ∷ [])

abbrev pub two_files : List (Bytes × Option Bytes)
two_files =
    (codes "./a.txt", some (codes "hi"))
    ∷ (codes "empty", none)
    ∷ (codes "b.js", some (codes "xyz"))
    ∷ []

abbrev pub extensions : List Bytes
extensions = codes "html" ∷ codes "js" ∷ []

test_extensions : parse_gzip_extensions (codes "html,,js") ≡ extensions
unfolding parse_gzip_extensions split_commas
test_extensions = refl

abbrev pub picture : Bytes
picture =
    codes "ESfs"
    ++ (0 ∷ 0 ∷ 8 ∷ 0 ∷ 2 ∷ 0 ∷ 0 ∷ 0 ∷ 2 ∷ 0 ∷ 0 ∷ 0 ∷ [])
    ++ codes "a.txt"
    ++ (0 ∷ 0 ∷ 0 ∷ [])
    ++ codes "hi"
    ++ (0 ∷ 0 ∷ [])
    ++ codes "ESfs"
    ++ (2 ∷ 0 ∷ 8 ∷ 0 ∷ 1 ∷ 0 ∷ 0 ∷ 0 ∷ 3 ∷ 0 ∷ 0 ∷ 0 ∷ [])
    ++ codes "b.js"
    ++ (0 ∷ 0 ∷ 0 ∷ 0 ∷ [])
    ++ (7 ∷ 0 ∷ 0 ∷ 0 ∷ [])
    ++ codes "ESfs"
    ++ (1 ∷ 0 ∷ 0 ∷ 0 ∷ 0 ∷ 0 ∷ 0 ∷ 0 ∷ 0 ∷ 0 ∷ 0 ∷ 0 ∷ [])

pub picture-build : build squeeze extensions 0 9 two_files ≡ some picture
unfolding build handle_file choose write_file should_compress_gzip is_listed behind_dot
picture-build = refl

pub picture-IsByteWise : IsByteWise (holding picture)
picture-IsByteWise = holding-IsByteWise picture refl

memcpy_aligned-bytes_at_example :
    memcpy_aligned (holding picture) 7 6 ≡ bytes_at (holding picture) 7 6
memcpy_aligned-bytes_at_example = memcpy_aligned-bytes_at (holding picture) 7 6 picture-IsByteWise

pub names_good : All (λ file. IsGoodName (real_name file.0)) two_files
names_good = (
  ((refl, (refl, (refl, (refl, (refl, tt))))), omega arith),
  (
    ((refl, (refl, (refl, (refl, (refl, tt))))), omega arith),
    (((refl, (refl, (refl, (refl, tt)))), omega arith), tt),
  ),
)

espfs_open-build_example :
    (espfs_init (holding picture) 0 none ≡ (init_ok, some 0))
    × ((r : Option EspFsFile) × (espfs_open
            (suc (length two_files))
            (holding picture)
            (some 0)
            (codes "/b.js")
            true
          ≡ some r)
        × Matches
            (holding picture)
            r
            (wanted squeeze extensions 0 9 (strip_slashes (codes "/b.js")) two_files))
espfs_open-build_example =
    espfs_open-build squeeze extensions 0 9 two_files picture (holding picture) 0 (codes "/b.js")
      picture-build names_good refl (omega arith) (holding-StandsAt [] picture)

picture-wanted :
    wanted squeeze extensions 0 9 (strip_slashes (codes "/a.txt")) two_files ≡ some (0, codes "hi")
unfolding wanted strip_slashes choose should_compress_gzip is_listed behind_dot
picture-wanted = refl

-- A request for the uncompressed file, with a handle for the connection and one for the file.
abbrev request : Conn
request = record vacant { conn = some 5; url = some (codes "/a.txt") }

abbrev world : FileWorld
world = record { files = λ k. none; given = some 9; stack = []; wire = [] }

serve-build_example :
    (w' : FileWorld) × (c' : Conn) × (serve
        (codes "0.4")
        (holding picture)
        (some 0)
        4
        (length (codes "hi") / 1024 + 2)
        world
        request
      ≡ some (w', c'))
    × (payload w'.wire ≡ payload [] ++ codes "hi")
    × (w'.files 9 ≡ none)
serve-build_example =
    serve-build (codes "0.4") (holding picture) picture-IsByteWise squeeze extensions 0 9 two_files
      picture 0 9 0 (codes "hi") world request picture-build names_good refl (omega arith)
      (holding-StandsAt [] picture) refl refl refl picture-wanted refl
