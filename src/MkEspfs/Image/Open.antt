-- ===== src/MkEspfs/Image/Open.antt =====
-- `espFsOpen` of espfs/espfs.c on the images of espfs/mkespfsimage/main.c.
use ems_esp_link.Prelude.{
  ℕ, zero, suc, ◌+◌, ◌-◌, ◌%◌, ◌^◌, ◌<◌, ◌≡◌, refl, sym, ap, subst, ◌∙◌, inl, inr, Bool, true,
  Option, none, some, List, [], ◌∷◌, ◌++◌, ◌==◌, if◌then◌else◌, if_lem, length, drop, arith, All,
  Bool-cases, length-append,
}
use ems_esp_link.Prelude.Text.{Bytes, str_eq}
use ems_esp_link.EspFs.{
  Memory, bytes_at, EspFsFile, file_at, next_file, search, espfs_init, init_ok, espfs_open,
  strip_slashes,
}
use ems_esp_link.EspFs.Memory.{StandsAt, StandsAt-append, bytes_at-StandsAt}
use ems_esp_link.MkEspfs.{
  Compressor, compress_none, htoxl, htoxs, header_bytes, name_field, write_file, finish_archive,
  real_name, stored, filed, glue, gzip_room, gzipped, choose, handle_file, build,
  should_compress_gzip,
}
use ems_esp_link.MkEspfs.Image.{
  NoZero, c_string-bytes_at, header_fields, search_header, search_finish, next_file_lem,
  file_at_lem,
}
use ems_esp_link.MkEspfs.Image.Parts.{file_len, length-write_file, Parts, write_file-Parts}

-- A name that the reader can compare: its buffer has 256 bytes.
abbrev pub IsGoodName : Bytes → Type 0
IsGoodName name = NoZero name × (length name < 255)

-- `f` is open at its start, and is a file of these flags and bytes.
pub record IsFile (m : Memory) (f : EspFsFile) (fl : ℕ) (body : Bytes) : Type 0 where
  pub plain : f.decompressor ≡ 0
  pub start : f.pos_start ≡ f.pos_comp
  pub flags : m (f.header + 4) ≡ fl
  pub len : StandsAt m (f.header + 8) (htoxl (length body))
  pub content : StandsAt m f.pos_comp body
  pub fits : f.pos_comp + length body < 2 ^ 31

-- What the search finds is the file that is wanted, or nothing where none is.
unfoldable pub Matches : Memory → Option EspFsFile → Option (ℕ × Bytes) → Type 0
Matches m none none = Unit
Matches m none (some w) = ⊥
Matches m (some f) none = ⊥
Matches m (some f) (some (fl, body)) = IsFile m f fl body

pub Matches-IsFile :
    (m : Memory) (r : Option EspFsFile) (fl : ℕ) (body : Bytes)
    → Matches m r (some (fl, body))
    → (f : EspFsFile) × (r ≡ some f) × IsFile m f fl body
unfolding Matches
Matches-IsFile m none fl body k = elim k [ ]
Matches-IsFile m (some f) fl body k = (f, refl, k)

-- A file that has just been opened.
abbrev opened : ℕ → ℕ → EspFsFile
opened hpos p = record {
  header = hpos;
  decompressor = 0;
  pos_decomp = 0;
  pos_start = p;
  pos_comp = p;
}

glue_lem :
    (a b : Option Bytes) (img : Bytes)
    → glue a b ≡ some img
    → (x : Bytes) × (y : Bytes) × (a ≡ some x) × (b ≡ some y) × (img ≡ x ++ y)
glue_lem none b img e = cc
glue_lem (some x) none img e = cc
glue_lem (some x) (some y) img e = (x, y, refl, refl, cc)

glue_nil : (b : Option Bytes) (img : Bytes) → glue (some []) b ≡ some img → b ≡ some img
glue_nil none img e = e
glue_nil (some y) img e = e

-- The flag of the end of the image is never set for a file.
gzipped_even :
    (fdat : Bytes) (o : Option Bytes) (fl : ℕ) (cdat : Bytes)
    → gzipped fdat o ≡ some (fl, cdat)
    → fl % 2 ≡ 0
gzipped_even fdat none fl cdat e = cc
gzipped_even fdat (some c) fl cdat e =
    let half : (stored fdat c).0 % 2 ≡ 0 = ground arith in
    let same : (stored fdat c).0 ≡ fl = cc e in ap (λ n. n % 2) (sym same) ∙ half

filed_lem :
    (name : Bytes) (size : ℕ) (o : Option (ℕ × Bytes)) (x : Bytes)
    → filed name size o ≡ some x
    → (fl : ℕ) × (cdat : Bytes) × (o ≡ some (fl, cdat)) × (x ≡ write_file fl name cdat size)
filed_lem name size none x e = cc
filed_lem name size (some (fl, cdat)) x e = (fl, cdat, refl, cc)

-- One file: where it is not the one, the search goes on behind it.
search-write_file :
    (f : ℕ) (m : Memory) (name : Bytes) (p fl : ℕ) (title cdat : Bytes) (size : ℕ) (rest : Bytes)
    → Parts m p fl title cdat size rest
    → fl % 2 ≡ 0
    → IsGoodName title
    → p % 4 ≡ 0
    → p + file_len title cdat < 2 ^ 31
    → search (suc f) m name true p ≡ (
        if str_eq title name
        then some (some (opened p (p + 16 + name_field title)))
        else search f m name true (p + file_len title cdat))
search-write_file f m name p fl title cdat size rest s even good al fits =
    let nl : name_field title < 2 ^ 15 = ground (arith, good.1) in
    let al4 : (p + name_field title) % 4 ≡ 0 = ground (arith, good.1) in
    let near : p + 16 + name_field title < 2 ^ 31 = omega (arith, fits) in
    let far : p + 16 + name_field title + length cdat + (4 - length cdat % 4) % 4 < 2 ^ 31 =
      omega (arith, fits) in
    let at : p + 16 + name_field title + length cdat + (4 - length cdat % 4) % 4
        ≡ p + file_len title cdat =
      omega arith in
    search_header f m name true p fl (name_field title) (length cdat) size
      (bytes_at-StandsAt m p (header_bytes fl (name_field title) (length cdat) size) s.head) even
    ∙ ap
        (λ t.
          if str_eq t name
          then some (file_at p (header_fields fl (name_field title) (length cdat) size) true)
          else search f m name true
              (next_file p (header_fields fl (name_field title) (length cdat) size)))
        (c_string-bytes_at m (p + 16) 256 title good.0 (omega (arith, good.1)) s.title)
    ∙ ap
        (λ o.
          if str_eq title name
          then some o
          else search f m name true
              (next_file p (header_fields fl (name_field title) (length cdat) size)))
        (file_at_lem p fl (name_field title) (length cdat) size nl near)
    ∙ ap
        (λ q.
          if str_eq title name
          then some (some (opened p (p + 16 + name_field title)))
          else search f m name true q)
        (next_file_lem p fl (name_field title) (length cdat) size al4 nl far ∙ at)

opened-IsFile :
    (m : Memory) (p fl : ℕ) (title cdat : Bytes) (size : ℕ) (rest : Bytes)
    → Parts m p fl title cdat size rest
    → p + file_len title cdat < 2 ^ 31
    → IsFile m (opened p (p + 16 + name_field title)) fl cdat
unfolding StandsAt
opened-IsFile m p fl title cdat size rest s fits =
    let parts =
      StandsAt-append m p (htoxl 0x73665345)
        ((fl ∷ 0 ∷ htoxs (name_field title)) ++ (htoxl (length cdat) ++ htoxl size)) s.head in
    let fields =
      StandsAt-append m (p + 4) (fl ∷ 0 ∷ htoxs (name_field title))
        (htoxl (length cdat) ++ htoxl size) parts.1 in
    let at : p + 4 + 4 ≡ p + 8 = omega arith in
    let lens =
      StandsAt-append m (p + 8) (htoxl (length cdat)) (htoxl size)
        (subst (λ q. StandsAt m q (htoxl (length cdat) ++ htoxl size)) at fields.1) in
    record {
      plain = refl;
      start = refl;
      flags = fields.0.0;
      len = lens.0;
      content = s.body;
      fits = omega (arith, fits);
    }

module _ (gzip : Compressor) (exts : List Bytes) (compression level : ℕ) where
  -- The first file of a name that the builder can read: its flags and its bytes in the image.
  unfoldable pub wanted : Bytes → List (Bytes × Option Bytes) → Option (ℕ × Bytes)
  wanted name [] = none
  wanted name ((file_name, none) ∷ files) = wanted name files
  wanted name ((file_name, some fdat) ∷ files) =
      if str_eq (real_name file_name) name
      then choose gzip exts compression level (real_name file_name) fdat
      else wanted name files

  choose-even :
      (name fdat : Bytes) (fl : ℕ) (cdat : Bytes)
      → choose gzip exts compression level name fdat ≡ some (fl, cdat)
      → fl % 2 ≡ 0
  unfolding choose
  choose-even name fdat fl cdat =
      let even : Option (ℕ × Bytes) → Type 0 = λ o. o ≡ some (fl, cdat) → fl % 2 ≡ 0 in
      if_lem even (should_compress_gzip exts name) _ _
        (λ _. gzipped_even fdat (gzip level fdat (gzip_room fdat)) fl cdat)
        (λ _.
          if_lem even (compression == compress_none) _ _
            (λ _ e. let z : 0 ≡ fl = cc e in omega (arith, z)) (λ _ e. cc e))

  search-build :
      (files : List (Bytes × Option Bytes)) (f : ℕ) (m : Memory) (p : ℕ) (name img : Bytes)
      → length files < f
      → build gzip exts compression level files ≡ some img
      → All (λ file. IsGoodName (real_name file.0)) files
      → p % 4 ≡ 0
      → p + length img < 2 ^ 31
      → StandsAt m p img
      → (r : Option EspFsFile) × (search f m name true p ≡ some r) × Matches m r (wanted name files)
  unfolding build handle_file wanted Matches
  search-build files zero m p name img lt e good al fits s = absurd (omega arith)
  search-build [] (suc f) m p name img lt e good al fits s =
      let i : img ≡ finish_archive = cc e in
      (none, search_finish f m name true p (subst (StandsAt m p) i s), tt)
  search-build ((file_name, none) ∷ files) (suc f) m p name img lt e good al fits s =
      search-build files (suc f) m p name img (omega arith)
        (glue_nil (build gzip exts compression level files) img e) good.1 al fits s
  search-build ((file_name, some fdat) ∷ files) (suc f) m p name img lt e good al fits s =
      let title : Bytes = real_name file_name in
      let form : Option (ℕ × Bytes) = choose gzip exts compression level title fdat in
      let (x, rest, ex, er, ei) =
        glue_lem (filed title (length fdat) form) (build gzip exts compression level files) img e in
      let (fl, cdat, ec, ew) = filed_lem title (length fdat) form x ex in
      let whole : img ≡ write_file fl title cdat (length fdat) ++ rest =
        ei ∙ ap (λ w. w ++ rest) ew in
      let room : p + file_len title cdat + length rest < 2 ^ 31 = omega (
        arith,
        fits,
        ap length whole,
        length-append (write_file fl title cdat (length fdat)) rest,
        length-write_file fl title cdat (length fdat) good.0.1,
      ) in
      let parts =
        write_file-Parts m p fl title cdat (length fdat) rest good.0.1
          (subst (StandsAt m p) whole s) in
      let file : EspFsFile = opened p (p + 16 + name_field title) in
      let step =
        search-write_file f m name p fl title cdat (length fdat) rest parts
          (choose-even title fdat fl cdat ec) good.0 al (omega (arith, room)) in
      let found : Bool → Option (Option EspFsFile) =
        λ b. if b then some (some file) else search f m name true (p + file_len title cdat) in
      let asked : Bool → Option (ℕ × Bytes) = λ b. if b then form else wanted name files in
      elim (Bool-cases (str_eq title name)) [
        | inl same ↦ (
          some file,
          step ∙ ap found same,
          subst (λ o. Matches m (some file) o) (sym (ap asked same ∙ ec))
              (opened-IsFile m p fl title cdat (length fdat) rest parts (omega (arith, room))),
        )
        | inr other ↦
            let r =
              search-build files f m (p + file_len title cdat) name rest (omega arith) er good.1
                (ground (arith, al)) room parts.after in
            (
              r.0,
              step ∙ (ap found other ∙ r.1),
              subst (λ o. Matches m r.0 o) (sym (ap asked other)) r.2,
            )
      ]

  -- Every image starts with the magic number.
  build-magic :
      (files : List (Bytes × Option Bytes)) (img : Bytes)
      → build gzip exts compression level files ≡ some img
      → img ≡ htoxl 0x73665345 ++ drop 4 img
  unfolding build handle_file write_file
  build-magic [] img e =
      let i : finish_archive ≡ img = cc e in subst (λ t. t ≡ htoxl 0x73665345 ++ drop 4 t) i refl
  build-magic ((file_name, none) ∷ files) img e =
      build-magic files img (glue_nil (build gzip exts compression level files) img e)
  build-magic ((file_name, some fdat) ∷ files) img e =
      let title : Bytes = real_name file_name in
      let form : Option (ℕ × Bytes) = choose gzip exts compression level title fdat in
      let (x, rest, ex, er, ei) =
        glue_lem (filed title (length fdat) form) (build gzip exts compression level files) img e in
      let (fl, cdat, ec, ew) = filed_lem title (length fdat) form x ex in
      let whole : write_file fl title cdat (length fdat) ++ rest ≡ img =
        ap (λ w. w ++ rest) (sym ew) ∙ sym ei in
      subst (λ t. t ≡ htoxl 0x73665345 ++ drop 4 t) whole refl

  init-magic :
      (m : Memory) (p : ℕ) (t : Bytes)
      → p % 4 ≡ 0
      → StandsAt m p (htoxl 0x73665345 ++ t)
      → espfs_init m p none ≡ (init_ok, some p)
  unfolding espfs_init bytes_at StandsAt
  init-magic m p t al s = rw (s.0, s.1.0, s.1.1.0, s.1.1.1.0, al) refl

  -- For any list of files that the builder turns into an image: where the image stands at an aligned
  -- address of memory, below 2 GiB, and the names have no terminator in them and at most 254 bytes,
  -- the reader accepts the image, and a search with one round for each file and one more opens, for
  -- any name with any slashes in front, the first file of that name in the form that the builder
  -- chose for it, and gives NULL where there is none.
  pub espfs_open-build :
      (files : List (Bytes × Option Bytes)) (img : Bytes) (m : Memory) (base : ℕ) (name : Bytes)
      → build gzip exts compression level files ≡ some img
      → All (λ file. IsGoodName (real_name file.0)) files
      → base % 4 ≡ 0
      → base + length img < 2 ^ 31
      → StandsAt m base img
      → (espfs_init m base none ≡ (init_ok, some base))
        × ((r : Option EspFsFile) × (espfs_open (suc (length files)) m (some base) name true
              ≡ some r)
            × Matches m r (wanted (strip_slashes name) files))
  unfolding espfs_open
  espfs_open-build files img m base name e good al fits s = (
    init-magic m base (drop 4 img) al (subst (StandsAt m base) (build-magic files img e) s),
    search-build files (suc (length files)) m base (strip_slashes name) img (omega arith) e good al
        fits s,
  )
