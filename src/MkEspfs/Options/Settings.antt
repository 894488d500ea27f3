-- ===== src/MkEspfs/Options/Settings.antt =====
-- Settings of the builder, written as a command line.
use ems_esp_link.Prelude.{
  ℕ, ◌^◌, ◌<◌, ◌≤◌, ◌≡◌, ◌≢◌, refl, sym, ap, ◌∙◌, Bool, false, ◌||◌, Option, some, List, [], ◌∷◌,
  ◌++◌, ◌==◌, arith, All, append_assoc, append-nil,
}
use ems_esp_link.Prelude.Text.{Bytes, codes, atoi, decimal}
use ems_esp_link.Prelude.Text.Decimal.{atoi-decimal}
use ems_esp_link.Prelude.Words.{slt}
use ems_esp_link.MkEspfs.{Compressor, split_commas, parse_gzip_extensions, build}
use ems_esp_link.MkEspfs.Options.{flag_of, set_option, read_options, Made, made_of, make, mkespfs}

-- A text with no comma, and one that has a byte as well.
unfoldable pub NoComma : Bytes → Type 0
NoComma s = All (λ c. c ≢ b',') s

unfoldable pub IsExtension : Bytes → Type 0
IsExtension [] = ⊥
IsExtension (c ∷ s) = NoComma (c ∷ s)

-- Texts with a comma between each two.
unfoldable pub with_commas : List Bytes → Bytes
with_commas [] = []
with_commas (s ∷ []) = s
with_commas (s ∷ t ∷ ts) = s ++ (b',' ∷ with_commas (t ∷ ts))

abbrev ended : Bytes → List Bytes → List Bytes
ended [] rest = rest
ended (c ∷ part) rest = (c ∷ part) ∷ rest

split_commas-cons :
    (part s rest : Bytes)
    → NoComma s
    → split_commas part (s ++ (b',' ∷ rest)) ≡ ended (part ++ s) (split_commas [] rest)
unfolding split_commas NoComma
split_commas-cons [] [] rest h = refl
split_commas-cons (x ∷ part) [] rest h =
    ap (λ p. (x ∷ p) ∷ split_commas [] rest) (sym (append-nil part))
split_commas-cons part (c ∷ s) rest h =
    let other : (c == b',') ≡ false = ground (arith, h.0) in
    rw other (
      split_commas-cons (part ++ (c ∷ [])) s rest h.1
      ∙ ap (λ p. ended p (split_commas [] rest)) (append_assoc part (c ∷ []) s))

split_commas_last : (part s : Bytes) → NoComma s → split_commas part s ≡ ended (part ++ s) []
unfolding split_commas NoComma
split_commas_last [] [] h = refl
split_commas_last (x ∷ part) [] h = ap (λ p. (x ∷ p) ∷ []) (sym (append-nil part))
split_commas_last part (c ∷ s) h =
    let other : (c == b',') ≡ false = ground (arith, h.0) in
    rw other (
      split_commas_last (part ++ (c ∷ [])) s h.1
      ∙ ap (λ p. ended p []) (append_assoc part (c ∷ []) s))

split_commas-with_commas :
    (exts : List Bytes) → All IsExtension exts → split_commas [] (with_commas exts) ≡ exts
unfolding split_commas with_commas IsExtension
split_commas-with_commas [] h = refl
split_commas-with_commas ([] ∷ exts) h = absurd h.0
split_commas-with_commas ((c ∷ s) ∷ []) h = split_commas_last [] (c ∷ s) h.0
split_commas-with_commas ((c ∷ s) ∷ t ∷ ts) h =
    split_commas-cons [] (c ∷ s) (with_commas (t ∷ ts)) h.0
    ∙ ap (λ r. (c ∷ s) ∷ r) (split_commas-with_commas (t ∷ ts) h.1)

-- The three options with their values.
abbrev pub command_line : ℕ → ℕ → List Bytes → List Bytes
command_line comp_type comp_lvl exts =
    codes "-c"
    ∷ decimal comp_type
    ∷ codes "-l"
    ∷ decimal comp_lvl
    ∷ codes "-g"
    ∷ with_commas exts
    ∷ []

-- A type of compression below 2^31, a level from 1 to 9, and extensions that are not empty and have no
-- comma, written as options: the program reads all three back, and its output is what the loop over the
-- files builds with them, or it exits with 1 where that fails.
pub mkespfs-command_line :
    (gzip : Compressor) (files : List (Bytes × Option Bytes)) (comp_type comp_lvl : ℕ)
    (exts : List Bytes)
    → comp_type < 2 ^ 31
    → 1 ≤ comp_lvl
    → comp_lvl ≤ 9
    → All IsExtension exts
    → mkespfs gzip files (command_line comp_type comp_lvl exts)
      ≡ some (made_of (build gzip exts comp_type comp_lvl files))
unfolding mkespfs read_options flag_of set_option make parse_gzip_extensions
mkespfs-command_line gzip files comp_type comp_lvl exts lt low high good =
    let same : atoi (decimal comp_type) ≡ comp_type = atoi-decimal comp_type lt in
    let level : atoi (decimal comp_lvl) ≡ comp_lvl = atoi-decimal comp_lvl (omega (arith, high)) in
    let fine : (slt comp_lvl 1 || slt 9 comp_lvl) ≡ false = ground (arith, low, high) in
    let end : ℕ → ℕ → List Bytes → Bool → Option Made = λ t l es err. some (
      make gzip files
        (record { comp_type = t; comp_lvl = l; gzip_extensions = some es; err = err })) in
    let err : ℕ → Bool = λ l. slt l 1 || slt 9 l in
    ap
      (λ t.
        end t (atoi (decimal comp_lvl)) (split_commas [] (with_commas exts))
          (err (atoi (decimal comp_lvl))))
      same
    ∙ (ap (λ l. end comp_type l (split_commas [] (with_commas exts)) (err l)) level
        ∙ (ap (λ es. end comp_type comp_lvl es (err comp_lvl)) (split_commas-with_commas exts good)
            ∙ ap (λ b. end comp_type comp_lvl exts b) fine))
