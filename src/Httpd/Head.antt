-- ===== src/Httpd/Head.antt =====
-- `httpdGetHeader` of httpd/httpd.c.
pub mod Lookup
use ems_esp_link.Prelude.{
  ℕ, zero, suc, ◌-◌, true, false, ◌&&◌, ◌||◌, Option, none, some, [], ◌∷◌, leb, ◌==◌, if◌then◌else◌,
  length, take, drop, get_or, not,
}
use ems_esp_link.Prelude.Text.{Bytes, c_string, starts_with}

-- `p+strlen(p)+1`
abbrev pub next_string : Bytes → Bytes
next_string p = drop (suc (length (c_string p))) p

-- The loop over blanks and control characters, and the one over the spaces behind the colon.
unfoldable pub skip_crap : Bytes → Bytes
skip_crap [] = []
skip_crap (c ∷ p) = let rest = skip_crap p in if leb c 32 && not (c == 0) then rest else c ∷ p

unfoldable pub skip_spaces : Bytes → Bytes
skip_spaces [] = []
skip_spaces (c ∷ p) = let rest = skip_spaces p in if c == b' ' then rest else c ∷ p

-- The bytes up to the end of the line.
unfoldable pub line : Bytes → Bytes
line [] = []
line (c ∷ p) = let rest = line p in if c == 0 || (c == b'\r' || c == b'\n') then [] else c ∷ rest

module _ (name : Bytes) (ret_len : ℕ) where
  -- The `while` loop, on fuel: what it copies to `ret`, or `none` for 0.
  unfoldable pub search : ℕ → Bytes → Option Bytes
  unfolding skip_crap skip_spaces line
  search zero p = none
  search (suc f) [] = none
  search (suc f) (c ∷ s) =
      let p = skip_crap (c ∷ s) in
      elim (starts_with p name && get_or p (length name) 0 == b':') [
        | true ↦ some (take (ret_len - 1) (line (skip_spaces (drop (suc (length name)) p))))
        | false ↦ search f (next_string p)
      ]

  -- Each round passes a terminator, so the rounds are fewer than the bytes.
  unfoldable pub get_header : Bytes → Option Bytes
  unfolding search
  get_header head = search (length head) (next_string (next_string head))
