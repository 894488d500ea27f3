-- ===== src/Httpd/Args.antt =====
-- `httpdFindArg` of httpd/httpd.c.
pub mod Fields
use ems_esp_link.Prelude.{
  ℕ, zero, suc, ◌+◌, ◌-◌, ◌≤◌, ◌<◌, ◌≡◌, ◌≢◌, refl, ap, sym, ◌∙◌, ◌⊎◌, inl, inr, Bool, true, false,
  ◌&&◌, ◌||◌, Option, none, some, List, [], ◌∷◌, ◌++◌, leb, ltb, ◌==◌, if◌then◌else◌, arith,
  Bool-cases, length, drop, get_or, All,
}
use ems_esp_link.Prelude.Text.{Bytes, strstr, starts_with}
use ems_esp_link.Httpd.Decode.{Decoded, url_decode}

-- What `httpdFindArg` returns: 0 with the buffer untouched, the decoded value, or -1.
pub data Found : Type 0 where
  no_line : Found
  value : Decoded → Found
  missing : Found

-- The text up to the first `&`: the `e - p` bytes from `p`.
pub before_amp : Bytes → Bytes
before_amp [] = []
before_amp (c ∷ s) = let rest = before_amp s in if c == b'&' then [] else c ∷ rest

-- A newline or a carriage return at `p` ends the search.
abbrev pub is_line_end : ℕ → Bool
is_line_end c = c == 10 || c == 13

module _ (arg : Bytes) (buff_len : ℕ) where
  -- The `while` loop, on fuel; an empty text is a pointer to the terminator.
  unfoldable pub find_from : ℕ → Bytes → Found
  unfolding before_amp
  find_from zero p = missing
  find_from (suc f) [] = missing
  find_from (suc f) (c ∷ s) = elim (is_line_end c) [
    | true ↦ missing
    | false ↦ elim (starts_with (c ∷ s) arg && get_or (c ∷ s) (length arg) 0 == b'=') [
      | true ↦ value (url_decode (before_amp (drop (suc (length arg)) (c ∷ s))) buff_len)
      | false ↦ elim (strstr (c ∷ s) (b'&' ∷ [])) [
        | none ↦ missing
        | some q ↦ find_from f (drop 1 q)
      ]
    ]
  ]

  -- Each round begins behind an `&`, so the rounds are fewer than the bytes.
  unfoldable pub find_arg : Option Bytes → Found
  unfolding find_from
  find_arg none = no_line
  find_arg (some line) = find_from (suc (length line)) line
