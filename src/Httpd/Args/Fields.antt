-- ===== src/Httpd/Args/Fields.antt =====
-- `httpdFindArg` against a description by the fields between the `&` of a query.
use ems_esp_link.Prelude.{
  ℕ, zero, suc, ◌<◌, ◌≡◌, ◌≢◌, refl, inl, inr, true, false, ◌&&◌, Option, none, some, List, [], ◌∷◌,
  ◌++◌, ◌==◌, if◌then◌else◌, arith, Option-cases, length, drop, get_or, All,
}
use ems_esp_link.Prelude.Text.{Bytes, strstr, starts_with}
use ems_esp_link.Httpd.Decode.{url_decode}
use ems_esp_link.Httpd.Args.{Found, value, missing, before_amp, is_line_end, find_from, find_arg}

abbrev amp : Bytes
amp = b'&' ∷ []

-- The fields of a query.
abbrev fields_cons : ℕ → List Bytes → List Bytes
fields_cons c [] = (c ∷ []) ∷ []
fields_cons c (f ∷ fs) = if c == b'&' then [] ∷ f ∷ fs else (c ∷ f) ∷ fs

pub fields : Bytes → List Bytes
fields [] = [] ∷ []
fields (c ∷ s) = fields_cons c (fields s)

abbrev later_fields : Option Bytes → List Bytes
later_fields none = []
later_fields (some q) = fields (drop 1 q)

module _ (arg : Bytes) (buff_len : ℕ) where
  -- The decoded value of the first field `arg=value`, if no earlier field begins with a line end.
  pub value_of : List Bytes → Found
  value_of [] = missing
  value_of ([] ∷ fs) = value_of fs
  value_of ((c ∷ f) ∷ fs) =
      let later = value_of fs in
      if is_line_end c
      then missing
      else if starts_with (c ∷ f) (arg ++ b'=' ∷ [])
      then value (url_decode (drop (suc (length arg)) (c ∷ f)) buff_len)
      else later

fields_lem : (s : Bytes) → fields s ≡ before_amp s ∷ later_fields (strstr s amp)
unfolding fields before_amp
fields_lem [] = refl
fields_lem (c ∷ s) = ground (arith, fields_lem s)

strstr-shorter : (s q : Bytes) → strstr s amp ≡ some q → length (drop 1 q) < length s
strstr-shorter [] q e = ground arith
strstr-shorter (c ∷ s) q e = ground (arith, strstr-shorter s q)

-- A match at `p` is a match in the field at `p`.
abbrev NoAmp : Bytes → Type 0
NoAmp = All (λ c. c ≢ b'&')

match_lem :
    (arg p : Bytes)
    → NoAmp arg
    → (starts_with p arg && get_or p (length arg) 0 == b'=')
      ≡ starts_with (before_amp p) (arg ++ b'=' ∷ [])
unfolding before_amp
match_lem [] [] h = refl
match_lem [] (c ∷ s) h = ground arith
match_lem (a ∷ arg) [] h = refl
match_lem (a ∷ arg) (c ∷ s) h = ground (arith, match_lem arg s h.1)

value_lem :
    (arg p : Bytes)
    → NoAmp arg
    → starts_with (before_amp p) (arg ++ b'=' ∷ []) ≡ true
    → before_amp (drop (suc (length arg)) p) ≡ drop (suc (length arg)) (before_amp p)
unfolding before_amp
value_lem [] [] h e = ground arith
value_lem [] (c ∷ s) h e = ground arith
value_lem (a ∷ arg) [] h e = ground arith
value_lem (a ∷ arg) (c ∷ s) h e = ground (arith, value_lem arg s h.1)

starts_with_nil : (arg : Bytes) → starts_with [] (arg ++ b'=' ∷ []) ≡ false
starts_with_nil [] = refl
starts_with_nil (a ∷ arg) = refl

module _ (arg : Bytes) (buff_len : ℕ) (clean : NoAmp arg) where
  -- One field of the query, in the terms of the code.
  value_of_field :
      (c : ℕ) (s : Bytes) (fs : List Bytes)
      → value_of arg buff_len (before_amp (c ∷ s) ∷ fs) ≡ (
          if is_line_end c
          then missing
          else if starts_with (c ∷ s) arg && get_or (c ∷ s) (length arg) 0 == b'='
          then value (url_decode (before_amp (drop (suc (length arg)) (c ∷ s))) buff_len)
          else value_of arg buff_len fs)
  unfolding value_of before_amp
  value_of_field c s fs =
      rw (match_lem arg (c ∷ s) clean)
        (ground (arith, starts_with_nil arg, value_lem arg (c ∷ s) clean))

  find_from-value_of :
      (f : ℕ) (p : Bytes)
      → length p < f
      → find_from arg buff_len f p ≡ value_of arg buff_len (fields p)
  unfolding find_from value_of
  find_from-value_of zero p l = absurd (omega arith)
  find_from-value_of (suc f) [] l = unfold fields in refl
  find_from-value_of (suc f) (c ∷ s) l =
      rw (fields_lem (c ∷ s), value_of_field c s (later_fields (strstr (c ∷ s) amp)))
        (elim (Option-cases (strstr (c ∷ s) amp)) [
          | inl e ↦ ground arith
          | inr (q, e) ↦
              ground
                (arith, find_from-value_of f (drop 1 q) (omega (arith, strstr-shorter (c ∷ s) q e)))
        ])

-- `httpdFindArg` finds the decoded value of the first field with the name asked for; a field that
-- begins with a line end stops it. The name must hold no `&`, and every line is searched to its end.
pub find_arg-value_of :
    (arg : Bytes) (buff_len : ℕ) (line : Bytes)
    → NoAmp arg
    → find_arg arg buff_len (some line) ≡ value_of arg buff_len (fields line)
unfolding find_arg
find_arg-value_of arg buff_len line h =
    find_from-value_of arg buff_len h (suc (length line)) line (omega arith)
