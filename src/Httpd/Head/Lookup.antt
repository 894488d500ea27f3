-- ===== src/Httpd/Head/Lookup.antt =====
-- What `httpdGetHeader` finds in a head whose lines end in terminators.
use ems_esp_link.Prelude.{
  ℕ, zero, suc, ◌-◌, ◌≤◌, ◌<◌, ◌≡◌, ◌≢◌, refl, ap, ◌∙◌, Bool, true, false, ◌&&◌, Option, none, some,
  List, [], ◌∷◌, ◌++◌, ◌==◌, if◌then◌else◌, Bool-cases, inl, inr, arith, length, length-append,
  take, drop, get_or, All,
}
use ems_esp_link.Prelude.Text.{Bytes, codes, c_string, starts_with}
use ems_esp_link.Httpd.Head.{next_string, skip_crap, skip_spaces, line, search, get_header}

abbrev pub Plain : Bytes → Type 0
Plain = All (λ b. b ≢ 0)

c_string-append : (s rest : Bytes) → Plain s → c_string (s ++ (0 ∷ rest)) ≡ s
c_string-append [] rest h = refl
c_string-append (b ∷ s) rest h = ground (arith, h.0, c_string-append s rest h.1)

drop-append : (s : Bytes) (b : ℕ) (rest : Bytes) → drop (suc (length s)) (s ++ (b ∷ rest)) ≡ rest
drop-append [] b rest = refl
drop-append (c ∷ s) b rest = drop-append s b rest

next_string-append : (s rest : Bytes) → Plain s → next_string (s ++ (0 ∷ rest)) ≡ rest
next_string-append s rest h =
    ap (λ t. drop (suc (length t)) (s ++ (0 ∷ rest))) (c_string-append s rest h)
    ∙ drop-append s 0 rest

line_until : (s rest : Bytes) → line (s ++ (0 ∷ rest)) ≡ line s
unfolding line
line_until [] rest = refl
line_until (c ∷ s) rest = ground (arith, line_until s rest)

spaces_until : (s rest : Bytes) → line (skip_spaces (s ++ (0 ∷ rest))) ≡ line (skip_spaces s)
unfolding skip_spaces line
spaces_until [] rest = refl
spaces_until (c ∷ s) rest = ground (arith, spaces_until s rest, line_until s rest)

-- The line `s` is that of the field `name`.
abbrev pub is_field : Bytes → Bytes → Bool
is_field name s = starts_with s name && get_or s (length name) 0 == b':'

field_until : (name s rest : Bytes) → Plain name → is_field name (s ++ (0 ∷ rest)) ≡ is_field name s
field_until [] [] rest h = refl
field_until [] (c ∷ s) rest h = refl
field_until (a ∷ name) [] rest h = ground (arith, h.0)
field_until (a ∷ name) (c ∷ s) rest h = ground (arith, field_until name s rest h.1)

-- The text of the field.
abbrev pub field_value : Bytes → Bytes → Bytes
field_value name s = line (skip_spaces (drop (suc (length name)) s))

value_until :
    (name s rest : Bytes)
    → is_field name s ≡ true
    → field_value name (s ++ (0 ∷ rest)) ≡ field_value name s
value_until [] [] rest m = ground arith
value_until [] (c ∷ s) rest m = spaces_until s rest
value_until (a ∷ name) [] rest m = ground arith
value_until (a ∷ name) (c ∷ s) rest m = value_until name s rest (ground arith)

-- A line as it stands in the head: no terminator in it, and no blank in front.
abbrev pub IsLine : Bytes → Type 0
IsLine s = Plain s × ((32 < get_or s 0 0) × (0 < length s))

crap_lem : (s rest : Bytes) → IsLine s → skip_crap (s ++ (0 ∷ rest)) ≡ s ++ (0 ∷ rest)
unfolding skip_crap
crap_lem [] rest h = absurd (ground arith)
crap_lem (c ∷ s) rest h = ground (arith, h.1.0)

-- The header lines as `httpdParseHeader` leaves them: the carriage return behind each is a
-- terminator, and the end of the head stands as it came.
abbrev pub terminated_lines : List Bytes → Bytes
terminated_lines [] = codes "\n\r\n"
terminated_lines (s ∷ ss) = b'\n' ∷ s ++ (0 ∷ terminated_lines ss)

-- The value of the first line of the field, cut to the `ret_len - 1` bytes that the buffer holds.
abbrev pub first_value : Bytes → ℕ → List Bytes → Option Bytes
first_value name ret_len [] = none
first_value name ret_len (s ∷ ss) =
    let rest = first_value name ret_len ss in
    if is_field name s then some (take (ret_len - 1) (field_value name s)) else rest

module _ (name : Bytes) (ret_len : ℕ) (plain : Plain name) where
  -- A round of the loop behind the blanks.
  abbrev after_test : ℕ → Bytes → Bool → Option Bytes
  after_test f p found = elim found [
    | true ↦ some (take (ret_len - 1) (field_value name p))
    | false ↦ search name ret_len f (next_string p)
  ]

  abbrev round : ℕ → Bytes → Option Bytes
  round f p = after_test f p (is_field name p)

  search-suc :
      (f : ℕ) (s rest : Bytes)
      → IsLine s
      → search name ret_len (suc f) (b'\n' ∷ s ++ (0 ∷ rest)) ≡ round f (s ++ (0 ∷ rest))
  unfolding search skip_crap
  search-suc f s rest h = ap (round f) (crap_lem s rest h)

  is_field-nil : (n : Bytes) → is_field n [] ≡ false
  is_field-nil [] = refl
  is_field-nil (c ∷ n) = refl

  -- The end of the head is passed in one round, which finds nothing.
  search-end : (f : ℕ) → search name ret_len (suc f) (codes "\n\r\n") ≡ search name ret_len f []
  unfolding search skip_crap
  search-end f = ap (after_test f []) (is_field-nil name)

  search-nil : (f : ℕ) → search name ret_len f [] ≡ none
  unfolding search
  search-nil zero = refl
  search-nil (suc f) = refl

  round_hit :
      (f : ℕ) (s rest : Bytes)
      → is_field name s ≡ true
      → round f (s ++ (0 ∷ rest)) ≡ some (take (ret_len - 1) (field_value name s))
  round_hit f s rest m =
      ap (after_test f (s ++ (0 ∷ rest))) (field_until name s rest plain ∙ m)
      ∙ ap (λ t. some (take (ret_len - 1) t)) (value_until name s rest m)

  round_miss :
      (f : ℕ) (s rest : Bytes)
      → Plain s
      → is_field name s ≡ false
      → round f (s ++ (0 ∷ rest)) ≡ search name ret_len f rest
  round_miss f s rest h m =
      ap (after_test f (s ++ (0 ∷ rest))) (field_until name s rest plain ∙ m)
      ∙ ap (search name ret_len f) (next_string-append s rest h)

  search-lines :
      (ss : List Bytes) (f : ℕ)
      → All IsLine ss
      → length (terminated_lines ss) ≤ f
      → search name ret_len f (terminated_lines ss) ≡ first_value name ret_len ss
  search-lines [] zero h l = absurd (omega arith)
  search-lines [] (suc f) h l = search-end f ∙ search-nil f
  search-lines (s ∷ ss) zero h l = absurd (omega (arith, length-append s (0 ∷ terminated_lines ss)))
  search-lines (s ∷ ss) (suc f) h l =
      let rest = terminated_lines ss in
      let shorter : length rest ≤ f = omega (arith, length-append s (0 ∷ rest)) in
      search-suc f s rest h.0 ∙ elim (Bool-cases (is_field name s)) [
        | inl m ↦ round_hit f s rest m ∙ ground arith
        | inr m ↦ round_miss f s rest h.0.0 m ∙ search-lines ss f h.1 shorter ∙ ground arith
      ]

-- On a head as the parser leaves it, of the request, the version and header lines, none with a
-- terminator inside or a blank in front: the result is the value of the first line of the field,
-- cut to the buffer, and nothing if there is no such line.
pub get_header-first_value :
    (name : Bytes) (ret_len : ℕ) (request version : Bytes) (ss : List Bytes)
    → All (λ b. b ≢ 0) name
    → All (λ b. b ≢ 0) request
    → All (λ b. b ≢ 0) version
    → All IsLine ss
    → get_header name ret_len (request ++ (0 ∷ (version ++ (0 ∷ terminated_lines ss))))
      ≡ first_value name ret_len ss
unfolding get_header
get_header-first_value name ret_len request version ss n r v h =
    let rest = terminated_lines ss in
    let head = request ++ (0 ∷ (version ++ (0 ∷ rest))) in
    let enough : length rest ≤ length head = omega (
      arith,
      length-append request (0 ∷ (version ++ (0 ∷ rest))),
      length-append version (0 ∷ rest),
    ) in
    ap (λ t. search name ret_len (length head) (next_string t))
      (next_string-append request (version ++ (0 ∷ rest)) r)
    ∙ ap (search name ret_len (length head)) (next_string-append version rest v)
    ∙ search-lines name ret_len n ss (length head) h enough
