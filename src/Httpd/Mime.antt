-- ===== src/Httpd/Mime.antt =====
-- `httpdGetMimetype` of httpd/httpd.c.
use ems_esp_link.Prelude.{
  ◌≡◌, ◌≢◌, refl, ap, Option, none, some, List, [], ◌∷◌, ◌++◌, ◌==◌, if◌then◌else◌, arith, All,
}
use ems_esp_link.Prelude.Text.{Bytes, codes, str_eq}

-- `mimeTypes` without its last row, which is the default.
abbrev pub mime_types : List (Bytes × Bytes)
mime_types =
    (codes "htm", codes "text/htm")
    ∷ (codes "html", codes "text/html; charset=UTF-8")
    ∷ (codes "css", codes "text/css")
    ∷ (codes "js", codes "text/javascript")
    ∷ (codes "txt", codes "text/plain")
    ∷ (codes "jpg", codes "image/jpeg")
    ∷ (codes "jpeg", codes "image/jpeg")
    ∷ (codes "png", codes "image/png")
    ∷ (codes "tpl", codes "text/html; charset=UTF-8")
    ∷ []

-- The loop over the table.
unfoldable pub mime_type_of : List (Bytes × Bytes) → Bytes → Bytes
mime_type_of [] ext = codes "text/html"
mime_type_of ((e, mimetype) ∷ rows) ext =
    let rest = mime_type_of rows ext in if str_eq ext e then mimetype else rest

-- The text behind the last dot, if there is one.
unfoldable pub behind_dot : Bytes → Option Bytes
behind_dot [] = none
behind_dot (c ∷ s) = elim (behind_dot s) [
  | some ext ↦ some ext
  | none ↦ if c == b'.' then some s else none
]

-- Where the loop from the end of the URL stops: behind the last dot, or at the start.
unfoldable pub extension : Bytes → Bytes
unfolding behind_dot
extension url = elim (behind_dot url) [ some ext ↦ ext | none ↦ url ]

-- `httpdGetMimetype`; `none` for an empty URL, in front of which the loop would read.
unfoldable pub get_mimetype : Bytes → Option Bytes
unfolding extension mime_type_of
get_mimetype [] = none
get_mimetype (c ∷ s) = some (mime_type_of mime_types (extension (c ∷ s)))

abbrev NoDot : Bytes → Type 0
NoDot = All (λ c. c ≢ b'.')

no_dot_lem : (s : Bytes) → NoDot s → behind_dot s ≡ none
unfolding behind_dot
no_dot_lem [] h = refl
no_dot_lem (c ∷ s) h = ground (arith, h.0, no_dot_lem s h.1)

last_dot_lem : (stem ext : Bytes) → NoDot ext → behind_dot (stem ++ (b'.' ∷ ext)) ≡ some ext
unfolding behind_dot
last_dot_lem [] ext h = ground (arith, no_dot_lem ext h)
last_dot_lem (c ∷ stem) ext h = ground (arith, last_dot_lem stem ext h)

extension_dot : (stem ext : Bytes) → NoDot ext → extension (stem ++ (b'.' ∷ ext)) ≡ ext
unfolding extension
extension_dot stem ext h = rw (last_dot_lem stem ext h, extension)

extension_bare : (url : Bytes) → NoDot url → extension url ≡ url
unfolding extension
extension_bare url h = rw (no_dot_lem url h, extension)

with_dot :
    (stem ext : Bytes)
    → NoDot ext
    → get_mimetype (stem ++ (b'.' ∷ ext)) ≡ some (mime_type_of mime_types ext)
unfolding get_mimetype
with_dot [] ext h = ap (λ e. some (mime_type_of mime_types e)) (extension_dot [] ext h)
with_dot (c ∷ stem) ext h =
    ap (λ e. some (mime_type_of mime_types e)) (extension_dot (c ∷ stem) ext h)

without_dot :
    (url : Bytes) → NoDot url → url ≢ [] → get_mimetype url ≡ some (mime_type_of mime_types url)
unfolding get_mimetype
without_dot [] h ne = absurd (ne refl)
without_dot (c ∷ s) h ne = ap (λ e. some (mime_type_of mime_types e)) (extension_bare (c ∷ s) h)

-- A text without a dot, behind the last dot of a URL and whatever stands in front, gives the URL the
-- type of the table for that text; it gives the same type alone, unless it is empty.
pub get_mimetype-extension :
    (stem ext : Bytes)
    → All (λ c. c ≢ b'.') ext
    → (get_mimetype (stem ++ (b'.' ∷ ext)) ≡ some (mime_type_of mime_types ext))
      × (ext ≢ [] → get_mimetype ext ≡ some (mime_type_of mime_types ext))
get_mimetype-extension stem ext h = (with_dot stem ext h, without_dot ext h)
