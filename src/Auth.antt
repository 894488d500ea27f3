-- ===== src/Auth.antt =====
-- Basic authentication, httpd/auth.c. The function that gives the users is a parameter.
pub mod Access
pub mod Client
use ems_esp_link.Prelude.{
  ℕ, zero, suc, ◌+◌, ◌*◌, Bool, true, false, ◌&&◌, Option, none, some, List, [], ◌∷◌, ltb, ◌==◌,
  if◌then◌else◌, length, drop, get_or,
}
use ems_esp_link.Prelude.Text.{Bytes, codes, c_string, starts_with, str_eq}
use ems_esp_link.Base64.{base64_decode}
use ems_esp_link.Httpd.Conn.{Conn, Code, done, authenticated}
use ems_esp_link.Httpd.Head.{get_header}
use ems_esp_link.Httpd.Send.{send, start_response, header, end_headers}

-- The sizes of `hdr` and of `userpass`.
abbrev pub hdr_size : ℕ
hdr_size = (32 + 32 + 2) * 10

abbrev pub userpass_size : ℕ
userpass_size = 32 + 32 + 2

-- The string in `userpass`: empty when the text is not decoded.
unfoldable pub string_of : Option Bytes → Bytes
string_of none = []
string_of (some bytes) = c_string bytes

-- The test of one user.
unfoldable pub matches : Bytes → Bytes → Bytes → Bool
matches userpass user pass =
    length userpass == length user + length pass + 1
    && (starts_with userpass user
        && (get_or userpass (length user) 0 == b':'
            && str_eq (drop (suc (length user)) userpass) pass))

-- The answer to a client that is not let in.
unfoldable pub refuse : Conn → Conn
refuse c =
    let c1 = start_response c 401 in
    let c2 = header c1 (codes "Content-Type") (codes "text/plain") in
    let c3 = header c2 (codes "WWW-Authenticate") (codes "Basic realm=\"Protected\"") in
    (send (end_headers c3) (codes "401 Forbidden.")).1

-- `get_user_pw` is `AuthGetUserPw` for this request, with `none` for 0.
module _ (get_user_pw : ℕ → Option (Bytes × Bytes)) where
  -- The loop over the users, on fuel.
  unfoldable pub is_user : Bytes → ℕ → ℕ → Bool
  unfolding matches
  is_user userpass zero index = false
  is_user userpass (suc f) index = elim (get_user_pw index) [
    | none ↦ false
    | some (user, pass) ↦ elim (matches userpass user pass) [
      | true ↦ true
      | false ↦ is_user userpass f (suc index)
    ]
  ]

-- `beyond` is what lies in memory behind `hdr`: for a header of five letters the length wraps, and
-- decoding starts there.
module _ (beyond : Bytes) where
  -- What is decoded: the text behind `Basic` and one character.
  unfoldable pub encoded : Bytes → Bytes
  encoded hdr = if ltb (length hdr) 6 then beyond else drop 6 hdr

  -- `userpass`, if there is a header of basic authentication.
  unfoldable pub credentials : Conn → Option Bytes
  unfolding encoded string_of
  credentials c = elim (get_header (codes "Authorization") hdr_size c.head) [
    | none ↦ none
    | some hdr ↦ elim (starts_with hdr (codes "Basic")) [
      | true ↦ some (string_of (base64_decode (encoded hdr) userpass_size))
      | false ↦ none
    ]
  ]

  -- `authBasic`, with fuel for the loop over the users.
  unfoldable pub auth_basic : (ℕ → Option (Bytes × Bytes)) → ℕ → Conn → Code × Conn
  unfolding credentials is_user refuse
  auth_basic get_user_pw fuel c = elim c.conn [
    | none ↦ (done, c)
    | some _ ↦ elim (credentials c) [
      | none ↦ (done, refuse c)
      | some userpass ↦ elim (is_user get_user_pw userpass fuel 0) [
        | true ↦ (authenticated, c)
        | false ↦ (done, refuse c)
      ]
    ]
  ]
