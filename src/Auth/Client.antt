-- ===== src/Auth/Client.antt =====
-- What a client sends to be let in.
use ems_esp_link.Prelude.{
  ◌≤◌, ◌<◌, ◌≡◌, ◌≢◌, refl, ap, ◌∙◌, false, Option, none, some, [], ◌∷◌, ◌++◌, arith, length, All,
}
use ems_esp_link.Prelude.Text.{Bytes, codes, c_string, starts_with}
use ems_esp_link.Base64.{base64_decode}
use ems_esp_link.Base64.RoundTrip.{encode, base64_decode-encode}
use ems_esp_link.Httpd.Conn.{Conn}
use ems_esp_link.Httpd.Head.{get_header}
use ems_esp_link.Auth.{hdr_size, userpass_size, string_of, encoded, credentials}

c_string_plain : (s : Bytes) → All (λ b. b ≢ 0) s → c_string s ≡ s
c_string_plain [] h = refl
c_string_plain (b ∷ s) h = ground (arith, h.0, c_string_plain s h.1)

abbrev pub basic : Bytes → Bytes
basic text = codes "Basic " ++ encode text

encoded-basic : (beyond text : Bytes) → encoded beyond (basic text) ≡ encode text
unfolding encoded
encoded-basic beyond text = ground arith

decoded_lem :
    (text : Bytes)
    → All (λ b. b < 256) text
    → length text ≤ userpass_size
    → base64_decode (encode text) userpass_size ≡ some text
decoded_lem text h fits = ground (arith, base64_decode-encode text userpass_size h)

-- A header of basic authentication with the Base64 encoding of a text of at most 66 bytes, none of
-- which is 0, gives that text as credentials, whatever lies in memory behind the header.
pub credentials-basic :
    (beyond text : Bytes) (c : Conn)
    → get_header (codes "Authorization") hdr_size c.head ≡ some (basic text)
    → All (λ b. b < 256) text
    → All (λ b. b ≢ 0) text
    → length text ≤ userpass_size
    → credentials beyond c ≡ some text
unfolding credentials string_of
credentials-basic beyond text c sent bytes plain fits =
    let string_lem : string_of (base64_decode (encoded beyond (basic text)) userpass_size) ≡ text =
      ap (λ t. string_of (base64_decode t userpass_size)) (encoded-basic beyond text)
      ∙ ap string_of (decoded_lem text bytes fits)
      ∙ c_string_plain text plain in
    rw (sent, credentials) (ap some string_lem)

-- What a request sends to be let in: nothing when there is no field for it or one that is not of basic
-- authentication, and a text of at most 66 bytes, none of which is 0, when the field has its encoding.
pub data Sends (c : Conn) : Option Bytes → Type 0 where
  no_field : get_header (codes "Authorization") hdr_size c.head ≡ none → Sends c none
  other_field :
      (hdr : Bytes)
      → get_header (codes "Authorization") hdr_size c.head ≡ some hdr
      → starts_with hdr (codes "Basic") ≡ false
      → Sends c none
  basic_field :
      (text : Bytes)
      → get_header (codes "Authorization") hdr_size c.head ≡ some (basic text)
      → All (λ b. b < 256) text
      → All (λ b. b ≢ 0) text
      → length text ≤ userpass_size
      → Sends c (some text)

pub credentials-Sends :
    (beyond : Bytes) (c : Conn) (given : Option Bytes)
    → Sends c given
    → credentials beyond c ≡ given
unfolding credentials
credentials-Sends beyond c _ (no_field e) = rw (e, credentials) refl
credentials-Sends beyond c _ (other_field hdr e f) = rw (e, f, credentials) refl
credentials-Sends beyond c _ (basic_field text e bytes plain fits) =
    credentials-basic beyond text c e bytes plain fits
