-- ===== src/Tests/Web.antt =====
-- The parsing functions of the HTTP server at concrete inputs.
use ems_esp_link.Prelude.{◌≡◌, refl, none, some, arith, take, ltb, leb, if◌then◌else◌}
use ems_esp_link.Prelude.Text.{Bytes, codes}
use ems_esp_link.Base64.{base64_decode}
use ems_esp_link.Base64.RoundTrip.{encode, digit, base64_decode-encode}
use ems_esp_link.Httpd.Mime.{mime_types, mime_type_of}
use ems_esp_link.Httpd.Args.{find_arg}
use ems_esp_link.Httpd.Args.Fields.{fields, value_of, find_arg-value_of}
use ems_esp_link.Httpd.Decode.{
  url_decode, Encodes, nil, literal, space, percent, number, lower, url_decode-Encodes,
}

abbrev credentials : Bytes
credentials = codes "user:pass"

base64_decode-encode_example :
    base64_decode (encode credentials) 66 ≡ (if leb 9 66 then some credentials else none)
base64_decode-encode_example = base64_decode-encode credentials 66 (omega arith)

base64_test : encode (codes "any carnal") ≡ codes "YW55IGNhcm5hbA=="
unfolding encode digit
base64_test = refl

-- `a+b%2d` for `a b-`
encoded : Encodes (codes "a+%2d") (codes "a -")
encoded = literal (omega arith) (omega arith) (
    space refl refl (
      percent {x = 2} {y = 13} refl (number refl (omega arith))
        (lower refl (omega arith) (omega arith)) refl nil))

url_decode-Encodes_example :
    ((url_decode (codes "a+%2d") 2).ret ≡ take 2 (codes "a -"))
    × ((url_decode (codes "a+%2d") 2).terminated ≡ ltb 3 2)
url_decode-Encodes_example = url_decode-Encodes encoded 2

find_arg-value_of_example :
    find_arg (codes "rate") 512 (some (codes "x=1&rate=9600"))
    ≡ value_of (codes "rate") 512 (fields (codes "x=1&rate=9600"))
find_arg-value_of_example =
    find_arg-value_of (codes "rate") 512 (codes "x=1&rate=9600") (omega arith)

mime_type_of_test : mime_type_of mime_types (codes "js") ≡ codes "text/javascript"
unfolding mime_type_of
mime_type_of_test = refl
