-- ===== src/Tests/Access.antt =====
-- Authentication at a concrete request.
use ems_esp_link.Prelude.{
  ℕ, zero, suc, ◌<◌, ◌≡◌, ◌≢◌, refl, Option, none, some, List, [], ◌∷◌, ◌++◌, arith,
}
use ems_esp_link.Prelude.Text.{Bytes, codes}
use ems_esp_link.Base64.RoundTrip.{encode, digit}
use ems_esp_link.Httpd.Conn.{Conn, unset}
use ems_esp_link.Httpd.Head.{skip_crap, skip_spaces, line, search, get_header}
use ems_esp_link.Httpd.Head.Lookup.{terminated_lines, first_value, get_header-first_value}
use ems_esp_link.Auth.{hdr_size, auth_basic}
use ems_esp_link.Auth.Access.{Outcome, auth_basic-IsGranted}
use ems_esp_link.Auth.Client.{basic, Sends, basic_field}

abbrev users : ℕ → Option (Bytes × Bytes)
users zero = some (codes "guest", [])
users (suc zero) = some (codes "adm", codes "pw")
users (suc (suc j)) = none

abbrev request : Conn
request = record {
  conn = some 3;
  remote_port = 1;
  remote_ip = [];
  request_type = unset;
  url = none;
  get_args = none;
  cgi_arg = 0;
  cgi_data = none;
  cgi = none;
  head =
      codes "GET /wifi"
      ++ (0
          ∷ (codes "HTTP/1.1"
              ++ (0
                  ∷ (codes "Host: a"
                      ++ (0 ∷ (codes "Authorization: Basic YWRtOnB3" ++ (0 ∷ [])))))));
  send_buff = [];
  body = record { len = 0; buff_size = 0; buff = none; received = 0; multipart_boundary = none };
}

get_header_test :
    get_header (codes "Authorization") hdr_size request.head ≡ some (basic (codes "adm:pw"))
unfolding get_header search skip_crap skip_spaces line encode digit
get_header_test = refl

users_listed : (k : ℕ) → k < 2 → users k ≢ none
users_listed zero l = ground arith
users_listed (suc zero) l = ground arith
users_listed (suc (suc k)) l = absurd (omega arith)

-- The text that the request sends.
request-Sends : Sends request (some (codes "adm:pw"))
request-Sends =
    basic_field (codes "adm:pw") get_header_test
      (omega arith, (omega arith, (omega arith, (omega arith, (omega arith, (omega arith, tt))))))
      (
        ground arith,
        (ground arith, (ground arith, (ground arith, (ground arith, (ground arith, tt))))),
      )
      (omega arith)

auth_basic-IsGranted_example :
    Outcome users 2 (some (codes "adm:pw")) request (auth_basic [] users 2 request)
auth_basic-IsGranted_example =
    auth_basic-IsGranted users [] 2 2 request (some (codes "adm:pw")) users_listed refl
      (omega arith) request-Sends

abbrev lines : List Bytes
lines = codes "B:" ∷ codes "A:y" ∷ codes "A:z" ∷ []

get_header-first_value_example :
    get_header (codes "A") 9 ((71 ∷ []) ++ (0 ∷ ((72 ∷ []) ++ (0 ∷ terminated_lines lines))))
    ≡ first_value (codes "A") 9 lines
get_header-first_value_example =
    get_header-first_value (codes "A") 9 (71 ∷ []) (72 ∷ []) lines (ground arith, tt)
      (ground arith, tt) (ground arith, tt)
      (
        ((ground arith, (ground arith, tt)), (omega arith, omega arith)),
        (
          ((ground arith, (ground arith, (ground arith, tt))), (omega arith, omega arith)),
          (((ground arith, (ground arith, (ground arith, tt))), (omega arith, omega arith)), tt),
        ),
      )

first_value_test : first_value (codes "A") 9 lines ≡ some (codes "y")
unfolding skip_spaces line
first_value_test = refl
