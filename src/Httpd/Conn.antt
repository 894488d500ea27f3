-- ===== src/Httpd/Conn.antt =====
-- The connection data of httpd/httpd.h: `HttpdConnData` with the `HttpdPriv` and `HttpdPostData`
-- that it points to.
use ems_esp_link.Prelude.{ℕ, Option}
use ems_esp_link.Prelude.Text.{Bytes}

-- HTTPD_CGI_MORE, HTTPD_CGI_DONE, HTTPD_CGI_NOTFOUND, HTTPD_CGI_AUTHENTICATED
pub data Code : Type 0 where
  more done not_found authenticated : Code

-- HTTPD_METHOD_GET, HTTPD_METHOD_POST; `unset` is the zero of a connection that was never used.
pub data Method : Type 0 where
  unset get post : Method

-- `len` is an `int` pattern, negative while the head is received. `buff` holds `buffLen` bytes, and
-- is `none` where the pointer is NULL.
pub record PostData : Type 0 where
  pub len : ℕ
  pub buff_size : ℕ
  pub buff : Option Bytes
  pub received : ℕ
  pub multipart_boundary : Option Bytes

-- `conn`, `cgi` and `cgi_data` are `none` where the pointer is NULL: a handle of the network stack, a
-- function of the URL table by its number, and the memory of that function. `head` holds the `headPos` bytes received, and
-- `send_buff` the `sendBuffLen` bytes to send.
pub record Conn : Type 0 where
  pub conn : Option ℕ
  pub remote_port : ℕ
  pub remote_ip : Bytes
  pub request_type : Method
  pub url : Option Bytes
  pub get_args : Option Bytes
  pub cgi_arg : ℕ
  pub cgi_data : Option ℕ
  pub cgi : Option ℕ
  pub head : Bytes
  pub send_buff : Bytes
  pub body : PostData
