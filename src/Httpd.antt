-- ===== src/Httpd.antt =====
-- The HTTP server of httpd/httpd.c.
pub mod Conn
pub mod Send
pub mod Decode
pub mod Args
pub mod Head
pub mod Mime
pub mod Files
pub mod Dispatch
pub mod Request
pub mod Receive
pub mod Pool
