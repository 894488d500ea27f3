-- ===== src/SerBridge.antt =====
-- The serial bridge of serial/serbridge.c.
pub mod Effect
pub mod Telnet
pub mod Slot
pub mod Pool
pub mod Telegram
