-- ===== src/Tests.antt =====
-- Tests and witnesses: the theorems at concrete inputs.
mod Buffers
mod Settings
mod Bridge
mod Pool
mod Access
mod Web
mod Server
mod Tcp
mod Uart
mod Image
mod Firmware
mod Wireless
mod Device
mod Tools
