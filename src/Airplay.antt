-- ===== src/Airplay.antt =====
-- The formats that internal/airplay speaks with a receiver. A byte is a natural number.
pub mod Rtsp
pub mod Dns
pub mod Audio
pub mod Raop
pub mod Metadata
pub mod Volume
pub mod Clock
pub mod Devices
pub mod Tlv
pub mod Secure
pub mod Plist
mod Examples
mod Found
