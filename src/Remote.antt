-- ===== src/Remote.antt =====
-- The AirPlay playback queue: internal/app/remote.go, remote_shuffle.go and what they call.
pub mod State
pub mod Shuffle
pub mod Playback
pub mod Edit
pub mod Requests
pub mod Settings
pub mod Pairing
pub mod Transport
pub mod Editing
pub mod Command
pub mod Loop
pub mod Prefetch
pub mod Gapless
pub mod Restore
pub mod Outputs
pub mod Events
mod Examples
