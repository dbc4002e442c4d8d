-- ===== src/Library.antt =====
-- internal/app: the rules of smart playlists.
pub mod Rules
mod Examples
mod Tagged
pub mod NativeTags
pub mod Globs
pub mod Matching
