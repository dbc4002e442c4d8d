-- ===== src/Media.antt =====
-- internal/app: what the server makes of audio files and keeps of its answers.
pub mod ConversionCache
pub mod RuleSets
pub mod PageCache
pub mod Waveform
pub mod Wav
mod Examples
mod Converted
