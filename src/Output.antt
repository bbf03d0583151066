-- ===== src/Output.antt =====
-- The audio output pipeline of firmware/components/michi_audio_output/michi_audio_output.c.
pub mod Ring
pub mod Config
pub mod Ready
pub mod Control
pub mod Lifecycle
