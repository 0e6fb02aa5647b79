-- ===== src/Voice.antt =====
-- The nodes of the voice assistant: what they keep between messages, and what they send.
pub mod Messages
pub mod Echo
pub mod Vad
pub mod Asr
pub mod Llm
pub mod Tts
pub mod Tools
pub mod Player
