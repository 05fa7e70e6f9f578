-- ===== src/Reader.antt =====
-- src/reader.cpp: the streaming reader.
pub mod State
pub mod Start
pub mod Message
pub mod Front
pub mod Chunk
pub mod Keeps
pub mod Safety
pub mod StartSafety
pub mod PartialRound
pub mod Progress
pub mod Rounds
pub mod Recovery
pub mod Termination
pub mod Stream
pub mod StreamDirect
pub mod StreamRound
pub mod Chunks
pub mod Delivery
