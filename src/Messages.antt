-- ===== src/Messages.antt =====
-- src/messages.cpp: the messages of a log, each in a module with its codec and the proofs about it.
pub mod Raw
pub mod Field
pub mod Info
pub mod ParameterDefault
pub mod Format
pub mod AddLogged
pub mod Logging
pub mod Data
pub mod Dropout
pub mod Sync
pub mod FileHeader
pub mod Value
