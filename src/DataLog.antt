-- ===== src/DataLog.antt =====
-- src/zz_data_log.cpp: the logger that starts a new file when the current one has grown too large. The
-- files that it has closed are part of its state.
pub mod Names
pub mod State
pub mod Init
pub mod Rotate
pub mod Alike
pub mod Again
pub mod Kept
pub mod Ready
pub mod Samples
pub mod Invariant
pub mod Files
pub mod Appended
pub mod Filed
pub mod Described
pub mod Session
pub mod Numbering
pub mod Failure
pub mod Instance
