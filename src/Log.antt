-- ===== src/Log.antt =====
-- Logs as a whole: what `Writer` wrote, read by `Reader`.
pub mod Frames
pub mod Runs
pub mod Start
pub mod RoundTrip
pub mod Protocol
pub mod Simple
pub mod SimpleLog
pub mod SimpleProtocol
pub mod Mirror
pub mod Follow
pub mod Stored
