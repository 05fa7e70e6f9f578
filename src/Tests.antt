-- ===== src/Tests.antt =====
-- Concrete runs, and the theorems at concrete inputs.
mod Logs
mod Codecs
mod Streams
mod RoundTrip
mod Container
mod Simple
mod DataLog
