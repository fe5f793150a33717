-- ===== src/BecLib.antt =====
-- The client library (bec_lib/bec_lib).
pub mod Alarms
pub mod Callbacks
pub mod Requests
pub mod QueueItems
pub mod ScanItems
