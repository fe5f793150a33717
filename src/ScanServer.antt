-- ===== src/ScanServer.antt =====
-- The scan server: scan_server/scan_server.
pub mod Messages
pub mod Queue
pub mod Guard
pub mod Worker
pub mod Scans
