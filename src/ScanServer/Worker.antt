-- ===== src/ScanServer/Worker.antt =====
-- The scan worker: scan_server/scan_server/scan_worker.py.
pub mod State
pub mod Waiting
pub mod Devices
pub mod Scans
pub mod Loop
