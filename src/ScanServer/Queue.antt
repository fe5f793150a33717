-- ===== src/ScanServer/Queue.antt =====
-- scan_server/scan_server/scan_queue.py, class by class from the request block up.
pub mod Status
pub mod Block
pub mod Item
pub mod Numbering
pub mod Line
pub mod Rounds
pub mod Manager
