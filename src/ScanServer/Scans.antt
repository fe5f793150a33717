-- ===== src/ScanServer/Scans.antt =====
-- The scans (scan_server/scan_server/scans.py): the generators of instructions that the queue hands
-- to the worker, and the stubs that they are written with (scan_server/scan_server/scan_stubs.py).
pub mod Effects
pub mod Hoare
pub mod Stubs
pub mod Numbering
pub mod Points
pub mod Limits
pub mod Offset
pub mod Base
pub mod Core
pub mod Positions
pub mod Kinds
pub mod Flyers
pub mod Requests
pub mod Classes
