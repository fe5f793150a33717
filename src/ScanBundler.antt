-- ===== src/ScanBundler.antt =====
-- The scan bundler: scan_bundler/scan_bundler.
pub mod Storage
pub mod Status
pub mod Readings
pub mod Emitter
