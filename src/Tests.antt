-- ===== src/Tests.antt =====
-- Witnesses that the theorems apply to concrete runs of the program.
mod Scans
mod Samples
mod Queue
mod Items
mod Bundler
mod Client
mod Worker
mod Storages
mod Classes
mod FileWriter
