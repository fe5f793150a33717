-- ===== src/FileWriter.antt =====
-- The file writer (file_writer/file_writer/file_writer_manager.py). What Redis holds, and whether the
-- writing of a file raises, is an argument; data are of a type V, times and file paths are numbers.
pub mod Storage
pub mod Manager
pub mod Complete
