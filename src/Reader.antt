-- ===== src/Reader.antt =====
-- pkg/reader: what turns a log source into lines.
pub mod Lines
pub mod Break
pub mod LogLine
pub mod File
pub mod Stopping
pub mod Factory
pub mod Session
pub mod Container
pub mod MacOs
pub mod Windows
