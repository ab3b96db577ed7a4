-- ===== src/Files.antt =====
-- TP 1 RDTP/src/lib/file_manager: readers and writers of the bytes of one file.
-- A file is the list of its bytes.
pub mod Writer
pub mod Reader
pub mod Manager
