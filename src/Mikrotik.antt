-- ===== src/Mikrotik.antt =====
-- internal/mikrotik: the CHR image and its download.
pub mod Mbr
pub mod Range
pub mod Download
pub mod Metadata
