-- ===== src/Install.antt =====
-- internal/install: the staged writer, its manifest, its resources and the write itself.
pub mod Copy
pub mod Manifest
pub mod Resources
pub mod Writer
pub mod Stage
pub mod Initramfs
