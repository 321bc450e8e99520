-- ===== src/Disk.antt =====
-- internal/disk: the identity of disks and the block device graph.
pub mod Match
pub mod Vpd
pub mod Graph
pub mod Sysfs
pub mod Detect
