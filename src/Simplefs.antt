-- ===== src/Simplefs.antt =====
-- simplefs-code: a file system of 8 inodes and 30 data blocks in one disk file.
-- Both modules return `none` where the program stops at a failed assertion or goes outside an array.
pub mod Disk
pub mod Ops
pub mod Transfer
