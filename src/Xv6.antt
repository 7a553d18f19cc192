-- ===== src/Xv6.antt =====
-- xv6-public: the physical page allocator, page tables, the process table with its scheduler, pipes, sleep
-- locks, operations on strings, and the file system from the log and the buffer cache to open files.
pub mod Kalloc
pub mod Proc
pub mod Pipe
pub mod Sleeplock
pub mod String
pub mod Log
pub mod Bio
pub mod Fs
pub mod File
pub mod Vm
