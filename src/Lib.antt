-- ===== src/Lib.antt =====
-- OS-Codes: an operating systems course's programs in C, each in a folder of its own. The parts that
-- hold the logic are modelled; they do not call each other, except inside the two xv6 kernels.
--
--   malloc-code/alloc.c             Malloc: Malloc/Chunks has the loops over the bitmap (alloc,
--                                   dealloc), Malloc/Alloc the functions init_alloc, cleanup, alloc and
--                                   dealloc on the globals, a record Heap with memory as a function.
--   malloc-code/ealloc.c            Malloc/Ealloc: the same over four pages, a list of records, with the
--                                   loops of Malloc/Chunks; Ealloc/Outcome has what alloc finds.
--   simplefs-code/simplefs-disk.c   Simplefs/Disk: the disk as a record Fs of superblock, inodes,
--                                   data blocks and file handles; each function of the file. A data
--                                   block of negative number is `none`, where the code, which tests
--                                   the upper bound only, goes to the inodes.
--   simplefs-code/simplefs-ops.c    Simplefs/Ops (create, delete, open, close, seek) and
--                                   Simplefs/Transfer (read, write), which call Simplefs/Disk.
--   shell-code/my_shell.c           Shell: Shell/Tokens has tokenize, Shell/Plan the child that runs a
--                                   line, as the list of its forks, which may fail, and waits.
--   pthreads-sync-code/             Sync: master-worker, zemaphore and the two rwlock programs. What a
--                                   thread does under its mutex is one step of a relation on states,
--                                   which count the threads at each place; sleepers may wake up at any
--                                   time, as POSIX allows.
--   xv6-public(1)/kalloc.c          Xv6/Kalloc: the page allocator with reference counts, and its free
--                                   list linked through the pages; Kalloc/Pages is its view as a list.
--   xv6-public/proc.c, sysproc.c    Xv6/Proc: the process table; Proc/Life has exit, wait and sleep,
--                                   Proc/Sched the schedulers of the processors, which share the
--                                   table, as a step relation, Proc/Calls the calls that read the
--                                   table or set a field.
--   xv6-public/sleeplock.c          Xv6/Sleeplock: the lock as a step relation.
--   xv6-public/string.c             Xv6/String: memory as a function from addresses to bytes.
--   xv6-public/log.c                Xv6/Log: the log, its header and the blocks as a record; Log/Crash has
--                                   the crashes, each after some write to the disk, Log/Space the
--                                   operations that run at the same time, Log/Overrun a run of them.
--   xv6-public/bio.c, memide.c      Xv6/Bio: the list of buffers and the disk; Bio/Coherence has the
--                                   invariant, Bio/Latest the steps of the processes.
--   xv6-public/fs.c                 Xv6/Fs: blocks of bytes, the free map and inodes; Fs/Ownership has
--                                   which blocks a file owns, Fs/Content the bytes that it holds,
--                                   Fs/Truncate is itrunc, Fs/Path the names of a path, Fs/Icache
--                                   the cache of inodes, Fs/Dir the directories.
--   xv6-public/file.c               Xv6/File: open files over pipes and the cache of inodes; File/Write
--                                   is filewrite.
--   xv6-public(1)/vm.c              Xv6/Vm: page directories on Xv6/Kalloc; Vm/Fault has the page fault
--                                   handler, Vm/Share the copy of an address space.
--   xv6-public/pipe.c               Xv6/Pipe: the ring of bytes and its functions up to where they sleep.
--
-- Common holds what the parts share: Boolean tests on the native numbers, lists over them, signed
-- integers, and code that may stop.
--
-- Conventions. A definition has the name of the function it models, and its helpers stand for loops
-- and branches. A failed assertion, a panic and an access outside of an array are `none`, or `panics`
-- where a call may also sleep. C's int is an unbounded integer and an address an unbounded number,
-- except the counters of a pipe, the references of a buffer and the addresses of a page, which are
-- 32-bit and wrap around. File names are lists of bytes, and in Xv6/Fs/Dir functions from places to
-- bytes. A pointer into a table is the place in the table. Loops run over the list or over the number
-- of rounds that the C loop has; the fuel of `freerange` is the end of its range in pages, and that of
-- `NumFreePages` is an argument, for which the number of free pages is enough; `strlen` has fuel as an
-- argument. The loops of readi, writei and filewrite have a round for each byte, and those over a
-- directory one for each entry and two more; skipelem goes at most once for each byte of a path.
-- Counts of pointers to inodes and open files are natural numbers.
--
-- Outside of the model: mmap, munmap and what they return (arguments of alloc, init_alloc and
-- cleanup), the linker's `end`, the disk file of simplefs (its contents are the state), the locks of
-- xv6 (each function that takes one is a step), the hardware, the devices among the inodes, and the
-- contents of stacks and page tables. The xv6 files not named above, the loop of the shell with its
-- background jobs, the IPC programs and the test programs are not modelled.
pub mod Common
pub mod Malloc
pub mod Simplefs
pub mod Sync
pub mod Xv6
pub mod Shell
