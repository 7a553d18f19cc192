-- ===== src/Malloc.antt =====
-- The allocators of malloc-code: `alloc.c` over one page, `ealloc.c` over a few.
pub mod Chunks
pub mod Alloc
pub mod Ealloc
