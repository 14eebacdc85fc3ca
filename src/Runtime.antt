-- ===== src/Runtime.antt =====
-- stdlib/runtime/coglet_runtime_mem.c: the allocators of the runtime, on targets with 64-bit pointers.
-- A pointer is its address, and NULL is 0. `none` is `coglet_rt_mem_fail`, which ends the program.
-- What `malloc` or the parent allocator returns, where it is called, is an argument.
pub mod Align
pub mod Heap
pub mod Arena
pub mod FixedArena
