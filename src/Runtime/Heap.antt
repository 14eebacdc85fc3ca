-- ===== src/Runtime/Heap.antt =====
-- The heap of std.mem: `coglet_rt_mem_allocate_impl`, `alloc`, `free`, `resize` and the three functions
-- of the heap's allocator. `malloc` and `free` belong to the C library.
pub mod Pointers
use coglet.Prelude.{
  ℕ, ◌+◌, ◌-◌, Bool, ◌||◌, ◌&&◌, List, ◌∷◌, Option, none, some, ltb, leb, ◌==◌, if◌then◌else◌,
}
use coglet.Runtime.Align.{size_max, checked_alignment, align_up_uintptr}

pub record Header : Type 0 where
  pub base : ℕ
  pub size : ℕ

-- The headers by their addresses, the bytes of user data, and what `free` was called with, last call
-- first.
pub record Memory : Type 0 where
  pub headers : ℕ → Option Header
  pub bytes : ℕ → ℕ
  pub freed : List ℕ

abbrev pub header_size : ℕ
header_size = 16

-- The argument of `malloc`.
abbrev pub total_size : ℕ → ℕ → ℕ
total_size size alignment = size + header_size + (alignment - 1)

unfoldable pub put_header : (ℕ → Option Header) → ℕ → Header → ℕ → Option Header
put_header headers address header i = if i == address then some header else headers i

-- `fresh` is what `malloc` returns.
unfoldable pub allocate_impl : ℕ → Memory → ℕ → ℕ → Option (ℕ × Memory)
allocate_impl fresh memory size alignment =
    if size == 0
    then some (0, memory)
    else if ltb (size_max - header_size) size
        || ltb (size_max - (alignment - 1)) (size + header_size)
    then none
    else if fresh == 0
    then none
    else let aligned = align_up_uintptr (fresh + header_size) alignment in
      some (
        aligned,
        record memory {
          headers =
              put_header memory.headers (aligned - header_size)
                (record { base = fresh; size = size });
        },
      )

unfoldable pub mem_alloc : ℕ → Memory → ℕ → ℕ → Option (ℕ × Memory)
mem_alloc fresh memory size value = elim (checked_alignment value) [
  | none ↦ none
  | some alignment ↦ allocate_impl fresh memory size alignment
]

-- With no header at the pointer the behaviour is undefined; it is `none` too.
unfoldable pub mem_free : Memory → ℕ → Option Memory
mem_free memory pointer =
    if pointer == 0 then some memory else elim (memory.headers (pointer - header_size)) [
      | none ↦ none
      | some header ↦ some (record memory { freed = header.base ∷ memory.freed })
    ]

-- `memcpy(dest, src, n)`
unfoldable pub copied : (ℕ → ℕ) → ℕ → ℕ → ℕ → ℕ → ℕ
copied bytes dest src n i =
    if leb dest i && ltb i (dest + n) then bytes (src + (i - dest)) else bytes i

-- From the copy on: `resized` is the new pointer.
unfoldable pub move_to : ℕ → ℕ → ℕ → ℕ → Memory → Option (ℕ × Memory)
move_to resized pointer old_size new_size memory =
    let n = if ltb old_size new_size then old_size else new_size in
    elim (mem_free (record memory { bytes = copied memory.bytes resized pointer n }) pointer) [
      | none ↦ none
      | some memory' ↦ some (resized, memory')
    ]

unfoldable pub resize_at : ℕ → Memory → ℕ → ℕ → ℕ → Option (ℕ × Memory)
resize_at fresh memory pointer new_size alignment =
    if pointer == 0
    then allocate_impl fresh memory new_size alignment
    else if new_size == 0
    then elim (mem_free memory pointer) [ none ↦ none | some memory' ↦ some (0, memory') ]
    else elim (memory.headers (pointer - header_size)) [
      | none ↦ none
      | some old ↦ elim (allocate_impl fresh memory new_size alignment) [
        | none ↦ none
        | some (resized, memory') ↦ move_to resized pointer old.size new_size memory'
      ]
    ]

unfoldable pub mem_resize : ℕ → Memory → ℕ → ℕ → ℕ → Option (ℕ × Memory)
mem_resize fresh memory pointer size value = elim (checked_alignment value) [
  | none ↦ none
  | some alignment ↦ resize_at fresh memory pointer size alignment
]

-- The allocator functions of the heap have no state and ignore the sizes that they are told.
unfoldable pub heap_alloc : ℕ → Memory → ℕ → ℕ → Option (ℕ × Memory)
heap_alloc fresh memory size alignment = mem_alloc fresh memory size alignment

unfoldable pub heap_resize : ℕ → Memory → ℕ → ℕ → ℕ → ℕ → Option (ℕ × Memory)
heap_resize fresh memory pointer old_size new_size alignment =
    mem_resize fresh memory pointer new_size alignment

unfoldable pub heap_free : Memory → ℕ → ℕ → ℕ → Option Memory
heap_free memory pointer size alignment = mem_free memory pointer
