-- ===== src/Runtime/FixedArena.antt =====
-- The arena of std.mem in a caller's buffer: `coglet_rt_mem_fixed_arena_*`. The state stands at the
-- start of the buffer. A NULL state, for which each function returns NULL or 0, is left out.
pub mod Grants
use coglet.Prelude.{ℕ, ◌+◌, ◌-◌, ◌%◌, ◌^◌, Bool, ◌||◌, Option, none, some, ltb, ◌==◌, if◌then◌else◌}
use coglet.Runtime.Align.{size_max, checked_alignment, align_up_uintptr}

pub record RuntimeFixedArena : Type 0 where
  pub data_address : ℕ
  pub capacity : ℕ
  pub used : ℕ

-- `sizeof(CogletRuntimeFixedArena)` and its alignment.
abbrev pub state_size : ℕ
state_size = 24

abbrev pub state_alignment : ℕ
state_alignment = 8

unfoldable pub rt_fixed_arena_create : ℕ → ℕ → Option RuntimeFixedArena
rt_fixed_arena_create buffer buffer_size =
    let end = buffer + buffer_size in
    let state_address = align_up_uintptr buffer state_alignment in
    let data_address = (state_address + state_size) % 2 ^ 64 in
    if buffer == 0 || buffer_size == 0
    then none
    else if ltb (size_max - buffer_size) buffer
    then none
    else if ltb end state_address || ltb (end - state_address) state_size
    then none
    else if ltb end data_address
    then none
    else some (record { data_address = data_address; capacity = end - data_address; used = 0 })

-- From the alignment on.
unfoldable pub fixed_alloc_aligned : RuntimeFixedArena → ℕ → ℕ → Option (ℕ × RuntimeFixedArena)
fixed_alloc_aligned arena size alignment =
    let base = arena.data_address in
    let aligned = align_up_uintptr ((base + arena.used) % 2 ^ 64) alignment in
    if ltb aligned base
      || (ltb arena.capacity (aligned - base) || ltb (arena.capacity - (aligned - base)) size)
    then none
    else some (aligned, record arena { used = aligned - base + size })

unfoldable pub rt_fixed_arena_alloc : RuntimeFixedArena → ℕ → ℕ → Option (ℕ × RuntimeFixedArena)
rt_fixed_arena_alloc arena size value =
    if size == 0 then some (0, arena) else elim (checked_alignment value) [
      | none ↦ none
      | some alignment ↦ fixed_alloc_aligned arena size alignment
    ]

-- `coglet_rt_mem_fixed_arena_resize`, less the copy of the bytes.
unfoldable pub rt_fixed_arena_resize :
    RuntimeFixedArena → ℕ → ℕ → ℕ → ℕ → Option (ℕ × RuntimeFixedArena)
rt_fixed_arena_resize arena pointer old_size new_size value =
    if pointer == 0
    then rt_fixed_arena_alloc arena new_size value
    else if new_size == 0
    then some (0, arena)
    else rt_fixed_arena_alloc arena new_size value

unfoldable pub rt_fixed_arena_free : RuntimeFixedArena → ℕ → ℕ → ℕ → RuntimeFixedArena
rt_fixed_arena_free arena pointer size alignment = arena

unfoldable pub rt_fixed_arena_reset : RuntimeFixedArena → RuntimeFixedArena
rt_fixed_arena_reset arena = record arena { used = 0 }

unfoldable pub rt_fixed_arena_used : RuntimeFixedArena → ℕ
rt_fixed_arena_used arena = arena.used

unfoldable pub rt_fixed_arena_remaining : RuntimeFixedArena → ℕ
rt_fixed_arena_remaining arena =
    if ltb arena.capacity arena.used then 0 else arena.capacity - arena.used
