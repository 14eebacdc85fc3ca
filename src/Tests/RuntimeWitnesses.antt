-- ===== src/Tests/RuntimeWitnesses.antt =====
-- The theorems on the runtime's allocators at concrete states.
use coglet.Prelude.{
  ℕ, ◌+◌, ◌≤◌, ◌≡◌, ◌==◌, if◌then◌else◌, refl, inl, inr, All, List, [], ◌∷◌, none, some, Multiple,
  arith,
}
use coglet.Runtime.Align.{checked_alignment, align_up_uintptr, IsAligned}
use coglet.Runtime.Heap.{Memory, header_size, total_size, mem_alloc, mem_free, mem_resize}
use coglet.Runtime.Heap.Pointers.{Allocated, mem_alloc-Allocated, mem_resize-keeps}
use coglet.Runtime.Arena.{
  RuntimeArenaBlock, RuntimeArena, rt_arena_alloc, rt_arena_mark, rt_arena_rewind, aligned_in, fits,
  find_fit, pass_block, alloc_in, alloc_aligned,
}
use coglet.Runtime.Arena.Blocks.{IsArena}
use coglet.Runtime.Arena.Rewind.{
  Allocs, none_yet, one_more, TakenBack, rt_arena_rewind-rt_arena_mark,
}
use coglet.Runtime.FixedArena.{
  RuntimeFixedArena, rt_fixed_arena_create, fixed_alloc_aligned, rt_fixed_arena_alloc,
}
use coglet.Runtime.FixedArena.Grants.{
  Range, Grants, created, granted, Inside, Descending, fixed_arena_ranges,
}

abbrev memory : Memory
memory = record {
  headers = λ i. if i == 1008 then some (record { base = 1000; size = 24 }) else none;
  bytes = λ i. i;
  freed = [];
}

mem_alloc-Allocated_example :
    (p : ℕ) × (after : Memory) × (mem_alloc 5001 memory 40 32 ≡ some (p, after))
    × Allocated 5001 40 32 memory p after
    × (mem_free after p ≡ some (record after { freed = 5001 ∷ after.freed }))
unfolding checked_alignment
mem_alloc-Allocated_example =
    mem_alloc-Allocated 5001 40 32 32 memory (omega arith) refl
      (record { base_pos = omega arith; addresses = omega arith })

mem_resize-keeps_example :
    (p : ℕ) × (after : Memory) × (mem_resize 5001 memory 1024 40 32 ≡ some (p, after))
    × Multiple 32 p
    × (5001 + header_size ≤ p)
    × (p + 40 ≤ 5001 + total_size 40 32)
    × (after.bytes (p + 7) ≡ memory.bytes (1024 + 7))
    × (after.freed ≡ 1000 ∷ memory.freed)
unfolding checked_alignment
mem_resize-keeps_example =
    mem_resize-keeps 5001 1024 40 32 32 7 memory (record { base = 1000; size = 24 }) (omega arith)
      (omega arith) refl refl (record { base_pos = omega arith; addresses = omega arith })
      (inr (omega arith)) (omega arith)

-- A full block, and one that is half full.
abbrev first_block : RuntimeArenaBlock
first_block = record { address = 4096; allocation_size = 96; capacity = 64; used = 64 }

abbrev current_block : RuntimeArenaBlock
current_block = record { address = 8192; allocation_size = 96; capacity = 64; used = 30 }

abbrev arena : RuntimeArena
arena = record { block_size = 64; earlier = first_block ∷ []; rest = current_block ∷ [] }

arena-IsArena : IsArena arena
arena-IsArena = record {
  sound = (
    record { address_pos = omega arith; addresses = omega arith; within = omega arith },
    (record { address_pos = omega arith; addresses = omega arith; within = omega arith }, tt),
  );
  distinct = ((inl (omega arith), tt), (tt, tt));
  later_empty = tt;
  starts = inl (omega arith);
}

-- `arena` behind an allocation in the current block.
abbrev filled_arena : RuntimeArena
filled_arena = record arena { rest = record current_block { used = 40 } ∷ [] }

arena-Allocs : Allocs arena filled_arena
unfolding checked_alignment align_up_uintptr aligned_in fits find_fit pass_block alloc_in
    alloc_aligned rt_arena_alloc
arena-Allocs = one_more 0 8 8 8256 none_yet refl

rt_arena_rewind-rt_arena_mark_example :
    TakenBack arena (rt_arena_rewind filled_arena (rt_arena_mark arena).0 (rt_arena_mark arena).1)
rt_arena_rewind-rt_arena_mark_example =
    rt_arena_rewind-rt_arena_mark arena filled_arena arena-IsArena arena-Allocs

abbrev fixed_arena : RuntimeFixedArena
fixed_arena = record { data_address = 1032; capacity = 68; used = 48 }

abbrev ranges : List Range
ranges =
    record { pointer = 1040; size = 40; alignment = 16 }
    ∷ (record { pointer = 1032; size = 3; alignment = 8 } ∷ [])

ranges-Grants : Grants 1001 99 fixed_arena ranges
unfolding checked_alignment align_up_uintptr rt_fixed_arena_create fixed_alloc_aligned
    rt_fixed_arena_alloc
ranges-Grants =
    granted 40 16 16 1040
      (granted 3 8 8 1032
        (created {a = record { data_address = 1032; capacity = 68; used = 0 }} refl) (omega arith)
        (omega arith) refl refl)
      (omega arith) (omega arith) refl refl

fixed_arena_ranges_example :
    (state : ℕ) × IsAligned 1001 8 state
    × All (λ r. Inside (state + 24) (1001 + 99) r) ranges
    × Descending ranges
fixed_arena_ranges_example =
    fixed_arena_ranges 1001 99 fixed_arena ranges (omega arith) ranges-Grants
