-- ===== src/Runtime/Arena.antt =====
-- The arena of std.mem: `coglet_rt_mem_arena_*`. The list of blocks from `head` on is `earlier ++ rest`,
-- and `current` is the first block of `rest`; with no block both pointers are NULL. `earlier` and
-- `rest` are all that the code tells apart: where `current` is NULL it starts at `head`.
pub mod Blocks
pub mod Find
pub mod Fits
pub mod Rewind
use coglet.Prelude.{
  ℕ, ◌+◌, ◌-◌, ◌%◌, ◌^◌, Bool, ◌&&◌, ◌||◌, List, [], ◌∷◌, ◌++◌, Option, none, some, ltb, leb, ◌==◌,
  if◌then◌else◌,
}
use coglet.Runtime.Align.{size_max, checked_alignment, align_up_uintptr}

pub record RuntimeArenaBlock : Type 0 where
  pub address : ℕ
  pub allocation_size : ℕ
  pub capacity : ℕ
  pub used : ℕ

pub record RuntimeArena : Type 0 where
  pub block_size : ℕ
  pub earlier : List RuntimeArenaBlock
  pub rest : List RuntimeArenaBlock

abbrev pub blocks : RuntimeArena → List RuntimeArenaBlock
blocks arena = arena.earlier ++ arena.rest

-- `sizeof(CogletRuntimeArenaBlock)`
abbrev pub block_header : ℕ
block_header = 32

-- `(uintptr_t)(block + 1)`
abbrev pub base_of : RuntimeArenaBlock → ℕ
base_of block = block.address + block_header

-- Of the parent allocator, `parent_valid` says that none of its functions is NULL, and `fresh` is what
-- it returns for the arena itself.
unfoldable pub rt_arena_create : Bool → ℕ → ℕ → Option RuntimeArena
rt_arena_create parent_valid fresh block_size =
    if parent_valid
    then (if fresh == 0
        then none
        else some (record {
          block_size = if block_size == 0 then 65536 else block_size;
          earlier = [];
          rest = [];
        }))
    else none

abbrev pub at_least : ℕ → ℕ → ℕ
at_least a b = if ltb a b then b else a

-- `fresh` is what the parent allocator returns.
unfoldable pub new_block : ℕ → RuntimeArena → ℕ → ℕ → Option RuntimeArenaBlock
new_block fresh arena minimum_payload requested_alignment =
    let needed = minimum_payload + (requested_alignment - 1) in
    let payload = at_least arena.block_size needed in
    if ltb 1 requested_alignment && ltb (size_max - (requested_alignment - 1)) minimum_payload
    then none
    else if ltb (size_max - block_header) payload
    then none
    else if fresh == 0
    then none
    else some (record {
      address = fresh;
      allocation_size = block_header + payload;
      capacity = payload;
      used = 0;
    })

-- `aligned` for a block, and whether the bytes fit in it.
unfoldable pub aligned_in : RuntimeArenaBlock → ℕ → ℕ
aligned_in block alignment = align_up_uintptr ((base_of block + block.used) % 2 ^ 64) alignment

unfoldable pub fits : RuntimeArenaBlock → ℕ → ℕ → Bool
fits block size alignment =
    let aligned = aligned_in block alignment in
    leb (base_of block) aligned
    && (leb size block.capacity && leb (aligned - base_of block) (block.capacity - size))

abbrev pub fill : RuntimeArenaBlock → ℕ → ℕ → RuntimeArenaBlock
fill block aligned size = record block { used = aligned - base_of block + size }

-- The loop over the blocks: those passed over, the pointer, the block that it is in, and those behind.
pub record Fit : Type 0 where
  pub skipped : List RuntimeArenaBlock
  pub pointer : ℕ
  pub block : RuntimeArenaBlock
  pub later : List RuntimeArenaBlock

unfoldable pub pass_block : RuntimeArenaBlock → Option Fit → Option Fit
pass_block block none = none
pass_block block (some fit) = some (record fit { skipped = block ∷ fit.skipped })

unfoldable pub find_fit : List RuntimeArenaBlock → ℕ → ℕ → Option Fit
find_fit [] size alignment = none
find_fit (block ∷ later) size alignment =
    let next = pass_block block (find_fit later size alignment) in
    let aligned = aligned_in block alignment in
    if fits block size alignment
    then some
        (record { skipped = []; pointer = aligned; block = fill block aligned size; later = later })
    else next

-- `arena_alloc` behind the loop: with a block that fits, or with a new one.
unfoldable pub alloc_in : RuntimeArena → Fit → ℕ × RuntimeArena
alloc_in arena fit = (
  fit.pointer,
  record arena { earlier = arena.earlier ++ fit.skipped; rest = fit.block ∷ fit.later },
)

unfoldable pub alloc_new : RuntimeArena → ℕ → ℕ → RuntimeArenaBlock → ℕ × RuntimeArena
alloc_new arena size alignment block =
    let aligned = align_up_uintptr (base_of block) alignment in
    (aligned, record arena { earlier = blocks arena; rest = fill block aligned size ∷ [] })

unfoldable pub alloc_aligned : ℕ → RuntimeArena → ℕ → ℕ → Option (ℕ × RuntimeArena)
alloc_aligned fresh arena size alignment = elim (find_fit arena.rest size alignment) [
  | some fit ↦ some (alloc_in arena fit)
  | none ↦ elim (new_block fresh arena size alignment) [
    | none ↦ none
    | some block ↦ some (alloc_new arena size alignment block)
  ]
]

unfoldable pub rt_arena_alloc : ℕ → RuntimeArena → ℕ → ℕ → Option (ℕ × RuntimeArena)
rt_arena_alloc fresh arena size value =
    if size == 0 then some (0, arena) else elim (checked_alignment value) [
      | none ↦ none
      | some alignment ↦ alloc_aligned fresh arena size alignment
    ]

-- `coglet_rt_mem_arena_resize`, less the copy of the bytes.
unfoldable pub rt_arena_resize : ℕ → RuntimeArena → ℕ → ℕ → ℕ → ℕ → Option (ℕ × RuntimeArena)
rt_arena_resize fresh arena pointer old_size new_size value =
    if pointer == 0
    then rt_arena_alloc fresh arena new_size value
    else if new_size == 0
    then some (0, arena)
    else rt_arena_alloc fresh arena new_size value

unfoldable pub cleared : List RuntimeArenaBlock → List RuntimeArenaBlock
cleared [] = []
cleared (block ∷ later) = record block { used = 0 } ∷ cleared later

unfoldable pub rt_arena_reset : RuntimeArena → RuntimeArena
rt_arena_reset arena = record arena { earlier = []; rest = cleared (blocks arena) }

-- `out_block` and `out_used`.
unfoldable pub mark_of : List RuntimeArenaBlock → ℕ × ℕ
mark_of [] = (0, 0)
mark_of (block ∷ later) = (block.address, block.used)

unfoldable pub rt_arena_mark : RuntimeArena → ℕ × ℕ
rt_arena_mark arena = mark_of arena.rest

-- The walk to the block at `target`, and the arena from there on; `passed` are the blocks passed.
unfoldable pub rewind_from :
    RuntimeArena → List RuntimeArenaBlock → List RuntimeArenaBlock → ℕ → ℕ → Option RuntimeArena
rewind_from arena passed [] target used = none
rewind_from arena passed (block ∷ later) target used =
    let next = rewind_from arena (passed ++ (block ∷ [])) later target used in
    if block.address == target
    then (if ltb block.capacity used
        then none
        else some (record arena {
          earlier = passed;
          rest = record block { used = used } ∷ cleared later;
        }))
    else next

unfoldable pub rt_arena_rewind : RuntimeArena → ℕ → ℕ → Option RuntimeArena
rt_arena_rewind arena mark_block mark_used =
    if mark_block == 0
    then some (rt_arena_reset arena)
    else rewind_from arena [] (blocks arena) mark_block mark_used

-- The calls of the parent's `free` for the blocks, address and size in order; the one for the arena
-- itself comes behind them.
unfoldable pub rt_arena_destroy : List RuntimeArenaBlock → List (ℕ × ℕ)
rt_arena_destroy [] = []
rt_arena_destroy (block ∷ later) = (block.address, block.allocation_size) ∷ rt_arena_destroy later
