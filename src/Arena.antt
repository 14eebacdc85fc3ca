-- ===== src/Arena.antt =====
-- src/utils/arena.c: the arena allocator of the compiler. The chain of blocks from `first` to
-- `current` is the list `older`, newest first, and the block `current`, whose `next` is NULL. Blocks
-- and the words in them have no contents here: `arena_alloc` leaves them uninitialised.
-- The base address of a block's `data` comes from `malloc` and is an argument, `base`; `none` stands
-- for `exit(1)` where `malloc` fails. `size_t` sums are kept modulo 2 ^ 64.
pub mod Blocks
pub mod Marks
use mathlib.Core.List.{map, reverse}
use coglet.Prelude.{
  ℕ, ◌+◌, ◌-◌, ◌*◌, ◌/◌, ◌%◌, ◌^◌, Bool, List, [], ◌∷◌, Option, none, some, ltb, ◌==◌,
  if◌then◌else◌, length,
}

-- `base` is the address of `data`.
pub record ArenaBlock : Type 0 where
  pub base : ℕ
  pub used : ℕ
  pub capacity : ℕ

pub record Arena : Type 0 where
  pub current : ArenaBlock
  pub older : List ArenaBlock
  pub block_size : ℕ
  pub allocated : ℕ

-- `block` is named by its place: the number of blocks in front of it.
pub record ArenaMarker : Type 0 where
  pub block : ℕ
  pub used : ℕ

abbrev pub add_size : ℕ → ℕ → ℕ
add_size a b = (a + b) % 2 ^ 64

-- `a -= b` on `size_t`.
abbrev pub sub_size : ℕ → ℕ → ℕ
sub_size a b = (a + 2 ^ 64 - b) % 2 ^ 64

abbrev pub block_create : ℕ → ℕ → ArenaBlock
block_create base capacity = record { base = base; used = 0; capacity = capacity }

-- `malloc` gave `base` for the first block.
unfoldable pub arena_create : ℕ → ℕ → Arena
arena_create block_size base = record {
  current = block_create base block_size;
  older = [];
  block_size = block_size;
  allocated = 0;
}

-- `(n + align - 1) & ~(align - 1)` with `align` = 8, that is, less its remainder by 8.
unfoldable pub align_up : ℕ → ℕ
align_up n = let m = (n + 7) % 2 ^ 64 in m - m % 8

-- `arena_alloc` behind the choice of the block: the pointer and the arena.
abbrev pub bump : Arena → ℕ → ℕ × Arena
bump arena size = (
  arena.current.base + arena.current.used,
  record arena {
    current = record (arena.current) { used = add_size arena.current.used size };
    allocated = add_size arena.allocated size;
  },
)

-- The arena with a new block of the larger of the two sizes.
abbrev pub grow : Arena → ℕ → ℕ → Arena
grow arena size base = record arena {
  current = block_create base (if ltb size arena.block_size then arena.block_size else size);
  older = arena.current ∷ arena.older;
}

-- `fresh` is what `malloc` returns if a new block is needed.
unfoldable pub arena_alloc : Option ℕ → Arena → ℕ → Option (ℕ × Arena)
arena_alloc fresh arena size =
    let aligned = align_up size in
    if ltb arena.current.capacity (add_size arena.current.used aligned)
    then elim fresh [ none ↦ none | some base ↦ some (bump (grow arena aligned base) aligned) ]
    else some (bump arena aligned)

unfoldable pub arena_mark : Arena → ArenaMarker
arena_mark arena = record { block = length arena.older; used = arena.current.used }

-- The blocks behind the marked one are freed, and their `used` summed up: the marked block, those in
-- front of it, and the sum. A marker of another arena is undefined behaviour; here the walk ends at
-- the first block.
unfoldable pub unwind : ℕ → ArenaBlock → List ArenaBlock → ℕ → ArenaBlock × List ArenaBlock × ℕ
unwind place block [] freed = (block, [], freed)
unwind place block (b ∷ older) freed =
    let rest = unwind place b older (add_size freed block.used) in
    if length (b ∷ older) == place then (block, b ∷ older, freed) else rest

unfoldable pub arena_reset_to : Arena → ArenaMarker → Arena
arena_reset_to arena mark =
    let (block, older, later) = unwind mark.block arena.current arena.older 0 in
    let freed = add_size later (sub_size block.used mark.used) in
    record arena {
      current = record block { used = mark.used };
      older = older;
      allocated = sub_size arena.allocated freed;
    }

unfoldable pub arena_allocated : Arena → ℕ
arena_allocated arena = arena.allocated

unfoldable pub arena_remaining : Arena → ℕ
arena_remaining arena = sub_size arena.current.capacity arena.current.used

-- The addresses that `free` is called with, the arena itself aside.
unfoldable pub arena_destroy : Arena → List ℕ
arena_destroy arena = reverse (map (λ (b : ArenaBlock). b.base) (arena.current ∷ arena.older))
