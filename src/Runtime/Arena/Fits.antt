-- ===== src/Runtime/Arena/Fits.antt =====
-- What the runtime arena hands out is aligned, lies inside a block, and overlaps nothing that was
-- handed out before. A size whose sum wraps round is told from one that fits.
use coglet.Prelude.{
  ℕ, ◌+◌, ◌-◌, ◌^◌, ◌<◌, ◌≤◌, ◌≡◌, ◌⊎◌, All, length, List, [], ◌∷◌, Option, none, some, Multiple,
  arith,
}
use coglet.Runtime.Arena.{RuntimeArenaBlock, RuntimeArena, blocks, block_header, base_of, at_least}
use coglet.Runtime.Arena.Blocks.{end_of, IsArena, Unused}
use coglet.Runtime.Arena.Find.{NoRoom}

-- The block that holds the bytes handed out last.
abbrev pub current_end : List RuntimeArenaBlock → ℕ
current_end [] = 0
current_end (b ∷ bs) = base_of b + b.used

abbrev pub current_base : List RuntimeArenaBlock → ℕ
current_base [] = 0
current_base (b ∷ bs) = base_of b

-- What an allocation of `size` bytes gives.
pub record Allocates (arena : RuntimeArena) (size a p : ℕ) (after : RuntimeArena) : Type 0 where
  pub is_arena : IsArena after
  pub whole : Multiple a p
  pub lower : current_base after.rest ≤ p
  pub upper : p + size ≤ current_end after.rest
  pub unused : All (λ b. Unused p (p + size) b) (blocks arena)

length-pos : (xs : List RuntimeArenaBlock) (b : RuntimeArenaBlock) → 0 < length (b ∷ xs)
length-pos xs b = omega arith

-- What the parent allocator promises of the bytes that it returns for a new block: they are inside the
-- address space, and in no block that the arena has.
pub record IsFresh (arena : RuntimeArena) (fresh capacity : ℕ) : Type 0 where
  pub address_pos : 0 < fresh
  pub addresses : fresh + block_header + capacity < 2 ^ 64
  pub apart :
      All (λ b. (fresh + block_header + capacity ≤ b.address) ⊎ (end_of b ≤ fresh)) (blocks arena)

abbrev pub payload : RuntimeArena → ℕ → ℕ → ℕ
payload arena size a = at_least arena.block_size (size + (a - 1))

abbrev fresh_block : RuntimeArena → ℕ → ℕ → ℕ → RuntimeArenaBlock
fresh_block arena size a fresh = record {
  address = fresh;
  allocation_size = block_header + payload arena size a;
  capacity = payload arena size a;
  used = 0;
}

-- Without a new block, the parent gave NULL or the block's size is not in a size_t.
abbrev NoBlock : ℕ → RuntimeArena → ℕ → ℕ → Type 0
NoBlock fresh arena size a = (fresh ≡ 0) ⊎ (2 ^ 64 ≤ block_header + payload arena size a)

-- What an allocation does, when it returns a pointer and when it returns NULL.
abbrev pub AllocOutcome : ℕ → RuntimeArena → ℕ → ℕ → Option (ℕ × RuntimeArena) → Type 0
AllocOutcome fresh arena size a none = All (NoRoom size a) arena.rest × NoBlock fresh arena size a
AllocOutcome fresh arena size a (some (p, after)) = Allocates arena size a p after
