-- ===== src/Arena/Blocks.antt =====
-- The blocks of an arena: what `arena_alloc` hands out is aligned, lies inside a block, and overlaps
-- nothing that was handed out before.
use coglet.Prelude.{
  ℕ, ◌+◌, ◌-◌, ◌%◌, ◌^◌, ◌≤◌, ◌<◌, All, List, [], ◌∷◌, ◌≡◌, refl, ◌⊎◌, inl, inr, Option, some, ltb,
  if◌then◌else◌, Bool-cases, arith,
}
use coglet.Arena.{ArenaBlock, Arena, add_size, block_create, align_up, bump, grow, arena_alloc}

-- The bytes of two blocks lie apart.
abbrev pub Apart : ArenaBlock → ArenaBlock → Type 0
Apart a b = (a.base + a.capacity ≤ b.base) ⊎ (b.base + b.capacity ≤ a.base)

-- `malloc` aligns a block, and its bytes are addresses.
pub record IsBlock (b : ArenaBlock) : Type 0 where
  pub aligned : b.base % 8 ≡ 0
  pub addresses : b.base + b.capacity < 2 ^ 64
  pub within : b.used ≤ b.capacity
  pub filled : b.used % 8 ≡ 0

abbrev pub Distinct : List ArenaBlock → Type 0
Distinct [] = Unit
Distinct (b ∷ blocks) = All (λ c. Apart b c) blocks × Distinct blocks

abbrev pub total : List ArenaBlock → ℕ
total [] = 0
total (b ∷ blocks) = b.used + total blocks

pub record IsArena (a : Arena) : Type 0 where
  pub blocks : All IsBlock (a.current ∷ a.older)
  pub distinct : Distinct (a.current ∷ a.older)
  pub allocated_is : a.allocated ≡ total (a.current ∷ a.older)

-- `align_up` gives the least multiple of 8 that is not below `n`, if there is one in a `size_t`.
pub align_up_lem :
    (n : ℕ) → n + 7 < 2 ^ 64 → (n ≤ align_up n) × (align_up n < n + 8) × (align_up n % 8 ≡ 0)
unfolding align_up
align_up_lem n h = omega arith

-- The bytes of `[p, p + n)` are no byte handed out from the block `b`.
abbrev Unused : ℕ → ℕ → ArenaBlock → Type 0
Unused p n b = (p + n ≤ b.base) ⊎ (b.base + b.used ≤ p)

-- What an allocation of `size` bytes gives.
pub record Allocates (a : Arena) (size : ℕ) (p : ℕ) (a' : Arena) : Type 0 where
  pub is_arena : IsArena a'
  pub aligned : p % 8 ≡ 0
  pub lower : a'.current.base ≤ p
  pub upper : p + size ≤ a'.current.base + a'.current.used
  pub unused : All (λ b. Unused p size b) (a.current ∷ a.older)

Unused-older :
    (c : ArenaBlock) (p n : ℕ) (blocks : List ArenaBlock)
    → c.base ≤ p
    → p + n ≤ c.base + c.capacity
    → All IsBlock blocks
    → All (λ b. Apart c b) blocks
    → All (λ b. Unused p n b) blocks
Unused-older c p n [] lo hi v d = tt
Unused-older c p n (b ∷ blocks) lo hi v d = (apart d.0, Unused-older c p n blocks lo hi v.1 d.1)
  where
    apart : Apart c b → Unused p n b
    apart (inl h) = inl (omega arith)
    apart (inr h) = inr (omega (arith, v.0.within))

bump-Allocates :
    (a : Arena) (size : ℕ)
    → IsArena a
    → size + a.allocated + 8 < 2 ^ 64
    → a.current.used + align_up size ≤ a.current.capacity
    → Allocates a size (a.current.base + a.current.used) (bump a (align_up size)).1
bump-Allocates a size v small fits =
    let r = align_up_lem size (omega arith) in
    let block : IsBlock a.current = v.blocks.0 in
    record {
      is_arena = record {
        blocks = (
          record {
            aligned = block.aligned;
            addresses = block.addresses;
            within = omega (arith, block.addresses);
            filled = omega (arith, block.addresses, block.filled, r);
          },
          v.blocks.1,
        );
        distinct = v.distinct;
        allocated_is = omega (arith, v.allocated_is, block.addresses, r);
      };
      aligned = omega (arith, block.aligned, block.filled);
      lower = omega arith;
      upper = omega (arith, block.addresses, r);
      unused = (
        inr (omega arith),
        Unused-older a.current (a.current.base + a.current.used) size a.older (omega arith)
            (omega (arith, r)) v.blocks.1 v.distinct.0,
      );
    }

-- What `malloc` promises of a block of `capacity` bytes at `base`: it is aligned, it is there, and it
-- overlaps no block that is not freed.
pub record IsFresh (a : Arena) (base capacity : ℕ) : Type 0 where
  pub aligned : base % 8 ≡ 0
  pub addresses : base + capacity < 2 ^ 64
  pub apart : All (λ b. Apart (block_create base capacity) b) (a.current ∷ a.older)

abbrev pub new_capacity : Arena → ℕ → ℕ
new_capacity a size = if ltb size a.block_size then a.block_size else size

grow-IsArena :
    (a : Arena) (size base : ℕ)
    → IsArena a
    → IsFresh a base (new_capacity a size)
    → IsArena (grow a size base)
grow-IsArena a size base v f = record {
  blocks = (
    record {
      aligned = f.aligned;
      addresses = f.addresses;
      within = omega arith;
      filled = omega arith;
    },
    v.blocks,
  );
  distinct = (f.apart, v.distinct);
  allocated_is = omega (arith, v.allocated_is);
}

grow-Allocates :
    (a : Arena) (size base : ℕ)
    → IsArena a
    → size + a.allocated + 8 < 2 ^ 64
    → IsFresh a base (new_capacity a (align_up size))
    → Allocates a size (base + 0) (bump (grow a (align_up size) base) (align_up size)).1
grow-Allocates a size base v small f =
    let g = grow a (align_up size) base in
    let x = bump-Allocates g size (grow-IsArena a (align_up size) base v f) small (ground arith) in
    record {
      is_arena = x.is_arena;
      aligned = x.aligned;
      lower = x.lower;
      upper = x.upper;
      unused = x.unused.1;
    }

-- On an arena in order, with a fresh block from `malloc` for the case that one is needed, `arena_alloc`
-- returns a pointer aligned to 8 to bytes inside the current block that were not handed out before,
-- and leaves the arena in order. The arena is to hold less than 2 ^ 64 bytes in all.
pub arena_alloc-Allocates :
    (a : Arena) (size base : ℕ)
    → IsArena a
    → size + a.allocated + 8 < 2 ^ 64
    → IsFresh a base (new_capacity a (align_up size))
    → (p : ℕ) × (a' : Arena) × (arena_alloc (some base) a size ≡ some (p, a'))
      × Allocates a size p a'
unfolding arena_alloc
arena_alloc-Allocates a size base v small f =
    let block : IsBlock a.current = v.blocks.0 in
    let sum : add_size a.current.used (align_up size) ≡ a.current.used + align_up size =
      omega (arith, align_up_lem size (omega arith), v.allocated_is) in
    elim (Bool-cases (ltb a.current.capacity (add_size a.current.used (align_up size)))) [
      | inl full ↦ rw full (_, _, refl, grow-Allocates a size base v small f)
      | inr room ↦ rw room (_, _, refl, bump-Allocates a size v small (let e = sum in ground arith))
    ]

-- A request that rounds up to 2 ^ 64 - 8 is granted, without a block for it, by any arena in order
-- whose current block is in use: the sum in the test for room wraps round. The block's fill then goes
-- back by 8 bytes, so the next allocation overlaps bytes handed out before.
pub arena_alloc_wraps :
    (fresh : Option ℕ) (a : Arena) (size : ℕ)
    → IsArena a
    → 0 < a.current.used
    → 2 ^ 64 - 15 ≤ size
    → size ≤ 2 ^ 64 - 8
    → (a' : Arena) × (arena_alloc fresh a size ≡ some (a.current.base + a.current.used, a'))
      × (a'.current.used + 8 ≡ a.current.used)
unfolding arena_alloc align_up
arena_alloc_wraps fresh a size v some_used lo hi =
    let block : IsBlock a.current = v.blocks.0 in
    let big : align_up size ≡ 2 ^ 64 - 8 = omega arith in
    let sum : add_size a.current.used (align_up size) + 8 ≡ a.current.used =
      omega (arith, block.within, block.addresses, block.filled) in
    elim (Bool-cases (ltb a.current.capacity (add_size a.current.used (align_up size)))) [
      | inl full ↦ absurd (let w = block.within in let e = sum in ground arith)
      | inr room ↦ rw room (_, refl, sum)
    ]
