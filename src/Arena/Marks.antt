-- ===== src/Arena/Marks.antt =====
-- Markers: `arena_reset_to` undoes every allocation since the marker was taken.
use coglet.Prelude.{
  ℕ, ◌+◌, ◌-◌, ◌^◌, ◌≤◌, ◌<◌, length, length-append, true, false, List, [], ◌∷◌, ◌++◌, ◌≡◌, refl,
  ap, subst, ◌∙◌, inl, inr, Option, none, some, ltb, ◌==◌, Bool-cases, arith,
}
use coglet.Arena.{
  ArenaBlock, Arena, add_size, sub_size, block_create, align_up, bump, grow, arena_alloc,
  arena_mark, unwind, arena_reset_to,
}
use coglet.Arena.Blocks.{IsArena, total, align_up_lem}

-- `b` is `a` behind some calls of `arena_alloc`, with less than 2 ^ 64 bytes handed out in all.
pub data Allocs (a : Arena) : Arena → Type 0 where
  none_yet : Allocs a a
  one_more :
      {b c : Arena} (fresh : Option ℕ) (size p : ℕ)
      → Allocs a b
      → size + b.allocated + 8 < 2 ^ 64
      → arena_alloc fresh b size ≡ some (p, c)
      → Allocs a c

-- The chain of `b`: new blocks in front of the block that was current in `a`, which is fuller now.
record Extends (a b : Arena) : Type 0 where
  newer : List ArenaBlock
  used : ℕ
  fuller : a.current.used ≤ used
  chain_is : b.current ∷ b.older ≡ newer ++ (record (a.current) { used = used } ∷ a.older)
  allocated_is : b.allocated ≡ a.allocated + (used - a.current.used) + total newer
  block_size_is : b.block_size ≡ a.block_size
  counted : total (b.current ∷ b.older) ≤ b.allocated
  bounded : b.allocated < 2 ^ 64

-- The fill of the newest block, and the chain with another.
abbrev head_used : List ArenaBlock → ℕ
head_used [] = 0
head_used (b ∷ blocks) = b.used

abbrev refill : ℕ → List ArenaBlock → List ArenaBlock
refill k [] = []
refill k (b ∷ blocks) = record b { used = k } ∷ blocks

bump-Extends :
    (a b : Arena) (size : ℕ) → size + b.allocated < 2 ^ 64 → Extends a b → Extends a (bump b size).1
bump-Extends a b size small e = go e.newer e.used e.fuller e.chain_is e.allocated_is
  where
    go :
        (newer : List ArenaBlock) (used : ℕ)
        → a.current.used ≤ used
        → b.current ∷ b.older ≡ newer ++ (record (a.current) { used = used } ∷ a.older)
        → b.allocated ≡ a.allocated + (used - a.current.used) + total newer
        → Extends a (bump b size).1
    go [] used fuller chain sum =
        let same : b.current.used ≡ used = ap head_used chain in
        let k : add_size b.current.used size ≡ used + size = omega (arith, e.counted) in
        record {
          newer = [];
          used = used + size;
          fuller = omega arith;
          chain_is = rw k (ap (refill (used + size)) chain);
          allocated_is = omega arith;
          block_size_is = e.block_size_is;
          counted = omega (arith, e.counted);
          bounded = omega arith;
        }
    go (n ∷ newer) used fuller chain sum =
        let same : b.current.used ≡ n.used = ap head_used chain in
        let k : add_size b.current.used size ≡ n.used + size = omega (arith, e.counted) in
        record {
          newer = record n { used = n.used + size } ∷ newer;
          used = used;
          fuller = fuller;
          chain_is = rw k (ap (refill (n.used + size)) chain);
          allocated_is = omega arith;
          block_size_is = e.block_size_is;
          counted = omega (arith, e.counted);
          bounded = omega arith;
        }

grow-Extends : (a b : Arena) (size base : ℕ) → Extends a b → Extends a (grow b size base)
grow-Extends a b size base e = record {
  newer = (grow b size base).current ∷ e.newer;
  used = e.used;
  fuller = e.fuller;
  chain_is = ap (λ t. (grow b size base).current ∷ t) e.chain_is;
  allocated_is = omega (arith, e.allocated_is);
  block_size_is = e.block_size_is;
  counted = omega (arith, e.counted);
  bounded = e.bounded;
}

arena_alloc-Extends :
    (a b c : Arena) (fresh : Option ℕ) (size p : ℕ)
    → size + b.allocated + 8 < 2 ^ 64
    → Extends a b
    → arena_alloc fresh b size ≡ some (p, c)
    → Extends a c
unfolding arena_alloc
arena_alloc-Extends a b c fresh size p small e h =
    let r = align_up_lem size (omega arith) in
    let n = align_up size in
    elim (Bool-cases (ltb b.current.capacity (add_size b.current.used n))) [
      | inr room ↦ finish (bump b n) (bump-Extends a b n (omega arith) e) (ground arith)
      | inl full ↦ grown fresh (rw full at h)
    ]
  where
    finish : (r : ℕ × Arena) → Extends a r.1 → r.1 ≡ c → Extends a c
    finish r x q = subst (Extends a) q x

    grown :
        (f : Option ℕ)
        → elim f [
          | none ↦ none
          | some base ↦ some (bump (grow b (align_up size) base) (align_up size))
        ]
          ≡ some (p, c)
        → Extends a c
    grown none q = cc
    grown (some base) q =
        let g = grow b (align_up size) base in
        finish (bump g (align_up size))
          (bump-Extends a g (align_up size) (omega (arith, align_up_lem size (omega arith)))
            (grow-Extends a b (align_up size) base e))
          (cc)

Allocs-Extends : {a b : Arena} → IsArena a → a.allocated < 2 ^ 64 → Allocs a b → Extends a b
Allocs-Extends {a} v h none_yet = record {
  newer = [];
  used = a.current.used;
  fuller = omega arith;
  chain_is = refl;
  allocated_is = omega arith;
  block_size_is = refl;
  counted = omega (arith, v.allocated_is);
  bounded = h;
}
Allocs-Extends {a} v h (one_more {b} {c} fresh size p before small step) =
    arena_alloc-Extends a b c fresh size p small (Allocs-Extends v h before) step

unwind_bottom :
    (bottom : ArenaBlock) (rest : List ArenaBlock) (freed : ℕ)
    → unwind (length rest) bottom rest freed ≡ (bottom, rest, freed)
unfolding unwind
unwind_bottom bottom [] freed = refl
unwind_bottom bottom (c ∷ rest) freed =
    let same : (length (c ∷ rest) == length (c ∷ rest)) ≡ true = ground arith in rw same refl

unwind_newer :
    (newer : List ArenaBlock) (block bottom : ArenaBlock) (rest : List ArenaBlock) (freed : ℕ)
    → freed + block.used + total newer < 2 ^ 64
    → unwind (length rest) block (newer ++ (bottom ∷ rest)) freed
      ≡ (bottom, rest, freed + block.used + total newer)
unfolding unwind
unwind_newer [] block bottom rest freed small =
    let other : (length (bottom ∷ rest) == length rest) ≡ false = ground arith in
    let sum : add_size freed block.used ≡ freed + block.used + 0 = omega arith in
    rw (other, sum) (unwind_bottom bottom rest (freed + block.used + 0))
unwind_newer (n ∷ newer) block bottom rest freed small =
    let other : (length (n ∷ (newer ++ (bottom ∷ rest))) == length rest) ≡ false =
      ground (arith, length-append newer (bottom ∷ rest)) in
    let sum : add_size freed block.used ≡ freed + block.used = omega arith in
    rw (other, sum)
      (unwind_newer newer n bottom rest (freed + block.used) (omega arith)
        ∙ ap (λ k. (bottom, rest, k)) (omega arith))

abbrev unwind_chain : ℕ → List ArenaBlock → ArenaBlock × List ArenaBlock × ℕ
unwind_chain place [] = (block_create 0 0, [], 0)
unwind_chain place (b ∷ older) = unwind place b older 0

unwind_chain_lem :
    (newer : List ArenaBlock) (bottom : ArenaBlock) (rest : List ArenaBlock)
    → total newer < 2 ^ 64
    → unwind_chain (length rest) (newer ++ (bottom ∷ rest)) ≡ (bottom, rest, total newer)
unwind_chain_lem [] bottom rest small = unwind_bottom bottom rest 0
unwind_chain_lem (n ∷ newer) bottom rest small =
    unwind_newer newer n bottom rest 0 (omega arith) ∙ ap (λ k. (bottom, rest, k)) (omega arith)

-- `arena_reset_to` gives the arena back as it was when the mark was taken, after any number of
-- allocations in between, those that needed new blocks included. The arena holds less than 2 ^ 64
-- bytes in all throughout.
pub arena_reset_to-arena_mark :
    (a b : Arena)
    → IsArena a
    → a.allocated < 2 ^ 64
    → Allocs a b
    → arena_reset_to b (arena_mark a) ≡ a
unfolding arena_reset_to arena_mark
arena_reset_to-arena_mark a b v h allocs =
    let e = Allocs-Extends v h allocs in
    let bounded = e.bounded in
    let sum = e.allocated_is in
    let fuller = e.fuller in
    let r : unwind (length a.older) b.current b.older 0
        ≡ (record (a.current) { used = e.used }, a.older, total e.newer) =
      ap (unwind_chain (length a.older)) e.chain_is
      ∙ unwind_chain_lem e.newer (record (a.current) { used = e.used }) a.older (omega arith) in
    let freed : add_size (total e.newer) (sub_size e.used a.current.used)
        ≡ total e.newer + (e.used - a.current.used) =
      omega (arith, e.counted) in
    let left : sub_size b.allocated (total e.newer + (e.used - a.current.used)) ≡ a.allocated =
      omega arith in
    rw (r, freed, left, e.block_size_is) refl
