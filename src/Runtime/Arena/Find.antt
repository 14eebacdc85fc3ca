-- ===== src/Runtime/Arena/Find.antt =====
-- The loop of the runtime arena's allocation over the blocks: the block that it finds has room for the
-- bytes, at the pointer that it gives, and where it finds none, no block has room.
use native.Mathlib.Nat.{mul-le-mul_right}
use coglet.Prelude.{
  suc, false, ℕ, ◌+◌, ◌-◌, ◌%◌, ◌^◌, ◌<◌, ◌≤◌, ◌≡◌, ◌⊎◌, inl, inr, refl, ap, All, List, [], ◌∷◌,
  ◌++◌, Option, none, some, true, leb, leb→le, Bool-cases, Multiple, arith,
}
use coglet.Runtime.Align.{IsAligned, align_up-IsAligned, align_up_wraps}
use coglet.Runtime.Arena.{
  RuntimeArenaBlock, base_of, aligned_in, fits, fill, Fit, pass_block, find_fit,
}
use coglet.Runtime.Arena.Blocks.{end_of, IsBlock}

-- `size` bytes at `p` in the free part of a block.
pub record InBlock (b : RuntimeArenaBlock) (size a p : ℕ) : Type 0 where
  pub whole : Multiple a p
  pub lower : base_of b + b.used ≤ p
  pub upper : p + size ≤ end_of b

fits_facts :
    (b : RuntimeArenaBlock) (size a : ℕ)
    → fits b size a ≡ true
    → (base_of b ≤ aligned_in b a)
      × (size ≤ b.capacity)
      × (aligned_in b a - base_of b ≤ b.capacity - size)
unfolding fits
fits_facts b size a h = ground arith

aligned_in_cases :
    (b : RuntimeArenaBlock) (a : ℕ)
    → IsBlock b
    → 0 < a
    → a < 2 ^ 64
    → IsAligned (base_of b + b.used) a (aligned_in b a) ⊎ (aligned_in b a ≡ 0)
unfolding aligned_in
aligned_in_cases b a v pos small =
    let here : (base_of b + b.used) % 2 ^ 64 ≡ base_of b + b.used =
      omega (arith, v.addresses, v.within) in
    elim (Bool-cases (leb (base_of b + b.used + a) (2 ^ 64))) [
      | inl fine ↦ inl (rw here (align_up-IsAligned (base_of b + b.used) a pos (leb→le _ _ fine)))
      | inr wraps ↦ inr (
          rw here (
            align_up_wraps (base_of b + b.used) a (omega (arith, v.addresses, v.within)) small
              (ground arith)))
    ]

fits-InBlock :
    (b : RuntimeArenaBlock) (size a : ℕ)
    → IsBlock b
    → 0 < a
    → a < 2 ^ 64
    → fits b size a ≡ true
    → InBlock b size a (aligned_in b a)
fits-InBlock b size a v pos small h =
    let facts = fits_facts b size a h in
    elim (aligned_in_cases b a v pos small) [
      | inl up ↦ record { whole = up.whole; lower = up.lower; upper = omega arith }
      | inr zero_is ↦ absurd (omega (arith, v.address_pos))
    ]

-- No aligned address is less than the least one.
IsAligned-least : (v a p q : ℕ) → IsAligned v a p → IsAligned v a q → p ≤ q
IsAligned-least v a p q hp hq = go hp.whole hq.whole
  where
    go : Multiple a p → Multiple a q → p ≤ q
    go (k, e) (j, f) = elim (Bool-cases (leb k j)) [
      | inl le ↦ let more = mul-le-mul_right a (leb→le k j le) in omega (arith, e, f, more)
      | inr gt ↦
          let less : suc j ≤ k = ground arith in
          let more = mul-le-mul_right a less in
          absurd (omega (arith, e, f, more, hp.least, hq.lower))
    ]

-- The bytes do not fit in the free part of a block at its next aligned address. Nothing is said where
-- that is too close to the end of the address space to be computed in a `uintptr_t`.
abbrev pub NoRoom : ℕ → ℕ → RuntimeArenaBlock → Type 0
NoRoom size a b =
    base_of b + b.used + a ≤ 2 ^ 64
    → (p : ℕ) → IsAligned (base_of b + b.used) a p
    → end_of b < p + size

no_fit-NoRoom :
    (b : RuntimeArenaBlock) (size a : ℕ)
    → IsBlock b
    → 0 < a
    → fits b size a ≡ false
    → NoRoom size a b
unfolding fits aligned_in
no_fit-NoRoom b size a v pos h room p up =
    let here : (base_of b + b.used) % 2 ^ 64 ≡ base_of b + b.used =
      omega (arith, v.addresses, v.within) in
    let at : IsAligned (base_of b + b.used) a (aligned_in b a) =
      rw here (align_up-IsAligned (base_of b + b.used) a pos room) in
    let low = at.lower in
    let same = IsAligned-least (base_of b + b.used) a (aligned_in b a) p at up in
    let over : end_of b < aligned_in b a + size = ground arith in omega (arith, over, same)

-- The block that the loop finds, as it was.
pub record IsFit (bs : List RuntimeArenaBlock) (size a : ℕ) (f : Fit) : Type 0 where
  pub old : RuntimeArenaBlock
  pub splits : bs ≡ f.skipped ++ (old ∷ f.later)
  pub block_is : f.block ≡ fill old f.pointer size
  pub inside : InBlock old size a f.pointer

abbrev pub FitOutcome : List RuntimeArenaBlock → ℕ → ℕ → Option Fit → Type 0
FitOutcome bs size a none = All (NoRoom size a) bs
FitOutcome bs size a (some f) = IsFit bs size a f

pass-FitOutcome :
    (b : RuntimeArenaBlock) (bs : List RuntimeArenaBlock) (size a : ℕ) (r : Option Fit)
    → NoRoom size a b
    → FitOutcome bs size a r
    → FitOutcome (b ∷ bs) size a (pass_block b r)
unfolding pass_block
pass-FitOutcome b bs size a none full h = (full, h)
pass-FitOutcome b bs size a (some f) full h = record {
  old = h.old;
  splits = ap (λ t. b ∷ t) h.splits;
  block_is = h.block_is;
  inside = h.inside;
}

pub find_fit-FitOutcome :
    (bs : List RuntimeArenaBlock) (size a : ℕ)
    → All IsBlock bs
    → 0 < a
    → a < 2 ^ 64
    → FitOutcome bs size a (find_fit bs size a)
unfolding find_fit
find_fit-FitOutcome [] size a v pos small = tt
find_fit-FitOutcome (b ∷ bs) size a v pos small = elim (Bool-cases (fits b size a)) [
  | inl yes_fits ↦ rw yes_fits (record {
    old = b;
    splits = refl;
    block_is = refl;
    inside = fits-InBlock b size a v.0 pos small yes_fits;
  })
  | inr no_fit ↦ rw no_fit (
      pass-FitOutcome b bs size a (find_fit bs size a) (no_fit-NoRoom b size a v.0 pos no_fit)
        (find_fit-FitOutcome bs size a v.1 pos small))
]
