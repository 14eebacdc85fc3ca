-- ===== src/Runtime/Arena/Blocks.antt =====
-- The blocks of a runtime arena lie apart, and those behind the current one are empty.
use coglet.Prelude.{
  ℕ, ◌+◌, ◌^◌, ◌<◌, ◌≤◌, ◌≡◌, ◌⊎◌, inl, inr, All, All-append, length, List, [], ◌∷◌, ◌++◌, arith,
}
use coglet.Runtime.Arena.{RuntimeArenaBlock, RuntimeArena, blocks, base_of}

abbrev pub end_of : RuntimeArenaBlock → ℕ
end_of b = base_of b + b.capacity

abbrev pub Apart : RuntimeArenaBlock → RuntimeArenaBlock → Type 0
Apart a b = (end_of a ≤ b.address) ⊎ (end_of b ≤ a.address)

pub record IsBlock (b : RuntimeArenaBlock) : Type 0 where
  pub address_pos : 0 < b.address
  pub addresses : end_of b < 2 ^ 64
  pub within : b.used ≤ b.capacity

abbrev pub Distinct : List RuntimeArenaBlock → Type 0
Distinct [] = Unit {0}
Distinct (b ∷ bs) = All (λ c. Apart b c) bs × Distinct bs

abbrev pub Unfilled : List RuntimeArenaBlock → Type 0
Unfilled bs = All (λ (b : RuntimeArenaBlock). b.used ≡ 0) bs

abbrev pub behind : List RuntimeArenaBlock → List RuntimeArenaBlock
behind [] = []
behind (b ∷ bs) = bs

pub record IsArena (a : RuntimeArena) : Type 0 where
  pub sound : All IsBlock (blocks a)
  pub distinct : Distinct (blocks a)
  pub later_empty : Unfilled (behind a.rest)
  pub starts : (0 < length a.rest) ⊎ (a.earlier ≡ [])

-- `b'` is `b` with another fill.
abbrev pub SamePlace : RuntimeArenaBlock → RuntimeArenaBlock → Type 0
SamePlace b b' = (b'.address ≡ b.address) × (b'.capacity ≡ b.capacity)

pub All-split {κ} :
    (P : RuntimeArenaBlock → Type κ) (xs ys : List RuntimeArenaBlock)
    → All P (xs ++ ys)
    → All P xs × All P ys
All-split P [] ys h = (tt, h)
All-split P (x ∷ xs) ys h = let r = All-split P xs ys h.1 in ((h.0, r.0), r.1)

pub All-replace {κ} :
    (P : RuntimeArenaBlock → Type κ) (xs ys : List RuntimeArenaBlock) (b b' : RuntimeArenaBlock)
    → (P b → P b')
    → All P (xs ++ (b ∷ ys))
    → All P (xs ++ (b' ∷ ys))
All-replace P [] ys b b' f h = (f h.0, h.1)
All-replace P (x ∷ xs) ys b b' f h = (h.0, All-replace P xs ys b b' f h.1)

All-Apart-move :
    (b b' : RuntimeArenaBlock) (xs : List RuntimeArenaBlock)
    → SamePlace b b'
    → All (λ c. Apart b c) xs
    → All (λ c. Apart b' c) xs
All-Apart-move b b' [] s h = tt
All-Apart-move b b' (x ∷ xs) s h = (move h.0, All-Apart-move b b' xs s h.1)
  where
    move : Apart b x → Apart b' x
    move (inl p) = inl (omega (arith, s))
    move (inr p) = inr (omega (arith, s))

Apart-right : (x b b' : RuntimeArenaBlock) → SamePlace b b' → Apart x b → Apart x b'
Apart-right x b b' s (inl p) = inl (omega (arith, s))
Apart-right x b b' s (inr p) = inr (omega (arith, s))

-- A block may be filled further where it stands.
pub Distinct-replace :
    (xs ys : List RuntimeArenaBlock) (b b' : RuntimeArenaBlock)
    → SamePlace b b'
    → Distinct (xs ++ (b ∷ ys))
    → Distinct (xs ++ (b' ∷ ys))
Distinct-replace [] ys b b' s h = (All-Apart-move b b' ys s h.0, h.1)
Distinct-replace (x ∷ xs) ys b b' s h = (
  All-replace (λ c. Apart x c) xs ys b b' (Apart-right x b b' s) h.0,
  Distinct-replace xs ys b b' s h.1,
)

-- The bytes from `p` to `q` are none that were handed out from `b`.
abbrev pub Unused : ℕ → ℕ → RuntimeArenaBlock → Type 0
Unused p q b = (q ≤ base_of b) ⊎ (base_of b + b.used ≤ p)

Apart-Unused :
    (b c : RuntimeArenaBlock) (p q : ℕ)
    → Apart b c
    → c.used ≤ c.capacity
    → base_of b ≤ p
    → q ≤ end_of b
    → Unused p q c
Apart-Unused b c p q (inl h) u lo hi = inl (omega arith)
Apart-Unused b c p q (inr h) u lo hi = inr (omega arith)

Apart-sym : (b c : RuntimeArenaBlock) → Apart b c → Apart c b
Apart-sym b c (inl h) = inr h
Apart-sym b c (inr h) = inl h

-- Bytes of a block that lies apart from all the blocks of a list are none of theirs.
pub All-Unused :
    (b : RuntimeArenaBlock) (cs : List RuntimeArenaBlock) (p q : ℕ)
    → base_of b ≤ p
    → q ≤ end_of b
    → All (λ c. Apart b c) cs
    → All IsBlock cs
    → All (λ c. Unused p q c) cs
All-Unused b [] p q lo hi h v = tt
All-Unused b (c ∷ cs) p q lo hi h v =
    (Apart-Unused b c p q h.0 v.0.within lo hi, All-Unused b cs p q lo hi h.1 v.1)

-- A block lies apart from those around it.
pub Distinct-middle :
    (xs ys : List RuntimeArenaBlock) (b : RuntimeArenaBlock)
    → Distinct (xs ++ (b ∷ ys))
    → All (λ c. Apart b c) xs × All (λ c. Apart b c) ys
Distinct-middle [] ys b h = (tt, h.0)
Distinct-middle (x ∷ xs) ys b h =
    let r = Distinct-middle xs ys b h.1 in
    let at = All-split (λ c. Apart x c) xs (b ∷ ys) h.0 in ((Apart-sym x b at.1.0, r.0), r.1)

pub Distinct-append :
    (xs : List RuntimeArenaBlock) (b : RuntimeArenaBlock)
    → Distinct xs
    → All (λ c. Apart b c) xs
    → Distinct (xs ++ (b ∷ []))
Distinct-append [] b h k = (tt, tt)
Distinct-append (x ∷ xs) b h k = (
  All-append (λ c. Apart x c) xs (b ∷ []) h.0 (Apart-sym b x k.0, tt),
  Distinct-append xs b h.1 k.1,
)
