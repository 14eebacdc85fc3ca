-- ===== src/Runtime/Arena/Rewind.antt =====
-- `coglet_rt_mem_arena_rewind` undoes every allocation since the mark was taken.
use coglet.Prelude.{
  ℕ, ◌≤◌, ◌≡◌, ◌≢◌, inl, inr, refl, sym, ap, ap₂, subst, ◌∙◌, All, length, List, [], ◌∷◌, ◌++◌,
  append_assoc, append-nil, Option, none, some, true, false, ltb, ◌==◌, Bool-cases, arith,
}
use coglet.Runtime.Align.{checked_alignment}
use coglet.Runtime.Arena.{
  RuntimeArenaBlock, RuntimeArena, blocks, new_block, fits, Fit, pass_block, find_fit, alloc_in,
  alloc_new, alloc_aligned, rt_arena_alloc, cleared, rt_arena_reset, mark_of, rt_arena_mark,
  rewind_from, rt_arena_rewind,
}
use coglet.Runtime.Arena.Blocks.{
  Apart, IsBlock, Distinct, Unfilled, behind, IsArena, All-split, Distinct-middle,
}

-- `b` is `a` behind some calls of `coglet_rt_mem_arena_alloc`.
pub data Allocs (a : RuntimeArena) : RuntimeArena → Type 0 where
  none_yet : Allocs a a
  one_more :
      {b c : RuntimeArena} (fresh size value p : ℕ)
      → Allocs a b
      → rt_arena_alloc fresh b size value ≡ some (p, c)
      → Allocs a c

-- The blocks of `b`: those in front of the current block of `a` as they were, and from there on the
-- same blocks with other fills, and new ones.
record Grown (a b : RuntimeArena) : Type 0 where
  passed : List RuntimeArenaBlock
  extra : List RuntimeArenaBlock
  block_size_is : b.block_size ≡ a.block_size
  earlier_is : b.earlier ≡ a.earlier ++ passed
  rest_is : cleared (passed ++ b.rest) ≡ cleared a.rest ++ cleared extra

cleared-append : (xs ys : List RuntimeArenaBlock) → cleared (xs ++ ys) ≡ cleared xs ++ cleared ys
unfolding cleared
cleared-append [] ys = refl
cleared-append (x ∷ xs) ys = ap (λ t. record x { used = 0 } ∷ t) (cleared-append xs ys)

cleared-refill :
    (xs ys : List RuntimeArenaBlock) (b : RuntimeArenaBlock) (k : ℕ)
    → cleared (xs ++ (record b { used = k } ∷ ys)) ≡ cleared (xs ++ (b ∷ ys))
unfolding cleared
cleared-refill [] ys b k = refl
cleared-refill (x ∷ xs) ys b k = ap (λ t. record x { used = 0 } ∷ t) (cleared-refill xs ys b k)

-- The loop over the blocks changes one fill.
abbrev SameBlocks : List RuntimeArenaBlock → Option Fit → Type 0
SameBlocks bs none = Unit {0}
SameBlocks bs (some f) = cleared (f.skipped ++ (f.block ∷ f.later)) ≡ cleared bs

pass-SameBlocks :
    (b : RuntimeArenaBlock) (bs : List RuntimeArenaBlock) (r : Option Fit)
    → SameBlocks bs r
    → SameBlocks (b ∷ bs) (pass_block b r)
unfolding pass_block cleared
pass-SameBlocks b bs none h = tt
pass-SameBlocks b bs (some f) h = ap (λ t. record b { used = 0 } ∷ t) h

find_fit-SameBlocks :
    (bs : List RuntimeArenaBlock) (size a : ℕ) → SameBlocks bs (find_fit bs size a)
unfolding find_fit cleared
find_fit-SameBlocks [] size a = tt
find_fit-SameBlocks (b ∷ bs) size a = elim (Bool-cases (fits b size a)) [
  | inl here ↦ rw here refl
  | inr next ↦ rw next (pass-SameBlocks b bs (find_fit bs size a) (find_fit-SameBlocks bs size a))
]

alloc_in-Grown :
    (a b : RuntimeArena) (f : Fit)
    → Grown a b
    → SameBlocks b.rest (some f)
    → Grown a (alloc_in b f).1
unfolding alloc_in
alloc_in-Grown a b f g h = record {
  passed = g.passed ++ f.skipped;
  extra = g.extra;
  block_size_is = g.block_size_is;
  earlier_is = ap (λ t. t ++ f.skipped) g.earlier_is ∙ append_assoc a.earlier g.passed f.skipped;
  rest_is =
      ap cleared (append_assoc g.passed f.skipped (f.block ∷ f.later))
      ∙ cleared-append g.passed (f.skipped ++ (f.block ∷ f.later))
      ∙ ap (λ t. cleared g.passed ++ t) h
      ∙ sym (cleared-append g.passed b.rest)
      ∙ g.rest_is;
}

alloc_new-Grown :
    (a b : RuntimeArena) (size alignment : ℕ) (block : RuntimeArenaBlock)
    → Grown a b
    → Grown a (alloc_new b size alignment block).1
unfolding alloc_new
alloc_new-Grown a b size alignment block g = record {
  passed = g.passed ++ b.rest;
  extra = g.extra ++ (block ∷ []);
  block_size_is = g.block_size_is;
  earlier_is = ap (λ t. t ++ b.rest) g.earlier_is ∙ append_assoc a.earlier g.passed b.rest;
  rest_is =
      cleared-refill (g.passed ++ b.rest) [] block _
      ∙ cleared-append (g.passed ++ b.rest) (block ∷ [])
      ∙ ap (λ t. t ++ cleared (block ∷ [])) g.rest_is
      ∙ append_assoc (cleared a.rest) (cleared g.extra) (cleared (block ∷ []))
      ∙ ap (λ t. cleared a.rest ++ t) (sym (cleared-append g.extra (block ∷ [])));
}

-- What an allocation may leave behind.
abbrev GrownTo : RuntimeArena → Option (ℕ × RuntimeArena) → Type 0
GrownTo a none = Unit {0}
GrownTo a (some result) = Grown a result.1

alloc_aligned-GrownTo :
    (a b : RuntimeArena) (fresh size alignment : ℕ)
    → Grown a b
    → GrownTo a (alloc_aligned fresh b size alignment)
unfolding alloc_aligned
alloc_aligned-GrownTo a b fresh size alignment g =
    go (find_fit b.rest size alignment) (find_fit-SameBlocks b.rest size alignment)
  where
    another :
        (r : Option RuntimeArenaBlock)
        → GrownTo a (elim r [ none ↦ none | some block ↦ some (alloc_new b size alignment block) ])
    another none = tt
    another (some block) = alloc_new-Grown a b size alignment block g

    go :
        (r : Option Fit)
        → SameBlocks b.rest r
        → GrownTo a (elim r [
          | some fit ↦ some (alloc_in b fit)
          | none ↦ elim (new_block fresh b size alignment) [
            | none ↦ none
            | some block ↦ some (alloc_new b size alignment block)
          ]
        ])
    go (some f) h = alloc_in-Grown a b f g h
    go none h = another (new_block fresh b size alignment)

rt_arena_alloc-GrownTo :
    (a b : RuntimeArena) (fresh size value : ℕ)
    → Grown a b
    → GrownTo a (rt_arena_alloc fresh b size value)
unfolding rt_arena_alloc
rt_arena_alloc-GrownTo a b fresh size value g = elim (Bool-cases (size == 0)) [
  | inl empty ↦ rw empty g
  | inr some_size ↦ rw some_size (go (checked_alignment value))
]
  where
    go :
        (r : Option ℕ)
        → GrownTo a (elim r [ none ↦ none | some alignment ↦ alloc_aligned fresh b size alignment ])
    go none = tt
    go (some alignment) = alloc_aligned-GrownTo a b fresh size alignment g

Allocs-Grown : (a b : RuntimeArena) → Allocs a b → Grown a b
unfolding cleared
Allocs-Grown a b none_yet = record {
  passed = [];
  extra = [];
  block_size_is = refl;
  earlier_is = sym (append-nil a.earlier);
  rest_is = sym (append-nil (cleared a.rest));
}
Allocs-Grown a c (one_more {b} fresh size value p before e) =
    subst (GrownTo a) e (rt_arena_alloc-GrownTo a b fresh size value (Allocs-Grown a b before))

-- The walk of the rewind stops at the block of the mark.
rewind_from-found :
    (arena : RuntimeArena) (passed xs ys : List RuntimeArenaBlock) (y : RuntimeArenaBlock)
    (target used : ℕ)
    → All (λ (x : RuntimeArenaBlock). x.address ≢ target) xs
    → y.address ≡ target
    → used ≤ y.capacity
    → rewind_from arena passed (xs ++ (y ∷ ys)) target used
      ≡ some (record arena { earlier = passed ++ xs; rest = record y { used = used } ∷ cleared ys })
unfolding rewind_from
rewind_from-found arena passed [] ys y target used others here room =
    let found : (y.address == target) ≡ true = ground arith in
    let inside : ltb y.capacity used ≡ false = ground arith in
    rw (found, inside, append-nil passed) refl
rewind_from-found arena passed (x ∷ xs) ys y target used others here room =
    let no : (x.address == target) ≡ false = let differs = others.0 in ground arith in
    rw no (
      rewind_from-found arena (passed ++ (x ∷ [])) xs ys y target used others.1 here room
      ∙ ap (λ t. some (record arena { earlier = t; rest = record y { used = used } ∷ cleared ys }))
          (append_assoc passed (x ∷ []) xs))

-- The addresses of blocks that lie apart differ.
Apart-differs : (b c : RuntimeArenaBlock) → Apart b c → c.address ≢ b.address
Apart-differs b c (inl h) e = omega arith
Apart-differs b c (inr h) e = omega arith

All-differs :
    (xs : List RuntimeArenaBlock) (b : RuntimeArenaBlock)
    → All (λ c. Apart b c) xs
    → All (λ (x : RuntimeArenaBlock). x.address ≢ b.address) xs
All-differs [] b h = tt
All-differs (x ∷ xs) b h = (Apart-differs b x h.0, All-differs xs b h.1)

cleared-Unfilled : (bs : List RuntimeArenaBlock) → Unfilled (cleared bs)
unfolding cleared
cleared-Unfilled [] = tt
cleared-Unfilled (b ∷ bs) = (refl, cleared-Unfilled bs)

cleared-id : (bs : List RuntimeArenaBlock) → Unfilled bs → cleared bs ≡ bs
unfolding cleared
cleared-id [] h = refl
cleared-id (b ∷ bs) h = ap₂ (λ k t. record b { used = k } ∷ t) (sym h.0) (cleared-id bs h.1)

-- A list of blocks that is another list once both are cleared.
record Resembles (c : RuntimeArenaBlock) (cs bs : List RuntimeArenaBlock) : Type 0 where
  top : RuntimeArenaBlock
  under : List RuntimeArenaBlock
  splits : bs ≡ top ∷ under
  same : record top { used = 0 } ≡ record c { used = 0 }
  below : cleared under ≡ cs

abbrev first_of : RuntimeArenaBlock → List RuntimeArenaBlock → RuntimeArenaBlock
first_of otherwise [] = otherwise
first_of otherwise (b ∷ bs) = b

cleared-Resembles :
    (c : RuntimeArenaBlock) (cs bs : List RuntimeArenaBlock)
    → cleared bs ≡ record c { used = 0 } ∷ cs
    → Resembles c cs bs
unfolding cleared
cleared-Resembles c cs [] h = absurd (cc)
cleared-Resembles c cs (b ∷ bs) h = record {
  top = b;
  under = bs;
  splits = refl;
  same = ap (first_of c) h;
  below = ap behind h;
}

-- What `b` is when it is taken back to `a`: `a` with further empty blocks behind.
pub record TakenBack (a : RuntimeArena) (back : Option RuntimeArena) : Type 0 where
  pub extra : List RuntimeArenaBlock
  pub empty : Unfilled extra
  pub back_is : back ≡ some (record a { rest = a.rest ++ extra })

same_arena :
    (a b : RuntimeArena)
    → b.block_size ≡ a.block_size
    → b.earlier ≡ a.earlier
    → b.rest ≡ a.rest
    → b ≡ a
same_arena a b size_is earlier_is rest_is =
    ap (λ n. record b { block_size = n }) size_is
    ∙ ap₂ (λ xs ys. record a { earlier = xs; rest = ys }) earlier_is rest_is

-- The blocks from the start on are those in front of the mark and those behind it.
Grown-blocks : (a b : RuntimeArena) (g : Grown a b) → blocks b ≡ a.earlier ++ (g.passed ++ b.rest)
Grown-blocks a b g = ap (λ t. t ++ b.rest) g.earlier_is ∙ append_assoc a.earlier g.passed b.rest

cleared-cons :
    (c : RuntimeArenaBlock) (later : List RuntimeArenaBlock)
    → cleared (c ∷ later) ≡ record c { used = 0 } ∷ cleared later
unfolding cleared
cleared-cons c later = refl

-- The mark of an arena without a current block is NULL, which resets.
rewind-empty :
    (a b : RuntimeArena)
    → a.earlier ≡ []
    → a.rest ≡ []
    → Grown a b
    → TakenBack a (rt_arena_rewind b 0 0)
unfolding rt_arena_rewind rt_arena_reset cleared
rewind-empty a b no_earlier no_rest g = record {
  extra = cleared g.extra;
  empty = cleared-Unfilled g.extra;
  back_is = ap some (
      same_arena (record a { rest = a.rest ++ cleared g.extra }) (rt_arena_reset b) g.block_size_is
        (sym no_earlier)
        (ap cleared (Grown-blocks a b g ∙ ap (λ t. t ++ (g.passed ++ b.rest)) no_earlier)
          ∙ g.rest_is
          ∙ ap (λ t. cleared t ++ cleared g.extra) no_rest
          ∙ ap (λ t. t ++ cleared g.extra) (sym no_rest)));
}

rewind-current :
    (a b : RuntimeArena) (c : RuntimeArenaBlock) (later : List RuntimeArenaBlock)
    → IsArena a
    → a.rest ≡ c ∷ later
    → Grown a b
    → TakenBack a (rt_arena_rewind b c.address c.used)
unfolding rt_arena_rewind
rewind-current a b c later v rest_is g =
    let all_is : blocks a ≡ a.earlier ++ (c ∷ later) = ap (λ t. a.earlier ++ t) rest_is in
    let sound = All-split IsBlock a.earlier (c ∷ later) (subst (All IsBlock) all_is v.sound) in
    let apart = Distinct-middle a.earlier later c (subst Distinct all_is v.distinct) in
    let like =
      cleared-Resembles c (cleared later ++ cleared g.extra) (g.passed ++ b.rest)
        (g.rest_is ∙ ap (λ t. t ++ cleared g.extra) (ap cleared rest_is ∙ cleared-cons c later)) in
    let walk : blocks b ≡ a.earlier ++ (like.top ∷ like.under) =
      Grown-blocks a b g ∙ ap (λ t. a.earlier ++ t) like.splits in
    let marked : (c.address == 0) ≡ false = let real = sound.1.0.address_pos in ground arith in
    record {
      extra = cleared g.extra;
      empty = cleared-Unfilled g.extra;
      back_is =
          rw (marked, walk)
            (rewind_from-found b [] a.earlier like.under like.top c.address c.used
                (All-differs a.earlier c apart.0)
                (ap (λ (x : RuntimeArenaBlock). x.address) like.same)
                (omega
                  (arith, sound.1.0.within, ap (λ (x : RuntimeArenaBlock). x.capacity) like.same))
              ∙ ap some (
                  same_arena (record a { rest = a.rest ++ cleared g.extra }) _ g.block_size_is refl
                    (ap₂ (λ x t. x ∷ t)
                        (ap (λ (x : RuntimeArenaBlock). record x { used = c.used }) like.same)
                        (like.below
                          ∙ ap (λ t. t ++ cleared g.extra)
                              (cleared-id later
                                (subst (λ t. Unfilled (behind t)) rest_is v.later_empty)))
                      ∙ ap (λ t. t ++ cleared g.extra) (sym rest_is))));
    }

-- From a runtime arena in order, take a mark, make any number of allocations, and rewind to the mark:
-- the arena is what it was, with further empty blocks behind, at most.
pub rt_arena_rewind-rt_arena_mark :
    (a b : RuntimeArena)
    → IsArena a
    → Allocs a b
    → TakenBack a (rt_arena_rewind b (rt_arena_mark a).0 (rt_arena_mark a).1)
unfolding rt_arena_mark mark_of
rt_arena_rewind-rt_arena_mark a b v moves = go a.rest refl
  where
    go :
        (rest : List RuntimeArenaBlock)
        → a.rest ≡ rest
        → TakenBack a (rt_arena_rewind b (mark_of rest).0 (mark_of rest).1)
    go [] e = elim v.starts [
      | inl some_block ↦ absurd (omega (arith, some_block, ap length e))
      | inr first_is ↦ rewind-empty a b first_is e (Allocs-Grown a b moves)
    ]
    go (c ∷ later) e = rewind-current a b c later v e (Allocs-Grown a b moves)
