-- ===== src/Runtime/FixedArena/Grants.antt =====
-- Between two resets a fixed arena never hands out a byte twice, nor one outside its buffer.
use coglet.Prelude.{
  ℕ, ◌+◌, ◌-◌, ◌%◌, ◌^◌, ◌<◌, ◌≤◌, ◌≡◌, inl, inr, refl, sym, ap, subst, ◌∙◌, All, List, [], ◌∷◌,
  some, false, leb, leb→le, ◌==◌, Bool-cases, Multiple, arith,
}
use coglet.Runtime.Align.{
  checked_alignment, checked_alignment-pos, checked_alignment-lt, align_up_uintptr, IsAligned,
  align_up-IsAligned, align_up_wraps,
}
use coglet.Runtime.FixedArena.{
  RuntimeFixedArena, state_size, state_alignment, rt_fixed_arena_create, fixed_alloc_aligned,
  rt_fixed_arena_alloc, rt_fixed_arena_reset,
}

-- `size` bytes at a pointer.
pub record Range : Type 0 where
  pub pointer : ℕ
  pub size : ℕ
  pub alignment : ℕ

-- Where the arena's state ends.
abbrev state_end : ℕ → ℕ
state_end buffer = align_up_uintptr buffer state_alignment + state_size

-- The arena stands in its buffer.
record IsFixed (buffer buffer_size : ℕ) (a : RuntimeFixedArena) : Type 0 where
  data_pos : 0 < a.data_address
  behind_state : state_end buffer ≤ a.data_address
  ends : a.data_address + a.capacity ≡ buffer + buffer_size
  addresses : buffer + buffer_size < 2 ^ 64
  within : a.used ≤ a.capacity

create_facts :
    (buffer buffer_size : ℕ) (a : RuntimeFixedArena)
    → rt_fixed_arena_create buffer buffer_size ≡ some a
    → (0 < buffer)
      × (buffer + buffer_size < 2 ^ 64)
      × (align_up_uintptr buffer state_alignment ≤ buffer + buffer_size)
      × (state_size ≤ buffer + buffer_size - align_up_uintptr buffer state_alignment)
      × (a.data_address ≡ (align_up_uintptr buffer state_alignment + state_size) % 2 ^ 64)
      × (a.capacity ≡ buffer + buffer_size - a.data_address)
      × (a.used ≡ 0)
unfolding rt_fixed_arena_create
create_facts buffer buffer_size a h = ground arith

create-IsFixed :
    (buffer buffer_size : ℕ) (a : RuntimeFixedArena)
    → buffer + state_alignment ≤ 2 ^ 64
    → rt_fixed_arena_create buffer buffer_size ≡ some a
    → IsFixed buffer buffer_size a
create-IsFixed buffer buffer_size a below h =
    let facts = create_facts buffer buffer_size a h in
    let up = align_up-IsAligned buffer state_alignment (omega arith) below in
    record {
      data_pos = omega (arith, facts, up.lower);
      behind_state = omega (arith, facts, up.lower);
      ends = omega (arith, facts, up.lower);
      addresses = facts.1;
      within = omega (arith, facts);
    }

alloc_facts :
    (arena after : RuntimeFixedArena) (size a p : ℕ)
    → fixed_alloc_aligned arena size a ≡ some (p, after)
    → (p ≡ align_up_uintptr ((arena.data_address + arena.used) % 2 ^ 64) a)
      × (arena.data_address ≤ p)
      × (p - arena.data_address ≤ arena.capacity)
      × (size ≤ arena.capacity - (p - arena.data_address))
      × (after ≡ record arena { used = p - arena.data_address + size })
unfolding fixed_alloc_aligned
alloc_facts arena after size a p h = ground arith

abbrev end_of : Range → ℕ
end_of r = r.pointer + r.size

-- What one allocation gives: bytes behind all that was handed out, and no further behind than the
-- alignment asks for.
record Granted (arena : RuntimeFixedArena) (size a p : ℕ) (after : RuntimeFixedArena) : Type 0 where
  whole : Multiple a p
  lower : arena.data_address + arena.used ≤ p
  upper : p + size ≤ arena.data_address + arena.capacity
  after_is : after ≡ record arena { used = p - arena.data_address + size }

alloc-Granted :
    (buffer buffer_size : ℕ) (arena after : RuntimeFixedArena) (size a p : ℕ)
    → IsFixed buffer buffer_size arena
    → 0 < a
    → a < 2 ^ 64
    → fixed_alloc_aligned arena size a ≡ some (p, after)
    → Granted arena size a p after
alloc-Granted buffer buffer_size arena after size a p v pos small h =
    let facts = alloc_facts arena after size a p h in
    let current = arena.data_address + arena.used in
    let here : current % 2 ^ 64 ≡ current = omega (arith, v.ends, v.addresses, v.within) in
    let p_is : p ≡ align_up_uintptr current a = facts.0 ∙ ap (λ n. align_up_uintptr n a) here in
    elim (Bool-cases (leb (current + a) (2 ^ 64))) [
      | inl fine ↦
          let up = align_up-IsAligned current a pos (leb→le _ _ fine) in
          record {
            whole = subst (Multiple a) (sym p_is) up.whole;
            lower = omega (arith, up.lower, p_is);
            upper = omega (arith, facts.1, facts.2, facts.3);
            after_is = facts.4;
          }
      | inr wraps ↦
          let zero_is =
            align_up_wraps current a (omega (arith, v.ends, v.addresses, v.within)) small
              (ground arith) in
          absurd (omega (arith, facts.1, v.data_pos, p_is, zero_is))
    ]

-- An arena that was made in a buffer, and what it handed out since the last reset, last one first. A
-- resize of NULL is an allocation; one of other bytes is an allocation and a copy.
pub data Grants (buffer buffer_size : ℕ) : RuntimeFixedArena → List Range → Type 0 where
  created :
      {a : RuntimeFixedArena}
      → rt_fixed_arena_create buffer buffer_size ≡ some a
      → Grants buffer buffer_size a []
  granted :
      {a b : RuntimeFixedArena} {ranges : List Range} (size value alignment p : ℕ)
      → Grants buffer buffer_size a ranges
      → 0 < size
      → value < 2 ^ 64
      → checked_alignment value ≡ some alignment
      → rt_fixed_arena_alloc a size value ≡ some (p, b)
      → Grants buffer buffer_size b
          (record { pointer = p; size = size; alignment = alignment } ∷ ranges)
  reset :
      {a : RuntimeFixedArena} {ranges : List Range}
      → Grants buffer buffer_size a ranges
      → Grants buffer buffer_size (rt_fixed_arena_reset a) []

-- Each range is aligned, inside `lo` to `hi`, and all lie apart: each one in front of those handed out
-- later.
pub record Inside (lo hi : ℕ) (r : Range) : Type 0 where
  pub whole : Multiple r.alignment r.pointer
  pub lower : lo ≤ r.pointer
  pub upper : r.pointer + r.size ≤ hi

abbrev pub Descending : List Range → Type 0
Descending [] = Unit {0}
Descending (r ∷ rs) = All (λ (s : Range). s.pointer + s.size ≤ r.pointer) rs × Descending rs

-- The state of an arena with what it handed out.
record Served (buffer buffer_size : ℕ) (a : RuntimeFixedArena) (ranges : List Range) : Type 0 where
  fixed : IsFixed buffer buffer_size a
  inside :
      All (λ r. Inside (state_end buffer) (a.data_address + a.used) r) ranges × Descending ranges

Inside-mono :
    (lo hi hi' : ℕ) (rs : List Range)
    → hi ≤ hi'
    → All (λ r. Inside lo hi r) rs
    → All (λ r. Inside lo hi' r) rs
Inside-mono lo hi hi' [] le h = tt
Inside-mono lo hi hi' (r ∷ rs) le h = (
  record { whole = h.0.whole; lower = h.0.lower; upper = omega (arith, h.0.upper) },
  Inside-mono lo hi hi' rs le h.1,
)

Inside-below :
    (lo hi p : ℕ) (rs : List Range)
    → hi ≤ p
    → All (λ r. Inside lo hi r) rs
    → All (λ (s : Range). s.pointer + s.size ≤ p) rs
Inside-below lo hi p [] le h = tt
Inside-below lo hi p (r ∷ rs) le h = (omega (arith, h.0.upper), Inside-below lo hi p rs le h.1)

-- A request of some bytes with a good alignment goes to the aligned allocation.
alloc-aligned :
    (a : RuntimeFixedArena) (size value alignment : ℕ)
    → 0 < size
    → checked_alignment value ≡ some alignment
    → rt_fixed_arena_alloc a size value ≡ fixed_alloc_aligned a size alignment
unfolding rt_fixed_arena_alloc
alloc-aligned a size value alignment some_size c =
    let asked : (size == 0) ≡ false = ground arith in rw asked (rw (rt_fixed_arena_alloc, c) refl)

Granted-Served :
    (buffer buffer_size : ℕ) (a b : RuntimeFixedArena) (ranges : List Range) (size alignment p : ℕ)
    → Served buffer buffer_size a ranges
    → Granted a size alignment p b
    → Served buffer buffer_size b
        (record { pointer = p; size = size; alignment = alignment } ∷ ranges)
Granted-Served buffer buffer_size a b ranges size alignment p s g =
    let v = s.fixed in
    let used = a.data_address + a.used in
    subst
      (λ t.
        Served buffer buffer_size t
          (record { pointer = p; size = size; alignment = alignment } ∷ ranges))
      (sym g.after_is)
      (record {
        fixed = record {
          data_pos = v.data_pos;
          behind_state = v.behind_state;
          ends = v.ends;
          addresses = v.addresses;
          within = omega (arith, g.upper, g.lower);
        };
        inside = (
          (
            record {
              whole = g.whole;
              lower = omega (arith, g.lower, v.behind_state);
              upper = omega (arith, g.lower);
            },
            Inside-mono (state_end buffer) used _ ranges (omega (arith, g.lower)) s.inside.0,
          ),
          (Inside-below (state_end buffer) used p ranges g.lower s.inside.0, s.inside.1),
        );
      })

Grants-Served :
    (buffer buffer_size : ℕ) (a : RuntimeFixedArena) (ranges : List Range)
    → buffer + state_alignment ≤ 2 ^ 64
    → Grants buffer buffer_size a ranges
    → Served buffer buffer_size a ranges
unfolding rt_fixed_arena_reset
Grants-Served buffer buffer_size a [] below (created h) = record {
  fixed = create-IsFixed buffer buffer_size a below h;
  inside = (tt, tt);
}
Grants-Served buffer buffer_size _ _ below
      (granted {a} {b} {ranges} size value alignment p before asked small c h) =
    let s = Grants-Served buffer buffer_size a ranges below before in
    Granted-Served buffer buffer_size a b ranges size alignment p s (
      alloc-Granted buffer buffer_size a b size alignment p s.fixed
        (checked_alignment-pos value alignment c) (checked_alignment-lt value alignment c small)
        (sym (alloc-aligned a size value alignment asked c) ∙ h))
Grants-Served buffer buffer_size _ [] below (reset {a} {ranges} before) =
    let s = Grants-Served buffer buffer_size a ranges below before in
    let v = s.fixed in
    record {
      fixed = record {
        data_pos = v.data_pos;
        behind_state = v.behind_state;
        ends = v.ends;
        addresses = v.addresses;
        within = omega arith;
      };
      inside = (tt, tt);
    }

-- For a fixed arena that was made in a buffer not at the very end of the address space, after any
-- number of allocations and resets: the arena's state stands at the first multiple of 8 from the
-- buffer's start on, and what was handed out since the last reset is aligned as asked, lies behind the
-- state and inside the buffer, and each range lies apart from all the others.
pub fixed_arena_ranges :
    (buffer buffer_size : ℕ) (a : RuntimeFixedArena) (ranges : List Range)
    → buffer + state_alignment ≤ 2 ^ 64
    → Grants buffer buffer_size a ranges
    → (state : ℕ) × IsAligned buffer state_alignment state
      × All (λ r. Inside (state + state_size) (buffer + buffer_size) r) ranges
      × Descending ranges
fixed_arena_ranges buffer buffer_size a ranges below h =
    let s = Grants-Served buffer buffer_size a ranges below h in
    let v = s.fixed in
    (
      align_up_uintptr buffer state_alignment,
      align_up-IsAligned buffer state_alignment (omega arith) below,
      Inside-mono (state_end buffer) (a.data_address + a.used) (buffer + buffer_size) ranges
          (omega (arith, v.ends, v.within)) s.inside.0,
      s.inside.1,
    )
