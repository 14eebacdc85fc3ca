-- ===== src/Runtime/Align.antt =====
-- Alignments: `coglet_rt_mem_checked_alignment` and `coglet_rt_align_up_uintptr`.
use Prim.Native.Nat.{bit_and}
use native.Mathlib.Nat.{mod-add-div', mod-lt, mod-eq_of_lt}
use coglet.Prelude.{
  ℕ, ◌+◌, ◌-◌, ◌/◌, ◌%◌, ◌^◌, ◌<◌, ◌≤◌, ◌≡◌, not, ◌||◌, Option, none, some, ltb, ◌==◌,
  if◌then◌else◌, Multiple, arith,
}

abbrev pub size_max : ℕ
size_max = 2 ^ 64 - 1

-- A `uint64_t` is never above SIZE_MAX here.
unfoldable pub checked_alignment : ℕ → Option ℕ
checked_alignment value =
    if value == 0 || not (bit_and value (value - 1) == 0)
    then none
    else some (if ltb value 8 then 8 else value)

-- `(value + (alignment - 1)) & ~(alignment - 1)`, with `alignment` a power of two: the sum less its
-- remainder.
unfoldable pub align_up_uintptr : ℕ → ℕ → ℕ
align_up_uintptr value alignment =
    let sum = (value + (alignment - 1)) % 2 ^ 64 in sum - sum % alignment

pub checked_alignment-pos : (value a : ℕ) → checked_alignment value ≡ some a → 0 < a
unfolding checked_alignment
checked_alignment-pos value a h = ground arith

-- `r` is the least multiple of `a` from `value` on.
pub record IsAligned (value a r : ℕ) : Type 0 where
  pub whole : Multiple a r
  pub lower : value ≤ r
  pub least : r < value + a

pub align_up-IsAligned :
    (value a : ℕ) → 0 < a → value + a ≤ 2 ^ 64 → IsAligned value a (align_up_uintptr value a)
unfolding align_up_uintptr
align_up-IsAligned value a pos h =
    let sum : (value + (a - 1)) % 2 ^ 64 ≡ value + (a - 1) = omega arith in
    let split = mod-add-div' (value + (a - 1)) a in
    let small = mod-lt (value + (a - 1)) pos in
    rw sum (record {
      whole = ((value + (a - 1)) / a, omega arith);
      lower = omega arith;
      least = omega arith;
    })

-- Where the sum wraps round, the result is 0.
pub align_up_wraps :
    (value a : ℕ) → value < 2 ^ 64 → a < 2 ^ 64 → 2 ^ 64 < value + a → align_up_uintptr value a ≡ 0
unfolding align_up_uintptr
align_up_wraps value a v h w =
    let sum : (value + (a - 1)) % 2 ^ 64 ≡ value + (a - 1) - 2 ^ 64 = omega arith in
    let small = mod-eq_of_lt {n = value + (a - 1) - 2 ^ 64} {m = a} (omega arith) in
    rw sum (omega arith)

pub checked_alignment-lt :
    (value a : ℕ) → checked_alignment value ≡ some a → value < 2 ^ 64 → a < 2 ^ 64
unfolding checked_alignment
checked_alignment-lt value a h v = ground arith
