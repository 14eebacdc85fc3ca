-- ===== src/Target/Layout/Bounds.antt =====
-- On the targets of the compiler, every layout is a positive alignment and a whole multiple of it
-- that a `uint64_t` holds.
use Prim.Native.String.{String}
use coglet.Prelude.{
  ℕ, zero, suc, ◌+◌, ◌-◌, ◌*◌, ◌/◌, ◌^◌, ◌<◌, ◌≤◌, length, Bool, true, false, ◌&&◌, ◌||◌, List, [],
  ◌∷◌, ◌≡◌, refl, sym, ap, subst, ◌∙◌, Option, none, some, inl, inr, ltb, leb, ◌==◌, if◌then◌else◌,
  Bool-cases, Multiple, divisor-pos, arith,
}
use native.Mathlib.Nat.{
  div-mul-le_self, lt-div-mul-add, div-eq_of_lt, mul_comm, mul_assoc, le-div_iff_mul-le,
}
use coglet.Target.Config.{TargetConfig}
use coglet.Target.Info.{TargetInfo, target_info_validate, c_long_bits_of, target_info_from_config}
use coglet.Target.Info.Facts.{IsNatural, from_config-eq, init_common-IsNatural}
use coglet.Target.Layout.{
  TypeKind, FunctionAbi, TypePtr, CogType, TargetLayout, layout, LayoutResult, laid_out, failed,
  invalid_target, ◌>>=◌, uint64_max, or_fail, round_up, scalar_align, rounded, pointer_layout,
  slice_layout, array_layout, struct_sum, struct_align, struct_layout, function_layout, enum_layout,
  layout_kind, on_stack, max_depth, layout_impl, target_layout_of_type,
}

pub record IsLayout (l : TargetLayout) : Type 0 where
  pub align_pos : 0 < l.align
  pub whole : Multiple l.align l.size
  pub fits : l.size < 2 ^ 64

-- The least multiple of `align` that is not below `value`.
pub record IsRoundUp (value align r : ℕ) : Type 0 where
  pub whole : Multiple align r
  pub lower : value ≤ r
  pub least : r < value + align
  pub fits : r < 2 ^ 64

-- `round_up` gives the least multiple, and fails only where the sum that it needs is too large.
pub round_up-IsRoundUp :
    (value align r : ℕ) → round_up value align ≡ some r → (0 < align) × IsRoundUp value align r
unfolding round_up
round_up-IsRoundUp value align r h =
    elim (Bool-cases (align == 0 || ltb (uint64_max - (align - 1)) value)) [
      | inl bad ↦ cc (rw bad at h)
      | inr good ↦
          let pos : 0 < align = ground arith in
          let r_is : (value + align - 1) / align * align ≡ r = cc (rw good at h) in
          let below = div-mul-le_self (value + align - 1) align in
          let above = lt-div-mul-add {a = value + align - 1} pos in
          let fits : r < 2 ^ 64 = elim (Bool-cases (value == 0)) [
            | inl nothing ↦ omega (
              arith,
              ap (λ k. k * align) (div-eq_of_lt {n = value + align - 1} {m = align} (ground arith)),
            )
            | inr something ↦ let room : value + align - 1 < 2 ^ 64 = ground arith in omega arith
          ] in
          (
            pos,
            record {
              whole = ((value + align - 1) / align, sym r_is);
              lower = omega arith;
              least = omega arith;
              fits = fits;
            },
          )
    ]

-- The results that are laid out have the property.
abbrev pub Ensures : (TargetLayout → Type 0) → Option LayoutResult → Type 0
Ensures P none = Unit
Ensures P (some (laid_out l)) = P l
Ensures P (some (failed message)) = Unit
Ensures P (some (invalid_target message)) = Unit

pub Ensures->>= :
    (P Q : TargetLayout → Type 0) (r : Option LayoutResult) (f : TargetLayout → Option LayoutResult)
    → Ensures P r
    → ((l : TargetLayout) → P l → Ensures Q (f l))
    → Ensures Q (r >>= f)
Ensures->>= P Q none f h k = tt
Ensures->>= P Q (some (laid_out l)) f h k = k l h
Ensures->>= P Q (some (failed message)) f h k = tt
Ensures->>= P Q (some (invalid_target message)) f h k = tt

or_fail-Ensures :
    (P : TargetLayout → Type 0) (r : Option ℕ) (message : String) (f : ℕ → Option LayoutResult)
    → ((n : ℕ) → r ≡ some n → Ensures P (f n))
    → Ensures P (or_fail r message f)
or_fail-Ensures P none message f h = tt
or_fail-Ensures P (some n) message f h = h n refl

if-Ensures :
    (P : TargetLayout → Type 0) (b : Bool) (message : String) (y : Option LayoutResult)
    → Ensures P y
    → Ensures P (if b then some (failed message) else y)
if-Ensures P true message y h = tt
if-Ensures P false message y h = h

rounded-IsLayout :
    (size align : ℕ) (message : String) → Ensures IsLayout (rounded size align message)
unfolding rounded
rounded-IsLayout size align message =
    or_fail-Ensures IsLayout (round_up size align) message
      (λ whole. some (laid_out (layout whole align)))
      λ whole e.
        let (pos, up) = round_up-IsRoundUp size align whole e in
        record { align_pos = pos; whole = up.whole; fits = up.fits }

array_fits :
    (n size : ℕ)
    → (ltb 0 n && ltb (uint64_max / n) size) ≡ false
    → size < 2 ^ 64
    → size * n < 2 ^ 64
array_fits zero size h k = omega arith
array_fits (suc n) size h k =
    let below : size ≤ uint64_max / suc n = ground arith in
    let product = (le-div_iff_mul-le {x = size} {y = uint64_max} (omega arith)).0 below in
    omega arith

array-IsLayout :
    (n : Option ℕ) (element : Option LayoutResult)
    → Ensures IsLayout element
    → Ensures IsLayout (array_layout n element)
unfolding array_layout
array-IsLayout none element h = tt
array-IsLayout (some n) element h = Ensures->>= IsLayout IsLayout element _ h λ e v.
    elim (Bool-cases (ltb 0 n && ltb (uint64_max / n) e.size)) [
      | inl large ↦ rw large tt
      | inr small ↦ rw small (record {
        align_pos = v.align_pos;
        whole = (
          n * v.whole.0,
          ap (λ s. s * n) v.whole.1
              ∙ mul_comm (v.whole.0 * e.align) n
              ∙ sym (mul_assoc n v.whole.0 e.align),
        );
        fits = array_fits n e.size small v.fits;
      })
    ]

slice-IsLayout : (target : TargetInfo) → Ensures IsLayout (slice_layout target)
unfolding slice_layout
slice-IsLayout target =
    or_fail-Ensures IsLayout
      (round_up (pointer_layout target).size (scalar_align target target.pointer_bits)) _ _
      λ offset e. if-Ensures IsLayout _ _ _ (rounded-IsLayout _ _ _)

Ensures-any : (r : Option LayoutResult) → Ensures (λ l. Unit {0}) r
Ensures-any none = tt
Ensures-any (some (laid_out l)) = tt
Ensures-any (some (failed message)) = tt
Ensures-any (some (invalid_target message)) = tt

struct-IsLayout :
    (lay : Option TypePtr → Option LayoutResult) (t : CogType)
    → Ensures IsLayout (struct_layout lay t)
unfolding struct_layout
struct-IsLayout lay t = elim (Bool-cases t.struct_is_incomplete) [
  | inl open_end ↦ simp open_end tt
  | inr complete ↦ simp complete (
      Ensures->>= (λ l. Unit {0}) IsLayout (struct_sum lay t)
        (λ sum. rounded sum.size (struct_align t sum.align) "struct layout size overflows")
        (Ensures-any (struct_sum lay t))
        (λ sum any.
          rounded-IsLayout sum.size (struct_align t sum.align) "struct layout size overflows"))
]

module _ (target : TargetInfo) (natural : IsNatural target) where
  scalar-IsLayout :
      (size bits : ℕ)
      → 0 < size
      → size < 2 ^ 64
      → Multiple (scalar_align target bits) size
      → IsLayout (layout size (scalar_align target bits))
  scalar-IsLayout size bits p h m = record { align_pos = divisor-pos p m; whole = m; fits = h }

  pointer-IsLayout : IsLayout (pointer_layout target)
  unfolding pointer_layout
  pointer-IsLayout = record {
    align_pos = natural.pointer_align_pos;
    whole = natural.pointer_whole;
    fits = omega (arith, natural.pointer_small);
  }

  function-IsLayout : (abi : FunctionAbi) → Ensures IsLayout (function_layout target abi)
  unfolding function_layout
  function-IsLayout FunctionAbi.c_abi = pointer-IsLayout
  function-IsLayout FunctionAbi.coglet_abi = tt

  enum-IsLayout :
      (lay : Option TypePtr → Option LayoutResult) (backing : Option TypePtr)
      → ((q : Option TypePtr) → Ensures IsLayout (lay q))
      → Ensures IsLayout (enum_layout lay backing)
  unfolding enum_layout
  enum-IsLayout lay none h = tt
  enum-IsLayout lay (some q) h = h (some q)

  kind-IsLayout :
      (inner same : Option TypePtr → Option LayoutResult) (t : CogType) (kind : TypeKind)
      → ((q : Option TypePtr) → Ensures IsLayout (inner q))
      → ((q : Option TypePtr) → Ensures IsLayout (same q))
      → Ensures IsLayout (layout_kind target inner same t kind)
  unfolding layout_kind scalar_align
  kind-IsLayout inner same t TypeKind.type_bool h k =
      scalar-IsLayout 1 8 (omega arith) (omega arith) natural.byte_whole
  kind-IsLayout inner same t TypeKind.type_s8 h k =
      scalar-IsLayout 1 8 (omega arith) (omega arith) natural.byte_whole
  kind-IsLayout inner same t TypeKind.type_u8 h k =
      scalar-IsLayout 1 8 (omega arith) (omega arith) natural.byte_whole
  kind-IsLayout inner same t TypeKind.type_s16 h k =
      scalar-IsLayout 2 16 (omega arith) (omega arith) natural.short_whole
  kind-IsLayout inner same t TypeKind.type_u16 h k =
      scalar-IsLayout 2 16 (omega arith) (omega arith) natural.short_whole
  kind-IsLayout inner same t TypeKind.type_s32 h k =
      scalar-IsLayout 4 32 (omega arith) (omega arith) natural.word_whole
  kind-IsLayout inner same t TypeKind.type_u32 h k =
      scalar-IsLayout 4 32 (omega arith) (omega arith) natural.word_whole
  kind-IsLayout inner same t TypeKind.type_f32 h k =
      scalar-IsLayout 4 32 (omega arith) (omega arith) natural.word_whole
  kind-IsLayout inner same t TypeKind.type_s64 h k =
      scalar-IsLayout 8 64 (omega arith) (omega arith) natural.long_whole
  kind-IsLayout inner same t TypeKind.type_u64 h k =
      scalar-IsLayout 8 64 (omega arith) (omega arith) natural.long_whole
  kind-IsLayout inner same t TypeKind.type_f64 h k =
      scalar-IsLayout 8 64 (omega arith) (omega arith) natural.long_whole
  kind-IsLayout inner same t TypeKind.type_pointer h k = pointer-IsLayout
  kind-IsLayout inner same t TypeKind.type_opaque_pointer h k = pointer-IsLayout
  kind-IsLayout inner same t TypeKind.type_function h k = function-IsLayout t.function_abi
  kind-IsLayout inner same t TypeKind.type_array h k =
      array-IsLayout t.array_size (inner t.element) (h t.element)
  kind-IsLayout inner same t TypeKind.type_slice h k = slice-IsLayout target
  kind-IsLayout inner same t TypeKind.type_enum h k = enum-IsLayout same t.enum_backing_type k
  kind-IsLayout inner same t TypeKind.type_struct h k = struct-IsLayout inner t
  kind-IsLayout inner same t _ h k = tt

  impl-IsLayout :
      (fuel : ℕ) (types : TypePtr → CogType) (stack : List TypePtr) (type : Option TypePtr)
      → Ensures IsLayout (layout_impl fuel target types stack type)
  unfolding layout_impl
  impl-IsLayout zero types stack type = tt
  impl-IsLayout (suc fuel) types stack none = tt
  impl-IsLayout (suc fuel) types stack (some p) = elim (Bool-cases (leb max_depth (length stack))) [
    | inl deep ↦ rw deep tt
    | inr room ↦ elim (Bool-cases (on_stack stack p)) [
      | inl open_type ↦ rw (room, open_type) tt
      | inr new ↦
          rw (room, new)
            (kind-IsLayout (layout_impl fuel target types (p ∷ stack))
              (layout_impl fuel target types stack) (types p) (types p).kind
              (impl-IsLayout fuel types (p ∷ stack)) (impl-IsLayout fuel types stack))
    ]
  ]

  IsNatural-IsLayout :
      (fuel : ℕ) (types : TypePtr → CogType) (type : Option TypePtr) (l : TargetLayout)
      → target_layout_of_type fuel target types type ≡ some (laid_out l)
      → IsLayout l
  unfolding target_layout_of_type
  IsNatural-IsLayout fuel types type l h =
      go (target_info_validate target) (impl-IsLayout fuel types [] type) h
    where
      go :
          (v : Option String)
          → Ensures IsLayout (layout_impl fuel target types [] type)
          → elim v [
            | some message ↦ some (invalid_target message)
            | none ↦ layout_impl fuel target types [] type
          ]
            ≡ some (laid_out l)
          → IsLayout l
      go none e q = subst (Ensures IsLayout) q e
      go (some message) e q = cc

-- On each target of the compiler, every layout that `target_layout_of_type` gives has a positive
-- alignment, and a size that is a whole multiple of it and fits a `uint64_t`.
pub target_layout_of_type-IsLayout :
    (config : TargetConfig) (target : TargetInfo) (fuel : ℕ) (types : TypePtr → CogType)
    (type : Option TypePtr) (l : TargetLayout)
    → target_info_from_config config ≡ some target
    → target_layout_of_type fuel target types type ≡ some (laid_out l)
    → IsLayout l
target_layout_of_type-IsLayout config target fuel types type l c h =
    IsNatural-IsLayout target natural fuel types type l h
  where
    natural : IsNatural target
    natural =
        subst IsNatural (cc (c, from_config-eq config))
          (init_common-IsNatural (c_long_bits_of config.os))
