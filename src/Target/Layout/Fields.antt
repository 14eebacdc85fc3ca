-- ===== src/Target/Layout/Fields.antt =====
-- Where the fields of a struct lie: `struct_layout` against a description of the placement.
use Prim.Native.String.{String}
use coglet.Prelude.{
  ℕ, ◌+◌, ◌-◌, max, ◌&&◌, ◌≡◌, ◌∙◌, arith, refl, sym, ap, subst, Bool, true, false, List, [], ◌∷◌,
  Option, none, some, ltb, if◌then◌else◌,
}
use coglet.Target.Layout.{
  TypePtr, StructField, CogType, TargetLayout, layout, LayoutResult, laid_out, failed,
  invalid_target, ◌>>=◌, uint64_max, or_fail, round_up, larger, rounded, struct_fields,
  struct_align, struct_sum, struct_layout,
}
use coglet.Target.Layout.Bounds.{IsRoundUp, round_up-IsRoundUp}

-- A field has the alignment of its type, or 1 in a packed struct.
abbrev pub field_align : Bool → TargetLayout → ℕ
field_align packed l = if packed then 1 else l.align

-- Fields with the layouts `ls`, from the byte `start` on: each lies at the least offset that its
-- alignment allows and that no field in front of it reaches. `end` is the first byte behind them, and
-- `align` the largest of the alignments and `above`.
pub data Placed (packed : Bool) : ℕ → ℕ → List TargetLayout → List ℕ → ℕ → ℕ → Type 0 where
  none_left :
      {start above end align : ℕ}
      → end ≡ start
      → align ≡ above
      → Placed packed start above [] [] end align
  next_field :
      {start above : ℕ} (l : TargetLayout) (offset : ℕ) {ls : List TargetLayout} {offsets : List ℕ}
      {end align : ℕ}
      → IsRoundUp start (field_align packed l) offset
      → Placed packed (offset + l.size) (larger (field_align packed l) above) ls offsets end align
      → Placed packed start above (l ∷ ls) (offset ∷ offsets) end align

-- The fields' types have these layouts.
abbrev pub LaysOut :
    (Option TypePtr → Option LayoutResult) → List StructField → List TargetLayout → Type 0
LaysOut lay [] [] = Unit {0}
LaysOut lay [] (l ∷ ls) = ⊥
LaysOut lay (f ∷ fields) [] = ⊥
LaysOut lay (f ∷ fields) (l ∷ ls) = (lay f.type ≡ some (laid_out l)) × LaysOut lay fields ls

pub record Placement (lay : Option TypePtr → Option LayoutResult) (packed : Bool)
    (fields : List StructField) (start above : ℕ) (sum : TargetLayout) : Type 0 where
  pub layouts : List TargetLayout
  pub offsets : List ℕ
  pub laid : LaysOut lay fields layouts
  pub placed : Placed packed start above layouts offsets sum.size sum.align

>>=-laid_out :
    (r : Option LayoutResult) (f : TargetLayout → Option LayoutResult) {l : TargetLayout}
    → (r >>= f) ≡ some (laid_out l)
    → (x : TargetLayout) × (r ≡ some (laid_out x)) × (f x ≡ some (laid_out l))
>>=-laid_out none f h = cc
>>=-laid_out (some (laid_out x)) f h = (x, refl, h)
>>=-laid_out (some (failed message)) f h = cc
>>=-laid_out (some (invalid_target message)) f h = cc

or_fail-laid_out :
    (r : Option ℕ) (message : String) (f : ℕ → Option LayoutResult) {l : TargetLayout}
    → or_fail r message f ≡ some (laid_out l)
    → (n : ℕ) × (r ≡ some n) × (f n ≡ some (laid_out l))
or_fail-laid_out none message f h = cc
or_fail-laid_out (some n) message f h = (n, refl, h)

if-laid_out :
    (b : Bool) (message : String) (y : Option LayoutResult) {l : TargetLayout}
    → (if b then some (failed message) else y) ≡ some (laid_out l)
    → (b ≡ false) × (y ≡ some (laid_out l))
if-laid_out true message y h = cc
if-laid_out false message y h = (refl, h)

if-false :
    (b : Bool) (x y : Option LayoutResult) {r : Option LayoutResult}
    → b ≡ false
    → (if b then x else y) ≡ r
    → y ≡ r
if-false true x y e h = cc
if-false false x y e h = h

size_in : Option LayoutResult → ℕ
size_in (some (laid_out l)) = l.size
size_in _ = 0

align_in : Option LayoutResult → ℕ
align_in (some (laid_out l)) = l.align
align_in _ = 0

struct_fields-Placement :
    (lay : Option TypePtr → Option LayoutResult) (packed : Bool) (fields : List StructField)
    (start above : ℕ) (sum : TargetLayout)
    → struct_fields lay packed fields (layout start above) ≡ some (laid_out sum)
    → Placement lay packed fields start above sum
unfolding struct_fields size_in align_in
struct_fields-Placement lay packed [] start above sum h = record {
  layouts = [];
  offsets = [];
  laid = tt;
  placed = none_left (sym (ap size_in h)) (sym (ap align_in h));
}
struct_fields-Placement lay packed (f ∷ fields) start above sum h =
    let (l, is_l, h1) = >>=-laid_out (lay f.type) _ h in
    let (offset, is_offset, h2) = or_fail-laid_out (round_up start (field_align packed l)) _ _ h1 in
    let (fits, h3) = if-laid_out (ltb (uint64_max - l.size) offset) _ _ h2 in
    let rest =
      struct_fields-Placement lay packed fields (offset + l.size)
        (larger (field_align packed l) above) sum h3 in
    let up = round_up-IsRoundUp start (field_align packed l) offset is_offset in
    record {
      layouts = l ∷ rest.layouts;
      offsets = offset ∷ rest.offsets;
      laid = (is_l, rest.laid);
      placed = next_field l offset up.1 rest.placed;
    }

-- The layout of a struct that is no union: of its fields' alignment, 1 where it is packed, and the one
-- that `#repr(c)` asks for, which is 0 where it asks for none, the struct has the larger one.
pub record IsStruct (lay : Option TypePtr → Option LayoutResult) (t : CogType) (l : TargetLayout)
    : Type 0 where
  pub sum : TargetLayout
  pub placement : Placement lay t.struct_repr_c_packed t.fields 0 1 sum
  pub align_is :
      l.align ≡ max (if t.struct_repr_c_packed then 1 else sum.align) t.struct_repr_c_align
  pub size_is : IsRoundUp sum.size l.align l.size

struct_align-max :
    (t : CogType) (n : ℕ)
    → struct_align t n ≡ max (if t.struct_repr_c_packed then 1 else n) t.struct_repr_c_align
unfolding struct_align
struct_align-max t n = larger_of (if t.struct_repr_c_packed then 1 else n) t.struct_repr_c_align
  where
    larger_of : (a r : ℕ) → (if ltb 0 r && ltb a r then r else a) ≡ max a r
    larger_of a r = ground arith

rounded-laid_out :
    (size align : ℕ) (message : String) (l : TargetLayout)
    → rounded size align message ≡ some (laid_out l)
    → (l.align ≡ align) × IsRoundUp size align l.size
unfolding rounded size_in align_in
rounded-laid_out size align message l h =
    let (whole, e, k) = or_fail-laid_out (round_up size align) message _ h in
    let up = round_up-IsRoundUp size align whole e in
    (sym (ap align_in k), subst (IsRoundUp size align) (ap size_in k) up.1)

-- A struct that is no union, if it has a layout, has one for each field in order. Each field lies at
-- the least offset behind the fields in front of it that is a multiple of its alignment (of 1 in a
-- packed struct). The struct has the largest of these alignments and of 1, or the one that `#repr(c)`
-- asks for if that is larger, and the least multiple of it as size that holds all the fields.
pub struct_layout-IsStruct :
    (lay : Option TypePtr → Option LayoutResult) (t : CogType) (l : TargetLayout)
    → t.struct_is_union ≡ false
    → struct_layout lay t ≡ some (laid_out l)
    → IsStruct lay t l
unfolding struct_layout struct_sum
struct_layout-IsStruct lay t l u h =
    let (complete, h1) = if-laid_out t.struct_is_incomplete _ _ h in
    let (sum, h2, h3) = >>=-laid_out (struct_sum lay t) _ h1 in
    let plain : struct_fields lay t.struct_repr_c_packed t.fields (layout 0 1)
        ≡ some (laid_out sum) =
      if-false t.struct_is_union _ _ u h2 in
    let r = rounded-laid_out sum.size (struct_align t sum.align) _ l h3 in
    record {
      sum = sum;
      placement = struct_fields-Placement lay t.struct_repr_c_packed t.fields 0 1 sum plain;
      align_is = r.0 ∙ struct_align-max t sum.align;
      size_is = subst (λ a. IsRoundUp sum.size a l.size) (sym r.0) r.1;
    }
