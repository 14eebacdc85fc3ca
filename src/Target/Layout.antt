-- ===== src/Target/Layout.antt =====
-- src/target/target_layout.c: size and alignment of the types of the language.
-- A `const Type *` is a number, `none` is NULL, and what stands at each is the function `types`; so a
-- graph of types may have cycles, as in C. `stack` with `depth` is the list of the types that are open,
-- innermost first. The fuel counts calls: `none` is a call that does not return.
pub mod Bounds
pub mod Ends
pub mod Fields
use Prim.Native.String.{String}
use coglet.Prelude.{
  ℕ, zero, suc, ◌+◌, ◌-◌, ◌*◌, ◌/◌, ◌^◌, Bytes, length, Bool, true, false, not, ◌&&◌, ◌||◌, List,
  [], ◌∷◌, Option, none, some, ltb, leb, ◌==◌, if◌then◌else◌,
}
use coglet.Target.Info.{TargetInfo, target_info_validate}

pub data TypeKind : Type 0 where
  type_void type_bool type_s8 type_s16 type_s32 type_s64 type_u8 type_u16 type_u32 type_u64 type_f32
        type_f64 type_untyped_int type_untyped_float type_null type_pointer type_opaque_pointer
        type_array type_slice type_named type_struct type_enum type_function :
      TypeKind

pub data FunctionAbi : Type 0 where
  coglet_abi : FunctionAbi
  c_abi : FunctionAbi

abbrev pub TypePtr : Type 0
TypePtr = ℕ

pub record StructField : Type 0 where
  pub name : Bytes
  pub type : Option TypePtr

-- `struct Type`, less what the layout does not read. `array_size` is `none` for -1, that is, for an
-- array with no size.
pub record CogType : Type 0 where
  pub kind : TypeKind
  pub element : Option TypePtr
  pub array_size : Option ℕ
  pub fields : List StructField
  pub struct_repr_c_packed : Bool
  pub struct_repr_c_align : ℕ
  pub struct_is_union : Bool
  pub struct_is_incomplete : Bool
  pub function_abi : FunctionAbi
  pub enum_backing_type : Option TypePtr

pub record TargetLayout : Type 0 where
  pub size : ℕ
  pub align : ℕ

abbrev pub layout : ℕ → ℕ → TargetLayout
layout size align = record { size = size; align = align }

pub data LayoutResult : Type 0 where
  laid_out : TargetLayout → LayoutResult
  failed : String → LayoutResult
  invalid_target : String → LayoutResult

-- `if (!layout_impl(...)) return 0;` in front of the rest.
infixl 5 ◌>>=◌
abbrev pub ◌>>=◌ : Option LayoutResult → (TargetLayout → Option LayoutResult) → Option LayoutResult
none >>= f = none
some (laid_out l) >>= f = f l
some (failed message) >>= f = some (failed message)
some (invalid_target message) >>= f = some (invalid_target message)

abbrev pub uint64_max : ℕ
uint64_max = 2 ^ 64 - 1

unfoldable pub round_up : ℕ → ℕ → Option ℕ
round_up value align =
    if align == 0 || ltb (uint64_max - (align - 1)) value
    then none
    else some ((value + align - 1) / align * align)

unfoldable pub scalar_align : TargetInfo → ℕ → ℕ
scalar_align target bits =
    if bits == 8
    then target.scalar_align_8_bytes
    else if bits == 16
    then target.scalar_align_16_bytes
    else if bits == 32
    then target.scalar_align_32_bytes
    else if bits == 64
    then target.scalar_align_64_bytes
    else 0

abbrev pub larger : ℕ → ℕ → ℕ
larger a b = if ltb b a then a else b

-- `if (!round_up(...)) return fail(message);` in front of the rest.
abbrev pub or_fail : Option ℕ → String → (ℕ → Option LayoutResult) → Option LayoutResult
or_fail none message rest = some (failed message)
or_fail (some n) message rest = rest n

-- `if (!round_up(size, align, &out->size)) return fail(message); out->align = align;`
unfoldable pub rounded : ℕ → ℕ → String → Option LayoutResult
rounded size align message =
    or_fail (round_up size align) message λ whole. some (laid_out (layout whole align))

unfoldable pub pointer_layout : TargetInfo → TargetLayout
pointer_layout target = layout (target.pointer_bits / 8) target.pointer_align_bytes

unfoldable pub slice_layout : TargetInfo → Option LayoutResult
slice_layout target =
    let pointer = pointer_layout target in
    let n = layout (target.pointer_bits / 8) (scalar_align target target.pointer_bits) in
    or_fail (round_up pointer.size n.align) "slice layout size overflows" λ offset.
      if ltb (uint64_max - n.size) offset
      then some (failed "slice layout size overflows")
      else rounded (offset + n.size) (larger pointer.align n.align) "slice layout size overflows"

unfoldable pub array_layout : Option ℕ → Option LayoutResult → Option LayoutResult
array_layout none element = some (failed "unsized array has no object layout")
array_layout (some n) element = element >>= λ e.
    if ltb 0 n && ltb (uint64_max / n) e.size
    then some (failed "array layout size overflows")
    else some (laid_out (layout (e.size * n) e.align))

-- The loops over the fields of a union and of a struct; `lay` is the call of `layout_impl` for a field
-- and `sum` is `size` with `max_align`.
unfoldable pub union_fields :
    (Option TypePtr → Option LayoutResult) → List StructField → TargetLayout → Option LayoutResult
union_fields lay [] sum = some (laid_out sum)
union_fields lay (f ∷ fields) sum = lay f.type >>= λ l.
    union_fields lay fields (layout (larger l.size sum.size) (larger l.align sum.align))

unfoldable pub struct_fields :
    (Option TypePtr → Option LayoutResult)
    → Bool
    → List StructField
    → TargetLayout
    → Option LayoutResult
struct_fields lay packed [] sum = some (laid_out sum)
struct_fields lay packed (f ∷ fields) sum = lay f.type >>= λ l.
    or_fail (round_up sum.size (if packed then 1 else l.align)) "struct layout size overflows"
      λ offset.
        if ltb (uint64_max - l.size) offset
        then some (failed "struct layout size overflows")
        else struct_fields lay packed fields
            (layout (offset + l.size) (larger (if packed then 1 else l.align) sum.align))

-- The alignment of a struct from that of its fields, by its `#repr(c)` attributes.
unfoldable pub struct_align : CogType → ℕ → ℕ
struct_align t max_align =
    let align = if t.struct_repr_c_packed then 1 else max_align in
    if ltb 0 t.struct_repr_c_align && ltb align t.struct_repr_c_align
    then t.struct_repr_c_align
    else align

unfoldable pub struct_sum : (Option TypePtr → Option LayoutResult) → CogType → Option LayoutResult
struct_sum lay t =
    if t.struct_is_union
    then union_fields lay t.fields (layout 0 1)
    else struct_fields lay t.struct_repr_c_packed t.fields (layout 0 1)

unfoldable pub struct_layout :
    (Option TypePtr → Option LayoutResult) → CogType → Option LayoutResult
struct_layout lay t =
    if t.struct_is_incomplete
    then some (failed "incomplete struct has no object layout")
    else struct_sum lay t >>= λ sum.
        rounded sum.size (struct_align t sum.align) "struct layout size overflows"

unfoldable pub function_layout : TargetInfo → FunctionAbi → Option LayoutResult
function_layout target FunctionAbi.c_abi = some (laid_out (pointer_layout target))
function_layout target FunctionAbi.coglet_abi =
    some (failed "ordinary Coglet function has no object layout")

unfoldable pub enum_layout :
    (Option TypePtr → Option LayoutResult) → Option TypePtr → Option LayoutResult
enum_layout lay none = some (failed "enum backing type is unavailable")
enum_layout lay (some backing) = lay (some backing)

-- The `switch`. `inner` lays out a type with this one on the stack, and `same` with the stack as it is.
unfoldable pub layout_kind :
    TargetInfo
    → (Option TypePtr → Option LayoutResult)
    → (Option TypePtr → Option LayoutResult)
    → CogType
    → TypeKind
    → Option LayoutResult
layout_kind target inner same t TypeKind.type_bool =
    some (laid_out (layout 1 (scalar_align target 8)))
layout_kind target inner same t TypeKind.type_s8 =
    some (laid_out (layout 1 (scalar_align target 8)))
layout_kind target inner same t TypeKind.type_u8 =
    some (laid_out (layout 1 (scalar_align target 8)))
layout_kind target inner same t TypeKind.type_s16 =
    some (laid_out (layout 2 (scalar_align target 16)))
layout_kind target inner same t TypeKind.type_u16 =
    some (laid_out (layout 2 (scalar_align target 16)))
layout_kind target inner same t TypeKind.type_s32 =
    some (laid_out (layout 4 (scalar_align target 32)))
layout_kind target inner same t TypeKind.type_u32 =
    some (laid_out (layout 4 (scalar_align target 32)))
layout_kind target inner same t TypeKind.type_f32 =
    some (laid_out (layout 4 (scalar_align target 32)))
layout_kind target inner same t TypeKind.type_s64 =
    some (laid_out (layout 8 (scalar_align target 64)))
layout_kind target inner same t TypeKind.type_u64 =
    some (laid_out (layout 8 (scalar_align target 64)))
layout_kind target inner same t TypeKind.type_f64 =
    some (laid_out (layout 8 (scalar_align target 64)))
layout_kind target inner same t TypeKind.type_pointer = some (laid_out (pointer_layout target))
layout_kind target inner same t TypeKind.type_opaque_pointer =
    some (laid_out (pointer_layout target))
layout_kind target inner same t TypeKind.type_function = function_layout target t.function_abi
layout_kind target inner same t TypeKind.type_array = array_layout t.array_size (inner t.element)
layout_kind target inner same t TypeKind.type_slice = slice_layout target
layout_kind target inner same t TypeKind.type_enum = enum_layout same t.enum_backing_type
layout_kind target inner same t TypeKind.type_struct = struct_layout inner t
layout_kind target inner same t _ = some (failed "type has no concrete object layout")

unfoldable pub on_stack : List TypePtr → TypePtr → Bool
on_stack [] type = false
on_stack (open_type ∷ stack) type = open_type == type || on_stack stack type

abbrev pub max_depth : ℕ
max_depth = 256

unfoldable pub layout_impl :
    ℕ → TargetInfo → (TypePtr → CogType) → List TypePtr → Option TypePtr → Option LayoutResult
layout_impl zero target types stack type = none
layout_impl (suc fuel) target types stack none = some (failed "layout type is null")
layout_impl (suc fuel) target types stack (some p) =
    if leb max_depth (length stack)
    then some (failed "recursive type layout is too deep")
    else if on_stack stack p
    then some (failed "recursive by-value type has no finite layout")
    else layout_kind target (layout_impl fuel target types (p ∷ stack))
        (layout_impl fuel target types stack) (types p) (types p).kind

-- `invalid_target` holds the message that stands in the one of `target_layout_of_type`.
unfoldable pub target_layout_of_type :
    ℕ → TargetInfo → (TypePtr → CogType) → Option TypePtr → Option LayoutResult
target_layout_of_type fuel target types type = elim (target_info_validate target) [
  | some message ↦ some (invalid_target message)
  | none ↦ layout_impl fuel target types [] type
]
