-- ===== src/Tests/TargetWitnesses.antt =====
-- The theorems on layouts at a struct with a byte and a word.
use coglet.Prelude.{
  ◌==◌, ◌≡◌, refl, false, [], ◌∷◌, Option, none, some, if◌then◌else◌, Bool-cases, inl, inr, arith,
}
use coglet.Target.Config.{TargetArch, TargetOs, TargetAbi, target_config}
use coglet.Target.Info.{
  TargetInfo, target_info_init_common, target_info_validate, target_info_from_config,
  c_long_bits_of,
}
use coglet.Target.Layout.{
  TypeKind, FunctionAbi, TypePtr, CogType, layout, LayoutResult, laid_out, round_up, scalar_align,
  rounded, struct_fields, struct_align, struct_sum, struct_layout, layout_kind, on_stack,
  layout_impl, target_layout_of_type,
}
use coglet.Target.Layout.Bounds.{IsLayout, target_layout_of_type-IsLayout}
use coglet.Target.Layout.Ends.{PlainBacking, target_layout_of_type-Returned}
use coglet.Target.Layout.Fields.{IsStruct, struct_layout-IsStruct}

abbrev plain : TypeKind → CogType
plain kind = record {
  kind = kind;
  element = none;
  array_size = none;
  fields = [];
  struct_repr_c_packed = false;
  struct_repr_c_align = 0;
  struct_is_union = false;
  struct_is_incomplete = false;
  function_abi = FunctionAbi.coglet_abi;
  enum_backing_type = none;
}

abbrev pair : CogType
pair = record (plain TypeKind.type_struct) {
  fields = record { name = []; type = some 2 } ∷ (record { name = []; type = some 3 } ∷ []);
}

abbrev types : TypePtr → CogType
types p =
    if p == 1 then pair else if p == 2 then plain TypeKind.type_u8 else plain TypeKind.type_u32

abbrev linux_info : TargetInfo
linux_info = target_info_init_common 64

target_layout_of_type-IsLayout_example : IsLayout (layout 8 4)
unfolding target_info_init_common target_info_validate target_info_from_config c_long_bits_of
    round_up scalar_align rounded struct_fields struct_align struct_sum struct_layout layout_kind
    on_stack layout_impl target_layout_of_type
target_layout_of_type-IsLayout_example =
    target_layout_of_type-IsLayout (target_config TargetArch.x86_64 TargetOs.linux TargetAbi.sysv)
      linux_info 3 types (some 1) (layout 8 4) refl refl

no_backing : (p : TypePtr) → (types p).enum_backing_type ≡ none
no_backing p = elim (Bool-cases (p == 1)) [
  | inl e ↦ rw e refl
  | inr e ↦ rw e (elim (Bool-cases (p == 2)) [ inl f ↦ rw f refl | inr f ↦ rw f refl ])
]

types-PlainBacking : PlainBacking types
types-PlainBacking p q h k = let nothing = no_backing p in absurd (cc)

target_layout_of_type-Returned_example :
    (x : LayoutResult) × (target_layout_of_type 516 linux_info types (some 1) ≡ some x)
target_layout_of_type-Returned_example =
    target_layout_of_type-Returned 516 linux_info types (some 1) types-PlainBacking (omega arith)

abbrev lay : Option TypePtr → Option LayoutResult
lay none = none
lay (some p) = some (laid_out (if p == 2 then layout 1 1 else layout 4 4))

struct_layout-IsStruct_example : IsStruct lay pair (layout 8 4)
unfolding round_up rounded struct_fields struct_align struct_sum struct_layout
struct_layout-IsStruct_example = struct_layout-IsStruct lay pair (layout 8 4) refl refl
