-- ===== src/CogIr/Verify/Modules.antt =====
-- `constant_matches_type` and `cog_ir_verify` of src/ir/cog_ir_verify.c.
use coglet.Prelude.{
  ℕ, ◌+◌, ◌/◌, ◌^◌, length, Bool, true, false, not, ◌&&◌, ◌||◌, List, [], ◌∷◌, none, some, ltb,
  ◌==◌, if◌then◌else◌,
}
use coglet.Target.Info.{target_info_validate}
use coglet.CogIr.Module.{
  CogIrId, id_invalid, abi_coglet, abi_c, CogIrCallingConvention, call_default, call_stdcall,
  CogIrAggregateField, CogIrAggregate, CogIrTypeKind, ir_integer, ir_float, ir_pointer,
  ir_opaque_pointer, ir_array, ir_struct, ir_union, ir_enum, ir_function, CogIrType, CogIrAbiType,
  CogIrConstKind, const_zero, const_bool, const_integer, const_float32, const_float64, const_null,
  const_array, const_struct, CogIrConstant, CogIrGlobal, CogIrFunction, CogIrModule,
  cog_ir_get_type, cog_ir_get_abi_type, cog_ir_get_constant, cog_ir_get_function,
}
use coglet.CogIr.Verify.{
  is_some_and, valid_span, optional_abi_matches_runtime, is_bool, is_void, is_integer_type,
  integer_width,
}
use coglet.CogIr.Verify.Operations.{same_flag}
use coglet.CogIr.Verify.Bodies.{
  abi_eq, calling_convention_eq, is_definition, is_external, verify_function,
}

-- The loops over the elements of an array and over the fields of a struct.
unfoldable pub elements_match : CogIrModule → CogIrId → List CogIrId → Bool
elements_match m element_type [] = true
elements_match m element_type (id ∷ ids) =
    (is_some_and (cog_ir_get_constant m id) λ element. element.type == element_type)
    && elements_match m element_type ids

unfoldable pub fields_match : CogIrModule → List CogIrAggregateField → List CogIrId → Bool
fields_match m [] [] = true
fields_match m (field ∷ fields) (id ∷ ids) =
    (is_some_and (cog_ir_get_constant m id) λ constant. constant.type == field.type)
    && fields_match m fields ids
fields_match m _ _ = false

abbrev is_nullable : CogIrTypeKind → Bool
is_nullable (ir_pointer p r v) = true
is_nullable (ir_opaque_pointer r v) = true
is_nullable (ir_function f) = true
is_nullable _ = false

abbrev float_bits_are : CogIrTypeKind → ℕ → Bool
float_bits_are (ir_float bits) n = bits == n
float_bits_are _ n = false

-- `integer_bits >> bits` is the quotient by 2 ^ bits.
unfoldable pub integer_bits_fit : ℕ → ℕ → Bool
integer_bits_fit bits integer_bits =
    not (bits == 0) && not (ltb bits 64 && not (integer_bits / 2 ^ bits == 0))

unfoldable pub array_constant_ok : CogIrModule → List CogIrId → CogIrTypeKind → Bool
array_constant_ok m elements (ir_array element_type n) =
    length elements == n && elements_match m element_type elements
array_constant_ok m elements _ = false

unfoldable pub struct_constant_ok : CogIrModule → List CogIrId → CogIrTypeKind → Bool
struct_constant_ok m elements (ir_struct a) = a.is_complete && fields_match m a.fields elements
struct_constant_ok m elements _ = false

unfoldable pub constant_kind_ok : CogIrModule → CogIrId → CogIrType → CogIrConstKind → Bool
constant_kind_ok m id type const_zero = not (is_void type)
constant_kind_ok m id type const_bool = is_bool type
constant_kind_ok m id type (const_integer integer_bits) =
    integer_bits_fit (integer_width m id) integer_bits
constant_kind_ok m id type const_float32 = float_bits_are type.kind 32
constant_kind_ok m id type const_float64 = float_bits_are type.kind 64
constant_kind_ok m id type const_null = is_nullable type.kind
constant_kind_ok m id type (const_array elements) = array_constant_ok m elements type.kind
constant_kind_ok m id type (const_struct elements) = struct_constant_ok m elements type.kind

unfoldable pub constant_matches_type : CogIrModule → CogIrConstant → Bool
constant_matches_type m constant =
    is_some_and (cog_ir_get_type m constant.type)
      λ type. constant_kind_ok m constant.type type constant.kind

abbrev type_exists : CogIrModule → CogIrId → Bool
type_exists m id = is_some_and (cog_ir_get_type m id) λ type. true

unfoldable pub aggregate_fields_ok : CogIrModule → List CogIrAggregateField → Bool
aggregate_fields_ok m [] = true
aggregate_fields_ok m (field ∷ fields) =
    (type_exists m field.type && valid_span m field.span) && aggregate_fields_ok m fields

unfoldable pub aggregate_ok : CogIrModule → CogIrAggregate → Bool
aggregate_ok m a =
    not (same_flag a.is_complete a.is_incomplete)
    && (not (a.is_incomplete && not a.is_repr_c) && aggregate_fields_ok m a.fields)

unfoldable pub parameter_types_ok : CogIrModule → List CogIrId → Bool
parameter_types_ok m [] = true
parameter_types_ok m (id ∷ ids) =
    (is_some_and (cog_ir_get_type m id) λ type. not (is_void type)) && parameter_types_ok m ids

abbrev is_stdcall : CogIrCallingConvention → Bool
is_stdcall call_stdcall = true
is_stdcall _ = false

unfoldable pub type_kind_ok : CogIrModule → CogIrTypeKind → Bool
type_kind_ok m (ir_integer bits is_signed) = bits == 8 || (bits == 16 || (bits == 32 || bits == 64))
type_kind_ok m (ir_float bits) = bits == 32 || bits == 64
type_kind_ok m (ir_pointer pointee is_readonly is_volatile) = type_exists m pointee
type_kind_ok m (ir_array element_type n) = type_exists m element_type
type_kind_ok m (ir_struct a) = aggregate_ok m a
type_kind_ok m (ir_union a) = aggregate_ok m a
type_kind_ok m (ir_enum e) =
    is_integer_type m e.backing_type
    && not (e.is_repr_c && not (is_some_and (cog_ir_get_abi_type m e.backing_abi_type) λ abi. true))
type_kind_ok m (ir_function type) =
    not (type.is_variadic && (not (abi_eq type.abi abi_c) || is_stdcall type.calling_convention))
    && (type_exists m type.result_type && parameter_types_ok m type.parameter_types)
type_kind_ok m _ = true

unfoldable pub types_ok : CogIrModule → ℕ → List CogIrType → Bool
types_ok m i [] = true
types_ok m i (type ∷ types) =
    (type.id == i && (valid_span m type.span && type_kind_ok m type.kind))
    && types_ok m (i + 1) types

unfoldable pub abi_types_ok : CogIrModule → ℕ → List CogIrAbiType → Bool
abi_types_ok m i [] = true
abi_types_ok m i (type ∷ types) =
    (type.id == i && type_exists m type.runtime_type) && abi_types_ok m (i + 1) types

unfoldable pub constants_ok : CogIrModule → ℕ → List CogIrConstant → Bool
constants_ok m i [] = true
constants_ok m i (constant ∷ constants) =
    (constant.id == i && constant_matches_type m constant) && constants_ok m (i + 1) constants

abbrev is_zero_constant : CogIrConstKind → Bool
is_zero_constant const_zero = true
is_zero_constant _ = false

unfoldable pub global_ok : CogIrModule → CogIrGlobal → Bool
global_ok m global =
    type_exists m global.type
    && (valid_span m global.span
        && (optional_abi_matches_runtime m global.abi_type global.type
            && is_some_and (cog_ir_get_constant m global.static_initializer) λ initializer.
              initializer.type == global.type
              && (global.is_compiler_generated || is_zero_constant initializer.kind)))

unfoldable pub globals_ok : CogIrModule → ℕ → List CogIrGlobal → Bool
globals_ok m i [] = true
globals_ok m i (global ∷ globals) =
    (global.id == i && global_ok m global) && globals_ok m (i + 1) globals

unfoldable pub functions_ok : CogIrModule → ℕ → List CogIrFunction → Bool
functions_ok m i [] = true
functions_ok m i (f ∷ functions) =
    (f.id == i && verify_function m f) && functions_ok m (i + 1) functions

abbrev is_s32 : CogIrTypeKind → Bool
is_s32 (ir_integer bits is_signed) = bits == 32 && is_signed
is_s32 _ = false

-- The type of an entry or init function: no parameters, and a result with the property.
abbrev starts_with : CogIrModule → CogIrTypeKind → (CogIrType → Bool) → Bool
starts_with m (ir_function type) test =
    abi_eq type.abi abi_coglet
    && (calling_convention_eq type.calling_convention call_default
        && (not type.is_variadic
            && (length type.parameter_types == 0
                && is_some_and (cog_ir_get_type m type.result_type) test)))
starts_with m _ test = false

abbrev internal_definition : CogIrFunction → Bool
internal_definition f = is_definition f.kind && not (is_external f.linkage)

unfoldable pub entry_ok : CogIrModule → Bool
entry_ok m =
    if m.entry_function == id_invalid
    then true
    else is_some_and (cog_ir_get_function m m.entry_function) (λ entry.
      internal_definition entry
      && (not entry.is_compiler_generated
          && (not (m.entry_function == m.init_function)
              && is_some_and (cog_ir_get_type m entry.type)
                  λ type. starts_with m type.kind λ result. is_s32 result.kind)))

unfoldable pub init_ok : CogIrModule → Bool
init_ok m =
    if m.init_function == id_invalid
    then true
    else is_some_and (cog_ir_get_function m m.init_function) (λ init.
      internal_definition init
      && (init.is_compiler_generated
          && is_some_and (cog_ir_get_type m init.type) λ type. starts_with m type.kind is_void))

-- The module and its arena are there.
unfoldable pub cog_ir_verify : CogIrModule → Bool
cog_ir_verify m =
    elim (target_info_validate m.target) [ none ↦ true | some message ↦ false ]
    && (types_ok m 0 m.types
        && (abi_types_ok m 0 m.abi_types
            && (constants_ok m 0 m.constants
                && (globals_ok m 0 m.globals
                    && (functions_ok m 0 m.functions && (entry_ok m && init_ok m))))))
