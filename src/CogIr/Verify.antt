-- ===== src/CogIr/Verify.antt =====
-- src/ir/cog_ir_verify.c: the queries that the checks share. A function that returns `ok` is a Bool;
-- what is written to the list of diagnostics is left out.
pub mod Operations
pub mod Instructions
pub mod Functions
pub mod Bodies
pub mod Modules
pub mod Runs
pub mod Operands
pub mod Defined
pub mod Edges
pub mod Progress
pub mod Sound
use coglet.Prelude.{
  ℕ, ◌+◌, ◌-◌, ◌^◌, Bytes, length, get_elem?, drop, Bool, true, false, not, ◌&&◌, ◌||◌, List, [],
  ◌∷◌, Option, none, some, ltb, leb, ◌==◌, if◌then◌else◌,
}
use coglet.Lexer.Keyword.{codes, bytes_eq}
use coglet.Source.Span.{SourceSpan, source_file_id_invalid, source_span_is_valid}
use coglet.Source.Manager.{SourceFile, source_manager_get}
use coglet.CogIr.Module.{
  CogIrId, id_invalid, CogIrAbiRepresentation, abi_coglet, abi_c, CogIrCallingConvention,
  call_default, call_cdecl, call_stdcall, call_sysv64, call_win64, CogIrLinkage, linkage_internal,
  linkage_external, CogIrFunctionKind, function_declaration, function_definition,
  CogIrAggregateField, CogIrAggregate, CogIrEnumeration, CogIrFunctionType, CogIrTypeKind, ir_void,
  ir_bool, ir_integer, ir_float, ir_pointer, ir_opaque_pointer, ir_array, ir_struct, ir_union,
  ir_enum, ir_function, CogIrType, CogIrAbiTypeKind, abi_type_semantic, abi_type_c_scalar,
  abi_type_pointer, abi_type_opaque_pointer, abi_type_array, abi_type_function, CogIrAbiType,
  CogIrConstKind, const_zero, const_bool, const_integer, const_float32, const_float64, const_null,
  const_array, const_struct, CogIrConstant, CogIrGlobal, CogIrValueKind, value_function_parameter,
  value_block_parameter, value_instruction, CogIrValue, CogIrSlotKind, slot_source_local,
  slot_source_parameter, slot_compiler_temp, CogIrSlot, CogIrBlockParam, IntegerPredicate, cmp_any,
  cmp_signed, cmp_unsigned, ShiftOp, shift_left, shift_right_signed, shift_right_unsigned, CogIrOp,
  op_const, op_function_ref, op_local_addr, op_global_addr, op_field_addr, op_array_elem_addr,
  op_ptr_index_addr, op_load, op_store, op_make_struct, op_make_array, op_extract_field,
  op_extract_element, op_integer_binary, op_integer_unary, op_shift, op_float_binary, op_fneg,
  op_icmp, op_fcmp, op_ptr_compare, op_bool_not, op_cast_checked, op_int_truncate,
  op_ptr_reinterpret, op_ptr_qualify, op_type_query, op_c_vararg_promote, op_asm, op_call,
  CogIrInstruction, CogIrBranchEdge, CogIrSwitchCase, CogIrTerminatorKind, term_none, term_br,
  term_cond_br, term_switch, term_ret, term_trap, term_unreachable, CogIrTerminator, CogIrBlock,
  CogIrFunction, CogIrModule, lookup, cog_ir_get_type, cog_ir_get_abi_type, cog_ir_get_constant,
  cog_ir_get_global, cog_ir_get_function, cog_ir_get_block, cog_ir_get_value, cog_ir_get_slot,
}

-- `pointer && test(*pointer)`
abbrev pub is_some_and : {A : Type 0} → Option A → (A → Bool) → Bool
is_some_and none test = false
is_some_and (some a) test = test a

unfoldable pub string_view_equals : Bytes → Bytes → Bool
string_view_equals a b = bytes_eq a b

abbrev pub between : ℕ → ℕ → ℕ → Bool
between low c high = leb low c && leb c high

-- The loop over the name of a register: all but the last byte.
unfoldable pub is_register_name : Bytes → Bool
is_register_name [] = true
is_register_name (last ∷ []) = true
is_register_name (c ∷ (d ∷ rest)) =
    (between b'a' c b'z' || (between b'A' c b'Z' || (between b'0' c b'9' || c == b'_')))
    && is_register_name (d ∷ rest)

abbrev byte_is : Bytes → ℕ → ℕ → Bool
byte_is s i c = is_some_and (get_elem? s i) λ d. d == c

unfoldable pub asm_constraint_is_valid_for_ir : Bytes → Bool → Bool
asm_constraint_is_valid_for_ir constraint is_output =
    let offset = if is_output then 1 else 0 in
    if is_output && string_view_equals constraint (codes "=r")
    then true
    else if not is_output && string_view_equals constraint (codes "r")
    then true
    else if (is_output && ltb (length constraint) 4) || (not is_output && ltb (length constraint) 3)
    then false
    else if is_output && not (byte_is constraint 0 b'=')
    then false
    else if not (byte_is constraint offset b'{')
        || not (byte_is constraint (length constraint - 1) b'}')
    then false
    else if leb (length constraint) (offset + 2)
    then false
    else is_register_name (drop (offset + 1) constraint)

unfoldable pub valid_span : CogIrModule → SourceSpan → Bool
valid_span m span =
    if not (source_span_is_valid span)
    then span.file_id == source_file_id_invalid
    else is_some_and (source_manager_get m.sources span.file_id)
        λ file. leb span.start_offset span.end_offset && leb span.end_offset file.length

unfoldable pub optional_abi_matches_runtime : CogIrModule → CogIrId → CogIrId → Bool
optional_abi_matches_runtime m abi_type runtime_type =
    if abi_type == id_invalid
    then true
    else is_some_and (cog_ir_get_abi_type m abi_type) λ abi. abi.runtime_type == runtime_type

abbrev pub is_integer : CogIrType → Bool
is_integer type = elim type.kind [ ir_integer bits is_signed ↦ true | _ ↦ false ]

abbrev pub is_float : CogIrType → Bool
is_float type = elim type.kind [ ir_float bits ↦ true | _ ↦ false ]

abbrev pub is_bool : CogIrType → Bool
is_bool type = elim type.kind [ ir_bool ↦ true | _ ↦ false ]

abbrev pub is_void : CogIrType → Bool
is_void type = elim type.kind [ ir_void ↦ true | _ ↦ false ]

abbrev pub is_enum : CogIrType → Bool
is_enum type = elim type.kind [ ir_enum enumeration ↦ true | _ ↦ false ]

unfoldable pub is_integer_type : CogIrModule → CogIrId → Bool
is_integer_type m id = is_some_and (cog_ir_get_type m id) is_integer

unfoldable pub is_float_type : CogIrModule → CogIrId → Bool
is_float_type m id = is_some_and (cog_ir_get_type m id) is_float

unfoldable pub is_pointer_comparable_type : CogIrModule → CogIrId → Bool
is_pointer_comparable_type m id = is_some_and (cog_ir_get_type m id) λ type. elim type.kind [
  | ir_pointer pointee is_readonly is_volatile ↦ true
  | ir_opaque_pointer is_readonly is_volatile ↦ true
  | ir_function f ↦ true
  | _ ↦ false
]

-- What `pointer_pointee` writes to `out`, `readonly` and `volatile_access`.
pub record Pointee : Type 0 where
  pub type : CogIrId
  pub readonly : Bool
  pub volatile_access : Bool

unfoldable pub pointee_of : CogIrTypeKind → Option Pointee
pointee_of (ir_pointer pointee is_readonly is_volatile) =
    some (record { type = pointee; readonly = is_readonly; volatile_access = is_volatile })
pointee_of _ = none

unfoldable pub pointer_pointee : CogIrModule → CogIrId → Option Pointee
pointer_pointee m pointer_type = elim (cog_ir_get_type m pointer_type) [
  | none ↦ none
  | some type ↦ pointee_of type.kind
]

-- The width of an integer type, and 0 for another.
abbrev pub integer_bits_of : CogIrType → ℕ
integer_bits_of type = elim type.kind [ ir_integer bits is_signed ↦ bits | _ ↦ 0 ]

abbrev backing_width : CogIrModule → CogIrId → ℕ
backing_width m id = elim (cog_ir_get_type m id) [
  | none ↦ 0
  | some backing ↦ integer_bits_of backing
]

unfoldable pub width_of : CogIrModule → CogIrTypeKind → ℕ
width_of m (ir_integer bits is_signed) = bits
width_of m (ir_enum enumeration) = backing_width m enumeration.backing_type
width_of m _ = 0

unfoldable pub integer_width : CogIrModule → CogIrId → ℕ
integer_width m id = elim (cog_ir_get_type m id) [ none ↦ 0 | some type ↦ width_of m type.kind ]

unfoldable pub type_has_runtime_object_layout : CogIrTypeKind → Bool
type_has_runtime_object_layout ir_void = false
type_has_runtime_object_layout (ir_function f) = elim f.abi [ abi_c ↦ true | abi_coglet ↦ false ]
type_has_runtime_object_layout (ir_struct a) = a.is_complete && not a.is_incomplete
type_has_runtime_object_layout (ir_union a) = a.is_complete && not a.is_incomplete
type_has_runtime_object_layout _ = true

-- The producer of an instruction's value is in its block, and its result is not discarded.
unfoldable pub result_is_kept : CogIrFunction → CogIrValue → Bool
result_is_kept function value =
    is_some_and (get_elem? function.blocks value.block) λ producer_block.
      is_some_and (get_elem? producer_block.instructions value.ordinal)
        λ producer. not producer.result_is_discarded

unfoldable pub is_available : CogIrFunction → CogIrId → ℕ → CogIrValue → CogIrValueKind → Bool
is_available function block ordinal value value_function_parameter = true
is_available function block ordinal value value_block_parameter = value.block == block
is_available function block ordinal value value_instruction =
    value.block == block && (ltb value.ordinal ordinal && result_is_kept function value)

unfoldable pub value_available : CogIrFunction → CogIrId → ℕ → CogIrId → Bool
value_available function block ordinal id =
    is_some_and (cog_ir_get_value function id)
      λ value. is_available function block ordinal value value.kind

-- `(size_t)-1`
abbrev pub at_the_end : ℕ
at_the_end = 2 ^ 64 - 1

unfoldable pub terminator_value_available : CogIrFunction → CogIrId → CogIrId → Bool
terminator_value_available function block id = value_available function block at_the_end id
