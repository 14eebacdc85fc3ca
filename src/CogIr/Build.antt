-- ===== src/CogIr/Build.antt =====
-- The builder of src/ir/cog_ir.c, as far as it fills the body of a function. The module is mutable and
-- the function is in it; `none` is the failure of the call, which leaves the function as it was. An
-- array that grows is a list; the copies of arguments are left out.
pub mod Registered
pub mod Built
use coglet.Prelude.{
  ℕ, zero, suc, length, get_elem?, Bool, true, false, not, ◌||◌, ◌&&◌, List, [], ◌∷◌, ◌++◌, Option,
  none, some, ltb, leb, ◌==◌, if◌then◌else◌,
}
use coglet.Source.Span.{SourceSpan, source_span_invalid}
use coglet.CogIr.Module.{
  CogIrId, id_invalid, CogIrAbiRepresentation, abi_coglet, abi_c, CogIrCallingConvention,
  call_default, call_cdecl, call_stdcall, call_sysv64, call_win64, CogIrLinkage, linkage_internal,
  linkage_external, CogIrFunctionKind, function_declaration, function_definition,
  CogIrAggregateField, CogIrAggregate, CogIrEnumeration, CogIrFunctionType, CogIrTypeKind, ir_void,
  ir_bool, ir_integer, ir_float, ir_pointer, ir_opaque_pointer, ir_array, ir_struct, ir_union,
  ir_enum, ir_function, CogIrType, CogIrAbiTypeKind, abi_type_semantic, abi_type_c_scalar,
  abi_type_pointer, abi_type_opaque_pointer, abi_type_array, abi_type_function, CogIrAbiType,
  CogIrConstKind, const_zero, const_bool, const_integer, const_float32, const_float64, const_null,
  const_array, const_struct, CogIrConstant, CogIrGlobal, CogIrValueKind, value_function_parameter,
  value_block_parameter, value_instruction, CogIrValue, CogIrSlotKind, slot_source_local,
  slot_source_parameter, slot_compiler_temp, CogIrSlot, CogIrBlockParam, IntegerPredicate, cmp_any,
  cmp_signed, cmp_unsigned, ShiftOp, shift_left, shift_right_signed, shift_right_unsigned, CogIrOp,
  op_const, op_function_ref, op_local_addr, op_global_addr, op_field_addr, op_array_elem_addr,
  op_ptr_index_addr, op_load, op_store, op_make_struct, op_make_array, op_extract_field,
  op_extract_element, op_integer_binary, op_integer_unary, op_shift, op_float_binary, op_fneg,
  op_icmp, op_fcmp, op_ptr_compare, op_bool_not, op_cast_checked, op_int_truncate,
  op_ptr_reinterpret, op_ptr_qualify, op_type_query, op_c_vararg_promote, op_asm, op_call,
  CogIrInstruction, CogIrBranchEdge, CogIrSwitchCase, CogIrTerminatorKind, term_none, term_br,
  term_cond_br, term_switch, term_ret, term_trap, term_unreachable, CogIrTerminator, CogIrBlock,
  CogIrFunction, CogIrModule, lookup, cog_ir_get_type, cog_ir_get_abi_type, cog_ir_get_constant,
  cog_ir_get_global, cog_ir_get_function, cog_ir_get_block, cog_ir_get_value, cog_ir_get_slot,
}

abbrev pub set_at {ℓ} : {A : Type ℓ} → List A → ℕ → A → List A
set_at [] n y = []
set_at (x ∷ xs) zero y = y ∷ xs
set_at (x ∷ xs) (suc n) y = x ∷ set_at xs n y

abbrev pub has_type : CogIrModule → CogIrId → Bool
has_type m type = elim (cog_ir_get_type m type) [ none ↦ false | some t ↦ true ]

abbrev pub new_value : CogIrId → CogIrId → CogIrValueKind → CogIrId → ℕ → CogIrValue
new_value id type kind block ordinal = record {
  id = id;
  type = type;
  abi_type = id_invalid;
  kind = kind;
  block = block;
  ordinal = ordinal;
}

-- The function with a value more, at the next id.
abbrev pub with_value : CogIrFunction → CogIrValue → CogIrFunction
with_value f value = record f { values = f.values ++ (value ∷ []) }

unfoldable pub append_value :
    CogIrModule
    → CogIrFunction
    → CogIrId
    → CogIrValueKind
    → CogIrId
    → ℕ
    → Option (CogIrId × CogIrFunction)
append_value m f type kind block ordinal =
    let id = length f.values in
    if not (has_type m type) || leb id_invalid id
    then none
    else some (id, with_value f (new_value id type kind block ordinal))

abbrev pub new_block : CogIrId → SourceSpan → CogIrBlock
new_block id span = record {
  id = id;
  span = span;
  parameters = [];
  instructions = [];
  terminator = record { kind = term_none; span = source_span_invalid };
}

abbrev pub takes_blocks : CogIrFunctionKind → Bool
takes_blocks function_definition = true
takes_blocks function_declaration = false

abbrev pub with_new_block : CogIrFunction → SourceSpan → CogIrFunction
with_new_block f span =
    let id = length f.blocks in
    record f {
      blocks = f.blocks ++ (new_block id span ∷ []);
      entry_block = if f.entry_block == id_invalid then id else f.entry_block;
    }

unfoldable pub cog_ir_add_block : CogIrFunction → SourceSpan → Option (CogIrId × CogIrFunction)
cog_ir_add_block f span =
    let id = length f.blocks in
    if not (takes_blocks f.kind) || leb id_invalid id
    then none
    else some (id, with_new_block f span)

-- The block at `id` with other contents.
abbrev pub with_block : CogIrFunction → CogIrId → CogIrBlock → CogIrFunction
with_block f id block = record f { blocks = set_at f.blocks id block }

abbrev pub with_parameter : CogIrBlock → CogIrId → CogIrId → CogIrBlock
with_parameter block value type = record block {
  parameters = block.parameters ++ (record { value = value; type = type } ∷ []);
}

unfoldable pub cog_ir_add_block_parameter :
    CogIrModule → CogIrFunction → CogIrId → CogIrId → Option (CogIrId × CogIrFunction)
cog_ir_add_block_parameter m f id type = elim (cog_ir_get_block f id) [
  | none ↦ none
  | some block ↦ elim (append_value m f type value_block_parameter id (length block.parameters)) [
    | none ↦ none
    | some (value, f') ↦ some (value, with_block f' id (with_parameter block value type))
  ]
]

abbrev pub with_instruction : CogIrBlock → CogIrInstruction → CogIrBlock
with_instruction block i = record block { instructions = block.instructions ++ (i ∷ []) }

abbrev pub is_open : CogIrTerminatorKind → Bool
is_open term_none = true
is_open _ = false

-- `cog_ir_emit` for a block that is found; the first component is `*out_result`.
unfoldable pub emit_in :
    CogIrModule
    → CogIrFunction
    → CogIrId
    → CogIrInstruction
    → CogIrBlock
    → Option (CogIrId × CogIrFunction)
emit_in m f id input block =
    if not (is_open block.terminator.kind)
    then none
    else if input.result_type == id_invalid
    then some (
      id_invalid,
      with_block f id (with_instruction block (record input { result = id_invalid })),
    )
    else elim (append_value m f input.result_type value_instruction id
        (length block.instructions)) [
          | none ↦ none
          | some (value, f') ↦
              some
                (value, with_block f' id (with_instruction block (record input { result = value })))
        ]

unfoldable pub cog_ir_emit :
    CogIrModule → CogIrFunction → CogIrId → CogIrInstruction → Option (CogIrId × CogIrFunction)
cog_ir_emit m f id input = elim (cog_ir_get_block f id) [
  | none ↦ none
  | some block ↦ emit_in m f id input block
]

unfoldable pub cog_ir_set_terminator :
    CogIrFunction → CogIrId → CogIrTerminator → Option CogIrFunction
cog_ir_set_terminator f id input = elim (cog_ir_get_block f id) [
  | none ↦ none
  | some block ↦
      if is_open input.kind || not (is_open block.terminator.kind)
      then none
      else some (with_block f id (record block { terminator = input }))
]
