-- ===== src/CogIr/Verify/Functions.antt =====
-- `verify_instruction`, `verify_edge` and `verify_function` of src/ir/cog_ir_verify.c.
use coglet.Prelude.{
  ℕ, Bool, true, false, not, ◌&&◌, ◌||◌, List, [], ◌∷◌, Option, none, some, ◌==◌, if◌then◌else◌,
}
use coglet.CogIr.Module.{
  CogIrId, id_invalid, CogIrTypeKind, ir_bool, ir_integer, ir_enum, CogIrValueKind,
  value_instruction, CogIrBlockParam, CogIrOp, op_const, op_function_ref, op_local_addr,
  op_global_addr, op_field_addr, op_array_elem_addr, op_ptr_index_addr, op_load, op_store,
  op_make_struct, op_make_array, op_extract_field, op_extract_element, op_integer_binary,
  op_integer_unary, op_shift, op_float_binary, op_fneg, op_icmp, op_fcmp, op_ptr_compare,
  op_bool_not, op_cast_checked, op_int_truncate, op_ptr_reinterpret, op_ptr_qualify, op_type_query,
  op_c_vararg_promote, op_asm, op_call, CogIrInstruction, CogIrBranchEdge, CogIrSwitchCase,
  CogIrTerminatorKind, term_none, term_br, term_cond_br, term_switch, term_ret, term_trap,
  term_unreachable, CogIrBlock, CogIrFunction, CogIrModule, cog_ir_get_type, cog_ir_get_constant,
  cog_ir_get_block, cog_ir_get_value,
}
use coglet.CogIr.Verify.{
  is_some_and, valid_span, is_void, value_available, terminator_value_available,
}
use coglet.CogIr.Verify.Operations.{
  typed_value, const_ok, function_ref_ok, type_query_ok, local_addr_ok, global_addr_ok, load_ok,
  store_ok, integer_binary_ok, integer_unary_ok, shift_ok, float_binary_ok, fneg_ok, icmp_ok,
  fcmp_ok, ptr_compare_ok, bool_not_ok,
}
use coglet.CogIr.Verify.Instructions.{
  kind_of, ptr_qualify_ok, cast_checked_ok, int_truncate_ok, ptr_reinterpret_ok,
  c_vararg_promote_ok, asm_ok, call_ok, field_addr_ok, array_elem_addr_ok, ptr_index_addr_ok,
  make_struct_ok, make_array_ok, extract_field_ok, extract_element_ok,
}

abbrev is_instruction_value : CogIrValueKind → Bool
is_instruction_value value_instruction = true
is_instruction_value _ = false

unfoldable pub result_ok : CogIrFunction → CogIrBlock → ℕ → CogIrInstruction → Bool
result_ok f block ordinal instruction =
    if instruction.result_type == id_invalid
    then instruction.result == id_invalid && not instruction.result_is_discarded
    else is_some_and (cog_ir_get_value f instruction.result) (λ result.
      result.type == instruction.result_type
      && (is_instruction_value result.kind
          && (result.block == block.id && result.ordinal == ordinal)))

-- The `switch` on the operation.
unfoldable pub operation_ok :
    CogIrModule → CogIrFunction → (CogIrId → Bool) → CogIrId → CogIrOp → Bool
operation_ok m f available t (op_const id) = const_ok m t id
operation_ok m f available t (op_function_ref id) = function_ref_ok m t id
operation_ok m f available t (op_local_addr id) = local_addr_ok m f t id
operation_ok m f available t (op_global_addr id) = global_addr_ok m t id
operation_ok m f available t (op_field_addr base n) = available base && field_addr_ok m f t base n
operation_ok m f available t (op_array_elem_addr base i) =
    available base && (available i && array_elem_addr_ok m f t base i)
operation_ok m f available t (op_ptr_index_addr base i) =
    available base && (available i && ptr_index_addr_ok m f t base i)
operation_ok m f available t (op_load a v) = available a && load_ok m f t a v
operation_ok m f available t (op_store a x v) = available a && (available x && store_ok m f t a x v)
operation_ok m f available t (op_make_struct ids) = make_struct_ok f available ids (kind_of m t)
operation_ok m f available t (op_make_array ids) = make_array_ok f available ids (kind_of m t)
operation_ok m f available t (op_extract_field a n) = available a && extract_field_ok m f t a n
operation_ok m f available t (op_extract_element a n) = available a && extract_element_ok m f t a n
operation_ok m f available t (op_integer_binary l r) =
    available l && (available r && integer_binary_ok m f t l r)
operation_ok m f available t (op_integer_unary x) = available x && integer_unary_ok m f t x
operation_ok m f available t (op_shift op l r) =
    available l && (available r && shift_ok m f t op l r)
operation_ok m f available t (op_float_binary l r) =
    available l && (available r && float_binary_ok m f t l r)
operation_ok m f available t (op_fneg x) = available x && fneg_ok m f t x
operation_ok m f available t (op_icmp op l r) = available l && (available r && icmp_ok m f t op l r)
operation_ok m f available t (op_fcmp l r) = available l && (available r && fcmp_ok m f t l r)
operation_ok m f available t (op_ptr_compare l r) =
    available l && (available r && ptr_compare_ok m f t l r)
operation_ok m f available t (op_bool_not x) = available x && bool_not_ok m f t x
operation_ok m f available t (op_cast_checked x u) = available x && cast_checked_ok m f t x u
operation_ok m f available t (op_int_truncate x u) = available x && int_truncate_ok m f t x u
operation_ok m f available t (op_ptr_reinterpret x u) = available x && ptr_reinterpret_ok m f t x u
operation_ok m f available t (op_ptr_qualify x u) = available x && ptr_qualify_ok m f t x u
operation_ok m f available t (op_type_query u) = type_query_ok m t u
operation_ok m f available t (op_c_vararg_promote x u) =
    available x && c_vararg_promote_ok m f t x u
operation_ok m f available t (op_asm output inputs) = asm_ok m f available t output inputs
operation_ok m f available t (op_call callee ids) = call_ok m f available t callee ids

unfoldable pub verify_instruction :
    CogIrModule → CogIrFunction → CogIrBlock → ℕ → CogIrInstruction → Bool
verify_instruction m f block ordinal instruction =
    valid_span m instruction.span
    && (result_ok f block ordinal instruction
        && operation_ok m f (value_available f block.id ordinal) instruction.result_type
            instruction.op)

-- The loop of `verify_edge` over the arguments, with the target's parameters.
unfoldable pub edge_arguments_ok :
    CogIrFunction → (CogIrId → Bool) → List CogIrBlockParam → List CogIrId → Bool
edge_arguments_ok f available [] [] = true
edge_arguments_ok f available (parameter ∷ parameters) (id ∷ arguments) =
    (is_some_and (cog_ir_get_value f id) λ value. value.type == parameter.type)
    && (available id && edge_arguments_ok f available parameters arguments)
edge_arguments_ok f available _ _ = false

unfoldable pub verify_edge : CogIrFunction → CogIrId → CogIrBranchEdge → Bool
verify_edge f from edge = is_some_and (cog_ir_get_block f edge.target) λ target.
    edge_arguments_ok f (terminator_value_available f from) target.parameters edge.arguments

-- A condition or a switch value: `value->id` is what is asked for, so the value found must be there
-- under its own id.
abbrev pub branch_value_ok :
    CogIrModule → CogIrFunction → CogIrId → CogIrId → (CogIrTypeKind → Bool) → Bool
branch_value_ok m f from id test =
    typed_value m f id λ value type. terminator_value_available f from value.id && test type.kind

abbrev pub is_condition : CogIrTypeKind → Bool
is_condition ir_bool = true
is_condition _ = false

abbrev pub is_switchable : CogIrTypeKind → Bool
is_switchable (ir_integer bits is_signed) = true
is_switchable ir_bool = true
is_switchable (ir_enum e) = true
is_switchable _ = false

abbrev pub key_listed : CogIrId → List CogIrId → Bool
key_listed key [] = false
key_listed key (k ∷ keys) = k == key || key_listed key keys

-- The loop over the cases; `keys` are those of the cases in front.
unfoldable pub cases_ok :
    CogIrModule → CogIrFunction → CogIrId → CogIrId → List CogIrId → List CogIrSwitchCase → Bool
cases_ok m f from value_id keys [] = true
cases_ok m f from value_id keys (c ∷ cases) =
    (is_some_and (cog_ir_get_constant m c.key)
      λ key. is_some_and (cog_ir_get_value f value_id) λ value. key.type == value.type)
    && (not (key_listed c.key keys)
        && (verify_edge f from c.edge && cases_ok m f from value_id (c.key ∷ keys) cases))

-- `ret` in a void function, and in one with a result.
unfoldable pub returns_nothing : Option CogIrId → Bool
returns_nothing none = true
returns_nothing (some id) = false

unfoldable pub returned_value_ok : CogIrFunction → CogIrId → CogIrId → Option CogIrId → Bool
returned_value_ok f from result_type none = false
returned_value_ok f from result_type (some id) =
    terminator_value_available f from id
    && is_some_and (cog_ir_get_value f id) λ value. value.type == result_type

unfoldable pub return_ok : CogIrModule → CogIrFunction → CogIrId → CogIrId → Option CogIrId → Bool
return_ok m f from result_type value = is_some_and (cog_ir_get_type m result_type) λ return_type.
    if is_void return_type
    then returns_nothing value
    else returned_value_ok f from result_type value

unfoldable pub terminator_ok :
    CogIrModule → CogIrFunction → CogIrId → CogIrId → CogIrTerminatorKind → Bool
terminator_ok m f from result_type term_none = false
terminator_ok m f from result_type (term_br edge) = verify_edge f from edge
terminator_ok m f from result_type (term_cond_br condition if_true if_false) =
    branch_value_ok m f from condition is_condition
    && (verify_edge f from if_true && verify_edge f from if_false)
terminator_ok m f from result_type (term_switch value cases default_edge) =
    branch_value_ok m f from value is_switchable
    && (cases_ok m f from value [] cases && verify_edge f from default_edge)
terminator_ok m f from result_type (term_ret value) = return_ok m f from result_type value
terminator_ok m f from result_type term_trap = true
terminator_ok m f from result_type term_unreachable = true
