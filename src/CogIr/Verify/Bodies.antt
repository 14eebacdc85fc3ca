-- ===== src/CogIr/Verify/Bodies.antt =====
-- `verify_function` of src/ir/cog_ir_verify.c. The index of each loop is an argument.
use coglet.Prelude.{
  ℕ, ◌+◌, ◌-◌, ◌^◌, length, get_elem?, Bool, true, false, not, ◌&&◌, List, [], ◌∷◌, ◌==◌,
  if◌then◌else◌,
}
use coglet.CogIr.Module.{
  CogIrId, id_invalid, CogIrAbiRepresentation, abi_coglet, abi_c, CogIrCallingConvention,
  call_default, call_cdecl, call_stdcall, call_sysv64, call_win64, CogIrLinkage, linkage_internal,
  linkage_external, CogIrFunctionKind, function_declaration, function_definition, CogIrFunctionType,
  CogIrTypeKind, ir_function, CogIrValueKind, value_function_parameter, value_block_parameter,
  CogIrValue, CogIrSlotKind, slot_source_parameter, CogIrSlot, CogIrBlockParam, CogIrInstruction,
  CogIrBlock, CogIrFunction, CogIrModule, cog_ir_get_type, cog_ir_get_block, cog_ir_get_value,
}
use coglet.CogIr.Verify.{is_some_and, valid_span, optional_abi_matches_runtime}
use coglet.CogIr.Verify.Operations.{same_flag}
use coglet.CogIr.Verify.Functions.{verify_instruction, terminator_ok}

-- `COG_IR_PARAMETER_INDEX_INVALID`
abbrev parameter_index_invalid : ℕ
parameter_index_invalid = 2 ^ 64 - 1

unfoldable pub abi_eq : CogIrAbiRepresentation → CogIrAbiRepresentation → Bool
abi_eq abi_coglet abi_coglet = true
abi_eq abi_c abi_c = true
abi_eq _ _ = false

unfoldable pub calling_convention_eq : CogIrCallingConvention → CogIrCallingConvention → Bool
calling_convention_eq call_default call_default = true
calling_convention_eq call_cdecl call_cdecl = true
calling_convention_eq call_stdcall call_stdcall = true
calling_convention_eq call_sysv64 call_sysv64 = true
calling_convention_eq call_win64 call_win64 = true
calling_convention_eq _ _ = false

unfoldable pub signature_ok : CogIrFunction → CogIrFunctionType → Bool
signature_ok f type =
    abi_eq f.abi type.abi
    && (calling_convention_eq f.calling_convention type.calling_convention
        && (same_flag f.is_variadic type.is_variadic
            && length f.parameters == length type.parameter_types))

abbrev pub is_definition : CogIrFunctionKind → Bool
is_definition function_definition = true
is_definition function_declaration = false

abbrev pub is_external : CogIrLinkage → Bool
is_external linkage_external = true
is_external linkage_internal = false

unfoldable pub value_abis_ok : CogIrModule → List CogIrValue → Bool
value_abis_ok m [] = true
value_abis_ok m (value ∷ values) =
    optional_abi_matches_runtime m value.abi_type value.type && value_abis_ok m values

abbrev is_function_parameter : CogIrValueKind → Bool
is_function_parameter value_function_parameter = true
is_function_parameter _ = false

-- The loop over the parameters, with their types.
unfoldable pub parameters_ok : CogIrFunction → ℕ → List CogIrId → List CogIrId → Bool
parameters_ok f i types [] = true
parameters_ok f i [] (id ∷ ids) = false
parameters_ok f i (type ∷ types) (id ∷ ids) =
    (is_some_and (cog_ir_get_value f id)
      λ value. is_function_parameter value.kind && (value.ordinal == i && value.type == type))
    && parameters_ok f (i + 1) types ids

unfoldable pub slot_parameter_ok : CogIrFunctionType → CogIrSlot → CogIrSlotKind → Bool
slot_parameter_ok type slot slot_source_parameter =
    is_some_and (get_elem? type.parameter_types slot.parameter_index) λ t. slot.type == t
slot_parameter_ok type slot _ = slot.parameter_index == parameter_index_invalid

unfoldable pub slots_ok : CogIrModule → CogIrFunctionType → ℕ → List CogIrSlot → Bool
slots_ok m type i [] = true
slots_ok m type i (slot ∷ slots) =
    (slot.id == i
      && (slot_parameter_ok type slot slot.kind
          && ((is_some_and (cog_ir_get_type m slot.type) λ t. true)
              && (valid_span m slot.span
                  && optional_abi_matches_runtime m slot.abi_type slot.type))))
    && slots_ok m type (i + 1) slots

abbrev is_block_parameter : CogIrValueKind → Bool
is_block_parameter value_block_parameter = true
is_block_parameter _ = false

unfoldable pub block_parameters_ok :
    CogIrModule → CogIrFunction → CogIrBlock → ℕ → List CogIrBlockParam → Bool
block_parameters_ok m f block p [] = true
block_parameters_ok m f block p (param ∷ params) =
    (is_some_and (cog_ir_get_value f param.value) λ value.
      is_block_parameter value.kind
      && (value.block == block.id
          && (value.ordinal == p
              && (value.type == param.type
                  && is_some_and (cog_ir_get_type m param.type) λ t. true))))
    && block_parameters_ok m f block (p + 1) params

unfoldable pub instructions_ok :
    CogIrModule → CogIrFunction → CogIrBlock → ℕ → List CogIrInstruction → Bool
instructions_ok m f block i [] = true
instructions_ok m f block i (instruction ∷ instructions) =
    verify_instruction m f block i instruction && instructions_ok m f block (i + 1) instructions

unfoldable pub block_ok : CogIrModule → CogIrFunction → CogIrFunctionType → ℕ → CogIrBlock → Bool
block_ok m f type b block =
    block.id == b
    && (valid_span m block.span
        && (block_parameters_ok m f block 0 block.parameters
            && (instructions_ok m f block 0 block.instructions
                && (valid_span m block.terminator.span
                    && terminator_ok m f block.id type.result_type block.terminator.kind))))

unfoldable pub blocks_ok :
    CogIrModule → CogIrFunction → CogIrFunctionType → ℕ → List CogIrBlock → Bool
blocks_ok m f type b [] = true
blocks_ok m f type b (block ∷ blocks) =
    block_ok m f type b block && blocks_ok m f type (b + 1) blocks

-- The rest for a declaration, and for a definition.
unfoldable pub declaration_ok : CogIrFunction → Bool
declaration_ok f = length f.blocks == 0 && (length f.slots == 0 && f.entry_block == id_invalid)

unfoldable pub definition_ok : CogIrModule → CogIrFunction → CogIrFunctionType → Bool
definition_ok m f type =
    (is_some_and (cog_ir_get_block f f.entry_block) λ b. true)
    && (parameters_ok f 0 type.parameter_types f.parameters
        && (slots_ok m type 0 f.slots && blocks_ok m f type 0 f.blocks))

unfoldable pub function_type_ok : CogIrModule → CogIrFunction → CogIrTypeKind → Bool
function_type_ok m f (ir_function type) =
    valid_span m f.span
    && (signature_ok f type
        && (not (is_external f.linkage && is_definition f.kind)
            && (value_abis_ok m f.values
                && (if is_definition f.kind then definition_ok m f type else declaration_ok f))))
function_type_ok m f _ = false

unfoldable pub verify_function : CogIrModule → CogIrFunction → Bool
verify_function m f = is_some_and (cog_ir_get_type m f.type) λ type. function_type_ok m f type.kind
