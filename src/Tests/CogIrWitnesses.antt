-- ===== src/Tests/CogIrWitnesses.antt =====
-- A module with one function of two blocks: it doubles its parameter and returns the result through a
-- block parameter.
use coglet.Prelude.{
  ℕ, zero, suc, ◌≡◌, refl, sym, ap, subst, ◌∙◌, inl, Listed, get_elem?, true, false, [], ◌∷◌, some,
}
use coglet.Source.Span.{SourceSpan, source_span_invalid, source_span_is_valid}
use coglet.Source.Manager.{source_manager_init}
use coglet.Target.Info.{target_info_init_common, target_info_validate}
use coglet.CogIr.Module.{
  CogIrId, id_invalid, abi_coglet, call_default, linkage_internal, function_definition, ir_integer,
  ir_function, CogIrType, CogIrValueKind, value_function_parameter, value_block_parameter,
  value_instruction, CogIrValue, op_integer_binary, CogIrInstruction, CogIrBranchEdge, term_br,
  term_ret, CogIrBlock, CogIrFunction, CogIrModule, lookup,
}
use coglet.CogIr.Verify.{
  valid_span, optional_abi_matches_runtime, is_integer_type, result_is_kept, is_available,
  value_available, terminator_value_available,
}
use coglet.CogIr.Verify.Operations.{integer_binary_ok}
use coglet.CogIr.Verify.Functions.{
  result_ok, operation_ok, verify_instruction, edge_arguments_ok, verify_edge, returned_value_ok,
  return_ok, terminator_ok,
}
use coglet.CogIr.Verify.Bodies.{
  abi_eq, calling_convention_eq, signature_ok, value_abis_ok, parameters_ok, slots_ok,
  block_parameters_ok, instructions_ok, block_ok, blocks_ok, definition_ok, function_type_ok,
  verify_function,
}
use coglet.CogIr.Verify.Modules.{
  parameter_types_ok, type_kind_ok, types_ok, abi_types_ok, constants_ok, globals_ok, functions_ok,
  entry_ok, init_ok, cog_ir_verify,
}
use coglet.CogIr.Verify.Runs.{param_values, Runs, enters, steps, jumps, IsMade, IsRegistered}
use coglet.CogIr.Verify.Edges.{lookup-get_elem?}
use coglet.CogIr.Build.{
  with_value, append_value, new_block, with_new_block, cog_ir_add_block, with_block,
  with_instruction, emit_in, cog_ir_emit,
}
use coglet.CogIr.Build.Registered.{MadeAt, IsBuilt}
use coglet.CogIr.Build.Built.{Builds, builds_nothing, adds_block, emits, Builds-IsRegistered}
use coglet.CogIr.Verify.Progress.{Next}
use coglet.CogIr.Verify.Sound.{cog_ir_verify-Next}

abbrev no_span : SourceSpan
no_span = record { file_id = 4294967295; start_offset = 0; end_offset = 0; line = 0; column = 0 }

abbrev s32_type : CogIrType
s32_type = record { id = 0; span = no_span; kind = ir_integer 32 true }

abbrev doubling_type : CogIrType
doubling_type = record {
  id = 1;
  span = no_span;
  kind = ir_function (record {
    result_type = 0;
    parameter_types = 0 ∷ [];
    abi = abi_coglet;
    calling_convention = call_default;
    is_variadic = false;
  });
}

abbrev value : ℕ → CogIrValueKind → ℕ → CogIrValue
value id kind block = record {
  id = id;
  type = 0;
  abi_type = id_invalid;
  kind = kind;
  block = block;
  ordinal = 0;
}

abbrev add : CogIrInstruction
add = record {
  op = op_integer_binary 0 0;
  result = 1;
  result_type = 0;
  result_is_discarded = false;
  span = no_span;
}

abbrev edge : CogIrBranchEdge
edge = record { target = 1; arguments = 1 ∷ [] }

abbrev first_block : CogIrBlock
first_block = record {
  id = 0;
  span = no_span;
  parameters = [];
  instructions = add ∷ [];
  terminator = record { kind = term_br edge; span = no_span };
}

abbrev last_block : CogIrBlock
last_block = record {
  id = 1;
  span = no_span;
  parameters = record { value = 2; type = 0 } ∷ [];
  instructions = [];
  terminator = record { kind = term_ret (some 2); span = no_span };
}

abbrev doubling : CogIrFunction
doubling = record {
  id = 0;
  span = no_span;
  type = 1;
  kind = function_definition;
  linkage = linkage_internal;
  is_compiler_generated = false;
  abi = abi_coglet;
  calling_convention = call_default;
  is_variadic = false;
  values =
      value 0 value_function_parameter id_invalid
      ∷ (value 1 value_instruction 0 ∷ (value 2 value_block_parameter 1 ∷ []));
  parameters = 0 ∷ [];
  slots = [];
  blocks = first_block ∷ (last_block ∷ []);
  entry_block = 0;
}

abbrev program : CogIrModule
program = record {
  target = target_info_init_common 64;
  sources = source_manager_init;
  types = s32_type ∷ (doubling_type ∷ []);
  abi_types = [];
  constants = [];
  globals = [];
  functions = doubling ∷ [];
  entry_function = id_invalid;
  init_function = id_invalid;
}

some-eq : {A : Type 0} {x y : A} → some x ≡ some y → x ≡ y
some-eq h = cc

values-IsMade :
    (id : CogIrId) (v : CogIrValue)
    → get_elem? doubling.values id ≡ some v
    → (v.id ≡ id) × IsMade doubling id v v.kind
values-IsMade zero v h =
    subst (λ (t : CogIrValue). (t.id ≡ 0) × IsMade doubling 0 t t.kind) (some-eq h) (refl, inl refl)
values-IsMade (suc zero) v h =
    subst (λ (t : CogIrValue). (t.id ≡ 1) × IsMade doubling 1 t t.kind) (some-eq h)
      (
        refl,
        λ block i b e. some-eq (
            sym (
              ap (λ (t : CogIrInstruction). some t.result)
                (some-eq (ap (λ (t : CogIrBlock). get_elem? t.instructions 0) (some-eq b) ∙ e)))),
      )
values-IsMade (suc (suc zero)) v h =
    subst (λ (t : CogIrValue). (t.id ≡ 2) × IsMade doubling 2 t t.kind) (some-eq h)
      (
        refl,
        λ block b.
            subst (λ (t : CogIrBlock). Listed 2 (param_values t.parameters)) (some-eq b) (inl refl),
      )
values-IsMade (suc (suc (suc id))) v h = absurd (cc)

doubling-IsRegistered : IsRegistered doubling
doubling-IsRegistered = record {
  own_id = λ id v h. (values-IsMade id v (lookup-get_elem? doubling.values id v h)).0;
  made = λ id v h. (values-IsMade id v (lookup-get_elem? doubling.values id v h)).1;
  entry = λ block h. sym (ap (λ (t : CogIrBlock). t.parameters) (some-eq h));
}

doubling-Runs : Runs doubling 1 last_block 0 (2 ∷ (0 ∷ []))
doubling-Runs = jumps edge (steps (enters refl) refl) (inl refl) refl

cog_ir_verify-Next_example : Next doubling last_block 0 (2 ∷ (0 ∷ []))
unfolding target_info_init_common target_info_validate source_span_is_valid lookup valid_span
    optional_abi_matches_runtime is_integer_type result_is_kept is_available value_available
    terminator_value_available integer_binary_ok result_ok operation_ok verify_instruction
    edge_arguments_ok verify_edge returned_value_ok return_ok terminator_ok abi_eq
    calling_convention_eq signature_ok value_abis_ok parameters_ok slots_ok block_parameters_ok
    instructions_ok block_ok blocks_ok definition_ok function_type_ok verify_function
    parameter_types_ok type_kind_ok types_ok abi_types_ok constants_ok globals_ok functions_ok
    entry_ok init_ok cog_ir_verify
cog_ir_verify-Next_example =
    cog_ir_verify-Next program doubling 0 1 last_block 0 (2 ∷ (0 ∷ [])) refl refl refl
      doubling-IsRegistered doubling-Runs

-- A function with its parameter only, and the first block and instruction of `doubling` built into it.
abbrev declared : CogIrFunction
declared = record doubling {
  values = value 0 value_function_parameter id_invalid ∷ [];
  blocks = [];
  entry_block = id_invalid;
}

abbrev opened : CogIrFunction
opened = with_new_block declared no_span

abbrev emitted : CogIrFunction
emitted =
    with_block (with_value opened (value 1 value_instruction 0)) 0
      (with_instruction (new_block 0 no_span) add)

declared-IsBuilt : IsBuilt declared
declared-IsBuilt zero v h =
    subst (λ (t : CogIrValue). (t.id ≡ 0) × MadeAt declared 0 t t.kind) (some-eq h) (refl, inl refl)
declared-IsBuilt (suc id) v h = absurd (cc)

declared-Builds : Builds declared emitted
unfolding source_span_invalid lookup cog_ir_add_block append_value emit_in cog_ir_emit
declared-Builds = emits program 0 add 1 (adds_block no_span 0 builds_nothing refl) refl

Builds-IsRegistered_example : IsRegistered emitted
Builds-IsRegistered_example =
    Builds-IsRegistered declared emitted declared-IsBuilt declared-Builds
      (λ block h. sym (ap (λ (t : CogIrBlock). t.parameters) (some-eq h)))
