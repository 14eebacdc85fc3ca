-- ===== src/CogIr/Verify/Runs.antt =====
-- How a function of the representation runs, as far as its values go: which block and instruction is
-- next, and which values are there. Values other than the function's parameters do not outlive their
-- block, since `value_available` asks for none from elsewhere.
use coglet.Prelude.{
  ℕ, suc, ◌≡◌, Listed, length, get_elem?, List, [], ◌∷◌, ◌++◌, Option, none, some, if◌then◌else◌,
}
use coglet.CogIr.Module.{
  CogIrId, CogIrValueKind, value_function_parameter, value_block_parameter, value_instruction,
  CogIrValue, CogIrBlockParam, term_ret, CogIrOp, op_field_addr, op_array_elem_addr,
  op_ptr_index_addr, op_load, op_store, op_make_struct, op_make_array, op_extract_field,
  op_extract_element, op_integer_binary, op_integer_unary, op_shift, op_float_binary, op_fneg,
  op_icmp, op_fcmp, op_ptr_compare, op_bool_not, op_cast_checked, op_int_truncate,
  op_ptr_reinterpret, op_ptr_qualify, op_c_vararg_promote, op_asm, op_call, CogIrInstruction,
  CogIrBranchEdge, CogIrSwitchCase, CogIrTerminatorKind, term_br, term_cond_br, term_switch,
  CogIrBlock, CogIrFunction, cog_ir_get_value,
}

abbrev pub param_values : List CogIrBlockParam → List CogIrId
param_values [] = []
param_values (p ∷ ps) = p.value ∷ param_values ps

-- What an instruction leaves behind for those after it.
abbrev pub yields : CogIrInstruction → List CogIrId
yields i = if i.result_is_discarded then [] else i.result ∷ []

abbrev pub case_edges : List CogIrSwitchCase → List CogIrBranchEdge
case_edges [] = []
case_edges (c ∷ cases) = c.edge ∷ case_edges cases

abbrev pub edges : CogIrTerminatorKind → List CogIrBranchEdge
edges (term_br edge) = edge ∷ []
edges (term_cond_br condition if_true if_false) = if_true ∷ (if_false ∷ [])
edges (term_switch value cases default_edge) = default_edge ∷ case_edges cases
edges _ = []

-- The run is at instruction `n` of `block`, which stands at `id`, and the values `defined` are there.
-- Any edge of a terminator may be taken.
pub data Runs (f : CogIrFunction) : CogIrId → CogIrBlock → ℕ → List CogIrId → Type 0 where
  enters :
      {block : CogIrBlock}
      → get_elem? f.blocks f.entry_block ≡ some block
      → Runs f f.entry_block block 0 f.parameters
  steps :
      {id : CogIrId} {block : CogIrBlock} {n : ℕ} {defined : List CogIrId} {i : CogIrInstruction}
      → Runs f id block n defined
      → get_elem? block.instructions n ≡ some i
      → Runs f id block (suc n) (yields i ++ defined)
  jumps :
      {id : CogIrId} {block target : CogIrBlock} {defined : List CogIrId} (edge : CogIrBranchEdge)
      → Runs f id block (length block.instructions) defined
      → Listed edge (edges block.terminator.kind)
      → get_elem? f.blocks edge.target ≡ some target
      → Runs f edge.target target 0 (param_values target.parameters ++ f.parameters)

-- The metadata of a value names the place that makes it, as the builder of src/ir/cog_ir.c does.
abbrev pub IsMade : CogIrFunction → CogIrId → CogIrValue → CogIrValueKind → Type 0
IsMade f id value value_function_parameter = Listed id f.parameters
IsMade f id value value_block_parameter =
    (block : CogIrBlock)
    → get_elem? f.blocks value.block ≡ some block
    → Listed id (param_values block.parameters)
IsMade f id value value_instruction =
    (block : CogIrBlock) (i : CogIrInstruction)
    → get_elem? f.blocks value.block ≡ some block
    → get_elem? block.instructions value.ordinal ≡ some i
    → i.result ≡ id

pub record IsRegistered (f : CogIrFunction) : Type 0 where
  pub own_id :
      (id : CogIrId) (value : CogIrValue) → cog_ir_get_value f id ≡ some value → value.id ≡ id
  pub made :
      (id : CogIrId) (value : CogIrValue)
      → cog_ir_get_value f id ≡ some value
      → IsMade f id value value.kind
  pub entry :
      (block : CogIrBlock) → get_elem? f.blocks f.entry_block ≡ some block → block.parameters ≡ []

-- What an instruction reads.
abbrev pub input_ids {ℓ} : {A : Type ℓ} → List (A × CogIrId) → List CogIrId
input_ids [] = []
input_ids ((constraint, id) ∷ inputs) = id ∷ input_ids inputs

abbrev pub operands : CogIrOp → List CogIrId
operands (op_field_addr base n) = base ∷ []
operands (op_array_elem_addr base i) = base ∷ (i ∷ [])
operands (op_ptr_index_addr base i) = base ∷ (i ∷ [])
operands (op_load a v) = a ∷ []
operands (op_store a x v) = a ∷ (x ∷ [])
operands (op_make_struct ids) = ids
operands (op_make_array ids) = ids
operands (op_extract_field a n) = a ∷ []
operands (op_extract_element a n) = a ∷ []
operands (op_integer_binary l r) = l ∷ (r ∷ [])
operands (op_integer_unary x) = x ∷ []
operands (op_shift op l r) = l ∷ (r ∷ [])
operands (op_float_binary l r) = l ∷ (r ∷ [])
operands (op_fneg x) = x ∷ []
operands (op_icmp op l r) = l ∷ (r ∷ [])
operands (op_fcmp l r) = l ∷ (r ∷ [])
operands (op_ptr_compare l r) = l ∷ (r ∷ [])
operands (op_bool_not x) = x ∷ []
operands (op_cast_checked x t) = x ∷ []
operands (op_int_truncate x t) = x ∷ []
operands (op_ptr_reinterpret x t) = x ∷ []
operands (op_ptr_qualify x t) = x ∷ []
operands (op_c_vararg_promote x t) = x ∷ []
operands (op_asm output inputs) = input_ids inputs
operands (op_call callee ids) = callee ∷ ids
operands _ = []

abbrev pub edge_arguments : List CogIrBranchEdge → List CogIrId
edge_arguments [] = []
edge_arguments (edge ∷ rest) = edge.arguments ++ edge_arguments rest

abbrev pub returned : Option CogIrId → List CogIrId
returned none = []
returned (some id) = id ∷ []

-- What a terminator asks for itself, and what it reads with the arguments of its edges.
abbrev pub asked_for : CogIrTerminatorKind → List CogIrId
asked_for (term_cond_br condition if_true if_false) = condition ∷ []
asked_for (term_switch value cases default_edge) = value ∷ []
asked_for (term_ret value) = returned value
asked_for _ = []
