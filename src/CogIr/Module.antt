-- ===== src/CogIr/Module.antt =====
-- The structures of src/include/ir/cog_ir.h, less the fields that the verifier does not read, and the
-- look-ups of src/ir/cog_ir.c. A kind and the union beside it are one data type. An `int` that is a
-- flag is a Bool, an array with its count is a list, and ids are numbers.
use coglet.Prelude.{ℕ, ◌-◌, ◌^◌, Bytes, get_elem?, Bool, List, Option, none, ◌==◌, if◌then◌else◌}
use coglet.Source.Span.{SourceSpan}
use coglet.Source.Manager.{SourceManager}
use coglet.Target.Info.{TargetInfo}

abbrev pub CogIrId : Type 0
CogIrId = ℕ

-- `COG_IR_ID_INVALID`
abbrev pub id_invalid : CogIrId
id_invalid = 2 ^ 32 - 1

pub data CogIrAbiRepresentation : Type 0 where
  abi_coglet abi_c : CogIrAbiRepresentation

pub data CogIrCallingConvention : Type 0 where
  call_default call_cdecl call_stdcall call_sysv64 call_win64 : CogIrCallingConvention

pub data CogIrLinkage : Type 0 where
  linkage_internal linkage_external : CogIrLinkage

pub data CogIrFunctionKind : Type 0 where
  function_declaration function_definition : CogIrFunctionKind

pub record CogIrAggregateField : Type 0 where
  pub type : CogIrId
  pub span : SourceSpan

pub record CogIrAggregate : Type 0 where
  pub is_complete : Bool
  pub is_incomplete : Bool
  pub fields : List CogIrAggregateField
  pub is_repr_c : Bool

pub record CogIrEnumeration : Type 0 where
  pub backing_type : CogIrId
  pub is_repr_c : Bool
  pub backing_abi_type : CogIrId

pub record CogIrFunctionType : Type 0 where
  pub result_type : CogIrId
  pub parameter_types : List CogIrId
  pub abi : CogIrAbiRepresentation
  pub calling_convention : CogIrCallingConvention
  pub is_variadic : Bool

pub data CogIrTypeKind : Type 0 where
  ir_void : CogIrTypeKind
  ir_bool : CogIrTypeKind
  ir_integer : (bits : ℕ) (is_signed : Bool) → CogIrTypeKind
  ir_float : (bits : ℕ) → CogIrTypeKind
  ir_pointer : (pointee : CogIrId) (is_readonly is_volatile : Bool) → CogIrTypeKind
  ir_opaque_pointer : (is_readonly is_volatile : Bool) → CogIrTypeKind
  ir_array : (element_type : CogIrId) (length : ℕ) → CogIrTypeKind
  ir_struct : CogIrAggregate → CogIrTypeKind
  ir_union : CogIrAggregate → CogIrTypeKind
  ir_enum : CogIrEnumeration → CogIrTypeKind
  ir_function : CogIrFunctionType → CogIrTypeKind

pub record CogIrType : Type 0 where
  pub id : CogIrId
  pub span : SourceSpan
  pub kind : CogIrTypeKind

pub data CogIrAbiTypeKind : Type 0 where
  abi_type_semantic abi_type_c_scalar abi_type_pointer abi_type_opaque_pointer abi_type_array
        abi_type_function :
      CogIrAbiTypeKind

pub record CogIrAbiType : Type 0 where
  pub id : CogIrId
  pub kind : CogIrAbiTypeKind
  pub runtime_type : CogIrId

pub data CogIrConstKind : Type 0 where
  const_zero : CogIrConstKind
  const_bool : CogIrConstKind
  const_integer : (integer_bits : ℕ) → CogIrConstKind
  const_float32 : CogIrConstKind
  const_float64 : CogIrConstKind
  const_null : CogIrConstKind
  const_array : (elements : List CogIrId) → CogIrConstKind
  const_struct : (elements : List CogIrId) → CogIrConstKind

pub record CogIrConstant : Type 0 where
  pub id : CogIrId
  pub type : CogIrId
  pub kind : CogIrConstKind

pub record CogIrGlobal : Type 0 where
  pub id : CogIrId
  pub span : SourceSpan
  pub type : CogIrId
  pub abi_type : CogIrId
  pub is_compiler_generated : Bool
  pub is_readonly : Bool
  pub static_initializer : CogIrId

pub data CogIrValueKind : Type 0 where
  value_function_parameter value_block_parameter value_instruction : CogIrValueKind

pub record CogIrValue : Type 0 where
  pub id : CogIrId
  pub type : CogIrId
  pub abi_type : CogIrId
  pub kind : CogIrValueKind
  pub block : CogIrId
  pub ordinal : ℕ

pub data CogIrSlotKind : Type 0 where
  slot_source_local slot_source_parameter slot_compiler_temp : CogIrSlotKind

pub record CogIrSlot : Type 0 where
  pub id : CogIrId
  pub kind : CogIrSlotKind
  pub parameter_index : ℕ
  pub span : SourceSpan
  pub type : CogIrId
  pub abi_type : CogIrId

pub record CogIrBlockParam : Type 0 where
  pub value : CogIrId
  pub type : CogIrId

-- The operations that share a case of the verifier, `CogIrOp` in the source. `EQ` and `NE` are
-- `cmp_any` here, and the other integer comparisons are signed or unsigned.
pub data IntegerPredicate : Type 0 where
  cmp_any cmp_signed cmp_unsigned : IntegerPredicate

pub data ShiftOp : Type 0 where
  shift_left shift_right_signed shift_right_unsigned : ShiftOp

pub data CogIrOp : Type 0 where
  op_const : (constant : CogIrId) → CogIrOp
  op_function_ref : (function : CogIrId) → CogIrOp
  op_local_addr : (slot : CogIrId) → CogIrOp
  op_global_addr : (global : CogIrId) → CogIrOp
  op_field_addr : (base : CogIrId) (field_index : ℕ) → CogIrOp
  op_array_elem_addr : (base index : CogIrId) → CogIrOp
  op_ptr_index_addr : (base index : CogIrId) → CogIrOp
  op_load : (address : CogIrId) (is_volatile : Bool) → CogIrOp
  op_store : (address value : CogIrId) (is_volatile : Bool) → CogIrOp
  op_make_struct : (values : List CogIrId) → CogIrOp
  op_make_array : (values : List CogIrId) → CogIrOp
  op_extract_field : (aggregate : CogIrId) (index : ℕ) → CogIrOp
  op_extract_element : (aggregate : CogIrId) (index : ℕ) → CogIrOp
  op_integer_binary : (lhs rhs : CogIrId) → CogIrOp
  op_integer_unary : (operand : CogIrId) → CogIrOp
  op_shift : ShiftOp → (lhs rhs : CogIrId) → CogIrOp
  op_float_binary : (lhs rhs : CogIrId) → CogIrOp
  op_fneg : (operand : CogIrId) → CogIrOp
  op_icmp : IntegerPredicate → (lhs rhs : CogIrId) → CogIrOp
  op_fcmp : (lhs rhs : CogIrId) → CogIrOp
  op_ptr_compare : (lhs rhs : CogIrId) → CogIrOp
  op_bool_not : (operand : CogIrId) → CogIrOp
  op_cast_checked : (operand target_type : CogIrId) → CogIrOp
  op_int_truncate : (operand target_type : CogIrId) → CogIrOp
  op_ptr_reinterpret : (operand target_type : CogIrId) → CogIrOp
  op_ptr_qualify : (operand target_type : CogIrId) → CogIrOp
  op_type_query : (queried_type : CogIrId) → CogIrOp
  op_c_vararg_promote : (operand target_type : CogIrId) → CogIrOp
  op_asm : (output_constraint : Bytes) (inputs : List (Bytes × CogIrId)) → CogIrOp
  op_call : (callee : CogIrId) (arguments : List CogIrId) → CogIrOp

pub record CogIrInstruction : Type 0 where
  pub op : CogIrOp
  pub result : CogIrId
  pub result_type : CogIrId
  pub result_is_discarded : Bool
  pub span : SourceSpan

pub record CogIrBranchEdge : Type 0 where
  pub target : CogIrId
  pub arguments : List CogIrId

pub record CogIrSwitchCase : Type 0 where
  pub key : CogIrId
  pub edge : CogIrBranchEdge

pub data CogIrTerminatorKind : Type 0 where
  term_none : CogIrTerminatorKind
  term_br : (edge : CogIrBranchEdge) → CogIrTerminatorKind
  term_cond_br : (condition : CogIrId) (if_true if_false : CogIrBranchEdge) → CogIrTerminatorKind
  term_switch :
      (value : CogIrId) (cases : List CogIrSwitchCase) (default_edge : CogIrBranchEdge)
      → CogIrTerminatorKind
  term_ret : (value : Option CogIrId) → CogIrTerminatorKind
  term_trap : CogIrTerminatorKind
  term_unreachable : CogIrTerminatorKind

pub record CogIrTerminator : Type 0 where
  pub kind : CogIrTerminatorKind
  pub span : SourceSpan

pub record CogIrBlock : Type 0 where
  pub id : CogIrId
  pub span : SourceSpan
  pub parameters : List CogIrBlockParam
  pub instructions : List CogIrInstruction
  pub terminator : CogIrTerminator

pub record CogIrFunction : Type 0 where
  pub id : CogIrId
  pub span : SourceSpan
  pub type : CogIrId
  pub kind : CogIrFunctionKind
  pub linkage : CogIrLinkage
  pub is_compiler_generated : Bool
  pub abi : CogIrAbiRepresentation
  pub calling_convention : CogIrCallingConvention
  pub is_variadic : Bool
  pub values : List CogIrValue
  pub parameters : List CogIrId
  pub slots : List CogIrSlot
  pub blocks : List CogIrBlock
  pub entry_block : CogIrId

pub record CogIrModule : Type 0 where
  pub target : TargetInfo
  pub sources : SourceManager
  pub types : List CogIrType
  pub abi_types : List CogIrAbiType
  pub constants : List CogIrConstant
  pub globals : List CogIrGlobal
  pub functions : List CogIrFunction
  pub entry_function : CogIrId
  pub init_function : CogIrId

-- The body that the look-ups share.
unfoldable pub lookup : {A : Type 0} → List A → CogIrId → Option A
lookup items id = if id == id_invalid then none else get_elem? items id

abbrev pub cog_ir_get_type : CogIrModule → CogIrId → Option CogIrType
cog_ir_get_type m id = lookup m.types id

abbrev pub cog_ir_get_abi_type : CogIrModule → CogIrId → Option CogIrAbiType
cog_ir_get_abi_type m id = lookup m.abi_types id

abbrev pub cog_ir_get_constant : CogIrModule → CogIrId → Option CogIrConstant
cog_ir_get_constant m id = lookup m.constants id

abbrev pub cog_ir_get_global : CogIrModule → CogIrId → Option CogIrGlobal
cog_ir_get_global m id = lookup m.globals id

abbrev pub cog_ir_get_function : CogIrModule → CogIrId → Option CogIrFunction
cog_ir_get_function m id = lookup m.functions id

abbrev pub cog_ir_get_block : CogIrFunction → CogIrId → Option CogIrBlock
cog_ir_get_block function id = lookup function.blocks id

abbrev pub cog_ir_get_value : CogIrFunction → CogIrId → Option CogIrValue
cog_ir_get_value function id = lookup function.values id

abbrev pub cog_ir_get_slot : CogIrFunction → CogIrId → Option CogIrSlot
cog_ir_get_slot function id = lookup function.slots id
