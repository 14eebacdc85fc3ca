-- ===== src/CogIr/Verify/Operations.antt =====
-- The cases of `verify_instruction`, src/ir/cog_ir_verify.c, one function each. `available` is the
-- test of REQUIRE_VALUE, that is, `value_available` at the instruction. A case that breaks off early
-- has failed by then, so the order of its tests does not matter for `ok`.
use coglet.Prelude.{
  ℕ, Bool, true, false, not, ◌&&◌, ◌||◌, Option, some, ltb, leb, ◌==◌, if◌then◌else◌,
}
use coglet.CogIr.Module.{
  CogIrId, id_invalid, CogIrAbiRepresentation, abi_coglet, abi_c, CogIrTypeKind, ir_bool,
  ir_integer, ir_float, ir_pointer, ir_opaque_pointer, ir_enum, ir_function, CogIrType,
  abi_type_function, CogIrAbiType, CogIrValue, IntegerPredicate, cmp_signed, cmp_unsigned, ShiftOp,
  shift_left, shift_right_signed, shift_right_unsigned, CogIrFunction, CogIrModule, cog_ir_get_type,
  cog_ir_get_constant, cog_ir_get_global, cog_ir_get_function, cog_ir_get_value, cog_ir_get_slot,
}
use coglet.CogIr.Verify.{
  is_some_and, is_integer, is_bool, is_enum, is_integer_type, is_float_type,
  is_pointer_comparable_type, pointer_pointee, type_has_runtime_object_layout,
}

abbrev pub same_flag : Bool → Bool → Bool
same_flag a b = if a then b else not b

-- `target` has the qualifier where `source` has it.
abbrev pub keeps_flag : Bool → Bool → Bool
keeps_flag source target = not source || target

abbrev is_coglet : CogIrAbiRepresentation → Bool
is_coglet abi = elim abi [ abi_coglet ↦ true | abi_c ↦ false ]

abbrev is_function_abi : CogIrAbiType → Bool
is_function_abi abi = elim abi.kind [ abi_type_function ↦ true | _ ↦ false ]

unfoldable pub is_native_c_int_type : CogIrModule → CogIrType → Bool
is_native_c_int_type m type = elim type.kind [
  | ir_integer bits is_signed ↦ bits == m.target.c_int_bits && is_signed
  | _ ↦ false
]

-- From `integer` on, in `c_vararg_promotion_valid`.
abbrev promotes_integer : CogIrModule → Option CogIrType → CogIrType → Bool
promotes_integer m integer target = is_some_and integer λ i.
    elim i.kind [ ir_integer bits is_signed ↦ ltb bits m.target.c_int_bits | _ ↦ false ]
    && is_native_c_int_type m target

abbrev is_float_of : ℕ → CogIrType → Bool
is_float_of width type = elim type.kind [ ir_float bits ↦ bits == width | _ ↦ false ]

unfoldable pub c_vararg_promotion_valid : CogIrModule → CogIrType → CogIrType → Bool
c_vararg_promotion_valid m source target =
    if source.id == target.id then false else elim source.kind [
      | ir_bool ↦ is_native_c_int_type m target
      | ir_float bits ↦ bits == 32 && is_float_of 64 target
      | ir_enum e ↦
          if not e.is_repr_c
          then false
          else promotes_integer m (cog_ir_get_type m e.backing_type) target
      | _ ↦ promotes_integer m (some source) target
    ]

abbrev wide_integer : CogIrModule → CogIrType → Bool
wide_integer m type = elim type.kind [
  | ir_integer bits is_signed ↦ leb m.target.c_int_bits bits
  | _ ↦ false
]

unfoldable pub vararg_kind_is_legal : CogIrModule → CogIrTypeKind → Bool
vararg_kind_is_legal m (ir_integer bits is_signed) = leb m.target.c_int_bits bits
vararg_kind_is_legal m (ir_float bits) = bits == 64
vararg_kind_is_legal m (ir_pointer pointee is_readonly is_volatile) = true
vararg_kind_is_legal m (ir_opaque_pointer is_readonly is_volatile) = true
vararg_kind_is_legal m (ir_enum e) =
    e.is_repr_c && is_some_and (cog_ir_get_type m e.backing_type) (λ type. wide_integer m type)
vararg_kind_is_legal m (ir_function f) = not (is_coglet f.abi)
vararg_kind_is_legal m _ = false

unfoldable pub c_vararg_argument_type_is_legal : CogIrModule → CogIrId → Bool
c_vararg_argument_type_is_legal m type_id =
    is_some_and (cog_ir_get_type m type_id) λ type. vararg_kind_is_legal m type.kind

-- The value and its type.
abbrev pub typed_value :
    CogIrModule → CogIrFunction → CogIrId → (CogIrValue → CogIrType → Bool) → Bool
typed_value m f id test =
    is_some_and (cog_ir_get_value f id)
      λ value. is_some_and (cog_ir_get_type m value.type) λ type. test value type

unfoldable pub const_ok : CogIrModule → CogIrId → CogIrId → Bool
const_ok m result_type id =
    is_some_and (cog_ir_get_constant m id)
      λ constant. not (result_type == id_invalid) && constant.type == result_type

unfoldable pub function_ref_ok : CogIrModule → CogIrId → CogIrId → Bool
function_ref_ok m result_type id =
    is_some_and (cog_ir_get_function m id) λ target. result_type == target.type

unfoldable pub type_query_ok : CogIrModule → CogIrId → CogIrId → Bool
type_query_ok m result_type queried_type = is_some_and (cog_ir_get_type m queried_type) λ queried.
    type_has_runtime_object_layout queried.kind
    && is_some_and (cog_ir_get_type m result_type) λ result. elim result.kind [
      | ir_integer bits is_signed ↦ bits == m.target.pointer_bits && not is_signed
      | _ ↦ false
    ]

unfoldable pub local_addr_ok : CogIrModule → CogIrFunction → CogIrId → CogIrId → Bool
local_addr_ok m f result_type id =
    is_some_and (cog_ir_get_slot f id)
      λ slot. is_some_and (pointer_pointee m result_type) λ p. not p.readonly && p.type == slot.type

unfoldable pub global_addr_ok : CogIrModule → CogIrId → CogIrId → Bool
global_addr_ok m result_type id = is_some_and (cog_ir_get_global m id) λ global.
    is_some_and (pointer_pointee m result_type)
      λ p. p.type == global.type && same_flag p.readonly global.is_readonly

unfoldable pub load_ok : CogIrModule → CogIrFunction → CogIrId → CogIrId → Bool → Bool
load_ok m f result_type id is_volatile = is_some_and (cog_ir_get_value f id) λ address.
    is_some_and (pointer_pointee m address.type)
      λ p. p.type == result_type && keeps_flag p.volatile_access is_volatile

unfoldable pub store_ok : CogIrModule → CogIrFunction → CogIrId → CogIrId → CogIrId → Bool → Bool
store_ok m f result_type address_id value_id is_volatile =
    result_type == id_invalid
    && is_some_and (cog_ir_get_value f address_id) λ address.
      is_some_and (cog_ir_get_value f value_id) λ value.
        is_some_and (pointer_pointee m address.type)
          λ p. not p.readonly && (p.type == value.type && keeps_flag p.volatile_access is_volatile)

-- Two values of one type, which has the property.
abbrev operands_match : CogIrFunction → CogIrId → CogIrId → (CogIrId → Bool) → Bool
operands_match f lhs rhs test =
    is_some_and (cog_ir_get_value f lhs)
      λ l. is_some_and (cog_ir_get_value f rhs) λ r. test l.type && l.type == r.type

unfoldable pub integer_binary_ok : CogIrModule → CogIrFunction → CogIrId → CogIrId → CogIrId → Bool
integer_binary_ok m f result_type lhs rhs =
    operands_match f lhs rhs λ type. is_integer_type m type && type == result_type

unfoldable pub integer_unary_ok : CogIrModule → CogIrFunction → CogIrId → CogIrId → Bool
integer_unary_ok m f result_type id =
    is_some_and (cog_ir_get_value f id)
      λ operand. is_integer_type m operand.type && operand.type == result_type

abbrev shift_sign_ok : ShiftOp → Bool → Bool
shift_sign_ok shift_left is_signed = true
shift_sign_ok shift_right_signed is_signed = is_signed
shift_sign_ok shift_right_unsigned is_signed = not is_signed

unfoldable pub shift_ok : CogIrModule → CogIrFunction → CogIrId → ShiftOp → CogIrId → CogIrId → Bool
shift_ok m f result_type op lhs rhs = typed_value m f lhs λ l type.
    is_some_and (cog_ir_get_value f rhs) λ r. elim type.kind [
      | ir_integer bits is_signed ↦
          is_integer_type m r.type && (l.type == result_type && shift_sign_ok op is_signed)
      | _ ↦ false
    ]

unfoldable pub float_binary_ok : CogIrModule → CogIrFunction → CogIrId → CogIrId → CogIrId → Bool
float_binary_ok m f result_type lhs rhs =
    operands_match f lhs rhs λ type. is_float_type m type && type == result_type

unfoldable pub fneg_ok : CogIrModule → CogIrFunction → CogIrId → CogIrId → Bool
fneg_ok m f result_type id =
    is_some_and (cog_ir_get_value f id)
      λ operand. is_float_type m operand.type && operand.type == result_type

abbrev result_is_bool : CogIrModule → CogIrId → Bool
result_is_bool m result_type = is_some_and (cog_ir_get_type m result_type) is_bool

abbrev predicate_ok : IntegerPredicate → CogIrTypeKind → Bool
predicate_ok cmp_signed (ir_integer bits is_signed) = is_signed
predicate_ok cmp_unsigned (ir_integer bits is_signed) = not is_signed
predicate_ok _ _ = true

unfoldable pub icmp_ok :
    CogIrModule → CogIrFunction → CogIrId → IntegerPredicate → CogIrId → CogIrId → Bool
icmp_ok m f result_type op lhs rhs = typed_value m f lhs λ l type.
    is_some_and (cog_ir_get_value f rhs) λ r.
      l.type == r.type
      && ((is_integer type || (is_enum type || is_bool type))
          && (result_is_bool m result_type && predicate_ok op type.kind))

unfoldable pub fcmp_ok : CogIrModule → CogIrFunction → CogIrId → CogIrId → CogIrId → Bool
fcmp_ok m f result_type lhs rhs =
    operands_match f lhs rhs λ type. is_float_type m type && result_is_bool m result_type

unfoldable pub ptr_compare_ok : CogIrModule → CogIrFunction → CogIrId → CogIrId → CogIrId → Bool
ptr_compare_ok m f result_type lhs rhs =
    operands_match f lhs rhs
      λ type. is_pointer_comparable_type m type && result_is_bool m result_type

unfoldable pub bool_not_ok : CogIrModule → CogIrFunction → CogIrId → CogIrId → Bool
bool_not_ok m f result_type id =
    typed_value m f id λ operand type. is_bool type && operand.type == result_type
