-- ===== src/CogIr/Verify/Instructions.antt =====
-- The rest of `verify_instruction`, src/ir/cog_ir_verify.c: conversions, calls and aggregates, and the
-- function itself.
use coglet.Prelude.{
  ℕ, Bytes, length, get_elem?, Bool, true, false, not, ◌&&◌, ◌||◌, List, [], ◌∷◌, none, some, ltb,
  ◌==◌, if◌then◌else◌,
}
use coglet.Lexer.Keyword.{codes}
use coglet.CogIr.Module.{
  CogIrId, id_invalid, CogIrAbiRepresentation, abi_coglet, abi_c, CogIrAggregateField,
  CogIrFunctionType, CogIrTypeKind, ir_void, ir_pointer, ir_opaque_pointer, ir_array, ir_struct,
  ir_union, ir_function, CogIrType, CogIrAbiTypeKind, abi_type_function, CogIrValue, CogIrFunction,
  CogIrModule, cog_ir_get_type, cog_ir_get_abi_type, cog_ir_get_value,
}
use coglet.CogIr.Verify.{
  is_some_and, string_view_equals, asm_constraint_is_valid_for_ir, is_integer, is_float, is_void,
  is_enum, is_integer_type, Pointee, pointer_pointee,
}
use coglet.CogIr.Verify.Operations.{
  same_flag, keeps_flag, c_vararg_promotion_valid, c_vararg_argument_type_is_legal, typed_value,
}

-- The operand, its type and the result's type, where the target of the conversion is that type.
abbrev conversion :
    CogIrModule
    → CogIrFunction
    → CogIrId
    → CogIrId
    → CogIrId
    → (CogIrValue → CogIrType → CogIrType → Bool)
    → Bool
conversion m f result_type id target_type test =
    target_type == result_type
    && typed_value m f id λ operand source.
      is_some_and (cog_ir_get_type m result_type) λ target. test operand source target

abbrev qualifies : CogIrTypeKind → CogIrTypeKind → Bool
qualifies (ir_pointer p r v) (ir_pointer p' r' v') = p == p' && (keeps_flag r r' && keeps_flag v v')
qualifies (ir_opaque_pointer r v) (ir_opaque_pointer r' v') = keeps_flag r r' && keeps_flag v v'
qualifies _ _ = false

unfoldable pub ptr_qualify_ok : CogIrModule → CogIrFunction → CogIrId → CogIrId → CogIrId → Bool
ptr_qualify_ok m f result_type id target_type =
    conversion m f result_type id target_type
      λ operand source target. qualifies source.kind target.kind

abbrev casts : CogIrType → CogIrType → Bool
casts source target =
    ((is_integer source || is_float source) && (is_integer target || is_float target))
    || (is_enum source && is_integer target)

unfoldable pub cast_checked_ok : CogIrModule → CogIrFunction → CogIrId → CogIrId → CogIrId → Bool
cast_checked_ok m f result_type id target_type =
    conversion m f result_type id target_type
      λ operand source target. if operand.type == result_type then true else casts source target

unfoldable pub int_truncate_ok : CogIrModule → CogIrFunction → CogIrId → CogIrId → CogIrId → Bool
int_truncate_ok m f result_type id target_type =
    conversion m f result_type id target_type
      λ operand source target. is_integer source && is_integer target

abbrev reinterprets : CogIrTypeKind → CogIrTypeKind → Bool
reinterprets (ir_pointer p r v) (ir_opaque_pointer r' v') = keeps_flag r r' && keeps_flag v v'
reinterprets (ir_opaque_pointer r v) (ir_pointer p' r' v') = keeps_flag r r' && keeps_flag v v'
reinterprets _ _ = false

unfoldable pub ptr_reinterpret_ok : CogIrModule → CogIrFunction → CogIrId → CogIrId → CogIrId → Bool
ptr_reinterpret_ok m f result_type id target_type =
    conversion m f result_type id target_type
      λ operand source target. reinterprets source.kind target.kind

unfoldable pub c_vararg_promote_ok :
    CogIrModule → CogIrFunction → CogIrId → CogIrId → CogIrId → Bool
c_vararg_promote_ok m f result_type id target_type =
    conversion m f result_type id target_type
      λ operand source target. c_vararg_promotion_valid m source target

-- One input; `tied` says that it is the first of a `+r`. The pointer to the constraints is not NULL.
unfoldable pub asm_input_ok : CogIrModule → CogIrFunction → CogIrId → Bool → Bytes → CogIrId → Bool
asm_input_ok m f result_type tied constraint id =
    (typed_value m f id λ input type. is_integer type && input.type == result_type)
    && ((tied && string_view_equals constraint (codes "+r"))
        || asm_constraint_is_valid_for_ir constraint false)

unfoldable pub asm_inputs_ok :
    CogIrModule → CogIrFunction → (CogIrId → Bool) → CogIrId → Bool → List (Bytes × CogIrId) → Bool
asm_inputs_ok m f available result_type tied [] = true
asm_inputs_ok m f available result_type tied ((constraint, id) ∷ inputs) =
    available id
    && (asm_input_ok m f result_type tied constraint id
        && asm_inputs_ok m f available result_type false inputs)

unfoldable pub asm_output_ok : CogIrModule → CogIrId → Bytes → ℕ → Bool
asm_output_ok m result_type output_constraint input_count =
    let is_read_write = string_view_equals output_constraint (codes "+r") in
    (is_read_write || asm_constraint_is_valid_for_ir output_constraint true)
    && (is_some_and (cog_ir_get_type m result_type) is_integer
        && not (is_read_write && input_count == 0))

unfoldable pub asm_ok :
    CogIrModule → CogIrFunction → (CogIrId → Bool) → CogIrId → Bytes → List (Bytes × CogIrId) → Bool
asm_ok m f available result_type output_constraint inputs =
    asm_output_ok m result_type output_constraint (length inputs)
    && asm_inputs_ok m f available result_type (string_view_equals output_constraint (codes "+r"))
        inputs

abbrev is_abi_c : CogIrAbiRepresentation → Bool
is_abi_c abi = elim abi [ abi_c ↦ true | abi_coglet ↦ false ]

abbrev is_abi_function : CogIrAbiTypeKind → Bool
is_abi_function abi_type_function = true
is_abi_function _ = false

-- The C ABI metadata of a callee.
unfoldable pub callee_abi_ok : CogIrModule → CogIrFunctionType → CogIrValue → Bool
callee_abi_ok m type callee =
    if is_abi_c type.abi
    then is_some_and (cog_ir_get_abi_type m callee.abi_type)
        (λ abi. is_abi_function abi.kind && abi.runtime_type == callee.type)
    else true

-- The loop over the arguments, with the parameters from the one in hand on.
unfoldable pub arguments_ok :
    CogIrModule
    → CogIrFunction
    → (CogIrId → Bool)
    → CogIrFunctionType
    → List CogIrId
    → List CogIrId
    → Bool
arguments_ok m f available type parameters [] = true
arguments_ok m f available type [] (id ∷ arguments) =
    available id
    && ((if type.is_variadic && is_abi_c type.abi
          then is_some_and (cog_ir_get_value f id)
              (λ argument. c_vararg_argument_type_is_legal m argument.type)
          else true)
        && arguments_ok m f available type [] arguments)
arguments_ok m f available type (parameter ∷ parameters) (id ∷ arguments) =
    available id
    && ((is_some_and (cog_ir_get_value f id) λ argument. argument.type == parameter)
        && arguments_ok m f available type parameters arguments)

unfoldable pub call_type_ok :
    CogIrModule
    → CogIrFunction
    → (CogIrId → Bool)
    → CogIrId
    → CogIrValue
    → List CogIrId
    → CogIrTypeKind
    → Bool
call_type_ok m f available result_type callee arguments (ir_function type) =
    let n = length type.parameter_types in
    callee_abi_ok m type callee
    && (not (ltb (length arguments) n || (not type.is_variadic && not (length arguments == n)))
        && (arguments_ok m f available type type.parameter_types arguments
            && is_some_and (cog_ir_get_type m type.result_type) λ return_type.
              if is_void return_type
              then result_type == id_invalid
              else result_type == type.result_type))
call_type_ok m f available result_type callee arguments _ = false

unfoldable pub call_ok :
    CogIrModule → CogIrFunction → (CogIrId → Bool) → CogIrId → CogIrId → List CogIrId → Bool
call_ok m f available result_type callee_id arguments =
    available callee_id
    && typed_value m f callee_id
        λ callee type. call_type_ok m f available result_type callee arguments type.kind

abbrev aggregate_fields : CogIrTypeKind → List CogIrAggregateField
aggregate_fields (ir_struct a) = a.fields
aggregate_fields (ir_union a) = a.fields
aggregate_fields _ = []

-- `result_type` points to `type` with the qualifiers of `base`.
abbrev points_to : CogIrModule → CogIrId → Pointee → CogIrId → Bool
points_to m result_type base type = is_some_and (pointer_pointee m result_type) λ p.
    p.type == type
    && (same_flag p.readonly base.readonly && same_flag p.volatile_access base.volatile_access)

-- The base's pointee, with its type.
abbrev based : CogIrModule → CogIrFunction → CogIrId → (Pointee → CogIrTypeKind → Bool) → Bool
based m f id test = is_some_and (cog_ir_get_value f id) λ base.
    is_some_and (pointer_pointee m base.type)
      λ p. is_some_and (cog_ir_get_type m p.type) λ type. test p type.kind

unfoldable pub field_addr_ok : CogIrModule → CogIrFunction → CogIrId → CogIrId → ℕ → Bool
field_addr_ok m f result_type id field_index = based m f id λ base kind.
    is_some_and (get_elem? (aggregate_fields kind) field_index)
      λ field. points_to m result_type base field.type

unfoldable pub array_elem_addr_ok : CogIrModule → CogIrFunction → CogIrId → CogIrId → CogIrId → Bool
array_elem_addr_ok m f result_type id index_id =
    (is_some_and (cog_ir_get_value f index_id) λ index. is_integer_type m index.type)
    && based m f id λ base kind. elim kind [
      | ir_array element_type n ↦ points_to m result_type base element_type
      | _ ↦ false
    ]

unfoldable pub ptr_index_addr_ok : CogIrModule → CogIrFunction → CogIrId → CogIrId → CogIrId → Bool
ptr_index_addr_ok m f result_type id index_id = is_some_and (cog_ir_get_value f id) λ base.
    is_some_and (cog_ir_get_value f index_id) λ index.
      is_integer_type m index.type
      && (base.type == result_type && is_some_and (pointer_pointee m base.type) λ p. true)

-- The loops over the values of an aggregate, against the types that they must have.
unfoldable pub fields_ok :
    CogIrFunction → (CogIrId → Bool) → List CogIrAggregateField → List CogIrId → Bool
fields_ok f available [] [] = true
fields_ok f available (field ∷ fields) (id ∷ ids) =
    available id
    && ((is_some_and (cog_ir_get_value f id) λ value. value.type == field.type)
        && fields_ok f available fields ids)
fields_ok f available _ _ = false

unfoldable pub elements_ok : CogIrFunction → (CogIrId → Bool) → CogIrId → List CogIrId → Bool
elements_ok f available element_type [] = true
elements_ok f available element_type (id ∷ ids) =
    available id
    && ((is_some_and (cog_ir_get_value f id) λ value. value.type == element_type)
        && elements_ok f available element_type ids)

-- The kind of the result's type; `ir_void` where it has none, which no aggregate has.
abbrev pub kind_of : CogIrModule → CogIrId → CogIrTypeKind
kind_of m id = elim (cog_ir_get_type m id) [ none ↦ ir_void | some type ↦ type.kind ]

unfoldable pub make_struct_ok :
    CogIrFunction → (CogIrId → Bool) → List CogIrId → CogIrTypeKind → Bool
make_struct_ok f available ids (ir_struct a) = a.is_complete && fields_ok f available a.fields ids
make_struct_ok f available ids _ = false

unfoldable pub make_array_ok :
    CogIrFunction → (CogIrId → Bool) → List CogIrId → CogIrTypeKind → Bool
make_array_ok f available ids (ir_array element_type n) =
    length ids == n && elements_ok f available element_type ids
make_array_ok f available ids _ = false

unfoldable pub extract_field_ok : CogIrModule → CogIrFunction → CogIrId → CogIrId → ℕ → Bool
extract_field_ok m f result_type id index = typed_value m f id λ value type.
    is_some_and (get_elem? (aggregate_fields type.kind) index) λ field. result_type == field.type

unfoldable pub extract_element_ok : CogIrModule → CogIrFunction → CogIrId → CogIrId → ℕ → Bool
extract_element_ok m f result_type id index = typed_value m f id λ value type. elim type.kind [
  | ir_array element_type n ↦ ltb index n && result_type == element_type
  | _ ↦ false
]
