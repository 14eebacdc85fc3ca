-- ===== src/CogIr/Verify/Operands.antt =====
-- An instruction or terminator that passes reads only values that are available.
use coglet.Prelude.{
  ◌≡◌, refl, All, Bool, true, false, ◌&&◌, and_true, List, [], ◌∷◌, Bytes, Option, none, some,
}
use coglet.CogIr.Module.{
  CogIrId, CogIrType, CogIrAggregateField, CogIrFunctionType, CogIrTypeKind, ir_array, ir_struct,
  ir_function, CogIrValue, CogIrOp, op_const, op_function_ref, op_local_addr, op_global_addr,
  op_field_addr, op_array_elem_addr, op_ptr_index_addr, op_load, op_store, op_make_struct,
  op_make_array, op_extract_field, op_extract_element, op_integer_binary, op_integer_unary,
  op_shift, op_float_binary, op_fneg, op_icmp, op_fcmp, op_ptr_compare, op_bool_not,
  op_cast_checked, op_int_truncate, op_ptr_reinterpret, op_ptr_qualify, op_type_query,
  op_c_vararg_promote, op_asm, op_call, CogIrFunction, CogIrModule, cog_ir_get_value,
  cog_ir_get_type,
}
use coglet.CogIr.Verify.{is_some_and}
use coglet.CogIr.Verify.Instructions.{
  asm_inputs_ok, asm_ok, arguments_ok, call_type_ok, call_ok, fields_ok, elements_ok, kind_of,
  make_struct_ok, make_array_ok,
}
use coglet.CogIr.Verify.Functions.{operation_ok}
use coglet.CogIr.Verify.Operations.{typed_value}
use coglet.CogIr.Verify.Runs.{input_ids, operands}

-- Every id of the list passes the test.
abbrev pub Passing : (CogIrId → Bool) → List CogIrId → Type 0
Passing available ids = All (λ id. available id ≡ true) ids

one-Passing :
    (available : CogIrId → Bool) (a : CogIrId) (rest : Bool)
    → (available a && rest) ≡ true
    → Passing available (a ∷ [])
one-Passing available a rest h = ((and_true (available a) rest h).0, tt)

two-Passing :
    (available : CogIrId → Bool) (a b : CogIrId) (rest : Bool)
    → (available a && (available b && rest)) ≡ true
    → Passing available (a ∷ (b ∷ []))
two-Passing available a b rest h =
    let r = and_true (available a) (available b && rest) h in
    (r.0, one-Passing available b rest r.1)

-- The second of three tests, and the rest of a list behind two tests.
behind_one : (a b : Bool) → (a && b) ≡ true → b ≡ true
behind_one a b h = (and_true a b h).1

behind_two : (a b c : Bool) → (a && (b && c)) ≡ true → c ≡ true
behind_two a b c h = behind_one b c (behind_one a (b && c) h)

in_front : (a b : Bool) → (a && b) ≡ true → a ≡ true
in_front a b h = (and_true a b h).0

fields-Passing :
    (f : CogIrFunction) (available : CogIrId → Bool) (fields : List CogIrAggregateField)
    (ids : List CogIrId)
    → fields_ok f available fields ids ≡ true
    → Passing available ids
unfolding fields_ok
fields-Passing f available [] [] h = tt
fields-Passing f available (field ∷ fields) [] h = tt
fields-Passing f available [] (id ∷ ids) h = absurd (cc)
fields-Passing f available (field ∷ fields) (id ∷ ids) h =
    (in_front _ _ h, fields-Passing f available fields ids (behind_two _ _ _ h))

elements-Passing :
    (f : CogIrFunction) (available : CogIrId → Bool) (type : CogIrId) (ids : List CogIrId)
    → elements_ok f available type ids ≡ true
    → Passing available ids
unfolding elements_ok
elements-Passing f available type [] h = tt
elements-Passing f available type (id ∷ ids) h =
    (in_front _ _ h, elements-Passing f available type ids (behind_two _ _ _ h))

inputs-Passing :
    (m : CogIrModule) (f : CogIrFunction) (available : CogIrId → Bool) (type : CogIrId)
    (tied : Bool) (inputs : List (Bytes × CogIrId))
    → asm_inputs_ok m f available type tied inputs ≡ true
    → Passing available (input_ids inputs)
unfolding asm_inputs_ok
inputs-Passing m f available type tied [] h = tt
inputs-Passing m f available type tied ((constraint, id) ∷ inputs) h =
    (in_front _ _ h, inputs-Passing m f available type false inputs (behind_two _ _ _ h))

arguments-Passing :
    (m : CogIrModule) (f : CogIrFunction) (available : CogIrId → Bool) (type : CogIrFunctionType)
    (parameters ids : List CogIrId)
    → arguments_ok m f available type parameters ids ≡ true
    → Passing available ids
unfolding arguments_ok
arguments-Passing m f available type parameters [] h = tt
arguments-Passing m f available type [] (id ∷ ids) h =
    (in_front _ _ h, arguments-Passing m f available type [] ids (behind_two _ _ _ h))
arguments-Passing m f available type (parameter ∷ parameters) (id ∷ ids) h =
    (in_front _ _ h, arguments-Passing m f available type parameters ids (behind_two _ _ _ h))

struct-Passing :
    (f : CogIrFunction) (available : CogIrId → Bool) (ids : List CogIrId) (kind : CogIrTypeKind)
    → make_struct_ok f available ids kind ≡ true
    → Passing available ids
unfolding make_struct_ok
struct-Passing f available ids (ir_struct a) h =
    fields-Passing f available a.fields ids (behind_one _ _ h)
struct-Passing f available ids _ h = absurd (cc)

array-Passing :
    (f : CogIrFunction) (available : CogIrId → Bool) (ids : List CogIrId) (kind : CogIrTypeKind)
    → make_array_ok f available ids kind ≡ true
    → Passing available ids
unfolding make_array_ok
array-Passing f available ids (ir_array element_type n) h =
    elements-Passing f available element_type ids (behind_one _ _ h)
array-Passing f available ids _ h = absurd (cc)

asm-Passing :
    (m : CogIrModule) (f : CogIrFunction) (available : CogIrId → Bool) (type : CogIrId)
    (output : Bytes) (inputs : List (Bytes × CogIrId))
    → asm_ok m f available type output inputs ≡ true
    → Passing available (input_ids inputs)
unfolding asm_ok
asm-Passing m f available type output inputs h =
    inputs-Passing m f available type _ inputs (behind_one _ _ h)

call_type-Passing :
    (m : CogIrModule) (f : CogIrFunction) (available : CogIrId → Bool) (type : CogIrId)
    (callee : CogIrValue) (ids : List CogIrId) (kind : CogIrTypeKind)
    → call_type_ok m f available type callee ids kind ≡ true
    → Passing available ids
unfolding call_type_ok
call_type-Passing m f available type callee ids (ir_function t) h =
    arguments-Passing m f available t t.parameter_types ids (in_front _ _ (behind_two _ _ _ h))
call_type-Passing m f available type callee ids _ h = absurd (cc)

-- What a test on something that may be missing says of what is there.
pub is_some_and-true :
    {A : Type 0} (r : Option A) (test : A → Bool)
    → is_some_and r test ≡ true
    → (a : A) × (r ≡ some a) × (test a ≡ true)
is_some_and-true none test h = absurd (cc)
is_some_and-true (some a) test h = (a, refl, h)

typed_value-true :
    (m : CogIrModule) (f : CogIrFunction) (id : CogIrId) (test : CogIrValue → CogIrType → Bool)
    → typed_value m f id test ≡ true
    → (value : CogIrValue) × (t : CogIrType) × (test value t ≡ true)
typed_value-true m f id test h =
    let at_type =
      λ (value : CogIrValue). is_some_and (cog_ir_get_type m value.type) λ type. test value type in
    let (value, _, h') = is_some_and-true (cog_ir_get_value f id) at_type h in
    let (t, _, h'') =
      is_some_and-true (cog_ir_get_type m value.type) (λ type. test value type) h' in
    (value, t, h'')

call-Passing :
    (m : CogIrModule) (f : CogIrFunction) (available : CogIrId → Bool) (type callee : CogIrId)
    (ids : List CogIrId)
    → call_ok m f available type callee ids ≡ true
    → Passing available (callee ∷ ids)
unfolding call_ok
call-Passing m f available type callee ids h =
    let test = λ (c : CogIrValue) (t : CogIrType). call_type_ok m f available type c ids t.kind in
    let both = and_true (available callee) (typed_value m f callee test) h in
    let (value, t, h') = typed_value-true m f callee test both.1 in
    (both.0, call_type-Passing m f available type value ids t.kind h')

pub operation-Passing :
    (m : CogIrModule) (f : CogIrFunction) (available : CogIrId → Bool) (t : CogIrId) (op : CogIrOp)
    → operation_ok m f available t op ≡ true
    → Passing available (operands op)
unfolding operation_ok
operation-Passing m f available t (op_const id) h = tt
operation-Passing m f available t (op_function_ref id) h = tt
operation-Passing m f available t (op_local_addr id) h = tt
operation-Passing m f available t (op_global_addr id) h = tt
operation-Passing m f available t (op_type_query id) h = tt
operation-Passing m f available t (op_field_addr base n) h = one-Passing available base _ h
operation-Passing m f available t (op_array_elem_addr base i) h = two-Passing available base i _ h
operation-Passing m f available t (op_ptr_index_addr base i) h = two-Passing available base i _ h
operation-Passing m f available t (op_load a v) h = one-Passing available a _ h
operation-Passing m f available t (op_store a x v) h = two-Passing available a x _ h
operation-Passing m f available t (op_make_struct ids) h =
    struct-Passing f available ids (kind_of m t) h
operation-Passing m f available t (op_make_array ids) h =
    array-Passing f available ids (kind_of m t) h
operation-Passing m f available t (op_extract_field a n) h = one-Passing available a _ h
operation-Passing m f available t (op_extract_element a n) h = one-Passing available a _ h
operation-Passing m f available t (op_integer_binary l r) h = two-Passing available l r _ h
operation-Passing m f available t (op_integer_unary x) h = one-Passing available x _ h
operation-Passing m f available t (op_shift op l r) h = two-Passing available l r _ h
operation-Passing m f available t (op_float_binary l r) h = two-Passing available l r _ h
operation-Passing m f available t (op_fneg x) h = one-Passing available x _ h
operation-Passing m f available t (op_icmp op l r) h = two-Passing available l r _ h
operation-Passing m f available t (op_fcmp l r) h = two-Passing available l r _ h
operation-Passing m f available t (op_ptr_compare l r) h = two-Passing available l r _ h
operation-Passing m f available t (op_bool_not x) h = one-Passing available x _ h
operation-Passing m f available t (op_cast_checked x u) h = one-Passing available x _ h
operation-Passing m f available t (op_int_truncate x u) h = one-Passing available x _ h
operation-Passing m f available t (op_ptr_reinterpret x u) h = one-Passing available x _ h
operation-Passing m f available t (op_ptr_qualify x u) h = one-Passing available x _ h
operation-Passing m f available t (op_c_vararg_promote x u) h = one-Passing available x _ h
operation-Passing m f available t (op_asm output inputs) h =
    asm-Passing m f available t output inputs h
operation-Passing m f available t (op_call callee ids) h = call-Passing m f available t callee ids h
