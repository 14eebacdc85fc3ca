-- ===== src/Target/Layout/Ends.antt =====
-- `target_layout_of_type` returns on every graph of types, those with cycles included.
use Prim.Native.String.{String}
use coglet.Prelude.{
  ℕ, zero, suc, ◌+◌, ◌-◌, ◌*◌, ◌/◌, ◌<◌, ◌≤◌, ◌≡◌, ◌≢◌, refl, ap, length, Bool, true, false, ◌&&◌,
  List, [], ◌∷◌, Option, none, some, inl, inr, ltb, leb, if◌then◌else◌, Bool-cases, arith,
}
use coglet.Target.Info.{TargetInfo, target_info_validate}
use coglet.Target.Layout.{
  TypeKind, FunctionAbi, TypePtr, StructField, CogType, TargetLayout, LayoutResult, laid_out,
  failed, invalid_target, ◌>>=◌, uint64_max, or_fail, round_up, scalar_align, rounded,
  pointer_layout, slice_layout, array_layout, union_fields, struct_fields, struct_sum,
  struct_layout, function_layout, enum_layout, layout_kind, on_stack, max_depth, layout_impl,
  target_layout_of_type,
}

abbrev pub Returned : Option LayoutResult → Type 0
Returned r = (x : LayoutResult) × (r ≡ some x)

abbrev Lays : (Option TypePtr → Option LayoutResult) → Type 0
Lays lay = (q : Option TypePtr) → Returned (lay q)

Returned->>= :
    (r : Option LayoutResult) (f : TargetLayout → Option LayoutResult)
    → Returned r
    → ((l : TargetLayout) → Returned (f l))
    → Returned (r >>= f)
Returned->>= none f (x, e) k = cc
Returned->>= (some (laid_out l)) f h k = k l
Returned->>= (some (failed message)) f h k = (failed message, refl)
Returned->>= (some (invalid_target message)) f h k = (invalid_target message, refl)

or_fail-Returned :
    (r : Option ℕ) (message : String) (f : ℕ → Option LayoutResult)
    → ((n : ℕ) → Returned (f n))
    → Returned (or_fail r message f)
or_fail-Returned none message f h = (failed message, refl)
or_fail-Returned (some n) message f h = h n

rounded-Returned : (size align : ℕ) (message : String) → Returned (rounded size align message)
unfolding rounded
rounded-Returned size align message = or_fail-Returned (round_up size align) _ _ λ whole. (_, refl)

if-Returned :
    (b : Bool) (x y : Option LayoutResult) → Returned x → Returned y → Returned (if b then x else y)
if-Returned true x y h k = h
if-Returned false x y h k = k

slice-Returned : (target : TargetInfo) → Returned (slice_layout target)
unfolding slice_layout
slice-Returned target =
    or_fail-Returned
      (round_up (pointer_layout target).size (scalar_align target target.pointer_bits)) _ _
      λ offset.
        if-Returned (ltb (uint64_max - target.pointer_bits / 8) offset) _ _ (_, refl)
          (rounded-Returned _ _ _)

array-Returned :
    (n : Option ℕ) (element : Option LayoutResult)
    → Returned element
    → Returned (array_layout n element)
unfolding array_layout
array-Returned none element h = (_, refl)
array-Returned (some n) element h =
    Returned->>= element _ h
      λ e. if-Returned (ltb 0 n && ltb (uint64_max / n) e.size) _ _ (_, refl) (_, refl)

union-Returned :
    (lay : Option TypePtr → Option LayoutResult) (fields : List StructField) (sum : TargetLayout)
    → Lays lay
    → Returned (union_fields lay fields sum)
unfolding union_fields
union-Returned lay [] sum h = (_, refl)
union-Returned lay (f ∷ fields) sum h =
    Returned->>= (lay f.type) _ (h f.type) λ l. union-Returned lay fields _ h

fields-Returned :
    (lay : Option TypePtr → Option LayoutResult) (packed : Bool) (fields : List StructField)
    (sum : TargetLayout)
    → Lays lay
    → Returned (struct_fields lay packed fields sum)
unfolding struct_fields
fields-Returned lay packed [] sum h = (_, refl)
fields-Returned lay packed (f ∷ fields) sum h = Returned->>= (lay f.type) _ (h f.type) λ l.
    or_fail-Returned (round_up sum.size (if packed then 1 else l.align)) _ _ λ offset.
      if-Returned (ltb (uint64_max - l.size) offset) _ _ (_, refl)
        (fields-Returned lay packed fields _ h)

sum-Returned :
    (lay : Option TypePtr → Option LayoutResult) (t : CogType)
    → Lays lay
    → Returned (struct_sum lay t)
unfolding struct_sum
sum-Returned lay t h =
    if-Returned t.struct_is_union _ _ (union-Returned lay t.fields _ h)
      (fields-Returned lay t.struct_repr_c_packed t.fields _ h)

struct-Returned :
    (lay : Option TypePtr → Option LayoutResult) (t : CogType)
    → Lays lay
    → Returned (struct_layout lay t)
unfolding struct_layout
struct-Returned lay t h =
    if-Returned t.struct_is_incomplete _ _ (_, refl)
      (Returned->>= (struct_sum lay t) _ (sum-Returned lay t h) λ sum. rounded-Returned _ _ _)

function-Returned :
    (target : TargetInfo) (abi : FunctionAbi) → Returned (function_layout target abi)
unfolding function_layout
function-Returned target FunctionAbi.c_abi = (_, refl)
function-Returned target FunctionAbi.coglet_abi = (_, refl)

enum-Returned :
    (lay : Option TypePtr → Option LayoutResult) (backing : Option TypePtr)
    → ((q : TypePtr) → backing ≡ some q → Returned (lay (some q)))
    → Returned (enum_layout lay backing)
unfolding enum_layout
enum-Returned lay none h = (_, refl)
enum-Returned lay (some q) h = h q refl

kind-Returned :
    (target : TargetInfo) (inner same : Option TypePtr → Option LayoutResult) (t : CogType)
    (kind : TypeKind)
    → Lays inner
    → ((q : TypePtr)
        → kind ≡ TypeKind.type_enum
        → t.enum_backing_type ≡ some q
        → Returned (same (some q)))
    → Returned (layout_kind target inner same t kind)
unfolding layout_kind
kind-Returned target inner same t TypeKind.type_function h k =
    function-Returned target t.function_abi
kind-Returned target inner same t TypeKind.type_array h k =
    array-Returned t.array_size (inner t.element) (h t.element)
kind-Returned target inner same t TypeKind.type_slice h k = slice-Returned target
kind-Returned target inner same t TypeKind.type_enum h k =
    enum-Returned same t.enum_backing_type λ q e. k q refl e
kind-Returned target inner same t TypeKind.type_struct h k = struct-Returned inner t h
kind-Returned target inner same t _ h k = (_, refl)

-- An enum's backing type is no enum.
abbrev pub PlainBacking : (TypePtr → CogType) → Type 0
PlainBacking types =
    (p q : TypePtr)
    → (types p).kind ≡ TypeKind.type_enum
    → (types p).enum_backing_type ≡ some q
    → (types q).kind ≢ TypeKind.type_enum

-- One more call for an enum, which does not go on the stack.
enum_calls : TypeKind → ℕ
enum_calls TypeKind.type_enum = 1
enum_calls _ = 0

enum_calls-other : (k : TypeKind) → k ≢ TypeKind.type_enum → enum_calls k ≡ 0
unfolding enum_calls
enum_calls-other TypeKind.type_enum h = absurd (h refl)
enum_calls-other _ h = refl

enum_calls-enum : (k : TypeKind) → k ≡ TypeKind.type_enum → enum_calls k ≡ 1
unfolding enum_calls
enum_calls-enum k h = ap enum_calls h

enum_calls-le : (k : TypeKind) → enum_calls k ≤ 1
unfolding enum_calls
enum_calls-le TypeKind.type_enum = omega arith
enum_calls-le _ = omega arith

abbrev calls : (TypePtr → CogType) → Option TypePtr → ℕ
calls types none = 0
calls types (some p) = enum_calls (types p).kind

calls-le : (types : TypePtr → CogType) (type : Option TypePtr) → calls types type ≤ 1
calls-le types none = omega arith
calls-le types (some p) = enum_calls-le (types p).kind

impl-Returned :
    (fuel : ℕ) (target : TargetInfo) (types : TypePtr → CogType) (stack : List TypePtr)
    (type : Option TypePtr)
    → PlainBacking types
    → 2 * (max_depth + 1 - length stack) + calls types type < fuel
    → Returned (layout_impl fuel target types stack type)
unfolding layout_impl
impl-Returned zero target types stack type h small = absurd (omega arith)
impl-Returned (suc fuel) target types stack none h small = (_, refl)
impl-Returned (suc fuel) target types stack (some p) h small =
    elim (Bool-cases (leb max_depth (length stack))) [
      | inl deep ↦ rw deep (_, refl)
      | inr room ↦ elim (Bool-cases (on_stack stack p)) [
        | inl open_type ↦ rw (room, open_type) (_, refl)
        | inr new ↦
            let below : length stack < max_depth = ground arith in
            rw (room, new)
              (kind-Returned target (layout_impl fuel target types (p ∷ stack))
                (layout_impl fuel target types stack) (types p) (types p).kind
                (λ q.
                  impl-Returned fuel target types (p ∷ stack) q h (omega (arith, calls-le types q)))
                (λ q is_enum backing. impl-Returned fuel target types stack (some q) h (
                  omega (
                    arith,
                    enum_calls-other (types q).kind (h p q is_enum backing),
                    enum_calls-enum (types p).kind is_enum,
                  ))))
      ]
    ]

-- `target_layout_of_type` returns, within 516 nested calls, on every graph of types in which no enum
-- is backed by an enum: also where a type contains itself.
pub target_layout_of_type-Returned :
    (fuel : ℕ) (target : TargetInfo) (types : TypePtr → CogType) (type : Option TypePtr)
    → PlainBacking types
    → 516 ≤ fuel
    → (x : LayoutResult) × (target_layout_of_type fuel target types type ≡ some x)
unfolding target_layout_of_type
target_layout_of_type-Returned fuel target types type h enough = go (target_info_validate target)
  where
    go :
        (v : Option String)
        → Returned (elim v [
          | some message ↦ some (invalid_target message)
          | none ↦ layout_impl fuel target types [] type
        ])
    go (some message) = (_, refl)
    go none = impl-Returned fuel target types [] type h (omega (arith, calls-le types type))
