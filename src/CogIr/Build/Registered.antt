-- ===== src/CogIr/Build/Registered.antt =====
-- The builder keeps the metadata of values in order: each value names the place that makes it.
use coglet.Prelude.{
  ℕ, zero, suc, ◌≡◌, ◌≢◌, ◌⊎◌, inl, inr, refl, sym, ap, subst, ◌∙◌, Listed, length, get_elem?, List,
  [], ◌∷◌, ◌++◌, none, some, Bool, true, false, not, ◌||◌, leb, if◌then◌else◌, ◌==◌, ==_iff,
  Bool-cases,
}
use coglet.CogIr.Module.{
  CogIrId, CogIrValueKind, value_function_parameter, value_block_parameter, value_instruction,
  CogIrValue, CogIrBlockParam, CogIrInstruction, CogIrBlock, CogIrFunction, CogIrModule, id_invalid,
}
use coglet.CogIr.Build.{
  append_value, new_value, with_value, has_type, with_block, with_parameter, with_instruction,
  set_at,
}

-- The place that a value's metadata names is there and makes this value.
abbrev pub MadeAt : CogIrFunction → CogIrId → CogIrValue → CogIrValueKind → Type 0
MadeAt f id value value_function_parameter = Listed id f.parameters
MadeAt f id value value_block_parameter =
    (block : CogIrBlock) × (p : CogIrBlockParam) × (get_elem? f.blocks value.block ≡ some block)
    × (get_elem? block.parameters value.ordinal ≡ some p)
    × (p.value ≡ id)
MadeAt f id value value_instruction =
    (block : CogIrBlock) × (i : CogIrInstruction) × (get_elem? f.blocks value.block ≡ some block)
    × (get_elem? block.instructions value.ordinal ≡ some i)
    × (i.result ≡ id)

abbrev pub IsBuilt : CogIrFunction → Type 0
IsBuilt f =
    (id : CogIrId) (value : CogIrValue)
    → get_elem? f.values id ≡ some value
    → (value.id ≡ id) × MadeAt f id value value.kind

module _ {A : Type 0} where
  pub snoc-old :
      (xs : List A) (y : A) (n : ℕ) (x : A)
      → get_elem? xs n ≡ some x
      → get_elem? (xs ++ (y ∷ [])) n ≡ some x
  snoc-old [] y n x h = absurd (cc)
  snoc-old (z ∷ xs) y zero x h = h
  snoc-old (z ∷ xs) y (suc n) x h = snoc-old xs y n x h

  snoc-new : (xs : List A) (y : A) → get_elem? (xs ++ (y ∷ [])) (length xs) ≡ some y
  snoc-new [] y = refl
  snoc-new (z ∷ xs) y = snoc-new xs y

  snoc-cases :
      (xs : List A) (y : A) (n : ℕ) (x : A)
      → get_elem? (xs ++ (y ∷ [])) n ≡ some x
      → (get_elem? xs n ≡ some x) ⊎ ((n ≡ length xs) × (y ≡ x))
  snoc-cases [] y zero x h = inr (refl, cc)
  snoc-cases [] y (suc n) x h = absurd (cc)
  snoc-cases (z ∷ xs) y zero x h = inl h
  snoc-cases (z ∷ xs) y (suc n) x h = elim (snoc-cases xs y n x h) [
    | inl old ↦ inl old
    | inr new ↦ inr (ap suc new.0, new.1)
  ]

  set_at-same :
      (xs : List A) (n : ℕ) (x y : A)
      → get_elem? xs n ≡ some x
      → get_elem? (set_at xs n y) n ≡ some y
  set_at-same [] n x y h = absurd (cc)
  set_at-same (z ∷ xs) zero x y h = refl
  set_at-same (z ∷ xs) (suc n) x y h = set_at-same xs n x y h

  set_at-other :
      (xs : List A) (n k : ℕ) (y : A) → k ≢ n → get_elem? (set_at xs n y) k ≡ get_elem? xs k
  set_at-other [] n k y h = refl
  set_at-other (z ∷ xs) zero zero y h = absurd (h refl)
  set_at-other (z ∷ xs) zero (suc k) y h = refl
  set_at-other (z ∷ xs) (suc n) zero y h = refl
  set_at-other (z ∷ xs) (suc n) (suc k) y h = set_at-other xs n k y (λ e. h (ap suc e))

-- A block that has grown: what it had is where it was.
pub record Grows (b b' : CogIrBlock) : Type 0 where
  pub parameters :
      (n : ℕ) (p : CogIrBlockParam)
      → get_elem? b.parameters n ≡ some p
      → get_elem? b'.parameters n ≡ some p
  pub instructions :
      (n : ℕ) (i : CogIrInstruction)
      → get_elem? b.instructions n ≡ some i
      → get_elem? b'.instructions n ≡ some i

-- The blocks of a function that has grown: every block is where it was, grown.
unfoldable pub GrowsTo : List CogIrBlock → List CogIrBlock → Type 0
GrowsTo bs bs' =
    (n : ℕ) (b : CogIrBlock)
    → get_elem? bs n ≡ some b
    → (b' : CogIrBlock) × (get_elem? bs' n ≡ some b') × Grows b b'

pub same-Grows : (b : CogIrBlock) → Grows b b
same-Grows b = record { parameters = λ n p h. h; instructions = λ n i h. h }

pub some-eq : {A : Type 0} (x y : A) → some x ≡ some y → x ≡ y
some-eq x y h = cc

pub set_at-GrowsTo :
    (bs : List CogIrBlock) (id : CogIrId) (b b' : CogIrBlock)
    → get_elem? bs id ≡ some b
    → Grows b b'
    → GrowsTo bs (set_at bs id b')
unfolding GrowsTo
set_at-GrowsTo bs id b b' here g n c at = elim (Bool-cases (n == id)) [
  | inl same ↦
      let e = (==_iff n id).0 same in
      let is_b : b ≡ c = some-eq b c (sym here ∙ ap (get_elem? bs) (sym e) ∙ at) in
      (
        b',
        subst (λ k. get_elem? (set_at bs id b') k ≡ some b') (sym e) (set_at-same bs id b b' here),
        subst (λ t. Grows t b') is_b g,
      )
  | inr other ↦
      let ne : n ≢ id = λ e. cc (sym other ∙ (==_iff n id).1 e) in
      (c, set_at-other bs id n b' ne ∙ at, same-Grows c)
]

MadeAt-Grows :
    (f f' : CogIrFunction) (id : CogIrId) (value : CogIrValue) (kind : CogIrValueKind)
    → f'.parameters ≡ f.parameters
    → GrowsTo f.blocks f'.blocks
    → MadeAt f id value kind
    → MadeAt f' id value kind
unfolding GrowsTo
MadeAt-Grows f f' id value value_function_parameter e g made =
    subst (λ ps. Listed id ps) (sym e) made
MadeAt-Grows f f' id value value_block_parameter e g (b, p, at, here, own) =
    let (b', at', grows) = g value.block b at in
    (b', p, at', grows.parameters value.ordinal p here, own)
MadeAt-Grows f f' id value value_instruction e g (b, i, at, here, own) =
    let (b', at', grows) = g value.block b at in
    (b', i, at', grows.instructions value.ordinal i here, own)

-- With the values as they were, and with a new one that is made where it says.
pub grows-IsBuilt :
    (f f' : CogIrFunction)
    → f'.parameters ≡ f.parameters
    → GrowsTo f.blocks f'.blocks
    → f'.values ≡ f.values
    → IsBuilt f
    → IsBuilt f'
grows-IsBuilt f f' e g values built id value h =
    let old = built id value (ap (λ vs. get_elem? vs id) (sym values) ∙ h) in
    (old.0, MadeAt-Grows f f' id value value.kind e g old.1)

adds-IsBuilt :
    (f f' : CogIrFunction) (new : CogIrValue)
    → f'.parameters ≡ f.parameters
    → GrowsTo f.blocks f'.blocks
    → f'.values ≡ f.values ++ (new ∷ [])
    → new.id ≡ length f.values
    → MadeAt f' (length f.values) new new.kind
    → IsBuilt f
    → IsBuilt f'
adds-IsBuilt f f' new e g values own made built id value h =
    elim (snoc-cases f.values new id value (ap (λ vs. get_elem? vs id) (sym values) ∙ h)) [
      | inl old ↦
          let was = built id value old in (was.0, MadeAt-Grows f f' id value value.kind e g was.1)
      | inr last ↦
          subst (λ (t : CogIrValue). (t.id ≡ id) × MadeAt f' id t t.kind) last.1
            (subst (λ k. (new.id ≡ k) × MadeAt f' k new new.kind) (sym last.0) (own, made))
    ]

unless_some : {A : Type 0} (b : Bool) (x y : A) → (if b then none else some x) ≡ some y → x ≡ y
unless_some true x y h = absurd (cc)
unless_some false x y h = some-eq x y h

pub append_value_lem :
    (m : CogIrModule) (f f' : CogIrFunction) (type : CogIrId) (kind : CogIrValueKind)
    (block : CogIrId) (ordinal : ℕ) (id : CogIrId)
    → append_value m f type kind block ordinal ≡ some (id, f')
    → (id ≡ length f.values)
      × (f' ≡ with_value f (new_value (length f.values) type kind block ordinal))
unfolding append_value
append_value_lem m f f' type kind block ordinal id h =
    let made : CogIrId × CogIrFunction =
      (length f.values, with_value f (new_value (length f.values) type kind block ordinal)) in
    let e : made ≡ (id, f') =
      unless_some (not (has_type m type) || leb id_invalid (length f.values)) made (id, f') h in
    (
      sym (ap (λ (r : CogIrId × CogIrFunction). r.0) e),
      sym (ap (λ (r : CogIrId × CogIrFunction). r.1) e),
    )

parameter-Grows : (b : CogIrBlock) (value type : CogIrId) → Grows b (with_parameter b value type)
parameter-Grows b value type = record {
  parameters = λ n p h. snoc-old b.parameters (record { value = value; type = type }) n p h;
  instructions = λ n i h. h;
}

pub instruction-Grows : (b : CogIrBlock) (j : CogIrInstruction) → Grows b (with_instruction b j)
instruction-Grows b j = record {
  parameters = λ n p h. h;
  instructions = λ n i h. snoc-old b.instructions j n i h;
}

-- `cog_ir_add_block_parameter` and `cog_ir_emit` where they add a value.
pub adds_parameter-IsBuilt :
    (f : CogIrFunction) (id type : CogIrId) (b : CogIrBlock)
    → get_elem? f.blocks id ≡ some b
    → IsBuilt f
    → let v = length f.values in
      IsBuilt (
        with_block
          (with_value f (new_value v type value_block_parameter id (length b.parameters)))
          id
          (with_parameter b v type))
adds_parameter-IsBuilt f id type b here built =
    let v = length f.values in
    let b' = with_parameter b v type in
    let new = new_value v type value_block_parameter id (length b.parameters) in
    adds-IsBuilt f (with_block (with_value f new) id b') new refl
      (set_at-GrowsTo f.blocks id b b' here (parameter-Grows b v type)) refl refl
      (
        b',
        record { value = v; type = type },
        set_at-same f.blocks id b b' here,
        snoc-new b.parameters (record { value = v; type = type }),
        refl,
      )
      built

pub adds_instruction-IsBuilt :
    (f : CogIrFunction) (id : CogIrId) (input : CogIrInstruction) (b : CogIrBlock)
    → get_elem? f.blocks id ≡ some b
    → IsBuilt f
    → let v = length f.values in
      IsBuilt (
        with_block
          (with_value f
            (new_value v input.result_type value_instruction id (length b.instructions)))
          id
          (with_instruction b (record input { result = v })))
adds_instruction-IsBuilt f id input b here built =
    let v = length f.values in
    let i = record input { result = v } in
    let b' = with_instruction b i in
    let new = new_value v input.result_type value_instruction id (length b.instructions) in
    adds-IsBuilt f (with_block (with_value f new) id b') new refl
      (set_at-GrowsTo f.blocks id b b' here (instruction-Grows b i)) refl refl
      (b', i, set_at-same f.blocks id b b' here, snoc-new b.instructions i, refl) built
