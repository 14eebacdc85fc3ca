-- ===== src/CogIr/Build/Built.antt =====
-- The operations of the builder, one after another.
use coglet.Prelude.{
  ℕ, zero, suc, ◌≡◌, refl, sym, ap, subst, ◌∙◌, inl, inr, Listed, length, get_elem?, Bool, true,
  false, not, ◌||◌, List, [], ◌∷◌, ◌++◌, Option, none, some, leb, ◌==◌, if◌then◌else◌,
}
use coglet.Source.Span.{SourceSpan}
use coglet.CogIr.Module.{
  CogIrId, id_invalid, CogIrValueKind, value_function_parameter, value_block_parameter,
  value_instruction, CogIrValue, CogIrBlockParam, CogIrInstruction, CogIrTerminator, CogIrBlock,
  CogIrFunction, CogIrModule, cog_ir_get_block,
}
use coglet.CogIr.Build.{
  new_value, with_value, append_value, new_block, takes_blocks, with_new_block, cog_ir_add_block,
  with_block, with_parameter, cog_ir_add_block_parameter, with_instruction, is_open, emit_in,
  cog_ir_emit, cog_ir_set_terminator,
}
use coglet.CogIr.Build.Registered.{
  snoc-old, MadeAt, IsBuilt, Grows, GrowsTo, same-Grows, some-eq, set_at-GrowsTo, grows-IsBuilt,
  append_value_lem, instruction-Grows, adds_parameter-IsBuilt, adds_instruction-IsBuilt,
}
use coglet.CogIr.Verify.Runs.{IsRegistered, IsMade, param_values}
use coglet.CogIr.Verify.Edges.{lookup-get_elem?}

-- An operation that may fail, and keeps the metadata in order where it does not.
abbrev Keeps : Option (CogIrId × CogIrFunction) → Type 0
Keeps none = Unit {0}
Keeps (some r) = IsBuilt r.1

snoc-GrowsTo : (bs : List CogIrBlock) (b : CogIrBlock) → GrowsTo bs (bs ++ (b ∷ []))
unfolding GrowsTo
snoc-GrowsTo bs b n c at = (c, snoc-old bs b n c at, same-Grows c)

unless-Keeps :
    (b : Bool) (r : CogIrId × CogIrFunction) → IsBuilt r.1 → Keeps (if b then none else some r)
unless-Keeps true r h = tt
unless-Keeps false r h = h

add_block-Keeps :
    (f : CogIrFunction) (span : SourceSpan) → IsBuilt f → Keeps (cog_ir_add_block f span)
unfolding cog_ir_add_block
add_block-Keeps f span built =
    unless-Keeps (not (takes_blocks f.kind) || leb id_invalid (length f.blocks))
      (length f.blocks, with_new_block f span)
      (grows-IsBuilt f (with_new_block f span) refl
        (snoc-GrowsTo f.blocks (new_block (length f.blocks) span)) refl built)

-- What follows a value that was appended.
appended-Keeps :
    (m : CogIrModule) (f : CogIrFunction) (type : CogIrId) (kind : CogIrValueKind) (id : CogIrId)
    (ordinal : ℕ) (next : CogIrId → CogIrBlock)
    → IsBuilt (
        with_block
          (with_value f (new_value (length f.values) type kind id ordinal))
          id
          (next (length f.values)))
    → Keeps (elim (append_value m f type kind id ordinal) [
      | none ↦ none
      | some (value, f') ↦ some (value, with_block f' id (next value))
    ])
appended-Keeps m f type kind id ordinal next built = go (append_value m f type kind id ordinal) refl
  where
    go :
        (r : Option (CogIrId × CogIrFunction))
        → append_value m f type kind id ordinal ≡ r
        → Keeps (elim r [
          | none ↦ none
          | some (value, f') ↦ some (value, with_block f' id (next value))
        ])
    go none e = tt
    go (some (value, f')) e =
        let (value_is, f_is) = append_value_lem m f f' type kind id ordinal value e in
        subst (λ v. IsBuilt (with_block f' id (next v))) (sym value_is)
          (subst (λ g. IsBuilt (with_block g id (next (length f.values)))) (sym f_is) built)

add_block_parameter-Keeps :
    (m : CogIrModule) (f : CogIrFunction) (id type : CogIrId)
    → IsBuilt f
    → Keeps (cog_ir_add_block_parameter m f id type)
unfolding cog_ir_add_block_parameter
add_block_parameter-Keeps m f id type built = go (cog_ir_get_block f id) refl
  where
    go :
        (r : Option CogIrBlock)
        → cog_ir_get_block f id ≡ r
        → Keeps (elim r [
          | none ↦ none
          | some block ↦
              elim (append_value m f type value_block_parameter id (length block.parameters)) [
                | none ↦ none
                | some (value, f') ↦
                    some (value, with_block f' id (with_parameter block value type))
              ]
        ])
    go none e = tt
    go (some b) e =
        appended-Keeps m f type value_block_parameter id (length b.parameters)
          (λ v. with_parameter b v type)
          (adds_parameter-IsBuilt f id type b (lookup-get_elem? f.blocks id b e) built)

emit_in-Keeps :
    (m : CogIrModule) (f : CogIrFunction) (id : CogIrId) (input : CogIrInstruction) (b : CogIrBlock)
    → get_elem? f.blocks id ≡ some b
    → IsBuilt f
    → Keeps (emit_in m f id input b)
unfolding emit_in
emit_in-Keeps m f id input b here built =
    go (not (is_open b.terminator.kind)) (input.result_type == id_invalid)
  where
    go :
        (closed void : Bool)
        → Keeps (
            if closed
            then none
            else if void
            then some (
              id_invalid,
              with_block f id (with_instruction b (record input { result = id_invalid })),
            )
            else elim (append_value m f input.result_type value_instruction id
                (length b.instructions)) [
                  | none ↦ none
                  | some (value, f') ↦ some (
                    value,
                    with_block f' id (with_instruction b (record input { result = value })),
                  )
                ])
    go true void = tt
    go false true =
        let i = record input { result = id_invalid } in
        grows-IsBuilt f (with_block f id (with_instruction b i)) refl
          (set_at-GrowsTo f.blocks id b (with_instruction b i) here (instruction-Grows b i)) refl
          built
    go false false =
        appended-Keeps m f input.result_type value_instruction id (length b.instructions)
          (λ v. with_instruction b (record input { result = v }))
          (adds_instruction-IsBuilt f id input b here built)

emit-Keeps :
    (m : CogIrModule) (f : CogIrFunction) (id : CogIrId) (input : CogIrInstruction)
    → IsBuilt f
    → Keeps (cog_ir_emit m f id input)
unfolding cog_ir_emit
emit-Keeps m f id input built = go (cog_ir_get_block f id) refl
  where
    go :
        (r : Option CogIrBlock)
        → cog_ir_get_block f id ≡ r
        → Keeps (elim r [ none ↦ none | some block ↦ emit_in m f id input block ])
    go none e = tt
    go (some b) e = emit_in-Keeps m f id input b (lookup-get_elem? f.blocks id b e) built

terminator-Grows :
    (b : CogIrBlock) (input : CogIrTerminator) → Grows b (record b { terminator = input })
terminator-Grows b input = record { parameters = λ n p h. h; instructions = λ n i h. h }

abbrev KeepsBody : Option CogIrFunction → Type 0
KeepsBody none = Unit {0}
KeepsBody (some f') = IsBuilt f'

set_terminator-KeepsBody :
    (f : CogIrFunction) (id : CogIrId) (input : CogIrTerminator)
    → IsBuilt f
    → KeepsBody (cog_ir_set_terminator f id input)
unfolding cog_ir_set_terminator
set_terminator-KeepsBody f id input built = go (cog_ir_get_block f id) refl
  where
    unless_open :
        (b : CogIrBlock) (c : Bool)
        → get_elem? f.blocks id ≡ some b
        → KeepsBody (if c then none else some (with_block f id (record b { terminator = input })))
    unless_open b true here = tt
    unless_open b false here =
        let b' = record b { terminator = input } in
        grows-IsBuilt f (with_block f id b') refl
          (set_at-GrowsTo f.blocks id b b' here (terminator-Grows b input)) refl built

    go :
        (r : Option CogIrBlock)
        → cog_ir_get_block f id ≡ r
        → KeepsBody (elim r [
          | none ↦ none
          | some block ↦
              if is_open input.kind || not (is_open block.terminator.kind)
              then none
              else some (with_block f id (record block { terminator = input }))
        ])
    go none e = tt
    go (some b) e =
        unless_open b (is_open input.kind || not (is_open b.terminator.kind))
          (lookup-get_elem? f.blocks id b e)

-- `g` is `f` behind some calls of the builder, each with what it gave.
pub data Builds (f : CogIrFunction) : CogIrFunction → Type 0 where
  builds_nothing : Builds f f
  adds_block :
      {g h : CogIrFunction} (span : SourceSpan) (id : CogIrId)
      → Builds f g
      → cog_ir_add_block g span ≡ some (id, h)
      → Builds f h
  adds_parameter :
      {g h : CogIrFunction} (m : CogIrModule) (block type id : CogIrId)
      → Builds f g
      → cog_ir_add_block_parameter m g block type ≡ some (id, h)
      → Builds f h
  emits :
      {g h : CogIrFunction} (m : CogIrModule) (block : CogIrId) (input : CogIrInstruction)
      (id : CogIrId)
      → Builds f g
      → cog_ir_emit m g block input ≡ some (id, h)
      → Builds f h
  ends_block :
      {g h : CogIrFunction} (block : CogIrId) (input : CogIrTerminator)
      → Builds f g
      → cog_ir_set_terminator g block input ≡ some h
      → Builds f h

Builds-IsBuilt : (f g : CogIrFunction) → IsBuilt f → Builds f g → IsBuilt g
Builds-IsBuilt f g built builds_nothing = built
Builds-IsBuilt f h built (adds_block {g} span id before e) =
    subst Keeps e (add_block-Keeps g span (Builds-IsBuilt f g built before))
Builds-IsBuilt f h built (adds_parameter {g} m block type id before e) =
    subst Keeps e (add_block_parameter-Keeps m g block type (Builds-IsBuilt f g built before))
Builds-IsBuilt f h built (emits {g} m block input id before e) =
    subst Keeps e (emit-Keeps m g block input (Builds-IsBuilt f g built before))
Builds-IsBuilt f h built (ends_block {g} block input before e) =
    subst KeepsBody e (set_terminator-KeepsBody g block input (Builds-IsBuilt f g built before))

Listed-param :
    (ps : List CogIrBlockParam) (n : ℕ) (p : CogIrBlockParam) (id : CogIrId)
    → get_elem? ps n ≡ some p
    → p.value ≡ id
    → Listed id (param_values ps)
Listed-param [] n p id h e = absurd (cc)
Listed-param (q ∷ ps) zero p id h e =
    inl (sym e ∙ ap (λ (t : CogIrBlockParam). t.value) (sym (some-eq q p h)))
Listed-param (q ∷ ps) (suc n) p id h e = inr (Listed-param ps n p id h e)

MadeAt-IsMade :
    (f : CogIrFunction) (id : CogIrId) (value : CogIrValue) (kind : CogIrValueKind)
    → MadeAt f id value kind
    → IsMade f id value kind
MadeAt-IsMade f id value value_function_parameter made = made
MadeAt-IsMade f id value value_block_parameter (b, p, at, here, own) = λ block at'.
    subst (λ (t : CogIrBlock). Listed id (param_values t.parameters))
      (some-eq b block (sym at ∙ at')) (Listed-param b.parameters value.ordinal p id here own)
MadeAt-IsMade f id value value_instruction (b, i, at, here, own) = λ block j at' here'.
    let same : b ≡ block = some-eq b block (sym at ∙ at') in
    let is_j : i ≡ j =
      some-eq i j
        (sym here ∙ ap (λ (t : CogIrBlock). get_elem? t.instructions value.ordinal) same ∙ here') in
    ap (λ (t : CogIrInstruction). t.result) (sym is_j) ∙ own

-- If in a function each value stands under its own id, and its metadata names the parameter, block
-- parameter or instruction that makes it, then this holds still behind any number of calls of
-- `cog_ir_add_block`, `cog_ir_add_block_parameter`, `cog_ir_emit` and `cog_ir_set_terminator`. So, if the
-- entry block has no parameters, the metadata is then as the runs of a verified function ask for.
pub Builds-IsRegistered :
    (f g : CogIrFunction)
    → IsBuilt f
    → Builds f g
    → ((block : CogIrBlock) → get_elem? g.blocks g.entry_block ≡ some block → block.parameters ≡ [])
    → IsRegistered g
Builds-IsRegistered f g built moves entry =
    let made = Builds-IsBuilt f g built moves in
    record {
      own_id = λ id value h. (made id value (lookup-get_elem? g.values id value h)).0;
      made = λ id value h.
          MadeAt-IsMade g id value value.kind
            (made id value (lookup-get_elem? g.values id value h)).1;
      entry = entry;
    }
