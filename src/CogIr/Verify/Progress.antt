-- ===== src/CogIr/Verify/Progress.antt =====
-- A verified function never reads a value that is not there, and never runs off a block.
use coglet.Prelude.{
  ℕ, zero, suc, ◌+◌, ◌≤◌, ◌≡◌, ◌≢◌, ◌⊎◌, inl, inr, refl, sym, ap, subst, ◌∙◌, All, length,
  get_elem?, true, not, ◌&&◌, and_true, List, [], ◌∷◌, some, ◌==◌, ==_iff, if◌then◌else◌, arith,
}
use coglet.CogIr.Module.{
  CogIrId, CogIrFunctionKind, function_definition, CogIrFunctionType, CogIrTypeKind, ir_function,
  CogIrType, CogIrInstruction, CogIrBranchEdge, term_none, CogIrBlock, CogIrFunction, CogIrModule,
  cog_ir_get_type, cog_ir_get_block,
}
use coglet.CogIr.Verify.{is_some_and, valid_span, value_available, at_the_end}
use coglet.CogIr.Verify.Functions.{result_ok, verify_instruction, terminator_ok}
use coglet.CogIr.Verify.Bodies.{
  signature_ok, is_definition, is_external, value_abis_ok, parameters_ok, slots_ok,
  block_parameters_ok, instructions_ok, block_ok, blocks_ok, declaration_ok, definition_ok,
  function_type_ok, verify_function,
}
use coglet.CogIr.Verify.Operands.{Passing, is_some_and-true, operation-Passing}
use coglet.CogIr.Verify.Runs.{edges, Runs, IsRegistered, operands, asked_for}
use coglet.CogIr.Verify.Defined.{AllListed, Holds, Runs-Holds, Passing-AllListed}
use coglet.CogIr.Verify.Edges.{Matches, EdgeFits, TerminatorFits, terminator-TerminatorFits}

-- An edge may be taken: its target is there and takes its arguments, which are there too.
pub record Takes (f : CogIrFunction) (defined : List CogIrId) (edge : CogIrBranchEdge)
    : Type 0 where
  pub target : CogIrBlock
  pub target_is : get_elem? f.blocks edge.target ≡ some target
  pub arguments : Matches f edge.arguments target.parameters
  pub there : AllListed edge.arguments defined

-- What comes next in a run: an instruction, whose operands are there, or the end of the block, with a
-- terminator that asks only for what is there, and each of whose edges may be taken.
pub data Next (f : CogIrFunction) (block : CogIrBlock) (n : ℕ) (defined : List CogIrId)
    : Type 0 where
  executes :
      (i : CogIrInstruction)
      → get_elem? block.instructions n ≡ some i
      → AllListed (operands i.op) defined
      → Next f block n defined
  leaves :
      n ≡ length block.instructions
      → block.terminator.kind ≢ term_none
      → AllListed (asked_for block.terminator.kind) defined
      → All (Takes f defined) (edges block.terminator.kind)
      → Next f block n defined

get_elem?-cases :
    {A : Type 0} (xs : List A) (n : ℕ)
    → n ≤ length xs
    → ((x : A) × (get_elem? xs n ≡ some x)) ⊎ (n ≡ length xs)
get_elem?-cases [] n h = inr (omega arith)
get_elem?-cases (x ∷ xs) zero h = inl (x, refl)
get_elem?-cases (x ∷ xs) (suc n) h = elim (get_elem?-cases xs n (omega arith)) [
  | inl found ↦ inl found
  | inr last ↦ inr (omega (arith, last))
]

instructions_ok-at :
    (m : CogIrModule) (f : CogIrFunction) (block : CogIrBlock) (start n : ℕ)
    (instructions : List CogIrInstruction) (i : CogIrInstruction)
    → instructions_ok m f block start instructions ≡ true
    → get_elem? instructions n ≡ some i
    → verify_instruction m f block (start + n) i ≡ true
unfolding instructions_ok
instructions_ok-at m f block start n [] i h at = absurd (cc)
instructions_ok-at m f block start zero (j ∷ instructions) i h at =
    let here = and_true (verify_instruction m f block start j) _ h in
    let same : j ≡ i = cc in
    let no_more : start + zero ≡ start = omega arith in
    subst (λ k. verify_instruction m f block k i ≡ true) (sym no_more)
      (subst (λ t. verify_instruction m f block start t ≡ true) same here.0)
instructions_ok-at m f block start (suc n) (j ∷ instructions) i h at =
    let here = and_true (verify_instruction m f block start j) _ h in
    let shifted : start + 1 + n ≡ start + suc n = omega arith in
    subst (λ k. verify_instruction m f block k i ≡ true) shifted
      (instructions_ok-at m f block (start + 1) n instructions i here.1 at)

blocks_ok-at :
    (m : CogIrModule) (f : CogIrFunction) (type : CogIrFunctionType) (start n : ℕ)
    (blocks : List CogIrBlock) (block : CogIrBlock)
    → blocks_ok m f type start blocks ≡ true
    → get_elem? blocks n ≡ some block
    → block_ok m f type (start + n) block ≡ true
unfolding blocks_ok
blocks_ok-at m f type start n [] block h at = absurd (cc)
blocks_ok-at m f type start zero (b ∷ blocks) block h at =
    let here = and_true (block_ok m f type start b) _ h in
    let same : b ≡ block = cc in
    let no_more : start + zero ≡ start = omega arith in
    subst (λ k. block_ok m f type k block ≡ true) (sym no_more)
      (subst (λ t. block_ok m f type start t ≡ true) same here.0)
blocks_ok-at m f type start (suc n) (b ∷ blocks) block h at =
    let here = and_true (block_ok m f type start b) _ h in
    let shifted : start + 1 + n ≡ start + suc n = omega arith in
    subst (λ k. block_ok m f type k block ≡ true) shifted
      (blocks_ok-at m f type (start + 1) n blocks block here.1 at)

-- What the check of a block says, for a block that stands where its id says.
record Checked (m : CogIrModule) (f : CogIrFunction) (id : CogIrId) (block : CogIrBlock)
    : Type 0 where
  result_type : CogIrId
  own_id : block.id ≡ id
  instructions : instructions_ok m f block 0 block.instructions ≡ true
  terminator : terminator_ok m f block.id result_type block.terminator.kind ≡ true

block_ok-Checked :
    (m : CogIrModule) (f : CogIrFunction) (type : CogIrFunctionType) (id : ℕ) (block : CogIrBlock)
    → block_ok m f type id block ≡ true
    → Checked m f id block
unfolding block_ok
block_ok-Checked m f type id block h =
    let own = and_true (block.id == id) _ h in
    let spans = and_true (valid_span m block.span) _ own.1 in
    let parameters = and_true (block_parameters_ok m f block 0 block.parameters) _ spans.1 in
    let instructions = and_true (instructions_ok m f block 0 block.instructions) _ parameters.1 in
    let ends = and_true (valid_span m block.terminator.span) _ instructions.1 in
    record {
      result_type = type.result_type;
      own_id = (==_iff block.id id).0 own.0;
      instructions = instructions.0;
      terminator = ends.1;
    }

definition_ok-blocks :
    (m : CogIrModule) (f : CogIrFunction) (type : CogIrFunctionType)
    → definition_ok m f type ≡ true
    → blocks_ok m f type 0 f.blocks ≡ true
unfolding definition_ok
definition_ok-blocks m f type h =
    let entry = and_true (is_some_and (cog_ir_get_block f f.entry_block) (λ b. true)) _ h in
    let parameters = and_true (parameters_ok f 0 type.parameter_types f.parameters) _ entry.1 in
    (and_true (slots_ok m type 0 f.slots) _ parameters.1).1

function_type_ok-blocks :
    (m : CogIrModule) (f : CogIrFunction) (kind : CogIrTypeKind)
    → f.kind ≡ function_definition
    → function_type_ok m f kind ≡ true
    → (type : CogIrFunctionType) × (blocks_ok m f type 0 f.blocks ≡ true)
unfolding function_type_ok
function_type_ok-blocks m f (ir_function type) definition h =
    let span = and_true (valid_span m f.span) _ h in
    let signature = and_true (signature_ok f type) _ span.1 in
    let linkage = and_true (not (is_external f.linkage && is_definition f.kind)) _ signature.1 in
    let rest = and_true (value_abis_ok m f.values) _ linkage.1 in
    let body = λ (k : CogIrFunctionKind).
      if is_definition k then definition_ok m f type else declaration_ok f in
    (type, definition_ok-blocks m f type (sym (ap body definition) ∙ rest.1))
function_type_ok-blocks m f _ definition h = absurd (cc)

-- What `verify_function` says of the blocks of a definition.
verify_function-blocks :
    (m : CogIrModule) (f : CogIrFunction)
    → f.kind ≡ function_definition
    → verify_function m f ≡ true
    → (type : CogIrFunctionType) × (blocks_ok m f type 0 f.blocks ≡ true)
unfolding verify_function
verify_function-blocks m f definition h =
    let (type, _, ok) =
      is_some_and-true (cog_ir_get_type m f.type)
        (λ (type : CogIrType). function_type_ok m f type.kind) h in
    function_type_ok-blocks m f type.kind definition ok

instruction-Next :
    (m : CogIrModule) (f : CogIrFunction) (id : CogIrId) (block : CogIrBlock) (n : ℕ)
    (defined : List CogIrId) (i : CogIrInstruction)
    → IsRegistered f
    → Checked m f id block
    → Holds f id block n defined
    → get_elem? block.instructions n ≡ some i
    → Next f block n defined
unfolding verify_instruction
instruction-Next m f id block n defined i r c h here =
    let from_zero : 0 + n ≡ n = omega arith in
    let ok : verify_instruction m f block n i ≡ true =
      subst (λ k. verify_instruction m f block k i ≡ true) from_zero
        (instructions_ok-at m f block 0 n block.instructions i c.instructions here) in
    let span = and_true (valid_span m i.span) _ ok in
    let result = and_true (result_ok f block n i) _ span.1 in
    let passing =
      operation-Passing m f (value_available f block.id n) i.result_type i.op result.1 in
    executes i here (
      Passing-AllListed f id block n defined n (operands i.op) r h (inl refl)
        (subst (λ b. Passing (value_available f b n) (operands i.op)) c.own_id passing))

edges-Takes :
    (f : CogIrFunction) (id : CogIrId) (block : CogIrBlock) (n : ℕ) (defined : List CogIrId)
    (es : List CogIrBranchEdge)
    → IsRegistered f
    → Holds f id block n defined
    → n ≡ length block.instructions
    → All (EdgeFits f id) es
    → All (Takes f defined) es
edges-Takes f id block n defined [] r h e fits = tt
edges-Takes f id block n defined (edge ∷ es) r h e fits = (
  record {
    target = fits.0.target;
    target_is = fits.0.target_is;
    arguments = fits.0.arguments;
    there =
        Passing-AllListed f id block n defined at_the_end edge.arguments r h (inr e)
          fits.0.available;
  },
  edges-Takes f id block n defined es r h e fits.1,
)

terminator-Next :
    (m : CogIrModule) (f : CogIrFunction) (id : CogIrId) (block : CogIrBlock) (n : ℕ)
    (defined : List CogIrId)
    → IsRegistered f
    → Checked m f id block
    → Holds f id block n defined
    → n ≡ length block.instructions
    → Next f block n defined
terminator-Next m f id block n defined r c h e =
    let kind = block.terminator.kind in
    let fits : TerminatorFits f id kind =
      subst (λ b. TerminatorFits f b kind) c.own_id
        (terminator-TerminatorFits m f block.id c.result_type kind r c.terminator) in
    leaves e fits.present
      (Passing-AllListed f id block n defined at_the_end (asked_for kind) r h (inr e) fits.reads)
      (edges-Takes f id block n defined (edges kind) r h e fits.edges_fit)

-- A run of a function definition that `verify_function` accepts, with its metadata in order, has a
-- next step wherever it stands.
pub verify_function-Next :
    (m : CogIrModule) (f : CogIrFunction) (id : CogIrId) (block : CogIrBlock) (n : ℕ)
    (defined : List CogIrId)
    → f.kind ≡ function_definition
    → verify_function m f ≡ true
    → IsRegistered f
    → Runs f id block n defined
    → Next f block n defined
verify_function-Next m f id block n defined definition ok r run =
    let h = Runs-Holds f id block n defined r run in
    let (type, blocks) = verify_function-blocks m f definition ok in
    let from_zero : 0 + id ≡ id = omega arith in
    let checked : block_ok m f type id block ≡ true =
      subst (λ k. block_ok m f type k block ≡ true) from_zero
        (blocks_ok-at m f type 0 id f.blocks block blocks h.stands) in
    let c = block_ok-Checked m f type id block checked in
    elim (get_elem?-cases block.instructions n h.bound) [
      | inl (i, here) ↦ instruction-Next m f id block n defined i r c h here
      | inr last ↦ terminator-Next m f id block n defined r c h last
    ]
