-- ===== src/CogIr/Verify/Sound.antt =====
-- What `cog_ir_verify` promises of a whole module.
use coglet.Prelude.{
  ℕ, zero, suc, ◌+◌, ◌≡◌, subst, get_elem?, Bool, true, false, ◌&&◌, and_true, List, [], ◌∷◌, none,
  some, ◌==◌,
}
use coglet.Target.Info.{target_info_validate}
use coglet.CogIr.Module.{
  CogIrId, function_definition, CogIrBlock, CogIrFunction, CogIrModule, cog_ir_get_function,
}
use coglet.CogIr.Verify.Bodies.{verify_function}
use coglet.CogIr.Verify.Modules.{
  types_ok, abi_types_ok, constants_ok, globals_ok, functions_ok, cog_ir_verify,
}
use coglet.CogIr.Verify.Runs.{Runs, IsRegistered}
use coglet.CogIr.Verify.Edges.{lookup-get_elem?}
use coglet.CogIr.Verify.Progress.{Next, verify_function-Next}

functions_ok-at :
    (m : CogIrModule) (start n : ℕ) (functions : List CogIrFunction) (f : CogIrFunction)
    → functions_ok m start functions ≡ true
    → get_elem? functions n ≡ some f
    → verify_function m f ≡ true
unfolding functions_ok
functions_ok-at m start n [] f h at = absurd (cc)
functions_ok-at m start zero (g ∷ functions) f h at =
    let here = and_true (g.id == start && verify_function m g) _ h in
    let same : g ≡ f = cc in
    subst (λ t. verify_function m t ≡ true) same (and_true (g.id == start) _ here.0).1
functions_ok-at m start (suc n) (g ∷ functions) f h at =
    let here = and_true (g.id == start && verify_function m g) _ h in
    functions_ok-at m (start + 1) n functions f here.1 at

cog_ir_verify-functions :
    (m : CogIrModule) → cog_ir_verify m ≡ true → functions_ok m 0 m.functions ≡ true
unfolding cog_ir_verify
cog_ir_verify-functions m h =
    let target : Bool = elim (target_info_validate m.target) [
      | none ↦ true
      | some message ↦ false
    ] in
    let types = and_true target _ h in
    let abi_types = and_true (types_ok m 0 m.types) _ types.1 in
    let constants = and_true (abi_types_ok m 0 m.abi_types) _ abi_types.1 in
    let globals = and_true (constants_ok m 0 m.constants) _ constants.1 in
    let functions = and_true (globals_ok m 0 m.globals) _ globals.1 in
    (and_true (functions_ok m 0 m.functions) _ functions.1).0

-- In a module that `cog_ir_verify` accepts, a function definition in which the metadata of each value
-- names what makes it and the entry block has no parameters never gets stuck: wherever a run of it
-- stands, either an instruction comes next and all values that it reads are there, or the block ends
-- in a terminator, what this asks for is there, and the target of each of its edges is a block that
-- takes the edge's arguments, which are there and have the types of the block's parameters.
pub cog_ir_verify-Next :
    (m : CogIrModule) (f : CogIrFunction) (function id : CogIrId) (block : CogIrBlock) (n : ℕ)
    (defined : List CogIrId)
    → cog_ir_verify m ≡ true
    → cog_ir_get_function m function ≡ some f
    → f.kind ≡ function_definition
    → IsRegistered f
    → Runs f id block n defined
    → Next f block n defined
cog_ir_verify-Next m f function id block n defined ok found definition r run =
    let listed = lookup-get_elem? m.functions function f found in
    let passes = functions_ok-at m 0 function m.functions f (cog_ir_verify-functions m ok) listed in
    verify_function-Next m f id block n defined definition passes r run
