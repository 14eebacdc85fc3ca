-- ===== src/CogIr/Verify/Edges.antt =====
-- What `verify_edge` and the checks of the terminators say of the edges that a run may take.
use coglet.Prelude.{
  ◌≡◌, ◌≢◌, sym, ap, subst, ◌∙◌, All, get_elem?, Bool, true, false, not, ◌&&◌, and_true, List, [],
  ◌∷◌, Option, none, some, ◌==◌, ==_iff, if◌then◌else◌, Bool-cases, inl, inr,
}
use coglet.CogIr.Module.{
  CogIrType, CogIrId, id_invalid, CogIrTypeKind, CogIrType, CogIrConstant, CogIrValue,
  CogIrBlockParam, CogIrBranchEdge, CogIrSwitchCase, CogIrTerminatorKind, term_none, term_br,
  term_cond_br, term_switch, term_ret, term_trap, term_unreachable, CogIrBlock, CogIrFunction,
  CogIrModule, lookup, cog_ir_get_type, cog_ir_get_constant, cog_ir_get_block, cog_ir_get_value,
}
use coglet.CogIr.Verify.{
  is_void, is_some_and, is_void, value_available, at_the_end, terminator_value_available,
}
use coglet.CogIr.Verify.Functions.{
  returns_nothing, returned_value_ok, branch_value_ok, is_condition, is_switchable,
  edge_arguments_ok, verify_edge, key_listed, cases_ok, return_ok, terminator_ok,
}
use coglet.CogIr.Verify.Operands.{Passing, is_some_and-true}
use coglet.CogIr.Verify.Runs.{case_edges, edges, IsRegistered, returned, asked_for}

-- The arguments are as many as the parameters, and each has the type of its parameter.
abbrev pub Matches : CogIrFunction → List CogIrId → List CogIrBlockParam → Type 0
Matches f [] [] = Unit {0}
Matches f (id ∷ ids) (p ∷ ps) =
    ((value : CogIrValue) × (cog_ir_get_value f id ≡ some value) × (value.type ≡ p.type))
    × Matches f ids ps
Matches f _ _ = ⊥

pub record EdgeFits (f : CogIrFunction) (from : CogIrId) (edge : CogIrBranchEdge) : Type 0 where
  pub target : CogIrBlock
  pub target_is : get_elem? f.blocks edge.target ≡ some target
  pub arguments : Matches f edge.arguments target.parameters
  pub available : Passing (value_available f from at_the_end) edge.arguments

pub lookup-get_elem? :
    {A : Type 0} (items : List A) (id : CogIrId) (x : A)
    → lookup items id ≡ some x
    → get_elem? items id ≡ some x
unfolding lookup
lookup-get_elem? items id x h = elim (Bool-cases (id == id_invalid)) [
  | inl bad ↦ absurd (cc (h, ap (λ b. if b then none else get_elem? items id) bad))
  | inr good ↦ sym (ap (λ b. if b then none else get_elem? items id) good) ∙ h
]

arguments-Matches :
    (f : CogIrFunction) (available : CogIrId → Bool) (ps : List CogIrBlockParam)
    (ids : List CogIrId)
    → edge_arguments_ok f available ps ids ≡ true
    → Matches f ids ps × Passing available ids
unfolding edge_arguments_ok
arguments-Matches f available [] [] h = (tt, tt)
arguments-Matches f available (p ∷ ps) [] h = absurd (cc)
arguments-Matches f available [] (id ∷ ids) h = absurd (cc)
arguments-Matches f available (p ∷ ps) (id ∷ ids) h =
    let typed = λ (value : CogIrValue). value.type == p.type in
    let both = and_true (is_some_and (cog_ir_get_value f id) typed) _ h in
    let (value, value_is, same) = is_some_and-true (cog_ir_get_value f id) typed both.0 in
    let behind = and_true (available id) _ both.1 in
    let (matches, passing) = arguments-Matches f available ps ids behind.1 in
    (((value, value_is, (==_iff value.type p.type).0 same), matches), (behind.0, passing))

verify_edge-EdgeFits :
    (f : CogIrFunction) (from : CogIrId) (edge : CogIrBranchEdge)
    → verify_edge f from edge ≡ true
    → EdgeFits f from edge
unfolding verify_edge terminator_value_available
verify_edge-EdgeFits f from edge h =
    let available = value_available f from at_the_end in
    let (target, target_is, ok) =
      is_some_and-true (cog_ir_get_block f edge.target)
        (λ (target : CogIrBlock). edge_arguments_ok f available target.parameters edge.arguments)
        h in
    let (matches, passing) = arguments-Matches f available target.parameters edge.arguments ok in
    record {
      target = target;
      target_is = lookup-get_elem? f.blocks edge.target target target_is;
      arguments = matches;
      available = passing;
    }

cases-EdgeFits :
    (m : CogIrModule) (f : CogIrFunction) (from value : CogIrId) (keys : List CogIrId)
    (cases : List CogIrSwitchCase)
    → cases_ok m f from value keys cases ≡ true
    → All (EdgeFits f from) (case_edges cases)
unfolding cases_ok
cases-EdgeFits m f from value keys [] h = tt
cases-EdgeFits m f from value keys (c ∷ cases) h =
    let key_ok = λ (key : CogIrConstant).
      is_some_and (cog_ir_get_value f value) λ (v : CogIrValue). key.type == v.type in
    let typed = and_true (is_some_and (cog_ir_get_constant m c.key) key_ok) _ h in
    let new = and_true (not (key_listed c.key keys)) _ typed.1 in
    let edge = and_true (verify_edge f from c.edge) _ new.1 in
    (
      verify_edge-EdgeFits f from c.edge edge.0,
      cases-EdgeFits m f from value (c.key ∷ keys) cases edge.1,
    )

-- A condition or switch value is asked for under the id that it has in the table.
branch_value-Passing :
    (m : CogIrModule) (f : CogIrFunction) (from id : CogIrId) (test : CogIrTypeKind → Bool)
    → IsRegistered f
    → branch_value_ok m f from id test ≡ true
    → value_available f from at_the_end id ≡ true
unfolding terminator_value_available
branch_value-Passing m f from id test r h =
    let at_type = λ (value : CogIrValue) (type : CogIrType).
      value_available f from at_the_end value.id && test type.kind in
    let of_value =
      λ (value : CogIrValue). is_some_and (cog_ir_get_type m value.type) (at_type value) in
    let (value, value_is, ok) = is_some_and-true (cog_ir_get_value f id) of_value h in
    let (type, _, both) = is_some_and-true (cog_ir_get_type m value.type) (at_type value) ok in
    subst (λ x. value_available f from at_the_end x ≡ true) (r.own_id id value value_is)
      (and_true (value_available f from at_the_end value.id) _ both).0

return-Passing :
    (m : CogIrModule) (f : CogIrFunction) (from type : CogIrId) (value : Option CogIrId)
    → return_ok m f from type value ≡ true
    → Passing (value_available f from at_the_end) (returned value)
unfolding return_ok returns_nothing returned_value_ok terminator_value_available
return-Passing m f from type none h = tt
return-Passing m f from type (some id) h =
    let choice = λ (type' : CogIrType).
      if is_void type' then false else returned_value_ok f from type (some id) in
    let (type', _, ok) = is_some_and-true (cog_ir_get_type m type) choice h in
    elim (Bool-cases (is_void type')) [
      | inl void ↦
          absurd
            (cc (ok, ap (λ b. if b then false else returned_value_ok f from type (some id)) void))
      | inr valued ↦ (
        (and_true (value_available f from at_the_end id) _ (
            sym (ap (λ b. if b then false else returned_value_ok f from type (some id)) valued)
            ∙ ok)).0,
        tt,
      )
    ]

-- What the check of a terminator says.
pub record TerminatorFits (f : CogIrFunction) (from : CogIrId) (kind : CogIrTerminatorKind)
    : Type 0 where
  pub present : kind ≢ term_none
  pub edges_fit : All (EdgeFits f from) (edges kind)
  pub reads : Passing (value_available f from at_the_end) (asked_for kind)

pub terminator-TerminatorFits :
    (m : CogIrModule) (f : CogIrFunction) (from type : CogIrId) (kind : CogIrTerminatorKind)
    → IsRegistered f
    → terminator_ok m f from type kind ≡ true
    → TerminatorFits f from kind
unfolding terminator_ok
terminator-TerminatorFits m f from type term_none r h = absurd (cc)
terminator-TerminatorFits m f from type (term_br edge) r h = record {
  present = λ e. cc;
  edges_fit = (verify_edge-EdgeFits f from edge h, tt);
  reads = tt;
}
terminator-TerminatorFits m f from type (term_cond_br condition if_true if_false) r h =
    let value = and_true (branch_value_ok m f from condition is_condition) _ h in
    let both = and_true (verify_edge f from if_true) _ value.1 in
    record {
      present = λ e. cc;
      edges_fit = (
        verify_edge-EdgeFits f from if_true both.0,
        (verify_edge-EdgeFits f from if_false both.1, tt),
      );
      reads = (branch_value-Passing m f from condition is_condition r value.0, tt);
    }
terminator-TerminatorFits m f from type (term_switch v cases default_edge) r h =
    let value = and_true (branch_value_ok m f from v is_switchable) _ h in
    let both = and_true (cases_ok m f from v [] cases) _ value.1 in
    record {
      present = λ e. cc;
      edges_fit = (
        verify_edge-EdgeFits f from default_edge both.1,
        cases-EdgeFits m f from v [] cases both.0,
      );
      reads = (branch_value-Passing m f from v is_switchable r value.0, tt);
    }
terminator-TerminatorFits m f from type (term_ret value) r h = record {
  present = λ e. cc;
  edges_fit = tt;
  reads = return-Passing m f from type value h;
}
terminator-TerminatorFits m f from type term_trap r h = record {
  present = λ e. cc;
  edges_fit = tt;
  reads = tt;
}
terminator-TerminatorFits m f from type term_unreachable r h = record {
  present = λ e. cc;
  edges_fit = tt;
  reads = tt;
}
