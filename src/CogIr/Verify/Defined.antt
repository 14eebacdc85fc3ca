-- ===== src/CogIr/Verify/Defined.antt =====
-- A value that the verifier takes for available is there, whichever way the run came.
use coglet.Prelude.{
  ℕ, zero, suc, ◌<◌, ◌≤◌, ◌≡◌, ◌⊎◌, inl, inr, refl, sym, ap, subst, ◌∙◌, All, Listed, length,
  get_elem?, true, false, not, not-true, and_true, List, [], ◌∷◌, ◌++◌, some, ltb, ltb→lt, ◌==◌,
  ==_iff, Bool-cases, arith,
}
use coglet.CogIr.Module.{
  CogIrId, CogIrValueKind, value_function_parameter, value_block_parameter, value_instruction,
  CogIrValue, CogIrInstruction, CogIrBlock, CogIrFunction, cog_ir_get_value,
}
use coglet.CogIr.Verify.{is_some_and, result_is_kept, is_available, value_available}
use coglet.CogIr.Verify.Operands.{Passing, is_some_and-true}
use coglet.CogIr.Verify.Runs.{
  param_values, yields, Runs, enters, steps, jumps, IsMade, IsRegistered,
}

abbrev pub AllListed : List CogIrId → List CogIrId → Type 0
AllListed ids defined = All (λ id. Listed id defined) ids

pub All-Listed : {A : Type 0} (P : A → Type 0) (xs : List A) (x : A) → All P xs → Listed x xs → P x
All-Listed P [] x h l = absurd l
All-Listed P (y ∷ xs) x h (inl e) = subst P (sym e) h.0
All-Listed P (y ∷ xs) x h (inr l) = All-Listed P xs x h.1 l

Listed-left : (xs ys : List CogIrId) (id : CogIrId) → Listed id xs → Listed id (xs ++ ys)
Listed-left [] ys id l = absurd l
Listed-left (x ∷ xs) ys id (inl e) = inl e
Listed-left (x ∷ xs) ys id (inr l) = inr (Listed-left xs ys id l)

Listed-right : (xs ys : List CogIrId) (id : CogIrId) → Listed id ys → Listed id (xs ++ ys)
Listed-right [] ys id l = l
Listed-right (x ∷ xs) ys id l = inr (Listed-right xs ys id l)

AllListed-from :
    (xs ys : List CogIrId) → ((id : CogIrId) → Listed id xs → Listed id ys) → AllListed xs ys
AllListed-from [] ys f = tt
AllListed-from (x ∷ xs) ys f = (f x (inl refl), AllListed-from xs ys (λ id l. f id (inr l)))

AllListed-right : (zs xs ys : List CogIrId) → AllListed xs ys → AllListed xs (zs ++ ys)
AllListed-right zs xs ys h =
    AllListed-from xs (zs ++ ys)
      λ id l. Listed-right zs ys id (All-Listed (λ x. Listed x ys) xs id h l)

-- What is there at a point of a run.
pub record Holds (f : CogIrFunction) (id : CogIrId) (block : CogIrBlock) (n : ℕ)
    (defined : List CogIrId) : Type 0 where
  pub stands : get_elem? f.blocks id ≡ some block
  pub bound : n ≤ length block.instructions
  pub parameters : AllListed f.parameters defined
  pub block_parameters : AllListed (param_values block.parameters) defined
  pub results :
      (k : ℕ) (i : CogIrInstruction)
      → k < n
      → get_elem? block.instructions k ≡ some i
      → i.result_is_discarded ≡ false
      → Listed i.result defined

get_elem?-lt : {A : Type 0} (xs : List A) (n : ℕ) (x : A) → get_elem? xs n ≡ some x → n < length xs
get_elem?-lt [] n x h = absurd (cc)
get_elem?-lt (y ∷ xs) zero x h = omega arith
get_elem?-lt (y ∷ xs) (suc n) x h = omega (arith, get_elem?-lt xs n x h)

yields-kept :
    (i : CogIrInstruction) (defined : List CogIrId)
    → i.result_is_discarded ≡ false
    → Listed i.result (yields i ++ defined)
yields-kept i defined h = rw h (inl refl)

some-eq : {A : Type 0} (x y : A) → some x ≡ some y → x ≡ y
some-eq x y h = cc

steps-results :
    (f : CogIrFunction) (id : CogIrId) (block : CogIrBlock) (n : ℕ) (defined : List CogIrId)
    (i : CogIrInstruction)
    → Holds f id block n defined
    → get_elem? block.instructions n ≡ some i
    → (k : ℕ) (j : CogIrInstruction) → k < suc n
    → get_elem? block.instructions k ≡ some j
    → j.result_is_discarded ≡ false
    → Listed j.result (yields i ++ defined)
steps-results f id block n defined i h here k j small at kept = elim (Bool-cases (ltb k n)) [
  | inl earlier ↦
      Listed-right (yields i) defined j.result (h.results k j (ltb→lt k n earlier) at kept)
  | inr last ↦
      let same : k ≡ n = ground arith in
      let is_i : j ≡ i = some-eq j i (sym at ∙ ap (get_elem? block.instructions) same ∙ here) in
      subst (λ (t : CogIrInstruction). Listed t.result (yields i ++ defined)) (sym is_i)
        (yields-kept i defined
          (ap (λ (t : CogIrInstruction). t.result_is_discarded) (sym is_i) ∙ kept))
]

pub Runs-Holds :
    (f : CogIrFunction) (id : CogIrId) (block : CogIrBlock) (n : ℕ) (defined : List CogIrId)
    → IsRegistered f
    → Runs f id block n defined
    → Holds f id block n defined
Runs-Holds f _ block _ _ r (enters here) = record {
  stands = here;
  bound = omega arith;
  parameters = AllListed-from f.parameters f.parameters (λ id l. l);
  block_parameters =
      subst (λ ps. AllListed (param_values ps) f.parameters) (sym (r.entry block here)) tt;
  results = λ k i small. absurd (omega arith);
}
Runs-Holds f id block _ _ r (steps {n = n} {defined = defined} {i = i} before here) =
    let h = Runs-Holds f id block n defined r before in
    record {
      stands = h.stands;
      bound = get_elem?-lt block.instructions n i here;
      parameters = AllListed-right (yields i) f.parameters defined h.parameters;
      block_parameters =
          AllListed-right (yields i) (param_values block.parameters) defined h.block_parameters;
      results = steps-results f id block n defined i h here;
    }
Runs-Holds f _ target _ _ r (jumps edge before taken here) =
    let ps = param_values target.parameters in
    record {
      stands = here;
      bound = omega arith;
      parameters = AllListed-from f.parameters _ (λ id l. Listed-right ps f.parameters id l);
      block_parameters = AllListed-from ps _ (λ id l. Listed-left ps f.parameters id l);
      results = λ k i small. absurd (omega arith);
    }

-- The instruction that makes an available value.
record Producer (f : CogIrFunction) (id : CogIrId) (limit : ℕ) (value : CogIrValue) : Type 0 where
  in_block : value.block ≡ id
  earlier : value.ordinal < limit
  block : CogIrBlock
  block_is : get_elem? f.blocks value.block ≡ some block
  instruction : CogIrInstruction
  instruction_is : get_elem? block.instructions value.ordinal ≡ some instruction
  kept : instruction.result_is_discarded ≡ false

available-Producer :
    (f : CogIrFunction) (id : CogIrId) (limit : ℕ) (value : CogIrValue)
    → is_available f id limit value value_instruction ≡ true
    → Producer f id limit value
unfolding is_available result_is_kept
available-Producer f id limit value ok =
    let here = and_true (value.block == id) _ ok in
    let earlier = and_true (ltb value.ordinal limit) _ here.1 in
    let kept = λ (i : CogIrInstruction). not i.result_is_discarded in
    let (b, b_is, in_b) =
      is_some_and-true (get_elem? f.blocks value.block)
        (λ (b : CogIrBlock). is_some_and (get_elem? b.instructions value.ordinal) kept) earlier.1 in
    let (i, i_is, ok_i) = is_some_and-true (get_elem? b.instructions value.ordinal) kept in_b in
    record {
      in_block = (==_iff value.block id).0 here.0;
      earlier = ltb→lt value.ordinal limit earlier.0;
      block = b;
      block_is = b_is;
      instruction = i;
      instruction_is = i_is;
      kept = not-true i.result_is_discarded ok_i;
    }

-- The kinds of value that `value_available` tells apart.
kind-Listed :
    (f : CogIrFunction) (id : CogIrId) (block : CogIrBlock) (n : ℕ) (defined : List CogIrId)
    (limit : ℕ) (v : CogIrId) (value : CogIrValue) (kind : CogIrValueKind)
    → Holds f id block n defined
    → (n ≡ limit) ⊎ (n ≡ length block.instructions)
    → IsMade f v value kind
    → is_available f id limit value kind ≡ true
    → Listed v defined
unfolding is_available
kind-Listed f id block n defined limit v value value_function_parameter h at made ok =
    All-Listed (λ x. Listed x defined) f.parameters v h.parameters made
kind-Listed f id block n defined limit v value value_block_parameter h at made ok =
    let here : get_elem? f.blocks value.block ≡ some block =
      ap (get_elem? f.blocks) ((==_iff value.block id).0 ok) ∙ h.stands in
    All-Listed (λ x. Listed x defined) (param_values block.parameters) v h.block_parameters
      (made block here)
kind-Listed f id block n defined limit v value value_instruction h at made ok =
    let p = available-Producer f id limit value ok in
    let same : p.block ≡ block =
      some-eq p.block block (sym p.block_is ∙ ap (get_elem? f.blocks) p.in_block ∙ h.stands) in
    let here : get_elem? block.instructions value.ordinal ≡ some p.instruction =
      subst (λ (b : CogIrBlock). get_elem? b.instructions value.ordinal ≡ some p.instruction) same
        p.instruction_is in
    let bound = get_elem?-lt block.instructions value.ordinal p.instruction here in
    let small : value.ordinal < n = elim at [
      | inl e ↦ omega (arith, p.earlier, e)
      | inr e ↦ omega (arith, bound, e)
    ] in
    subst (λ x. Listed x defined) (made p.block p.instruction p.block_is p.instruction_is)
      (h.results value.ordinal p.instruction small here p.kept)

-- What is available at the instruction that is next, or at the end of the block, is there.
pub available-Listed :
    (f : CogIrFunction) (id : CogIrId) (block : CogIrBlock) (n : ℕ) (defined : List CogIrId)
    (limit : ℕ) (v : CogIrId)
    → IsRegistered f
    → Holds f id block n defined
    → (n ≡ limit) ⊎ (n ≡ length block.instructions)
    → value_available f id limit v ≡ true
    → Listed v defined
unfolding value_available
available-Listed f id block n defined limit v r h at ok =
    let (value, value_is, kind_ok) =
      is_some_and-true (cog_ir_get_value f v) (λ value. is_available f id limit value value.kind)
        ok in
    kind-Listed f id block n defined limit v value value.kind h at (r.made v value value_is) kind_ok

pub Passing-AllListed :
    (f : CogIrFunction) (id : CogIrId) (block : CogIrBlock) (n : ℕ) (defined : List CogIrId)
    (limit : ℕ) (ids : List CogIrId)
    → IsRegistered f
    → Holds f id block n defined
    → (n ≡ limit) ⊎ (n ≡ length block.instructions)
    → Passing (value_available f id limit) ids
    → AllListed ids defined
Passing-AllListed f id block n defined limit [] r h at ok = tt
Passing-AllListed f id block n defined limit (v ∷ ids) r h at ok = (
  available-Listed f id block n defined limit v r h at ok.0,
  Passing-AllListed f id block n defined limit ids r h at ok.1,
)
