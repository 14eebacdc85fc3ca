-- ===== src/Lexer/Operator/Grammar.antt =====
-- From a byte that starts no name, number or text on: an operator, or one unexpected byte.
use coglet.Prelude.{
  ℕ, zero, suc, ◌-◌, ◌≤◌, ◌<◌, ◌≢◌, ltb, Bytes, All, Listed, length, true, false, List, [], ◌∷◌,
  ◌≡◌, refl, sym, ap, subst, ◌⊎◌, inl, inr, Bool-cases, Option, none, some, and_true, arith,
}
use coglet.Lexer.Keyword.{codes}
use coglet.Lexer.Cursor.{Lexer, mark, deref, tail, peek, advance}
use coglet.Lexer.Lexeme.{Operator, operators, is_prefix, Lexeme}
use coglet.Lexer.Motion.{Moved, Moved-refl, Moved-trans, advance-Moved, current-advance}
use coglet.Lexer.Emit.{Emits, emit-Emits, fail-Emits}
use coglet.Lexer.Operator.{scan_operator}
use coglet.Lexer.Operator.Munch.{longer, longest, advance_by, chosen}
use coglet.Lexer.Operator.Switch.{scan_operator-longest}

-- `o` is the best choice for `text`.
record IsLongest (o : Operator) (table : List Operator) (text : Bytes) : Type 0 where
  listed : Listed o table
  fits : is_prefix (codes o.0) text ≡ true
  best :
      All
        (λ (p : Operator).
          (is_prefix (codes p.0) text ≡ false) ⊎ (length (codes p.0) ≤ length (codes o.0)))
        table

abbrev LongestOutcome : List Operator → Bytes → Option Operator → Type 0
LongestOutcome table text none = All (λ (p : Operator). is_prefix (codes p.0) text ≡ false) table
LongestOutcome table text (some o) = IsLongest o table text

All-impl :
    {P Q : Operator → Type 0} (table : List Operator)
    → ((o : Operator) → P o → Q o)
    → All P table
    → All Q table
All-impl [] f h = tt
All-impl (o ∷ table) f h = (f o h.0, All-impl table f h.1)

widen :
    (o b p : Operator) (text : Bytes)
    → (is_prefix (codes p.0) text ≡ false) ⊎ (length (codes p.0) ≤ length (codes b.0))
    → ltb (length (codes b.0)) (length (codes o.0)) ≡ true
    → (is_prefix (codes p.0) text ≡ false) ⊎ (length (codes p.0) ≤ length (codes o.0))
widen o b p text (inl e) lt = inl e
widen o b p text (inr h) lt = inr (ground arith)

longer-outcome :
    (o : Operator) (table : List Operator) (text : Bytes) (r : Option Operator)
    → is_prefix (codes o.0) text ≡ true
    → LongestOutcome table text r
    → LongestOutcome (o ∷ table) text (longer o r)
longer-outcome o table text none fits h = record {
  listed = inl refl;
  fits = fits;
  best = (inr (omega arith), All-impl table (λ p e. inl e) h);
}
longer-outcome o table text (some b) fits h =
    elim (Bool-cases (ltb (length (codes b.0)) (length (codes o.0)))) [
      | inl lt ↦ rw lt (record {
        listed = inl refl;
        fits = fits;
        best = (inr (omega arith), All-impl table (λ p k. widen o b p text k lt) h.best);
      })
      | inr ge ↦
          rw ge
            (record { listed = inr h.listed; fits = h.fits; best = (inr (ground arith), h.best) })
    ]

skip-outcome :
    (o : Operator) (table : List Operator) (text : Bytes) (r : Option Operator)
    → is_prefix (codes o.0) text ≡ false
    → LongestOutcome table text r
    → LongestOutcome (o ∷ table) text r
skip-outcome o table text none misses h = (misses, h)
skip-outcome o table text (some b) misses h = record {
  listed = inr h.listed;
  fits = h.fits;
  best = (inl misses, h.best);
}

longest-outcome :
    (table : List Operator) (text : Bytes) → LongestOutcome table text (longest table text)
unfolding longest
longest-outcome [] text = tt
longest-outcome (o ∷ table) text = elim (Bool-cases (is_prefix (codes o.0) text)) [
  | inl fits ↦ rw fits (longer-outcome o table text _ fits (longest-outcome table text))
  | inr misses ↦ rw misses (skip-outcome o table text _ misses (longest-outcome table text))
]

-- Spellings are not empty and hold no NUL.
abbrev IsSpelling : Bytes → Type 0
IsSpelling word = (0 < length word) × All (λ c. c ≢ 0) word

operators-IsSpelling : All (λ (o : Operator). IsSpelling (codes o.0)) operators
operators-IsSpelling = omega arith

pub Listed-All :
    (P : Operator → Type 0) (table : List Operator) (o : Operator)
    → Listed o table
    → All P table
    → P o
Listed-All P [] o l h = absurd l
Listed-All P (x ∷ table) o (inl e) h = subst P (sym e) h.0
Listed-All P (x ∷ table) o (inr l) h = Listed-All P table o l h.1

advance_by-Moved :
    (word : Bytes) (lx : Lexer)
    → All (λ c. c ≢ 0) word
    → is_prefix word lx.current ≡ true
    → Moved lx word (advance_by (length word) lx)
advance_by-Moved [] lx h p = Moved-refl lx
advance_by-Moved (c ∷ word) lx h p =
    let (e, q) = first lx.current p in
    let first_byte : peek lx ≡ c = unfold peek in e in
    rw (← first_byte) (
      Moved-trans (peek lx ∷ []) word (advance-Moved lx (rw first_byte h.0))
        (advance_by-Moved word (advance lx) h.1 (rw current-advance q)))
  where
    first :
        (cs : Bytes)
        → is_prefix (c ∷ word) cs ≡ true
        → (deref cs ≡ c) × (is_prefix word (tail cs) ≡ true)
    first [] k = cc
    first (d ∷ cs) k = (ground arith, (and_true _ _ k).1)

-- The first byte is consumed before the `switch`.
advance_by-first : (n : ℕ) (lx : Lexer) → 0 < n → advance_by (n - 1) (advance lx) ≡ advance_by n lx
advance_by-first zero lx h = absurd (omega arith)
advance_by-first (suc n) lx h =
    ap (λ k. advance_by k (advance lx)) {x = suc n - 1} {y = n} (omega arith)

chosen-Emits :
    (lx : Lexer) (r : Option Operator)
    → peek lx ≢ 0
    → LongestOutcome operators lx.current r
    → Emits lx (chosen (advance lx) (mark lx) r)
chosen-Emits lx none nz h =
    fail-Emits (peek lx ∷ []) 1 _ (advance-Moved lx nz) (λ n. cc) (omega arith)
chosen-Emits lx (some o) nz h =
    let spelling =
      Listed-All (λ p. IsSpelling (codes p.0)) operators o h.listed operators-IsSpelling in
    let moved = advance_by-Moved (codes o.0) lx spelling.1 h.fits in
    rw (advance_by-first (length (codes o.0)) lx spelling.0) (
      emit-Emits (codes o.0) o.1 _ moved refl (
        Lexeme.operator (record {
          entry = o;
          listed = h.listed;
          spelled = refl;
          type_is = refl;
          longest = rw (← moved.splits) h.best;
        })))

pub scan_operator-Emits :
    (lx : Lexer) → peek lx ≢ 0 → Emits lx (scan_operator (peek lx) (advance lx) (mark lx))
scan_operator-Emits lx nz =
    let text : peek lx ∷ (advance lx).current ≡ lx.current = sym (advance-Moved lx nz).splits in
    rw (scan_operator-longest, text) (chosen-Emits lx _ nz (longest-outcome operators lx.current))
