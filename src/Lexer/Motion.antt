-- ===== src/Lexer/Motion.antt =====
-- What the cursor's moves do to the position: the text that is consumed, and the lines and columns
-- that follow from it. Every scanner of the lexer is a chain of such moves.
use coglet.Prelude.{
  ℕ, zero, suc, ◌+◌, ◌≤◌, ◌≢◌, Bytes, All, length, Bool, true, false, [], ◌∷◌, ◌++◌, append_assoc,
  ◌≡◌, refl, sym, ap, ◌∙◌, inl, inr, ◌==◌, if◌then◌else◌, Bool-cases, arith, All-append,
}
use coglet.Lexer.Cursor.{
  Lexer, deref, tail, is_at_end, peek, peek_next, advance, skip_run, count_run,
}

-- The line, and the column, behind `text`, from those before it.
abbrev pub line_after : ℕ → Bytes → ℕ
line_after n [] = n
line_after n (c ∷ cs) = line_after (if c == b'\n' then n + 1 else n) cs

abbrev pub column_after : ℕ → Bytes → ℕ
column_after n [] = n
column_after n (c ∷ cs) = column_after (if c == b'\n' then 1 else n + 1) cs

-- `lx'` is `lx` with `text` consumed, and nothing read past the end.
pub record Moved (lx : Lexer) (text : Bytes) (lx' : Lexer) : Type 0 where
  pub splits : lx.current ≡ text ++ lx'.current
  pub no_nul : All (λ c. c ≢ 0) text
  pub line_is : lx'.line ≡ line_after lx.line text
  pub column_is : lx'.column ≡ column_after lx.column text
  pub source_is : lx'.source_start ≡ lx.source_start
  pub id_is : lx'.source_id ≡ lx.source_id
  pub overrun_is : lx'.overrun ≡ lx.overrun

pub line_after-append :
    (n : ℕ) (s t : Bytes) → line_after n (s ++ t) ≡ line_after (line_after n s) t
line_after-append n [] t = refl
line_after-append n (c ∷ s) t = line_after-append (if c == b'\n' then n + 1 else n) s t

pub column_after-append :
    (n : ℕ) (s t : Bytes) → column_after n (s ++ t) ≡ column_after (column_after n s) t
column_after-append n [] t = refl
column_after-append n (c ∷ s) t = column_after-append (if c == b'\n' then 1 else n + 1) s t

pub Moved-refl : (lx : Lexer) → Moved lx [] lx
Moved-refl lx = record {
  splits = refl;
  no_nul = tt;
  line_is = refl;
  column_is = refl;
  source_is = refl;
  id_is = refl;
  overrun_is = refl;
}

pub Moved-trans : {a b c : Lexer} (s t : Bytes) → Moved a s b → Moved b t c → Moved a (s ++ t) c
Moved-trans {a} {b} {c} s t m n = record {
  splits = m.splits ∙ ap (λ r. s ++ r) n.splits ∙ sym (append_assoc s t c.current);
  no_nul = All-append _ s t m.no_nul n.no_nul;
  line_is = n.line_is ∙ ap (λ k. line_after k t) m.line_is ∙ sym (line_after-append a.line s t);
  column_is =
      n.column_is ∙ ap (λ k. column_after k t) m.column_is ∙ sym (column_after-append a.column s t);
  source_is = n.source_is ∙ m.source_is;
  id_is = n.id_is ∙ m.id_is;
  overrun_is = n.overrun_is ∙ m.overrun_is;
}

pub current-advance : (lx : Lexer) → (advance lx).current ≡ tail lx.current
unfolding advance
current-advance lx = ground arith

-- At a byte that is not NUL, `advance` consumes that byte.
pub advance-Moved : (lx : Lexer) → peek lx ≢ 0 → Moved lx (peek lx ∷ []) (advance lx)
unfolding advance peek is_at_end
advance-Moved lx h = record {
  splits = head_tail lx.current h ∙ ap (λ r. peek lx ∷ r) (sym (current-advance lx));
  no_nul = (h, tt);
  line_is = ground arith;
  column_is = ground arith;
  source_is = ground arith;
  id_is = ground arith;
  overrun_is = ground arith;
}
  where
    head_tail : (cs : Bytes) → deref cs ≢ 0 → cs ≡ deref cs ∷ tail cs
    head_tail [] k = absurd (k refl)
    head_tail (c ∷ cs) k = refl

pub length-current-advance :
    (lx : Lexer) → peek lx ≢ 0 → length lx.current ≡ suc (length (advance lx).current)
length-current-advance lx h = ap length (advance-Moved lx h).splits

pub peek-advance : (lx : Lexer) → peek lx ≢ 0 → peek (advance lx) ≡ peek_next lx
unfolding peek peek_next is_at_end
peek-advance lx h = rw current-advance (ground arith)

pub is_at_end-eq : (lx : Lexer) → is_at_end lx ≡ (peek lx == 0)
unfolding is_at_end peek
is_at_end-eq lx = refl

pub length-current-zero : (lx : Lexer) → length lx.current ≤ 0 → peek lx ≡ 0
unfolding peek
length-current-zero lx h = go lx.current h
  where
    go : (cs : Bytes) → length cs ≤ 0 → deref cs ≡ 0
    go [] k = refl
    go (c ∷ cs) k = absurd (omega arith)

-- The longest run of bytes that pass `test` was consumed, and nothing else.
pub record Ran (test : ℕ → Bool) (lx lx' : Lexer) : Type 0 where
  pub text : Bytes
  pub moved : Moved lx text lx'
  pub passed : All (λ c. test c ≡ true) text
  pub stopped : test (peek lx') ≡ false

pub Ran-stop : (test : ℕ → Bool) (lx : Lexer) → test (peek lx) ≡ false → Ran test lx lx
Ran-stop test lx h = record { text = []; moved = Moved-refl lx; passed = tt; stopped = h }

pub Ran-some :
    (test : ℕ → Bool) {lx lx' : Lexer} (r : Ran test lx lx') → test (peek lx) ≡ true → r.text ≢ []
unfolding peek
Ran-some test {lx} {lx'} r h e =
    let same : lx.current ≡ lx'.current = r.moved.splits ∙ ap (λ t. t ++ lx'.current) e in
    cc (same, r.stopped)

module _ (test : ℕ → Bool) (at_nul : test 0 ≡ false) where
  pub passed-ne-zero : (c : ℕ) → test c ≡ true → c ≢ 0
  passed-ne-zero c h e = cc (ap test e)

  pub stop_at_end : (lx : Lexer) → length lx.current ≤ 0 → test (peek lx) ≡ false
  unfolding peek
  stop_at_end lx h = go lx.current h
    where
      go : (cs : Bytes) → length cs ≤ 0 → test (deref cs) ≡ false
      go [] k = at_nul
      go (c ∷ cs) k = absurd (omega arith)

  pub Ran-step :
      (lx : Lexer) {lx' : Lexer}
      → test (peek lx) ≡ true
      → Ran test (advance lx) lx'
      → Ran test lx lx'
  Ran-step lx h r = record {
    text = peek lx ∷ r.text;
    moved =
        Moved-trans (peek lx ∷ []) r.text (advance-Moved lx (passed-ne-zero (peek lx) h)) r.moved;
    passed = (h, r.passed);
    stopped = r.stopped;
  }

  pub skip_run-Ran :
      (fuel : ℕ) (lx : Lexer) → length lx.current ≤ fuel → Ran test lx (skip_run test fuel lx)
  unfolding skip_run
  skip_run-Ran zero lx h = Ran-stop test lx (stop_at_end lx h)
  skip_run-Ran (suc fuel) lx h = elim (Bool-cases (test (peek lx))) [
    | inl more ↦ rw more (
        Ran-step lx more (
          skip_run-Ran fuel (advance lx)
            (omega (arith, length-current-advance lx (passed-ne-zero (peek lx) more)))))
    | inr stop ↦ rw stop (Ran-stop test lx stop)
  ]

  -- The counting loop makes the same moves, and counts them.
  pub record Counted (count : ℕ) (lx : Lexer) (r : ℕ × Lexer) : Type 0 where
    pub ran : Ran test lx r.1
    pub counted : r.0 ≡ count + length ran.text

  pub count_run-Counted :
      (fuel count : ℕ) (lx : Lexer)
      → length lx.current ≤ fuel
      → Counted count lx (count_run test fuel count lx)
  unfolding count_run Ran-stop Ran-step
  count_run-Counted zero count lx h = record {
    ran = Ran-stop test lx (stop_at_end lx h);
    counted = omega arith;
  }
  count_run-Counted (suc fuel) count lx h = elim (Bool-cases (test (peek lx))) [
    | inl more ↦
        let rest =
          count_run-Counted fuel (count + 1) (advance lx)
            (omega (arith, length-current-advance lx (passed-ne-zero (peek lx) more))) in
        rw more (record { ran = Ran-step lx more rest.ran; counted = omega (arith, rest.counted) })
    | inr stop ↦ rw stop (record { ran = Ran-stop test lx stop; counted = omega arith })
  ]
