-- ===== src/Lexer/Trivia/Comments.antt =====
-- Whitespace and comments, described apart from the scanners, and what one comment is to
-- `skip_whitespace_and_comments`.
use Prim.Native.String.{String}
use coglet.Prelude.{
  ℕ, zero, suc, ◌≤◌, ◌≢◌, Bytes, All, length, true, false, ◌&&◌, [], ◌∷◌, ◌++◌, append_assoc, ◌≡◌,
  refl, sym, ap, ap₂, ◌∙◌, ◌⊎◌, inl, inr, ◌==◌, ==_iff, if◌then◌else◌, Bool-cases, arith,
}
use coglet.Lexer.Token.{TokenType, Token}
use coglet.Lexer.Cursor.{
  Lexer, mark, deref, tail, is_at_end, peek, peek_next, advance, make_token, error_token, fail,
  skip_while,
}
use coglet.Lexer.Motion.{
  Moved, Moved-refl, Moved-trans, advance-Moved, peek-advance, length-current-advance, is_at_end-eq,
  skip_run-Ran, length-current-zero,
}
use coglet.Lexer.Emit.{Emits, fail-Emits}
use coglet.Lexer.Trivia.{
  is_space, in_line_comment, skip_block, Turn, again, done, failed, block_comment,
}

-- No `*/` in the body of a block comment.
abbrev pub Open : Bytes → Type 0
Open [] = Unit
Open (c ∷ cs) = ((c == b'*' && deref cs == b'/') ≡ false) × Open cs

-- Whitespace and comments with `rest` behind them. A line comment runs up to its newline.
pub data IsTrivia (rest : Bytes) : Bytes → Type 0 where
  empty : IsTrivia rest []
  space : {c : ℕ} {t : Bytes} → is_space c ≡ true → IsTrivia rest t → IsTrivia rest (c ∷ t)
  in_line :
      (body : Bytes) {t : Bytes}
      → All (λ c. in_line_comment c ≡ true) body
      → in_line_comment (deref (t ++ rest)) ≡ false
      → IsTrivia rest t
      → IsTrivia rest (b'/' ∷ b'/' ∷ (body ++ t))
  in_block :
      (body : Bytes) {t : Bytes}
      → Open body
      → IsTrivia rest t
      → IsTrivia rest (b'/' ∷ b'*' ∷ (body ++ (b'*' ∷ b'/' ∷ t)))

-- Neither whitespace nor a comment starts here.
pub record AtToken (lx : Lexer) : Type 0 where
  pub no_space : is_space (peek lx) ≡ false
  pub no_line : (peek lx == b'/' && peek_next lx == b'/') ≡ false
  pub no_block : (peek lx == b'/' && peek_next lx == b'*') ≡ false

-- `r` is an error at a block comment that starts at `lx` and that nothing closes: everything up to the
-- end of the source was read, and no `*/` stands behind the opening `/*`.
pub record IsUnclosedComment (lx : Lexer) (r : Token × Lexer) : Type 0 where
  pub body : Bytes
  pub moved : Moved lx (b'/' ∷ b'*' ∷ body) r.1
  pub open_body : Open body
  pub at_end : peek r.1 ≡ 0
  pub is_error : r.0.type ≡ TokenType.tok_error

-- What one turn of the loop does.
abbrev pub TurnOutcome : Lexer → Turn → Type 0
TurnOutcome lx (again lx') =
    (text : Bytes) × Moved lx text lx'
    × (text ≢ [])
    × ((t rest : Bytes) → lx'.current ≡ t ++ rest → IsTrivia rest t → IsTrivia rest (text ++ t))
TurnOutcome lx (done lx') = (lx' ≡ lx) × AtToken lx
TurnOutcome lx (failed r) = Emits lx r × IsUnclosedComment lx r

pub is_space-ne-zero : (c : ℕ) → is_space c ≡ true → c ≢ 0
unfolding is_space
is_space-ne-zero c h = ground arith

in_line_comment_nul : in_line_comment 0 ≡ false
unfolding in_line_comment
in_line_comment_nul = refl

-- The two bytes that open a comment.
opener :
    (lx : Lexer) (c : ℕ)
    → c ≢ 0
    → (peek lx == b'/' && peek_next lx == c) ≡ true
    → Moved lx (b'/' ∷ c ∷ []) (advance (advance lx)) × (peek lx ≡ b'/') × (peek (advance lx) ≡ c)
opener lx c nz h =
    let first : peek lx ≡ b'/' = ground arith in
    let second : peek (advance lx) ≡ c = rw (peek-advance lx (omega arith)) (ground arith) in
    (
      rw (← first) (
          rw (← second) (
            Moved-trans (peek lx ∷ []) _ (advance-Moved lx (omega arith))
              (advance-Moved (advance lx) (omega arith)))),
      first,
      second,
    )

-- Where the loop over a block comment stops: at the end of the source, or at `*/`.
record BlockRan (lx lx' : Lexer) : Type 0 where
  text : Bytes
  moved : Moved lx text lx'
  open_text : Open text
  ended : (peek lx' ≡ 0) ⊎ ((peek lx' == b'*' && peek_next lx' == b'/') ≡ true)

Open-cons :
    (c : ℕ) (t rest : Bytes)
    → (c == b'*' && deref (t ++ rest) == b'/') ≡ false
    → Open t
    → Open (c ∷ t)
Open-cons c [] rest h o = (ground arith, tt)
Open-cons c (d ∷ t) rest h o = (h, o)

peek-Moved :
    {lx lx' : Lexer} (text : Bytes) → Moved lx text lx' → peek lx ≡ deref (text ++ lx'.current)
unfolding peek
peek-Moved text m = ap deref m.splits

step-BlockRan :
    (lx : Lexer) {lx' : Lexer}
    → peek lx ≢ 0
    → (peek lx == b'*' && peek_next lx == b'/') ≡ false
    → BlockRan (advance lx) lx'
    → BlockRan lx lx'
step-BlockRan lx {lx'} nz h r = record {
  text = peek lx ∷ r.text;
  moved = Moved-trans (peek lx ∷ []) r.text (advance-Moved lx nz) r.moved;
  open_text =
      Open-cons (peek lx) r.text lx'.current
        (rw (← peek-Moved r.text r.moved, peek-advance lx nz) h) r.open_text;
  ended = r.ended;
}

skip_block-BlockRan :
    (fuel : ℕ) (lx : Lexer) → length lx.current ≤ fuel → BlockRan lx (skip_block fuel lx)
unfolding skip_block
skip_block-BlockRan zero lx h = record {
  text = [];
  moved = Moved-refl lx;
  open_text = tt;
  ended = inl (length-current-zero lx h);
}
skip_block-BlockRan (suc fuel) lx h = elim (Bool-cases (peek lx == 0)) [
  | inl z ↦
      rw (is_at_end-eq, z)
        (record {
          text = [];
          moved = Moved-refl lx;
          open_text = tt;
          ended = inl ((==_iff (peek lx) 0).0 z);
        })
  | inr z ↦ elim (Bool-cases (peek lx == b'*' && peek_next lx == b'/')) [
    | inl e ↦
        rw (is_at_end-eq, z, e)
          (record { text = []; moved = Moved-refl lx; open_text = tt; ended = inr e })
    | inr e ↦
        let nz : peek lx ≢ 0 = ground arith in
        rw (is_at_end-eq, z, e)
          (step-BlockRan lx nz e
            (skip_block-BlockRan fuel (advance lx) (omega (arith, length-current-advance lx nz))))
  ]
]

-- The two bytes of `*/`.
closer :
    (lx : Lexer)
    → (peek lx == b'*' && peek_next lx == b'/') ≡ true
    → Moved lx (b'*' ∷ b'/' ∷ []) (advance (advance lx)) × (peek lx ≢ 0)
closer lx h =
    let first : peek lx ≡ b'*' = ground arith in
    let second : peek (advance lx) ≡ b'/' = rw (peek-advance lx (omega arith)) (ground arith) in
    (
      rw (← first) (
          rw (← second) (
            Moved-trans (peek lx ∷ []) _ (advance-Moved lx (omega arith))
              (advance-Moved (advance lx) (omega arith)))),
      omega arith,
    )

fail-IsUnclosedComment :
    {lx ended : Lexer} {body : Bytes} (n : ℕ) (message : String)
    → Moved lx (b'/' ∷ b'*' ∷ body) ended
    → Open body
    → peek ended ≡ 0
    → IsUnclosedComment lx (fail ended (mark lx) n message)
unfolding error_token make_token peek
fail-IsUnclosedComment {body = body} n message m o z = record {
  body = body;
  moved = record {
    splits = m.splits;
    no_nul = m.no_nul;
    line_is = m.line_is;
    column_is = m.column_is;
    source_is = m.source_is;
    id_is = m.id_is;
    overrun_is = m.overrun_is;
  };
  open_body = o;
  at_end = z;
  is_error = refl;
}

pub block_comment-outcome :
    (lx : Lexer)
    → (peek lx == b'/' && peek_next lx == b'*') ≡ true
    → TurnOutcome lx (block_comment lx)
unfolding block_comment
block_comment-outcome lx h =
    let opened = advance (advance lx) in
    let start = opener lx b'*' (omega arith) h in
    let r = skip_block-BlockRan (length opened.current) opened (omega arith) in
    go (skip_block (length opened.current) opened) r.text (Moved-trans _ r.text start.0 r.moved)
      r.open_text r.ended
  where
    go :
        (ended : Lexer) (text : Bytes)
        → Moved lx (b'/' ∷ b'*' ∷ text) ended
        → Open text
        → (peek ended ≡ 0) ⊎ ((peek ended == b'*' && peek_next ended == b'/') ≡ true)
        → TurnOutcome lx (
            if is_at_end ended
            then failed (fail ended (mark lx) 2 "unterminated block comment")
            else again (advance (advance ended)))
    go ended text moved o (inl z) =
        rw (is_at_end-eq, z)
          (fail-Emits _ 2 _ moved (λ n. cc) (omega arith), fail-IsUnclosedComment _ _ moved o z)
    go ended text moved o (inr e) =
        let close = closer ended e in
        let more : (peek ended == 0) ≡ false = ground arith in
        rw (is_at_end-eq, more)
          (
            b'/' ∷ b'*' ∷ (text ++ (b'*' ∷ b'/' ∷ [])),
            Moved-trans _ _ moved close.0,
            (λ n. cc),
            λ t rest s trivia. rw append_assoc (IsTrivia.in_block text o trivia),
          )

slash_passes : in_line_comment b'/' ≡ true
unfolding in_line_comment
slash_passes = refl

-- A run of a line comment's bytes that starts at `//` holds both slashes.
line_text :
    (text rest cs : Bytes)
    → b'/' ∷ b'/' ∷ cs ≡ text ++ rest
    → in_line_comment (deref rest) ≡ false
    → All (λ c. in_line_comment c ≡ true) text
    → (body : Bytes) × (text ≡ b'/' ∷ b'/' ∷ body) × All (λ c. in_line_comment c ≡ true) body
line_text [] rest cs e stop h = cc (e, stop, slash_passes)
line_text (a ∷ []) rest cs e stop h = cc (e, stop, slash_passes)
line_text (a ∷ b ∷ body) rest cs e stop h =
    (body, ap₂ (λ x y. x ∷ y ∷ body) (sym (ap deref e)) (sym (ap (λ t. deref (tail t)) e)), h.1.1)

pub line_comment-outcome :
    (lx : Lexer)
    → (peek lx == b'/' && peek_next lx == b'/') ≡ true
    → TurnOutcome lx (again (skip_while in_line_comment lx))
unfolding peek
line_comment-outcome lx h =
    let r = skip_run-Ran in_line_comment in_line_comment_nul (length lx.current) lx (omega arith) in
    let start = opener lx b'/' (omega arith) h in
    let (body, e, passed) =
      line_text r.text _ _ (sym start.0.splits ∙ r.moved.splits) r.stopped r.passed in
    (
      b'/' ∷ b'/' ∷ body,
      rw (← e) r.moved,
      (λ n. cc),
      λ t rest s trivia. IsTrivia.in_line body passed (rw (← s) r.stopped) trivia,
    )
