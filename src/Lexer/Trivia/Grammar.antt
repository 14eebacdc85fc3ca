-- ===== src/Lexer/Trivia/Grammar.antt =====
-- Whitespace and comments: what `skip_whitespace_and_comments` consumes, and where it stops.
use coglet.Prelude.{
  ℕ, zero, suc, ◌≤◌, ◌<◌, subst, ◌≢◌, Bytes, length, length-append, ◌&&◌, [], ◌∷◌, ◌++◌, ◌≡◌, refl,
  sym, ap, inl, inr, ◌==◌, Bool-cases, Option, none, some, arith,
}
use coglet.Lexer.Token.{Token}
use coglet.Lexer.Cursor.{Lexer, peek, peek_next}
use coglet.Lexer.Motion.{Moved, Moved-refl, Moved-trans, advance-Moved, length-current-zero}
use coglet.Lexer.Emit.{Emits}
use coglet.Lexer.Trivia.{
  is_space, Turn, again, done, failed, turn, skip_loop, skip_whitespace_and_comments,
}
use coglet.Lexer.Trivia.Comments.{
  TurnOutcome, is_space-ne-zero, block_comment-outcome, line_comment-outcome, empty, IsTrivia,
  IsUnclosedComment, AtToken,
}

-- Every turn consumes whitespace or a comment, or stops at a token, or reports the open comment.
turn-outcome : (lx : Lexer) → TurnOutcome lx (turn lx)
unfolding turn
turn-outcome lx = elim (Bool-cases (is_space (peek lx))) [
  | inl s ↦ rw s (
    peek lx ∷ [],
    advance-Moved lx (is_space-ne-zero (peek lx) s),
    (λ n. cc),
    λ t rest e trivia. IsTrivia.space s trivia,
  )
  | inr s ↦ elim (Bool-cases (peek lx == b'/' && peek_next lx == b'/')) [
    | inl l ↦ rw (s, l) (line_comment-outcome lx l)
    | inr l ↦ elim (Bool-cases (peek lx == b'/' && peek_next lx == b'*')) [
      | inl b ↦ rw (s, l, b) (block_comment-outcome lx b)
      | inr b ↦ rw (s, l, b) (refl, record { no_space = s; no_line = l; no_block = b })
    ]
  ]
]

-- The loop ends at a token, behind whitespace and comments.
pub record Skipped (lx lx' : Lexer) : Type 0 where
  pub text : Bytes
  pub moved : Moved lx text lx'
  pub trivia : IsTrivia lx'.current text
  pub at_token : AtToken lx'

-- Or at a block comment that the source does not close.
pub record Unclosed (lx : Lexer) (r : Token × Lexer) : Type 0 where
  pub comment : Lexer
  pub text : Bytes
  pub moved : Moved lx text comment
  pub trivia : IsTrivia comment.current text
  pub emits : Emits comment r
  pub unclosed : IsUnclosedComment comment r

abbrev pub SkipOutcome : Lexer → Option Token × Lexer → Type 0
SkipOutcome lx (none, lx') = Skipped lx lx'
SkipOutcome lx (some error, lx') = Unclosed lx (error, lx')

end-AtToken : (lx : Lexer) → peek lx ≡ 0 → AtToken lx
unfolding is_space
end-AtToken lx z = record { no_space = rw z; no_line = rw z; no_block = rw z }

again-SkipOutcome :
    (lx lx' : Lexer)
    → TurnOutcome lx (again lx')
    → (r : Option Token × Lexer) → SkipOutcome lx' r
    → SkipOutcome lx r
again-SkipOutcome lx lx' (text, m, ne, front) (none, end) k = record {
  text = text ++ k.text;
  moved = Moved-trans text k.text m k.moved;
  trivia = front k.text end.current k.moved.splits k.trivia;
  at_token = k.at_token;
}
again-SkipOutcome lx lx' (text, m, ne, front) (some error, end) k = record {
  comment = k.comment;
  text = text ++ k.text;
  moved = Moved-trans text k.text m k.moved;
  trivia = front k.text k.comment.current k.moved.splits k.trivia;
  emits = k.emits;
  unclosed = k.unclosed;
}

here-Skipped : (lx lx' : Lexer) → lx' ≡ lx → AtToken lx → Skipped lx lx'
here-Skipped lx lx' e at =
    subst (λ l. Skipped lx l) (sym e)
      (record { text = []; moved = Moved-refl lx; trivia = empty; at_token = at })

length-pos_of_ne : (t : Bytes) → t ≢ [] → 0 < length t
length-pos_of_ne [] h = absurd (h refl)
length-pos_of_ne (c ∷ t) h = omega arith

skip_loop-SkipOutcome :
    (fuel : ℕ) (lx : Lexer) → length lx.current ≤ fuel → SkipOutcome lx (skip_loop fuel lx)
unfolding skip_loop
skip_loop-SkipOutcome zero lx h =
    here-Skipped lx lx refl (end-AtToken lx (length-current-zero lx h))
skip_loop-SkipOutcome (suc fuel) lx h =
    go (turn lx) (turn-outcome lx) (λ l k. skip_loop-SkipOutcome fuel l k)
  where
    go :
        (t : Turn)
        → TurnOutcome lx t
        → ((l : Lexer) → length l.current ≤ fuel → SkipOutcome l (skip_loop fuel l))
        → SkipOutcome lx (elim t [
          | again lx' ↦ skip_loop fuel lx'
          | done lx' ↦ (none, lx')
          | failed r ↦ (some r.0, r.1)
        ])
    go (again lx') o ih = again-SkipOutcome lx lx' o _ (
        ih lx' (
          omega
            (arith, ap length o.1.splits, length-append o.0 lx'.current, length-pos_of_ne o.0 o.2)))
    go (done lx') o ih = here-Skipped lx lx' o.0 o.1
    go (failed r) o ih = record {
      comment = lx;
      text = [];
      moved = Moved-refl lx;
      trivia = empty;
      emits = o.0;
      unclosed = o.1;
    }

-- `skip_whitespace_and_comments` consumes whitespace and comments only, and stops at the first byte
-- of a token or at the end. Or it fails at a block comment, behind whitespace and comments, that is not
-- closed: it has then read up to the end of the source, and no `*/` stands behind the comment's `/*`.
pub skip-SkipOutcome : (lx : Lexer) → SkipOutcome lx (skip_whitespace_and_comments lx)
unfolding skip_whitespace_and_comments
skip-SkipOutcome lx = skip_loop-SkipOutcome (length lx.current) lx (omega arith)
