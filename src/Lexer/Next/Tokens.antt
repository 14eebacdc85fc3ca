-- ===== src/Lexer/Next/Tokens.antt =====
-- `lexer_next` returns the tokens of the lexical grammar, in place.
use coglet.Prelude.{
  ◌≢◌, Bytes, [], refl, inl, inr, ◌==◌, ==_iff, Bool-cases, Option, none, some, arith,
}
use coglet.Lexer.Token.{TokenType, Token}
use coglet.Lexer.Bytes.{is_alpha, is_digit}
use coglet.Lexer.Cursor.{Lexer, mark, peek, advance}
use coglet.Lexer.Motion.{Moved, Moved-refl, is_at_end-eq}
use coglet.Lexer.Lexeme.{Lexeme}
use coglet.Lexer.Emit.{Emits, emit-Emits}
use coglet.Lexer.Trivia.{skip_whitespace_and_comments}
use coglet.Lexer.Trivia.Comments.{IsTrivia}
use coglet.Lexer.Trivia.Grammar.{SkipOutcome, skip-SkipOutcome}
use coglet.Lexer.Text.Grammar.{scan_identifier-Emits, scan_string-Emits, scan_char-Emits}
use coglet.Lexer.Number.Grammar.{scan_number-Scans}
use coglet.Lexer.Operator.Grammar.{scan_operator-Emits}
use coglet.Lexer.Next.{scan_token, next_at, lexer_next}

scan_token-Emits :
    (lx : Lexer) → peek lx ≢ 0 → Emits lx (scan_token (peek lx) (advance lx) (mark lx))
unfolding scan_token
scan_token-Emits lx nz = elim (Bool-cases (is_alpha (peek lx))) [
  | inl a ↦ rw a (scan_identifier-Emits lx a)
  | inr a ↦ elim (Bool-cases (is_digit (peek lx))) [
    | inl d ↦ rw (a, d) ((scan_number-Scans lx d).emits)
    | inr d ↦ elim (Bool-cases (peek lx == b'"')) [
      | inl q ↦ rw (a, d, q) (scan_string-Emits lx ((==_iff (peek lx) b'"').0 q))
      | inr q ↦ elim (Bool-cases (peek lx == b'\'')) [
        | inl c ↦ rw (a, d, q, c) (scan_char-Emits lx ((==_iff (peek lx) b'\'').0 c))
        | inr c ↦ rw (a, d, q, c) (scan_operator-Emits lx nz)
      ]
    ]
  ]
]

next_at-Emits : (lx : Lexer) → Emits lx (next_at lx)
unfolding next_at
next_at-Emits lx = elim (Bool-cases (peek lx == 0)) [
  | inl z ↦
      rw (is_at_end-eq, z)
        (emit-Emits [] TokenType.tok_eof 0 (Moved-refl lx) refl
          (Lexeme.eof refl refl (unfold peek in (==_iff (peek lx) 0).0 z)))
  | inr z ↦ rw (is_at_end-eq, z) (scan_token-Emits lx (ground arith))
]

-- The token that `lexer_next` returns, with the whitespace and comments in front of it: `start` is
-- the lexer at the token.
pub record Yields (lx : Lexer) (r : Token × Lexer) : Type 0 where
  pub start : Lexer
  pub trivia : Bytes
  pub skipped : Moved lx trivia start
  pub is_trivia : IsTrivia start.current trivia
  pub emits : Emits start r

-- Every call of `lexer_next` skips whitespace and comments and returns the token that starts there:
-- a lexeme of its type, at the line and column of its first byte, and covering exactly the text
-- consumed unless it is an error token. Nothing is read past the terminating NUL.
pub lexer_next-Yields : (lx : Lexer) → Yields lx (lexer_next lx)
unfolding lexer_next
lexer_next-Yields lx = go (skip_whitespace_and_comments lx) (skip-SkipOutcome lx)
  where
    go :
        (s : Option Token × Lexer)
        → SkipOutcome lx s
        → Yields lx (elim (s.0) [ some comment_error ↦ (comment_error, s.1) | none ↦ next_at s.1 ])
    go (none, lx') h = record {
      start = lx';
      trivia = h.text;
      skipped = h.moved;
      is_trivia = h.trivia;
      emits = next_at-Emits lx';
    }
    go (some error, lx') h = record {
      start = h.comment;
      trivia = h.text;
      skipped = h.moved;
      is_trivia = h.trivia;
      emits = h.emits;
    }
