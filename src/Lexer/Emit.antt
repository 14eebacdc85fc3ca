-- ===== src/Lexer/Emit.antt =====
-- What a scanner returns: the token and the lexer behind it, against the lexer at the token's start.
use Prim.Native.String.{String}
use coglet.Prelude.{
  ℕ, ◌≤◌, ◌≢◌, Bytes, length, length-append, [], ◌≡◌, refl, ap, some, ◌⊎◌, inl, inr, arith,
}
use coglet.Lexer.Token.{TokenType, Token}
use coglet.Lexer.Cursor.{
  Lexer, mark, ptr_diff, make_token, error_token, emit, emit_to_here, fail, fail_to_here,
}
use coglet.Lexer.Motion.{Moved}
use coglet.Lexer.Lexeme.{Lexeme}

-- An error token, which covers a part of the text consumed, and whose message the lexer keeps.
pub record Failed (text : Bytes) (r : Token × Lexer) : Type 0 where
  pub message : String
  pub type_is : r.0.type ≡ TokenType.tok_error
  pub message_is : r.1.error_msg ≡ some message
  pub some_text : text ≢ []
  pub within : r.0.length ≤ length text

-- From `lx` on, `r` is a token at `lx` with the lexer behind it: `text` was consumed, and the token
-- covers it and is a lexeme of its type, or it is an error.
pub record Emits (lx : Lexer) (r : Token × Lexer) : Type 0 where
  pub text : Bytes
  pub moved : Moved lx text r.1
  pub start_is : r.0.start ≡ lx.current
  pub line_is : r.0.line ≡ lx.line
  pub column_is : r.0.column ≡ lx.column
  pub made : r.0 ≡ make_token r.1 r.0.type r.0.start r.0.length r.0.line r.0.column
  pub verdict : Lexeme r.0.type text r.1.current × (r.0.length ≡ length text) ⊎ Failed text r

pub Emits-within : {lx : Lexer} {r : Token × Lexer} (e : Emits lx r) → r.0.length ≤ length e.text
Emits-within {lx} {r} e = go e.verdict
  where
    go :
        Lexeme r.0.type e.text r.1.current × (r.0.length ≡ length e.text) ⊎ Failed e.text r
        → r.0.length ≤ length e.text
    go (inl (l, h)) = omega arith
    go (inr f) = f.within

pub ptr_diff-Moved :
    {lx lx' : Lexer} (text : Bytes)
    → Moved lx text lx'
    → ptr_diff lx'.current lx.current ≡ length text
ptr_diff-Moved {lx} {lx'} text m = omega (arith, ap length m.splits, length-append text lx'.current)

pub emit-Emits :
    {lx lx' : Lexer} (text : Bytes) (type : TokenType) (n : ℕ)
    → Moved lx text lx'
    → n ≡ length text
    → Lexeme type text lx'.current
    → Emits lx (emit lx' type (mark lx) n)
unfolding make_token
emit-Emits text type n m e l = record {
  text = text;
  moved = m;
  start_is = refl;
  line_is = refl;
  column_is = refl;
  made = refl;
  verdict = inl (l, e);
}

pub emit_to_here-Emits :
    {lx lx' : Lexer} (text : Bytes) (type : TokenType)
    → Moved lx text lx'
    → Lexeme type text lx'.current
    → Emits lx (emit_to_here lx' type (mark lx))
emit_to_here-Emits text type m l = emit-Emits text type _ m (ptr_diff-Moved text m) l

pub fail-Emits :
    {lx lx' : Lexer} (text : Bytes) (n : ℕ) (message : String)
    → Moved lx text lx'
    → text ≢ []
    → n ≤ length text
    → Emits lx (fail lx' (mark lx) n message)
unfolding make_token error_token
fail-Emits text n message m nonempty h = record {
  text = text;
  moved = record {
    splits = m.splits;
    no_nul = m.no_nul;
    line_is = m.line_is;
    column_is = m.column_is;
    source_is = m.source_is;
    id_is = m.id_is;
    overrun_is = m.overrun_is;
  };
  start_is = refl;
  line_is = refl;
  column_is = refl;
  made = refl;
  verdict = inr (record {
    message = message;
    type_is = refl;
    message_is = refl;
    some_text = nonempty;
    within = h;
  });
}

pub fail_to_here-Emits :
    {lx lx' : Lexer} (text : Bytes) (message : String)
    → Moved lx text lx'
    → text ≢ []
    → Emits lx (fail_to_here lx' (mark lx) message)
fail_to_here-Emits text message m nonempty =
    fail-Emits text _ message m nonempty (omega (arith, ptr_diff-Moved text m))
