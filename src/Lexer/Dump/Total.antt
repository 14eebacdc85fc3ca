-- ===== src/Lexer/Dump/Total.antt =====
-- The loop of tools/dump_tokens.c ends, and what it prints makes up the source.
use coglet.Prelude.{
  ℕ, zero, suc, ◌+◌, ◌<◌, Bytes, length, take, take-length_append, true, false, List, [], ◌∷◌, ◌++◌,
  ◌≡◌, refl, ap, ap₂, ◌∙◌, ◌⊎◌, inl, inr, none, some, Bool-cases, arith,
}
use coglet.Lexer.Token.{TokenType, Token, token_type_name, is_eof, is_error}
use coglet.Lexer.Cursor.{Lexer, lexer_init, lexer_init_with_source_id, deref}
use coglet.Lexer.Lexeme.{Lexeme}
use coglet.Lexer.Emit.{Emits}
use coglet.Lexer.Trivia.Comments.{IsTrivia}
use coglet.Lexer.Next.{lexer_next}
use coglet.Lexer.Next.Tokens.{lexer_next-Yields}
use coglet.Lexer.Next.Progress.{Emits-Lexeme, lexer_next-shortens, Emits-eof}
use coglet.Lexer.Dump.{Line, Message, Dump, token_line, dump_loop, dump_tokens}

-- The lines are the tokens of the source, which is nothing but whitespace, comments and the texts of
-- those tokens, in order.
pub data Tiles : Bytes → List Line → Type 0 where
  last :
      (source trivia rest : Bytes) (l : Line)
      → source ≡ trivia ++ rest
      → IsTrivia rest trivia
      → deref rest ≡ 0
      → l.name ≡ "EOF"
      → l.text ≡ none
      → Tiles source (l ∷ [])
  token :
      (source trivia text rest : Bytes) (type : TokenType) (l : Line) (lines : List Line)
      → source ≡ trivia ++ (text ++ rest)
      → IsTrivia (text ++ rest) trivia
      → Lexeme type text rest
      → l.name ≡ token_type_name type
      → l.text ≡ some text
      → Tiles rest lines
      → Tiles source (l ∷ lines)

-- The two ways to end.
abbrev pub DumpOutcome : Lexer → Dump → Type 0
DumpOutcome lx d =
    (d.exit_code ≡ 0) × (d.message ≡ none) × Tiles lx.current d.lines
    ⊎ ((d.exit_code ≡ 1) × ((m : Message) × (d.message ≡ some m)))

eof_name : (t : TokenType) → is_eof t ≡ true → token_type_name t ≡ "EOF"
unfolding is_eof token_type_name
eof_name TokenType.tok_eof h = refl
eof_name _ h = cc

token_text :
    {lx : Lexer} {r : Token × Lexer} (e : Emits lx r)
    → r.0.length ≡ length e.text
    → take r.0.length r.0.start ≡ e.text
token_text {lx} {r} e h =
    ap₂ take h (e.start_is ∙ e.moved.splits) ∙ take-length_append e.text r.1.current

prepend-outcome :
    (lx : Lexer) (d : Dump)
    → is_error (lexer_next lx).0.type ≡ false
    → DumpOutcome (lexer_next lx).1 d
    → DumpOutcome lx (record d { lines = token_line (lexer_next lx).0 ∷ d.lines })
prepend-outcome lx d h (inl (code, silent, tiles)) =
    let y = lexer_next-Yields lx in
    let v = Emits-Lexeme y.emits h in
    inl (
      code,
      silent,
      Tiles.token lx.current y.trivia y.emits.text (lexer_next lx).1.current (lexer_next lx).0.type
          _ _ (y.skipped.splits ∙ ap (λ t. y.trivia ++ t) y.emits.moved.splits)
          (rw (← y.emits.moved.splits) y.is_trivia) v.0 refl (ap some (token_text y.emits v.1))
          tiles,
    )
prepend-outcome lx d h (inr failed) = inr failed

eof-outcome :
    (lx : Lexer)
    → is_eof (lexer_next lx).0.type ≡ true
    → Tiles lx.current (
        record {
          line = (lexer_next lx).0.line;
          name = token_type_name (lexer_next lx).0.type;
          text = none;
        }
        ∷ [])
eof-outcome lx h =
    let y = lexer_next-Yields lx in
    let e = Emits-eof y.emits h in
    let same : y.start.current ≡ (lexer_next lx).1.current =
      y.emits.moved.splits ∙ ap (λ t. t ++ (lexer_next lx).1.current) e.0 in
    Tiles.last lx.current y.trivia y.start.current _ y.skipped.splits y.is_trivia
      (ap deref same ∙ e.1) (eof_name _ h) refl

-- With fuel for every byte left, the loop ends.
pub dump_loop-outcome :
    (fuel : ℕ) (lx : Lexer)
    → length lx.current < fuel
    → (d : Dump) × (dump_loop fuel lx ≡ some d) × DumpOutcome lx d
unfolding dump_loop
dump_loop-outcome zero lx h = absurd (omega arith)
dump_loop-outcome (suc fuel) lx h = elim (Bool-cases (is_error (lexer_next lx).0.type)) [
  | inl e ↦ rw e (_, refl, inr (refl, (_, refl)))
  | inr e ↦ elim (Bool-cases (is_eof (lexer_next lx).0.type)) [
    | inl z ↦ rw (e, z) (_, refl, inl (refl, refl, eof-outcome lx z))
    | inr z ↦
        let (d, ends, o) =
          dump_loop-outcome fuel (lexer_next lx).1 (omega (arith, lexer_next-shortens lx z)) in
        rw (e, z, ends) (_, refl, prepend-outcome lx d e o)
  ]
]

-- On every source the dump ends, within one call of the lexer for each byte and one more. Either it
-- prints the whole source as tokens, with whitespace and comments between them, and exits with 0, or
-- it exits with 1 and one message.
pub dump_tokens_total :
    (filename source : Bytes)
    → (d : Dump) × (dump_tokens (length source + 1) filename source ≡ some d)
      × ((d.exit_code ≡ 0) × (d.message ≡ none) × Tiles source d.lines
          ⊎ ((d.exit_code ≡ 1) × ((m : Message) × (d.message ≡ some m))))
unfolding dump_tokens lexer_init lexer_init_with_source_id
dump_tokens_total filename source =
    dump_loop-outcome (length source + 1) (lexer_init filename source) (omega arith)
