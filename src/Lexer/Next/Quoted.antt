-- ===== src/Lexer/Next/Quoted.antt =====
-- A well-formed string is always a token: no error is reported for it.
use coglet.Prelude.{
  ℕ, zero, suc, ◌+◌, ◌≤◌, ◌≢◌, Bytes, length, length-append, true, false, ◌∷◌, ◌++◌, ◌≡◌, refl, ap,
  ◌∙◌, Option, none, some, ◌==◌, arith,
}
use coglet.Lexer.Token.{TokenType, Token}
use coglet.Lexer.Bytes.{is_alpha, is_digit}
use coglet.Lexer.Cursor.{Lexer, deref, tail, mark, is_at_end, peek, peek_next, advance, make_token}
use coglet.Lexer.Motion.{current-advance, is_at_end-eq}
use coglet.Lexer.Lexeme.{IsStringBody, done, plain, escape}
use coglet.Lexer.Trivia.{Turn, is_space, turn, skip_loop, skip_whitespace_and_comments}
use coglet.Lexer.Text.{skip_string, scan_string}
use coglet.Lexer.Next.{scan_token, next_at, lexer_next}

peek-cons : (lx : Lexer) {c : ℕ} {cs : Bytes} → lx.current ≡ c ∷ cs → peek lx ≡ c
unfolding peek
peek-cons lx e = ap deref e

advance-cons : (lx : Lexer) {c : ℕ} {cs : Bytes} → lx.current ≡ c ∷ cs → (advance lx).current ≡ cs
advance-cons lx e = current-advance lx ∙ ap tail e

peek_next-cons :
    (lx : Lexer) {c d : ℕ} {cs : Bytes} → c ≢ 0 → lx.current ≡ c ∷ d ∷ cs → peek_next lx ≡ d
unfolding peek_next is_at_end
peek_next-cons lx h e = ground (arith, ap deref e, ap (λ t. deref (tail t)) e)

-- The loop of `scan_string` stops at the closing quote.
skip_string-body :
    {body : Bytes} (rest : Bytes) (fuel : ℕ) (lx : Lexer)
    → IsStringBody body
    → lx.current ≡ body ++ (b'"' ∷ rest)
    → length lx.current ≤ fuel
    → (skip_string fuel lx).current ≡ b'"' ∷ rest
unfolding skip_string
skip_string-body rest zero lx done e h = e
skip_string-body rest zero lx (plain q n z b) e h = absurd (omega (arith, ap length e))
skip_string-body rest zero lx (escape q z b) e h = absurd (omega (arith, ap length e))
skip_string-body rest (suc fuel) lx done e h = rw (peek-cons lx e) e
skip_string-body rest (suc fuel) lx (plain q n z b) e h =
    let p = peek-cons lx e in
    let ih =
      skip_string-body rest fuel (advance lx) b (advance-cons lx e)
        (omega (arith, ap length e, ap length (advance-cons lx e))) in
    let q' : (peek lx == b'"') ≡ false = ground arith in
    let n' : (peek lx == b'\\') ≡ false = ground arith in
    let z' : (peek lx == 0) ≡ false = ground arith in rw (is_at_end-eq, q', n', z') ih
skip_string-body rest (suc fuel) lx (escape {q} {c} q_is z b) e h =
    let p : peek lx ≡ b'\\' = peek-cons lx e ∙ q_is in
    let two = advance-cons (advance lx) (advance-cons lx e) in
    let ih =
      skip_string-body rest fuel (advance (advance lx)) b two
        (omega (arith, ap length e, ap length two)) in
    let next : peek_next lx ≡ c = peek_next-cons lx (ground arith) e in
    let q' : (peek lx == b'"') ≡ false = ground arith in
    let n' : (peek lx == b'\\') ≡ true = ground arith in
    let z' : (peek lx == 0) ≡ false = ground arith in
    let behind : (peek_next lx == 0) ≡ false = ground arith in
    rw (is_at_end-eq, q', n', z', behind) ih

-- At a quote there is nothing to skip.
turn-quote : (lx : Lexer) → peek lx ≡ b'"' → turn lx ≡ Turn.done lx
unfolding turn is_space
turn-quote lx p = rw p refl

skip_loop-quote : (fuel : ℕ) (lx : Lexer) → peek lx ≡ b'"' → skip_loop fuel lx ≡ (none, lx)
unfolding skip_loop
skip_loop-quote zero lx p = refl
skip_loop-quote (suc fuel) lx p = rw (skip_loop, turn-quote lx p) refl

skip-quote : (lx : Lexer) → peek lx ≡ b'"' → skip_whitespace_and_comments lx ≡ (none, lx)
unfolding skip_whitespace_and_comments
skip-quote lx p = skip_loop-quote (length lx.current) lx p

next_at-quote : (lx : Lexer) → peek lx ≡ b'"' → next_at lx ≡ scan_string (advance lx) (mark lx)
unfolding next_at scan_token is_alpha is_digit
next_at-quote lx p = rw (is_at_end-eq, p) refl

-- A string token for the whole text between two quotes, both included.
pub record Quoted (lx : Lexer) (body rest : Bytes) (r : Token × Lexer) : Type 0 where
  pub type_is : r.0.type ≡ TokenType.tok_string
  pub start_is : r.0.start ≡ lx.current
  pub length_is : r.0.length ≡ length body + 2
  pub current_is : r.1.current ≡ rest

scan_string-Quoted :
    (lx : Lexer) (body rest : Bytes)
    → IsStringBody body
    → lx.current ≡ b'"' ∷ (body ++ (b'"' ∷ rest))
    → Quoted lx body rest (scan_string (advance lx) (mark lx))
unfolding scan_string make_token
scan_string-Quoted lx body rest b e =
    let opened = advance-cons lx e in
    let closing =
      skip_string-body rest (length (advance lx).current) (advance lx) b opened (omega arith) in
    let ended = skip_string (length (advance lx).current) (advance lx) in
    let open_end : is_at_end ended ≡ false = rw (is_at_end-eq, peek-cons ended closing) refl in
    let behind : (advance ended).current ≡ rest = advance-cons ended closing in
    rw open_end (record {
      type_is = refl;
      start_is = refl;
      length_is = omega (arith, ap length behind, ap length e, length-append body (b'"' ∷ rest));
      current_is = behind;
    })

lexer_next-quote :
    (lx : Lexer) → peek lx ≡ b'"' → lexer_next lx ≡ scan_string (advance lx) (mark lx)
unfolding lexer_next
lexer_next-quote lx p =
    ap
      (λ (s : Option Token × Lexer). elim (s.0) [
        | some comment_error ↦ (comment_error, s.1)
        | none ↦ next_at s.1
      ])
      (skip-quote lx p)
    ∙ next_at-quote lx p

-- A body in quotes is a string token, whatever follows it: its type is TOK_STRING, it starts at the
-- first quote and is as long as the body with both quotes, and the lexer stands behind the second.
pub lexer_next-Quoted :
    (lx : Lexer) (body rest : Bytes)
    → IsStringBody body
    → lx.current ≡ b'"' ∷ (body ++ (b'"' ∷ rest))
    → Quoted lx body rest (lexer_next lx)
lexer_next-Quoted lx body rest b e =
    rw (lexer_next-quote lx (peek-cons lx e)) (scan_string-Quoted lx body rest b e)
