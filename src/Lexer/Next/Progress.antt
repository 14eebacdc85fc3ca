-- ===== src/Lexer/Next/Progress.antt =====
-- Every token but the last consumes text, so reading tokens ends.
use Prim.Native.String.{String}
use coglet.Prelude.{
  some, ℕ, ◌<◌, ◌≢◌, Bytes, All, length, length-append, append-ne-nil, true, false, List, [], ◌∷◌,
  ◌++◌, ◌≡◌, refl, sym, ap, ◌∙◌, ◌⊎◌, inl, inr, Bool-cases, arith,
}
use coglet.Lexer.Token.{TokenType, Token, is_eof, is_error}
use coglet.Lexer.Keyword.{Keyword, keywords, codes, keyword_matches, find_keyword, identifier_type}
use coglet.Lexer.Bytes.{is_alpha}
use coglet.Lexer.Cursor.{Lexer, deref, peek}
use coglet.Lexer.Lexeme.{
  IsInteger, decimal, prefixed, IsFloat, decimal_float, hexadecimal_float, Operator, operators,
  Lexeme,
}
use coglet.Lexer.Emit.{Emits, Failed}
use coglet.Lexer.Operator.Grammar.{Listed-All}
use coglet.Lexer.Next.{lexer_next}
use coglet.Lexer.Next.Tokens.{lexer_next-Yields}

abbrev Plain : TokenType → Type 0
Plain t = (is_eof t ≡ false) × (is_error t ≡ false)

keywords-Plain : All (λ (k : Keyword). Plain k.1) keywords
unfolding is_eof is_error
keywords-Plain = ground arith

operators-Plain : All (λ (o : Operator). Plain o.1 × (0 < length (codes o.0))) operators
unfolding is_eof is_error
operators-Plain = ground arith

find_keyword-Plain :
    (table : List Keyword) (w : Bytes) (n : ℕ)
    → All (λ (k : Keyword). Plain k.1) table
    → Plain (find_keyword table w n)
unfolding find_keyword is_eof is_error
find_keyword-Plain [] w n h = (refl, refl)
find_keyword-Plain ((word, type) ∷ table) w n h = elim (Bool-cases (keyword_matches w n word)) [
  | inl m ↦ rw m h.0
  | inr m ↦ rw m (find_keyword-Plain table w n h.1)
]

-- A name is never taken for the end of the source or for an error.
identifier_type-Plain : (w : Bytes) (n : ℕ) → Plain (identifier_type w n)
unfolding identifier_type
identifier_type-Plain w n = find_keyword-Plain keywords w n keywords-Plain

is_alpha_nul : is_alpha 0 ≡ false
unfolding is_alpha
is_alpha_nul = refl

IsInteger-ne-nil : {text rest : Bytes} → IsInteger text rest → text ≢ []
IsInteger-ne-nil (decimal d stop f x z) = d.some_digit
IsInteger-ne-nil (prefixed letter radix digits p e d stop point) = λ n. cc

IsFloat-ne-nil : {text rest : Bytes} → IsFloat text rest → text ≢ []
IsFloat-ne-nil (decimal_float whole f x w of ox either e stop last) =
    λ n. append-ne-nil whole (f ++ x) w.some_digit (sym e ∙ n)
IsFloat-ne-nil (hexadecimal_float letter s x p hs hx e stop) = λ n. cc

Lexeme-ne-nil :
    {type : TokenType} {text rest : Bytes} → is_eof type ≡ false → Lexeme type text rest → text ≢ []
unfolding is_eof
Lexeme-ne-nil h (Lexeme.eof t e z) = cc (ap is_eof t)
Lexeme-ne-nil h (Lexeme.integer t i) = IsInteger-ne-nil i
Lexeme-ne-nil h (Lexeme.float t f) = IsFloat-ne-nil f
Lexeme-ne-nil h (Lexeme.string body t e b) = λ n. cc
Lexeme-ne-nil h (Lexeme.char body t e b) = λ n. cc
Lexeme-ne-nil h (Lexeme.name t w) = λ n. cc (n, w.first, is_alpha_nul)
Lexeme-ne-nil h (Lexeme.operator o) = λ n.
    let p =
      Listed-All (λ q. Plain q.1 × (0 < length (codes q.0))) operators o.entry o.listed
        operators-Plain in
    absurd (omega (arith, p.1, ap length o.spelled, ap length n))

Lexeme-eof :
    {type : TokenType} {text rest : Bytes}
    → is_eof type ≡ true
    → Lexeme type text rest
    → (text ≡ []) × (deref rest ≡ 0)
unfolding is_eof
Lexeme-eof h (Lexeme.eof t e z) = (e, z)
Lexeme-eof h (Lexeme.integer t i) = cc (ap is_eof t)
Lexeme-eof h (Lexeme.float t f) = cc (ap is_eof t)
Lexeme-eof h (Lexeme.string body t e b) = cc (ap is_eof t)
Lexeme-eof h (Lexeme.char body t e b) = cc (ap is_eof t)
Lexeme-eof {text = text} h (Lexeme.name t w) =
    cc (ap is_eof t, (identifier_type-Plain text (length text)).0)
Lexeme-eof h (Lexeme.operator o) =
    let p =
      Listed-All (λ q. Plain q.1 × (0 < length (codes q.0))) operators o.entry o.listed
        operators-Plain in
    cc (ap is_eof o.type_is, p.0.0)

Lexeme-Plain :
    {type : TokenType} {text rest : Bytes} → Lexeme type text rest → is_error type ≡ false
unfolding is_error
Lexeme-Plain (Lexeme.eof t e z) = ap is_error t
Lexeme-Plain (Lexeme.integer t i) = ap is_error t
Lexeme-Plain (Lexeme.float t f) = ap is_error t
Lexeme-Plain (Lexeme.string body t e b) = ap is_error t
Lexeme-Plain (Lexeme.char body t e b) = ap is_error t
Lexeme-Plain {text = text} (Lexeme.name t w) =
    ap is_error t ∙ (identifier_type-Plain text (length text)).1
Lexeme-Plain (Lexeme.operator o) =
    ap is_error o.type_is
    ∙ (Listed-All (λ q. Plain q.1 × (0 < length (codes q.0))) operators o.entry o.listed
        operators-Plain).0.1

length-pos : (t : Bytes) → t ≢ [] → 0 < length t
length-pos [] h = absurd (h refl)
length-pos (c ∷ t) h = omega arith

module _ {lx : Lexer} {r : Token × Lexer} (e : Emits lx r) where
  Emits-ne-nil : is_eof r.0.type ≡ false → e.text ≢ []
  Emits-ne-nil h = go e.verdict
    where
      go :
          Lexeme r.0.type e.text r.1.current × (r.0.length ≡ length e.text) ⊎ Failed e.text r
          → e.text ≢ []
      go (inl (l, _)) = Lexeme-ne-nil h l
      go (inr f) = f.some_text

  pub Emits-eof : is_eof r.0.type ≡ true → (e.text ≡ []) × (deref r.1.current ≡ 0)
  unfolding is_eof
  Emits-eof h = go e.verdict
    where
      go :
          Lexeme r.0.type e.text r.1.current × (r.0.length ≡ length e.text) ⊎ Failed e.text r
          → (e.text ≡ []) × (deref r.1.current ≡ 0)
      go (inl (l, _)) = Lexeme-eof h l
      go (inr f) = cc (ap is_eof f.type_is)

  -- Exactly the failed tokens have the type TOK_ERROR.
  pub Emits-error : is_error r.0.type ≡ true → Failed e.text r
  Emits-error h = go e.verdict
    where
      go :
          Lexeme r.0.type e.text r.1.current × (r.0.length ≡ length e.text) ⊎ Failed e.text r
          → Failed e.text r
      go (inl (l, _)) = cc (h, Lexeme-Plain l)
      go (inr f) = f

  pub Emits-Lexeme :
      is_error r.0.type ≡ false → Lexeme r.0.type e.text r.1.current × (r.0.length ≡ length e.text)
  unfolding is_error
  Emits-Lexeme h = go e.verdict
    where
      go :
          Lexeme r.0.type e.text r.1.current × (r.0.length ≡ length e.text) ⊎ Failed e.text r
          → Lexeme r.0.type e.text r.1.current × (r.0.length ≡ length e.text)
      go (inl v) = v
      go (inr f) = cc (ap is_error f.type_is)

-- A token other than TOK_EOF leaves less text behind it than there was.
pub lexer_next-shortens :
    (lx : Lexer)
    → is_eof (lexer_next lx).0.type ≡ false
    → length (lexer_next lx).1.current < length lx.current
lexer_next-shortens lx h =
    let y = lexer_next-Yields lx in
    omega (
      arith,
      length-pos y.emits.text (Emits-ne-nil y.emits h),
      ap length y.skipped.splits,
      ap length y.emits.moved.splits,
      length-append y.trivia y.start.current,
      length-append y.emits.text (lexer_next lx).1.current,
    )

-- TOK_EOF is returned only where the source ends.
pub lexer_next-at_end :
    (lx : Lexer) → is_eof (lexer_next lx).0.type ≡ true → peek (lexer_next lx).1 ≡ 0
unfolding peek
lexer_next-at_end lx h = (Emits-eof (lexer_next-Yields lx).emits h).1

-- `error_msg` is set whenever the token is TOK_ERROR, and the call has consumed some text.
pub lexer_next-error_msg :
    (lx : Lexer)
    → is_error (lexer_next lx).0.type ≡ true
    → (message : String) × ((lexer_next lx).1.error_msg ≡ some message)
      × (length (lexer_next lx).1.current < length lx.current)
unfolding is_error is_eof
lexer_next-error_msg lx h =
    let y = lexer_next-Yields lx in
    let f = Emits-error y.emits h in
    (f.message, f.message_is, lexer_next-shortens lx (ap is_eof f.type_is))
