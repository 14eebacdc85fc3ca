-- ===== src/Lexer/Operator/Switch.antt =====
-- The whole `switch` is the choice of the longest operator, and what that choice promises.
use coglet.Prelude.{ℕ, ◌≢◌, Bytes, false, List, [], ◌∷◌, ◌≡◌, refl, none, some, arith}
use coglet.Lexer.Token.{TokenType}
use coglet.Lexer.Keyword.{codes}
use coglet.Lexer.Cursor.{Lexer, Mark, deref}
use coglet.Lexer.Lexeme.{Operator, operators, is_prefix}
use coglet.Lexer.Operator.{scan_operator}
use coglet.Lexer.Operator.Munch.{
  longest, chosen, scan_dot-longest, scan_plus-longest, scan_minus-longest, scan_star-longest,
  scan_slash-longest, scan_percent-longest, scan_colon-longest, scan_equal-longest,
  scan_bang-longest, scan_less-longest, scan_greater-longest, scan_ampersand-longest,
  scan_bar-longest, scan_caret-longest,
}

-- No spelling of the table starts with `c`.
abbrev StartsNone : ℕ → List Operator → Type 0
StartsNone c [] = Unit
StartsNone c (o ∷ table) = (codes o.0 ≢ []) × (deref (codes o.0) ≢ c) × StartsNone c table

is_prefix-first :
    (word : Bytes) (c : ℕ) (rest : Bytes)
    → word ≢ []
    → deref word ≢ c
    → is_prefix word (c ∷ rest) ≡ false
is_prefix-first [] c rest h k = absurd (h refl)
is_prefix-first (x ∷ word) c rest h k = ground arith

longest-StartsNone :
    (table : List Operator) (c : ℕ) (rest : Bytes)
    → StartsNone c table
    → longest table (c ∷ rest) ≡ none
unfolding longest
longest-StartsNone [] c rest h = refl
longest-StartsNone (o ∷ table) c rest h =
    rw (is_prefix-first (codes o.0) c rest h.0 h.1) (longest-StartsNone table c rest h.2)

lparen_entry : (rest : Bytes) → longest operators (b'(' ∷ rest) ≡ some ("(", TokenType.tok_lparen)
unfolding longest
lparen_entry rest = refl

rparen_entry : (rest : Bytes) → longest operators (b')' ∷ rest) ≡ some (")", TokenType.tok_rparen)
unfolding longest
rparen_entry rest = refl

lbrace_entry : (rest : Bytes) → longest operators (b'{' ∷ rest) ≡ some ("{", TokenType.tok_lbrace)
unfolding longest
lbrace_entry rest = refl

rbrace_entry : (rest : Bytes) → longest operators (b'}' ∷ rest) ≡ some ("}", TokenType.tok_rbrace)
unfolding longest
rbrace_entry rest = refl

lbracket_entry :
    (rest : Bytes) → longest operators (b'[' ∷ rest) ≡ some ("[", TokenType.tok_lbracket)
unfolding longest
lbracket_entry rest = refl

rbracket_entry :
    (rest : Bytes) → longest operators (b']' ∷ rest) ≡ some ("]", TokenType.tok_rbracket)
unfolding longest
rbracket_entry rest = refl

hash_entry : (rest : Bytes) → longest operators (b'#' ∷ rest) ≡ some ("#", TokenType.tok_hash)
unfolding longest
hash_entry rest = refl

semicolon_entry :
    (rest : Bytes) → longest operators (b';' ∷ rest) ≡ some (";", TokenType.tok_semicolon)
unfolding longest
semicolon_entry rest = refl

comma_entry : (rest : Bytes) → longest operators (b',' ∷ rest) ≡ some (",", TokenType.tok_comma)
unfolding longest
comma_entry rest = refl

tilde_entry : (rest : Bytes) → longest operators (b'~' ∷ rest) ≡ some ("~", TokenType.tok_tilde)
unfolding longest
tilde_entry rest = refl

-- The `switch` chooses the longest operator of the table that fits.
pub scan_operator-longest :
    (c : ℕ) (lx : Lexer) (m : Mark)
    → scan_operator c lx m ≡ chosen lx m (longest operators (c ∷ lx.current))
unfolding scan_operator
scan_operator-longest c lx m = ground (
  arith,
  lparen_entry lx.current,
  rparen_entry lx.current,
  lbrace_entry lx.current,
  rbrace_entry lx.current,
  lbracket_entry lx.current,
  rbracket_entry lx.current,
  hash_entry lx.current,
  semicolon_entry lx.current,
  comma_entry lx.current,
  scan_dot-longest lx m,
  scan_plus-longest lx m,
  scan_minus-longest lx m,
  scan_star-longest lx m,
  scan_slash-longest lx m,
  scan_percent-longest lx m,
  scan_colon-longest lx m,
  scan_equal-longest lx m,
  scan_bang-longest lx m,
  scan_less-longest lx m,
  scan_greater-longest lx m,
  scan_ampersand-longest lx m,
  scan_bar-longest lx m,
  scan_caret-longest lx m,
  tilde_entry lx.current,
  longest-StartsNone operators c lx.current,
)
