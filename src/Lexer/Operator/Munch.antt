-- ===== src/Lexer/Operator/Munch.antt =====
-- `scan_operator` against the table of operators: the longest spelling that fits wins.
use coglet.Prelude.{
  ℕ, zero, suc, ◌-◌, ◌<◌, ltb, Bytes, length, true, false, ◌&&◌, List, [], ◌∷◌, ◌≡◌, refl, ◌==◌,
  if◌then◌else◌, Option, none, some, arith,
}
use coglet.Lexer.Token.{TokenType, Token}
use coglet.Lexer.Keyword.{codes}
use coglet.Lexer.Cursor.{
  Lexer, Mark, deref, tail, is_at_end, peek, peek_next, advance, match, emit, fail,
}
use coglet.Lexer.Lexeme.{Operator, operators, is_prefix}
use coglet.Lexer.Motion.{current-advance}
use coglet.Lexer.Operator.{
  scan_dot, scan_plus, scan_minus, scan_star, scan_slash, scan_percent, scan_colon, scan_equal,
  scan_bang, scan_less, scan_greater, scan_ampersand, scan_bar, scan_caret,
}

-- The longest entry of a table that is a prefix of `text`.
abbrev pub longer : Operator → Option Operator → Option Operator
longer o none = some o
longer o (some best) =
    if ltb (length (codes best.0)) (length (codes o.0)) then some o else some best

unfoldable pub longest : List Operator → Bytes → Option Operator
longest [] text = none
longest (o ∷ table) text =
    let rest = longest table text in if is_prefix (codes o.0) text then longer o rest else rest

abbrev pub advance_by : ℕ → Lexer → Lexer
advance_by zero lx = lx
advance_by (suc n) lx = advance_by n (advance lx)

-- The token that the choice stands for; the first byte is consumed already.
abbrev pub chosen : Lexer → Mark → Option Operator → Token × Lexer
chosen lx m none = fail lx m 1 "unexpected character"
chosen lx m (some o) = emit (advance_by (length (codes o.0) - 1) lx) o.1 m (length (codes o.0))

-- `match` at a byte that is not NUL is a test of `peek`.
match-eq :
    (lx : Lexer) (c : ℕ)
    → 0 < c
    → match lx c ≡ (if deref lx.current == c then (true, advance lx) else (false, lx))
unfolding match is_at_end peek
match-eq lx c h = ground arith

-- For each first byte, what the table holds by the one or two bytes behind it.
plus_entries :
    (rest : Bytes)
    → longest operators (b'+' ∷ rest) ≡ (
        if deref rest == b'+'
        then some ("++", TokenType.tok_plus_plus)
        else if deref rest == b'='
        then some ("+=", TokenType.tok_plus_equal)
        else some ("+", TokenType.tok_plus))
unfolding longest
plus_entries [] = refl
plus_entries (c ∷ []) = ground arith
plus_entries (c ∷ d ∷ rest) = ground arith

pub scan_plus-longest :
    (lx : Lexer) (m : Mark) → scan_plus lx m ≡ chosen lx m (longest operators (b'+' ∷ lx.current))
unfolding scan_plus
scan_plus-longest lx m =
    rw (plus_entries lx.current) (ground (arith, match-eq lx b'+', match-eq lx b'='))

minus_entries :
    (rest : Bytes)
    → longest operators (b'-' ∷ rest) ≡ (
        if deref rest == b'-'
        then some ("--", TokenType.tok_minus_minus)
        else if deref rest == b'='
        then some ("-=", TokenType.tok_minus_equal)
        else if deref rest == b'>'
        then some ("->", TokenType.tok_arrow)
        else some ("-", TokenType.tok_minus))
unfolding longest
minus_entries [] = refl
minus_entries (c ∷ []) = ground arith
minus_entries (c ∷ d ∷ rest) = ground arith

pub scan_minus-longest :
    (lx : Lexer) (m : Mark) → scan_minus lx m ≡ chosen lx m (longest operators (b'-' ∷ lx.current))
unfolding scan_minus
scan_minus-longest lx m =
    rw (minus_entries lx.current)
      (ground (arith, match-eq lx b'-', match-eq lx b'=', match-eq lx b'>'))

star_entries :
    (rest : Bytes)
    → longest operators (b'*' ∷ rest) ≡ (
        if deref rest == b'='
        then some ("*=", TokenType.tok_star_equal)
        else some ("*", TokenType.tok_star))
unfolding longest
star_entries [] = refl
star_entries (c ∷ []) = ground arith
star_entries (c ∷ d ∷ rest) = ground arith

pub scan_star-longest :
    (lx : Lexer) (m : Mark) → scan_star lx m ≡ chosen lx m (longest operators (b'*' ∷ lx.current))
unfolding scan_star
scan_star-longest lx m = rw (star_entries lx.current) (ground (arith, match-eq lx b'='))

slash_entries :
    (rest : Bytes)
    → longest operators (b'/' ∷ rest) ≡ (
        if deref rest == b'='
        then some ("/=", TokenType.tok_slash_equal)
        else some ("/", TokenType.tok_slash))
unfolding longest
slash_entries [] = refl
slash_entries (c ∷ []) = ground arith
slash_entries (c ∷ d ∷ rest) = ground arith

pub scan_slash-longest :
    (lx : Lexer) (m : Mark) → scan_slash lx m ≡ chosen lx m (longest operators (b'/' ∷ lx.current))
unfolding scan_slash
scan_slash-longest lx m = rw (slash_entries lx.current) (ground (arith, match-eq lx b'='))

percent_entries :
    (rest : Bytes)
    → longest operators (b'%' ∷ rest) ≡ (
        if deref rest == b'='
        then some ("%=", TokenType.tok_percent_equal)
        else some ("%", TokenType.tok_percent))
unfolding longest
percent_entries [] = refl
percent_entries (c ∷ []) = ground arith
percent_entries (c ∷ d ∷ rest) = ground arith

pub scan_percent-longest :
    (lx : Lexer) (m : Mark)
    → scan_percent lx m ≡ chosen lx m (longest operators (b'%' ∷ lx.current))
unfolding scan_percent
scan_percent-longest lx m = rw (percent_entries lx.current) (ground (arith, match-eq lx b'='))

colon_entries :
    (rest : Bytes)
    → longest operators (b':' ∷ rest) ≡ (
        if deref rest == b':'
        then some ("::", TokenType.tok_colon_colon)
        else if deref rest == b'='
        then some (":=", TokenType.tok_colon_equal)
        else some (":", TokenType.tok_colon))
unfolding longest
colon_entries [] = refl
colon_entries (c ∷ []) = ground arith
colon_entries (c ∷ d ∷ rest) = ground arith

pub scan_colon-longest :
    (lx : Lexer) (m : Mark) → scan_colon lx m ≡ chosen lx m (longest operators (b':' ∷ lx.current))
unfolding scan_colon
scan_colon-longest lx m =
    rw (colon_entries lx.current) (ground (arith, match-eq lx b':', match-eq lx b'='))

equal_entries :
    (rest : Bytes)
    → longest operators (b'=' ∷ rest) ≡ (
        if deref rest == b'='
        then some ("==", TokenType.tok_equal_equal)
        else some ("=", TokenType.tok_equal))
unfolding longest
equal_entries [] = refl
equal_entries (c ∷ []) = ground arith
equal_entries (c ∷ d ∷ rest) = ground arith

pub scan_equal-longest :
    (lx : Lexer) (m : Mark) → scan_equal lx m ≡ chosen lx m (longest operators (b'=' ∷ lx.current))
unfolding scan_equal
scan_equal-longest lx m = rw (equal_entries lx.current) (ground (arith, match-eq lx b'='))

bang_entries :
    (rest : Bytes)
    → longest operators (b'!' ∷ rest) ≡ (
        if deref rest == b'='
        then some ("!=", TokenType.tok_bang_equal)
        else some ("!", TokenType.tok_bang))
unfolding longest
bang_entries [] = refl
bang_entries (c ∷ []) = ground arith
bang_entries (c ∷ d ∷ rest) = ground arith

pub scan_bang-longest :
    (lx : Lexer) (m : Mark) → scan_bang lx m ≡ chosen lx m (longest operators (b'!' ∷ lx.current))
unfolding scan_bang
scan_bang-longest lx m = rw (bang_entries lx.current) (ground (arith, match-eq lx b'='))

less_entries :
    (rest : Bytes)
    → longest operators (b'<' ∷ rest) ≡ (
        if deref rest == b'<'
        then (if deref (tail rest) == b'='
            then some ("<<=", TokenType.tok_shift_left_equal)
            else some ("<<", TokenType.tok_shift_left))
        else if deref rest == b'='
        then some ("<=", TokenType.tok_less_equal)
        else some ("<", TokenType.tok_less))
unfolding longest
less_entries [] = refl
less_entries (c ∷ []) = ground arith
less_entries (c ∷ d ∷ rest) = ground arith

pub scan_less-longest :
    (lx : Lexer) (m : Mark) → scan_less lx m ≡ chosen lx m (longest operators (b'<' ∷ lx.current))
unfolding scan_less
scan_less-longest lx m = rw (less_entries lx.current) (
    ground
      (arith, match-eq lx b'<', match-eq lx b'=', match-eq (advance lx) b'=', current-advance lx))

greater_entries :
    (rest : Bytes)
    → longest operators (b'>' ∷ rest) ≡ (
        if deref rest == b'>'
        then (if deref (tail rest) == b'='
            then some (">>=", TokenType.tok_shift_right_equal)
            else some (">>", TokenType.tok_shift_right))
        else if deref rest == b'='
        then some (">=", TokenType.tok_greater_equal)
        else some (">", TokenType.tok_greater))
unfolding longest
greater_entries [] = refl
greater_entries (c ∷ []) = ground arith
greater_entries (c ∷ d ∷ rest) = ground arith

pub scan_greater-longest :
    (lx : Lexer) (m : Mark)
    → scan_greater lx m ≡ chosen lx m (longest operators (b'>' ∷ lx.current))
unfolding scan_greater
scan_greater-longest lx m = rw (greater_entries lx.current) (
    ground
      (arith, match-eq lx b'>', match-eq lx b'=', match-eq (advance lx) b'=', current-advance lx))

ampersand_entries :
    (rest : Bytes)
    → longest operators (b'&' ∷ rest) ≡ (
        if deref rest == b'&'
        then some ("&&", TokenType.tok_and_and)
        else if deref rest == b'='
        then some ("&=", TokenType.tok_and_equal)
        else some ("&", TokenType.tok_and))
unfolding longest
ampersand_entries [] = refl
ampersand_entries (c ∷ []) = ground arith
ampersand_entries (c ∷ d ∷ rest) = ground arith

pub scan_ampersand-longest :
    (lx : Lexer) (m : Mark)
    → scan_ampersand lx m ≡ chosen lx m (longest operators (b'&' ∷ lx.current))
unfolding scan_ampersand
scan_ampersand-longest lx m =
    rw (ampersand_entries lx.current) (ground (arith, match-eq lx b'&', match-eq lx b'='))

bar_entries :
    (rest : Bytes)
    → longest operators (b'|' ∷ rest) ≡ (
        if deref rest == b'|'
        then some ("||", TokenType.tok_or_or)
        else if deref rest == b'='
        then some ("|=", TokenType.tok_or_equal)
        else some ("|", TokenType.tok_or))
unfolding longest
bar_entries [] = refl
bar_entries (c ∷ []) = ground arith
bar_entries (c ∷ d ∷ rest) = ground arith

pub scan_bar-longest :
    (lx : Lexer) (m : Mark) → scan_bar lx m ≡ chosen lx m (longest operators (b'|' ∷ lx.current))
unfolding scan_bar
scan_bar-longest lx m =
    rw (bar_entries lx.current) (ground (arith, match-eq lx b'|', match-eq lx b'='))

caret_entries :
    (rest : Bytes)
    → longest operators (b'^' ∷ rest) ≡ (
        if deref rest == b'='
        then some ("^=", TokenType.tok_xor_equal)
        else some ("^", TokenType.tok_xor))
unfolding longest
caret_entries [] = refl
caret_entries (c ∷ []) = ground arith
caret_entries (c ∷ d ∷ rest) = ground arith

pub scan_caret-longest :
    (lx : Lexer) (m : Mark) → scan_caret lx m ≡ chosen lx m (longest operators (b'^' ∷ lx.current))
unfolding scan_caret
scan_caret-longest lx m = rw (caret_entries lx.current) (ground (arith, match-eq lx b'='))

dot_entries :
    (rest : Bytes)
    → longest operators (b'.' ∷ rest) ≡ (
        if deref rest == b'.' && deref (tail rest) == b'.'
        then some ("...", TokenType.tok_ellipsis)
        else some (".", TokenType.tok_dot))
unfolding longest
dot_entries [] = refl
dot_entries (c ∷ []) = ground arith
dot_entries (c ∷ d ∷ rest) = ground arith

pub scan_dot-longest :
    (lx : Lexer) (m : Mark) → scan_dot lx m ≡ chosen lx m (longest operators (b'.' ∷ lx.current))
unfolding scan_dot peek peek_next is_at_end
scan_dot-longest lx m = rw (dot_entries lx.current) (ground arith)
