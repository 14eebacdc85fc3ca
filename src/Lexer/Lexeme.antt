-- ===== src/Lexer/Lexeme.antt =====
-- The lexical grammar, described apart from the scanners: which texts are tokens of which type, and
-- what may not follow them.
use Prim.Native.String.{String}
use coglet.Prelude.{
  ℕ, ◌+◌, ◌≤◌, ◌<◌, ◌≢◌, Bytes, All, Listed, length, Bool, true, false, ◌&&◌, ◌||◌, List, [], ◌∷◌,
  ◌++◌, ◌≡◌, ◌⊎◌, ◌==◌,
}
use coglet.Lexer.Token.{TokenType}
use coglet.Lexer.Keyword.{codes, identifier_type}
use coglet.Lexer.Bytes.{is_digit, is_alpha, is_word, is_integer_digit_for_radix}
use coglet.Lexer.Cursor.{deref, tail}

-- Digits of a radix, at least one.
pub record IsDigits (test : ℕ → Bool) (text : Bytes) : Type 0 where
  pub digits : All (λ c. test c ≡ true) text
  pub some_digit : text ≢ []

-- The letters behind a leading zero, and their radix.
pub data RadixPrefix : ℕ → ℕ → Type 0 where
  hexadecimal : (c : ℕ) → (c ≡ b'x') ⊎ (c ≡ b'X') → RadixPrefix c 16
  binary : (c : ℕ) → (c ≡ b'b') ⊎ (c ≡ b'B') → RadixPrefix c 2
  octal : (c : ℕ) → (c ≡ b'o') ⊎ (c ≡ b'O') → RadixPrefix c 8

abbrev pub is_digit_of : ℕ → ℕ → Bool
is_digit_of radix c = is_integer_digit_for_radix c radix

-- At one of the letters of a decimal exponent.
abbrev pub at_exponent : Bytes → Bool
at_exponent s = deref s == b'e' || deref s == b'E'

-- At a point with a digit behind it.
abbrev pub at_fraction : Bytes → Bool
at_fraction s = deref s == b'.' && is_digit (deref (tail s))

-- At a zero with one of the letters of a radix behind it.
abbrev pub at_prefix : Bytes → Bool
at_prefix s =
    let c = deref (tail s) in
    deref s == b'0'
    && (c == b'x' || c == b'X' || (c == b'b' || c == b'B' || (c == b'o' || c == b'O')))

-- No digit, fraction or exponent behind a decimal integer, and no letter of a radix behind its zero;
-- nothing of a word behind the digits of a radix, nor a point behind hexadecimal ones.
pub data IsInteger (text rest : Bytes) : Type 0 where
  decimal :
      IsDigits is_digit text
      → is_digit (deref rest) ≡ false
      → at_fraction rest ≡ false
      → at_exponent rest ≡ false
      → at_prefix (text ++ rest) ≡ false
      → IsInteger text rest
  prefixed :
      (letter radix : ℕ) (digits : Bytes)
      → RadixPrefix letter radix
      → text ≡ b'0' ∷ letter ∷ digits
      → IsDigits (is_digit_of radix) digits
      → is_word (deref rest) ≡ false
      → (radix ≡ 16 → deref rest ≢ b'.')
      → IsInteger text rest

-- A sign, or none.
pub data IsSign : Bytes → Type 0 where
  unsigned : IsSign []
  plus : IsSign (b'+' ∷ [])
  minus : IsSign (b'-' ∷ [])

-- An exponent with the letter `lower` or `upper`.
pub record IsExponent (lower upper : ℕ) (text : Bytes) : Type 0 where
  pub letter : ℕ
  pub sign : Bytes
  pub digits : Bytes
  pub splits : text ≡ letter ∷ (sign ++ digits)
  pub letter_is : (letter ≡ lower) ⊎ (letter ≡ upper)
  pub sign_is : IsSign sign
  pub digits_are : IsDigits is_digit digits

pub record IsFraction (text : Bytes) : Type 0 where
  pub digits : Bytes
  pub splits : text ≡ b'.' ∷ digits
  pub digits_are : IsDigits is_digit digits

-- Hexadecimal digits with at most one point, at least one digit in all.
pub record IsHexSignificand (text : Bytes) : Type 0 where
  pub whole : Bytes
  pub point : Bytes
  pub part : Bytes
  pub splits : text ≡ whole ++ (point ++ part)
  pub point_is : (point ≡ b'.' ∷ []) ⊎ ((point ≡ []) × (part ≡ []))
  pub whole_are : All (λ c. is_digit_of 16 c ≡ true) whole
  pub part_are : All (λ c. is_digit_of 16 c ≡ true) part
  pub some_digit : 0 < length whole + length part

abbrev pub Optional : (Bytes → Type 0) → Bytes → Type 0
Optional P text = (text ≡ []) ⊎ P text

pub data IsFloat (text rest : Bytes) : Type 0 where
  decimal_float :
      (whole fraction exponent : Bytes)
      → IsDigits is_digit whole
      → Optional IsFraction fraction
      → Optional (IsExponent b'e' b'E') exponent
      → (fraction ≢ []) ⊎ (exponent ≢ [])
      → text ≡ whole ++ (fraction ++ exponent)
      → is_digit (deref rest) ≡ false
      → (exponent ≢ []) ⊎ (at_exponent rest ≡ false)
      → IsFloat text rest
  hexadecimal_float :
      (letter : ℕ) (significand exponent : Bytes)
      → RadixPrefix letter 16
      → IsHexSignificand significand
      → IsExponent b'p' b'P' exponent
      → text ≡ b'0' ∷ letter ∷ (significand ++ exponent)
      → is_word (deref rest) ≡ false
      → IsFloat text rest

-- What stands between the quotes of a string: a backslash takes the byte behind it along.
pub data IsStringBody : Bytes → Type 0 where
  done : IsStringBody []
  plain :
      {c : ℕ} {cs : Bytes} → c ≢ b'"' → c ≢ b'\\' → c ≢ 0 → IsStringBody cs → IsStringBody (c ∷ cs)
  escape : {q c : ℕ} {cs : Bytes} → q ≡ b'\\' → c ≢ 0 → IsStringBody cs → IsStringBody (q ∷ c ∷ cs)

pub data IsCharBody : Bytes → Type 0 where
  one : {c : ℕ} → c ≢ b'\\' → c ≢ 0 → IsCharBody (c ∷ [])
  escaped : {q c : ℕ} → q ≡ b'\\' → c ≢ 0 → IsCharBody (q ∷ c ∷ [])

-- A letter or `_`, then letters, digits and `_`, up to the first byte that is none of these.
pub record IsName (text rest : Bytes) : Type 0 where
  pub first : is_alpha (deref text) ≡ true
  pub word : All (λ c. is_word c ≡ true) text
  pub ended : is_word (deref rest) ≡ false

abbrev pub Operator : Type 0
Operator = String × TokenType

-- The spelling of every operator and punctuation mark.
abbrev pub operators : List Operator
operators =
    ("(", TokenType.tok_lparen)
    ∷ (")", TokenType.tok_rparen)
    ∷ ("{", TokenType.tok_lbrace)
    ∷ ("}", TokenType.tok_rbrace)
    ∷ ("[", TokenType.tok_lbracket)
    ∷ ("]", TokenType.tok_rbracket)
    ∷ ("#", TokenType.tok_hash)
    ∷ (";", TokenType.tok_semicolon)
    ∷ (",", TokenType.tok_comma)
    ∷ (".", TokenType.tok_dot)
    ∷ ("...", TokenType.tok_ellipsis)
    ∷ ("+", TokenType.tok_plus)
    ∷ ("++", TokenType.tok_plus_plus)
    ∷ ("+=", TokenType.tok_plus_equal)
    ∷ ("-", TokenType.tok_minus)
    ∷ ("--", TokenType.tok_minus_minus)
    ∷ ("-=", TokenType.tok_minus_equal)
    ∷ ("->", TokenType.tok_arrow)
    ∷ ("*", TokenType.tok_star)
    ∷ ("*=", TokenType.tok_star_equal)
    ∷ ("/", TokenType.tok_slash)
    ∷ ("/=", TokenType.tok_slash_equal)
    ∷ ("%", TokenType.tok_percent)
    ∷ ("%=", TokenType.tok_percent_equal)
    ∷ (":", TokenType.tok_colon)
    ∷ ("::", TokenType.tok_colon_colon)
    ∷ (":=", TokenType.tok_colon_equal)
    ∷ ("=", TokenType.tok_equal)
    ∷ ("==", TokenType.tok_equal_equal)
    ∷ ("!", TokenType.tok_bang)
    ∷ ("!=", TokenType.tok_bang_equal)
    ∷ ("<", TokenType.tok_less)
    ∷ ("<<", TokenType.tok_shift_left)
    ∷ ("<<=", TokenType.tok_shift_left_equal)
    ∷ ("<=", TokenType.tok_less_equal)
    ∷ (">", TokenType.tok_greater)
    ∷ (">>", TokenType.tok_shift_right)
    ∷ (">>=", TokenType.tok_shift_right_equal)
    ∷ (">=", TokenType.tok_greater_equal)
    ∷ ("&", TokenType.tok_and)
    ∷ ("&&", TokenType.tok_and_and)
    ∷ ("&=", TokenType.tok_and_equal)
    ∷ ("|", TokenType.tok_or)
    ∷ ("||", TokenType.tok_or_or)
    ∷ ("|=", TokenType.tok_or_equal)
    ∷ ("^", TokenType.tok_xor)
    ∷ ("^=", TokenType.tok_xor_equal)
    ∷ ("~", TokenType.tok_tilde)
    ∷ []

abbrev pub is_prefix : Bytes → Bytes → Bool
is_prefix [] t = true
is_prefix (x ∷ xs) [] = false
is_prefix (x ∷ xs) (y ∷ ys) = x == y && is_prefix xs ys

-- `text` spells an operator of type `type`, and no longer spelling fits what follows.
pub record IsOperator (type : TokenType) (text rest : Bytes) : Type 0 where
  pub entry : Operator
  pub listed : Listed entry operators
  pub spelled : text ≡ codes entry.0
  pub type_is : type ≡ entry.1
  pub longest :
      All
        (λ (o : Operator).
          (is_prefix (codes o.0) (text ++ rest) ≡ false) ⊎ (length (codes o.0) ≤ length text))
        operators

-- The token `text` of type `type`, with `rest` behind it.
pub data Lexeme (type : TokenType) (text rest : Bytes) : Type 0 where
  eof : type ≡ TokenType.tok_eof → text ≡ [] → deref rest ≡ 0 → Lexeme type text rest
  integer : type ≡ TokenType.tok_number_int → IsInteger text rest → Lexeme type text rest
  float : type ≡ TokenType.tok_number_float → IsFloat text rest → Lexeme type text rest
  string :
      (body : Bytes)
      → type ≡ TokenType.tok_string
      → text ≡ b'"' ∷ (body ++ (b'"' ∷ []))
      → IsStringBody body
      → Lexeme type text rest
  char :
      (body : Bytes)
      → type ≡ TokenType.tok_char
      → text ≡ b'\'' ∷ (body ++ (b'\'' ∷ []))
      → IsCharBody body
      → Lexeme type text rest
  name : type ≡ identifier_type text (length text) → IsName text rest → Lexeme type text rest
  operator : IsOperator type text rest → Lexeme type text rest
