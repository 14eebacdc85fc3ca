-- ===== src/Lexer/Bytes.antt =====
-- The character classes of src/lexer.c. A `char` outside ASCII is in none of them.
use coglet.Prelude.{
  ℕ, ◌+◌, ◌-◌, Bool, ◌&&◌, ◌||◌, Option, none, some, ltb, leb, ◌==◌, if◌then◌else◌,
}

unfoldable pub is_digit : ℕ → Bool
is_digit c = leb b'0' c && leb c b'9'

-- `none` is the result -1.
unfoldable pub integer_digit_value : ℕ → Option ℕ
integer_digit_value c =
    if leb b'0' c && leb c b'9'
    then some (c - b'0')
    else if leb b'a' c && leb c b'f'
    then some (10 + c - b'a')
    else if leb b'A' c && leb c b'F'
    then some (10 + c - b'A')
    else none

unfoldable pub is_integer_digit_for_radix : ℕ → ℕ → Bool
unfolding integer_digit_value
is_integer_digit_for_radix c radix = elim (integer_digit_value c) [
  | none ↦ Bool.false
  | some value ↦ ltb value radix
]

unfoldable pub is_alpha : ℕ → Bool
is_alpha c = leb b'a' c && leb c b'z' || (leb b'A' c && leb c b'Z' || c == b'_')

-- The test of the loops over names and over the tails of malformed numbers.
unfoldable pub is_word : ℕ → Bool
unfolding is_alpha is_digit
is_word c = is_alpha c || is_digit c
