-- ===== src/Lexer/Keyword.antt =====
-- The keyword table and `identifier_type` of src/lexer.c.
pub mod Table
use Prim.Native.Char.{code}
use Prim.Native.String.{String}
use coglet.Prelude.{
  ℕ, Bytes, Bool, true, false, ◌&&◌, List, [], ◌∷◌, ◌==◌, if◌then◌else◌, length, take,
}
use coglet.Lexer.Token.{TokenType}

-- The bytes of a C string literal, whose characters are all ASCII here.
abbrev pub codes : String → Bytes
codes String.[] = []
codes (String.◌∷◌ c s) = code c ∷ codes s

abbrev pub Keyword : Type 0
Keyword = String × TokenType

abbrev pub keywords : List Keyword
keywords =
    ("if", TokenType.tok_if)
    ∷ ("else", TokenType.tok_else)
    ∷ ("while", TokenType.tok_while)
    ∷ ("for", TokenType.tok_for)
    ∷ ("in", TokenType.tok_in)
    ∷ ("return", TokenType.tok_return)
    ∷ ("defer", TokenType.tok_defer)
    ∷ ("discard", TokenType.tok_discard)
    ∷ ("static_assert", TokenType.tok_static_assert)
    ∷ ("struct", TokenType.tok_struct)
    ∷ ("resource", TokenType.tok_resource)
    ∷ ("union", TokenType.tok_union)
    ∷ ("break", TokenType.tok_break)
    ∷ ("continue", TokenType.tok_continue)
    ∷ ("enum", TokenType.tok_enum)
    ∷ ("switch", TokenType.tok_switch)
    ∷ ("case", TokenType.tok_case)
    ∷ ("default", TokenType.tok_default)
    ∷ ("void", TokenType.tok_void)
    ∷ ("true", TokenType.tok_true)
    ∷ ("false", TokenType.tok_false)
    ∷ ("cast", TokenType.tok_cast)
    ∷ ("truncate", TokenType.tok_truncate)
    ∷ ("reinterpret", TokenType.tok_reinterpret)
    ∷ ("move", TokenType.tok_move)
    ∷ ("readonly", TokenType.tok_readonly)
    ∷ ("volatile", TokenType.tok_volatile)
    ∷ ("opaque", TokenType.tok_opaque)
    ∷ ("cfn", TokenType.tok_cfn)
    ∷ ("null", TokenType.tok_null)
    ∷ ("size_of", TokenType.tok_size_of)
    ∷ ("align_of", TokenType.tok_align_of)
    ∷ ("asm", TokenType.tok_asm)
    ∷ ("s8", TokenType.tok_s8)
    ∷ ("s16", TokenType.tok_s16)
    ∷ ("s32", TokenType.tok_s32)
    ∷ ("s64", TokenType.tok_s64)
    ∷ ("u8", TokenType.tok_u8)
    ∷ ("u16", TokenType.tok_u16)
    ∷ ("u32", TokenType.tok_u32)
    ∷ ("u64", TokenType.tok_u64)
    ∷ ("isize", TokenType.tok_isize)
    ∷ ("usize", TokenType.tok_usize)
    ∷ ("f32", TokenType.tok_f32)
    ∷ ("f64", TokenType.tok_f64)
    ∷ ("bool", TokenType.tok_bool)
    ∷ ("int", TokenType.tok_int_kw)
    ∷ ("uint", TokenType.tok_uint_kw)
    ∷ []

-- `(int)kw_len == length && memcmp(start, word, length) == 0`
abbrev pub bytes_eq : Bytes → Bytes → Bool
bytes_eq [] [] = true
bytes_eq (x ∷ xs) (y ∷ ys) = x == y && bytes_eq xs ys
bytes_eq _ _ = false

unfoldable pub keyword_matches : Bytes → ℕ → String → Bool
keyword_matches start n word =
    length (codes word) == n && bytes_eq (take n start) (take n (codes word))

unfoldable pub find_keyword : List Keyword → Bytes → ℕ → TokenType
unfolding keyword_matches
find_keyword [] start n = TokenType.tok_ident
find_keyword ((word, type) ∷ rest) start n =
    if keyword_matches start n word then type else find_keyword rest start n

unfoldable pub identifier_type : Bytes → ℕ → TokenType
unfolding find_keyword
identifier_type start n = find_keyword keywords start n
