-- ===== src/Lexer/Token/Names.antt =====
-- The names that `token_type_name` prints tell the token types apart.
use Prim.Native.String.{String}
use text.Mathlib.Text.{◌==◌ as str_eq}
use coglet.Prelude.{List, [], ◌∷◌, Option, none, some, ◌≡◌, refl, sym, ap, ◌∙◌, if◌then◌else◌}
use coglet.Lexer.Token.{TokenType, token_type_name}

-- The names in the order of the `switch`.
abbrev names : List (String × TokenType)
names =
    ("EOF", TokenType.tok_eof)
    ∷ ("ERROR", TokenType.tok_error)
    ∷ ("NUMBER_INT", TokenType.tok_number_int)
    ∷ ("NUMBER_FLOAT", TokenType.tok_number_float)
    ∷ ("STRING", TokenType.tok_string)
    ∷ ("CHAR", TokenType.tok_char)
    ∷ ("IDENT", TokenType.tok_ident)
    ∷ ("TRUE", TokenType.tok_true)
    ∷ ("FALSE", TokenType.tok_false)
    ∷ ("NULL", TokenType.tok_null)
    ∷ ("IF", TokenType.tok_if)
    ∷ ("ELSE", TokenType.tok_else)
    ∷ ("WHILE", TokenType.tok_while)
    ∷ ("FOR", TokenType.tok_for)
    ∷ ("IN", TokenType.tok_in)
    ∷ ("RETURN", TokenType.tok_return)
    ∷ ("DEFER", TokenType.tok_defer)
    ∷ ("DISCARD", TokenType.tok_discard)
    ∷ ("STATIC_ASSERT", TokenType.tok_static_assert)
    ∷ ("VOID", TokenType.tok_void)
    ∷ ("STRUCT", TokenType.tok_struct)
    ∷ ("RESOURCE", TokenType.tok_resource)
    ∷ ("UNION", TokenType.tok_union)
    ∷ ("BREAK", TokenType.tok_break)
    ∷ ("CONTINUE", TokenType.tok_continue)
    ∷ ("ENUM", TokenType.tok_enum)
    ∷ ("SWITCH", TokenType.tok_switch)
    ∷ ("CASE", TokenType.tok_case)
    ∷ ("DEFAULT", TokenType.tok_default)
    ∷ ("CAST", TokenType.tok_cast)
    ∷ ("TRUNCATE", TokenType.tok_truncate)
    ∷ ("REINTERPRET", TokenType.tok_reinterpret)
    ∷ ("MOVE", TokenType.tok_move)
    ∷ ("READONLY", TokenType.tok_readonly)
    ∷ ("VOLATILE", TokenType.tok_volatile)
    ∷ ("OPAQUE", TokenType.tok_opaque)
    ∷ ("CFN", TokenType.tok_cfn)
    ∷ ("SIZE_OF", TokenType.tok_size_of)
    ∷ ("ALIGN_OF", TokenType.tok_align_of)
    ∷ ("ASM", TokenType.tok_asm)
    ∷ ("S8", TokenType.tok_s8)
    ∷ ("S16", TokenType.tok_s16)
    ∷ ("S32", TokenType.tok_s32)
    ∷ ("S64", TokenType.tok_s64)
    ∷ ("U8", TokenType.tok_u8)
    ∷ ("U16", TokenType.tok_u16)
    ∷ ("U32", TokenType.tok_u32)
    ∷ ("U64", TokenType.tok_u64)
    ∷ ("ISIZE", TokenType.tok_isize)
    ∷ ("USIZE", TokenType.tok_usize)
    ∷ ("F32", TokenType.tok_f32)
    ∷ ("F64", TokenType.tok_f64)
    ∷ ("BOOL", TokenType.tok_bool)
    ∷ ("INT_KW", TokenType.tok_int_kw)
    ∷ ("UINT_KW", TokenType.tok_uint_kw)
    ∷ ("PLUS", TokenType.tok_plus)
    ∷ ("MINUS", TokenType.tok_minus)
    ∷ ("STAR", TokenType.tok_star)
    ∷ ("SLASH", TokenType.tok_slash)
    ∷ ("PERCENT", TokenType.tok_percent)
    ∷ ("PLUS_PLUS", TokenType.tok_plus_plus)
    ∷ ("MINUS_MINUS", TokenType.tok_minus_minus)
    ∷ ("PLUS_EQUAL", TokenType.tok_plus_equal)
    ∷ ("MINUS_EQUAL", TokenType.tok_minus_equal)
    ∷ ("STAR_EQUAL", TokenType.tok_star_equal)
    ∷ ("SLASH_EQUAL", TokenType.tok_slash_equal)
    ∷ ("PERCENT_EQUAL", TokenType.tok_percent_equal)
    ∷ ("EQUAL", TokenType.tok_equal)
    ∷ ("EQUAL_EQUAL", TokenType.tok_equal_equal)
    ∷ ("BANG", TokenType.tok_bang)
    ∷ ("BANG_EQUAL", TokenType.tok_bang_equal)
    ∷ ("LESS", TokenType.tok_less)
    ∷ ("LESS_EQUAL", TokenType.tok_less_equal)
    ∷ ("GREATER", TokenType.tok_greater)
    ∷ ("GREATER_EQUAL", TokenType.tok_greater_equal)
    ∷ ("SHIFT_LEFT", TokenType.tok_shift_left)
    ∷ ("SHIFT_RIGHT", TokenType.tok_shift_right)
    ∷ ("SHIFT_LEFT_EQUAL", TokenType.tok_shift_left_equal)
    ∷ ("SHIFT_RIGHT_EQUAL", TokenType.tok_shift_right_equal)
    ∷ ("AND_AND", TokenType.tok_and_and)
    ∷ ("OR_OR", TokenType.tok_or_or)
    ∷ ("AND", TokenType.tok_and)
    ∷ ("OR", TokenType.tok_or)
    ∷ ("XOR", TokenType.tok_xor)
    ∷ ("TILDE", TokenType.tok_tilde)
    ∷ ("AND_EQUAL", TokenType.tok_and_equal)
    ∷ ("OR_EQUAL", TokenType.tok_or_equal)
    ∷ ("XOR_EQUAL", TokenType.tok_xor_equal)
    ∷ ("LPAREN", TokenType.tok_lparen)
    ∷ ("RPAREN", TokenType.tok_rparen)
    ∷ ("LBRACE", TokenType.tok_lbrace)
    ∷ ("RBRACE", TokenType.tok_rbrace)
    ∷ ("LBRACKET", TokenType.tok_lbracket)
    ∷ ("RBRACKET", TokenType.tok_rbracket)
    ∷ ("SEMICOLON", TokenType.tok_semicolon)
    ∷ ("COMMA", TokenType.tok_comma)
    ∷ ("DOT", TokenType.tok_dot)
    ∷ ("ELLIPSIS", TokenType.tok_ellipsis)
    ∷ ("ARROW", TokenType.tok_arrow)
    ∷ ("COLON", TokenType.tok_colon)
    ∷ ("COLON_COLON", TokenType.tok_colon_colon)
    ∷ ("COLON_EQUAL", TokenType.tok_colon_equal)
    ∷ ("HASH", TokenType.tok_hash)
    ∷ []

type_of_name : List (String × TokenType) → String → Option TokenType
type_of_name [] s = none
type_of_name ((name, type) ∷ table) s = if str_eq name s then some type else type_of_name table s

type_of_name-token_type_name : (t : TokenType) → type_of_name names (token_type_name t) ≡ some t
unfolding type_of_name token_type_name
type_of_name-token_type_name TokenType.tok_eof = refl
type_of_name-token_type_name _ = refl

some_injective : {a b : TokenType} → some a ≡ some b → a ≡ b
some_injective h = cc

-- Two token types with one name are the same type.
pub token_type_name-injective : (t u : TokenType) → token_type_name t ≡ token_type_name u → t ≡ u
token_type_name-injective t u h = some_injective (
    sym (type_of_name-token_type_name t)
    ∙ ap (type_of_name names) h
    ∙ type_of_name-token_type_name u)
