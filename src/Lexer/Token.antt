-- ===== src/Lexer/Token.antt =====
-- TokenType and Token of src/include/lexer.h, and `token_type_name` of src/lexer.c.
pub mod Names
use Prim.Native.String.{String}
use coglet.Prelude.{ℕ, Bytes, Bool, true, false}
use coglet.Source.Span.{SourceSpan}

pub data TokenType : Type 0 where
  tok_eof tok_error tok_number_int tok_number_float tok_string tok_char tok_ident tok_true :
      TokenType
  tok_false tok_null tok_if tok_else tok_while tok_for tok_return tok_defer tok_discard : TokenType
  tok_static_assert tok_void tok_struct tok_resource tok_union tok_break tok_continue : TokenType
  tok_enum tok_switch tok_case tok_default tok_cast tok_truncate tok_in tok_reinterpret : TokenType
  tok_move tok_readonly tok_volatile tok_opaque tok_cfn tok_size_of tok_align_of tok_asm : TokenType
  tok_s8 tok_s16 tok_s32 tok_s64 tok_u8 tok_u16 tok_u32 tok_u64 tok_isize tok_usize tok_f32 :
      TokenType
  tok_f64 tok_bool tok_int_kw tok_uint_kw tok_plus tok_minus tok_star tok_slash tok_percent :
      TokenType
  tok_plus_plus tok_minus_minus tok_plus_equal tok_minus_equal tok_star_equal : TokenType
  tok_slash_equal tok_percent_equal tok_equal tok_equal_equal tok_bang tok_bang_equal : TokenType
  tok_less tok_less_equal tok_greater tok_greater_equal tok_shift_left tok_shift_right : TokenType
  tok_shift_left_equal tok_shift_right_equal tok_and_and tok_or_or tok_and tok_or tok_xor :
      TokenType
  tok_tilde tok_and_equal tok_or_equal tok_xor_equal tok_lparen tok_rparen tok_lbrace : TokenType
  tok_rbrace tok_lbracket tok_rbracket tok_semicolon tok_comma tok_dot tok_ellipsis : TokenType
  tok_arrow tok_colon tok_colon_colon tok_colon_equal tok_hash : TokenType

-- `start` points into the source text: it is the text from the token's first byte on.
pub record Token : Type 0 where
  pub type : TokenType
  pub start : Bytes
  pub length : ℕ
  pub line : ℕ
  pub column : ℕ
  pub span : SourceSpan

unfoldable pub token_type_name : TokenType → String
token_type_name tok_eof = "EOF"
token_type_name tok_error = "ERROR"
token_type_name tok_number_int = "NUMBER_INT"
token_type_name tok_number_float = "NUMBER_FLOAT"
token_type_name tok_string = "STRING"
token_type_name tok_char = "CHAR"
token_type_name tok_ident = "IDENT"
token_type_name tok_true = "TRUE"
token_type_name tok_false = "FALSE"
token_type_name tok_null = "NULL"
token_type_name tok_if = "IF"
token_type_name tok_else = "ELSE"
token_type_name tok_while = "WHILE"
token_type_name tok_for = "FOR"
token_type_name tok_in = "IN"
token_type_name tok_return = "RETURN"
token_type_name tok_defer = "DEFER"
token_type_name tok_discard = "DISCARD"
token_type_name tok_static_assert = "STATIC_ASSERT"
token_type_name tok_void = "VOID"
token_type_name tok_struct = "STRUCT"
token_type_name tok_resource = "RESOURCE"
token_type_name tok_union = "UNION"
token_type_name tok_break = "BREAK"
token_type_name tok_continue = "CONTINUE"
token_type_name tok_enum = "ENUM"
token_type_name tok_switch = "SWITCH"
token_type_name tok_case = "CASE"
token_type_name tok_default = "DEFAULT"
token_type_name tok_cast = "CAST"
token_type_name tok_truncate = "TRUNCATE"
token_type_name tok_reinterpret = "REINTERPRET"
token_type_name tok_move = "MOVE"
token_type_name tok_readonly = "READONLY"
token_type_name tok_volatile = "VOLATILE"
token_type_name tok_opaque = "OPAQUE"
token_type_name tok_cfn = "CFN"
token_type_name tok_size_of = "SIZE_OF"
token_type_name tok_align_of = "ALIGN_OF"
token_type_name tok_asm = "ASM"
token_type_name tok_s8 = "S8"
token_type_name tok_s16 = "S16"
token_type_name tok_s32 = "S32"
token_type_name tok_s64 = "S64"
token_type_name tok_u8 = "U8"
token_type_name tok_u16 = "U16"
token_type_name tok_u32 = "U32"
token_type_name tok_u64 = "U64"
token_type_name tok_isize = "ISIZE"
token_type_name tok_usize = "USIZE"
token_type_name tok_f32 = "F32"
token_type_name tok_f64 = "F64"
token_type_name tok_bool = "BOOL"
token_type_name tok_int_kw = "INT_KW"
token_type_name tok_uint_kw = "UINT_KW"
token_type_name tok_plus = "PLUS"
token_type_name tok_minus = "MINUS"
token_type_name tok_star = "STAR"
token_type_name tok_slash = "SLASH"
token_type_name tok_percent = "PERCENT"
token_type_name tok_plus_plus = "PLUS_PLUS"
token_type_name tok_minus_minus = "MINUS_MINUS"
token_type_name tok_plus_equal = "PLUS_EQUAL"
token_type_name tok_minus_equal = "MINUS_EQUAL"
token_type_name tok_star_equal = "STAR_EQUAL"
token_type_name tok_slash_equal = "SLASH_EQUAL"
token_type_name tok_percent_equal = "PERCENT_EQUAL"
token_type_name tok_equal = "EQUAL"
token_type_name tok_equal_equal = "EQUAL_EQUAL"
token_type_name tok_bang = "BANG"
token_type_name tok_bang_equal = "BANG_EQUAL"
token_type_name tok_less = "LESS"
token_type_name tok_less_equal = "LESS_EQUAL"
token_type_name tok_greater = "GREATER"
token_type_name tok_greater_equal = "GREATER_EQUAL"
token_type_name tok_shift_left = "SHIFT_LEFT"
token_type_name tok_shift_right = "SHIFT_RIGHT"
token_type_name tok_shift_left_equal = "SHIFT_LEFT_EQUAL"
token_type_name tok_shift_right_equal = "SHIFT_RIGHT_EQUAL"
token_type_name tok_and_and = "AND_AND"
token_type_name tok_or_or = "OR_OR"
token_type_name tok_and = "AND"
token_type_name tok_or = "OR"
token_type_name tok_xor = "XOR"
token_type_name tok_tilde = "TILDE"
token_type_name tok_and_equal = "AND_EQUAL"
token_type_name tok_or_equal = "OR_EQUAL"
token_type_name tok_xor_equal = "XOR_EQUAL"
token_type_name tok_lparen = "LPAREN"
token_type_name tok_rparen = "RPAREN"
token_type_name tok_lbrace = "LBRACE"
token_type_name tok_rbrace = "RBRACE"
token_type_name tok_lbracket = "LBRACKET"
token_type_name tok_rbracket = "RBRACKET"
token_type_name tok_semicolon = "SEMICOLON"
token_type_name tok_comma = "COMMA"
token_type_name tok_dot = "DOT"
token_type_name tok_ellipsis = "ELLIPSIS"
token_type_name tok_arrow = "ARROW"
token_type_name tok_colon = "COLON"
token_type_name tok_colon_colon = "COLON_COLON"
token_type_name tok_colon_equal = "COLON_EQUAL"
token_type_name tok_hash = "HASH"

-- `type == TOK_EOF` and `type == TOK_ERROR`.
unfoldable pub is_eof : TokenType → Bool
is_eof tok_eof = true
is_eof _ = false

unfoldable pub is_error : TokenType → Bool
is_error tok_error = true
is_error _ = false
