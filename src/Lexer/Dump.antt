-- ===== src/Lexer/Dump.antt =====
-- The loop of `main` in tools/dump_tokens.c over `lexer_next`: the lines it prints, the message for
-- stderr and the exit code. Reading the file and the arguments is not modelled.
pub mod Total
use Prim.Native.String.{String}
use coglet.Prelude.{
  ℕ, zero, suc, Bytes, take, Bool, true, false, List, [], ◌∷◌, Option, none, some, if◌then◌else◌,
}
use coglet.Lexer.Token.{TokenType, Token, token_type_name, is_eof, is_error}
use coglet.Lexer.Cursor.{Lexer, lexer_init}
use coglet.Lexer.Next.{lexer_next}

-- `printf("%d %s %.*s\n", …)`; the line for TOK_EOF has no text.
pub record Line : Type 0 where
  pub line : ℕ
  pub name : String
  pub text : Option Bytes

-- `fprintf(stderr, "%d:%d: error: %s\n", …)`
pub record Message : Type 0 where
  pub line : ℕ
  pub column : ℕ
  pub message : String

pub record Dump : Type 0 where
  pub lines : List Line
  pub message : Option Message
  pub exit_code : ℕ

abbrev pub token_line : Token → Line
token_line t = record {
  line = t.line;
  name = token_type_name t.type;
  text = some (take t.length t.start);
}

abbrev pub error_message : Lexer → Token → Message
error_message lx t = record {
  line = t.line;
  column = t.column;
  message = elim (lx.error_msg) [ none ↦ "invalid token" | some m ↦ m ];
}

abbrev pub prepend : Line → Option Dump → Option Dump
prepend l none = none
prepend l (some d) = some (record d { lines = l ∷ d.lines })

-- The `for (;;)` loop. `none` means that the fuel ran out.
unfoldable pub dump_loop : ℕ → Lexer → Option Dump
dump_loop zero lx = none
dump_loop (suc fuel) lx =
    let r = lexer_next lx in
    let rest = prepend (token_line r.0) (dump_loop fuel r.1) in
    if is_error r.0.type
    then some (record {
      lines = token_line r.0 ∷ [];
      message = some (error_message r.1 r.0);
      exit_code = 1;
    })
    else if is_eof r.0.type
    then some (record {
      lines = record { line = r.0.line; name = token_type_name r.0.type; text = none } ∷ [];
      message = none;
      exit_code = 0;
    })
    else rest

unfoldable pub dump_tokens : ℕ → Bytes → Bytes → Option Dump
dump_tokens fuel filename source = dump_loop fuel (lexer_init filename source)
