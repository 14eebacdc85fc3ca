-- ===== src/Tests/DataWitnesses.antt =====
-- The theorems on literals, adjacent literals, spans, files and the arena at concrete values.
use coglet.Prelude.{
  ◌++◌, Bytes, false, ℕ, ◌+◌, ◌-◌, ◌<◌, ◌≤◌, ◌^◌, ◌%◌, length, [], ◌∷◌, none, some, ◌≡◌, ◌≢◌, refl,
  inr, ◌⊎◌, true, arith,
}
use coglet.Lexer.Keyword.{codes}
use coglet.Lexer.Lexeme.{IsStringBody, escaped}
use coglet.Lexer.Token.{TokenType, Token}
use coglet.Lexer.Cursor.{Lexer}
use coglet.Lexer.Next.{lexer_next}
use coglet.Lexer.Next.Quoted.{Quoted, lexer_next-Quoted}
use coglet.Literal.Quoted.{lexer_next-spell}
use coglet.Parser.Strings.{is_string, parse_adjacent_string_literals}
use coglet.Lexer.Trivia.{is_space}
use coglet.Parser.Strings.Spaced.{parse_adjacent-spaced}
use coglet.Parser.Strings.Joined.{parse_adjacent-single, parse_adjacent-touching}
use coglet.Literal.{string_payload, is_escape, string_decode_into, string_analyze, analyze_from}
use coglet.Literal.Decoding.{Decoded, Rejected, spell, string_decode_into_lem, decode-spell}
use coglet.Literal.Lexed.{UnknownEscape, string_analyze-body, string_analyze-char}
use coglet.Source.Span.{SourceSpan, source_span_join, source_span_is_valid}
use coglet.Source.Span.Join.{IsSpan, IsJoin, source_span_join-IsJoin, source_span_join_assoc}
use coglet.Source.Manager.{SourceManager, source_manager_init, source_manager_add}
use coglet.Source.Manager.Identity.{
  Registers, source_manager_init-IsManager, source_manager_add-Registers,
}
use coglet.Source.Span.{source_file_id_invalid}
use coglet.Arena.{Arena, align_up, arena_alloc, arena_mark, arena_reset_to}
use coglet.Arena.Blocks.{
  IsArena, IsFresh, Allocates, align_up_lem, new_capacity, arena_alloc-Allocates, arena_alloc_wraps,
}
use coglet.Arena.Marks.{Allocs, none_yet, one_more, arena_reset_to-arena_mark}

string_decode_into_lem_example :
    let (info, out) = string_decode_into (codes "a\\q") in
    Decoded 0 (codes "a\\q") info out × (length out ≤ length (codes "a\\q"))
    ⊎ Rejected 0 0 (codes "a\\q") info × (out ≡ [])
string_decode_into_lem_example = string_decode_into_lem (codes "a\\q")

decode-spell_example :
    ((string_decode_into (spell (codes "a\n\""))).0.valid ≡ true)
    × ((string_decode_into (spell (codes "a\n\""))).1 ≡ codes "a\n\"")
decode-spell_example = decode-spell (codes "a\n\"")

string_analyze-body_example :
    let (info, out) = string_decode_into (codes "\\q") in
    Decoded 0 (codes "\\q") info out
    ⊎ (info.valid ≡ false) × UnknownEscape (codes "\\q") info.invalid_offset info.invalid_escape
string_analyze-body_example =
    string_analyze-body (codes "\\q") (IsStringBody.escape refl (ground arith) IsStringBody.done)

string_analyze-char_example : (string_decode_into (codes "\\n")).0.decoded_length ≡ 1
unfolding string_decode_into string_analyze analyze_from is_escape
string_analyze-char_example = string_analyze-char (codes "\\n") (escaped refl (ground arith)) refl

abbrev span : ℕ → SourceSpan
span start = record {
  file_id = 2;
  start_offset = start;
  end_offset = start + 4;
  line = 1;
  column = start + 1;
}

span-IsSpan : (start : ℕ) → IsSpan (span start)
unfolding source_span_is_valid
span-IsSpan start = record { valid = ground arith; ordered = omega arith }

source_span_join-IsJoin_example : IsJoin (span 9) (span 3) (source_span_join (span 9) (span 3))
source_span_join-IsJoin_example =
    source_span_join-IsJoin (span 9) (span 3) (span-IsSpan 9) (span-IsSpan 3) refl

source_span_join_assoc_example :
    source_span_join (source_span_join (span 9) (span 3)) (span 6)
    ≡ source_span_join (span 9) (source_span_join (span 3) (span 6))
source_span_join_assoc_example =
    source_span_join_assoc (span 9) (span 3) (span 6) (span-IsSpan 9) (span-IsSpan 3)
      (span-IsSpan 6) refl refl

source_manager_add-Registers_example :
    (source_manager_init.next_id ≡ source_file_id_invalid)
      × (source_manager_add source_manager_init [] (codes "x") ≡ none)
    ⊎ ((m : SourceManager) × (source_manager_add source_manager_init [] (codes "x")
          ≡ some (source_manager_init.next_id, m))
        × Registers source_manager_init [] (codes "x") m)
source_manager_add-Registers_example =
    source_manager_add-Registers source_manager_init [] (codes "x") source_manager_init-IsManager

-- An arena of one block, with 8 of its 64 bytes in use.
abbrev arena : Arena
arena = record {
  current = record { base = 4096; used = 8; capacity = 64 };
  older = [];
  block_size = 64;
  allocated = 8;
}

arena-IsArena : IsArena arena
arena-IsArena = record {
  blocks =
      (record { aligned = refl; addresses = omega arith; within = omega arith; filled = refl }, tt);
  distinct = (tt, tt);
  allocated_is = refl;
}

-- What `malloc` returns for the second block.
second-IsFresh : IsFresh arena 8192 (new_capacity arena (align_up 60))
unfolding align_up
second-IsFresh = record { aligned = refl; addresses = omega arith; apart = (inr (omega arith), tt) }

align_up_lem_example : (13 ≤ align_up 13) × (align_up 13 < 21) × (align_up 13 % 8 ≡ 0)
align_up_lem_example = align_up_lem 13 (omega arith)

arena_alloc-Allocates_example :
    (p : ℕ) × (a : Arena) × (arena_alloc (some 8192) arena 60 ≡ some (p, a))
    × Allocates arena 60 p a
arena_alloc-Allocates_example =
    arena_alloc-Allocates arena 60 8192 arena-IsArena (omega arith) second-IsFresh

arena_alloc_wraps_example :
    (a : Arena) × (arena_alloc none arena (2 ^ 64 - 9) ≡ some (4104, a)) × (a.current.used + 8 ≡ 8)
arena_alloc_wraps_example =
    arena_alloc_wraps none arena (2 ^ 64 - 9) arena-IsArena (omega arith) (omega arith)
      (omega arith)

-- The arena behind an allocation that needs a second block.
abbrev larger : Arena
larger = record {
  current = record { base = 8192; used = 64; capacity = 64 };
  older = record { base = 4096; used = 8; capacity = 64 } ∷ [];
  block_size = 64;
  allocated = 72;
}

larger-Allocs : Allocs arena larger
unfolding arena_alloc align_up
larger-Allocs = one_more (some 8192) 60 8192 none_yet (omega arith) refl

arena_reset_to-arena_mark_example : arena_reset_to larger (arena_mark arena) ≡ arena
arena_reset_to-arena_mark_example =
    arena_reset_to-arena_mark arena larger arena-IsArena (omega arith) larger-Allocs

-- A lexer at the start of a text, and a token that is no string.
abbrev lexer_at : Bytes → Lexer
lexer_at text = record {
  filename = [];
  source_id = 0;
  source_start = text;
  current = text;
  line = 1;
  column = 1;
  line_start = text;
  error_msg = none;
  overrun = false;
}

abbrev semicolon : Token
semicolon = record {
  type = TokenType.tok_semicolon;
  start = codes ";";
  length = 1;
  line = 1;
  column = 1;
  span = span 0;
}

hi-IsStringBody : IsStringBody (codes "hi")
hi-IsStringBody =
    IsStringBody.plain (ground arith) (ground arith) (ground arith)
      (IsStringBody.plain (ground arith) (ground arith) (ground arith) IsStringBody.done)

lexer_next-Quoted_example :
    Quoted
      (lexer_at (codes "\"hi\";"))
      (codes "hi")
      (codes ";")
      (lexer_next (lexer_at (codes "\"hi\";")))
lexer_next-Quoted_example =
    lexer_next-Quoted (lexer_at (codes "\"hi\";")) (codes "hi") (codes ";") hi-IsStringBody refl

abbrev spelled : Lexer
spelled = lexer_at (b'"' ∷ (spell (codes "a\n") ++ codes "\";"))

lexer_next-spell_example :
    ((lexer_next spelled).0.type ≡ TokenType.tok_string)
    × ((string_decode_into (string_payload (lexer_next spelled).0)).0.valid ≡ true)
    × ((string_decode_into (string_payload (lexer_next spelled).0)).1 ≡ codes "a\n")
    × ((lexer_next spelled).1.current ≡ codes ";")
lexer_next-spell_example = lexer_next-spell spelled (codes "a\n") (codes ";") refl

parse_adjacent-single_example :
    let (literal, left) =
      parse_adjacent_string_literals (lexer_next (lexer_at (codes "\"hi\";"))).0 (semicolon ∷ []) in
    (literal.text ≡ codes "hi") × (left ≡ semicolon ∷ [])
unfolding is_string
parse_adjacent-single_example =
    parse_adjacent-single (lexer_at (codes "\"hi\";")) (codes "hi") (codes ";") semicolon []
      hi-IsStringBody refl refl

abbrev touching : Lexer
touching = lexer_at (codes "\"hi\"\"hi\";")

parse_adjacent-touching_example :
    let second = (lexer_next (lexer_next touching).1).0 in
    let (literal, left) =
      parse_adjacent_string_literals (lexer_next touching).0 (second ∷ semicolon ∷ []) in
    (literal.text ≡ codes "hi\"\"") × (literal.text ≢ codes "hihi")
unfolding is_string
parse_adjacent-touching_example =
    parse_adjacent-touching touching (codes "hi") (codes "hi") (codes ";") semicolon []
      hi-IsStringBody hi-IsStringBody (λ n. cc) refl refl

abbrev hi_token : Bytes → Token
hi_token start = record {
  type = TokenType.tok_string;
  start = start;
  length = 4;
  line = 1;
  column = 1;
  span = span 0;
}

parse_adjacent-spaced_example :
    let (literal, remaining) =
      parse_adjacent_string_literals
        (hi_token (codes "\"hi\" \"hi\";"))
        (hi_token (codes "\"hi\";") ∷ semicolon ∷ []) in
    (literal.text ≡ codes "hihi") × (remaining ≡ semicolon ∷ [])
unfolding is_string is_space
parse_adjacent-spaced_example =
    parse_adjacent-spaced (hi_token (codes "\"hi\" \"hi\";")) (hi_token (codes "\"hi\";")) semicolon
      (codes "hi") (codes " ") (codes "hi") (codes ";") [] [] [] (λ n. cc)
      (((refl, tt), hi-IsStringBody), tt)
      (record { type_is = refl; start_is = refl; length_is = refl })
      (record { type_is = refl; start_is = refl; length_is = refl }, tt) refl
