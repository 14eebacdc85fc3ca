-- ===== src/Parser/Strings.antt =====
-- `parse_adjacent_string_literals` of src/parser.c. The parser is here the token `previous`, and the
-- tokens that `advance` makes `current` one after the other. What the arena gives is a fresh list.
pub mod Joined
pub mod Spaced
use coglet.Prelude.{
  ℕ, zero, suc, ◌+◌, ◌-◌, Bytes, length, take, drop, Bool, true, false, not, ◌&&◌, ◌||◌, List, [],
  ◌∷◌, ◌++◌, ltb, ◌==◌, if◌then◌else◌,
}
use coglet.Source.Span.{SourceSpan, source_span_join}
use coglet.Lexer.Token.{TokenType, Token}
use coglet.Lexer.Cursor.{deref, tail, ptr_diff}
use coglet.Lexer.Trivia.{is_space}
use coglet.Literal.{string_payload}

pub record ParsedStringLiteral : Type 0 where
  pub text : Bytes
  pub span : SourceSpan

-- `check(p, TOK_STRING)`
unfoldable pub is_string : TokenType → Bool
is_string TokenType.tok_string = true
is_string _ = false

-- The loop over `next`: the last literal, the sum of the lengths, and the tokens left.
unfoldable pub last_literal : Token → ℕ → List Token → Token × ℕ × List Token
last_literal last n [] = (last, n, [])
last_literal last n (next ∷ tokens) =
    let rest = last_literal next (n + (next.length - 2)) tokens in
    if is_string next.type then rest else (last, n, next ∷ tokens)

-- `while (*cursor == ' ' ...) cursor++;`
unfoldable pub skip_space : Bytes → Bytes
skip_space [] = []
skip_space (c ∷ cs) = if is_space c then skip_space cs else c ∷ cs

-- `while (*cursor && *cursor != '"')`
unfoldable pub payload_end : Bytes → Bytes
payload_end [] = []
payload_end (c ∷ []) = if c == 0 || c == b'"' then c ∷ [] else []
payload_end (c ∷ d ∷ cs) =
    let next = payload_end (d ∷ cs) in
    let behind_escape = payload_end cs in
    if c == 0 || c == b'"'
    then c ∷ d ∷ cs
    else if c == b'\\' && not (d == 0)
    then behind_escape
    else next

-- The loop that reads the literals again, with `stop` bytes behind `last`, on the bytes left as fuel:
-- what it copies.
unfoldable pub read_again : ℕ → ℕ → Bytes → Bytes
read_again zero stop cursor = []
read_again (suc fuel) stop cursor =
    let opened = skip_space cursor in
    let payload = tail opened in
    let closing = payload_end payload in
    let part = take (ptr_diff closing payload) payload in
    let rest = read_again fuel stop (if deref closing == b'"' then tail closing else closing) in
    if ltb stop (length cursor) && deref opened == b'"' then part ++ rest else []

-- `previous` is the first literal.
unfoldable pub parse_adjacent_string_literals :
    Token → List Token → ParsedStringLiteral × List Token
parse_adjacent_string_literals first tokens =
    let (last, n, left) = last_literal first (first.length - 2) tokens in
    let cursor = drop first.length first.start in
    let text =
      if length last.start == length cursor
      then take n (tail first.start)
      else string_payload first
        ++ read_again (length cursor) (length (drop last.length last.start)) cursor in
    (record { text = text; span = source_span_join first.span last.span }, left)
