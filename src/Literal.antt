-- ===== src/Literal.antt =====
-- src/string_decode.c: the escapes of string and character literals. A StringView is the list of its
-- bytes, so `s.data[i]` with `i < s.length` is the head of what is left at `i`.
pub mod Decoding
pub mod Lexed
pub mod Quoted
use coglet.Prelude.{
  ℕ, take, ◌+◌, ◌-◌, ◌^◌, Bytes, Bool, true, false, ◌||◌, List, [], ◌∷◌, Option, none, some, ◌==◌,
  if◌then◌else◌,
}
use coglet.Lexer.Token.{Token}
use coglet.Lexer.Cursor.{tail}

pub record StringDecodeInfo : Type 0 where
  pub valid : Bool
  pub decoded_length : ℕ
  pub invalid_offset : ℕ
  pub invalid_escape : ℕ

-- `(size_t)-1`
abbrev pub no_offset : ℕ
no_offset = 2 ^ 64 - 1

-- The byte that the escape letter `c` stands for: the `switch` of `string_decode_into`.
unfoldable pub unescape : ℕ → Option ℕ
unescape c =
    if c == b'n'
    then some b'\n'
    else if c == b't'
    then some b'\t'
    else if c == b'r'
    then some b'\r'
    else if c == b'\\'
    then some b'\\'
    else if c == b'"'
    then some b'"'
    else if c == b'0'
    then some 0
    else none

-- The `switch` of `string_analyze`.
unfoldable pub is_escape : ℕ → Bool
is_escape c = c == b'n' || (c == b't' || (c == b'r' || (c == b'\\' || (c == b'"' || c == b'0'))))

-- The loop of `string_analyze` at `i`, with `n` bytes decoded.
unfoldable pub analyze_from : ℕ → ℕ → Bytes → StringDecodeInfo
analyze_from i n [] = record {
  valid = true;
  decoded_length = n;
  invalid_offset = no_offset;
  invalid_escape = 0;
}
analyze_from i n (c ∷ []) =
    if c == b'\\'
    then record { valid = false; decoded_length = n; invalid_offset = i; invalid_escape = 0 }
    else record {
      valid = true;
      decoded_length = n + 1;
      invalid_offset = no_offset;
      invalid_escape = 0;
    }
analyze_from i n (c ∷ e ∷ rest) =
    let plain = analyze_from (i + 1) (n + 1) (e ∷ rest) in
    let escaped = analyze_from (i + 2) (n + 1) rest in
    if c == b'\\'
    then (if is_escape e then escaped else record {
      valid = false;
      decoded_length = n;
      invalid_offset = i + 1;
      invalid_escape = e;
    })
    else plain

unfoldable pub string_analyze : Bytes → StringDecodeInfo
string_analyze s = analyze_from 0 0 s

-- The loop of `string_decode_into`: the bytes that it writes. At a lone backslash or another letter
-- it returns, which `string_analyze` has ruled out.
unfoldable pub decode_loop : Bytes → Bytes
decode_loop [] = []
decode_loop (c ∷ []) = if c == b'\\' then [] else c ∷ []
decode_loop (c ∷ e ∷ rest) =
    let plain = c ∷ decode_loop (e ∷ rest) in
    let escaped = decode_loop rest in
    if c == b'\\' then elim (unescape e) [ none ↦ [] | some b ↦ b ∷ escaped ] else plain

-- The information, and the bytes written to `dest`.
unfoldable pub string_decode_into : Bytes → StringDecodeInfo × Bytes
string_decode_into s =
    let info = string_analyze s in if info.valid then (info, decode_loop s) else (info, [])

-- `string_view(token.start + 1, (size_t)token.length - 2)` in src/parser.c.
unfoldable pub string_payload : Token → Bytes
string_payload token = take (token.length - 2) (tail token.start)
