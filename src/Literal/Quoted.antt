-- ===== src/Literal/Quoted.antt =====
-- From a quoted spelling in the source, through the lexer and the decoder, to the bytes. The payload
-- of a token is cut out as src/parser.c does it.
use coglet.Prelude.{
  ◌-◌, Bytes, length, take, take-length_append, true, [], ◌∷◌, ◌++◌, ◌≡◌, refl, ap, ap₂, ◌∙◌, inl,
  inr, ◌==◌, Bool-cases, arith,
}
use coglet.Lexer.Token.{TokenType, Token}
use coglet.Lexer.Cursor.{Lexer, tail}
use coglet.Lexer.Lexeme.{IsStringBody}
use coglet.Lexer.Next.{lexer_next}
use coglet.Lexer.Next.Quoted.{Quoted, lexer_next-Quoted}
use coglet.Literal.{string_decode_into, string_payload}
use coglet.Literal.Decoding.{spell, decode-spell}

-- A spelling has no quote, backslash or NUL of its own.
spell-IsStringBody : (bytes : Bytes) → IsStringBody (spell bytes)
spell-IsStringBody [] = IsStringBody.done
spell-IsStringBody (b ∷ bytes) = elim (Bool-cases (b == b'\n')) [
  | inl e ↦ rw e (IsStringBody.escape refl (ground arith) (spell-IsStringBody bytes))
  | inr n1 ↦ elim (Bool-cases (b == b'\\')) [
    | inl e ↦ rw (n1, e) (IsStringBody.escape refl (ground arith) (spell-IsStringBody bytes))
    | inr n2 ↦ elim (Bool-cases (b == b'"')) [
      | inl e ↦ rw (n1, n2, e) (IsStringBody.escape refl (ground arith) (spell-IsStringBody bytes))
      | inr n3 ↦ elim (Bool-cases (b == 0)) [
        | inl e ↦
            rw (n1, n2, n3, e) (IsStringBody.escape refl (ground arith) (spell-IsStringBody bytes))
        | inr n4 ↦
            rw (n1, n2, n3, n4)
              (IsStringBody.plain (ground arith) (ground arith) (ground arith)
                (spell-IsStringBody bytes))
      ]
    ]
  ]
]

-- `payload-Quoted` cuts the body out of its token.
pub payload-Quoted :
    {lx : Lexer} {body rest : Bytes} {r : Token × Lexer}
    → lx.current ≡ b'"' ∷ (body ++ (b'"' ∷ rest))
    → Quoted lx body rest r
    → string_payload r.0 ≡ body
unfolding string_payload
payload-Quoted {lx} {body} {rest} {r} e q =
    let n : r.0.length - 2 ≡ length body = omega (arith, q.length_is) in
    ap₂ take n (ap tail (q.start_is ∙ e)) ∙ take-length_append body (b'"' ∷ rest)

-- Any bytes, spelled between quotes, come back from the lexer as a string token whose payload decodes
-- to them, and the lexer goes on behind the closing quote.
pub lexer_next-spell :
    (lx : Lexer) (bytes rest : Bytes)
    → lx.current ≡ b'"' ∷ (spell bytes ++ (b'"' ∷ rest))
    → ((lexer_next lx).0.type ≡ TokenType.tok_string)
      × ((string_decode_into (string_payload (lexer_next lx).0)).0.valid ≡ true)
      × ((string_decode_into (string_payload (lexer_next lx).0)).1 ≡ bytes)
      × ((lexer_next lx).1.current ≡ rest)
lexer_next-spell lx bytes rest e =
    let q = lexer_next-Quoted lx (spell bytes) rest (spell-IsStringBody bytes) e in
    let p = payload-Quoted e q in
    let d = decode-spell bytes in rw p (q.type_is, d.0, d.1, q.current_is)
