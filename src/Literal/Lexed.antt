-- ===== src/Literal/Lexed.antt =====
-- Literals that come out of the lexer: what stands between their quotes never ends in a lone backslash.
use coglet.Prelude.{
  ℕ, ◌+◌, ◌≢◌, Bytes, length, true, false, [], ◌∷◌, ◌++◌, ◌≡◌, refl, sym, ap, subst, ◌∙◌, ◌⊎◌, inl,
  inr, arith,
}
use coglet.Lexer.Cursor.{deref, tail}
use coglet.Lexer.Lexeme.{IsStringBody, IsCharBody, one, escaped}
use coglet.Literal.{StringDecodeInfo, analyze_from, string_analyze, string_decode_into}
use coglet.Literal.Decoding.{
  Decoded, NoEscape, escapes, Spells, Malformed, dangling, unknown, string_decode_into_lem,
  DecodeOutcome,
}

plain_rest :
    {s : Bytes} (c : ℕ) (cs : Bytes) → IsStringBody s → s ≡ c ∷ cs → c ≢ b'\\' → IsStringBody cs
plain_rest c cs IsStringBody.done e h = cc
plain_rest c cs (IsStringBody.plain {cs = t} q n z b) e h = subst IsStringBody (ap tail e) b
plain_rest c cs (IsStringBody.escape q z b) e h = absurd (h (sym (ap deref e) ∙ q))

escape_rest :
    {s : Bytes} (c d : ℕ) (cs : Bytes)
    → IsStringBody s
    → s ≡ c ∷ d ∷ cs
    → c ≡ b'\\'
    → (d ≢ 0) × IsStringBody cs
escape_rest c d cs IsStringBody.done e h = cc
escape_rest c d cs (IsStringBody.plain q n z b) e h = absurd (n (ap deref e ∙ h))
escape_rest c d cs (IsStringBody.escape q z b) e h =
    ((λ k. z (ap (λ t. deref (tail t)) e ∙ k)), subst IsStringBody (ap (λ t. tail (tail t)) e) b)

lone_backslash : {s : Bytes} → IsStringBody s → s ≢ b'\\' ∷ []
lone_backslash IsStringBody.done e = cc
lone_backslash (IsStringBody.plain q n z b) e = n (ap deref e)
lone_backslash (IsStringBody.escape q z b) e = cc (ap tail e)

-- Behind a spelled part of a string's body stands a string's body.
IsStringBody-rest :
    {good bytes : Bytes} (t : Bytes) → Spells good bytes → IsStringBody (good ++ t) → IsStringBody t
IsStringBody-rest t Spells.empty b = b
IsStringBody-rest t (Spells.plain {c} {text} h s) b =
    IsStringBody-rest t s (plain_rest c (text ++ t) b refl h)
IsStringBody-rest t (Spells.escape {c} {e} {b = d} {text} q u s) b =
    IsStringBody-rest t s (escape_rest c e (text ++ t) b refl q).1

rejected_letter :
    {body good bytes : Bytes} {offset letter : ℕ}
    → IsStringBody body
    → Spells good bytes
    → Malformed 0 body offset letter good
    → letter ≢ 0
rejected_letter b s (dangling e o z) =
    absurd (lone_backslash (IsStringBody-rest _ s (subst IsStringBody e b)) refl)
rejected_letter {letter = l} b s (unknown rest e u o) =
    (escape_rest b'\\' l rest (IsStringBody-rest _ s (subst IsStringBody e b)) refl refl).0

-- A backslash and a letter that is no escape, behind a spelled part: `offset` is the letter's.
pub record UnknownEscape (body : Bytes) (offset letter : ℕ) : Type 0 where
  pub good : Bytes
  pub bytes : Bytes
  pub rest : Bytes
  pub spells : Spells good bytes
  pub splits : body ≡ good ++ (b'\\' ∷ letter ∷ rest)
  pub no_escape : NoEscape letter escapes
  pub offset_is : offset ≡ length good + 1
  pub real : letter ≢ 0

rejected-UnknownEscape :
    {body good bytes : Bytes} {offset letter : ℕ}
    → IsStringBody body
    → Spells good bytes
    → Malformed 0 body offset letter good
    → UnknownEscape body offset letter
rejected-UnknownEscape b s (dangling e o z) =
    absurd (lone_backslash (IsStringBody-rest _ s (subst IsStringBody e b)) refl)
rejected-UnknownEscape {good = g} {bytes = bs} b s (unknown rest e u o) = record {
  good = g;
  bytes = bs;
  rest = rest;
  spells = s;
  splits = e;
  no_escape = u;
  offset_is = omega (arith, o);
  real = rejected_letter b s (unknown rest e u o);
}

-- The body of a string token is either accepted, and spells what is written, or it is rejected for the
-- first unknown escape: `invalid_escape` is the letter behind its backslash, which is not NUL, and
-- `invalid_offset` is where this letter stands. The case of a backslash at the end never arises.
pub string_analyze-body :
    (body : Bytes)
    → IsStringBody body
    → let (info, out) = string_decode_into body in
      Decoded 0 body info out
      ⊎ (info.valid ≡ false) × UnknownEscape body info.invalid_offset info.invalid_escape
string_analyze-body body b = go (string_decode_into body) (string_decode_into_lem body)
  where
    go :
        (r : StringDecodeInfo × Bytes)
        → DecodeOutcome body r
        → Decoded 0 body r.0 r.1
          ⊎ (r.0.valid ≡ false) × UnknownEscape body r.0.invalid_offset r.0.invalid_escape
    go r (inl (d, _)) = inl d
    go r (inr (j, _)) = inr (j.invalid, rejected-UnknownEscape b j.spells j.malformed)

-- The body of a character token, if it is accepted, is one byte.
pub string_analyze-char :
    (body : Bytes)
    → IsCharBody body
    → (string_decode_into body).0.valid ≡ true
    → (string_decode_into body).0.decoded_length ≡ 1
unfolding string_decode_into string_analyze analyze_from
string_analyze-char body (one n z) h = ground arith
string_analyze-char body (escaped q z) h = ground arith
