-- ===== src/Parser/Strings/Spaced.antt =====
-- Adjacent literals with whitespace between them: the text is all the bodies, in order.
use coglet.Prelude.{
  ℕ, zero, suc, ◌+◌, ◌-◌, ◌≤◌, ◌<◌, ◌≢◌, Bytes, All, length, length-append, take, drop, true, false,
  List, [], ◌∷◌, ◌++◌, append_assoc, take-length_append, drop-length_append, ◌≡◌, refl, sym, ap,
  ap₂, ◌∙◌, ltb, ◌==◌, arith,
}
use coglet.Lexer.Token.{TokenType, Token}
use coglet.Lexer.Cursor.{tail, ptr_diff}
use coglet.Lexer.Lexeme.{IsStringBody}
use coglet.Lexer.Trivia.{is_space}
use coglet.Literal.{string_payload}
use coglet.Parser.Strings.{
  is_string, last_literal, skip_space, payload_end, read_again, parse_adjacent_string_literals,
}

-- A literal with the whitespace in front of it.
abbrev pub Piece : Type 0
Piece = Bytes × Bytes

abbrev pub source_of : List Piece → Bytes → Bytes
source_of [] rest = rest
source_of ((space, body) ∷ pieces) rest = space ++ (b'"' ∷ (body ++ (b'"' ∷ source_of pieces rest)))

abbrev pub bodies : List Piece → Bytes
bodies [] = []
bodies ((space, body) ∷ pieces) = body ++ bodies pieces

abbrev pub IsPiece : Piece → Type 0
IsPiece (space, body) = All (λ c. is_space c ≡ true) space × IsStringBody body

skip_space-quote :
    (space t : Bytes)
    → All (λ c. is_space c ≡ true) space
    → skip_space (space ++ (b'"' ∷ t)) ≡ b'"' ∷ t
unfolding skip_space is_space
skip_space-quote [] t h = refl
skip_space-quote (c ∷ space) t h = rw (h.0) (skip_space-quote space t h.1)

payload_end-plain :
    (c : ℕ) (t : Bytes) → c ≢ b'"' → c ≢ b'\\' → c ≢ 0 → payload_end (c ∷ t) ≡ payload_end t
unfolding payload_end
payload_end-plain c [] q n z = ground arith
payload_end-plain c (d ∷ t) q n z = ground arith

payload_end-escape : (c : ℕ) (t : Bytes) → c ≢ 0 → payload_end (b'\\' ∷ c ∷ t) ≡ payload_end t
unfolding payload_end
payload_end-escape c t z = ground arith

payload_end-body :
    {body : Bytes} (t : Bytes) → IsStringBody body → payload_end (body ++ (b'"' ∷ t)) ≡ b'"' ∷ t
unfolding payload_end
payload_end-body [] IsStringBody.done = refl
payload_end-body (d ∷ t) IsStringBody.done = refl
payload_end-body t (IsStringBody.plain {c} {cs} q n z b) =
    payload_end-plain c (cs ++ (b'"' ∷ t)) q n z ∙ payload_end-body t b
payload_end-body t (IsStringBody.escape {q} {c} {cs} q_is z b) =
    ap (λ x. payload_end (x ∷ c ∷ (cs ++ (b'"' ∷ t)))) q_is
    ∙ payload_end-escape c (cs ++ (b'"' ∷ t)) z
    ∙ payload_end-body t b

rest-le-source_of :
    (pieces : List Piece) (rest : Bytes) → length rest ≤ length (source_of pieces rest)
rest-le-source_of [] rest = omega arith
rest-le-source_of ((space, body) ∷ pieces) rest = omega (
  arith,
  rest-le-source_of pieces rest,
  length-append space (b'"' ∷ (body ++ (b'"' ∷ source_of pieces rest))),
  length-append body (b'"' ∷ source_of pieces rest),
)

read_again-bodies :
    (fuel : ℕ) (pieces : List Piece) (rest : Bytes)
    → length (source_of pieces rest) ≤ fuel
    → All IsPiece pieces
    → read_again fuel (length rest) (source_of pieces rest) ≡ bodies pieces
unfolding read_again
read_again-bodies zero [] rest h k = refl
read_again-bodies zero ((space, body) ∷ pieces) rest h k =
    absurd (omega (arith, length-append space (b'"' ∷ (body ++ (b'"' ∷ source_of pieces rest)))))
read_again-bodies (suc fuel) [] rest h k =
    let full : ltb (length rest) (length rest) ≡ false = ground arith in rw full refl
read_again-bodies (suc fuel) ((space, body) ∷ pieces) rest h k =
    let behind = source_of pieces rest in
    let opened = skip_space-quote space (body ++ (b'"' ∷ behind)) k.0.0 in
    let closing = payload_end-body behind k.0.1 in
    let size = length-append space (b'"' ∷ (body ++ (b'"' ∷ behind))) in
    let size_b = length-append body (b'"' ∷ behind) in
    let ih = read_again-bodies fuel pieces rest (omega (arith, size, size_b)) k.1 in
    let more : ltb (length rest) (length (source_of ((space, body) ∷ pieces) rest)) ≡ true =
      ground (arith, size, size_b, rest-le-source_of pieces rest) in
    let part : take (ptr_diff (b'"' ∷ behind) (body ++ (b'"' ∷ behind))) (body ++ (b'"' ∷ behind))
        ≡ body =
      ap (λ n. take n (body ++ (b'"' ∷ behind))) (omega (arith, size_b))
      ∙ take-length_append body (b'"' ∷ behind) in
    rw (opened, closing, part, more, ih) refl

-- A string token for `body`, with `rest` behind its closing quote.
pub record StringToken (t : Token) (body rest : Bytes) : Type 0 where
  pub type_is : t.type ≡ TokenType.tok_string
  pub start_is : t.start ≡ b'"' ∷ (body ++ (b'"' ∷ rest))
  pub length_is : t.length ≡ length body + 2

behind-StringToken :
    {t : Token} {body rest : Bytes} → StringToken t body rest → drop t.length t.start ≡ rest
behind-StringToken {t} {body} {rest} s =
    let text = b'"' ∷ (body ++ (b'"' ∷ [])) in
    let size : t.length ≡ length text =
      omega (arith, s.length_is, length-append body (b'"' ∷ [])) in
    let start : t.start ≡ text ++ rest =
      s.start_is ∙ ap (λ x. b'"' ∷ x) (sym (append_assoc body (b'"' ∷ []) rest)) in
    ap₂ drop size start ∙ drop-length_append text rest

payload-StringToken :
    {t : Token} {body rest : Bytes} → StringToken t body rest → string_payload t ≡ body
unfolding string_payload
payload-StringToken {t} {body} {rest} s =
    let n : t.length - 2 ≡ length body = omega (arith, s.length_is) in
    ap₂ take n (ap tail s.start_is) ∙ take-length_append body (b'"' ∷ rest)

-- The tokens of the pieces, in front of `rest`.
abbrev pub StringTokens : List Piece → Bytes → List Token → Type 0
StringTokens [] rest [] = Unit
StringTokens [] rest (t ∷ tokens) = ⊥
StringTokens (piece ∷ pieces) rest [] = ⊥
StringTokens (piece ∷ pieces) rest (t ∷ tokens) =
    StringToken t piece.1 (source_of pieces rest) × StringTokens pieces rest tokens

-- The last literal of a run.
record LastOf (first : Token) (rest : Bytes) (next : Token) (left : List Token)
    (r : Token × ℕ × List Token) : Type 0 where
  behind : drop r.0.length r.0.start ≡ rest
  no_longer : length r.0.start ≤ length first.start
  left_is : r.2 ≡ next ∷ left

last_literal-LastOf :
    (last : Token) (body : Bytes) (pieces : List Piece) (rest : Bytes) (n : ℕ) (run : List Token)
    (next : Token) (left : List Token)
    → StringToken last body (source_of pieces rest)
    → StringTokens pieces rest run
    → is_string next.type ≡ false
    → LastOf last rest next left (last_literal last n (run ++ (next ∷ left)))
unfolding last_literal is_string
last_literal-LastOf last body [] rest n [] next left s k h =
    rw h (record { behind = behind-StringToken s; no_longer = omega arith; left_is = refl })
last_literal-LastOf last body (piece ∷ pieces) rest n (t ∷ run) next left s k h =
    let l =
      last_literal-LastOf t piece.1 pieces rest (n + (t.length - 2)) run next left k.0 k.1 h in
    let again : is_string t.type ≡ true = ap is_string k.0.type_is in
    rw again (record {
      behind = l.behind;
      no_longer = omega (
        arith,
        l.no_longer,
        ap length s.start_is,
        ap length k.0.start_is,
        length-append body (b'"' ∷ source_of (piece ∷ pieces) rest),
        length-append piece.0 (b'"' ∷ (piece.1 ++ (b'"' ∷ source_of pieces rest))),
      );
      left_is = l.left_is;
    })
last_literal-LastOf last body [] rest n (t ∷ run) next left s k h = absurd k
last_literal-LastOf last body (piece ∷ pieces) rest n [] next left s k h = absurd k

space-pos : (space : Bytes) → space ≢ [] → 0 < length space
space-pos [] ne = absurd (ne refl)
space-pos (c ∷ space) ne = omega arith

-- A run of string tokens with nothing but whitespace between them, and some behind the first, is
-- joined in full: the text is all the bodies in order, and the tokens behind the run are left.
pub parse_adjacent-spaced :
    (first t next : Token) (a space body rest : Bytes) (pieces : List Piece) (run left : List Token)
    → space ≢ []
    → All IsPiece ((space, body) ∷ pieces)
    → StringToken first a (source_of ((space, body) ∷ pieces) rest)
    → StringTokens ((space, body) ∷ pieces) rest (t ∷ run)
    → is_string next.type ≡ false
    → let (literal, remaining) =
        parse_adjacent_string_literals first (t ∷ (run ++ (next ∷ left))) in
      (literal.text ≡ a ++ (body ++ bodies pieces)) × (remaining ≡ next ∷ left)
unfolding parse_adjacent_string_literals last_literal is_string
parse_adjacent-spaced first t next a space body rest pieces run left ne k f s h =
    let n = first.length - 2 + (t.length - 2) in
    let l = last_literal-LastOf t body pieces rest n run next left s.0 s.1 h in
    let again : is_string t.type ≡ true = ap is_string s.0.type_is in
    let cursor = source_of ((space, body) ∷ pieces) rest in
    let behind = behind-StringToken f in
    let shorter : length t.start < length cursor = omega (
      arith,
      space-pos space ne,
      ap length s.0.start_is,
      length-append space (b'"' ∷ (body ++ (b'"' ∷ source_of pieces rest))),
    ) in
    let apart : (length (last_literal t n (run ++ (next ∷ left))).0.start == length cursor)
        ≡ false =
      ground (arith, l.no_longer) in
    rw (again, behind, apart, l.behind, payload-StringToken f)
      (
        ap (λ x. a ++ x)
            (read_again-bodies (length cursor) ((space, body) ∷ pieces) rest (omega arith) k),
        l.left_is,
      )
