-- ===== src/Parser/Strings/Joined.antt =====
-- The text of adjacent literals, from the source through the lexer.
use coglet.Prelude.{
  ℕ, zero, suc, ◌+◌, ◌-◌, ◌≢◌, Bytes, length, length-append, length-drop, take, drop, true, false,
  List, [], ◌∷◌, ◌++◌, append-nil, drop-length_append, ◌≡◌, refl, sym, ap, ap₂, ◌∙◌, ltb, ◌==◌,
  arith,
}
use coglet.Lexer.Token.{Token}
use coglet.Lexer.Cursor.{Lexer, deref, tail}
use coglet.Lexer.Lexeme.{IsStringBody}
use coglet.Lexer.Next.{lexer_next}
use coglet.Lexer.Next.Quoted.{lexer_next-Quoted}
use coglet.Literal.Quoted.{payload-Quoted}
use coglet.Parser.Strings.{is_string, last_literal, read_again, parse_adjacent_string_literals}

last_literal-none :
    (last : Token) (n : ℕ) (next : Token) (tokens : List Token)
    → is_string next.type ≡ false
    → last_literal last n (next ∷ tokens) ≡ (last, n, next ∷ tokens)
unfolding last_literal
last_literal-none last n next tokens h = rw h refl

read_again-stop : (fuel : ℕ) (cursor : Bytes) → read_again fuel (length cursor) cursor ≡ []
unfolding read_again
read_again-stop zero cursor = refl
read_again-stop (suc fuel) cursor =
    let full : ltb (length cursor) (length cursor) ≡ false = ground arith in rw full refl

-- A string literal with no other behind it has the text between its quotes, and the tokens behind it
-- are left.
pub parse_adjacent-single :
    (lx : Lexer) (body rest : Bytes) (next : Token) (tokens : List Token)
    → IsStringBody body
    → lx.current ≡ b'"' ∷ (body ++ (b'"' ∷ rest))
    → is_string next.type ≡ false
    → let (literal, left) = parse_adjacent_string_literals (lexer_next lx).0 (next ∷ tokens) in
      (literal.text ≡ body) × (left ≡ next ∷ tokens)
unfolding parse_adjacent_string_literals
parse_adjacent-single lx body rest next tokens b e h =
    let t = (lexer_next lx).0 in
    let q = lexer_next-Quoted lx body rest b e in
    let l = last_literal-none t (t.length - 2) next tokens h in
    let apart : (length t.start == length (drop t.length t.start)) ≡ false = ground (
      arith,
      length-drop t.length t.start,
      ap length (q.start_is ∙ e),
      q.length_is,
      length-append body (b'"' ∷ rest),
    ) in
    rw (l, apart)
      (rw (read_again-stop _ (drop t.length t.start)) (append-nil _ ∙ payload-Quoted e q, refl))

last_literal-two :
    (last : Token) (n : ℕ) (second next : Token) (tokens : List Token)
    → is_string second.type ≡ true
    → is_string next.type ≡ false
    → last_literal last n (second ∷ next ∷ tokens)
      ≡ (second, n + (second.length - 2), next ∷ tokens)
unfolding last_literal
last_literal-two last n second next tokens h k = rw (h, k) refl

take-append : (a b : Bytes) (n : ℕ) → take (length a + n) (a ++ b) ≡ a ++ take n b
take-append [] b n = ap (λ k. take k b) (omega arith)
take-append (c ∷ a) b n =
    let k : length (c ∷ a) + n ≡ suc (length a + n) = omega arith in
    rw k (ap (λ t. c ∷ t) (take-append a b n))

-- No string's body starts with a quote.
take-quote-ne : {b : Bytes} (t : Bytes) → IsStringBody b → b ≢ [] → take (length b) (b'"' ∷ t) ≢ b
take-quote-ne t IsStringBody.done ne e = ne refl
take-quote-ne t (IsStringBody.plain {c} {cs} q n z b) ne e =
    let k : length (c ∷ cs) ≡ suc (length cs) = omega arith in
    q (sym (ap deref (sym (ap (λ n. take n (b'"' ∷ t)) k) ∙ e)))
take-quote-ne t (IsStringBody.escape {q} {c} {cs} q_is z b) ne e =
    let k : length (q ∷ c ∷ cs) ≡ suc (length (c ∷ cs)) = omega arith in
    absurd (omega (arith, q_is, ap deref (sym (ap (λ n. take n (b'"' ∷ t)) k) ∙ e)))

-- Where a literal touches the one behind it, the last one of the run, and that one is not empty, the
-- text is not the two bodies joined. It is the first body and then the source from the first closing
-- quote on, as many bytes as the second body has.
pub parse_adjacent-touching :
    (lx : Lexer) (a b rest : Bytes) (next : Token) (tokens : List Token)
    → IsStringBody a
    → IsStringBody b
    → b ≢ []
    → lx.current ≡ b'"' ∷ (a ++ (b'"' ∷ b'"' ∷ (b ++ (b'"' ∷ rest))))
    → is_string next.type ≡ false
    → let second = (lexer_next (lexer_next lx).1).0 in
      let (literal, left) =
        parse_adjacent_string_literals (lexer_next lx).0 (second ∷ next ∷ tokens) in
      (literal.text ≡ a ++ take (length b) (b'"' ∷ b'"' ∷ (b ++ (b'"' ∷ rest))))
      × (literal.text ≢ a ++ b)
unfolding parse_adjacent_string_literals is_string
parse_adjacent-touching lx a b rest next tokens x y ne e h =
    let behind = b'"' ∷ (b ++ (b'"' ∷ rest)) in
    let t = (lexer_next lx).0 in
    let second = (lexer_next (lexer_next lx).1).0 in
    let q = lexer_next-Quoted lx a behind x e in
    let r = lexer_next-Quoted (lexer_next lx).1 b rest y q.current_is in
    let l = last_literal-two t (t.length - 2) second next tokens (ap is_string r.type_is) h in
    let touch : (length second.start == length (drop t.length t.start)) ≡ true = ground (
      arith,
      length-drop t.length t.start,
      ap length (q.start_is ∙ e),
      ap length (r.start_is ∙ q.current_is),
      q.length_is,
      length-append a (b'"' ∷ behind),
    ) in
    let n : t.length - 2 + (second.length - 2) ≡ length a + length b =
      omega (arith, q.length_is, r.length_is) in
    let text : take (t.length - 2 + (second.length - 2)) (tail t.start)
        ≡ a ++ take (length b) (b'"' ∷ behind) =
      ap₂ take n (ap tail (q.start_is ∙ e)) ∙ take-append a (b'"' ∷ behind) (length b) in
    rw (l, touch)
      (
        text,
        λ same. take-quote-ne behind y ne (
            sym (drop-length_append a (take (length b) (b'"' ∷ behind)))
            ∙ ap (drop (length a)) (sym text ∙ same)
            ∙ drop-length_append a b),
      )
