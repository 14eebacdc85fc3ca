-- ===== src/Lexer/Text/Grammar.antt =====
-- Names, strings and characters: what `scan_identifier`, `scan_string` and `scan_char` return.
use coglet.Prelude.{
  ℕ, zero, suc, ◌≤◌, ◌≢◌, Bytes, length, true, false, not, ◌&&◌, [], ◌∷◌, ◌++◌, ◌≡◌, refl, ap₂, ◌∙◌,
  ◌⊎◌, inl, inr, ◌==◌, ==_iff, if◌then◌else◌, Bool-cases, arith,
}
use coglet.Lexer.Token.{TokenType}
use coglet.Lexer.Bytes.{is_alpha, is_word}
use coglet.Lexer.Cursor.{Lexer, mark, is_at_end, peek, peek_next, advance, emit_to_here, fail}
use coglet.Lexer.Motion.{
  Moved, Moved-refl, Moved-trans, advance-Moved, peek-advance, length-current-advance, is_at_end-eq,
  length-current-zero,
}
use coglet.Lexer.Lexeme.{IsStringBody, done, plain, escape, IsCharBody, one, escaped, Lexeme}
use coglet.Lexer.Emit.{Emits, emit_to_here-Emits, fail-Emits, ptr_diff-Moved}
use coglet.Lexer.Keyword.{identifier_type}
use coglet.Lexer.Keyword.Table.{identifier_type-append}
use coglet.Lexer.Text.{scan_identifier, skip_string, scan_string, close_char, scan_char}
use coglet.Lexer.Number.Prefixed.{skip_word-Ran}

is_alpha-ne-zero : (c : ℕ) → is_alpha c ≡ true → (c ≢ 0) × (is_word c ≡ true)
unfolding is_alpha is_word
is_alpha-ne-zero c h = (ground arith, rw h)

-- From a letter on, `scan_identifier` returns the whole name, as a keyword if it is one.
pub scan_identifier-Emits :
    (lx : Lexer) → is_alpha (peek lx) ≡ true → Emits lx (scan_identifier (advance lx) (mark lx))
unfolding scan_identifier peek
scan_identifier-Emits lx h =
    let w = skip_word-Ran (advance lx) in
    let first = is_alpha-ne-zero (peek lx) h in
    let moved = Moved-trans (peek lx ∷ []) w.text (advance-Moved lx first.0) w.moved in
    emit_to_here-Emits (peek lx ∷ w.text) _ moved (
      Lexeme.name
        (ap₂ identifier_type moved.splits (ptr_diff-Moved _ moved)
          ∙ identifier_type-append (peek lx ∷ w.text) _)
        (record { first = h; word = (first.1, w.passed); ended = w.stopped }))

-- Where the loop of `scan_string` stops: at the end of the source, or at the closing quote.
record StringRan (lx lx' : Lexer) : Type 0 where
  text : Bytes
  moved : Moved lx text lx'
  ended : (peek lx' ≡ 0) ⊎ (IsStringBody text × (peek lx' ≡ b'"'))

skip_string_end : (fuel : ℕ) (lx : Lexer) → peek lx ≡ 0 → skip_string fuel lx ≡ lx
unfolding skip_string
skip_string_end zero lx e = refl
skip_string_end (suc fuel) lx e = rw (is_at_end-eq, e)

stop-StringRan : (lx : Lexer) → (peek lx ≡ 0) ⊎ (peek lx ≡ b'"') → StringRan lx lx
stop-StringRan lx (inl e) = record { text = []; moved = Moved-refl lx; ended = inl e }
stop-StringRan lx (inr e) = record { text = []; moved = Moved-refl lx; ended = inr (done, e) }

-- A byte that is consumed alone.
plain-StringRan :
    (lx : Lexer) {lx' : Lexer}
    → peek lx ≢ 0
    → peek lx ≢ b'"'
    → peek lx ≢ b'\\'
    → StringRan (advance lx) lx'
    → StringRan lx lx'
plain-StringRan lx {lx'} nz nq nb r = record {
  text = peek lx ∷ r.text;
  moved = Moved-trans (peek lx ∷ []) r.text (advance-Moved lx nz) r.moved;
  ended = further r.ended;
}
  where
    further :
        (peek lx' ≡ 0) ⊎ (IsStringBody r.text × (peek lx' ≡ b'"'))
        → (peek lx' ≡ 0) ⊎ (IsStringBody (peek lx ∷ r.text) × (peek lx' ≡ b'"'))
    further (inl e) = inl e
    further (inr (b, e)) = inr (plain nq nb nz b, e)

-- A backslash and the byte behind it.
escape-StringRan :
    (lx : Lexer) {lx' : Lexer}
    → peek lx ≡ b'\\'
    → peek (advance lx) ≢ 0
    → StringRan (advance (advance lx)) lx'
    → StringRan lx lx'
escape-StringRan lx {lx'} e nz r = record {
  text = b'\\' ∷ peek (advance lx) ∷ r.text;
  moved = rw (← e) (
      Moved-trans (peek lx ∷ []) (peek (advance lx) ∷ r.text) (advance-Moved lx (omega arith))
        (Moved-trans (peek (advance lx) ∷ []) r.text (advance-Moved (advance lx) nz) r.moved));
  ended = further r.ended;
}
  where
    further :
        (peek lx' ≡ 0) ⊎ (IsStringBody r.text × (peek lx' ≡ b'"'))
        → (peek lx' ≡ 0) ⊎ (IsStringBody (b'\\' ∷ peek (advance lx) ∷ r.text) × (peek lx' ≡ b'"'))
    further (inl k) = inl k
    further (inr (b, k)) = inr (escape refl nz b, k)

-- A backslash that ends the source.
dangling-StringRan :
    (lx : Lexer) (fuel : ℕ)
    → peek lx ≡ b'\\'
    → peek (advance lx) ≡ 0
    → StringRan lx (skip_string fuel (advance lx))
dangling-StringRan lx fuel e z =
    rw (skip_string_end fuel (advance lx) z)
      (record { text = peek lx ∷ []; moved = advance-Moved lx (omega arith); ended = inl z })

escaped_pair :
    (lx : Lexer)
    → peek lx ≢ 0
    → (peek lx == b'\\' && not (peek_next lx == 0)) ≡ true
    → (peek lx ≡ b'\\') × (peek (advance lx) ≢ 0)
escaped_pair lx nz e = (ground arith, rw (peek-advance lx nz) (ground arith))

-- A backslash that takes nothing along ends the source.
not_escaped :
    (lx : Lexer)
    → peek lx ≢ 0
    → (peek lx == b'\\' && not (peek_next lx == 0)) ≡ false
    → (peek lx ≢ b'\\') ⊎ ((peek lx ≡ b'\\') × (peek (advance lx) ≡ 0))
not_escaped lx nz e = rw (peek-advance lx nz) (ground arith)

not_escaped-StringRan :
    (fuel : ℕ) (lx : Lexer)
    → peek lx ≢ 0
    → peek lx ≢ b'"'
    → (peek lx ≢ b'\\') ⊎ ((peek lx ≡ b'\\') × (peek (advance lx) ≡ 0))
    → StringRan (advance lx) (skip_string fuel (advance lx))
    → StringRan lx (skip_string fuel (advance lx))
not_escaped-StringRan fuel lx nz nq (inl nb) r = plain-StringRan lx nz nq nb r
not_escaped-StringRan fuel lx nz nq (inr (b, z)) r = dangling-StringRan lx fuel b z

skip_string-StringRan :
    (fuel : ℕ) (lx : Lexer) → length lx.current ≤ fuel → StringRan lx (skip_string fuel lx)
unfolding skip_string
skip_string-StringRan zero lx h = stop-StringRan lx (inl (length-current-zero lx h))
skip_string-StringRan (suc fuel) lx h = elim (Bool-cases (peek lx == b'"')) [
  | inl q ↦ rw q (stop-StringRan lx (inr ((==_iff (peek lx) b'"').0 q)))
  | inr q ↦ elim (Bool-cases (peek lx == 0)) [
    | inl z ↦ rw (is_at_end-eq, q, z) (stop-StringRan lx (inl ((==_iff (peek lx) 0).0 z)))
    | inr z ↦
        let nz : peek lx ≢ 0 = ground arith in
        let shorter = length-current-advance lx nz in
        elim (Bool-cases (peek lx == b'\\' && not (peek_next lx == 0))) [
          | inl e ↦
              let pair = escaped_pair lx nz e in
              rw (is_at_end-eq, q, z, e)
                (escape-StringRan lx pair.0 pair.1 (
                  skip_string-StringRan fuel (advance (advance lx))
                    (omega (arith, length-current-advance (advance lx) pair.1))))
          | inr e ↦
              rw (is_at_end-eq, q, z, e)
                (not_escaped-StringRan fuel lx nz (ground arith) (not_escaped lx nz e)
                  (skip_string-StringRan fuel (advance lx) (omega arith)))
        ]
  ]
]

-- From a quote on, `scan_string` returns the string up to its closing quote, or an error at the end.
pub scan_string-Emits :
    (lx : Lexer) → peek lx ≡ b'"' → Emits lx (scan_string (advance lx) (mark lx))
unfolding scan_string
scan_string-Emits lx q =
    let opened = advance lx in
    let ended = skip_string (length opened.current) opened in
    let r = skip_string-StringRan (length opened.current) opened (omega arith) in
    let moved : Moved lx (b'"' ∷ r.text) ended =
      rw (← q) (Moved-trans (peek lx ∷ []) r.text (advance-Moved lx (omega arith)) r.moved) in
    go ended r.text moved r.ended
  where
    go :
        (ended : Lexer) (text : Bytes)
        → Moved lx (b'"' ∷ text) ended
        → (peek ended ≡ 0) ⊎ (IsStringBody text × (peek ended ≡ b'"'))
        → Emits lx (
            if is_at_end ended
            then fail ended (mark lx) 1 "unterminated string"
            else emit_to_here (advance ended) TokenType.tok_string (mark lx))
    go ended text moved (inl z) =
        rw (is_at_end-eq, z) (fail-Emits _ 1 _ moved (λ n. cc) (omega arith))
    go ended text moved (inr (body, e)) =
        rw (is_at_end-eq, e)
          (emit_to_here-Emits (b'"' ∷ (text ++ (b'"' ∷ []))) TokenType.tok_string
            (Moved-trans (b'"' ∷ text) (b'"' ∷ []) moved
              (rw (← e) (advance-Moved ended (omega arith))))
            (Lexeme.string text refl refl body))

close_char-Emits :
    {lx0 lx : Lexer} (body : Bytes)
    → Moved lx0 (b'\'' ∷ body) lx
    → IsCharBody body
    → Emits lx0 (close_char lx (mark lx0))
unfolding close_char
close_char-Emits {lx0} {lx} body moved b = elim (Bool-cases (peek lx == b'\'')) [
  | inr none ↦ rw none (fail-Emits _ 1 _ moved (λ n. cc) (omega arith))
  | inl q ↦
      let e : peek lx ≡ b'\'' = (==_iff (peek lx) b'\'').0 q in
      rw q (
        emit_to_here-Emits (b'\'' ∷ (body ++ (b'\'' ∷ []))) TokenType.tok_char
          (Moved-trans (b'\'' ∷ body) (b'\'' ∷ []) moved
            (rw (← e) (advance-Moved lx (omega arith))))
          (Lexeme.char body refl refl b))
]

-- From a quote on, `scan_char` returns one byte or one escape between quotes, or an error.
pub scan_char-Emits : (lx : Lexer) → peek lx ≡ b'\'' → Emits lx (scan_char (advance lx) (mark lx))
unfolding scan_char
scan_char-Emits lx q =
    let c = advance lx in
    let first : Moved lx (b'\'' ∷ []) c = rw (← q) (advance-Moved lx (omega arith)) in
    elim (Bool-cases (peek c == 0)) [
      | inl z ↦ rw (is_at_end-eq, z) (fail-Emits _ 1 _ first (λ n. cc) (omega arith))
      | inr z ↦ elim (Bool-cases (peek c == b'\\')) [
        | inr ordinary ↦
            rw (is_at_end-eq, z, ordinary)
              (close_char-Emits (peek c ∷ [])
                (Moved-trans _ _ first (advance-Moved c (ground arith)))
                (one (ground arith) (ground arith)))
        | inl b ↦
            let e : peek c ≡ b'\\' = (==_iff (peek c) b'\\').0 b in
            let second : Moved lx (b'\'' ∷ b'\\' ∷ []) (advance c) =
              rw (← e) (Moved-trans _ _ first (advance-Moved c (ground arith))) in
            elim (Bool-cases (peek (advance c) == 0)) [
              | inl end ↦
                  rw (is_at_end-eq, z, b, is_at_end-eq, end)
                    (fail-Emits _ 1 _ second (λ n. cc) (omega arith))
              | inr more ↦
                  rw (is_at_end-eq, z, b, is_at_end-eq, more)
                    (close_char-Emits (b'\\' ∷ peek (advance c) ∷ [])
                      (Moved-trans _ _ second (advance-Moved (advance c) (ground arith)))
                      (escaped refl (ground arith)))
            ]
      ]
    ]
