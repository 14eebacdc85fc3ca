-- ===== src/Lexer/Next/Position.antt =====
-- Lines, columns and byte offsets: the position of a token is that of its first byte in the source.
use coglet.Prelude.{
  ℕ, ◌+◌, ◌-◌, ◌^◌, ◌≤◌, ◌<◌, Bytes, length, length-append, false, [], ◌∷◌, ◌++◌, append_assoc, ◌≡◌,
  refl, sym, ap, ◌∙◌, ltb, ◌==◌, if◌then◌else◌, arith,
}
use coglet.Source.Span.{SourceFileId, source_span_make}
use coglet.Lexer.Token.{TokenType, Token}
use coglet.Lexer.Cursor.{Lexer, lexer_init_with_source_id, ptr_diff, make_token}
use coglet.Lexer.Motion.{Moved, line_after, column_after}
use coglet.Lexer.Emit.{Emits, Emits-within}
use coglet.Lexer.Next.{lexer_next}
use coglet.Lexer.Next.Tokens.{lexer_next-Yields}

abbrev pub newlines : Bytes → ℕ
newlines [] = 0
newlines (c ∷ cs) = (if c == b'\n' then 1 else 0) + newlines cs

-- What stands behind the last newline of a text.
abbrev pub last_line : Bytes → Bytes
last_line [] = []
last_line (c ∷ cs) = if ltb 0 (newlines (c ∷ cs)) then last_line cs else c ∷ cs

-- The one-based line and column of the byte behind `before`.
abbrev pub line_of : Bytes → ℕ
line_of before = 1 + newlines before

abbrev pub column_of : Bytes → ℕ
column_of before = 1 + length (last_line before)

line_after-newlines : (n : ℕ) (t : Bytes) → line_after n t ≡ n + newlines t
line_after-newlines n [] = omega arith
line_after-newlines n (c ∷ t) =
    ground (arith, line_after-newlines (n + 1) t, line_after-newlines n t)

last_line_plain : (t : Bytes) → newlines t ≡ 0 → last_line t ≡ t
last_line_plain [] e = refl
last_line_plain (d ∷ t) e = ground arith

column_after-last_line :
    (n : ℕ) (t : Bytes)
    → column_after n t ≡ (if ltb 0 (newlines t) then column_of t else n + length t)
column_after-last_line n [] = omega arith
column_after-last_line n (c ∷ t) =
    ground (arith, column_after-last_line 1 t, column_after-last_line (n + 1) t, last_line_plain t)

pub newlines-le-length : (t : Bytes) → newlines t ≤ length t
newlines-le-length [] = omega arith
newlines-le-length (c ∷ t) = ground (arith, newlines-le-length t)

pub last_line-le-length : (t : Bytes) → length (last_line t) ≤ length t
last_line-le-length [] = omega arith
last_line-le-length (c ∷ t) = ground (arith, last_line-le-length t)

-- The cursor stands behind `before` in the source, with the line and column of that place, and has
-- never left the source.
pub record Located (source : Bytes) (id : SourceFileId) (lx : Lexer) : Type 0 where
  pub before : Bytes
  pub source_is : lx.source_start ≡ source
  pub splits : source ≡ before ++ lx.current
  pub line_is : lx.line ≡ line_of before
  pub column_is : lx.column ≡ column_of before
  pub id_is : lx.source_id ≡ id
  pub in_bounds : lx.overrun ≡ false

newlines-append : (s t : Bytes) → newlines (s ++ t) ≡ newlines s + newlines t
newlines-append [] t = omega arith
newlines-append (c ∷ s) t = ground (arith, newlines-append s t)

column_of-append :
    (s t : Bytes)
    → column_of (s ++ t) ≡ (if ltb 0 (newlines t) then column_of t else column_of s + length t)
column_of-append [] t = ground (arith, column_after-last_line 1 t, last_line_plain t)
column_of-append (c ∷ s) t =
    ground (arith, column_of-append s t, newlines-append s t, length-append s t)

pub Located-Moved :
    {source : Bytes} {id : SourceFileId} {lx lx' : Lexer} (text : Bytes)
    → Located source id lx
    → Moved lx text lx'
    → Located source id lx'
Located-Moved {lx = lx} {lx' = lx'} text l m = record {
  before = l.before ++ text;
  source_is = m.source_is ∙ l.source_is;
  splits =
      l.splits ∙ ap (λ t. l.before ++ t) m.splits ∙ sym (append_assoc l.before text lx'.current);
  line_is = omega (
    arith,
    m.line_is,
    l.line_is,
    line_after-newlines lx.line text,
    newlines-append l.before text,
  );
  column_is =
      m.column_is
      ∙ column_after-last_line lx.column text
      ∙ ap (λ k. if ltb 0 (newlines text) then column_of text else k + length text) l.column_is
      ∙ sym (column_of-append l.before text);
  id_is = m.id_is ∙ l.id_is;
  in_bounds = m.overrun_is ∙ l.in_bounds;
}

-- Where a token stands in a source of less than 2 ^ 31 - 1 bytes.
pub record Placed (source : Bytes) (id : SourceFileId) (token : Token) : Type 0 where
  pub before : Bytes
  pub splits : source ≡ before ++ token.start
  pub within : length before + token.length ≤ length source
  pub line_is : token.line ≡ line_of before
  pub column_is : token.column ≡ column_of before
  pub fits_int : (token.line < 2 ^ 31) × (token.column < 2 ^ 31) × (token.length < 2 ^ 31)
  pub span_is : token.span ≡ record {
    file_id = id;
    start_offset = length before;
    end_offset = length before + token.length;
    line = token.line;
    column = token.column;
  }

make_token-span :
    (lx : Lexer) (type : TokenType) (start before : Bytes) (n line column : ℕ)
    → lx.source_start ≡ before ++ start
    → length before + n < 2 ^ 31
    → line < 2 ^ 31
    → column < 2 ^ 31
    → (make_token lx type start n line column).span ≡ record {
      file_id = lx.source_id;
      start_offset = length before;
      end_offset = length before + n;
      line = line;
      column = column;
    }
unfolding make_token source_span_make
make_token-span lx type start before n line column e h hl hc =
    let offset : ptr_diff start lx.source_start ≡ length before =
      omega (arith, ap length e, length-append before start) in
    ground (arith, offset)

Located-Placed :
    {source : Bytes} {id : SourceFileId} {lx : Lexer} {r : Token × Lexer}
    → length source < 2 ^ 31 - 1
    → Located source id lx
    → Emits lx r
    → Placed source id r.0
Located-Placed {source} {id} {lx} {r} small l e =
    let splits : source ≡ l.before ++ r.0.start = rw e.start_is l.splits in
    let inside : length l.before + r.0.length ≤ length source = omega (
      arith,
      Emits-within e,
      ap length l.splits,
      ap length e.moved.splits,
      length-append l.before lx.current,
      length-append e.text r.1.current,
    ) in
    let line_fits : r.0.line < 2 ^ 31 =
      omega (arith, e.line_is, l.line_is, newlines-le-length l.before) in
    let column_fits : r.0.column < 2 ^ 31 =
      omega (arith, e.column_is, l.column_is, last_line-le-length l.before) in
    let same_id : r.1.source_id ≡ id = e.moved.id_is ∙ l.id_is in
    record {
      before = l.before;
      splits = splits;
      within = inside;
      line_is = e.line_is ∙ l.line_is;
      column_is = e.column_is ∙ l.column_is;
      fits_int = (line_fits, column_fits, omega arith);
      span_is =
          ap (λ (t : Token). t.span) e.made
          ∙ make_token-span r.1 r.0.type r.0.start l.before r.0.length r.0.line r.0.column
              (e.moved.source_is ∙ l.source_is ∙ splits) (omega arith) line_fits column_fits
          ∙ ap
              (λ i. record {
                file_id = i;
                start_offset = length l.before;
                end_offset = length l.before + r.0.length;
                line = r.0.line;
                column = r.0.column;
              })
              same_id;
    }

-- A fresh lexer stands at the first line and column of its source.
pub lexer_init-Located :
    (id : SourceFileId) (filename source : Bytes)
    → Located source id (lexer_init_with_source_id id filename source)
unfolding lexer_init_with_source_id
lexer_init-Located id filename source = record {
  before = [];
  source_is = refl;
  splits = refl;
  line_is = refl;
  column_is = refl;
  id_is = refl;
  in_bounds = refl;
}

-- From a located lexer, `lexer_next` leaves a located lexer.
pub lexer_next-Located :
    {source : Bytes} {id : SourceFileId} (lx : Lexer)
    → Located source id lx
    → Located source id (lexer_next lx).1
lexer_next-Located lx l =
    let y = lexer_next-Yields lx in
    Located-Moved y.emits.text (Located-Moved y.trivia l y.skipped) y.emits.moved

-- From a located lexer, in a source that an `int` can measure, the token that `lexer_next` returns
-- lies inside the source; its line and column are those of its first byte and fit an `int`; and its
-- span holds the byte offsets of its text, the same line and column, and the lexer's file.
pub lexer_next-Placed :
    {source : Bytes} {id : SourceFileId} (lx : Lexer)
    → length source < 2 ^ 31 - 1
    → Located source id lx
    → Placed source id (lexer_next lx).0
lexer_next-Placed lx small l =
    let y = lexer_next-Yields lx in
    Located-Placed small (Located-Moved y.trivia l y.skipped) y.emits
