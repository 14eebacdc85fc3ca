-- ===== src/Lexer/Keyword/Table.antt =====
-- The keyword table: which words it holds, and that the lookup is exact.
use Prim.Native.String.{String}
use coglet.Prelude.{
  Bytes, All, Listed, true, List, [], ◌∷◌, ◌++◌, ◌≡◌, ◌≢◌, refl, sym, ap, ◌∙◌, inl, inr, ==_iff,
  and_true, Bool-cases, length, take, take-length, take-length_append, arith,
}
use coglet.Lexer.Token.{TokenType}
use coglet.Lexer.Keyword.{
  Keyword, keywords, codes, bytes_eq, keyword_matches, find_keyword, identifier_type,
}

-- The result depends on the word alone, not on what follows it in the source.
keyword_matches-append :
    (w rest : Bytes) (word : String)
    → keyword_matches (w ++ rest) (length w) word ≡ keyword_matches w (length w) word
unfolding keyword_matches
keyword_matches-append w rest word = rw take-length_append (rw (take-length w))

find_keyword-append :
    (table : List Keyword) (w rest : Bytes)
    → find_keyword table (w ++ rest) (length w) ≡ find_keyword table w (length w)
unfolding find_keyword
find_keyword-append [] w rest = refl
find_keyword-append ((word, type) ∷ table) w rest =
    rw (keyword_matches-append w rest word, find_keyword-append table w rest)

pub identifier_type-append :
    (w rest : Bytes) → identifier_type (w ++ rest) (length w) ≡ identifier_type w (length w)
unfolding identifier_type
identifier_type-append w rest = find_keyword-append keywords w rest

-- Each keyword is found at its own spelling.
keywords-FoundAs :
    All (λ (k : Keyword). identifier_type (codes k.0) (length (codes k.0)) ≡ k.1) keywords
unfolding identifier_type find_keyword keyword_matches
keywords-FoundAs = ground arith

Listed-FoundAs :
    (table : List Keyword) (k : Keyword)
    → Listed k table
    → All (λ (j : Keyword). identifier_type (codes j.0) (length (codes j.0)) ≡ j.1) table
    → identifier_type (codes k.0) (length (codes k.0)) ≡ k.1
Listed-FoundAs [] k l h = absurd l
Listed-FoundAs (j ∷ table) k (inl e) h = rw e h.0
Listed-FoundAs (j ∷ table) k (inr l) h = Listed-FoundAs table k l h.1

bytes_eq-eq : (a b : Bytes) → bytes_eq a b ≡ true → a ≡ b
bytes_eq-eq [] [] h = refl
bytes_eq-eq [] (y ∷ b) h = cc
bytes_eq-eq (x ∷ a) [] h = cc
bytes_eq-eq (x ∷ a) (y ∷ b) h = ground (arith, bytes_eq-eq a b)

keyword_matches-eq :
    (w : Bytes) (word : String) → keyword_matches w (length w) word ≡ true → codes word ≡ w
unfolding keyword_matches
keyword_matches-eq w word h =
    let both = and_true _ _ h in
    let same : length (codes word) ≡ length w = (==_iff _ _).0 both.0 in
    let equal : take (length w) w ≡ take (length w) (codes word) = bytes_eq-eq _ _ both.1 in
    sym (
      sym (take-length w)
      ∙ equal
      ∙ ap (λ n. take n (codes word)) (sym same)
      ∙ take-length (codes word))

find_keyword-unlisted :
    (table : List Keyword) (w : Bytes)
    → All (λ (k : Keyword). codes k.0 ≢ w) table
    → find_keyword table w (length w) ≡ TokenType.tok_ident
unfolding find_keyword
find_keyword-unlisted [] w h = refl
find_keyword-unlisted ((word, type) ∷ table) w h =
    elim (Bool-cases (keyword_matches w (length w) word)) [
      | inl m ↦ absurd (h.0 (keyword_matches-eq w word m))
      | inr m ↦ rw m (find_keyword-unlisted table w h.1)
    ]

-- A keyword of the table gets its own type, whatever follows it in the source.
pub identifier_type-keyword :
    (k : Keyword) (rest : Bytes)
    → Listed k keywords
    → identifier_type (codes k.0 ++ rest) (length (codes k.0)) ≡ k.1
identifier_type-keyword k rest l =
    identifier_type-append (codes k.0) rest ∙ Listed-FoundAs keywords k l keywords-FoundAs

-- A word that no entry of the table spells is an identifier, whatever follows it in the source.
pub identifier_type-identifier :
    (w rest : Bytes)
    → All (λ (k : Keyword). codes k.0 ≢ w) keywords
    → identifier_type (w ++ rest) (length w) ≡ TokenType.tok_ident
unfolding identifier_type
identifier_type-identifier w rest h =
    identifier_type-append w rest ∙ find_keyword-unlisted keywords w h
