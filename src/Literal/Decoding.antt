-- ===== src/Literal/Decoding.antt =====
-- What a literal's payload decodes to, described apart from the loops, and where it is malformed.
use coglet.Prelude.{
  ℕ, ◌+◌, ◌≤◌, ◌≢◌, All, Bytes, length, true, false, List, [], ◌∷◌, ◌++◌, none, some, ◌≡◌, refl, ap,
  ◌⊎◌, inl, inr, ◌==◌, if◌then◌else◌, Bool-cases, ==_iff, arith,
}
use coglet.Literal.{
  StringDecodeInfo, unescape, is_escape, analyze_from, string_analyze, decode_loop,
  string_decode_into,
}

-- The letter behind a backslash, and the byte that both spell.
abbrev pub escapes : List (ℕ × ℕ)
escapes = (b'n', 10) ∷ ((b't', 9) ∷ ((b'r', 13) ∷ ((b'\\', 92) ∷ ((b'"', 34) ∷ ((b'0', 0) ∷ [])))))

abbrev pub Escapes : ℕ → ℕ → List (ℕ × ℕ) → Type 0
Escapes e b [] = ⊥
Escapes e b ((letter, byte) ∷ table) = ((e ≡ letter) × (b ≡ byte)) ⊎ Escapes e b table

-- A letter that is in no entry.
abbrev pub NoEscape : ℕ → List (ℕ × ℕ) → Type 0
NoEscape e table = All (λ (entry : ℕ × ℕ). e ≢ entry.0) table

-- `text` spells `bytes`: a backslash and a letter spell one byte, any other byte spells itself.
pub data Spells : Bytes → Bytes → Type 0 where
  empty : Spells [] []
  plain :
      {c : ℕ} {text bytes : Bytes} → c ≢ b'\\' → Spells text bytes → Spells (c ∷ text) (c ∷ bytes)
  escape :
      {c e b : ℕ} {text bytes : Bytes}
      → c ≡ b'\\'
      → Escapes e b escapes
      → Spells text bytes
      → Spells (c ∷ e ∷ text) (b ∷ bytes)

-- From offset `base` on, `text` goes wrong at a lone last backslash, or at a letter that is no escape;
-- `good` is what stands before that backslash.
pub data Malformed (base : ℕ) (text : Bytes) (offset letter : ℕ) (good : Bytes) : Type 0 where
  dangling :
      text ≡ good ++ (b'\\' ∷ [])
      → offset ≡ base + length good
      → letter ≡ 0
      → Malformed base text offset letter good
  unknown :
      (rest : Bytes)
      → text ≡ good ++ (b'\\' ∷ letter ∷ rest)
      → NoEscape letter escapes
      → offset ≡ base + length good + 1
      → Malformed base text offset letter good

is_escape-unescape :
    (e : ℕ)
    → (is_escape e ≡ true) × ((b : ℕ) × (unescape e ≡ some b))
      ⊎ ((is_escape e ≡ false) × (unescape e ≡ none))
unfolding is_escape unescape
is_escape-unescape e = ground arith

-- The `switch` is the table.
unescape-Escapes : (e b : ℕ) → unescape e ≡ some b → Escapes e b escapes
unfolding unescape
unescape-Escapes e b h = ground arith

Escapes-unescape : (e b : ℕ) → Escapes e b escapes → unescape e ≡ some b
unfolding unescape
Escapes-unescape e b h = ground arith

unescape-NoEscape : (e : ℕ) → unescape e ≡ none → NoEscape e escapes
unfolding unescape
unescape-NoEscape e h = (
  (λ q. ground arith),
  (
    (λ q. ground arith),
    ((λ q. ground arith), ((λ q. ground arith), ((λ q. ground arith), ((λ q. ground arith), tt)))),
  ),
)

-- The two results of `string_analyze`, from offset `base` on with `count` bytes decoded.
pub record Decoded (count : ℕ) (text : Bytes) (info : StringDecodeInfo) (out : Bytes) : Type 0 where
  pub valid : info.valid ≡ true
  pub spells : Spells text out
  pub length_is : info.decoded_length ≡ count + length out

pub record Rejected (base count : ℕ) (text : Bytes) (info : StringDecodeInfo) : Type 0 where
  pub good : Bytes
  pub bytes : Bytes
  pub invalid : info.valid ≡ false
  pub spells : Spells good bytes
  pub length_is : info.decoded_length ≡ count + length bytes
  pub malformed : Malformed base text info.invalid_offset info.invalid_escape good

abbrev AnalyzeOutcome : ℕ → ℕ → Bytes → StringDecodeInfo → Bytes → Type 0
AnalyzeOutcome base count text info out =
    Decoded count text info out ⊎ Rejected base count text info

Malformed-plain :
    {base : ℕ} {text : Bytes} {offset letter : ℕ} {good : Bytes} (c : ℕ)
    → Malformed (base + 1) text offset letter good
    → Malformed base (c ∷ text) offset letter (c ∷ good)
Malformed-plain c (dangling e o z) = dangling (ap (λ t. c ∷ t) e) (omega arith) z
Malformed-plain c (unknown rest e u o) = unknown rest (ap (λ t. c ∷ t) e) u (omega arith)

Malformed-escape :
    {base : ℕ} {text : Bytes} {offset letter : ℕ} {good : Bytes} (c d : ℕ)
    → Malformed (base + 2) text offset letter good
    → Malformed base (c ∷ d ∷ text) offset letter (c ∷ d ∷ good)
Malformed-escape c d (dangling e o z) = dangling (ap (λ t. c ∷ d ∷ t) e) (omega arith) z
Malformed-escape c d (unknown rest e u o) = unknown rest (ap (λ t. c ∷ d ∷ t) e) u (omega arith)

plain-outcome :
    (base count : ℕ) (c : ℕ) (text : Bytes) {info : StringDecodeInfo} {out : Bytes}
    → c ≢ b'\\'
    → AnalyzeOutcome (base + 1) (count + 1) text info out
    → AnalyzeOutcome base count (c ∷ text) info (c ∷ out)
plain-outcome base count c text h (inl d) =
    inl (record {
      valid = d.valid;
      spells = plain h d.spells;
      length_is = omega (arith, d.length_is);
    })
plain-outcome base count c text h (inr r) = inr (record {
  good = c ∷ r.good;
  bytes = c ∷ r.bytes;
  invalid = r.invalid;
  spells = plain h r.spells;
  length_is = omega (arith, r.length_is);
  malformed = Malformed-plain c r.malformed;
})

escape-outcome :
    (base count : ℕ) (e b : ℕ) (text : Bytes) {info : StringDecodeInfo} {out : Bytes}
    → unescape e ≡ some b
    → AnalyzeOutcome (base + 2) (count + 1) text info out
    → AnalyzeOutcome base count (b'\\' ∷ e ∷ text) info (b ∷ out)
escape-outcome base count e b text h (inl d) = inl (record {
  valid = d.valid;
  spells = escape refl (unescape-Escapes e b h) d.spells;
  length_is = omega (arith, d.length_is);
})
escape-outcome base count e b text h (inr r) = inr (record {
  good = b'\\' ∷ e ∷ r.good;
  bytes = b ∷ r.bytes;
  invalid = r.invalid;
  spells = escape refl (unescape-Escapes e b h) r.spells;
  length_is = omega (arith, r.length_is);
  malformed = Malformed-escape b'\\' e r.malformed;
})

analyze_from-outcome :
    (base count : ℕ) (text : Bytes)
    → AnalyzeOutcome base count text (analyze_from base count text) (decode_loop text)
unfolding analyze_from decode_loop
analyze_from-outcome base count [] =
    inl (record { valid = refl; spells = empty; length_is = omega arith })
analyze_from-outcome base count (c ∷ []) = elim (Bool-cases (c == b'\\')) [
  | inl b ↦ rw b (
      inr (record {
        good = [];
        bytes = [];
        invalid = refl;
        spells = empty;
        length_is = omega arith;
        malformed = dangling (ap (λ x. x ∷ []) ((==_iff c b'\\').0 b)) (omega arith) refl;
      }))
  | inr p ↦
      rw p (
        inl (record { valid = refl; spells = plain (ground arith) empty; length_is = omega arith }))
]
analyze_from-outcome base count (c ∷ e ∷ rest) = elim (Bool-cases (c == b'\\')) [
  | inr p ↦ rw p (
      plain-outcome base count c (e ∷ rest) (ground arith)
        (analyze_from-outcome (base + 1) (count + 1) (e ∷ rest)))
  | inl b ↦
      let slash : c ≡ b'\\' = (==_iff c b'\\').0 b in
      elim (is_escape-unescape e) [
        | inl (known, (d, u)) ↦
            rw (b, known, u)
              (rw slash (
                escape-outcome base count e d rest u
                  (analyze_from-outcome (base + 2) (count + 1) rest)))
        | inr (other, u) ↦
            rw (b, other, u)
              (inr (record {
                good = [];
                bytes = [];
                invalid = refl;
                spells = empty;
                length_is = omega arith;
                malformed =
                    unknown rest (ap (λ x. x ∷ e ∷ rest) slash) (unescape-NoEscape e u)
                      (omega arith);
              }))
      ]
]

Spells-length : {text bytes : Bytes} → Spells text bytes → length bytes ≤ length text
Spells-length empty = omega arith
Spells-length (plain h s) = omega (arith, Spells-length s)
Spells-length (escape q u s) = omega (arith, Spells-length s)

abbrev pub DecodeOutcome : Bytes → StringDecodeInfo × Bytes → Type 0
DecodeOutcome s (info, out) =
    Decoded 0 s info out × (length out ≤ length s) ⊎ Rejected 0 0 s info × (out ≡ [])

-- If `string_decode_into` accepts a payload, the payload spells, by the table of escapes, the bytes
-- that it writes, which are `decoded_length` bytes and no more than the payload has. If not, the
-- payload spells `decoded_length` bytes up to a backslash with a letter behind it that is not in the
-- table, and the information tells this letter and its offset, or up to a backslash at the end, and
-- it tells the backslash's offset and 0 for the letter. Then nothing is written.
pub string_decode_into_lem :
    (s : Bytes)
    → let (info, out) = string_decode_into s in
      Decoded 0 s info out × (length out ≤ length s) ⊎ Rejected 0 0 s info × (out ≡ [])
unfolding string_decode_into string_analyze
string_decode_into_lem s = go (analyze_from 0 0 s) (decode_loop s) (analyze_from-outcome 0 0 s)
  where
    go :
        (info : StringDecodeInfo) (written : Bytes)
        → AnalyzeOutcome 0 0 s info written
        → DecodeOutcome s (if info.valid then (info, written) else (info, []))
    go info written (inl d) = simp d.valid (inl (d, Spells-length d.spells))
    go info written (inr r) = simp r.invalid (inr (r, refl))

analyze_from-Spells :
    {s bytes : Bytes} (base count : ℕ)
    → Spells s bytes
    → ((analyze_from base count s).valid ≡ true) × (decode_loop s ≡ bytes)
unfolding analyze_from decode_loop
analyze_from-Spells base count empty = (refl, refl)
analyze_from-Spells base count (plain {c} {text = []} h empty) = (ground arith, ground arith)
analyze_from-Spells base count (plain {c} {text = e ∷ r} h s) =
    let ih = analyze_from-Spells (base + 1) (count + 1) s in
    let p : (c == b'\\') ≡ false = ground arith in rw p (ih.0, ap (λ t. c ∷ t) ih.1)
analyze_from-Spells base count (escape {c} {e} {b} {text} q u s) =
    let ih = analyze_from-Spells (base + 2) (count + 1) s in
    let w = Escapes-unescape e b u in
    elim (is_escape-unescape e) [
      | inl (known, (d, v)) ↦ rw (q, known, w) (ih.0, ap (λ t. b ∷ t) ih.1)
      | inr (other, v) ↦ cc (w, v)
    ]

-- A spelling of `bytes`, one escape or one plain byte for each.
abbrev pub spell_byte : ℕ → Bytes
spell_byte b =
    if b == b'\n'
    then b'\\' ∷ b'n' ∷ []
    else if b == b'\\'
    then b'\\' ∷ b'\\' ∷ []
    else if b == b'"'
    then b'\\' ∷ b'"' ∷ []
    else if b == 0
    then b'\\' ∷ b'0' ∷ []
    else b ∷ []

abbrev pub spell : Bytes → Bytes
spell [] = []
spell (b ∷ bytes) = spell_byte b ++ spell bytes

spell-Spells : (bytes : Bytes) → Spells (spell bytes) bytes
unfolding unescape
spell-Spells [] = empty
spell-Spells (b ∷ bytes) = elim (Bool-cases (b == b'\n')) [
  | inl e ↦ rw e (escape refl (ground arith) (spell-Spells bytes))
  | inr n1 ↦ elim (Bool-cases (b == b'\\')) [
    | inl e ↦ rw (n1, e) (escape refl (ground arith) (spell-Spells bytes))
    | inr n2 ↦ elim (Bool-cases (b == b'"')) [
      | inl e ↦ rw (n1, n2, e) (escape refl (ground arith) (spell-Spells bytes))
      | inr n3 ↦ elim (Bool-cases (b == 0)) [
        | inl e ↦ rw (n1, n2, n3, e) (escape refl (ground arith) (spell-Spells bytes))
        | inr n4 ↦ rw (n1, n2, n3, n4) (plain (ground arith) (spell-Spells bytes))
      ]
    ]
  ]
]

-- Every byte sequence can be spelled, and its spelling decodes to it.
pub decode-spell :
    (bytes : Bytes)
    → ((string_decode_into (spell bytes)).0.valid ≡ true)
      × ((string_decode_into (spell bytes)).1 ≡ bytes)
unfolding string_decode_into string_analyze
decode-spell bytes = let h = analyze_from-Spells 0 0 (spell-Spells bytes) in rw h.0 (refl, h.1)
