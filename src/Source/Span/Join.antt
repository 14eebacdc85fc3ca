-- ===== src/Source/Span/Join.antt =====
-- `source_span_join` covers both spans, and is their least cover.
use coglet.Prelude.{
  ℕ, ◌≤◌, ◌<◌, ◌≡◌, ◌≢◌, true, false, ltb, if◌then◌else◌, sym, ◌∙◌, min, max, arith,
}
use coglet.Source.Span.{
  SourceFileId, SourceSpan, source_file_id_invalid, source_span_make, source_span_is_valid,
  source_span_join,
}

-- A span as diagnostics use it: in some file, at a position, not ending before it starts.
pub record IsSpan (s : SourceSpan) : Type 0 where
  pub valid : source_span_is_valid s ≡ true
  pub ordered : s.start_offset ≤ s.end_offset

-- `source_span_make` never builds a span that ends before it starts; with a file and a position it
-- is valid.
pub source_span_make-IsSpan :
    (id : SourceFileId) (start end line column : ℕ)
    → id ≢ source_file_id_invalid
    → 0 < line
    → 0 < column
    → IsSpan (source_span_make id start end line column)
unfolding source_span_make source_span_is_valid
source_span_make-IsSpan id start end line column h l c = record {
  valid = ground arith;
  ordered = ground arith;
}

-- The joined span starts where the earlier one starts, at its line and column, and ends where the
-- later one ends.
pub record IsJoin (a b j : SourceSpan) : Type 0 where
  pub file_is : j.file_id ≡ a.file_id
  pub start_is : j.start_offset ≡ min a.start_offset b.start_offset
  pub end_is : j.end_offset ≡ max a.end_offset b.end_offset
  pub line_is : j.line ≡ (if ltb b.start_offset a.start_offset then b.line else a.line)
  pub column_is : j.column ≡ (if ltb b.start_offset a.start_offset then b.column else a.column)
  pub is_span : IsSpan j

-- The join of two spans of one file, both valid and neither ending before it starts, starts at the
-- smaller start offset, with the line and column of the span that starts there (the first one where
-- both do). It ends at the larger end offset, and is again such a span of that file.
pub source_span_join-IsJoin :
    (a b : SourceSpan)
    → IsSpan a
    → IsSpan b
    → a.file_id ≡ b.file_id
    → IsJoin a b (source_span_join a b)
unfolding source_span_join source_span_is_valid
source_span_join-IsJoin a b x y same = record {
  file_is = ground arith;
  start_is = ground arith;
  end_is = ground arith;
  line_is = ground arith;
  column_is = ground arith;
  is_span = record { valid = ground arith; ordered = ground arith };
}

-- With spans of two files, or one that is not valid, the join is one of the two unchanged: the other
-- one if the first is not valid, and the first in all other cases.
pub source_span_join_apart :
    (a b : SourceSpan)
    → ((source_span_is_valid a ≡ false) → source_span_join a b ≡ b)
      × ((source_span_is_valid a ≡ true)
          → (source_span_is_valid b ≡ false)
          → source_span_join a b ≡ a)
      × (a.file_id ≢ b.file_id → (source_span_is_valid a ≡ true) → source_span_join a b ≡ a)
unfolding source_span_join
source_span_join_apart a b = ((λ h. ground arith), (λ h k. ground arith), (λ n h. ground arith))

-- The order of joining does not matter for three spans of one file.
pub source_span_join_assoc :
    (a b c : SourceSpan)
    → IsSpan a
    → IsSpan b
    → IsSpan c
    → a.file_id ≡ b.file_id
    → b.file_id ≡ c.file_id
    → source_span_join (source_span_join a b) c ≡ source_span_join a (source_span_join b c)
source_span_join_assoc a b c x y z e f =
    let ab = source_span_join-IsJoin a b x y e in
    let bc = source_span_join-IsJoin b c y z f in
    let l = source_span_join-IsJoin (source_span_join a b) c ab.is_span z (ab.file_is ∙ e ∙ f) in
    let r = source_span_join-IsJoin a (source_span_join b c) x bc.is_span (e ∙ sym bc.file_is) in
    ground (arith, ab, bc, l, r)
