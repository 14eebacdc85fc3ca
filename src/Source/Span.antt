-- ===== src/Source/Span.antt =====
-- SourceSpan of src/include/source.h and its functions in src/source.c.
-- `uint32_t` and `size_t` fields are native numbers; the callers reduce what they store.
pub mod Join
use coglet.Prelude.{ℕ, ◌^◌, ◌-◌, Bool, not, ◌&&◌, ltb, ◌==◌, if◌then◌else◌}

abbrev pub SourceFileId : Type 0
SourceFileId = ℕ

-- UINT32_MAX
abbrev pub source_file_id_invalid : SourceFileId
source_file_id_invalid = 2 ^ 32 - 1

pub record SourceSpan : Type 0 where
  pub file_id : SourceFileId
  pub start_offset : ℕ
  pub end_offset : ℕ
  pub line : ℕ
  pub column : ℕ

unfoldable pub source_span_invalid : SourceSpan
source_span_invalid = record {
  file_id = source_file_id_invalid;
  start_offset = 0;
  end_offset = 0;
  line = 0;
  column = 0;
}

unfoldable pub source_span_make : SourceFileId → ℕ → ℕ → ℕ → ℕ → SourceSpan
source_span_make file_id start_offset end_offset line column = record {
  file_id = file_id;
  start_offset = start_offset;
  end_offset = if ltb end_offset start_offset then start_offset else end_offset;
  line = line;
  column = column;
}

unfoldable pub source_span_is_valid : SourceSpan → Bool
source_span_is_valid span =
    not (span.file_id == source_file_id_invalid) && ltb 0 span.line && ltb 0 span.column

-- `if (second.start_offset < result.start_offset)`
join_start : SourceSpan → SourceSpan → SourceSpan
join_start second result =
    if ltb second.start_offset result.start_offset
    then record result {
      start_offset = second.start_offset;
      line = second.line;
      column = second.column;
    }
    else result

-- `if (second.end_offset > result.end_offset)`
join_end : SourceSpan → SourceSpan → SourceSpan
join_end second result =
    if ltb result.end_offset second.end_offset
    then record result { end_offset = second.end_offset }
    else result

unfoldable pub source_span_join : SourceSpan → SourceSpan → SourceSpan
unfolding join_start join_end source_span_is_valid
source_span_join first second =
    if not (source_span_is_valid first)
    then second
    else if not (source_span_is_valid second)
    then first
    else if not (first.file_id == second.file_id)
    then first
    else join_end second (join_start second first)
