-- ===== src/Target/Info.antt =====
-- TargetInfo of src/include/target/target_info.h, and its functions in src/target/target_info.c.
pub mod Facts
use Prim.Native.String.{String}
use coglet.Prelude.{
  ℕ, ◌%◌, Bool, true, false, not, ◌&&◌, ◌||◌, Option, none, some, ltb, ◌==◌, if◌then◌else◌,
}
use coglet.Target.Config.{TargetArch, TargetOs, TargetAbi, TargetConfig}

pub data TargetFloatFormat : Type 0 where
  unsupported : TargetFloatFormat
  ieee_binary32 : TargetFloatFormat
  ieee_binary64 : TargetFloatFormat

pub record TargetInfo : Type 0 where
  pub pointer_bits : ℕ
  pub pointer_align_bytes : ℕ
  pub scalar_align_8_bytes : ℕ
  pub scalar_align_16_bytes : ℕ
  pub scalar_align_32_bytes : ℕ
  pub scalar_align_64_bytes : ℕ
  pub c_char_bits : ℕ
  pub c_char_is_signed : ℕ
  pub c_bool_bits : ℕ
  pub c_short_bits : ℕ
  pub c_int_bits : ℕ
  pub c_long_bits : ℕ
  pub c_long_long_bits : ℕ
  pub c_size_bits : ℕ
  pub c_float_format : TargetFloatFormat
  pub c_double_format : TargetFloatFormat

-- `c_long_bits` is not set by this function; the argument is what it is set to later.
unfoldable pub target_info_init_common : ℕ → TargetInfo
target_info_init_common c_long_bits = record {
  pointer_bits = 64;
  pointer_align_bytes = 8;
  scalar_align_8_bytes = 1;
  scalar_align_16_bytes = 2;
  scalar_align_32_bytes = 4;
  scalar_align_64_bytes = 8;
  c_char_bits = 8;
  c_char_is_signed = 1;
  c_bool_bits = 8;
  c_short_bits = 16;
  c_int_bits = 32;
  c_long_bits = c_long_bits;
  c_long_long_bits = 64;
  c_size_bits = 64;
  c_float_format = TargetFloatFormat.ieee_binary32;
  c_double_format = TargetFloatFormat.ieee_binary64;
}

-- The message of `fail`, or `none` for the result 1. CHAR_BIT is 8.
unfoldable pub target_info_validate : TargetInfo → Option String
target_info_validate target =
    if target.pointer_bits == 0 || not (target.pointer_bits % 8 == 0)
    then some "pointer width must be a non-zero whole number of bytes"
    else if target.pointer_align_bytes == 0
        || (target.scalar_align_8_bytes == 0
            || (target.scalar_align_16_bytes == 0
                || (target.scalar_align_32_bytes == 0 || target.scalar_align_64_bytes == 0)))
    then some "layout alignments must be non-zero"
    else if target.c_char_bits == 0
    then some "C char width must be non-zero"
    else if target.c_bool_bits == 0
    then some "C _Bool width must be non-zero"
    else if target.c_short_bits == 0
        || (target.c_int_bits == 0
            || (target.c_long_bits == 0
                || (target.c_long_long_bits == 0 || target.c_size_bits == 0)))
    then some "C integer widths must be non-zero"
    else if ltb target.c_int_bits target.c_short_bits
        || (ltb target.c_long_bits target.c_int_bits
            || ltb target.c_long_long_bits target.c_long_bits)
    then some "C signed integer widths must be non-decreasing"
    else none

-- `out->c_long_bits`, by the operating system.
unfoldable pub c_long_bits_of : TargetOs → ℕ
c_long_bits_of TargetOs.linux = 64
c_long_bits_of TargetOs.windows = 32

-- `none` is the result 0. The `default` cases cannot be reached, since the three enumerations have no
-- values but those named.
unfoldable pub target_info_from_config : TargetConfig → Option TargetInfo
target_info_from_config config =
    let out = target_info_init_common (c_long_bits_of config.os) in
    elim (target_info_validate out) [ none ↦ some out | some message ↦ none ]

unfoldable pub float_format_eq : TargetFloatFormat → TargetFloatFormat → Bool
float_format_eq TargetFloatFormat.unsupported TargetFloatFormat.unsupported = true
float_format_eq TargetFloatFormat.ieee_binary32 TargetFloatFormat.ieee_binary32 = true
float_format_eq TargetFloatFormat.ieee_binary64 TargetFloatFormat.ieee_binary64 = true
float_format_eq _ _ = false

unfoldable pub target_info_equal : TargetInfo → TargetInfo → Bool
target_info_equal a b =
    a.pointer_bits == b.pointer_bits
    && (a.pointer_align_bytes == b.pointer_align_bytes
        && (a.scalar_align_8_bytes == b.scalar_align_8_bytes
            && (a.scalar_align_16_bytes == b.scalar_align_16_bytes
                && (a.scalar_align_32_bytes == b.scalar_align_32_bytes
                    && (a.scalar_align_64_bytes == b.scalar_align_64_bytes
                        && (a.c_char_bits == b.c_char_bits
                            && (a.c_char_is_signed == b.c_char_is_signed
                                && (a.c_bool_bits == b.c_bool_bits
                                    && (a.c_short_bits == b.c_short_bits
                                        && (a.c_int_bits == b.c_int_bits
                                            && (a.c_long_bits == b.c_long_bits
                                                && (a.c_long_long_bits == b.c_long_long_bits
                                                    && (a.c_size_bits == b.c_size_bits
                                                        && (float_format_eq a.c_float_format
                                                            b.c_float_format
                                                            && float_format_eq a.c_double_format
                                                            b.c_double_format))))))))))))))
