-- ===== src/Target/Info/Facts.antt =====
-- The targets that the compiler supports are valid, and `target_info_equal` is equality.
use coglet.Prelude.{ℕ, ◌*◌, ◌/◌, ◌^◌, ◌<◌, ◌≡◌, refl, ◌↔◌, true, none, some, arith}
use coglet.Target.Config.{TargetOs, TargetConfig}
use coglet.Target.Info.{
  TargetFloatFormat, TargetInfo, target_info_init_common, target_info_validate, c_long_bits_of,
  target_info_from_config, float_format_eq, target_info_equal,
}

-- Every alignment divides the size of the scalars that have it.
pub record IsNatural (t : TargetInfo) : Type 0 where
  pub pointer_whole : (k : ℕ) × (t.pointer_bits / 8 ≡ k * t.pointer_align_bytes)
  pub byte_whole : (k : ℕ) × (◌≡◌ {A = ℕ} 1 (k * t.scalar_align_8_bytes))
  pub short_whole : (k : ℕ) × (◌≡◌ {A = ℕ} 2 (k * t.scalar_align_16_bytes))
  pub word_whole : (k : ℕ) × (◌≡◌ {A = ℕ} 4 (k * t.scalar_align_32_bytes))
  pub long_whole : (k : ℕ) × (◌≡◌ {A = ℕ} 8 (k * t.scalar_align_64_bytes))
  pub pointer_align_pos : 0 < t.pointer_align_bytes
  pub pointer_small : t.pointer_bits < 2 ^ 32

init_common-valid :
    (os : TargetOs) → target_info_validate (target_info_init_common (c_long_bits_of os)) ≡ none
unfolding target_info_init_common target_info_validate c_long_bits_of
init_common-valid TargetOs.linux = refl
init_common-valid TargetOs.windows = refl

-- Every configuration has a target, with `long` as wide as the operating system has it.
pub from_config-eq :
    (config : TargetConfig)
    → target_info_from_config config ≡ some (target_info_init_common (c_long_bits_of config.os))
unfolding target_info_from_config
from_config-eq config = rw (target_info_from_config, init_common-valid config.os) refl

pub init_common-IsNatural : (n : ℕ) → IsNatural (target_info_init_common n)
unfolding target_info_init_common
init_common-IsNatural n = record {
  pointer_whole = (1, refl);
  byte_whole = (1, refl);
  short_whole = (1, refl);
  word_whole = (1, refl);
  long_whole = (1, refl);
  pointer_align_pos = omega arith;
  pointer_small = omega arith;
}

float_format_eq-eq : (a b : TargetFloatFormat) → (float_format_eq a b ≡ true) ↔ (a ≡ b)
unfolding float_format_eq
float_format_eq-eq TargetFloatFormat.unsupported TargetFloatFormat.unsupported =
    ((λ h. refl), (λ h. refl))
float_format_eq-eq TargetFloatFormat.ieee_binary32 TargetFloatFormat.ieee_binary32 =
    ((λ h. refl), (λ h. refl))
float_format_eq-eq TargetFloatFormat.ieee_binary64 TargetFloatFormat.ieee_binary64 =
    ((λ h. refl), (λ h. refl))
float_format_eq-eq _ _ = ((λ h. cc), (λ h. cc))

-- `target_info_equal` tells exactly whether two descriptions are the same.
pub target_info_equal-eq : (a b : TargetInfo) → (target_info_equal a b ≡ true) ↔ (a ≡ b)
unfolding target_info_equal
target_info_equal-eq a b = (to, from)
  where
    to : target_info_equal a b ≡ true → a ≡ b
    to h = ground (
      arith,
      float_format_eq-eq a.c_float_format b.c_float_format,
      float_format_eq-eq a.c_double_format b.c_double_format,
    )

    from : a ≡ b → target_info_equal a b ≡ true
    from e = ground (
      arith,
      float_format_eq-eq a.c_float_format b.c_float_format,
      float_format_eq-eq a.c_double_format b.c_double_format,
    )
