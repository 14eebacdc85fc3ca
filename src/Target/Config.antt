-- ===== src/Target/Config.antt =====
-- TargetConfig of src/include/target/target_config.h, and src/target/target_config.c.
use Prim.Native.String.{String}
use text.Mathlib.Text.{◌==◌ as ◌str_eq◌}
use coglet.Prelude.{Bool, Option, none, some, if◌then◌else◌}

pub data TargetArch : Type 0 where
  x86_64 : TargetArch
  aarch64 : TargetArch

pub data TargetOs : Type 0 where
  linux : TargetOs
  windows : TargetOs

pub data TargetAbi : Type 0 where
  sysv : TargetAbi
  windows : TargetAbi

pub record TargetConfig : Type 0 where
  pub arch : TargetArch
  pub os : TargetOs
  pub abi : TargetAbi

abbrev pub target_config : TargetArch → TargetOs → TargetAbi → TargetConfig
target_config arch os abi = record { arch = arch; os = os; abi = abi }

-- `none` is the result 0.
unfoldable pub target_parse_config : String → Option TargetConfig
target_parse_config value =
    if value str_eq "x86_64-linux"
    then some (target_config TargetArch.x86_64 TargetOs.linux TargetAbi.sysv)
    else if value str_eq "aarch64-linux"
    then some (target_config TargetArch.aarch64 TargetOs.linux TargetAbi.sysv)
    else if value str_eq "x86_64-windows"
    then some (target_config TargetArch.x86_64 TargetOs.windows TargetAbi.windows)
    else if value str_eq "aarch64-windows"
    then some (target_config TargetArch.aarch64 TargetOs.windows TargetAbi.windows)
    else none

-- The two arguments are what the preprocessor tests of the build.
unfoldable pub target_config_native : Bool → Bool → TargetConfig
target_config_native is_arm64 is_win32 = record {
  arch = if is_arm64 then TargetArch.aarch64 else TargetArch.x86_64;
  os = if is_win32 then TargetOs.windows else TargetOs.linux;
  abi = if is_win32 then TargetAbi.windows else TargetAbi.sysv;
}
