-- ===== src/Prelude/Multiples.antt =====
-- Multiples, with the factor at hand.
use Prim.Native.Nat.{ℕ, zero, suc, ◌*◌, ◌<◌}
use mathlib.Core.Path.{◌≡◌}
use native.Mathlib.Omega.{arith}

-- `n` is a multiple of `a`.
abbrev pub Multiple : ℕ → ℕ → Type 0
Multiple a n = (k : ℕ) × (n ≡ k * a)

pub divisor-pos : {a n : ℕ} → 0 < n → Multiple a n → 0 < a
divisor-pos {a = zero} h (k, e) = absurd (omega (arith, e))
divisor-pos {a = suc a} h m = omega arith
