-- ===== src/Prelude/Powers.antt =====
-- Powers of two.
use native.Mathlib.Nat.{pow-suc, zero-add, suc-add, pow-le-pow_right}
use Prim.Native.Nat.{ℕ, zero, suc, ◌+◌, ◌*◌, ◌^◌, ◌≤◌, ◌<◌}
use mathlib.Core.Path.{◌≡◌, ap}
use native.Mathlib.Omega.{arith}

pub pow_pos : (n : ℕ) → 0 < 2 ^ n
pow_pos zero = omega arith
pow_pos (suc n) = simp pow-suc (omega (arith, pow_pos n))

pub pow-add : (m n : ℕ) → 2 ^ (m + n) ≡ 2 ^ m * 2 ^ n
pow-add zero n = rw zero-add (omega arith)
pow-add (suc m) n = rw suc-add (simp pow-suc (omega (arith, ap (λ (t : ℕ). t * 2) (pow-add m n))))

pub pow_mono : (m n : ℕ) → m ≤ n → 2 ^ m ≤ 2 ^ n
pow_mono m n h = pow-le-pow_right (omega arith) h
