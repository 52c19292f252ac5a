-- ===== src/Prelude/Family.antt =====
-- Families indexed by thread or address.
use Prim.Native.Nat.{ℕ}
use mathlib.Core.Path.{◌≡◌, refl}
use mathlib.Core.Logic.{◌≢◌}
use mathlib.Core.Bool.{Bool, true, false}
use native.Mathlib.Omega.{arith}
use liburcu.Prelude.Tests.{◌==◌, if◌then◌else◌}

-- The family with `a` at index `i`.
abbrev pub update {ℓ} : {A : Type ℓ} → (ℕ → A) → ℕ → A → ℕ → A
update f i a j = if j == i then a else f j

-- What holds of both branches holds of the conditional.
pub if_elim {ℓ κ} :
    {A : Type ℓ} (P : A → Type κ) {a b : A} (c : Bool)
    → (c ≡ true → P a)
    → (c ≡ false → P b)
    → P (if c then a else b)
if_elim P true f g = f refl
if_elim P false f g = g refl

-- What holds of the new member, and of each other one, holds of the family.
pub update_elim {ℓ κ} :
    {A : Type ℓ} (P : A → Type κ) (f : ℕ → A) (i : ℕ) (a : A) (j : ℕ)
    → (j ≡ i → P a)
    → (j ≢ i → P (f j))
    → P (update f i a j)
update_elim P f i a j g h = if_elim P (j == i) (λ k. g (ground arith)) (λ k. h (ground arith))
