-- ===== src/Base/Sums.antt =====
-- Sums over the ports.
use Prim.Native.Nat.{ℕ, zero, suc, ◌+◌, ◌<◌, ◌≤◌}
use mathlib.Core.Path.{◌≡◌, refl, ap₂}
use mathlib.Core.Logic.{◌⊎◌, inl, inr}
use native.Mathlib.Decide.{ℕ_discrete}
use native.Mathlib.Omega.{arith}

-- A sum over the ports below `k`.
abbrev pub sum : ℕ → (ℕ → ℕ) → ℕ
sum zero f = 0
sum (suc k) f = f k + sum k f

module _ (f g : ℕ → ℕ) where
  pub sum_le : (k : ℕ) → ((p : ℕ) → p < k → f p ≤ g p) → sum k f ≤ sum k g
  sum_le zero h = omega arith
  sum_le (suc k) h = omega (arith, h k (omega arith), sum_le k (λ p l. h p (omega arith)))

pub sum_same : (f g : ℕ → ℕ) (k : ℕ) → ((p : ℕ) → p < k → f p ≡ g p) → sum k f ≡ sum k g
sum_same f g zero h = refl
sum_same f g (suc k) h =
    ap₂ (λ x y. x + y) (h k (omega arith)) (sum_same f g k (λ p l. h p (omega arith)))

-- Where a sum is zero, so is each of its terms.
pub sum_zero : (f : ℕ → ℕ) (k p : ℕ) → sum k f ≡ 0 → p < k → f p ≡ 0
sum_zero f zero p e h = absurd (omega arith)
sum_zero f (suc k) p e h = elim (ℕ_discrete p k) [
  | yes d ↦ rw d (omega (arith, e))
  | no n ↦ sum_zero f k p (omega (arith, e)) (omega arith)
]

-- A term that gets smaller makes the sum smaller.
pub sum_less :
    (f g : ℕ → ℕ) (k : ℕ)
    → ((p : ℕ) → p < k → (f p + 1 ≤ g p) ⊎ (f p ≡ g p))
    → (sum k f + 1 ≤ sum k g) ⊎ ((p : ℕ) → p < k → f p ≡ g p)
sum_less f g zero h = inr (λ p l. absurd (omega arith))
sum_less f g (suc k) h = elim (sum_less f g k (λ p l. h p (omega arith))) [
  | inl below ↦ inl (elim (h k (omega arith)) [
    | inl l ↦ omega (arith, below, l)
    | inr e ↦ omega (arith, below, e)
  ])
  | inr same ↦ elim (h k (omega arith)) [
    | inl l ↦ inl (omega (arith, l, sum_le f g k (λ p m. omega (arith, same p m))))
    | inr e ↦ inr (λ p m. elim (ℕ_discrete p k) [ yes d ↦ rw d e | no n ↦ same p (omega arith) ])
  ]
]
