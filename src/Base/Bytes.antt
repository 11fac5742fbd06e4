-- ===== src/Base/Bytes.antt =====
-- Facts about bytes, by evaluation at all values.
use Prim.Native.Nat.{ℕ, zero, suc, ◌+◌, ◌-◌, ◌*◌, ◌/◌, ◌%◌, ◌<◌, bit_or}
use mathlib.Core.Path.{◌≡◌, refl}
use mathlib.Core.Bool.{Bool, true, false}
use native.Mathlib.Omega.{arith}
use midex_class_firmware.Base.Tests.{◌==◌, ==_iff, if◌then◌else◌}

-- The test holds at every number below the bound.
unfoldable pub passes_below : ℕ → (ℕ → Bool) → Bool
passes_below zero test = true
passes_below (suc bound) test = if test bound then passes_below bound test else false

pub passes_below_sound :
    (bound : ℕ) (test : ℕ → Bool) (k : ℕ)
    → passes_below bound test ≡ true
    → k < bound
    → test k ≡ true
unfolding passes_below
passes_below_sound zero test k passed h = absurd (omega arith)
passes_below_sound (suc bound) test k passed h =
    let below = passes_below_sound bound test k in ground (arith, below)

abbrev same : Bool → Bool → Bool
same true b = b
same false b = if b then false else true

same_sound : (a b : Bool) → same a b ≡ true → a ≡ b
same_sound true true e = refl
same_sound true false e = absurd (cc e)
same_sound false true e = absurd (cc e)
same_sound false false e = refl

-- Two tests say the same of every number below the bound.
abbrev pub agree_below : ℕ → (ℕ → Bool) → (ℕ → Bool) → Bool
agree_below bound f g = passes_below bound (λ k. same (f k) (g k))

pub agree_below_sound :
    (bound : ℕ) (f g : ℕ → Bool) (k : ℕ) → agree_below bound f g ≡ true → k < bound → f k ≡ g k
agree_below_sound bound f g k e h =
    same_sound (f k) (g k) (passes_below_sound bound (λ j. same (f j) (g j)) k e h)

-- Bit `k` of a register, for a mask of weight `w = 2 ^ k`: `r & w`, as a truth value.
abbrev pub has_bit : ℕ → ℕ → Bool
has_bit w r = r / w % 2 == 1

nibbles_table : passes_below 256 (λ x. bit_or (x / 16 * 16) (x % 16) == x) ≡ true
unfolding passes_below
nibbles_table = refl

nibbles_at : (x : ℕ) → x < 256 → bit_or (x / 16 * 16) (x % 16) ≡ x
nibbles_at x h = (==_iff _ x).0 (passes_below_sound 256 _ x nibbles_table h)

-- `(hi << 4) | lo` of two nibbles.
pub or_nibbles : (hi lo : ℕ) → hi < 16 → lo < 16 → bit_or (hi * 16) lo ≡ hi * 16 + lo
or_nibbles hi lo p q =
    let e : (hi * 16 + lo) / 16 ≡ hi = omega arith in
    let f : (hi * 16 + lo) % 16 ≡ lo = omega arith in
    rw (e, f) at (nibbles_at (hi * 16 + lo) (omega arith))

-- `r |= w` and `r &= ~w` for a mask `w` of one bit.
abbrev pub set_bit : ℕ → ℕ → ℕ
set_bit w r = if has_bit w r then r else r + w

abbrev pub clear_bit : ℕ → ℕ → ℕ
clear_bit w r = if has_bit w r then r - w else r
