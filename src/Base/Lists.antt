-- ===== src/Base/Lists.antt =====
-- Lists measured by native numbers, a predicate on every member, and concatenated images.
use Prim.Native.Nat.{ℕ, zero, suc, ◌+◌}
use mathlib.Core.Path.{◌≡◌, refl}
use mathlib.Core.List.{List, [], ◌∷◌, ◌++◌, append_assoc}
use native.Mathlib.Omega.{arith}

module _ {ℓ} {A : Type ℓ} where
  abbrev pub length : List A → ℕ
  length [] = 0
  length (x ∷ xs) = suc (length xs)

  abbrev pub take : ℕ → List A → List A
  take zero xs = []
  take (suc n) [] = []
  take (suc n) (x ∷ xs) = x ∷ take n xs

  abbrev pub drop : ℕ → List A → List A
  drop zero xs = xs
  drop (suc n) [] = []
  drop (suc n) (x ∷ xs) = drop n xs

  abbrev pub get_or : List A → ℕ → A → A
  get_or [] i d = d
  get_or (x ∷ xs) zero d = x
  get_or (x ∷ xs) (suc i) d = get_or xs i d

  pub length-append : (xs ys : List A) → length (xs ++ ys) ≡ length xs + length ys
  length-append [] ys = omega arith
  length-append (x ∷ xs) ys = omega (arith, length-append xs ys)

-- The predicate holds of every member.
abbrev pub Each {ℓ κ} : {A : Type ℓ} → (A → Type κ) → List A → Type κ
Each Holds [] = Unit
Each Holds (a ∷ rest) = Holds a × Each Holds rest

pub Each-append {ℓ κ} :
    {A : Type ℓ} (Holds : A → Type κ) (front back : List A)
    → Each Holds front
    → Each Holds back
    → Each Holds (front ++ back)
Each-append Holds [] back f b = b
Each-append Holds (a ∷ rest) back f b = (f.0, Each-append Holds rest back f.1 b)

pub Each-front {ℓ κ} :
    {A : Type ℓ} (Holds : A → Type κ) (front back : List A)
    → Each Holds (front ++ back)
    → Each Holds front
Each-front Holds [] back e = tt
Each-front Holds (a ∷ rest) back e = (e.0, Each-front Holds rest back e.1)

module _ {ℓ κ} {A : Type ℓ} {B : Type κ} where
  -- The images of the members, one after the other.
  abbrev pub concat_map : (A → List B) → List A → List B
  concat_map f [] = []
  concat_map f (x ∷ xs) = f x ++ concat_map f xs

  pub concat_map-append :
      (f : A → List B) (xs ys : List A)
      → concat_map f (xs ++ ys) ≡ concat_map f xs ++ concat_map f ys
  concat_map-append f [] ys = refl
  concat_map-append f (x ∷ xs) ys = rw (concat_map-append f xs ys, append_assoc)
