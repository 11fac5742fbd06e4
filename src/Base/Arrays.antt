-- ===== src/Base/Arrays.antt =====
-- A C array in XDATA is a function from the index; a write gives the function anew at one index.
-- `for_ports` is a loop `for (p = 0; p < k; p++)`.
use Prim.Native.Nat.{ℕ, zero, suc, ◌+◌, ◌<◌, ◌≤◌}
use mathlib.Core.Path.{◌≡◌, refl, sym, ap, subst, ◌∙◌}
use native.Mathlib.Decide.{ℕ_discrete}
use mathlib.Core.Logic.{◌≢◌}
use native.Mathlib.Omega.{arith}
use midex_class_firmware.Base.Tests.{◌==◌, if◌then◌else◌}

module _ {ℓ} {A : Type ℓ} where
  abbrev pub write : (ℕ → A) → ℕ → A → ℕ → A
  write m i v j = if j == i then v else m j

  pub write_self : (m : ℕ → A) (i : ℕ) (v : A) → write m i v i ≡ v
  write_self m i v = ground arith

  pub write_ne : (m : ℕ → A) (i j : ℕ) (v : A) → j ≢ i → write m i v j ≡ m j
  write_ne m i j v h = ground arith

module _ {ℓ} {S : Type ℓ} (body : ℕ → S → S) where
  -- The rounds `p`, `p + 1`, ... of a loop, `k` of them.
  unfoldable pub rounds_from : ℕ → ℕ → S → S
  rounds_from p zero s = s
  rounds_from p (suc k) s = rounds_from (p + 1) k (body p s)

  unfoldable pub for_ports : ℕ → S → S
  unfolding rounds_from
  for_ports k s = rounds_from 0 k s

module _ {ℓ κ} {S : Type ℓ} (body : ℕ → S → S) (P : S → Type κ) where
  rounds_from_inv :
      (p k : ℕ) (s : S)
      → ((q : ℕ) (t : S) → q < p + k → P t → P (body q t))
      → P s
      → P (rounds_from body p k s)
  unfolding rounds_from
  rounds_from_inv p zero s step h = h
  rounds_from_inv p (suc k) s step h =
      rounds_from_inv (p + 1) k (body p s) (λ q t l. step q t (omega arith))
        (step p s (omega arith) h)

  -- What every round keeps, the loop keeps.
  pub for_ports_inv :
      (k : ℕ) (s : S)
      → ((q : ℕ) (t : S) → q < k → P t → P (body q t))
      → P s
      → P (for_ports body k s)
  unfolding for_ports
  for_ports_inv k s step h = rounds_from_inv 0 k s (λ q t l. step q t (omega arith)) h

-- The last round of a loop.
module _ {ℓ} {S : Type ℓ} (body : ℕ → S → S) where
  rounds_from_last :
      (p k : ℕ) (s : S) → rounds_from body p (suc k) s ≡ body (p + k) (rounds_from body p k s)
  unfolding rounds_from
  rounds_from_last p zero s = ap (λ q. body q s) (omega arith)
  rounds_from_last p (suc k) s =
      rounds_from_last (p + 1) k (body p s)
      ∙ ap (λ q. body q (rounds_from body (p + 1) k (body p s))) (omega arith)

  pub for_ports_none : (s : S) → for_ports body 0 s ≡ s
  unfolding for_ports rounds_from
  for_ports_none s = refl

  pub for_ports_last : (k : ℕ) (s : S) → for_ports body (suc k) s ≡ body k (for_ports body k s)
  unfolding for_ports
  for_ports_last k s =
      rounds_from_last 0 k s ∙ ap (λ q. body q (rounds_from body 0 k s)) (omega arith)

module _ {ℓ κ} {S : Type ℓ} {V : Type κ} (body : ℕ → S → S) (view : S → V) (q : ℕ) where
  rounds_from_other :
      (p k : ℕ) (s : S)
      → ((r : ℕ) (t : S) → r ≢ q → view (body r t) ≡ view t)
      → q < p
      → view (rounds_from body p k s) ≡ view s
  unfolding rounds_from
  rounds_from_other p zero s other h = refl
  rounds_from_other p (suc k) s other h =
      rounds_from_other (p + 1) k (body p s) other (omega arith) ∙ other p s (omega arith)

  rounds_from_beyond :
      (p k : ℕ) (s : S)
      → ((r : ℕ) (t : S) → r ≢ q → view (body r t) ≡ view t)
      → p + k ≤ q
      → view (rounds_from body p k s) ≡ view s
  unfolding rounds_from
  rounds_from_beyond p zero s other h = refl
  rounds_from_beyond p (suc k) s other h =
      rounds_from_beyond (p + 1) k (body p s) other (omega arith) ∙ other p s (omega arith)

  rounds_from_at {ι} :
      (P : S → Type ι) (after : V → V) (p k : ℕ) (s : S)
      → ((r : ℕ) (t : S) → P t → P (body r t))
      → ((r : ℕ) (t : S) → r ≢ q → view (body r t) ≡ view t)
      → ((t : S) → P t → view (body q t) ≡ after (view t))
      → P s
      → p ≤ q
      → q < p + k
      → view (rounds_from body p k s) ≡ after (view s)
  unfolding rounds_from
  rounds_from_at P after p zero s keep other own i h l = absurd (omega arith)
  rounds_from_at P after p (suc k) s keep other own i h l = elim (ℕ_discrete p q) [
    | yes e ↦
        rounds_from_other (p + 1) k (body p s) other (omega arith)
        ∙ subst (λ r. view (body r s) ≡ after (view s)) (sym e) (own s i)
    | no n ↦
        rounds_from_at P after (p + 1) k (body p s) keep other own (keep p s i) (omega arith)
          (omega arith)
        ∙ ap after (other p s n)
  ]

  -- Where round `q` alone touches the view, the loop does to it what round `q` does to it in a
  -- state with the invariant `P`.
  pub for_ports_at {ι} :
      (P : S → Type ι) (after : V → V) (k : ℕ) (s : S)
      → ((r : ℕ) (t : S) → P t → P (body r t))
      → ((r : ℕ) (t : S) → r ≢ q → view (body r t) ≡ view t)
      → ((t : S) → P t → view (body q t) ≡ after (view t))
      → P s
      → q < k
      → view (for_ports body k s) ≡ after (view s)
  unfolding for_ports
  for_ports_at P after k s keep other own i h =
      rounds_from_at P after 0 k s keep other own i (omega arith) (omega arith)

  -- Rounds that never reach `q` leave its view.
  pub for_ports_past :
      (k : ℕ) (s : S)
      → ((r : ℕ) (t : S) → r ≢ q → view (body r t) ≡ view t)
      → k ≤ q
      → view (for_ports body k s) ≡ view s
  unfolding for_ports
  for_ports_past k s other h = rounds_from_beyond 0 k s other (omega arith)

-- What round `q` brings about and every round keeps, in states with the invariant `P`, holds behind
-- a loop that reaches `q`.
module _ {ℓ κ ι} {S : Type ℓ} (body : ℕ → S → S) (P : S → Type κ) (G : S → Type ι) (q : ℕ) where
  rounds_from_keep :
      (p k : ℕ) (s : S)
      → ((r : ℕ) (t : S) → r < p + k → P t → P (body r t))
      → ((r : ℕ) (t : S) → r < p + k → P t → G t → G (body r t))
      → P s
      → G s
      → G (rounds_from body p k s)
  unfolding rounds_from
  rounds_from_keep p zero s keep stay i g = g
  rounds_from_keep p (suc k) s keep stay i g =
      rounds_from_keep (p + 1) k (body p s) (λ r t l. keep r t (omega arith))
        (λ r t l. stay r t (omega arith)) (keep p s (omega arith) i) (stay p s (omega arith) i g)

  rounds_from_reach :
      (p k : ℕ) (s : S)
      → ((r : ℕ) (t : S) → r < p + k → P t → P (body r t))
      → ((r : ℕ) (t : S) → r < p + k → P t → G t → G (body r t))
      → ((t : S) → P t → G (body q t))
      → P s
      → p ≤ q
      → q < p + k
      → G (rounds_from body p k s)
  unfolding rounds_from
  rounds_from_reach p zero s keep stay own i h l = absurd (omega arith)
  rounds_from_reach p (suc k) s keep stay own i h l = elim (ℕ_discrete p q) [
    | yes e ↦
        rounds_from_keep (p + 1) k (body p s) (λ r t l. keep r t (omega arith))
          (λ r t l. stay r t (omega arith)) (keep p s (omega arith) i)
          (subst (λ r. G (body r s)) (sym e) (own s i))
    | no n ↦
        rounds_from_reach (p + 1) k (body p s) (λ r t l. keep r t (omega arith))
          (λ r t l. stay r t (omega arith)) own (keep p s (omega arith) i) (omega arith)
          (omega arith)
  ]

  pub for_ports_reach :
      (k : ℕ) (s : S)
      → ((r : ℕ) (t : S) → r < k → P t → P (body r t))
      → ((r : ℕ) (t : S) → r < k → P t → G t → G (body r t))
      → ((t : S) → P t → G (body q t))
      → P s
      → q < k
      → G (for_ports body k s)
  unfolding for_ports
  for_ports_reach k s keep stay own i h =
      rounds_from_reach 0 k s (λ r t l. keep r t (omega arith)) (λ r t l. stay r t (omega arith))
        own i (omega arith) (omega arith)

-- What holds before round `q` and every other round keeps is what round `q` starts from; what it
-- brings about and every other round keeps holds behind a loop that reaches `q`.
module _ {ℓ κ ι} {S : Type ℓ} (body : ℕ → S → S) (P : S → Type κ) (G : S → Type ι) (q : ℕ) where
  rounds_from_done :
      (p k : ℕ) (s : S)
      → ((r : ℕ) (t : S) → r ≢ q → G t → G (body r t))
      → q < p
      → G s
      → G (rounds_from body p k s)
  unfolding rounds_from
  rounds_from_done p zero s later h g = g
  rounds_from_done p (suc k) s later h g =
      rounds_from_done (p + 1) k (body p s) later (omega arith)
        (later p s (λ e. absurd (omega arith)) g)

  rounds_from_once :
      (p k : ℕ) (s : S)
      → ((r : ℕ) (t : S) → r ≢ q → P t → P (body r t))
      → ((t : S) → P t → G (body q t))
      → ((r : ℕ) (t : S) → r ≢ q → G t → G (body r t))
      → P s
      → p ≤ q
      → q < p + k
      → G (rounds_from body p k s)
  unfolding rounds_from
  rounds_from_once p zero s before own later i h l = absurd (omega arith)
  rounds_from_once p (suc k) s before own later i h l = elim (ℕ_discrete p q) [
    | yes e ↦
        rounds_from_done (p + 1) k (body p s) later (omega arith)
          (subst (λ r. G (body r s)) (sym e) (own s i))
    | no n ↦
        rounds_from_once (p + 1) k (body p s) before own later (before p s n i) (omega arith)
          (omega arith)
  ]

  pub for_ports_once :
      (k : ℕ) (s : S)
      → ((r : ℕ) (t : S) → r ≢ q → P t → P (body r t))
      → ((t : S) → P t → G (body q t))
      → ((r : ℕ) (t : S) → r ≢ q → G t → G (body r t))
      → P s
      → q < k
      → G (for_ports body k s)
  unfolding for_ports
  for_ports_once k s before own later i h =
      rounds_from_once 0 k s before own later i (omega arith) (omega arith)
