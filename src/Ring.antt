-- ===== src/Ring.antt =====
-- Ring buffers with a power-of-two size and one reserved slot: the bytes that a ring holds.
use midex_class_firmware.Base.{
  ℕ, zero, suc, ◌+◌, ◌%◌, ◌<◌, ◌≡◌, ◌≢◌, ◌↔◌, ◌≤◌, ◌⊎◌, inl, inr, refl, ap, ap₂, List, [], ◌∷◌,
  ◌++◌, ◌∙◌, sym, ◌-◌, arith, write, write_self, write_ne, length,
}
use native.Mathlib.Nat.{add-zero, mod-lt, mod-eq_of_lt, mod-eq-sub-mod, mod-add-mod}
use native.Mathlib.Decide.{dec_lt, ℕ_discrete}

module _ (size : ℕ) where
  -- The `n` bytes from index `t` on, going round at `size`.
  abbrev pub span : (ℕ → ℕ) → ℕ → ℕ → List ℕ
  span m t zero = []
  span m t (suc n) = m t ∷ span m ((t + 1) % size) n

  pub length-span : (m : ℕ → ℕ) (t n : ℕ) → length (span m t n) ≡ n
  length-span m t zero = refl
  length-span m t (suc n) = ap suc (length-span m ((t + 1) % size) n)

  shift : (t n : ℕ) → t < size → (t + suc n) % size ≡ ((t + 1) % size + n) % size
  shift t n h = ap (λ k. k % size) (omega arith) ∙ sym (mod-add-mod (t + 1) size n)

  ne : (t n : ℕ) → t < size → suc n < size → t ≢ (t + suc n) % size
  ne t n h k = elim (dec_lt (t + suc n) size) [
    | yes l ↦ omega (arith, mod-eq_of_lt l)
    | no g ↦ omega (
      arith,
      mod-eq-sub-mod {n = t + suc n} {m = size} (omega arith),
      mod-eq_of_lt {n = t + suc n - size} {m = size} (omega arith),
    )
  ]

  -- Writing the slot behind a span makes the span longer by that byte.
  pub span-write :
      (m : ℕ → ℕ) (t n h v : ℕ)
      → t < size
      → n < size
      → h ≡ (t + n) % size
      → span (write m h v) t (suc n) ≡ span m t n ++ (v ∷ [])
  span-write m t zero h v p q e =
      let at : h ≡ t = e ∙ (rw add-zero (mod-eq_of_lt p)) in
      rw at (ap (λ x. x ∷ []) (write_self m t v))
  span-write m t (suc n) h v p q e = ap₂ ◌∷◌ (write_ne m h t v (rw e (ne t n p q))) (
      span-write m ((t + 1) % size) n h v (mod-lt (t + 1) (omega arith)) (omega arith)
        (e ∙ shift t n p))

  -- How many bytes stand between the read index `t` and the write index `h`.
  abbrev pub queued : ℕ → ℕ → ℕ
  queued h t = (h + size - t) % size

  queued_up : (h t : ℕ) → t ≤ h → h < size → queued h t ≡ h - t
  queued_up h t l p =
      mod-eq-sub-mod {n = h + size - t} {m = size} (omega arith)
      ∙ ap (λ k. k % size) (omega arith)
      ∙ mod-eq_of_lt {n = h - t} {m = size} (omega arith)

  queued_round : (h t : ℕ) → h < t → t < size → queued h t ≡ h + size - t
  queued_round h t l p = mod-eq_of_lt (omega arith)

  next_in : (x : ℕ) → x + 1 < size → (x + 1) % size ≡ x + 1
  next_in x p = mod-eq_of_lt p

  next_round : (x : ℕ) → x + 1 ≡ size → (x + 1) % size ≡ 0
  next_round x p = omega (
    arith,
    mod-eq-sub-mod {n = x + 1} {m = size} (omega arith),
    mod-eq_of_lt {n = 0} {m = size} (omega arith),
  )

  pub queued-lt : (h t : ℕ) → t < size → queued h t < size
  queued-lt h t p = mod-lt (h + size - t) (omega arith)

  head_at : (h t : ℕ) → h < size → t < size → h ≡ (t + queued h t) % size
  head_at h t p q = elim (dec_lt h t) [
    | yes l ↦ omega (
      arith,
      queued_round h t l q,
      mod-eq-sub-mod {n = t + (h + size - t)} {m = size} (omega arith),
      mod-eq_of_lt p,
      ap (λ k. (t + k) % size) (queued_round h t l q),
      ap (λ k. k % size) {x = t + (h + size - t) - size} {y = h} (omega arith),
    )
    | no g ↦ omega (
      arith,
      queued_up h t (omega arith) p,
      mod-eq_of_lt p,
      ap (λ k. (t + k) % size) (queued_up h t (omega arith) p),
      ap (λ k. k % size) {x = t + (h - t)} {y = h} (omega arith),
    )
  ]

  queued_up_or_round :
      (h t : ℕ)
      → h < size
      → t < size
      → ((t ≤ h) × (queued h t ≡ h - t)) ⊎ ((h < t) × (queued h t ≡ h + size - t))
  queued_up_or_round h t p q = elim (dec_lt h t) [
    | yes l ↦ inr (l, queued_round h t l q)
    | no g ↦ inl (omega arith, queued_up h t (omega arith) p)
  ]

  -- The ring is full exactly when the next write index would meet the read index.
  pub full_iff : (h t : ℕ) → h < size → t < size → ((h + 1) % size ≡ t) ↔ (queued h t + 1 ≡ size)
  full_iff h t p q = elim (ℕ_discrete (h + 1) size) [
    | yes e ↦ rw (next_round h e) (omega (arith, queued_up_or_round h t p q))
    | no e ↦ rw (next_in h (omega arith)) (omega (arith, queued_up_or_round h t p q))
  ]

  pub empty_iff : (h t : ℕ) → h < size → t < size → (h ≡ t) ↔ (queued h t ≡ 0)
  empty_iff h t p q = omega (arith, queued_up_or_round h t p q)

  queued-push :
      (h t : ℕ)
      → h < size
      → t < size
      → queued h t + 1 < size
      → queued ((h + 1) % size) t ≡ suc (queued h t)
  queued-push h t p q r = elim (ℕ_discrete (h + 1) size) [
    | yes e ↦
        rw (next_round h e)
          (omega (arith, queued_up_or_round h t p q, queued_up_or_round 0 t (omega arith) q))
    | no e ↦
        rw (next_in h (omega arith))
          (omega (arith, queued_up_or_round h t p q, queued_up_or_round (h + 1) t (omega arith) q))
  ]

  queued-pop :
      (h t : ℕ) → h < size → t < size → h ≢ t → queued h t ≡ suc (queued h ((t + 1) % size))
  queued-pop h t p q r = elim (ℕ_discrete (t + 1) size) [
    | yes e ↦
        rw (next_round t e)
          (omega (arith, queued_up_or_round h t p q, queued_up_or_round h 0 p (omega arith)))
    | no e ↦
        rw (next_in t (omega arith))
          (omega (arith, queued_up_or_round h t p q, queued_up_or_round h (t + 1) p (omega arith)))
  ]

  -- The bytes in the ring, oldest first.
  abbrev pub bytes : (ℕ → ℕ) → ℕ → ℕ → List ℕ
  bytes m h t = span m t (queued h t)

  pub bytes-push :
      (m : ℕ → ℕ) (h t v : ℕ)
      → h < size
      → t < size
      → queued h t + 1 < size
      → bytes (write m h v) ((h + 1) % size) t ≡ bytes m h t ++ (v ∷ [])
  bytes-push m h t v p q r =
      ap (span (write m h v) t) (queued-push h t p q r)
      ∙ span-write m t (queued h t) h v q (queued-lt h t q) (head_at h t p q)

  pub bytes-pop :
      (m : ℕ → ℕ) (h t : ℕ)
      → h < size
      → t < size
      → h ≢ t
      → bytes m h t ≡ m t ∷ bytes m h ((t + 1) % size)
  bytes-pop m h t p q r = ap (span m t) (queued-pop h t p q r)
