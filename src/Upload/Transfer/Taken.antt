-- ===== src/Upload/Transfer/Taken.antt =====
-- Which transfers the loader takes, and how a sequence of them ends.
use mathlib.Core.Path.{subst}
use midex_class_firmware.Base.{
  ℕ, ◌≡◌, ◌⊎◌, ◌||◌, ◌==◌, sym, ap, refl, inl, inr, true, false, Bool-cases, List, [], ◌∷◌, ◌++◌,
  length, append_assoc, append-nil, arith,
}
use midex_class_firmware.Upload.Transfer.{
  Transfer, Reply, moved, no_device, other_error, is_no_device, cpucs_addr, is_zero,
}

abbrev pub hold : Transfer
hold = record { addr = cpucs_addr; payload = 1 ∷ [] }

abbrev pub go : Transfer
go = record { addr = cpucs_addr; payload = 0 ∷ [] }

-- What `anchor_write` counts as taken: all bytes are reported moved, or none.
pub zero_taken : (n : ℕ) (r : Reply) → is_zero n r ≡ true → (r ≡ moved n) ⊎ (r ≡ moved 0)
zero_taken n (moved k) e = elim (Bool-cases (k == n)) [
  | inl f ↦ inl (ap moved (ground (arith, f)))
  | inr f ↦ inr (ap moved (ground (arith, e, f)))
]
zero_taken n no_device e = absurd (cc e)
zero_taken n other_error e = absurd (cc e)

pub zero_refused : (n : ℕ) (r : Reply) → is_zero n r ≡ false → ¬ ((r ≡ moved n) ⊎ (r ≡ moved 0))
zero_refused n r e (inl f) = ground (arith, rw f at e)
zero_refused n r e (inr f) = ground (arith, rw f at e)

Gone : Reply → Type 0
Gone r = ((r ≡ moved 1) ⊎ (r ≡ moved 0)) ⊎ (r ≡ no_device)

Gone-cases :
    (r : Reply)
    → (((is_zero 1 r || is_no_device r) ≡ true) × Gone r)
      ⊎ (((is_zero 1 r || is_no_device r) ≡ false) × ¬ Gone r)
unfolding Gone
Gone-cases no_device = inl (refl, inr refl)
Gone-cases other_error = inr (
  refl,
  λ g. elim g [
    | inl h ↦ elim h [ inl e ↦ absurd (cc e) | inr e ↦ absurd (cc e) ]
    | inr e ↦ absurd (cc e)
  ],
)
Gone-cases (moved k) = elim (Bool-cases (is_zero 1 (moved k))) [
  | inl e ↦ inl (rw e refl, inl (zero_taken 1 (moved k) e))
  | inr e ↦
      inr (rw e refl, λ g. elim g [ inl h ↦ zero_refused 1 (moved k) e h | inr d ↦ absurd (cc d) ])
]

module _ (reply : List Transfer → Transfer → Reply) where
  -- The loader takes the transfer: libusb reports all its bytes moved, or none, which the source takes
  -- for success too.
  abbrev pub IsTaken : List Transfer → Transfer → Type 0
  IsTaken before t = (reply before t ≡ moved (length t.payload)) ⊎ (reply before t ≡ moved 0)

  -- Each of the transfers is taken, behind those before it.
  abbrev pub AllTaken : List Transfer → List Transfer → Type 0
  AllTaken before [] = Unit
  AllTaken before (t ∷ ts) = IsTaken before t × AllTaken (before ++ (t ∷ [])) ts

  -- The last of the transfers is not taken, and those before it are.
  pub data IsCutShort : List Transfer → List Transfer → Type 0 where
    refused :
        {before : List Transfer} {t : Transfer} → ¬ IsTaken before t → IsCutShort before (t ∷ [])
    later :
        {before : List Transfer} {t : Transfer} {ts : List Transfer}
        → IsTaken before t
        → IsCutShort (before ++ (t ∷ [])) ts
        → IsCutShort before (t ∷ ts)

  pub AllTaken-append :
      (before ts us : List Transfer)
      → AllTaken before ts
      → AllTaken (before ++ ts) us
      → AllTaken before (ts ++ us)
  AllTaken-append before [] us a b = subst (λ l. AllTaken l us) (append-nil before) b
  AllTaken-append before (t ∷ ts) us a b = (
    a.0,
    AllTaken-append (before ++ (t ∷ [])) ts us a.1
        (subst (λ l. AllTaken l us) (sym (append_assoc before (t ∷ []) ts)) b),
  )

  pub IsCutShort-behind :
      (before ts us : List Transfer)
      → AllTaken before ts
      → IsCutShort (before ++ ts) us
      → IsCutShort before (ts ++ us)
  IsCutShort-behind before [] us a b = subst (λ l. IsCutShort l us) (append-nil before) b
  IsCutShort-behind before (t ∷ ts) us a b = later a.0 (
      IsCutShort-behind (before ++ (t ∷ [])) ts us a.1
        (subst (λ l. IsCutShort l us) (sym (append_assoc before (t ∷ []) ts)) b))

  -- The letting go behind these transfers: it is taken, or the device has left the bus.
  abbrev pub IsGone : List Transfer → Type 0
  IsGone before = IsTaken before go ⊎ (reply before go ≡ no_device)

  pub go-cases :
      (before : List Transfer)
      → let ok = is_zero 1 (reply before go) || is_no_device (reply before go) in
        ((ok ≡ true) × IsGone before) ⊎ ((ok ≡ false) × ¬ IsGone before)
  go-cases before = unfold Gone in Gone-cases (reply before go)
