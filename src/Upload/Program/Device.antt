-- ===== src/Upload/Program/Device.antt =====
-- The device that `open_midex` opens.
use mathlib.Core.Path.{subst}
use midex_class_firmware.Base.{
  ◌⊎◌, ℕ, suc, sym, ◌+◌, ◌≡◌, ◌∙◌, ap, refl, Bool, true, false, Bool-cases, inl, inr, ◌&&◌, ◌==◌,
  if◌then◌else◌, Option, none, some, List, [], ◌∷◌, ◌++◌, length, Each, arith,
}
use midex_class_firmware.Upload.Program.{Attached, is_wanted, open_midex}

-- A device that can be read and whose numbers are those wanted.
abbrev pub fits : ℕ → Option ℕ → Attached → Bool
fits vid pid d = d.readable && (d.id_vendor == vid) && is_wanted pid d.id_product

-- The device at index `i` is the first that fits, and whether it can be opened.
pub record First (vid : ℕ) (pid : Option ℕ) (ds : List Attached) (i : ℕ) (opens : Bool)
    : Type 0 where
  pub before : List Attached
  pub device : Attached
  pub after : List Attached
  pub split : ds ≡ before ++ (device ∷ after)
  pub place : length before ≡ i
  pub passed : Each (λ d. fits vid pid d ≡ false) before
  pub match : fits vid pid device ≡ true
  pub openable : device.opens ≡ opens

-- No device fits, or the first that does cannot be opened.
abbrev pub NoneOpens : ℕ → Option ℕ → List Attached → Type 0
NoneOpens vid pid ds = Each (λ d. fits vid pid d ≡ false) ds ⊎ ((j : ℕ) × First vid pid ds j false)

module _ (vid : ℕ) (pid : Option ℕ) where
  -- One device, by whether it fits.
  open_midex-cons :
      (i : ℕ) (d : Attached) (ds : List Attached)
      → open_midex vid pid i (d ∷ ds) ≡ (
          if fits vid pid d
          then (if d.opens then some i else none)
          else open_midex vid pid (i + 1) ds)
  unfolding open_midex
  open_midex-cons i d ds = ground arith

  passed_by :
      (d : Attached) (ds : List Attached) (j : ℕ) (b : Bool)
      → fits vid pid d ≡ false
      → First vid pid ds j b
      → First vid pid (d ∷ ds) (suc j) b
  passed_by d ds j b e f = record {
    before = d ∷ f.before;
    device = f.device;
    after = f.after;
    split = ap (λ l. d ∷ l) f.split;
    place = ap suc f.place;
    passed = (e, f.passed);
    match = f.match;
    openable = f.openable;
  }

  found :
      (d : Attached) (ds : List Attached) (b : Bool)
      → fits vid pid d ≡ true
      → d.opens ≡ b
      → First vid pid (d ∷ ds) 0 b
  found d ds b good open_ = record {
    before = [];
    device = d;
    after = ds;
    split = refl;
    place = refl;
    passed = tt;
    match = good;
    openable = open_;
  }

  only_if : (b : Bool) (i k : ℕ) → (if b then some i else none) ≡ some k → (b ≡ true) × (i ≡ k)
  only_if true i k e = (refl, cc e)
  only_if false i k e = absurd (cc e)

  open_midex-nil : (i : ℕ) → open_midex vid pid i [] ≡ none
  unfolding open_midex
  open_midex-nil i = refl

  from_index :
      (ds : List Attached) (i k : ℕ)
      → open_midex vid pid i ds ≡ some k
      → (j : ℕ) × (k ≡ i + j) × First vid pid ds j true
  from_index [] i k e = absurd (cc (sym (open_midex-nil i) ∙ e))
  from_index (d ∷ ds) i k e = elim (Bool-cases (fits vid pid d)) [
    | inr off ↦
        let (j, place, f) =
          from_index ds (i + 1) k (sym (rw off at (open_midex-cons i d ds)) ∙ e) in
        (suc j, omega (arith, place), passed_by d ds j true off f)
    | inl good ↦
        let (open_, same) = only_if d.opens i k (sym (rw good at (open_midex-cons i d ds)) ∙ e) in
        (0, omega (arith, same), found d ds true good open_)
  ]

  pub open_midex-First :
      (ds : List Attached) (k : ℕ) → open_midex vid pid 0 ds ≡ some k → First vid pid ds k true
  open_midex-First ds k e =
      let (j, place, f) = from_index ds 0 k e in
      subst (λ n. First vid pid ds n true) (omega (arith, place)) f

  later_none :
      (d : Attached) (ds : List Attached)
      → fits vid pid d ≡ false
      → NoneOpens vid pid ds
      → NoneOpens vid pid (d ∷ ds)
  later_none d ds off (inl all) = inl (off, all)
  later_none d ds off (inr (j, f)) = inr (suc j, passed_by d ds j false off f)

  only_if_none : (b : Bool) (i : ℕ) → (if b then some i else none) ≡ none → b ≡ false
  only_if_none true i e = absurd (cc e)
  only_if_none false i e = refl

  pub open_midex-NoneOpens :
      (ds : List Attached) (i : ℕ) → open_midex vid pid i ds ≡ none → NoneOpens vid pid ds
  open_midex-NoneOpens [] i e = inl tt
  open_midex-NoneOpens (d ∷ ds) i e = elim (Bool-cases (fits vid pid d)) [
    | inr off ↦
        later_none d ds off
          (open_midex-NoneOpens ds (i + 1) (sym (rw off at (open_midex-cons i d ds)) ∙ e))
    | inl good ↦
        let shut = only_if_none d.opens i (sym (rw good at (open_midex-cons i d ds)) ∙ e) in
        inr (0, found d ds false good shut)
  ]
