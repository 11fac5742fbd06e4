-- ===== src/Upload/Program/Sizes.antt =====
-- Whatever the file holds, a record's length field counts its bytes.
use mathlib.Core.Path.{subst}
use midex_class_firmware.Base.{
  get_or, ℕ, zero, suc, ◌+◌, ◌*◌, ◌%◌, ◌^◌, ◌<◌, ◌≡◌, sym, refl, Bool-cases, inl, inr, ◌==◌, ◌||◌,
  if◌then◌else◌, Option, Option-cases, none, some, List, [], ◌∷◌, length, Each, arith,
}
use midex_class_firmware.Upload.{
  FwRecord, Line, skipped, based, ended, stored, bad, cons_byte, cons_record, total, hexbyte,
  data_bytes, data_record, extended, parse_record, parse_line, parse_ihex,
}

abbrev pub IsSized : FwRecord → Type 0
IsSized r = (r.len ≡ length r.bytes) × (r.len < 256)

-- Where a round stores a record, it is sized.
abbrev Stores : Line → Type 0
Stores (stored r) = IsSized r
Stores _ = Unit

module _ (strtol : ℕ → ℕ → ℕ × ℕ) where
  hexbyte-lt_256 : (line : List ℕ) (i b : ℕ) → hexbyte strtol line i ≡ some b → b < 256
  unfolding hexbyte
  hexbyte-lt_256 line i b h = ground arith

  length-data_bytes :
      (line : List ℕ) (i k : ℕ) (bs : List ℕ) → data_bytes strtol line i k ≡ some bs → length bs ≡ k
  unfolding data_bytes
  length-data_bytes line i zero bs h = ground arith
  length-data_bytes line i (suc k) bs h =
      pick (hexbyte strtol line i) (data_bytes strtol line (i + 2) k) h
        (length-data_bytes line (i + 2) k)
    where
      pick :
          (x : Option ℕ) (y : Option (List ℕ))
          → cons_byte x y ≡ some bs
          → ((c : List ℕ) → y ≡ some c → length c ≡ k)
          → length bs ≡ suc k
      pick (some b) (some c) h ih = ground (arith, ih c refl)
      pick (some b) none h ih = absurd (cc h)
      pick none y h ih = absurd (cc h)

  data_record-Stores :
      (line : List ℕ) (at len sum : ℕ) → len < 256 → Stores (data_record strtol line at len sum)
  unfolding data_record
  data_record-Stores line at len sum l = elim (Option-cases (data_bytes strtol line 9 len)) [
    | inl e ↦ rw e tt
    | inr (bs, e) ↦ elim (Option-cases (hexbyte strtol line (9 + len * 2))) [
      | inl f ↦ rw (e, f) tt
      | inr (b, f) ↦ elim (Bool-cases ((sum + total bs + b) % 256 == 0)) [
        | inl g ↦ rw (e, f, g) (sym (length-data_bytes line 9 len bs e), l)
        | inr g ↦ rw (e, f, g) tt
      ]
    ]
  ]

  extended-Stores : (line : List ℕ) (type : ℕ) → Stores (extended strtol line type)
  unfolding extended
  extended-Stores line type = elim (Option-cases (hexbyte strtol line 9)) [
    | inl e ↦ rw e tt
    | inr (hi, e) ↦ elim (Option-cases (hexbyte strtol line 11)) [
      | inl f ↦ rw (e, f) tt
      | inr (lo, f) ↦ rw (e, f) tt
    ]
  ]

  -- The round behind the four numbers of the header.
  typed-Stores :
      (base len hi lo type : ℕ) (line : List ℕ)
      → len < 256
      → Stores (
          if type == 0x01
          then ended
          else if (type == 0x02) || (type == 0x04)
          then extended strtol line type
          else if type == 0x00
          then data_record strtol line
              ((base + (hi * 256 + lo)) % 2 ^ 32 % 2 ^ 16)
              len
              (len + hi + lo + type)
          else skipped)
  typed-Stores base len hi lo type line l = elim (Bool-cases (type == 0x01)) [
    | inl e ↦ rw e tt
    | inr e ↦ elim (Bool-cases ((type == 0x02) || (type == 0x04))) [
      | inl f ↦ rw (e, f) (extended-Stores line type)
      | inr f ↦ elim (Bool-cases (type == 0x00)) [
        | inl g ↦ rw (e, f, g) (data_record-Stores line _ len (len + hi + lo + type) l)
        | inr g ↦ rw (e, f, g) tt
      ]
    ]
  ]

  parse_record-Stores : (base : ℕ) (line : List ℕ) → Stores (parse_record strtol base line)
  unfolding parse_record
  parse_record-Stores base line = elim (Option-cases (hexbyte strtol line 1)) [
    | inl e ↦ rw e tt
    | inr (len, e) ↦ elim (Option-cases (hexbyte strtol line 3)) [
      | inl f ↦ rw (e, f) tt
      | inr (hi, f) ↦ elim (Option-cases (hexbyte strtol line 5)) [
        | inl g ↦ rw (e, f, g) tt
        | inr (lo, g) ↦ elim (Option-cases (hexbyte strtol line 7)) [
          | inl k ↦ rw (e, f, g, k) tt
          | inr (type, k) ↦
              rw (e, f, g, k) (typed-Stores base len hi lo type line (hexbyte-lt_256 line 1 len e))
        ]
      ]
    ]
  ]

  parse_line-Stores : (base : ℕ) (line : List ℕ) → Stores (parse_line strtol base line)
  unfolding parse_line
  parse_line-Stores base line = elim (Bool-cases (get_or line 0 0 == 58)) [
    | inl e ↦ rw e (parse_record-Stores base line)
    | inr e ↦ rw e tt
  ]

  AllSized : (o : Option (List FwRecord)) → Type 0
  AllSized none = Unit
  AllSized (some rs) = Each IsSized rs

  cons_record-AllSized :
      (r : FwRecord) (o : Option (List FwRecord))
      → IsSized r
      → AllSized o
      → AllSized (cons_record r o)
  unfolding AllSized
  cons_record-AllSized r none s h = tt
  cons_record-AllSized r (some rs) s h = (s, h)

  one_round :
      (base : ℕ) (line : List ℕ) (lines : List (List ℕ)) (l : Line)
      → parse_line strtol base line ≡ l
      → ((b : ℕ) → AllSized (parse_ihex strtol b lines))
      → AllSized (parse_ihex strtol base (line ∷ lines))
  unfolding parse_ihex AllSized
  one_round base line lines skipped e more = rw (e, parse_ihex) (more base)
  one_round base line lines (based b) e more = rw (e, parse_ihex) (more b)
  one_round base line lines ended e more = rw (e, parse_ihex) tt
  one_round base line lines (stored r) e more =
      rw (e, parse_ihex)
        (cons_record-AllSized r (parse_ihex strtol base lines)
          (subst Stores e (parse_line-Stores base line)) (more base))
  one_round base line lines bad e more = rw (e, parse_ihex) tt

  read_sized : (base : ℕ) (lines : List (List ℕ)) → AllSized (parse_ihex strtol base lines)
  unfolding parse_ihex AllSized
  read_sized base [] = tt
  read_sized base (line ∷ lines) =
      one_round base line lines (parse_line strtol base line) refl (λ b. read_sized b lines)

  pub parse_ihex-IsSized :
      (base : ℕ) (lines : List (List ℕ)) (rs : List FwRecord)
      → parse_ihex strtol base lines ≡ some rs
      → Each IsSized rs
  unfolding AllSized
  parse_ihex-IsSized base lines rs h = subst AllSized h (read_sized base lines)
