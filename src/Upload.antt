-- ===== src/Upload.antt =====
-- host/midex-fw-upload.c: reading an Intel HEX file. The C library's strtol is a parameter; a line is
-- what fgets leaves in the buffer, and reads 0 from its end on.
pub mod Record
pub mod Roundtrip
pub mod Transfer
pub mod Program
use midex_class_firmware.Base.{
  ℕ, zero, suc, ◌+◌, ◌*◌, ◌/◌, ◌%◌, ◌^◌, Bool, ◌||◌, Option, none, some, ◌==◌, if◌then◌else◌, List,
  [], ◌∷◌, get_or,
}

-- `struct fw_record`; `data` has `len` bytes.
pub record FwRecord : Type 0 where
  pub addr : ℕ
  pub len : ℕ
  pub bytes : List ℕ

-- What one round of the loop over the lines comes to: `continue`, a new base, `break`, a record
-- stored, or `goto bad`.
pub data Line : Type 0 where
  skipped : Line
  based : ℕ → Line
  ended : Line
  stored : FwRecord → Line
  bad : Line

-- Go on with a value, or `goto bad`.
abbrev pub or_bad {ℓ} : {A : Type ℓ} → Option A → (A → Line) → Line
or_bad none f = bad
or_bad (some a) f = f a

-- `recs[n].data[i] = b`, unless a byte was malformed.
abbrev pub cons_byte : Option ℕ → Option (List ℕ) → Option (List ℕ)
cons_byte (some b) (some bs) = some (b ∷ bs)
cons_byte _ _ = none

abbrev pub cons_record : FwRecord → Option (List FwRecord) → Option (List FwRecord)
cons_record r none = none
cons_record r (some rs) = some (r ∷ rs)

-- The data's part of the running sum. The sum wraps at a byte, which its test at the end takes
-- account of.
abbrev pub total : List ℕ → ℕ
total [] = 0
total (b ∷ bs) = b + total bs

-- strtol in base 16 on two characters and a terminator: the value, as a 64-bit long in two's
-- complement, and how many characters it took.
module _ (strtol : ℕ → ℕ → ℕ × ℕ) where
  -- `hexbyte(line + i, &b)`
  unfoldable pub hexbyte : List ℕ → ℕ → Option ℕ
  hexbyte line i =
      let (v, end) = strtol (get_or line i 0) (get_or line (i + 1) 0) in
      if end == 2 then some (v % 256) else none

  -- The loop over the data bytes from index `i`, `k` of them.
  unfoldable pub data_bytes : List ℕ → ℕ → ℕ → Option (List ℕ)
  data_bytes line i zero = some []
  data_bytes line i (suc k) =
      let rest = data_bytes line (i + 2) k in cons_byte (hexbyte line i) rest

  -- The rest of the round for a data record, with the running sum of the header.
  unfoldable pub data_record : List ℕ → ℕ → ℕ → ℕ → Line
  data_record line at len sum = or_bad (data_bytes line 9 len) λ bs.
      or_bad (hexbyte line (9 + len * 2)) λ b.
        if (sum + total bs + b) % 256 == 0
        then stored (record { addr = at; len = len; bytes = bs })
        else bad

  -- The extended address of a record of type 2 or 4, a number of 32 bits.
  unfoldable pub extended : List ℕ → ℕ → Line
  extended line type = or_bad (hexbyte line 9) λ hi.
      or_bad (hexbyte line 11)
        λ lo. based (if type == 0x04 then (hi * 256 + lo) * 2 ^ 16 else (hi * 256 + lo) * 2 ^ 4)

  -- The round behind the test of the first character.
  unfoldable pub parse_record : ℕ → List ℕ → Line
  parse_record base line = or_bad (hexbyte line 1) λ len. or_bad (hexbyte line 3) λ hi.
      or_bad (hexbyte line 5) λ lo. or_bad (hexbyte line 7) λ type.
        if type == 0x01
        then ended
        else if (type == 0x02) || (type == 0x04)
        then extended line type
        else if type == 0x00
        then data_record line ((base + (hi * 256 + lo)) % 2 ^ 32 % 2 ^ 16) len
            (len + hi + lo + type)
        else skipped

  -- One round of the loop of `parse_ihex`; 58 is `:`.
  unfoldable pub parse_line : ℕ → List ℕ → Line
  parse_line base line = if get_or line 0 0 == 58 then parse_record base line else skipped

  -- The loop of `parse_ihex` over the lines; none is the return value -1.
  unfoldable pub parse_ihex : ℕ → List (List ℕ) → Option (List FwRecord)
  parse_ihex base [] = some []
  parse_ihex base (line ∷ lines) = elim (parse_line base line) [
    | skipped ↦ parse_ihex base lines
    | based b ↦ parse_ihex b lines
    | ended ↦ some []
    | stored r ↦ cons_record r (parse_ihex base lines)
    | bad ↦ none
  ]
