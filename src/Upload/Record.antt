-- ===== src/Upload/Record.antt =====
-- Intel HEX records as a linker writes them, without the reader.
use midex_class_firmware.Base.{
  ℕ, ◌+◌, ◌-◌, ◌/◌, ◌%◌, ◌<◌, ◌≡◌, ltb, if◌then◌else◌, List, [], ◌∷◌, ◌++◌, concat_map, length,
  Each,
}
use midex_class_firmware.Upload.{FwRecord, total}

-- The character of a hexadecimal digit: `0` to `9`, then `A` to `F`.
abbrev pub digit : ℕ → ℕ
digit d = if ltb d 10 then 48 + d else 55 + d

abbrev pub digits_of : ℕ → List ℕ
digits_of b = digit (b / 16) ∷ digit (b % 16) ∷ []

-- The byte that makes the sum of all bytes a multiple of 256.
abbrev pub checksum : FwRecord → ℕ
checksum r = (256 - (r.len + r.addr / 256 + r.addr % 256 + total r.bytes) % 256) % 256

-- The line of a data record with `c` for the checksum, up to its end.
abbrev pub line_with : ℕ → FwRecord → List ℕ
line_with c r =
    58 ∷ concat_map digits_of (r.len ∷ r.addr / 256 ∷ r.addr % 256 ∷ 0 ∷ r.bytes ++ (c ∷ []))

abbrev pub end_line : List ℕ
end_line = 58 ∷ concat_map digits_of (0 ∷ 0 ∷ 0 ∷ 1 ∷ 255 ∷ [])

pub record IsRecord (r : FwRecord) : Type 0 where
  pub addr_small : r.addr < 65536
  pub len_small : r.len < 256
  pub len_is : r.len ≡ length r.bytes
  pub small : Each (λ b. b < 256) r.bytes
