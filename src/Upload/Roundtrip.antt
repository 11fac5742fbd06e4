-- ===== src/Upload/Roundtrip.antt =====
-- What `parse_ihex` makes of the lines of `Record`, with a strtol that reads hexadecimal digits.
use midex_class_firmware.Base.{
  ℕ, zero, suc, ◌+◌, ◌-◌, ◌*◌, ◌/◌, ◌%◌, ◌^◌, ◌<◌, ◌≡◌, ◌≢◌, ==_of_ne, ◌∙◌, sym, ap, ap₂, refl,
  ◌==◌, ==_refl, if◌then◌else◌, Option, none, some, List, [], ◌∷◌, ◌++◌, concat_map, map, length,
  drop, get_or, Each, arith,
}
use midex_class_firmware.Upload.{
  FwRecord, stored, bad, ended, total, cons_byte, cons_record, hexbyte, data_bytes, data_record,
  parse_record, parse_line, parse_ihex,
}
use midex_class_firmware.Upload.Record.{digit, digits_of, checksum, line_with, end_line, IsRecord}

-- strtol takes both characters of two digits and gives their value.
abbrev pub ReadsDigits : (ℕ → ℕ → ℕ × ℕ) → Type 0
ReadsDigits strtol = (h l : ℕ) → h < 16 → l < 16 → strtol (digit h) (digit l) ≡ (h * 16 + l, 2)

get_or-drop : (xs : List ℕ) (i k : ℕ) → get_or (drop i xs) k 0 ≡ get_or xs (i + k) 0
get_or-drop xs zero k = ap (λ n. get_or xs n 0) (omega arith)
get_or-drop [] (suc i) k = refl
get_or-drop (x ∷ xs) (suc i) k =
    let next : suc i + k ≡ suc (i + k) = omega arith in
    get_or-drop xs i k ∙ ap (λ n. get_or (x ∷ xs) n 0) (sym next)

drop-nil : (k : ℕ) → drop {A = ℕ} k [] ≡ []
drop-nil zero = refl
drop-nil (suc k) = refl

drop-drop : (xs : List ℕ) (i k : ℕ) → drop k (drop i xs) ≡ drop (i + k) xs
drop-drop xs zero k = ap (λ n. drop n xs) (omega arith)
drop-drop [] (suc i) k = drop-nil k ∙ sym (drop-nil (suc i + k))
drop-drop (x ∷ xs) (suc i) k =
    let next : suc i + k ≡ suc (i + k) = omega arith in
    drop-drop xs i k ∙ ap (λ n. drop n (x ∷ xs)) (sym next)

-- The characters of a byte and of all bytes behind it.
digits_next :
    (line bs : List ℕ) (i b : ℕ)
    → drop i line ≡ concat_map digits_of (b ∷ bs)
    → drop (i + 2) line ≡ concat_map digits_of bs
digits_next line bs i b at = sym (drop-drop line i 2) ∙ ap (drop 2) at

checksum_test : (sum c : ℕ) → c < 256 → ((sum + c) % 256 == 0) ≡ (c == (256 - sum % 256) % 256)
checksum_test sum c h = ground arith

abbrev prefixed : List FwRecord → Option (List FwRecord) → Option (List FwRecord)
prefixed [] out = out
prefixed (r ∷ rs) out = cons_record r (prefixed rs out)

prefixed-some : (rs : List FwRecord) → prefixed rs (some []) ≡ some rs
prefixed-some [] = refl
prefixed-some (r ∷ rs) = ap (cons_record r) (prefixed-some rs)

prefixed-none : (rs : List FwRecord) → prefixed rs none ≡ none
prefixed-none [] = refl
prefixed-none (r ∷ rs) = ap (cons_record r) (prefixed-none rs)

module _ (strtol : ℕ → ℕ → ℕ × ℕ) (reads : ReadsDigits strtol) where
  -- Where the digits of a byte stand, the byte is read.
  hexbyte-digits :
      (line bs : List ℕ) (i b : ℕ)
      → b < 256
      → drop i line ≡ concat_map digits_of (b ∷ bs)
      → hexbyte strtol line i ≡ some b
  unfolding hexbyte
  hexbyte-digits line bs i b h at =
      let same : i + 0 ≡ i = omega arith in
      let first : get_or line i 0 ≡ digit (b / 16) =
        ap (λ n. get_or line n 0) (sym same)
        ∙ sym (get_or-drop line i 0)
        ∙ ap (λ l. get_or l 0 0) at in
      let second : get_or line (i + 1) 0 ≡ digit (b % 16) =
        sym (get_or-drop line i 1) ∙ ap (λ l. get_or l 1 0) at in
      let read : strtol (digit (b / 16)) (digit (b % 16)) ≡ (b / 16 * 16 + b % 16, 2) =
        reads (b / 16) (b % 16) (omega arith) (omega arith) in
      let value : (b / 16 * 16 + b % 16) % 256 ≡ b = omega arith in rw (first, second, read, value)

  -- The loop over the data bytes reads them all.
  data_bytes-digits :
      (bs rest line : List ℕ) (i : ℕ)
      → Each (λ b. b < 256) bs
      → drop i line ≡ concat_map digits_of (bs ++ rest)
      → data_bytes strtol line i (length bs) ≡ some bs
  unfolding data_bytes
  data_bytes-digits [] rest line i h at = refl
  data_bytes-digits (b ∷ bs) rest line i h at =
      ap₂ cons_byte (hexbyte-digits line (bs ++ rest) i b h.0 at)
        (data_bytes-digits bs rest line (i + 2) h.1 (digits_next line (bs ++ rest) i b at))

  behind :
      (bs rest line : List ℕ) (i : ℕ)
      → drop i line ≡ concat_map digits_of (bs ++ rest)
      → drop (i + length bs * 2) line ≡ concat_map digits_of rest
  behind [] rest line i at = ap (λ n. drop n line) (omega arith) ∙ at
  behind (b ∷ bs) rest line i at =
      let count : i + suc (length bs) * 2 ≡ i + 2 + length bs * 2 = omega arith in
      ap (λ n. drop n line) count
      ∙ behind bs rest line (i + 2) (digits_next line (bs ++ rest) i b at)

  -- A line of a record is accepted with exactly one checksum.
  parse_line-line_with :
      (r : FwRecord) (c : ℕ)
      → IsRecord r
      → c < 256
      → parse_line strtol 0 (line_with c r) ≡ (if c == checksum r then stored r else bad)
  unfolding parse_line parse_record data_record
  parse_line-line_with r c v h =
      let line = line_with c r in
      let tail = r.bytes ++ (c ∷ []) in
      let len : hexbyte strtol line 1 ≡ some r.len =
        hexbyte-digits line (r.addr / 256 ∷ r.addr % 256 ∷ 0 ∷ tail) 1 r.len v.len_small refl in
      let hi : hexbyte strtol line 3 ≡ some (r.addr / 256) =
        hexbyte-digits line (r.addr % 256 ∷ 0 ∷ tail) 3 (r.addr / 256) (omega (arith, v.addr_small))
          refl in
      let lo : hexbyte strtol line 5 ≡ some (r.addr % 256) =
        hexbyte-digits line (0 ∷ tail) 5 (r.addr % 256) (omega arith) refl in
      let type : hexbyte strtol line 7 ≡ some 0 = hexbyte-digits line tail 7 0 (omega arith) refl in
      let bytes : data_bytes strtol line 9 r.len ≡ some r.bytes =
        ap (data_bytes strtol line 9) v.len_is
        ∙ data_bytes-digits r.bytes (c ∷ []) line 9 v.small refl in
      let sum : hexbyte strtol line (9 + r.len * 2) ≡ some c =
        hexbyte-digits line [] (9 + r.len * 2) c h
          (ap (λ n. drop (9 + n * 2) line) v.len_is ∙ behind r.bytes (c ∷ []) line 9 refl) in
      let place : (0 + (r.addr / 256 * 256 + r.addr % 256)) % 2 ^ 32 % 2 ^ 16 ≡ r.addr =
        omega (arith, v.addr_small) in
      let test : ((r.len + r.addr / 256 + r.addr % 256 + 0 + total r.bytes + c) % 256 == 0)
          ≡ (c == checksum r) =
        ap (λ n. (n + c) % 256 == 0) (omega arith)
        ∙ checksum_test (r.len + r.addr / 256 + r.addr % 256 + total r.bytes) c h in
      rw (len, hi, lo, type, bytes, sum, place) (ap (λ b. if b then stored r else bad) test)

  accepted : (r : FwRecord) → IsRecord r → parse_line strtol 0 (line_with (checksum r) r) ≡ stored r
  accepted r v = parse_line-line_with r (checksum r) v (omega arith) ∙ rw (==_refl (checksum r))

  parse_line-end_line : parse_line strtol 0 end_line ≡ ended
  unfolding parse_line parse_record
  parse_line-end_line = rw (
    hexbyte-digits end_line (0 ∷ 0 ∷ 1 ∷ 255 ∷ []) 1 0 (omega arith) refl,
    hexbyte-digits end_line (0 ∷ 1 ∷ 255 ∷ []) 3 0 (omega arith) refl,
    hexbyte-digits end_line (1 ∷ 255 ∷ []) 5 0 (omega arith) refl,
    hexbyte-digits end_line (255 ∷ []) 7 1 (omega arith) refl,
  )

  -- The records of good lines stand in front of what the rest of the file gives.
  parse_ihex-good :
      (rs : List FwRecord) (rest : List (List ℕ)) (out : Option (List FwRecord))
      → Each IsRecord rs
      → parse_ihex strtol 0 rest ≡ out
      → parse_ihex strtol 0 (map (λ r. line_with (checksum r) r) rs ++ rest) ≡ prefixed rs out
  unfolding parse_ihex
  parse_ihex-good [] rest out v h = h
  parse_ihex-good (r ∷ rs) rest out v h =
      rw (accepted r v.0, parse_ihex) (ap (cons_record r) (parse_ihex-good rs rest out v.1 h))

-- With a strtol that reads hexadecimal digits: a file that holds the lines of some records and the end
-- line is read as these records, whatever follows; and a file whose lines of records are followed by
-- a record's line with any wrong checksum byte is refused.
pub parse_ihex-lines :
    (strtol : ℕ → ℕ → ℕ × ℕ) (rs : List FwRecord) (r : FwRecord) (c : ℕ) (rest : List (List ℕ))
    → ReadsDigits strtol
    → Each IsRecord rs
    → IsRecord r
    → c < 256
    → c ≢ checksum r
    → (parse_ihex strtol 0 (map (λ r. line_with (checksum r) r) rs ++ end_line ∷ rest) ≡ some rs)
      × (parse_ihex strtol 0 (map (λ r. line_with (checksum r) r) rs ++ line_with c r ∷ rest)
          ≡ none)
unfolding parse_ihex
parse_ihex-lines strtol rs r c rest reads v w h wrong =
    let last : parse_ihex strtol 0 (end_line ∷ rest) ≡ some [] =
      rw (parse_line-end_line strtol reads, parse_ihex) in
    let refused : parse_ihex strtol 0 (line_with c r ∷ rest) ≡ none =
      rw (parse_line-line_with strtol reads r c w h, ==_of_ne c (checksum r) wrong, parse_ihex) in
    (
      parse_ihex-good strtol reads rs (end_line ∷ rest) (some []) v last ∙ prefixed-some rs,
      parse_ihex-good strtol reads rs (line_with c r ∷ rest) none v refused ∙ prefixed-none rs,
    )
