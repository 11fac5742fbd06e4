-- ===== src/Descriptors/Strings.antt =====
-- The strings that the device descriptor names, as a host reads them.
use midex_class_firmware.Base.{
  ℕ, zero, suc, ◌+◌, ◌-◌, ◌*◌, ◌/◌, ◌%◌, ◌≤◌, ◌<◌, ◌≡◌, ◌∙◌, ap, ap₂, refl, ◌&&◌, ◌==◌, ==_refl,
  if◌then◌else◌, Option, none, some, List, [], ◌∷◌, length, get_or, Each, arith,
}
use midex_class_firmware.Config.{Board}
use midex_class_firmware.Descriptors.{
  device_descriptor, units, str_descr, str_manufacturer, str_product, str_serial_number,
  en_string_descriptors,
}
use midex_class_firmware.Usb.{
  SetupData, Usb, Descriptor, string, english_us, usb_handle_setup_data, usb_handle_get_descriptor,
}

-- The characters of a string descriptor's units.
abbrev pub characters : List ℕ → List ℕ
characters (a ∷ b ∷ rest) = (a + 256 * b) ∷ characters rest
characters _ = []

-- A string descriptor as a host reads it: its length byte counts all of it, and its type is 3.
abbrev pub read_string : List ℕ → Option (List ℕ)
read_string (n ∷ t ∷ rest) =
    if (n == length (n ∷ t ∷ rest)) && (t == 0x03) then some (characters rest) else none
read_string _ = none

length-units : (cs : List ℕ) → length (units cs) ≡ 2 * length cs
length-units [] = refl
length-units (c ∷ cs) = omega (arith, length-units cs)

characters-units : (cs : List ℕ) → Each (λ c. c < 65536) cs → characters (units cs) ≡ cs
characters-units [] h = refl
characters-units (c ∷ cs) h =
    let whole : c % 256 + 256 * (c / 256 % 256) ≡ c = omega (arith, h.0) in
    ap₂ (λ x l. x ∷ l) whole (characters-units cs h.1)

-- Any text of at most 126 characters is read back from its descriptor, if that says its length.
pub read_string-str_descr :
    (cs : List ℕ)
    → Each (λ c. c < 65536) cs
    → length cs ≤ 126
    → read_string (str_descr (length cs) cs) ≡ some cs
unfolding str_descr
read_string-str_descr cs h l =
    let fits : (length cs * 2 + 2) % 256 ≡ length (0 ∷ 0 ∷ units cs) =
      omega (arith, length-units cs) in
    rw (fits, ==_refl (length (0 ∷ 0 ∷ units cs)), characters-units cs h) refl

-- GET_DESCRIPTOR for string `i` in English.
abbrev pub string_request : ℕ → SetupData
string_request i = record {
  bm_request_type = 0x80;
  b_request = 6;
  w_value = 0x03 * 256 + i;
  w_index = english_us;
}

-- The names that the device gives itself: manufacturer, product and serial number.
abbrev pub own_name : ℕ → List ℕ
own_name k = if k == 0 then str_manufacturer else if k == 1 then str_product else str_serial_number

-- What a host gets that asks for string `i` of a table.
abbrev pub host_reads_string : (ℕ → Option (List ℕ)) → Option Descriptor → Option (List ℕ)
host_reads_string table (some (string i)) = elim (table (i - 1)) [
  | none ↦ none
  | some bytes ↦ read_string bytes
]
host_reads_string _ _ = none

-- The three entries, read by the lemma on any text.
entry :
    (k : ℕ)
    → k < 3
    → host_reads_string en_string_descriptors (some (string (k + 1))) ≡ some (own_name k)
unfolding en_string_descriptors
entry zero h = read_string-str_descr str_manufacturer (ground arith) (omega arith)
entry (suc zero) h = read_string-str_descr str_product (ground arith) (omega arith)
entry (suc (suc zero)) h = read_string-str_descr str_serial_number (ground arith) (omega arith)
entry (suc (suc (suc k))) h = absurd (omega arith)

index_at : (board : Board) (k : ℕ) → k < 3 → get_or (device_descriptor board) (14 + k) 0 ≡ k + 1
unfolding device_descriptor
index_at board zero h = refl
index_at board (suc zero) h = refl
index_at board (suc (suc zero)) h = refl
index_at board (suc (suc (suc k))) h = absurd (omega arith)

pub answered :
    (k : ℕ) (s : Usb)
    → k < 3
    → (usb_handle_setup_data (string_request (k + 1)) s).sudptr ≡ some (string (k + 1))
unfolding usb_handle_setup_data usb_handle_get_descriptor
answered zero s h = refl
answered (suc zero) s h = refl
answered (suc (suc zero)) s h = refl
answered (suc (suc (suc k))) s h = absurd (omega arith)

-- For each of the three string indices in the device descriptor, manufacturer, product and serial
-- number: a host that asks for that string in English is pointed to a descriptor that says its own
-- length, has the type of a string, and reads as the device's name for it.
pub host_reads_string-device_descriptor :
    (board : Board) (k : ℕ) (s : Usb)
    → k < 3
    → host_reads_string en_string_descriptors
        (usb_handle_setup_data
          (string_request (get_or (device_descriptor board) (14 + k) 0))
          s).sudptr
      ≡ some (own_name k)
host_reads_string-device_descriptor board k s h =
    ap
      (λ i.
        host_reads_string en_string_descriptors (usb_handle_setup_data (string_request i) s).sudptr)
      (index_at board k h)
    ∙ ap (host_reads_string en_string_descriptors) (answered k s h)
    ∙ entry k h
