-- ===== src/Parser/Shape.antt =====
-- What holds of a cable's parser between two bytes, and of the packets that it emits.
use midex_class_firmware.Base.{
  ℕ, ◌/◌, ◌≤◌, ◌<◌, ◌≡◌, ◌⊎◌, true, Option, none, some, List, [], ◌∷◌, arith, Each, Each-append,
}
use midex_class_firmware.Parser.{PortParser, Packet, reset, parse_byte, packets_of, feed}

-- The status byte in force, with the CIN and the number of data bytes that it calls for.
abbrev pub Expects : ℕ → ℕ → ℕ → Type 0
Expects status cin need =
    (status ≡ 0)
    ⊎ ((0x80 ≤ status) × (status < 0xC0) × (cin ≡ status / 16) × (need ≡ 2))
    ⊎ ((0xC0 ≤ status) × (status < 0xE0) × (cin ≡ status / 16) × (need ≡ 1))
    ⊎ ((0xE0 ≤ status) × (status < 0xF0) × (cin ≡ 14) × (need ≡ 2))
    ⊎ (((status ≡ 0xF1) ⊎ (status ≡ 0xF3)) × (cin ≡ 2) × (need ≡ 1))
    ⊎ ((status ≡ 0xF2) × (cin ≡ 3) × (need ≡ 2))

pub record IsValid (ps : PortParser) : Type 0 where
  pub expects : Expects ps.status ps.cin ps.need
  pub sysex_alone : ps.in_sysex ≡ true → ps.status ≡ 0
  pub room : ps.sxn ≤ 2
  pub chunk0 : ps.sx0 < 256
  pub chunk1 : ps.sx1 < 256
  pub chunk2 : ps.sx2 < 256
  pub held : ps.have ≡ 0 ⊎ (ps.d0 < 128)

-- A packet of table 4-1 of the USB-MIDI specification: its CIN is no reserved one, the first byte
-- of a channel message or a real-time packet is a status byte that fits the CIN, data bytes are
-- data bytes, and the bytes that the CIN does not count are zero.
pub record IsWellFormed (p : Packet) : Type 0 where
  pub cin_low : 2 ≤ p.cin
  pub cin_high : p.cin < 16
  pub byte0 : p.b0 < 256
  pub byte1 : p.b1 < 256
  pub byte2 : p.b2 < 256
  pub voice : 8 ≤ p.cin → p.cin < 15 → (p.b0 / 16 ≡ p.cin) × (p.b1 < 128) × (p.b2 < 128)
  pub realtime : p.cin ≡ 15 → 0xF8 ≤ p.b0
  pub single : (p.cin ≡ 5) ⊎ (p.cin ≡ 15) → (p.b1 ≡ 0) × (p.b2 ≡ 0)
  pub double : (p.cin ≡ 2) ⊎ (p.cin ≡ 6) ⊎ (p.cin ≡ 12) ⊎ (p.cin ≡ 13) → p.b2 ≡ 0

abbrev AllWell : Option Packet → Type 0
AllWell none = Unit
AllWell (some p) = IsWellFormed p

pub parse_byte-IsValid :
    (b : ℕ) (ps : PortParser) → b < 256 → IsValid ps → IsValid (parse_byte b ps).0
unfolding parse_byte
parse_byte-IsValid b ps h v = ground arith

pub parse_byte-IsWellFormed :
    (b : ℕ) (ps : PortParser)
    → b < 256
    → IsValid ps
    → Each IsWellFormed (packets_of (parse_byte b ps).1)
unfolding parse_byte
parse_byte-IsWellFormed b ps h v = ground arith

-- Any bytes keep a cable's parser valid: the status in force fits its CIN and its data count, a SysEx
-- has no running status, and the SysEx buffer never holds more than two bytes between two calls.
pub feed-IsValid :
    (ps : PortParser) (bs : List ℕ) → Each (λ b. b < 256) bs → IsValid ps → IsValid (feed ps bs).0
unfolding feed
feed-IsValid ps [] h v = v
feed-IsValid ps (b ∷ bs) h v =
    feed-IsValid (parse_byte b ps).0 bs h.1 (parse_byte-IsValid b ps h.0 v)

-- From a valid parser state any bytes are parsed into well-formed packets alone.
pub feed-IsWellFormed :
    (ps : PortParser) (bs : List ℕ)
    → Each (λ b. b < 256) bs
    → IsValid ps
    → Each IsWellFormed (feed ps bs).1
unfolding feed
feed-IsWellFormed ps [] h v = tt
feed-IsWellFormed ps (b ∷ bs) h v =
    Each-append IsWellFormed (packets_of (parse_byte b ps).1) (feed (parse_byte b ps).0 bs).1
      (parse_byte-IsWellFormed b ps h.0 v)
      (feed-IsWellFormed (parse_byte b ps).0 bs h.1 (parse_byte-IsValid b ps h.0 v))

pub reset-IsValid :
    (ps : PortParser) → ps.sx0 < 256 → ps.sx1 < 256 → ps.sx2 < 256 → IsValid (reset ps)
unfolding reset
reset-IsValid ps h0 h1 h2 = ground arith
