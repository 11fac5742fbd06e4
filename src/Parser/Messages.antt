-- ===== src/Parser/Messages.antt =====
-- MIDI messages as the sender means them, their bytes on the wire and the USB-MIDI packets that
-- stand for them, written without the parser.
use midex_class_firmware.Base.{
  ℕ, ◌/◌, ◌≤◌, ◌<◌, ◌≡◌, ◌≢◌, ◌⊎◌, List, [], ◌∷◌, ◌++◌, Each, concat_map, take, map,
}
use midex_class_firmware.Cin.{cin_len}
use midex_class_firmware.Parser.{Packet, packet}

-- A channel message is a run: one status byte and the data of each message under it.
pub data Message : Type 0 where
  voice2 : ℕ → List (ℕ × ℕ) → Message
  voice1 : ℕ → List ℕ → Message
  common1 : ℕ → ℕ → Message
  position : ℕ → ℕ → Message
  single : ℕ → Message
  sysex : List ℕ → Message
  realtime : ℕ → Message

abbrev pub IsData : ℕ → Type 0
IsData b = b < 128

abbrev pub IsMessage : Message → Type 0
IsMessage (voice2 s run) =
    (0x80 ≤ s)
    × (s < 0xF0)
    × (s / 16 ≢ 12)
    × (s / 16 ≢ 13)
    × Each (λ ab. IsData ab.0 × IsData ab.1) run
IsMessage (voice1 s run) = (0xC0 ≤ s) × (s < 0xE0) × Each IsData run
IsMessage (common1 s a) = ((s ≡ 0xF1) ⊎ (s ≡ 0xF3)) × IsData a
IsMessage (position a b) = IsData a × IsData b
IsMessage (single s) = (0xF4 ≤ s) × (s < 0xF7)
IsMessage (sysex ds) = Each IsData ds
IsMessage (realtime b) = (0xF8 ≤ b) × (b < 256)

abbrev pub pair_bytes : ℕ × ℕ → List ℕ
pair_bytes ab = ab.0 ∷ ab.1 ∷ []

-- The bytes on the wire, with running status.
abbrev pub wire : Message → List ℕ
wire (voice2 s run) = s ∷ concat_map pair_bytes run
wire (voice1 s run) = s ∷ run
wire (common1 s a) = s ∷ a ∷ []
wire (position a b) = 0xF2 ∷ a ∷ b ∷ []
wire (single s) = s ∷ []
wire (sysex ds) = 0xF0 ∷ ds ++ (0xF7 ∷ [])
wire (realtime b) = b ∷ []

-- The same with the status byte before the data of each message.
abbrev pub expanded : Message → List ℕ
expanded (voice2 s run) = concat_map (λ ab. s ∷ pair_bytes ab) run
expanded (voice1 s run) = concat_map (λ a. s ∷ a ∷ []) run
expanded (common1 s a) = wire (common1 s a)
expanded (position a b) = wire (position a b)
expanded (single s) = wire (single s)
expanded (sysex ds) = wire (sysex ds)
expanded (realtime b) = wire (realtime b)

-- SysEx bytes up to the closing F7, three to a packet, the last with the F7.
unfoldable pub chunks : List ℕ → List Packet
chunks [] = packet 5 0xF7 0 0 ∷ []
chunks (x ∷ []) = packet 6 x 0xF7 0 ∷ []
chunks (x ∷ y ∷ []) = packet 7 x y 0xF7 ∷ []
chunks (x ∷ y ∷ z ∷ r) = packet 4 x y z ∷ chunks r

abbrev pub packets : Message → List Packet
packets (voice2 s run) = map (λ ab. packet (s / 16) s ab.0 ab.1) run
packets (voice1 s run) = map (λ a. packet (s / 16) s a 0) run
packets (common1 s a) = packet 2 s a 0 ∷ []
packets (position a b) = packet 3 0xF2 a b ∷ []
packets (single s) = packet 5 s 0 0 ∷ []
packets (sysex ds) = chunks (0xF0 ∷ ds)
packets (realtime b) = packet 15 b 0 0 ∷ []

-- The bytes of a packet that its CIN counts, as `bridge_out` takes them.
unfoldable pub payload : Packet → List ℕ
payload p = take (cin_len p.cin) (p.b0 ∷ p.b1 ∷ p.b2 ∷ [])
