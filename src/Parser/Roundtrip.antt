-- ===== src/Parser/Roundtrip.antt =====
-- Whatever state the parser is in, the bytes of a message give the packets of the message; and the
-- payload of those packets is the message again.
use midex_class_firmware.Base.{
  ℕ, ◌/◌, ◌≤◌, ◌<◌, ◌≡◌, ◌≢◌, refl, ap, ap₂, sym, ◌∙◌, true, false, List, [], ◌∷◌, ◌++◌, arith,
  Each, concat_map, map, append_assoc, append-nil,
}
use midex_class_firmware.Parser.{PortParser, packet, packets_of, parse_byte, feed}
use midex_class_firmware.Parser.Messages.{
  Message, voice2, voice1, common1, position, single, sysex, realtime, IsData, IsMessage,
  pair_bytes, wire, chunks, packets,
}

pub feed-append_state :
    (ps : PortParser) (xs ys : List ℕ) → (feed ps (xs ++ ys)).0 ≡ (feed (feed ps xs).0 ys).0
unfolding feed
feed-append_state ps [] ys = refl
feed-append_state ps (x ∷ xs) ys = feed-append_state (parse_byte x ps).0 xs ys

pub feed-append :
    (ps : PortParser) (xs ys : List ℕ)
    → (feed ps (xs ++ ys)).1 ≡ (feed ps xs).1 ++ (feed (feed ps xs).0 ys).1
unfolding feed
feed-append ps [] ys = refl
feed-append ps (x ∷ xs) ys =
    ap (λ l. packets_of (parse_byte x ps).1 ++ l) (feed-append (parse_byte x ps).0 xs ys)
    ∙ sym (
        append_assoc (packets_of (parse_byte x ps).1) (feed (parse_byte x ps).0 xs).1
          (feed (feed (parse_byte x ps).0 xs).0 ys).1)

-- Between the messages of a run.
record Runs (s need : ℕ) (ps : PortParser) : Type 0 where
  status_is : ps.status ≡ s
  cin_is : ps.cin ≡ s / 16
  need_is : ps.need ≡ need
  have_is : ps.have ≡ 0
  quiet : ps.in_sysex ≡ false

voice2_starts :
    (s : ℕ) (ps : PortParser)
    → 0x80 ≤ s
    → s < 0xF0
    → s / 16 ≢ 12
    → s / 16 ≢ 13
    → Runs s 2 (parse_byte s ps).0 × (packets_of (parse_byte s ps).1 ≡ [])
unfolding parse_byte
voice2_starts s ps a b c d = ground arith

voice1_starts :
    (s : ℕ) (ps : PortParser)
    → 0xC0 ≤ s
    → s < 0xE0
    → Runs s 1 (parse_byte s ps).0 × (packets_of (parse_byte s ps).1 ≡ [])
unfolding parse_byte
voice1_starts s ps a b = ground arith

voice2_pair :
    (s a b : ℕ) (ps : PortParser)
    → 0x80 ≤ s
    → s < 0xF0
    → a < 128
    → b < 128
    → Runs s 2 ps
    → Runs s 2 (feed ps (a ∷ b ∷ [])).0 × ((feed ps (a ∷ b ∷ [])).1 ≡ packet (s / 16) s a b ∷ [])
unfolding feed parse_byte
voice2_pair s a b ps l h p q r = ground arith

voice1_one :
    (s a : ℕ) (ps : PortParser)
    → 0x80 ≤ s
    → s < 0xF0
    → a < 128
    → Runs s 1 ps
    → Runs s 1 (parse_byte a ps).0 × (packets_of (parse_byte a ps).1 ≡ packet (s / 16) s a 0 ∷ [])
unfolding parse_byte
voice1_one s a ps l h p r = ground arith

voice2_run :
    (s : ℕ) (run : List (ℕ × ℕ)) (ps : PortParser)
    → 0x80 ≤ s
    → s < 0xF0
    → Each (λ ab. IsData ab.0 × IsData ab.1) run
    → Runs s 2 ps
    → (feed ps (concat_map pair_bytes run)).1 ≡ map (λ ab. packet (s / 16) s ab.0 ab.1) run
unfolding feed
voice2_run s [] ps l h v r = refl
voice2_run s ((a, b) ∷ run) ps l h v r =
    let step = voice2_pair s a b ps l h v.0.0 v.0.1 r in
    feed-append ps (a ∷ b ∷ []) (concat_map pair_bytes run)
    ∙ ap₂ ◌++◌ step.1 (voice2_run s run (feed ps (a ∷ b ∷ [])).0 l h v.1 step.0)

voice1_run :
    (s : ℕ) (run : List ℕ) (ps : PortParser)
    → 0x80 ≤ s
    → s < 0xF0
    → Each IsData run
    → Runs s 1 ps
    → (feed ps run).1 ≡ map (λ a. packet (s / 16) s a 0) run
unfolding feed
voice1_run s [] ps l h v r = refl
voice1_run s (a ∷ run) ps l h v r =
    let step = voice1_one s a ps l h v.0 r in
    ap₂ ◌++◌ step.1 (voice1_run s run (parse_byte a ps).0 l h v.1 step.0)

-- Within a SysEx, with these bytes in the chunk.
abbrev Holds : List ℕ → PortParser → Type 0
Holds [] ps = (ps.in_sysex ≡ true) × (ps.sxn ≡ 0)
Holds (x ∷ []) ps = (ps.in_sysex ≡ true) × (ps.sxn ≡ 1) × (ps.sx0 ≡ x)
Holds (x ∷ y ∷ []) ps = (ps.in_sysex ≡ true) × (ps.sxn ≡ 2) × (ps.sx0 ≡ x) × (ps.sx1 ≡ y)
Holds (x ∷ y ∷ z ∷ r) ps = ⊥

module _ (d : ℕ) (ps : PortParser) (small : d < 128) where
  data_first :
      Holds [] ps → Holds (d ∷ []) (parse_byte d ps).0 × (packets_of (parse_byte d ps).1 ≡ [])
  unfolding parse_byte
  data_first h = ground arith

  data_second :
      (x : ℕ)
      → Holds (x ∷ []) ps
      → Holds (x ∷ d ∷ []) (parse_byte d ps).0 × (packets_of (parse_byte d ps).1 ≡ [])
  unfolding parse_byte
  data_second x h = ground arith

  data_third :
      (x y : ℕ)
      → Holds (x ∷ y ∷ []) ps
      → Holds [] (parse_byte d ps).0 × (packets_of (parse_byte d ps).1 ≡ packet 4 x y d ∷ [])
  unfolding parse_byte
  data_third x y h = ground arith

sysex_closes :
    (pending : List ℕ) (ps : PortParser)
    → Holds pending ps
    → packets_of (parse_byte 0xF7 ps).1 ≡ chunks pending
unfolding parse_byte chunks
sysex_closes [] ps h = ground arith
sysex_closes (x ∷ []) ps h = ground arith
sysex_closes (x ∷ y ∷ []) ps h = ground arith
sysex_closes (x ∷ y ∷ z ∷ r) ps h = absurd h

sysex_rest :
    (pending ds : List ℕ) (ps : PortParser)
    → Each IsData ds
    → Holds pending ps
    → (feed ps (ds ++ (0xF7 ∷ []))).1 ≡ chunks (pending ++ ds)
unfolding feed chunks
sysex_rest pending [] ps v h =
    append-nil (packets_of (parse_byte 0xF7 ps).1)
    ∙ sysex_closes pending ps h
    ∙ ap chunks (sym (append-nil pending))
sysex_rest [] (d ∷ ds) ps v h =
    let step = data_first d ps v.0 h in
    ap₂ ◌++◌ step.1 (sysex_rest (d ∷ []) ds (parse_byte d ps).0 v.1 step.0)
sysex_rest (x ∷ []) (d ∷ ds) ps v h =
    let step = data_second d ps v.0 x h in
    ap₂ ◌++◌ step.1 (sysex_rest (x ∷ d ∷ []) ds (parse_byte d ps).0 v.1 step.0)
sysex_rest (x ∷ y ∷ []) (d ∷ ds) ps v h =
    let step = data_third d ps v.0 x y h in
    ap₂ ◌++◌ step.1 (sysex_rest [] ds (parse_byte d ps).0 v.1 step.0)
sysex_rest (x ∷ y ∷ z ∷ r) (d ∷ ds) ps v h = absurd h

sysex_opens :
    (ps : PortParser)
    → Holds (0xF0 ∷ []) (parse_byte 0xF0 ps).0 × (packets_of (parse_byte 0xF0 ps).1 ≡ [])
unfolding parse_byte
sysex_opens ps = ground arith

feed-wire : (m : Message) (ps : PortParser) → IsMessage m → (feed ps (wire m)).1 ≡ packets m
unfolding feed
feed-wire (voice2 s run) ps v =
    let start = voice2_starts s ps v.0 v.1 v.2 v.3 in
    ap₂ ◌++◌ start.1 (voice2_run s run (parse_byte s ps).0 v.0 v.1 v.4 start.0)
feed-wire (voice1 s run) ps v =
    let start = voice1_starts s ps v.0 v.1 in
    ap₂ ◌++◌ start.1 (voice1_run s run (parse_byte s ps).0 (omega arith) (omega arith) v.2 start.0)
feed-wire (common1 s a) ps v = unfold parse_byte in ground arith
feed-wire (position a b) ps v = unfold parse_byte in ground arith
feed-wire (single s) ps v = unfold parse_byte in ground arith
feed-wire (sysex ds) ps v =
    let start = sysex_opens ps in
    ap₂ ◌++◌ start.1 (sysex_rest (0xF0 ∷ []) ds (parse_byte 0xF0 ps).0 v start.0)
feed-wire (realtime b) ps v = unfold parse_byte in ground arith

-- Whatever the cable's parser was doing, the wire bytes of a list of messages, with running status,
-- are parsed into the USB-MIDI packets of these messages, in order and with no packet besides.
pub feed-wires :
    (ms : List Message) (ps : PortParser)
    → Each IsMessage ms
    → (feed ps (concat_map wire ms)).1 ≡ concat_map packets ms
feed-wires [] ps v = unfold feed in refl
feed-wires (m ∷ ms) ps v =
    feed-append ps (wire m) (concat_map wire ms)
    ∙ ap₂ ◌++◌ (feed-wire m ps v.0) (feed-wires ms (feed ps (wire m)).0 v.1)
