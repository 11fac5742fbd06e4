-- ===== src/Parser/Payload.antt =====
-- What the CIN table takes from the packets of a message is the message, each status written out.
use midex_class_firmware.Base.{
  ℕ, ◌/◌, ◌≤◌, ◌<◌, ◌≡◌, ◌≢◌, ◌⊎◌, refl, ap, ap₂, ◌∙◌, List, [], ◌∷◌, ◌++◌, arith, Each, concat_map,
  map, concat_map-append,
}
use midex_class_firmware.Cin.{cin_len, cin_len_lem}
use midex_class_firmware.Parser.{PortParser, packet, feed}
use midex_class_firmware.Parser.Messages.{
  Message, voice2, voice1, common1, position, single, sysex, realtime, IsMessage, pair_bytes, wire,
  expanded, chunks, packets, payload,
}
use midex_class_firmware.Parser.Roundtrip.{feed-wires}

module _ (c b0 b1 b2 : ℕ) where
  payload_one : (c ≡ 5) ⊎ (c ≡ 15) → payload (packet c b0 b1 b2) ≡ b0 ∷ []
  unfolding payload
  payload_one h = let e : cin_len c ≡ 1 = ground (arith, cin_len_lem c) in rw e

  payload_two : (c ≡ 2) ⊎ (c ≡ 6) ⊎ (c ≡ 12) ⊎ (c ≡ 13) → payload (packet c b0 b1 b2) ≡ b0 ∷ b1 ∷ []
  unfolding payload
  payload_two h = let e : cin_len c ≡ 2 = ground (arith, cin_len_lem c) in rw e

  payload_three :
      (c ≡ 3) ⊎ (c ≡ 4) ⊎ (c ≡ 7) ⊎ ((8 ≤ c) × (c < 12)) ⊎ (c ≡ 14)
      → payload (packet c b0 b1 b2) ≡ b0 ∷ b1 ∷ b2 ∷ []
  unfolding payload
  payload_three h = let e : cin_len c ≡ 3 = ground (arith, cin_len_lem c) in rw e

payload-chunks : (bs : List ℕ) → concat_map payload (chunks bs) ≡ bs ++ (0xF7 ∷ [])
unfolding chunks
payload-chunks [] = ap₂ ◌++◌ (payload_one 5 0xF7 0 0 (omega arith)) refl
payload-chunks (x ∷ []) = ap₂ ◌++◌ (payload_two 6 x 0xF7 0 (omega arith)) refl
payload-chunks (x ∷ y ∷ []) = ap₂ ◌++◌ (payload_three 7 x y 0xF7 (omega arith)) refl
payload-chunks (x ∷ y ∷ z ∷ r) = ap₂ ◌++◌ (payload_three 4 x y z (omega arith)) (payload-chunks r)

voice2_payload :
    (s : ℕ) (run : List (ℕ × ℕ))
    → 0x80 ≤ s
    → s < 0xF0
    → s / 16 ≢ 12
    → s / 16 ≢ 13
    → concat_map payload (map (λ ab. packet (s / 16) s ab.0 ab.1) run)
      ≡ concat_map (λ ab. s ∷ pair_bytes ab) run
voice2_payload s [] l h p q = refl
voice2_payload s (ab ∷ run) l h p q =
    ap₂ ◌++◌ (payload_three (s / 16) s ab.0 ab.1 (ground arith)) (voice2_payload s run l h p q)

voice1_payload :
    (s : ℕ) (run : List ℕ)
    → 0xC0 ≤ s
    → s < 0xE0
    → concat_map payload (map (λ a. packet (s / 16) s a 0) run) ≡ concat_map (λ a. s ∷ a ∷ []) run
voice1_payload s [] l h = refl
voice1_payload s (a ∷ run) l h =
    ap₂ ◌++◌ (payload_two (s / 16) s a 0 (ground arith)) (voice1_payload s run l h)

packets-payload : (m : Message) → IsMessage m → concat_map payload (packets m) ≡ expanded m
packets-payload (voice2 s run) v = voice2_payload s run v.0 v.1 v.2 v.3
packets-payload (voice1 s run) v = voice1_payload s run v.0 v.1
packets-payload (common1 s a) v = ap₂ ◌++◌ (payload_two 2 s a 0 (omega arith)) refl
packets-payload (position a b) v = ap₂ ◌++◌ (payload_three 3 0xF2 a b (omega arith)) refl
packets-payload (single s) v = ap₂ ◌++◌ (payload_one 5 s 0 0 (omega arith)) refl
packets-payload (sysex ds) v = payload-chunks (0xF0 ∷ ds)
packets-payload (realtime b) v = ap₂ ◌++◌ (payload_one 15 b 0 0 (omega arith)) refl

payload-packets_in_order :
    (ms : List Message)
    → Each IsMessage ms
    → concat_map payload (concat_map packets ms) ≡ concat_map expanded ms
payload-packets_in_order [] v = refl
payload-packets_in_order (m ∷ ms) v =
    concat_map-append payload (packets m) (concat_map packets ms)
    ∙ ap₂ ◌++◌ (packets-payload m v.0) (payload-packets_in_order ms v.1)

-- The bytes that the CIN table of main.c counts in the packets parsed from a list of messages are the
-- bytes of these messages, with every status byte written out.
pub payload-feed-wires :
    (ms : List Message) (ps : PortParser)
    → Each IsMessage ms
    → concat_map payload (feed ps (concat_map wire ms)).1 ≡ concat_map expanded ms
payload-feed-wires ms ps v =
    ap (concat_map payload) (feed-wires ms ps v) ∙ payload-packets_in_order ms v
