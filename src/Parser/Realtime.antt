-- ===== src/Parser/Realtime.antt =====
-- System real-time bytes may stand anywhere in a stream: they are sent on at once, and the rest is
-- parsed as if they were not there.
use midex_class_firmware.Base.{
  ℕ, ◌<◌, ◌≡◌, refl, ap, ap₂, ◌∙◌, Bool, true, false, List, [], ◌∷◌, ◌++◌, arith, Each, map, some,
  if◌then◌else◌, leb, ◌==◌, not, Bool-cases, inl, inr,
}
use midex_class_firmware.Parser.{PortParser, Packet, packet, packets_of, parse_byte, feed}
use midex_class_firmware.Parser.Shape.{IsValid, parse_byte-IsValid}

abbrev pub keep {ℓ} : {A : Type ℓ} → (A → Bool) → List A → List A
keep p [] = []
keep p (x ∷ xs) = if p x then x ∷ keep p xs else keep p xs

abbrev pub is_realtime : ℕ → Bool
is_realtime b = leb 0xF8 b

-- Marked by its CIN.
abbrev pub is_realtime_packet : Packet → Bool
is_realtime_packet p = p.cin == 15

keep-append {ℓ} :
    {A : Type ℓ} (p : A → Bool) (xs ys : List A) → keep p (xs ++ ys) ≡ keep p xs ++ keep p ys
keep-append p [] ys = refl
keep-append p (x ∷ xs) ys = elim (Bool-cases (p x)) [
  | inl e ↦ rw e (ap (λ l. x ∷ l) (keep-append p xs ys))
  | inr e ↦ rw e (keep-append p xs ys)
]

realtime_passes :
    (b : ℕ) (ps : PortParser)
    → is_realtime b ≡ true
    → parse_byte b ps ≡ (ps, some (packet 15 b 0 0))
unfolding parse_byte
realtime_passes b ps h = rw h

others_stay :
    (b : ℕ) (ps : PortParser)
    → IsValid ps
    → is_realtime b ≡ false
    → (keep is_realtime_packet (packets_of (parse_byte b ps).1) ≡ [])
      × (keep (λ p. not (is_realtime_packet p)) (packets_of (parse_byte b ps).1)
          ≡ packets_of (parse_byte b ps).1)
unfolding parse_byte
others_stay b ps v h = ground arith

abbrev pub is_other : ℕ → Bool
is_other b = not (is_realtime b)

abbrev pub is_other_packet : Packet → Bool
is_other_packet p = not (is_realtime_packet p)

abbrev pub Bytes : List ℕ → Type 0
Bytes = Each (λ b. b < 256)

state_blind : (ps : PortParser) (bs : List ℕ) → (feed ps bs).0 ≡ (feed ps (keep is_other bs)).0
unfolding feed
state_blind ps [] = refl
state_blind ps (b ∷ bs) = elim (Bool-cases (is_realtime b)) [
  | inl e ↦ rw (e, realtime_passes b ps e) (state_blind ps bs)
  | inr e ↦ rw e (state_blind (parse_byte b ps).0 bs)
]

others_same :
    (ps : PortParser) (bs : List ℕ)
    → Bytes bs
    → IsValid ps
    → keep is_other_packet (feed ps bs).1 ≡ (feed ps (keep is_other bs)).1
unfolding feed
others_same ps [] h v = refl
others_same ps (b ∷ bs) h v = elim (Bool-cases (is_realtime b)) [
  | inl e ↦ rw (e, realtime_passes b ps e) (others_same ps bs h.1 v)
  | inr e ↦ rw e (
      keep-append is_other_packet (packets_of (parse_byte b ps).1) (feed (parse_byte b ps).0 bs).1
      ∙ ap₂ ◌++◌ (others_stay b ps v e).1
          (others_same (parse_byte b ps).0 bs h.1 (parse_byte-IsValid b ps h.0 v)))
]

realtime_sent :
    (ps : PortParser) (bs : List ℕ)
    → Bytes bs
    → IsValid ps
    → keep is_realtime_packet (feed ps bs).1 ≡ map (λ b. packet 15 b 0 0) (keep is_realtime bs)
unfolding feed
realtime_sent ps [] h v = refl
realtime_sent ps (b ∷ bs) h v = elim (Bool-cases (is_realtime b)) [
  | inl e ↦
      rw (e, realtime_passes b ps e) (ap (λ l. packet 15 b 0 0 ∷ l) (realtime_sent ps bs h.1 v))
  | inr e ↦ rw e (
      keep-append is_realtime_packet (packets_of (parse_byte b ps).1)
        (feed (parse_byte b ps).0 bs).1
      ∙ ap₂ ◌++◌ (others_stay b ps v e).0
          (realtime_sent (parse_byte b ps).0 bs h.1 (parse_byte-IsValid b ps h.0 v)))
]

-- From a valid state and for any bytes, the real-time bytes (from 0xF8) are sent in order as packets
-- with CIN 15, the other packets are those of the bytes without the real-time ones, and so is the
-- state at the end: a real-time byte may stand inside any message.
pub feed-keep :
    (ps : PortParser) (bs : List ℕ)
    → Bytes bs
    → IsValid ps
    → (keep is_realtime_packet (feed ps bs).1 ≡ map (λ b. packet 15 b 0 0) (keep is_realtime bs))
      × (keep is_other_packet (feed ps bs).1 ≡ (feed ps (keep is_other bs)).1)
      × ((feed ps bs).0 ≡ (feed ps (keep is_other bs)).0)
feed-keep ps bs h v = (realtime_sent ps bs h v, others_same ps bs h v, state_blind ps bs)
