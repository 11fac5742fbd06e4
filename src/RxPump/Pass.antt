-- ===== src/RxPump/Pass.antt =====
-- One whole pass of `midi_rx_pump`: all ports are drained, then packets are shipped.
use mathlib.Core.Path.{subst}
use native.Mathlib.Decide.{ℕ_discrete}
use midex_class_firmware.Base.{
  ℕ, ◌≡◌, ◌≢◌, ◌⊎◌, inl, inr, ◌∙◌, sym, ap, ap₂, refl, true, false, Bool-cases, ◌==◌, ==_refl,
  ==_of_ne, if◌then◌else◌, for_ports, for_ports_inv, List, [], ◌∷◌, ◌++◌, map, append_assoc,
  append-nil, concat_map, concat_map-append,
}
use midex_class_firmware.Parser.{Packet, feed}
use midex_class_firmware.Parser.Roundtrip.{feed-append, feed-append_state}
use midex_class_firmware.Uart.Fifo.{waiting}
use midex_class_firmware.RxPump.{Rx, drain, midi_rx_pump}
use midex_class_firmware.RxPump.Queue.{pending, frame}
use midex_class_firmware.RxPump.Round.{IsValid}
use midex_class_firmware.RxPump.Drain.{Drained, drain-Drained}
use midex_class_firmware.RxPump.Ship.{Shipped, ship_busy, ship-Shipped}

-- Packets with their cables, and those of one cable.
abbrev pub frames : List (ℕ × Packet) → List ℕ
frames = concat_map (λ e. frame e.0 e.1)

abbrev pub of_cable : ℕ → List (ℕ × Packet) → List Packet
of_cable q [] = []
of_cable q (e ∷ es) = if e.0 == q then e.1 ∷ of_cable q es else of_cable q es

abbrev pub on : ℕ → List Packet → List (ℕ × Packet)
on p = map (λ k. (p, k))

pub frames-on : (p : ℕ) (ks : List Packet) → frames (on p ks) ≡ concat_map (frame p) ks
frames-on p [] = refl
frames-on p (k ∷ ks) = ap (λ l. frame p k ++ l) (frames-on p ks)

pub of_cable-on_own : (p : ℕ) (ks : List Packet) → of_cable p (on p ks) ≡ ks
of_cable-on_own p [] = refl
of_cable-on_own p (k ∷ ks) = rw (==_refl p) (ap (λ l. k ∷ l) (of_cable-on_own p ks))

pub of_cable-on_other : (p q : ℕ) (ks : List Packet) → p ≢ q → of_cable q (on p ks) ≡ []
of_cable-on_other p q [] n = refl
of_cable-on_other p q (k ∷ ks) n = rw (==_of_ne p q n) (of_cable-on_other p q ks n)

pub of_cable-append :
    (q : ℕ) (xs ys : List (ℕ × Packet)) → of_cable q (xs ++ ys) ≡ of_cable q xs ++ of_cable q ys
of_cable-append q [] ys = refl
of_cable-append q (e ∷ xs) ys = elim (Bool-cases (e.0 == q)) [
  | inl h ↦ rw h (ap (λ l. e.1 ∷ l) (of_cable-append q xs ys))
  | inr h ↦ rw h (of_cable-append q xs ys)
]

-- What happened at port `q`: these bytes were taken off its FIFO, and these packets parsed from them.
pub record Port (q : ℕ) (s t : Rx) (sent : List (ℕ × Packet)) : Type 0 where
  pub consumed : List ℕ
  pub taken : waiting s.capture q ≡ consumed ++ waiting t.capture q
  pub parsed : t.parser q ≡ (feed (s.parser q) consumed).0
  pub packets : of_cable q sent ≡ (feed (s.parser q) consumed).1

-- Some ports have been drained: the packets behind the ring are, cable by cable, those parsed from
-- the bytes taken off.
pub record Passed (s t : Rx) : Type 0 where
  pub sent : List (ℕ × Packet)
  pub queued_up : pending t ≡ pending s ++ frames sent
  pub port : (q : ℕ) → Port q s t sent
  pub valid : IsValid t
  pub in2_kept : t.in2 ≡ s.in2

Passed-refl : (s : Rx) → IsValid s → Passed s s
Passed-refl s v = record {
  sent = [];
  queued_up = sym (append-nil (pending s));
  port = λ q. unfold feed in record { consumed = []; taken = refl; parsed = refl; packets = refl };
  valid = v;
  in2_kept = refl;
}

-- Port `p` is drained next.
module _ (p : ℕ) (s m t : Rx) (a : Passed s m) (d : Drained p 16 m t) where
  abbrev more : List Packet
  more = (feed (m.parser p) d.consumed).1

  own-Port : Port p s t (a.sent ++ on p more)
  own-Port =
      let b = a.port p in
      let at = feed (m.parser p) d.consumed in
      let there : feed (m.parser p) d.consumed ≡ feed (feed (s.parser p) b.consumed).0 d.consumed =
        ap (λ ps. feed ps d.consumed) b.parsed in
      record {
        consumed = b.consumed ++ d.consumed;
        taken =
            b.taken
            ∙ ap (λ l. b.consumed ++ l) d.taken
            ∙ sym (append_assoc b.consumed d.consumed (waiting t.capture p));
        parsed =
            d.parsed
            ∙ ap (λ f. f.0) there
            ∙ sym (feed-append_state (s.parser p) b.consumed d.consumed);
        packets =
            of_cable-append p a.sent (on p more)
            ∙ ap₂ ◌++◌ b.packets (of_cable-on_own p more ∙ ap (λ f. f.1) there)
            ∙ sym (feed-append (s.parser p) b.consumed d.consumed);
      }

  other-Port : (q : ℕ) → q ≢ p → Port q s t (a.sent ++ on p more)
  other-Port q n =
      let b = a.port q in
      record {
        consumed = b.consumed;
        taken = b.taken ∙ ap (λ l. b.consumed ++ l) (sym (d.others q n).1);
        parsed = (d.others q n).0 ∙ b.parsed;
        packets =
            of_cable-append q a.sent (on p more)
            ∙ ap (λ l. of_cable q a.sent ++ l) (of_cable-on_other p q more (λ e. n (sym e)))
            ∙ append-nil (of_cable q a.sent)
            ∙ b.packets;
      }

  any-Port : (q : ℕ) → Port q s t (a.sent ++ on p more)
  any-Port q = elim (ℕ_discrete q p) [
    | yes e ↦ subst (λ r. Port r s t (a.sent ++ on p more)) (sym e) own-Port
    | no n ↦ other-Port q n
  ]

  Passed-on : Passed s t
  Passed-on = record {
    sent = a.sent ++ on p more;
    queued_up =
        d.queued_up
        ∙ ap₂ ◌++◌ a.queued_up (sym (frames-on p more))
        ∙ append_assoc (pending s) (frames a.sent) (frames (on p more))
        ∙ ap (λ l. pending s ++ l)
            (sym (concat_map-append (λ e. frame e.0 e.1) a.sent (on p more)));
    port = any-Port;
    valid = d.valid;
    in2_kept = d.in2_kept ∙ a.in2_kept;
  }

-- The state between the two halves of a pass.
abbrev pub drained : Rx → Rx
drained = for_ports (drain 16) 8

pub drained-Passed : (s : Rx) → IsValid s → Passed s (drained s)
drained-Passed s v =
    for_ports_inv (drain 16) (Passed s) 8 s
      (λ p m h a. Passed-on p s m (drain 16 p m) a (drain-Drained 16 p m h a.valid))
      (Passed-refl s v)

-- From a valid state a pass of `midi_rx_pump` first moves bytes from the fronts of the FIFOs through
-- the parsers: behind the ring's bytes come packets that are, cable by cable and in order, those
-- parsed from the bytes taken off that port, and the state stays valid. Then, while the endpoint is
-- busy, it does nothing, and else it ships whole packets from the front of the ring.
pub midi_rx_pump-Passed :
    (s : Rx)
    → IsValid s
    → Passed s (drained s)
      × (((s.in2.epbsy ≡ true) × (midi_rx_pump s ≡ drained s))
          ⊎ ((s.in2.epbsy ≡ false) × Shipped (drained s) (midi_rx_pump s)))
unfolding midi_rx_pump
midi_rx_pump-Passed s v =
    let a = drained-Passed s v in
    let kept : (drained s).in2.epbsy ≡ s.in2.epbsy = ap (λ i. i.epbsy) a.in2_kept in
    (
      a,
      elim (Bool-cases s.in2.epbsy) [
        | inl e ↦ inl (e, ship_busy (drained s) (kept ∙ e))
        | inr e ↦ inr (e, ship-Shipped (drained s) a.valid.ring (kept ∙ e))
      ],
    )
