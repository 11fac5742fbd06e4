-- ===== src/RxPump/Round.antt =====
-- One round of the inner loop of `midi_rx_pump`: a byte off a FIFO, through the parser, into the ring.
use mathlib.Core.Path.{subst}
use native.Mathlib.Decide.{ℕ_discrete}
use midex_class_firmware.Base.{
  ℕ, ◌≤◌, ◌<◌, ◌≡◌, ◌≢◌, ◌∙◌, sym, ap, refl, true, Option, none, some, ==_refl, ==_of_ne, write,
  write_self, write_ne, ◌∷◌, ◌++◌, length, arith, append-nil, Each, concat_map,
}
use midex_class_firmware.Parser.{Packet, parse_byte, packets_of}
use midex_class_firmware.Parser.Shape.{IsWellFormed, parse_byte-IsValid, parse_byte-IsWellFormed}
use midex_class_firmware.Parser.Shape
use midex_class_firmware.Uart.{Capture, uart_rx_available, uart_rx_dequeue}
use midex_class_firmware.Uart.Fifo
use midex_class_firmware.Uart.Fifo.{
  waiting, uart_rx_dequeue-IsValid, waiting-uart_rx_dequeue, waiting-uart_rx_dequeue_other,
  waiting-none,
}
use midex_class_firmware.RxPump.{Rx, emit, emit?, put, parse_byte_into_ring, drain_one}
use midex_class_firmware.RxPump.Queue.{InRing, pending, frame, pending-emit, emit?-InRing}

-- The invariant of the receive side.
pub record IsValid (s : Rx) : Type 0 where
  pub ring : InRing s
  pub fifos : Fifo.IsValid s.capture
  pub parsers : (p : ℕ) → p < 8 → Shape.IsValid (s.parser p)
  pub small : (p : ℕ) → p < 8 → Each (λ b. b < 256) (waiting s.capture p)

-- What stays as it is when only the ring's bytes are written.
record SameBut (s t : Rx) : Type 0 where
  same_parser : t.parser ≡ s.parser
  same_capture : t.capture ≡ s.capture
  same_in2 : t.in2 ≡ s.in2

emit?_same : (cn : ℕ) (out : Option Packet) (s : Rx) → SameBut s (emit? cn out s)
unfolding emit? emit put
emit?_same cn none s = record { same_parser = refl; same_capture = refl; same_in2 = refl }
emit?_same cn (some p) s = record { same_parser = refl; same_capture = refl; same_in2 = refl }

pending-emit? :
    (cn : ℕ) (out : Option Packet) (s : Rx)
    → InRing s
    → cn < 8
    → Each IsWellFormed (packets_of out)
    → length (pending s) ≤ 251
    → pending (emit? cn out s) ≡ pending s ++ concat_map (frame cn) (packets_of out)
unfolding emit?
pending-emit? cn none s v c w h = sym (append-nil (pending s))
pending-emit? cn (some p) s v c w h = pending-emit cn p s v (omega arith) w.0.cin_high h

-- What one round does.
pub record Round (p : ℕ) (s t : Rx) : Type 0 where
  pub byte : ℕ
  pub byte_small : byte < 256
  pub taken : waiting s.capture p ≡ byte ∷ waiting t.capture p
  pub parsed : t.parser p ≡ (parse_byte byte (s.parser p)).0
  pub queued_up :
      pending t ≡ pending s ++ concat_map (frame p) (packets_of (parse_byte byte (s.parser p)).1)
  pub valid : IsValid t
  pub others :
      (q : ℕ) → q ≢ p → (t.parser q ≡ s.parser q) × (waiting t.capture q ≡ waiting s.capture q)
  pub in2_kept : t.in2 ≡ s.in2

write_all {ℓ κ} :
    {A : Type ℓ} (P : A → Type κ) (m : ℕ → A) (i : ℕ) (v : A) (j : ℕ)
    → P v
    → P (m j)
    → P (write m i v j)
write_all P m i v j new old = elim (ℕ_discrete j i) [
  | yes e ↦ rw (e, ==_refl i) new
  | no n ↦ rw (==_of_ne j i n) old
]

dequeue_small :
    (p q : ℕ) (c : Capture)
    → Each (λ x. x < 256) (waiting c q)
    → Each (λ x. x < 256) (waiting (uart_rx_dequeue p c).1 p)
    → Each (λ x. x < 256) (waiting (uart_rx_dequeue p c).1 q)
dequeue_small p q c old new = elim (ℕ_discrete q p) [
  | yes e ↦ subst (λ r. Each (λ x. x < 256) (waiting (uart_rx_dequeue p c).1 r)) (sym e) new
  | no n ↦ subst (Each (λ x. x < 256)) (sym (waiting-uart_rx_dequeue_other p q c n)) old
]

pub drain_one-Round :
    (p : ℕ) (s : Rx)
    → p < 8
    → IsValid s
    → uart_rx_available p s.capture ≡ true
    → length (pending s) ≤ 251
    → Round p s (drain_one p s)
unfolding drain_one parse_byte_into_ring
drain_one-Round p s h v a room =
    let b = (uart_rx_dequeue p s.capture).0 in
    let c = (uart_rx_dequeue p s.capture).1 in
    let ps = (parse_byte b (s.parser p)).0 in
    let out = (parse_byte b (s.parser p)).1 in
    let mid : Rx = record s { capture = c; parser = write s.parser p ps } in
    let taken_is : waiting s.capture p ≡ b ∷ waiting c p =
      waiting-uart_rx_dequeue p s.capture v.fifos a in
    let small_b : (b < 256) × Each (λ x. x < 256) (waiting c p) =
      subst (Each (λ x. x < 256)) taken_is (v.small p h) in
    let same = emit?_same p out mid in
    let well : Each IsWellFormed (packets_of out) =
      parse_byte-IsWellFormed b (s.parser p) small_b.0 (v.parsers p h) in
    let new_valid : Shape.IsValid ps =
      parse_byte-IsValid b (s.parser p) small_b.0 (v.parsers p h) in
    record {
      byte = b;
      byte_small = small_b.0;
      taken = taken_is ∙ ap (λ d. b ∷ waiting d p) (sym same.same_capture);
      parsed = ap (λ f. f p) same.same_parser ∙ write_self s.parser p ps;
      queued_up = pending-emit? p out mid v.ring h well room;
      valid = record {
        ring = emit?-InRing p out mid v.ring;
        fifos =
            subst Fifo.IsValid (sym same.same_capture)
              (uart_rx_dequeue-IsValid p s.capture v.fifos);
        parsers = λ q hq.
            subst (λ f. Shape.IsValid (f q)) (sym same.same_parser)
              (write_all Shape.IsValid s.parser p ps q new_valid (v.parsers q hq));
        small = λ q hq.
            subst (λ d. Each (λ x. x < 256) (waiting d q)) (sym same.same_capture)
              (dequeue_small p q s.capture (v.small q hq) small_b.1);
      };
      others = λ q n. (
        ap (λ f. f q) same.same_parser ∙ write_ne s.parser p q ps n,
        ap (λ d. waiting d q) same.same_capture ∙ waiting-uart_rx_dequeue_other p q s.capture n,
      );
      in2_kept = same.same_in2;
    }
