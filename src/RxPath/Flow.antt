-- ===== src/RxPath/Flow.antt =====
-- What a run of the receive path does, step by step: the ledger of bytes and packets.
use mathlib.Core.Path.{subst}
use midex_class_firmware.Base.{
  ℕ, ◌<◌, ◌≡◌, ◌∙◌, sym, ap, ap₂, refl, ◌%◌, List, [], ◌++◌, length, append_assoc, append-nil,
  concat_map-append, Each, Each-append,
}
use midex_class_firmware.Parser.{Packet, feed}
use midex_class_firmware.Parser.Roundtrip.{feed-append, feed-append_state}
use midex_class_firmware.Uart.Fifo
use midex_class_firmware.Parser.Shape
use midex_class_firmware.Parser.Shape.{IsWellFormed, feed-IsWellFormed}
use midex_class_firmware.Uart.Fifo.{waiting}
use midex_class_firmware.RxPump.{Rx}
use midex_class_firmware.RxPump.Queue.{pending, frame}
use midex_class_firmware.RxPump.Round.{IsValid}
use midex_class_firmware.RxPump.Pass.{frames, of_cable, of_cable-append}
use midex_class_firmware.RxPath.{System, stream}

-- What happened at port `q` while the bytes `came` arrived there: these bytes were taken off its FIFO,
-- and these packets parsed from them.
pub record Port (q : ℕ) (came : List ℕ) (sent : List (ℕ × Packet)) (s t : Rx) : Type 0 where
  pub consumed : List ℕ
  pub taken : waiting s.capture q ++ came ≡ consumed ++ waiting t.capture q
  pub parsed : t.parser q ≡ (feed (s.parser q) consumed).0
  pub packets : of_cable q sent ≡ (feed (s.parser q) consumed).1

-- From one state to a later one, while `came q` arrived at port `q`.
pub record Flow (came : ℕ → List ℕ) (a b : System) : Type 0 where
  pub sent : List (ℕ × Packet)
  pub streamed : stream b ≡ stream a ++ frames sent
  pub port : (q : ℕ) → Port q (came q) sent a.rx b.rx
  pub well : Each (λ e. IsWellFormed e.1) sent
  pub whole : length (pending a.rx) % 4 ≡ 0 → length (pending b.rx) % 4 ≡ 0
  pub valid : IsValid b.rx

-- At a port where nothing arrives and nothing is taken.
pub quiet :
    (q : ℕ) (sent : List (ℕ × Packet)) (s t : Rx)
    → of_cable q sent ≡ []
    → waiting t.capture q ≡ waiting s.capture q
    → t.parser q ≡ s.parser q
    → Port q [] sent s t
quiet q sent s t none same same_parser =
    unfold feed in
    record {
      consumed = [];
      taken = append-nil (waiting s.capture q) ∙ sym same;
      parsed = same_parser;
      packets = none;
    }

then_Port :
    (q : ℕ) (x y : List ℕ) (m n : List (ℕ × Packet)) (s t u : Rx)
    → Port q x m s t
    → Port q y n t u
    → Port q (x ++ y) (m ++ n) s u
then_Port q x y m n s t u a b =
    let there : feed (t.parser q) b.consumed ≡ feed (feed (s.parser q) a.consumed).0 b.consumed =
      ap (λ ps. feed ps b.consumed) a.parsed in
    record {
      consumed = a.consumed ++ b.consumed;
      taken =
          sym (append_assoc (waiting s.capture q) x y)
          ∙ ap (λ l. l ++ y) a.taken
          ∙ append_assoc a.consumed (waiting t.capture q) y
          ∙ ap (λ l. a.consumed ++ l) b.taken
          ∙ sym (append_assoc a.consumed b.consumed (waiting u.capture q));
      parsed =
          b.parsed
          ∙ ap (λ f. f.0) there
          ∙ sym (feed-append_state (s.parser q) a.consumed b.consumed);
      packets =
          of_cable-append q m n
          ∙ ap₂ ◌++◌ a.packets (b.packets ∙ ap (λ f. f.1) there)
          ∙ sym (feed-append (s.parser q) a.consumed b.consumed);
    }

pub then_Flow :
    (x y : ℕ → List ℕ) (a b c : System) → Flow x a b → Flow y b c → Flow (λ q. x q ++ y q) a c
then_Flow x y a b c f g = record {
  sent = f.sent ++ g.sent;
  streamed =
      g.streamed
      ∙ ap (λ l. l ++ frames g.sent) f.streamed
      ∙ append_assoc (stream a) (frames f.sent) (frames g.sent)
      ∙ ap (λ l. stream a ++ l) (sym (concat_map-append (λ e. frame e.0 e.1) f.sent g.sent));
  port = λ q. then_Port q (x q) (y q) f.sent g.sent a.rx b.rx c.rx (f.port q) (g.port q);
  well = Each-append (λ e. IsWellFormed e.1) f.sent g.sent f.well g.well;
  whole = λ h. g.whole (f.whole h);
  valid = g.valid;
}

-- Nothing arrives, and nothing is parsed.
pub still_Flow :
    (a b : System)
    → stream b ≡ stream a
    → b.rx.parser ≡ a.rx.parser
    → b.rx.capture ≡ a.rx.capture
    → (length (pending a.rx) % 4 ≡ 0 → length (pending b.rx) % 4 ≡ 0)
    → IsValid b.rx
    → Flow (λ q. []) a b
still_Flow a b out parser capture whole v = record {
  sent = [];
  streamed = out ∙ sym (append-nil (stream a));
  port = λ q. quiet q [] a.rx b.rx refl (ap (λ c. waiting c q) capture) (ap (λ f. f q) parser);
  well = tt;
  whole = whole;
  valid = v;
}

pub keeps_IsValid :
    (s t : Rx)
    → IsValid s
    → t.rx_head < 256
    → t.rx_tail < 256
    → t.parser ≡ s.parser
    → t.capture ≡ s.capture
    → IsValid t
keeps_IsValid s t v h l parser capture = record {
  ring = (h, l);
  fifos = subst Fifo.IsValid (sym capture) v.fifos;
  parsers = λ p q. subst (λ f. Shape.IsValid (f p)) (sym parser) (v.parsers p q);
  small = λ p q. subst (λ c. Each (λ b. b < 256) (waiting c p)) (sym capture) (v.small p q);
}
