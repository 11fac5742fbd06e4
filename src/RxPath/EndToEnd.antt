-- ===== src/RxPath/EndToEnd.antt =====
-- From the instruments to the host: what the host reads off EP2-IN, cable by cable.
use midex_class_firmware.Base.{
  ℕ, ◌+◌, ◌*◌, ◌/◌, ◌%◌, ◌<◌, ◌≡◌, ◌∙◌, sym, ap, ap₂, refl, List, [], ◌∷◌, ◌++◌, append-nil,
  concat_map, Each, arith,
}
use midex_class_firmware.Config.{Board}
use midex_class_firmware.Parser.{Packet, packet, feed}
use midex_class_firmware.Parser.Shape.{IsWellFormed}
use midex_class_firmware.Parser.Messages.{Message, IsMessage, wire, packets}
use midex_class_firmware.Parser.Roundtrip.{feed-wires}
use midex_class_firmware.Uart.Fifo.{waiting}
use midex_class_firmware.RxPump.{Rx}
use midex_class_firmware.RxPump.Queue.{pending, frame}
use midex_class_firmware.RxPump.Round.{IsValid}
use midex_class_firmware.RxPump.Pass.{frames, of_cable}
use midex_class_firmware.RxPath.{System, Event, in_flight, run, arrivals, IsEvent}
use midex_class_firmware.RxPath.Counter.{overflows}
use midex_class_firmware.RxPath.Flow.{Flow}
use midex_class_firmware.RxPath.Steps.{run-Flow}

-- The bytes of EP2-IN as the host's class driver reads them: a packet is four bytes, the first with
-- the cable above the CIN.
abbrev pub deframe : List ℕ → List (ℕ × Packet)
deframe (a ∷ b ∷ c ∷ d ∷ rest) = (a / 16, packet (a % 16) b c d) ∷ deframe rest
deframe _ = []

deframe-frame :
    (cn : ℕ) (k : Packet) (rest : List ℕ)
    → k.cin < 16
    → deframe (frame cn k ++ rest) ≡ (cn, k) ∷ deframe rest
deframe-frame cn k rest h =
    ap₂ (λ c i. (c, packet i k.b0 k.b1 k.b2) ∷ deframe rest) (cable cn k.cin h) (low cn k.cin h)
  where
    cable : (cn i : ℕ) → i < 16 → (cn * 16 + i) / 16 ≡ cn
    cable cn i h = omega arith

    low : (cn i : ℕ) → i < 16 → (cn * 16 + i) % 16 ≡ i
    low cn i h = omega arith

deframe-frames :
    (es : List (ℕ × Packet)) → Each (λ e. IsWellFormed e.1) es → deframe (frames es) ≡ es
deframe-frames [] w = refl
deframe-frames ((cn, k) ∷ es) w =
    deframe-frame cn k (frames es) w.0.cin_high ∙ ap (λ l. (cn, k) ∷ l) (deframe-frames es w.1)

-- Nothing is on its way to the host at any port.
pub record IsClear (s : Rx) : Type 0 where
  pub unsent : in_flight s ≡ []
  pub unqueued : pending s ≡ []
  pub unread : (p : ℕ) → p < 8 → waiting s.capture p ≡ []

-- The host has read nothing but what was parsed behind the start.
heard :
    (came : ℕ → List ℕ) (a b : System)
    → a.host ≡ []
    → IsClear a.rx
    → IsClear b.rx
    → (f : Flow came a b) → b.host ≡ frames f.sent
heard came a b none before now f =
    sym (append-nil b.host)
    ∙ sym (append-nil (b.host ++ []))
    ∙ sym (ap₂ (λ x y. b.host ++ x ++ y) now.unsent now.unqueued)
    ∙ f.streamed
    ∙ ap (λ l. l ++ frames f.sent)
        (ap₂ (λ x y. a.host ++ x ++ y) before.unsent before.unqueued ∙ ap (λ l. l ++ [] ++ []) none)

all_taken :
    (p : ℕ) (came : ℕ → List ℕ) (a b : System)
    → p < 8
    → IsClear a.rx
    → IsClear b.rx
    → (f : Flow came a b) → (f.port p).consumed ≡ came p
all_taken p came a b h before now f =
    sym (append-nil (f.port p).consumed)
    ∙ sym (ap (λ l. (f.port p).consumed ++ l) (now.unread p h))
    ∙ sym (f.port p).taken
    ∙ ap (λ l. l ++ came p) (before.unread p h)

-- The host has read nothing and nothing is on its way; then ticks, turns, sends and reads happen in any
-- order, in which the receiver of port `p` shows the bytes of these messages, behind which the overflow
-- counter stands at zero, and behind which again nothing is on its way. Then the packets of cable `p`
-- in what the host has read are those of the messages, in their order, whatever the other ports did.
pub of_cable-run :
    (board : Board) (es : List Event) (a : System) (p : ℕ) (ms : List Message)
    → p < 8
    → Each (IsEvent board) es
    → IsValid a.rx
    → a.host ≡ []
    → IsClear a.rx
    → arrivals board p es a ≡ concat_map wire ms
    → Each IsMessage ms
    → overflows (run board es a) ≡ 0
    → IsClear (run board es a).rx
    → of_cable p (deframe (run board es a).host) ≡ concat_map packets ms
of_cable-run board es a p ms h each v none before came meant zero_left now =
    let b = run board es a in
    let all : ℕ → List ℕ = λ q. arrivals board q es a in
    let f : Flow all a b = run-Flow board es a each v zero_left in
    ap (λ l. of_cable p (deframe l)) (heard all a b none before now f)
    ∙ ap (of_cable p) (deframe-frames f.sent f.well)
    ∙ (f.port p).packets
    ∙ ap (λ l. (feed (a.rx.parser p) l).1) (all_taken p all a b h before now f ∙ came)
    ∙ feed-wires ms (a.rx.parser p) meant
