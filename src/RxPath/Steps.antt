-- ===== src/RxPath/Steps.antt =====
-- Each step of the receive path, and any run of them, as an entry in the ledger of `Flow`.
use mathlib.Core.Path.{subst}
use native.Mathlib.Decide.{ℕ_discrete}
use midex_class_firmware.Base.{
  ℕ, ◌+◌, ◌<◌, ◌≡◌, inl, inr, ◌∙◌, sym, ap, refl, true, false, Bool-cases, ◌==◌, ◌-◌, ◌*◌, ◌%◌,
  List, [], ◌∷◌, ◌++◌, length, length-append, append_assoc, append-nil, concat_map, Each,
  Each-append, Each-front, arith,
}
use midex_class_firmware.Config.{Board}
use midex_class_firmware.Parser.{Packet, feed}
use midex_class_firmware.Uart.{Capture, Lines, uart_rx_isr, sweep}
use midex_class_firmware.Uart.Fifo
use midex_class_firmware.Parser.Shape.{IsWellFormed, feed-IsWellFormed}
use midex_class_firmware.Uart.Fifo.{waiting}
use midex_class_firmware.Uart.Sweep.{found}
use midex_class_firmware.Uart.Lossless.{shown, sweep-lossless, sweep-IsValid}
use midex_class_firmware.RxPath.Counter.{overflows, overflows-run}
use midex_class_firmware.RxPump.{Rx, drain, ship}
use midex_class_firmware.RxPump.Queue.{pending, frame}
use midex_class_firmware.RxPump.Round.{IsValid}
use midex_class_firmware.RxPump.Drain.{Drained, drain-Drained}
use midex_class_firmware.RxPump.Ship.{Shipped, ship_busy, ship-Shipped}
use midex_class_firmware.RxPump.Pass.{on, frames-on, of_cable-on_own, of_cable-on_other}
use midex_class_firmware.RxPath.{
  System, Event, tick, turn, send, take, in_flight, host_reads, step, run, sweeps, arrival,
  arrivals, IsEvent, stream,
}
use midex_class_firmware.RxPath.Flow.{Port, Flow, quiet, then_Flow, still_Flow, keeps_IsValid}

take_Flow : (a : System) → IsValid a.rx → Flow (λ q. []) a (host_reads a)
take_Flow a v =
    still_Flow a (host_reads a)
      (ap (λ l. l ++ pending a.rx) (append-nil (a.host ++ in_flight a.rx))) refl refl (λ h. h)
      (keeps_IsValid a.rx (host_reads a).rx v v.ring.0 v.ring.1 refl refl)

module _ {s t : Rx} (d : Shipped s t) where
  nothing : length d.moved == 0 ≡ true → [] ≡ d.moved
  nothing e = only_nil d.moved e
    where
      only_nil : (l : List ℕ) → length l == 0 ≡ true → [] ≡ l
      only_nil [] e = refl
      only_nil (x ∷ l) e = absurd (ground arith)

  in_flight-Shipped : in_flight t ≡ d.moved
  in_flight-Shipped = elim (Bool-cases (length d.moved == 0)) [
    | inl e ↦ rw (d.armed, e) (nothing e)
    | inr e ↦ rw (d.armed, d.counted, e) d.buffered
  ]

  stream-Shipped :
      (h : List ℕ)
      → s.in2.epbsy ≡ false
      → h ++ in_flight t ++ pending t ≡ h ++ in_flight s ++ pending s
  stream-Shipped h free =
      rw (free, d.taken, in_flight-Shipped)
        (append_assoc h d.moved (pending t)
          ∙ sym (ap (λ l. l ++ (d.moved ++ pending t)) (append-nil h)))

-- The second half of a pass of the pump.
send_Flow : (board : Board) (a : System) → IsValid a.rx → Flow (λ q. []) a (step board send a)
unfolding step
send_Flow board a v = elim (Bool-cases a.rx.in2.epbsy) [
  | inl e ↦ rw (ship_busy a.rx e) (still_Flow a a refl refl refl (λ h. h) v)
  | inr e ↦
      let d = ship-Shipped a.rx v.ring e in
      still_Flow a (record a { rx = ship a.rx }) (stream-Shipped d a.host e) d.same_parser
        d.same_capture
        (λ h.
          omega (arith, h, d.whole, ap length d.taken, length-append d.moved (pending (ship a.rx))))
        (keeps_IsValid a.rx (ship a.rx) v d.ring.0 d.ring.1 d.same_parser d.same_capture)
]

-- A turn at port `p`.
module _ (p : ℕ) (s t : Rx) (d : Drained p 1 s t) where
  abbrev more : List Packet
  more = (feed (s.parser p) d.consumed).1

  turned_Port : (q : ℕ) → Port q [] (on p more) s t
  turned_Port q = elim (ℕ_discrete q p) [
    | yes e ↦
        subst (λ r. Port r [] (on p more) s t) (sym e)
          (record {
            consumed = d.consumed;
            taken = append-nil (waiting s.capture p) ∙ d.taken;
            parsed = d.parsed;
            packets = of_cable-on_own p more;
          })
    | no n ↦
        quiet q (on p more) s t (of_cable-on_other p q more (λ e. n (sym e))) (d.others q n).1
          (d.others q n).0
  ]

pub length-frames : (p : ℕ) (ks : List Packet) → length (concat_map (frame p) ks) ≡ 4 * length ks
length-frames p [] = refl
length-frames p (k ∷ ks) = omega (arith, length-frames p ks)

Each-on : (p : ℕ) (ks : List Packet) → Each IsWellFormed ks → Each (λ e. IsWellFormed e.1) (on p ks)
Each-on p [] w = tt
Each-on p (k ∷ ks) w = (w.0, Each-on p ks w.1)

turn_Flow :
    (board : Board) (p : ℕ) (a : System)
    → p < 8
    → IsValid a.rx
    → Flow (λ q. []) a (step board (turn p) a)
unfolding step
turn_Flow board p a h v =
    let d = drain-Drained 1 p a.rx h v in
    let more = (feed (a.rx.parser p) d.consumed).1 in
    record {
      sent = on p more;
      streamed =
          rw (d.in2_kept, d.queued_up)
            (sym
                (append_assoc (a.host ++ in_flight a.rx) (pending a.rx) (concat_map (frame p) more))
              ∙ ap (λ l. stream a ++ l) (sym (frames-on p more)));
      port = turned_Port p a.rx (drain 1 p a.rx) d;
      well = Each-on p more (
          feed-IsWellFormed (a.rx.parser p) d.consumed
            (Each-front (λ b. b < 256) d.consumed (waiting (drain 1 p a.rx).capture p)
              (subst (Each (λ b. b < 256)) d.taken (v.small p h)))
            (v.parsers p h));
      whole = λ h. omega (
        arith,
        h,
        ap length d.queued_up,
        length-append (pending a.rx) (concat_map (frame p) more),
        length-frames p more,
      );
      valid = d.valid;
    }

-- Bytes arrive, and nothing else happens.
arrive_Flow :
    (came : ℕ → List ℕ) (a : System) (c : Capture)
    → IsValid a.rx
    → Fifo.IsValid c
    → ((q : ℕ) → waiting c q ≡ waiting a.rx.capture q ++ came q)
    → ((q : ℕ) → q < 8 → Each (λ b. b < 256) (came q))
    → Flow came a (record a { rx = record (a.rx) { capture = c } })
unfolding feed
arrive_Flow came a c v w holds small = record {
  sent = [];
  streamed = sym (append-nil (stream a));
  port = λ q. record { consumed = []; taken = sym (holds q); parsed = refl; packets = refl };
  well = tt;
  whole = λ h. h;
  valid = record {
    ring = v.ring;
    fifos = w;
    parsers = v.parsers;
    small = λ q h.
        subst (Each (λ b. b < 256)) (sym (holds q))
          (Each-append (λ b. b < 256) (waiting a.rx.capture q) (came q) (v.small q h) (small q h));
  };
}

tick_Flow :
    (board : Board) (lines : Lines) (a : System)
    → IsEvent board (tick lines)
    → IsValid a.rx
    → overflows (step board (tick lines) a) ≡ 0
    → Flow (λ q. arrival board q (tick lines) a) a (step board (tick lines) a)
unfolding step uart_rx_isr
tick_Flow board lines a small v h = elim (Bool-cases (sweeps a.rx.capture)) [
  | inl e ↦
      let c = record (a.rx.capture) { rx_tick_prescale = board.t0_prescale } in
      rw e (
        arrive_Flow (λ q. shown (found board lines q)) a (sweep board lines c) v
          (sweep-IsValid board lines c v.fifos)
          (λ q. sweep-lossless board lines q c v.fifos (rw e at h)) small)
  | inr e ↦ rw e (
      arrive_Flow (λ q. []) a
        (record (a.rx.capture) {
          rx_tick_prescale = (a.rx.capture.rx_tick_prescale + 256 - 1) % 256;
        })
        v v.fifos (λ q. sym (append-nil (waiting a.rx.capture q))) (λ q _. tt))
]

step-Flow :
    (board : Board) (e : Event) (a : System)
    → IsEvent board e
    → IsValid a.rx
    → overflows (step board e a) ≡ 0
    → Flow (λ q. arrival board q e a) a (step board e a)
step-Flow board (tick lines) a i v h = tick_Flow board lines a i v h
step-Flow board (turn p) a i v h = turn_Flow board p a i v
step-Flow board send a i v h = send_Flow board a v
step-Flow board take a i v h = unfold step in take_Flow a v

still_here : (a : System) → IsValid a.rx → Flow (λ q. []) a a
still_here a v = still_Flow a a refl refl refl (λ h. h) v

-- From a valid state, over any sequence of ticks, turns, sends and reads, in any order, in which the
-- receivers show bytes and behind which the overflow counter stands at zero: what the host has read,
-- what is in the endpoint and what is in the ring have grown, together, by whole packets at their end;
-- at every port the bytes that arrived were taken off its FIFO in their order, a part of them still
-- waiting there, and the packets of that cable are those that the port's parser makes of the bytes
-- taken off; and the state is valid again.
pub run-Flow :
    (board : Board) (es : List Event) (a : System)
    → Each (IsEvent board) es
    → IsValid a.rx
    → overflows (run board es a) ≡ 0
    → Flow (λ q. arrivals board q es a) a (run board es a)
unfolding run arrivals
run-Flow board [] a each v h = still_here a v
run-Flow board (e ∷ es) a each v h =
    let b = step board e a in
    let first = step-Flow board e a each.0 v (omega (arith, h, overflows-run board es b)) in
    then_Flow (λ q. arrival board q e a) (λ q. arrivals board q es b) a b (run board es b) first
      (run-Flow board es b each.1 first.valid h)
