-- ===== src/RxPath/Counter.antt =====
-- No step of the receive path takes the overflow counter down.
use midex_class_firmware.Base.{
  ℕ, zero, suc, ◌≤◌, ◌≡◌, ◌∙◌, ap, refl, Bool, true, false, ◌&&◌, leb, ltb, ◌==◌, if◌then◌else◌,
  List, [], ◌∷◌, arith, Bool-cases, inl, inr, none, some, Option,
}
use midex_class_firmware.Config.{Board}
use midex_class_firmware.Parser.{Packet}
use midex_class_firmware.Uart.{Capture, Lines, uart_rx_isr, uart_rx_available, uart_rx_dequeue}
use midex_class_firmware.Uart.Lossless.{overflows-sweep}
use midex_class_firmware.RxPump.{
  Rx, emit, emit?, put, parse_byte_into_ring, drain_one, drain, copy_byte, fill, start, ship,
  rx_ring_count,
}
use midex_class_firmware.RxPath.{System, Event, tick, turn, send, take, step, run, sweeps}

-- The counter of a path's state.
abbrev pub overflows : System → ℕ
overflows a = a.rx.capture.uart_rx_overflows

emit?_capture : (cn : ℕ) (out : Option Packet) (s : Rx) → (emit? cn out s).capture ≡ s.capture
unfolding emit? emit put
emit?_capture cn none s = refl
emit?_capture cn (some k) s = refl

-- What a turn does to the capture's state is to take bytes off: what that keeps stays.
module _ (view : Capture → ℕ)
    (same : (p : ℕ) (c : Capture) → view (uart_rx_dequeue p c).1 ≡ view c) where
  drain_one_same : (p : ℕ) (s : Rx) → view (drain_one p s).capture ≡ view s.capture
  unfolding drain_one parse_byte_into_ring
  drain_one_same p s = ap view (emit?_capture p _ _) ∙ same p s.capture

  drain_same : (fuel p : ℕ) (s : Rx) → view (drain fuel p s).capture ≡ view s.capture
  unfolding drain
  drain_same zero p s = refl
  drain_same (suc fuel) p s = elim (Bool-cases (uart_rx_available p s.capture)) [
    | inr e ↦ rw (e, drain) refl
    | inl e ↦ elim (Bool-cases (ltb 251 (rx_ring_count s))) [
      | inl full ↦ rw (e, full, drain) refl
      | inr room ↦ rw (e, room, drain) (drain_same fuel p (drain_one p s) ∙ drain_one_same p s)
    ]
  ]

pub drain_overflows :
    (fuel p : ℕ) (s : Rx) → (drain fuel p s).capture.uart_rx_overflows ≡ s.capture.uart_rx_overflows
unfolding uart_rx_dequeue
drain_overflows = drain_same (λ c. c.uart_rx_overflows) (λ p c. refl)

pub drain_prescale :
    (fuel p : ℕ) (s : Rx) → (drain fuel p s).capture.rx_tick_prescale ≡ s.capture.rx_tick_prescale
unfolding uart_rx_dequeue
drain_prescale = drain_same (λ c. c.rx_tick_prescale) (λ p c. refl)

fill_capture : (fuel n : ℕ) (s : Rx) → (fill fuel (n, s)).1.capture ≡ s.capture
unfolding fill copy_byte
fill_capture zero n s = refl
fill_capture (suc fuel) n s = elim (Bool-cases (leb 4 (rx_ring_count s) && leb n 60)) [
  | inr e ↦ rw (e, fill) refl
  | inl e ↦ rw (e, fill) (fill_capture fuel _ _)
]

start_capture : (a : ℕ × Rx) → (start a).capture ≡ a.1.capture
unfolding start
start_capture (n, s) = elim (Bool-cases (n == 0)) [ inl e ↦ rw e refl | inr e ↦ rw e refl ]

pub ship_capture : (s : Rx) → (ship s).capture ≡ s.capture
unfolding ship
ship_capture s =
    either s.in2.epbsy s (start (fill 17 (0, s))) refl
      (start_capture (fill 17 (0, s)) ∙ fill_capture 17 0 s)
  where
    either :
        (b : Bool) (x y : Rx)
        → x.capture ≡ s.capture
        → y.capture ≡ s.capture
        → (if b then x else y).capture ≡ s.capture
    either true x y h k = h
    either false x y h k = k

isr_overflows :
    (board : Board) (lines : Lines) (c : Capture)
    → c.uart_rx_overflows ≤ (uart_rx_isr board lines c).uart_rx_overflows
unfolding uart_rx_isr
isr_overflows board lines c = elim (Bool-cases (sweeps c)) [
  | inl e ↦ rw e (overflows-sweep board lines (record c { rx_tick_prescale = board.t0_prescale }))
  | inr e ↦ rw e (omega arith)
]

overflows-step : (board : Board) (e : Event) (a : System) → overflows a ≤ overflows (step board e a)
unfolding step
overflows-step board (tick lines) a = isr_overflows board lines a.rx.capture
overflows-step board (turn p) a = omega (arith, drain_overflows 1 p a.rx)
overflows-step board send a = omega (arith, ap (λ c. c.uart_rx_overflows) (ship_capture a.rx))
overflows-step board take a = omega arith

pub overflows-run :
    (board : Board) (es : List Event) (a : System) → overflows a ≤ overflows (run board es a)
unfolding run
overflows-run board [] a = omega arith
overflows-run board (e ∷ es) a =
    omega (arith, overflows-step board e a, overflows-run board es (step board e a))
