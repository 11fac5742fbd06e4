-- ===== src/RxPath.antt =====
-- The way from the receivers to the host as a sequence of steps: ticks of the capture interrupt
-- (firmware/uart.c), turns of the loops of `midi_rx_pump` (firmware/midi_parser.c), which the
-- interrupt may come between, and the host's reads of EP2-IN.
pub mod Counter
pub mod Flow
pub mod Steps
pub mod EndToEnd
pub mod Passes
pub mod Settle
pub mod Polls
pub mod Delivery
use midex_class_firmware.Base.{
  ℕ, ◌+◌, ◌-◌, ◌%◌, ◌<◌, Bool, true, false, ◌==◌, if◌then◌else◌, List, [], ◌∷◌, ◌++◌, Each,
}
use midex_class_firmware.Config.{Board}
use midex_class_firmware.Uart.{Capture, Lines, uart_rx_isr}
use midex_class_firmware.Uart.Sweep.{found}
use midex_class_firmware.Uart.Lossless.{shown}
use midex_class_firmware.RxPump.{Rx, drain, ship}
use midex_class_firmware.RxPump.Queue.{pending}
use midex_class_firmware.RxPump.Ship.{loaded}

-- The firmware's receive side, and what the host has read, oldest first.
pub record System : Type 0 where
  pub rx : Rx
  pub host : List ℕ

-- `turn p` is one turn of the inner loop at port `p`, with its two tests; `send` is the second half of
-- `midi_rx_pump`; `take` is a read of EP2-IN by the host.
pub data Event : Type 0 where
  tick : Lines → Event
  turn : ℕ → Event
  send take : Event

-- The bytes that wait in the endpoint's buffer.
abbrev pub in_flight : Rx → List ℕ
in_flight s = if s.in2.epbsy then loaded s.in2.in2buf s.in2.in2bc else []

-- A transfer to the host clears EPBSY; an endpoint that is not armed answers NAK.
abbrev pub host_reads : System → System
host_reads a = record {
  rx = record (a.rx) { in2 = record (a.rx.in2) { epbsy = false } };
  host = a.host ++ in_flight a.rx;
}

unfoldable pub step : Board → Event → System → System
step board (tick lines) a = record a {
  rx = record (a.rx) { capture = uart_rx_isr board lines a.rx.capture };
}
step board (turn p) a = record a { rx = drain 1 p a.rx }
step board send a = record a { rx = ship a.rx }
step board take a = host_reads a

unfoldable pub run : Board → List Event → System → System
run board [] a = a
run board (e ∷ es) a = run board es (step board e a)

-- This tick is one that sweeps.
abbrev pub sweeps : Capture → Bool
sweeps c = (c.rx_tick_prescale + 256 - 1) % 256 == 0

-- The bytes that the receiver of port `p` shows to the sweeps of a run.
abbrev pub arrival : Board → ℕ → Event → System → List ℕ
arrival board p (tick lines) a = if sweeps a.rx.capture then shown (found board lines p) else []
arrival board p _ a = []

unfoldable pub arrivals : Board → ℕ → List Event → System → List ℕ
arrivals board p [] a = []
arrivals board p (e ∷ es) a = arrival board p e a ++ arrivals board p es (step board e a)

-- The receivers show bytes, and a turn is at one of the eight ports.
abbrev pub IsEvent : Board → Event → Type 0
IsEvent board (tick lines) = (p : ℕ) → p < 8 → Each (λ b. b < 256) (shown (found board lines p))
IsEvent board (turn p) = p < 8
IsEvent board _ = Unit

-- All bytes on their way out: read, in the endpoint, in the ring.
abbrev pub stream : System → List ℕ
stream a = a.host ++ in_flight a.rx ++ pending a.rx
