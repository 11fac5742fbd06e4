-- ===== src/Tests/Path.antt =====
-- The way from the receivers to the host.
use midex_class_firmware.Base.{
  ℕ, ◌==◌, if◌then◌else◌, ◌≡◌, ◌<◌, refl, false, List, [], ◌∷◌, for_ports, concat_map, Each, arith,
}
use midex_class_firmware.Config.{r1}
use midex_class_firmware.Parser.{parse_byte}
use midex_class_firmware.Parser.Messages.{Message, voice1, IsMessage, wire, packets}
use midex_class_firmware.Uart.{
  Capture, Lines, sweep, uart_rx_isr, rx_store, uart_rx_available, uart_rx_dequeue,
}
use midex_class_firmware.Uart.Sweep.{found}
use midex_class_firmware.Uart.Lossless.{shown}
use midex_class_firmware.RxPump.{
  ship, start, fill, copy_byte, emit, emit?, put, drain, drain_one, rx_ring_count,
  parse_byte_into_ring,
}
use midex_class_firmware.RxPump.Round.{IsValid}
use midex_class_firmware.RxPump.Pass.{of_cable}
use midex_class_firmware.RxPath.{System, Event, tick, turn, send, run, step, arrivals, IsEvent}
use midex_class_firmware.RxPath.Counter.{overflows}
use midex_class_firmware.RxPath.Flow.{Flow}
use midex_class_firmware.RxPath.Steps.{run-Flow}
use midex_class_firmware.RxPath.Polls.{polls, polls-IsClear}
use midex_class_firmware.RxPath.EndToEnd.{deframe, IsClear}
use midex_class_firmware.RxPath.Delivery.{of_cable-polls}
use midex_class_firmware.Tests.Receive.{fresh, fresh-IsValid}

abbrev silent : Capture
silent = record {
  rx_fifo = λ p i. 0;
  rx_fifo_head = λ p. 0;
  rx_fifo_tail = λ p. 0;
  uart_rx_overflows = 0;
  rx_tick_prescale = 1;
}

abbrev pub resting : System
resting = record {
  rx = record {
    parser = λ p. fresh;
    rx_ring = λ i. 0;
    rx_head = 0;
    rx_tail = 0;
    capture = silent;
    in2 = record { in2buf = λ i. 0; in2bc = 0; epbsy = false };
  };
  host = [];
}

resting-IsValid : IsValid resting.rx
resting-IsValid = record {
  ring = (omega arith, omega arith);
  fifos = λ p. (omega arith, omega arith);
  parsers = λ p h. fresh-IsValid;
  small = λ p h. tt;
}

resting-IsClear : IsClear resting.rx
resting-IsClear = record { unsent = refl; unqueued = refl; unread = λ p h. refl }

-- The receiver of port 1 shows `b`.
abbrev pub shows : ℕ → Lines
shows b = record {
  lsr = λ p. if p == 1 then 1 else 0;
  rhr = λ p. b;
  ri_0 = false;
  sbuf0 = 0;
  ri_1 = false;
  sbuf1 = 0;
}

-- A program change at port 1, one byte to a sweep.
abbrev pub change : List Message
change = voice1 0xC0 (5 ∷ []) ∷ []

pub change-IsMessage : Each IsMessage change
change-IsMessage = ((omega arith, omega arith, (omega arith, tt)), tt)

abbrev program : List Event
program =
    tick (shows 0xC0)
    ∷ turn 1
    ∷ tick (shows 0)
    ∷ tick (shows 0)
    ∷ tick (shows 5)
    ∷ turn 1
    ∷ send
    ∷ []

pub small_at : (b p : ℕ) → b < 256 → Each (λ x. x < 256) (shown (found r1 (shows b) p))
small_at b p h = ground arith

program-IsEvent : Each (IsEvent r1) program
program-IsEvent = (
  λ p h. small_at 0xC0 p (omega arith),
  (
    omega arith,
    (
      λ p h. small_at 0 p (omega arith),
      (
        λ p h. small_at 0 p (omega arith),
        (λ p h. small_at 5 p (omega arith), (omega arith, (tt, tt))),
      ),
    ),
  ),
)

no_overflow : overflows (run r1 program resting) ≡ 0
unfolding run step uart_rx_isr sweep rx_store drain uart_rx_available for_ports rx_ring_count
    drain_one parse_byte_into_ring emit? parse_byte uart_rx_dequeue emit put ship start fill
    copy_byte
no_overflow = refl

run-Flow_example : Flow (λ q. arrivals r1 q program resting) resting (run r1 program resting)
run-Flow_example = run-Flow r1 program resting program-IsEvent resting-IsValid no_overflow

polls-IsClear_example : IsClear (run r1 (polls 186) resting).rx
polls-IsClear_example = polls-IsClear r1 resting (resting-IsValid, refl)

program_shows : arrivals r1 1 program resting ≡ concat_map wire change
unfolding arrivals run step uart_rx_isr sweep rx_store drain uart_rx_available for_ports
    rx_ring_count drain_one parse_byte_into_ring emit? parse_byte uart_rx_dequeue
program_shows = refl

of_cable-polls_example :
    of_cable 1 (deframe (run r1 (polls 186) (run r1 program resting)).host)
    ≡ concat_map packets change
of_cable-polls_example =
    of_cable-polls r1 program resting 1 change (omega arith) program-IsEvent resting-IsValid refl
      resting-IsClear program_shows change-IsMessage no_overflow
