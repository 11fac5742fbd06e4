-- ===== src/Tests/Wires.antt =====
-- A program change that comes over the wire of port 1 behind the start of `main`.
use midex_class_firmware.Base.{
  ℕ, ◌<◌, ◌≡◌, sym, false, true, refl, Bool-cases, inl, inr, ltb, none, some, List, [], ◌∷◌, ◌++◌,
  Each, concat_map, write, write_self, write_ne, arith, for_ports,
}
use mathlib.Core.Path.{subst}
use midex_class_firmware.Config.{r1}
use midex_class_firmware.Parser.Messages
use midex_class_firmware.Parser.Messages.{packets}
use midex_class_firmware.RxPump.Pass.{of_cable}
use midex_class_firmware.RxPath
use midex_class_firmware.RxPath.{arrivals}
use midex_class_firmware.RxPath.Counter.{overflows}
use midex_class_firmware.RxPath.Flow.{Flow}
use midex_class_firmware.RxPath.Polls.{polls}
use midex_class_firmware.RxPath.EndToEnd.{deframe}
use midex_class_firmware.Uart.Emptied.{IsPlain}
use midex_class_firmware.Wire.{
  Inputs, Wired, Event, byte, isr, access, turn, send, take, IsEvent, held, step, run, overruns,
  images, wire,
}
use midex_class_firmware.Wire.Carried.{run-Carried}
use midex_class_firmware.Wire.Time.{IsTicking, IsTimely, untimed}
use midex_class_firmware.Wire.Startup.{booted, started, heard_from_start}
use midex_class_firmware.Main.{
  Device, main_start, enumerate, clear_state, go_live, usb_events, usb_event,
}
use midex_class_firmware.Bringup.{uart_bringup}
use midex_class_firmware.Dispatch.{uart_init}
use midex_class_firmware.UartExt.{
  uart_ext_init, init_channels, init_channel, uart_write_lcr, lcr_loop, uart_reg,
}
use midex_class_firmware.RxPump.{
  ship, drain, copy_byte, drain_one, emit, emit?, fill, midi_parser_reset, parse_byte_into_ring,
  reset_parser, rx_ring_count, start,
}
use midex_class_firmware.RxPump
use midex_class_firmware.Parser
use midex_class_firmware.Bridge
use midex_class_firmware.Bridge.{tx_reset, set_interface_out}
use midex_class_firmware.Bringup.{board_init}
use midex_class_firmware.Main.{usb_init}
use midex_class_firmware.Base.{rounds_from}
use midex_class_firmware.Uart
use midex_class_firmware.Uart.{
  uart_rx_available, uart_rx_start, rx_store, uart_rx_dequeue, uart_rx_reset,
}
use midex_class_firmware.Uart.Direct.{direct_rx_isr, direct_sweep}
use midex_class_firmware.Main.Start.{Started, main_start-Started}
use midex_class_firmware.Main.Channels.{main_start-configured}
use midex_class_firmware.Uart.Lossless
use midex_class_firmware.Tests.Bank.{
  put, put_at, get_at, chips, chips-Bank, chips-Inboxes, unlit, settings,
}
use midex_class_firmware.Tests.Channels.{noisy_board}
use midex_class_firmware.Tests.Path.{change, change-IsMessage}
use midex_class_firmware.Tests.Whole.{early, dirty_tx, dirty_rx, dirty-IsMemory}

unfoldable pub chips-Inputs : Inputs chips r1 chips-Bank chips-Inboxes
unfolding chips-Bank chips-Inboxes
chips-Inputs = record {
  deliver = λ p b s. record s { inbox = write s.inbox p (some b) };
  deliver_own = λ p b s h e. write_self s.inbox p (some b);
  deliver_apart = λ p q b s h n. write_ne s.inbox p q (some b) n;
  deliver_lcr = λ p q b s h. refl;
}

abbrev tune : List (ℕ × Event chips r1 chips-Bank chips-Inboxes)
tune =
    (10, byte 1 0xC0)
    ∷ (190, isr)
    ∷ (200, turn 1)
    ∷ (380, isr)
    ∷ (400, access (λ s. record s { warm = true }))
    ∷ (560, isr)
    ∷ (700, byte 1 5)
    ∷ (750, isr)
    ∷ (770, turn 1)
    ∷ (780, send)
    ∷ (790, take)
    ∷ []

abbrev played : List (Event chips r1 chips-Bank chips-Inboxes)
played = untimed chips r1 chips-Bank chips-Inboxes tune

abbrev awake : Wired chips r1 chips-Bank chips-Inboxes
awake =
    booted chips r1 chips-Bank chips-Inboxes (λ e. dirty_tx) (λ e. dirty_rx) early noisy_board unlit

tune-IsTimely :
    IsTimely chips r1 chips-Bank chips-Inboxes 186 81 640
      (started chips r1 chips-Bank chips-Inboxes 186)
      tune
tune-IsTimely = (
  omega arith,
  omega arith,
  omega arith,
  (
    omega arith,
    omega arith,
    omega arith,
    (
      omega arith,
      omega arith,
      (
        omega arith,
        omega arith,
        omega arith,
        (
          omega arith,
          omega arith,
          (
            omega arith,
            omega arith,
            omega arith,
            (
              omega arith,
              omega arith,
              omega arith,
              (
                omega arith,
                omega arith,
                omega arith,
                (
                  omega arith,
                  omega arith,
                  (omega arith, omega arith, (omega arith, omega arith, tt)),
                ),
              ),
            ),
          ),
        ),
      ),
    ),
  ),
)

-- The device as `main` leaves it before its loop.
abbrev pub ready : Device chips
ready = main_start chips r1 (λ e. dirty_tx) (λ e. dirty_rx) early noisy_board

pub ready_period : (n : ℕ) → IsTicking ready.sfr ready.timer ready.ea n → 186 ≡ n
unfolding main_start clear_state go_live uart_rx_start
ready_period n t = sym t.overflows_after

pub ready_free : ready.rx.in2.epbsy ≡ false
unfolding main_start clear_state go_live midi_parser_reset for_ports reset_parser rounds_from
ready_free = refl

played-IsEvent : Each (IsEvent chips r1 chips-Bank chips-Inboxes) played
unfolding chips-Bank chips-Inboxes
played-IsEvent = (
  (omega arith, omega arith),
  (
    tt,
    (
      omega arith,
      (
        tt,
        (
          (λ s h. (h, λ p. refl)),
          (tt, ((omega arith, omega arith), (tt, (omega arith, (tt, (tt, tt)))))),
        ),
      ),
    ),
  ),
)

awake_silent : (p : ℕ) → awake.chips.inbox p ≡ none
unfolding main_start enumerate clear_state go_live usb_events usb_event set_interface_out
    uart_bringup uart_init uart_ext_init init_channels init_channel uart_write_lcr lcr_loop put_at
    get_at uart_reg put
awake_silent p = refl

pub awake_quiet : (p : ℕ) → p < 8 → held chips r1 chips-Bank chips-Inboxes awake p ≡ none
unfolding chips-Inboxes
awake_quiet p h = elim (Bool-cases (ltb p 8)) [ inl e ↦ rw e (awake_silent p) | inr e ↦ rw e refl ]

abbrev over : Wired chips r1 chips-Bank chips-Inboxes
over = run chips r1 chips-Bank chips-Inboxes chips-Inputs played awake

-- At the end: nothing dropped, nothing in the receiver of port 1, and nothing lost in between.
at_end :
    (overflows over.path ≡ 0)
    × (chips-Inboxes.inbox over.chips 1 ≡ none)
    × (overruns chips r1 chips-Bank chips-Inboxes chips-Inputs played awake ≡ 0)
unfolding overruns run step RxPath.step ship drain uart_rx_available direct_rx_isr main_start
    clear_state go_live usb_events usb_event set_interface_out uart_rx_start direct_sweep for_ports
    get_at uart_reg chips-Inputs chips-Inboxes chips-Bank uart_bringup uart_init uart_ext_init
    init_channels rounds_from Bridge.reset_port tx_reset board_init enumerate usb_init
    Parser.parse_byte Parser.reset copy_byte drain_one emit emit? fill midi_parser_reset
    parse_byte_into_ring RxPump.put reset_parser rx_ring_count start put put_at Uart.reset_port
    rx_store uart_rx_dequeue uart_rx_reset init_channel lcr_loop uart_write_lcr
at_end = (refl, refl, refl)

on_wire : wire chips r1 chips-Bank chips-Inboxes 1 played ≡ concat_map Messages.wire change
unfolding wire
on_wire = refl

heard_from_start_example :
    of_cable 1 (deframe (RxPath.run r1 (polls 186) over.path).host) ≡ concat_map packets change
heard_from_start_example =
    heard_from_start chips r1 chips-Bank chips-Inboxes chips-Inputs settings refl (omega arith) 81
      640 (omega arith) (omega arith) (omega arith) (λ e. dirty_tx) (λ e. dirty_rx) early
      noisy_board unlit dirty-IsMemory awake_quiet ready_free (omega arith) refl tune 1 change
      (λ n t.
        subst
          (λ k.
            IsTimely chips r1 chips-Bank chips-Inboxes k 81 640
              (started chips r1 chips-Bank chips-Inboxes k) tune)
          (ready_period n t) tune-IsTimely)
      played-IsEvent at_end.0 (omega arith) at_end.1 on_wire change-IsMessage

awake_Started :
    Started chips (main_start chips r1 (λ e. dirty_tx) (λ e. dirty_rx) early noisy_board)
awake_Started =
    main_start-Started chips r1 (λ e. dirty_tx) (λ e. dirty_rx) early noisy_board dirty-IsMemory

awake-IsPlain : IsPlain chips r1 chips-Bank chips-Inboxes awake.chips
awake-IsPlain p h =
    (main_start-configured chips r1 chips-Bank settings (λ e. dirty_tx) (λ e. dirty_rx) early
      noisy_board p h).1

run-Carried_example :
    Flow
      (λ q.
        arrivals r1 q
          (images chips r1 chips-Bank chips-Inboxes chips-Inputs played awake)
          awake.path)
      awake.path
      over.path
    × ((q : ℕ)
        → q < 8
        → Lossless.shown (held chips r1 chips-Bank chips-Inboxes awake q)
            ++ wire chips r1 chips-Bank chips-Inboxes q played
          ≡ arrivals r1 q
              (images chips r1 chips-Bank chips-Inboxes chips-Inputs played awake)
              awake.path
            ++ Lossless.shown (held chips r1 chips-Bank chips-Inboxes over q))
run-Carried_example =
    run-Carried chips r1 chips-Bank chips-Inboxes chips-Inputs refl (omega arith) played awake
      played-IsEvent awake_Started.valid
      (record { plain = awake-IsPlain; small = λ q h. rw (awake_quiet q h) tt }) at_end.2 at_end.0
