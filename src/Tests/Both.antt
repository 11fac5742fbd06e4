-- ===== src/Tests/Both.antt =====
-- A program change that comes in at port 1 while a note goes out there.
use midex_class_firmware.Base.{ℕ, ◌≡◌, ap, refl, none, List, [], ◌∷◌, map, concat_map, arith}
use mathlib.Core.Path.{subst}
use midex_class_firmware.Config.{r1}
use midex_class_firmware.Parser.Messages
use midex_class_firmware.Parser.Messages.{packets}
use midex_class_firmware.RxPump.Pass.{of_cable}
use midex_class_firmware.RxPath
use midex_class_firmware.RxPath.Counter.{overflows}
use midex_class_firmware.RxPath.Polls.{polls}
use midex_class_firmware.RxPath.EndToEnd.{deframe}
use midex_class_firmware.Bridge.Stream.{gifts}
use midex_class_firmware.Dispatch.Interface.{dispatcher}
use midex_class_firmware.Wire
use midex_class_firmware.Wire.{held, wire}
use midex_class_firmware.Wire.Time.{IsTimely, untimed}
use midex_class_firmware.Wire.Startup.{started}
use midex_class_firmware.Wire.Transmit.{on_way, image}
use midex_class_firmware.Wire.Both.{
  Duplex, Machine, Event, byte, isr, turn, send, take, host, bridge, pump, leave, AreEvents,
  playing, step, run, ins, outs_of,
}
use midex_class_firmware.Wire.Both.Startup.{booted, both_from_start}
use midex_class_firmware.Main.{main_start, enumerate, clear_state, go_live, usb_events, usb_event}
use midex_class_firmware.Bringup.{uart_bringup}
use midex_class_firmware.Dispatch.{uart_init}
use midex_class_firmware.UartExt.{
  uart_ext_init, init_channels, init_channel, uart_write_lcr, lcr_loop, uart_reg,
}
use midex_class_firmware.RxPump
use midex_class_firmware.RxPump.{
  ship, drain, copy_byte, drain_one, emit, emit?, fill, midi_parser_reset, parse_byte_into_ring,
  reset_parser, rx_ring_count, start,
}
use midex_class_firmware.Parser
use midex_class_firmware.Bridge
use midex_class_firmware.Bridge.{tx_reset, set_interface_out}
use midex_class_firmware.Bringup.{board_init}
use midex_class_firmware.Main.{usb_init}
use midex_class_firmware.Base.{rounds_from}
use midex_class_firmware.Uart
use midex_class_firmware.Uart.{
  uart_rx_available, uart_rx_start, rx_store, uart_rx_dequeue, uart_rx_reset,
}
use midex_class_firmware.Uart.Direct.{direct_rx_isr, direct_sweep}
use midex_class_firmware.Bridge.Stream
use midex_class_firmware.Bridge.Stream.{act}
use midex_class_firmware.Bridge.{
  uart_tx_pump, bridge_out, decode, ep2out_isr, pump_port, push, push_bytes, rearm, tx_room,
}
use midex_class_firmware.Cin.{cin_len}
use midex_class_firmware.Dispatch.{uart_putc, uart_tx_ready}
use midex_class_firmware.UartExt.{uart_ext_putc, uart_ext_tx_ready}
use midex_class_firmware.Wire.Transmit
use midex_class_firmware.Tests.Bank.{put}
use midex_class_firmware.Base.{for_ports, rounds_from}
use midex_class_firmware.Tests.Bank.{
  chips, chips-Bank, chips-Inboxes, unlit, settings, put_at, get_at, write-reg, read-reg,
}
use midex_class_firmware.Tests.Channels.{noisy_board}
use midex_class_firmware.Tests.Path.{change, change-IsMessage}
use midex_class_firmware.Tests.Whole.{early, dirty_tx, dirty_rx, dirty-IsMemory}
use midex_class_firmware.Tests.Wires.{chips-Inputs, awake_quiet, ready_period, ready_free}
use midex_class_firmware.Tests.Lines.{chips-Outboxes, awake_idle, awake_open, note}

chips-Duplex : Duplex chips r1 chips-Bank chips-Inboxes chips-Inputs chips-Outboxes
unfolding chips-Bank chips-Inboxes chips-Inputs chips-Outboxes put_at get_at
chips-Duplex = record {
  thr_inbox = λ p q b s h d. ap (λ t. t.inbox q) (write-reg p 0 b s h (omega arith));
  leave_inbox = λ p q s h. refl;
  rhr_outbox = λ p q s h. ap (λ a. a.1.outbox q) (read-reg p 0 s h (omega arith));
  deliver_outbox = λ p q b s h. refl;
}

abbrev Happens : Type 0
Happens = Event chips r1 chips-Bank chips-Inboxes chips-Inputs chips-Outboxes

abbrev duet : List (ℕ × Happens)
duet =
    (5, host note 4 (omega arith))
    ∷ (10, byte 1 0xC0)
    ∷ (100, bridge)
    ∷ (110, pump)
    ∷ (190, isr)
    ∷ (200, turn 1)
    ∷ (300, leave 1)
    ∷ (380, isr)
    ∷ (390, pump)
    ∷ (560, isr)
    ∷ (700, byte 1 5)
    ∷ (750, isr)
    ∷ (770, turn 1)
    ∷ (780, send)
    ∷ (790, take)
    ∷ []

duet-AreEvents : AreEvents chips r1 chips-Bank chips-Inboxes chips-Inputs chips-Outboxes duet
duet-AreEvents = (
  tt,
  (
    (omega arith, omega arith),
    (
      tt,
      (
        tt,
        (
          tt,
          (
            omega arith,
            (
              omega arith,
              (tt, (tt, (tt, ((omega arith, omega arith), (tt, (omega arith, (tt, (tt, tt)))))))),
            ),
          ),
        ),
      ),
    ),
  ),
)

abbrev awake : Machine chips r1 chips-Bank chips-Inboxes chips-Inputs chips-Outboxes
awake =
    booted chips r1 chips-Bank chips-Inboxes chips-Inputs chips-Outboxes (λ e. dirty_tx)
      (λ e. dirty_rx) early noisy_board unlit

abbrev heard : List (ℕ × Wire.Event chips r1 chips-Bank chips-Inboxes)
heard = ins chips r1 chips-Bank chips-Inboxes chips-Inputs chips-Outboxes duet awake

heard-IsTimely :
    IsTimely chips r1 chips-Bank chips-Inboxes 186 81 640
      (started chips r1 chips-Bank chips-Inboxes 186)
      heard
unfolding ins
heard-IsTimely = (
  omega arith,
  omega arith,
  (
    omega arith,
    omega arith,
    omega arith,
    (
      omega arith,
      omega arith,
      (
        omega arith,
        omega arith,
        (
          omega arith,
          omega arith,
          omega arith,
          (
            omega arith,
            omega arith,
            (
              omega arith,
              omega arith,
              (
                omega arith,
                omega arith,
                omega arith,
                (
                  omega arith,
                  omega arith,
                  (
                    omega arith,
                    omega arith,
                    omega arith,
                    (
                      omega arith,
                      omega arith,
                      omega arith,
                      (
                        omega arith,
                        omega arith,
                        omega arith,
                        (
                          omega arith,
                          omega arith,
                          (omega arith, omega arith, (omega arith, omega arith, tt)),
                        ),
                      ),
                    ),
                  ),
                ),
              ),
            ),
          ),
        ),
      ),
    ),
  ),
)

abbrev over : Machine chips r1 chips-Bank chips-Inboxes chips-Inputs chips-Outboxes
over = run chips r1 chips-Bank chips-Inboxes chips-Inputs chips-Outboxes duet awake

-- At the end: nothing dropped, and nothing in the receiver of port 1; its wire has carried a byte.
at_end :
    (overflows over.path ≡ 0)
    × (chips-Inboxes.inbox over.chips 1 ≡ none)
    × (over.lines 1 ≡ 0x90 ∷ [])
    × (wire chips r1 chips-Bank chips-Inboxes 1 (untimed chips r1 chips-Bank chips-Inboxes heard)
        ≡ concat_map Messages.wire change)
unfolding run step Wire.step RxPath.step ship drain uart_rx_available direct_rx_isr main_start
    clear_state go_live usb_events usb_event set_interface_out uart_rx_start direct_sweep for_ports
    get_at uart_reg chips-Inputs chips-Inboxes chips-Bank uart_bringup uart_init uart_ext_init
    init_channels rounds_from Bridge.reset_port tx_reset board_init enumerate usb_init
    Parser.parse_byte Parser.reset copy_byte drain_one emit emit? fill midi_parser_reset
    parse_byte_into_ring RxPump.put reset_parser rx_ring_count start put put_at Uart.reset_port
    rx_store uart_rx_dequeue uart_rx_reset init_channel lcr_loop uart_write_lcr Transmit.step act
    uart_tx_pump Stream.receive bridge_out decode ep2out_isr pump_port push push_bytes rearm tx_room
    cin_len uart_putc uart_tx_ready uart_ext_putc uart_ext_tx_ready chips-Outboxes ins wire
at_end = (refl, refl, refl, refl)

both_from_start_example :
    (of_cable 1 (deframe (RxPath.run r1 (polls 186) over.path).host) ≡ concat_map packets change)
    × (on_way chips r1 chips-Bank chips-Outboxes 1
          (playing chips r1 chips-Bank chips-Inboxes chips-Inputs chips-Outboxes over)
        ≡ gifts
            (dispatcher chips r1)
            1
            (map
              (image chips r1 chips-Bank chips-Outboxes)
              (outs_of chips r1 chips-Bank chips-Inboxes chips-Inputs chips-Outboxes duet awake))
            (awake.tx, record { uarts = (awake.chips, awake.onchip); given = awake.given }))
both_from_start_example =
    both_from_start chips r1 chips-Bank chips-Inboxes chips-Inputs chips-Outboxes chips-Duplex
      settings refl (omega arith) 81 640 (omega arith) (omega arith) (omega arith) (λ e. dirty_tx)
      (λ e. dirty_rx) early noisy_board unlit dirty-IsMemory awake_quiet (λ p h. awake_idle p)
      awake_open ready_free (omega arith) refl duet 1 change (omega arith) duet-AreEvents
      (λ n t.
        subst
          (λ k.
            IsTimely chips r1 chips-Bank chips-Inboxes k 81 640
              (started chips r1 chips-Bank chips-Inboxes k) heard)
          (ready_period n t) heard-IsTimely)
      at_end.0 at_end.1 at_end.3 change-IsMessage
