-- ===== src/Tests/Whole.antt =====
-- The start of `main`, and its loop with both directions.
use midex_class_firmware.Base.{
  ◌≡◌, refl, true, false, ltb, for_ports, if◌then◌else◌, List, [], ◌∷◌, ◌++◌, Each, arith,
}
use midex_class_firmware.Config.{r1}
use midex_class_firmware.Parser.{parse_byte}
use midex_class_firmware.Uart.{
  uart_rx_start, uart_rx_reset, uart_rx_isr, sweep, rx_store, uart_rx_available, uart_rx_dequeue,
}
use midex_class_firmware.Bridge.{Tx, UartOps, set_interface_out, tx_reset}
use midex_class_firmware.Bridge
use midex_class_firmware.Dispatch.Interface.{Uarts, dispatcher}
use midex_class_firmware.Bridge.Stream.{host, bridge, pump, account, gifts}
use midex_class_firmware.RxPump.{
  Rx, midi_parser_reset, midi_rx_pump, drain, drain_one, rx_ring_count, parse_byte_into_ring, emit,
  emit?, put, ship, start, fill, copy_byte,
}
use midex_class_firmware.RxPath.{System, tick, turn, send, take, arrivals, step}
use midex_class_firmware.RxPath.Counter.{overflows}
use midex_class_firmware.RxPath.Flow.{Flow}
use midex_class_firmware.Main.{
  main_pass, Device, UsbEvent, set_interface, clear_state, go_live, usb_events, usb_event,
  main_start,
}
use midex_class_firmware.Main.Start.{IsMemory}
use midex_class_firmware.Main.Loop.{
  Step, IsStep, pass, out, in_, move, move_all, outs, ins, move_all-account, move_all-Flow,
}
use midex_class_firmware.Tests.Path.{shows, small_at}
use midex_class_firmware.Tests.Startup.{cells, silent, registers, power_on}

-- What enumeration leaves: every index of the eight ports stands at 77, every parser in a SysEx.
abbrev pub dirty_tx : Tx
dirty_tx = record {
  tx_ring = λ p i. 5;
  tx_head = λ p. if ltb p 8 then 77 else 0;
  tx_tail = λ p. if ltb p 8 then 200 else 0;
  out_off = 9;
  semaphore_ep2_out = false;
  out2buf = λ i. 0;
  out2bc = 3;
  armed = false;
}

abbrev pub dirty_rx : Rx
dirty_rx = record {
  parser = λ p. record {
    status = 77;
    cin = 77;
    need = 77;
    have = 77;
    d0 = 77;
    in_sysex = true;
    sxn = 77;
    sx0 = 77;
    sx1 = 77;
    sx2 = 77;
  };
  rx_ring = λ i. 5;
  rx_head = 77;
  rx_tail = 200;
  capture = record {
    rx_fifo = λ p i. 5;
    rx_fifo_head = λ p. if ltb p 8 then 77 else 0;
    rx_fifo_tail = λ p. if ltb p 8 then 200 else 0;
    uart_rx_overflows = 77;
    rx_tick_prescale = 77;
  };
  in2 = record { in2buf = λ i. 0; in2bc = 0; epbsy = false };
}

pub dirty-IsMemory : IsMemory dirty_tx dirty_rx
dirty-IsMemory = record {
  chunks = λ p. (omega arith, omega arith, omega arith);
  fifo_end = λ p h. ground arith;
  ring_end = λ p h. ground arith;
}

-- A SET_INTERFACE that comes while the UARTs are brought up.
abbrev pub early : List UsbEvent
early = set_interface ∷ []

abbrev pub board : Device cells
board = record {
  sfr = registers;
  pins = power_on;
  core = record {
    in07val = 0;
    out07val = 0;
    inisoval = 0;
    outisoval = 0;
    isoctl = 0;
    usbbav = 0;
    usbien = 0;
    out07ien = 0;
    in07ien = 0;
    eusb = false;
    usbcs = 0;
  };
  ea = false;
  uarts = (λ a. 0, silent);
  timer = record { th0 = 0; tl0 = 0; pt0 = false; et0 = false; tr0 = false };
  tx = dirty_tx;
  rx = dirty_rx;
}

-- The UARTs behind the dispatcher, as the start of `main` leaves them.
abbrev begun : Device cells
begun = main_start cells r1 (λ e. dirty_tx) (λ e. dirty_rx) early board

abbrev real : UartOps
real = dispatcher cells r1

abbrev initial : Uarts cells r1
initial = record { uarts = begun.uarts; given = λ p. [] }

-- A clock tick arrives at port 1, and a note goes out at port 2.
abbrev mixed : List (Step real r1)
mixed =
    in_ (tick (shows 0xF8))
    ∷ out (host (λ i. if ltb i 1 then 0x29 else 0x40) 4 (omega arith))
    ∷ out bridge
    ∷ in_ (turn 1)
    ∷ out pump
    ∷ in_ send
    ∷ pass
    ∷ in_ take
    ∷ []

mixed-IsStep : Each (IsStep real r1) mixed
mixed-IsStep =
    (λ p h. small_at 0xF8 p (omega arith), (tt, (tt, (omega arith, (tt, (tt, (tt, (tt, tt))))))))

abbrev begun_rx : System
begun_rx = record { rx = begun.rx; host = [] }

abbrev ended : (Tx × Uarts cells r1) × System
ended = move_all real r1 mixed ((begun.tx, initial), begun_rx)

no_overflow : overflows ended.1 ≡ 0
unfolding move_all move main_pass midi_rx_pump main_start clear_state go_live usb_events usb_event
    uart_rx_start uart_rx_reset midi_parser_reset step uart_rx_isr sweep rx_store drain
    uart_rx_available for_ports rx_ring_count drain_one parse_byte_into_ring emit? parse_byte
    uart_rx_dequeue emit put ship start fill copy_byte
no_overflow = refl

idle : begun.tx.semaphore_ep2_out ≡ false
unfolding main_start clear_state go_live usb_events usb_event set_interface_out tx_reset for_ports
    Bridge.reset_port
idle = refl

move_all-account_example :
    account real 2 ended.0 ≡ [] ++ gifts real 2 (outs real r1 mixed) (begun.tx, initial)
move_all-account_example =
    move_all-account real r1 cells (λ e. dirty_tx) (λ e. dirty_rx) early board initial begun_rx
      mixed 2 (omega arith) dirty-IsMemory idle

move_all-Flow_example : Flow (λ q. arrivals r1 q (ins real r1 mixed) begun_rx) begun_rx ended.1
move_all-Flow_example =
    move_all-Flow real r1 cells (λ e. dirty_tx) (λ e. dirty_rx) early board initial mixed
      dirty-IsMemory mixed-IsStep no_overflow
