-- ===== src/Tests/Receive.antt =====
-- The instrument->host direction: parser, capture FIFOs and receive pump.
use midex_class_firmware.Base.{
  ℕ, zero, suc, ◌+◌, ◌==◌, ==_of_ne, if◌then◌else◌, ◌≡◌, ◌<◌, ◌⊎◌, inl, refl, true, false, List, [],
  ◌∷◌, map, concat_map, Each, arith,
}
use midex_class_firmware.Config.{r1}
use midex_class_firmware.Parser.{PortParser, packet, feed, parse_byte}
use midex_class_firmware.Parser.Shape
use midex_class_firmware.Parser.Shape.{IsWellFormed, feed-IsValid, feed-IsWellFormed}
use midex_class_firmware.Parser.Messages.{
  Message, voice2, sysex, realtime, IsMessage, wire, packets, payload, expanded,
}
use midex_class_firmware.Parser.Roundtrip.{feed-wires}
use midex_class_firmware.Parser.Payload.{payload-feed-wires}
use midex_class_firmware.Parser.Realtime.{
  keep, is_realtime, is_realtime_packet, is_other, is_other_packet, feed-keep,
}
use midex_class_firmware.Uart.{Capture, Lines, sweep, uart_rx_available}
use midex_class_firmware.Uart.Fifo
use midex_class_firmware.Uart.Fifo.{waiting}
use midex_class_firmware.Uart.Interleaving.{
  Event, arrive, visit, run, consume, queue_run, run_refines,
}
use midex_class_firmware.Uart.Tick.{ticks, ticks_period}
use midex_class_firmware.RxPump.{Rx, midi_rx_pump}
use midex_class_firmware.RxPump.Queue.{InRing}
use midex_class_firmware.RxPump.Round
use midex_class_firmware.RxPump.Pass.{Passed, drained, midi_rx_pump-Passed}
use midex_class_firmware.Config.{r2}
use midex_class_firmware.RxPump.Ship.{Shipped}
use midex_class_firmware.Uart.Preempted.{interrupts, visit_in_steps, visit_in_steps-consume}

abbrev pub fresh : PortParser
fresh = record {
  status = 0;
  cin = 0;
  need = 0;
  have = 0;
  d0 = 0;
  in_sysex = false;
  sxn = 0;
  sx0 = 0;
  sx1 = 0;
  sx2 = 0;
}

pub fresh-IsValid : Shape.IsValid fresh
fresh-IsValid = record {
  expects = inl refl;
  sysex_alone = λ e. refl;
  room = omega arith;
  chunk0 = omega arith;
  chunk1 = omega arith;
  chunk2 = omega arith;
  held = inl refl;
}

-- Two notes under one status, a SysEx of four bytes, and a clock tick.
abbrev song : List Message
song = voice2 0x90 ((60, 100) ∷ (64, 0) ∷ []) ∷ sysex (1 ∷ 2 ∷ 3 ∷ 4 ∷ []) ∷ realtime 0xF8 ∷ []

song-IsMessage : Each IsMessage song
song-IsMessage = ground arith

feed-wires_example : (feed fresh (concat_map wire song)).1 ≡ concat_map packets song
feed-wires_example = feed-wires song fresh song-IsMessage

payload-feed-wires_example :
    concat_map payload (feed fresh (concat_map wire song)).1 ≡ concat_map expanded song
payload-feed-wires_example = payload-feed-wires song fresh song-IsMessage

-- A clock tick inside a note, and a SysEx that a note cuts off.
abbrev noise : List ℕ
noise = 0x90 ∷ 60 ∷ 0xF8 ∷ 100 ∷ 0xF0 ∷ 1 ∷ 0x80 ∷ 2 ∷ 3 ∷ []

noise_small : Each (λ b. b < 256) noise
noise_small = ground arith

noise_packets :
    (feed fresh noise).1 ≡ packet 15 0xF8 0 0 ∷ packet 9 0x90 60 100 ∷ packet 8 0x80 2 3 ∷ []
unfolding feed parse_byte
noise_packets = refl

feed-IsValid_example : Shape.IsValid (feed fresh noise).0
feed-IsValid_example = feed-IsValid fresh noise noise_small fresh-IsValid

feed-IsWellFormed_example : Each IsWellFormed (feed fresh noise).1
feed-IsWellFormed_example = feed-IsWellFormed fresh noise noise_small fresh-IsValid

feed-keep_example :
    (keep is_realtime_packet (feed fresh noise).1
      ≡ map (λ b. packet 15 b 0 0) (keep is_realtime noise))
    × (keep is_other_packet (feed fresh noise).1 ≡ (feed fresh (keep is_other noise)).1)
    × ((feed fresh noise).0 ≡ (feed fresh (keep is_other noise)).0)
feed-keep_example = feed-keep fresh noise noise_small fresh-IsValid

-- Two bytes wait at port 1, across the end of its FIFO.
abbrev captured : Capture
captured = record {
  rx_fifo = λ p i. 60 + i;
  rx_fifo_head = λ p. if p == 1 then 1 else 0;
  rx_fifo_tail = λ p. if p == 1 then 15 else 0;
  uart_rx_overflows = 0;
  rx_tick_prescale = 1;
}

captured-IsValid : Fifo.IsValid captured
captured-IsValid p = ground arith

abbrev happenings : List Event
happenings = visit 1 ∷ arrive 1 0x90 ∷ arrive 2 5 ∷ visit 1 ∷ visit 2 ∷ visit 3 ∷ []

run_refines_example :
    ((run happenings captured).0, waiting (run happenings captured).1)
    ≡ queue_run happenings (waiting captured)
run_refines_example = run_refines happenings captured captured-IsValid

abbrev shown : Lines
shown = record {
  lsr = λ p. if p == 1 then 0x61 else 0x60;
  rhr = λ p. 7;
  ri_0 = true;
  sbuf0 = 8;
  ri_1 = false;
  sbuf1 = 9;
}

abbrev same : Capture → Capture
same c = c

ticks_period_example :
    ticks r1 ((same, shown) ∷ (same, shown) ∷ (same, shown) ∷ []) captured
    ≡ ticks r1 []
        (record (record (sweep r1 shown (record captured { rx_tick_prescale = 3 })) {
          rx_tick_prescale = 2;
        }) { rx_tick_prescale = 1 })
ticks_period_example =
    ticks_period r1 refl same same same (λ c. refl) (λ c. refl) (λ c. refl) shown shown shown []
      captured refl

-- One packet stands in the ring, and port 1's bytes wait.
abbrev receiver : Rx
receiver = record {
  parser = λ p. fresh;
  rx_ring = λ i. i;
  rx_head = 2;
  rx_tail = 254;
  capture = captured;
  in2 = record { in2buf = λ i. 0; in2bc = 0; epbsy = false };
}

receiver-InRing : InRing receiver
receiver-InRing = (omega arith, omega arith)

small_at : (p : ℕ) → p < 8 → Each (λ b. b < 256) (waiting captured p)
small_at zero h = tt
small_at (suc zero) h = (omega arith, (omega arith, tt))
small_at (suc (suc p)) h = rw (==_of_ne (suc (suc p)) 1 (omega arith)) tt

receiver-IsValid : Round.IsValid receiver
receiver-IsValid = record {
  ring = receiver-InRing;
  fifos = captured-IsValid;
  parsers = λ p h. fresh-IsValid;
  small = small_at;
}

midi_rx_pump-Passed_example :
    Passed receiver (drained receiver)
    × (((receiver.in2.epbsy ≡ true) × (midi_rx_pump receiver ≡ drained receiver))
        ⊎ ((receiver.in2.epbsy ≡ false) × Shipped (drained receiver) (midi_rx_pump receiver)))
midi_rx_pump-Passed_example = midi_rx_pump-Passed receiver receiver-IsValid

-- Two ticks behind the test, and one behind the read.
visit_in_steps-consume_example :
    visit_in_steps r2 1 (shown ∷ shown ∷ []) (shown ∷ []) captured
    ≡ consume 1 (interrupts r2 (shown ∷ []) (interrupts r2 (shown ∷ shown ∷ []) captured))
unfolding uart_rx_available
visit_in_steps-consume_example =
    visit_in_steps-consume r2 1 (shown ∷ shown ∷ []) (shown ∷ []) captured
