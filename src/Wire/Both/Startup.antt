-- ===== src/Wire/Both/Startup.antt =====
-- The whole device from the start of `main` on, both directions on the same chips.
use midex_class_firmware.Base.{
  ℕ, ◌+◌, ◌-◌, false, has_bit, ◌*◌, ◌<◌, ◌≤◌, ◌≡◌, ◌∙◌, ap, sym, if◌then◌else◌, none, List, [], map,
  Each, concat_map,
}
use midex_class_firmware.Config.{Board}
use midex_class_firmware.UartExt.{Bus}
use midex_class_firmware.UartExt.Bank.{Bank}
use midex_class_firmware.UartExt.Init.{IsSettings}
use midex_class_firmware.Uart.Direct.{Receivers}
use midex_class_firmware.Uart.Emptied.{Inboxes}
use midex_class_firmware.Parser.Messages
use midex_class_firmware.Parser.Messages.{Message, IsMessage, packets}
use midex_class_firmware.Bridge.{Tx}
use midex_class_firmware.Bridge.Stream.{gifts}
use midex_class_firmware.Dispatch.Interface.{dispatcher}
use midex_class_firmware.RxPump.{Rx}
use midex_class_firmware.RxPump.Pass.{of_cable}
use midex_class_firmware.RxPath
use midex_class_firmware.RxPath.Counter.{overflows}
use midex_class_firmware.RxPath.Polls.{polls}
use midex_class_firmware.RxPath.EndToEnd.{deframe}
use midex_class_firmware.Main.{Device, UsbEvent, enumerate, main_start}
use midex_class_firmware.Main.Start.{IsMemory}
use midex_class_firmware.Wire
use midex_class_firmware.Wire.{Inputs, held, wire}
use midex_class_firmware.Wire.Time.{IsTicking, IsTimely, untimed}
use midex_class_firmware.Wire.Startup
use midex_class_firmware.Wire.Startup.{started, heard_from_start}
use midex_class_firmware.Wire.Transmit.{Outboxes, on_way, image}
use midex_class_firmware.Wire.Transmit.Startup.{played_from_start}
use midex_class_firmware.Wire.Both.{
  Duplex, Machine, Event, AreEvents, hearing, playing, run, ins, outs_of,
}
use midex_class_firmware.Wire.Both.Views.{hearing-run, playing-run}
use midex_class_firmware.Wire.Both.Access.{ins-IsEvent, outs_of-IsEvent}

module _ (bus : Bus) (board : Board) (bank : Bank bus board) (boxes : Inboxes bus board bank)
    (inputs : Inputs bus board bank boxes) (outs : Outboxes bus board bank) where
  -- `main` before its loop, a host that has read nothing and wires that have carried nothing.
  abbrev pub booted :
      (Device bus → Tx)
      → (Device bus → Rx)
      → List UsbEvent
      → Device bus
      → Receivers
      → Machine bus board bank boxes inputs outs
  booted left_tx left_rx usb d r =
      let e = main_start bus board left_tx left_rx usb d in
      record {
        chips = e.uarts.0;
        receivers = r;
        path = record { rx = e.rx; host = [] };
        tx = e.tx;
        onchip = e.uarts.1;
        given = λ p. [];
        lines = λ p. [];
      }

  module _ (duplex : Duplex bus board bank boxes inputs outs) (settings : IsSettings board)
      (full : board.onchip_port_first + (if board.has_onchip_uart then 2 else 0) ≡ 8)
      (all : board.onchip_port_first ≤ board.num_ext_ports) (late spacing : ℕ)
      (some_ticks : 1 ≤ board.t0_prescale) (few_ticks : board.t0_prescale < 256)
      (in_time : board.t0_prescale * (256 - board.t0_reload) + late < spacing)
      (left_tx : Device bus → Tx) (left_rx : Device bus → Rx) (usb : List UsbEvent) (d : Device bus)
      (r : Receivers)
      (memory : IsMemory (left_tx (enumerate bus board d)) (left_rx (enumerate bus board d)))
      (quiet : (p : ℕ)
        → p < 8
        → held bus board bank boxes (Startup.booted bus board bank boxes left_tx left_rx usb d r) p
          ≡ none)
      (idle : (p : ℕ)
        → p < board.onchip_port_first
        → outs.outbox (main_start bus board left_tx left_rx usb d).uarts.0 p ≡ none)
      (idle_out : (main_start bus board left_tx left_rx usb d).tx.semaphore_ep2_out ≡ false)
      (free_in : (main_start bus board left_tx left_rx usb d).rx.in2.epbsy ≡ false)
      (ckcon_byte : d.sfr.ckcon < 256) (t0m_clear : has_bit 0x08 d.sfr.ckcon ≡ false)
      (es : List (ℕ × Event bus board bank boxes inputs outs)) where
    abbrev before : Machine bus board bank boxes inputs outs
    before = booted left_tx left_rx usb d r

    abbrev behind : Machine bus board bank boxes inputs outs
    behind = run bus board bank boxes inputs outs es before

    -- What the receive side sees.
    abbrev heard : List (ℕ × Wire.Event bus board bank boxes)
    heard = ins bus board bank boxes inputs outs es before

    abbrev far : Wire.Wired bus board bank boxes
    far = hearing bus board bank boxes inputs outs behind

    -- The board has eight ports and T0_PRESCALE is from 1 to 255. `main` has started, on a
    -- bank that keeps one of the tries to write LCR, whatever stood in memory
    -- and came over USB meanwhile, with no packet waiting when it arms EP2-OUT, EP2-IN free, no byte in a
    -- receiver or in an external transmitter, CKCON a byte with T0M clear at power-on. If the registers
    -- that `main` leaves make Timer0 interrupt every `n` counts, then, timed by that and on the same
    -- chips, bytes come over the wires, those at port `p` the bytes of these messages, the capture
    -- interrupt runs, bulk packets come and are read, the loops of midi_rx_pump take their turns,
    -- bridge_out and uart_tx_pump run, and transmitters let go of their bytes. The interrupt is taken at
    -- most `late` counts behind each overflow of Timer0, bytes on one wire are at least `spacing` counts
    -- apart, and a round of T0_PRESCALE times 256 - T0_RELOAD counts and `late` are less than that. If
    -- the overflow counter stands at zero at the end and the receiver of port `p` is empty then, two things
    -- hold. Behind 186 passes of the pump, the host reading EP2-IN behind each, the packets of cable `p`
    -- in what the host has read are those of the messages, in their order. And what the wire of port `p`
    -- has carried, then the byte that its transmitter holds, then what its ring and the packet at hand
    -- have, are together the bytes for `p` of the packets that the armed endpoint took in.
    pub both_from_start :
        (p : ℕ) (ms : List Message)
        → p < 8
        → AreEvents bus board bank boxes inputs outs es
        → ((n : ℕ)
            → let e = main_start bus board left_tx left_rx usb d in
              IsTicking e.sfr e.timer e.ea n
              → IsTimely bus board bank boxes n late spacing (started bus board bank boxes n) heard)
        → overflows behind.path ≡ 0
        → held bus board bank boxes far p ≡ none
        → wire bus board bank boxes p (untimed bus board bank boxes heard)
          ≡ concat_map Messages.wire ms
        → Each IsMessage ms
        → (of_cable p (deframe (RxPath.run board (polls 186) behind.path).host)
            ≡ concat_map packets ms)
          × (on_way bus board bank outs p (playing bus board bank boxes inputs outs behind)
              ≡ gifts
                  (dispatcher bus board)
                  p
                  (map
                    (image bus board bank outs)
                    (outs_of bus board bank boxes inputs outs es before))
                  (
                    before.tx,
                    record { uarts = (before.chips, before.onchip); given = before.given },
                  ))
    both_from_start p ms h each timely none_dropped empty came meant =
        let same = hearing-run bus board bank boxes inputs outs es before in
        (
          ap (λ w. of_cable p (deframe (RxPath.run board (polls 186) w.path).host)) same
              ∙ heard_from_start bus board bank boxes inputs settings full all late spacing
                  some_ticks few_ticks in_time left_tx left_rx usb d r memory quiet free_in
                  ckcon_byte t0m_clear heard p ms timely
                  (ins-IsEvent bus board bank boxes inputs outs duplex full all es before each)
                  (sym (ap (λ w. overflows w.path) same) ∙ none_dropped) h
                  (sym (ap (λ w. held bus board bank boxes w p) same) ∙ empty) came meant,
          ap (on_way bus board bank outs p) (playing-run bus board bank boxes inputs outs es before)
              ∙ played_from_start bus board bank outs settings full all left_tx left_rx usb d memory
                  idle idle_out p (outs_of bus board bank boxes inputs outs es before) h
                  (outs_of-IsEvent bus board bank boxes inputs outs duplex full all es before each),
        )
