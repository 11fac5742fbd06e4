-- ===== src/Wire/Startup.antt =====
-- From the start of `main` on: what the instruments play reaches the host, with nothing assumed of the
-- receivers but the rate of the wires and how promptly the capture interrupt is taken.
use midex_class_firmware.Base.{
  ℕ, ◌+◌, ◌-◌, ◌*◌, ◌<◌, ◌≤◌, Bool-cases, inr, true, false, has_bit, set_bit, bit_and, passes_below,
  agree_below, agree_below_sound, ◌≡◌, ap, refl, inl, if◌then◌else◌, none, List, [], Each,
  concat_map, arith,
}
use midex_class_firmware.Config.{Board}
use midex_class_firmware.UartExt.{Bus}
use midex_class_firmware.UartExt.Bank.{Bank}
use midex_class_firmware.UartExt.Init.{IsSettings}
use midex_class_firmware.Uart.Direct.{Receivers}
use midex_class_firmware.Uart.Emptied.{Inboxes, IsPlain}
use midex_class_firmware.Uart.Lossless
use midex_class_firmware.Parser.Messages
use midex_class_firmware.Parser.Messages.{Message, IsMessage, packets}
use midex_class_firmware.Bridge.{Tx}
use midex_class_firmware.RxPump.{Rx}
use midex_class_firmware.RxPump.Pass.{of_cable}
use midex_class_firmware.RxPath
use midex_class_firmware.RxPath.Counter.{overflows}
use midex_class_firmware.RxPath.Polls.{polls}
use midex_class_firmware.RxPath.EndToEnd.{deframe}
use midex_class_firmware.Main.{Device, UsbEvent, enumerate, clear_state, go_live, main_start}
use midex_class_firmware.Uart.{uart_rx_start}
use midex_class_firmware.UartOnchip.{uart_onchip_init}
use midex_class_firmware.Dispatch.{uart_init}
use midex_class_firmware.Bringup.{board_init, uart_bringup}
use midex_class_firmware.Main.Start.{IsMemory, main_start-Started}
use midex_class_firmware.Main.Channels.{main_start-configured}
use midex_class_firmware.Wire.{Inputs, Wired, Event, IsEvent, held, run, wire}
use midex_class_firmware.Wire.Carried.{of_cable-wire}
use midex_class_firmware.Wire.Time.{Clock, IsTicking, IsTimely, untimed}
use midex_class_firmware.Wire.Ahead.{turned}
use midex_class_firmware.Wire.Cadence.{overruns_none}

t0m_table : agree_below 256 (λ x. has_bit 0x08 (bit_and x 0xD8)) (has_bit 0x08) ≡ true
unfolding passes_below
t0m_table = refl

t0m_kept : (r : ℕ) → r < 256 → has_bit 0x08 (bit_and r 0xD8) ≡ has_bit 0x08 r
t0m_kept r h =
    agree_below_sound 256 (λ x. has_bit 0x08 (bit_and x 0xD8)) (has_bit 0x08) r t0m_table h

t0m_set : (r : ℕ) → has_bit 0x08 (set_bit 0x10 r) ≡ has_bit 0x08 r
t0m_set r = ground arith

-- The registers that `main` leaves make Timer0 interrupt every 256 - T0_RELOAD counts.
main_start-IsTicking :
    (bus : Bus) (board : Board) (left_tx : Device bus → Tx) (left_rx : Device bus → Rx)
    (usb : List UsbEvent) (d : Device bus)
    → d.sfr.ckcon < 256
    → has_bit 0x08 d.sfr.ckcon ≡ false
    → let e = main_start bus board left_tx left_rx usb d in
      IsTicking e.sfr e.timer e.ea (256 - board.t0_reload)
unfolding main_start enumerate clear_state go_live uart_rx_start uart_bringup uart_init
    uart_onchip_init board_init
main_start-IsTicking bus board left_tx left_rx usb d h z = record {
  mode = omega arith;
  slow = elim (Bool-cases board.has_onchip_uart) [
    | inl e ↦ rw (e, t0m_set, t0m_kept d.sfr.ckcon h) z
    | inr e ↦ rw (e, t0m_kept d.sfr.ckcon h) z
  ];
  overflows_after = refl;
  starts_at = refl;
  runs = refl;
  interrupts = refl;
  high = refl;
  enabled = refl;
}

module _ (bus : Bus) (board : Board) (bank : Bank bus board) (boxes : Inboxes bus board bank) where
  -- `main` before its loop, and a host that has read nothing.
  abbrev pub booted :
      (Device bus → Tx)
      → (Device bus → Rx)
      → List UsbEvent
      → Device bus
      → Receivers
      → Wired bus board bank boxes
  booted left_tx left_rx usb d r =
      let e = main_start bus board left_tx left_rx usb d in
      record { chips = e.uarts.0; receivers = r; path = record { rx = e.rx; host = [] } }

  -- A timer that overflows every `n` counts has just been started, from its reload value.
  abbrev pub started : ℕ → Clock
  started n = record { now = 0; due = n; free = λ p. 0 }

  module _ (inputs : Inputs bus board bank boxes) (settings : IsSettings board)
      (full : board.onchip_port_first + (if board.has_onchip_uart then 2 else 0) ≡ 8)
      (all : board.onchip_port_first ≤ board.num_ext_ports) (late spacing : ℕ)
      (some_ticks : 1 ≤ board.t0_prescale) (few_ticks : board.t0_prescale < 256)
      (in_time : board.t0_prescale * (256 - board.t0_reload) + late < spacing)
      (left_tx : Device bus → Tx) (left_rx : Device bus → Rx) (usb : List UsbEvent) (d : Device bus)
      (r : Receivers)
      (memory : IsMemory (left_tx (enumerate bus board d)) (left_rx (enumerate bus board d)))
      (quiet : (p : ℕ)
        → p < 8
        → held bus board bank boxes (booted left_tx left_rx usb d r) p ≡ none)
      (free_in : (main_start bus board left_tx left_rx usb d).rx.in2.epbsy ≡ false)
      (ckcon_byte : d.sfr.ckcon < 256) (t0m_clear : has_bit 0x08 d.sfr.ckcon ≡ false) where
    -- The run of these events.
    module _ (es : List (ℕ × Event bus board bank boxes)) where
      abbrev before : Wired bus board bank boxes
      before = booted left_tx left_rx usb d r

      abbrev played : List (Event bus board bank boxes)
      played = untimed bus board bank boxes es

      abbrev behind : Wired bus board bank boxes
      behind = run bus board bank boxes inputs played before

      -- The board has eight ports and T0_PRESCALE is from 1 to 255. `main` has started, on a
      -- bank that keeps one of the tries to write LCR, whatever stood in memory
      -- and came over USB meanwhile, with EP2-IN free and no byte in a receiver, CKCON a byte with T0M
      -- clear at power-on. If the registers that `main` leaves make Timer0 interrupt every `n` counts,
      -- then, timed by that, bytes come over the wires, those at port `p` the bytes of these messages,
      -- the capture interrupt runs on the chips, the program uses the bus without a read of RHR and leaves
      -- DLAB clear, and the loops and the host take their steps. The interrupt is taken at most
      -- `late` counts behind each overflow of Timer0, bytes on one wire are at least `spacing` counts
      -- apart, and a round of T0_PRESCALE times 256 - T0_RELOAD counts and `late` are less than that.
      -- If the overflow counter stands at zero at the end and the receiver of port `p` is empty then,
      -- 186 passes of the pump, the host reading EP2-IN behind each, bring it to this, that the packets of
      -- cable `p` in what it has read are those of the messages, in their order.
      pub heard_from_start :
          (p : ℕ) (ms : List Message)
          → ((n : ℕ)
              → let e = main_start bus board left_tx left_rx usb d in
                IsTicking e.sfr e.timer e.ea n
                → IsTimely bus board bank boxes n late spacing (started n) es)
          → Each (IsEvent bus board bank boxes) played
          → overflows behind.path ≡ 0
          → p < 8
          → held bus board bank boxes behind p ≡ none
          → wire bus board bank boxes p played ≡ concat_map Messages.wire ms
          → Each IsMessage ms
          → of_cable p (deframe (RxPath.run board (polls 186) behind.path).host)
            ≡ concat_map packets ms
      heard_from_start p ms timely each none_dropped h empty came meant =
          let a = before in
          let s = main_start-Started bus board left_tx left_rx usb d memory in
          let plain : IsPlain bus board bank boxes a.chips =
            λ q l. (main_start-configured bus board bank settings left_tx left_rx usb d q l).1 in
          of_cable-wire bus board bank boxes inputs full all (untimed bus board bank boxes es) a
            each s.valid (record { plain = plain; small = λ q l. rw (quiet q l) tt })
            (overruns_none bus board bank boxes inputs full all (256 - board.t0_reload) late spacing
              some_ticks few_ticks in_time es (started (256 - board.t0_reload)) a each
              (timely (256 - board.t0_reload)
                (main_start-IsTicking bus board left_tx left_rx usb d ckcon_byte t0m_clear))
              plain
              (record {
                left = 0;
                counts = s.sweeps_next;
                byte_wide = omega arith;
                near = omega (arith, turned board.t0_prescale ((256 - board.t0_reload)) some_ticks);
                clear = λ q l. inl (quiet q l);
              }))
            none_dropped p ms h refl (s.clear free_in) (ap Lossless.shown (quiet p h))
            (ap Lossless.shown empty) came meant
