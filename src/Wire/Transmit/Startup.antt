-- ===== src/Wire/Transmit/Startup.antt =====
-- From the start of `main` on: what the host sends reaches the wires.
use midex_class_firmware.Base.{
  ℕ, ◌+◌, ◌<◌, ◌≤◌, ◌≡◌, ◌∙◌, sym, ap, refl, Bool-cases, inl, inr, ◌==◌, ltb, ltb→lt, false,
  if◌then◌else◌, none, List, [], ◌++◌, map, Each, arith,
}
use midex_class_firmware.Config.{Board}
use midex_class_firmware.UartExt.{Bus}
use midex_class_firmware.UartExt.Bank.{Bank}
use midex_class_firmware.UartExt.Init.{IsSettings}
use midex_class_firmware.UartOnchip.{uart_onchip_init}
use midex_class_firmware.Uart.Lossless.{shown}
use midex_class_firmware.Bridge.{Tx}
use midex_class_firmware.Bridge.Stream.{gifts}
use midex_class_firmware.Bringup.{uart_bringup}
use midex_class_firmware.Dispatch.{uart_init}
use midex_class_firmware.Dispatch.Interface.{dispatcher}
use midex_class_firmware.RxPump.{Rx}
use midex_class_firmware.Main.{Device, UsbEvent, enumerate, clear_state, go_live, main_start}
use midex_class_firmware.Main.Start.{IsMemory, main_start-Started}
use midex_class_firmware.Main.Channels.{main_start-configured}
use midex_class_firmware.Wire.Transmit.{
  Outboxes, holding, Lined, Event, IsEvent, image, run, on_way,
}
use midex_class_firmware.Wire.Transmit.Account.{run-on_way}

module _ (bus : Bus) (board : Board) (bank : Bank bus board) (outs : Outboxes bus board bank) where
  -- `main` before its loop, and wires that have carried nothing.
  abbrev pub booted :
      (Device bus → Tx) → (Device bus → Rx) → List UsbEvent → Device bus → Lined bus board bank outs
  booted left_tx left_rx usb d =
      let e = main_start bus board left_tx left_rx usb d in
      record { tx = e.tx; uarts = record { uarts = e.uarts; given = λ p. [] }; lines = λ p. [] }

  module _ (settings : IsSettings board)
      (full : board.onchip_port_first + (if board.has_onchip_uart then 2 else 0) ≡ 8)
      (all : board.onchip_port_first ≤ board.num_ext_ports) (left_tx : Device bus → Tx)
      (left_rx : Device bus → Rx) (usb : List UsbEvent) (d : Device bus)
      (memory : IsMemory (left_tx (enumerate bus board d)) (left_rx (enumerate bus board d)))
      (idle : (p : ℕ)
        → p < board.onchip_port_first
        → outs.outbox (main_start bus board left_tx left_rx usb d).uarts.0 p ≡ none)
      (idle_out : (main_start bus board left_tx left_rx usb d).tx.semaphore_ep2_out ≡ false) where
    abbrev before : Lined bus board bank outs
    before = booted left_tx left_rx usb d

    -- `uart_onchip_init` sets TI.
    all_idle : (p : ℕ) → p < 8 → holding bus board bank outs before.uarts.uarts p ≡ none
    unfolding main_start clear_state go_live uart_bringup uart_init uart_onchip_init
    all_idle p h = elim (Bool-cases (ltb p board.onchip_port_first)) [
      | inl e ↦ rw e (idle p (ltb→lt p board.onchip_port_first e))
      | inr e ↦ elim (Bool-cases board.has_onchip_uart) [
        | inr o ↦ absurd (ground arith)
        | inl o ↦ elim (Bool-cases (p == board.onchip_port_first)) [
          | inl f ↦ simp (e, o, f) refl
          | inr f ↦ simp (e, o, f) refl
        ]
      ]
    ]

    -- The board has eight ports. `main` has started, on a bank that keeps one of the tries to write LCR, whatever stood in memory and
    -- came over USB meanwhile, with no packet waiting when it arms EP2-OUT and no byte in an
    -- external transmitter. Then, in any order, bulk packets come, the loop calls bridge_out and
    -- uart_tx_pump, transmitters let go of their bytes, and the rest of the program uses the bus, writing
    -- no THR and leaving DLAB clear. At each port what the wire has carried, then the byte that the
    -- transmitter holds, then what the ring and the packet at hand have for it, are together the bytes for
    -- that port of the packets that the armed endpoint took in.
    pub played_from_start :
        (p : ℕ) (es : List (Event bus board bank outs))
        → p < 8
        → Each (IsEvent bus board bank outs) es
        → on_way bus board bank outs p (run bus board bank outs es (booted left_tx left_rx usb d))
          ≡ gifts
              (dispatcher bus board)
              p
              (map (image bus board bank outs) es)
              (before.tx, before.uarts)
    played_from_start p es h each =
        let s = main_start-Started bus board left_tx left_rx usb d memory in
        let sent =
          gifts (dispatcher bus board) p (map (image bus board bank outs) es)
            (before.tx, before.uarts) in
        let none_left : on_way bus board bank outs p before ≡ [] =
          rw (s.no_bytes p, idle_out, all_idle p h) refl in
        run-on_way bus board bank outs full all p es before h each
          (record { valid = s.rings; endpoint = s.endpoint idle_out })
          (record {
            plain =
                λ q l. (main_start-configured bus board bank settings left_tx left_rx usb d q l).1;
            told = λ q l. sym (ap shown (all_idle q l));
          })
        ∙ ap (λ l. l ++ sent) none_left
