-- ===== src/Main/Channels.antt =====
-- The external channels behind the start of `main`, and so under the capture interrupt.
use midex_class_firmware.Base.{ℕ, ◌<◌, ◌≡◌, ◌∙◌, ap, refl, true, false, has_bit, List}
use midex_class_firmware.Config.{Board}
use midex_class_firmware.UartExt.{Bus}
use midex_class_firmware.UartExt.Bank.{Bank}
use midex_class_firmware.UartExt.Init.{IsSettings, configured, uart_ext_init-configured}
use midex_class_firmware.Uart.{uart_rx_start}
use midex_class_firmware.Dispatch.{uart_init}
use midex_class_firmware.Bringup.{uart_bringup}
use midex_class_firmware.Bridge.{Tx}
use midex_class_firmware.RxPump.{Rx}
use midex_class_firmware.Main.{Device, UsbEvent, enumerate, clear_state, go_live, main_start}

-- Whatever stood in the chips and in memory, on a bank that keeps one of the tries to write LCR: when
-- `main` reaches its loop the capture timer runs, and each external channel has the line setting in
-- LCR, so that DLAB is clear and the interrupt's reads reach RHR, the divisor of the board, and no
-- interrupt and no modem line on.
pub main_start-configured :
    (bus : Bus) (board : Board) (bank : Bank bus board)
    → IsSettings board
    → (left_tx : Device bus → Tx) (left_rx : Device bus → Rx) (usb : List UsbEvent) (d : Device bus)
      (p : ℕ)
    → p < board.num_ext_ports
    → let e = main_start bus board left_tx left_rx usb d in
      (bank.channel e.uarts.0 p ≡ configured bus board bank)
      × (has_bit 0x80 (bank.channel e.uarts.0 p).lcr ≡ false)
      × (e.timer.tr0 ≡ true)
      × (e.timer.et0 ≡ true)
unfolding main_start enumerate clear_state go_live uart_bringup uart_init uart_rx_start
main_start-configured bus board bank settings left_tx left_rx usb d p h =
    let all = uart_ext_init-configured bus board bank _ p settings h in
    (all, ap (λ c. has_bit 0x80 c.lcr) all ∙ settings.line_clear, refl, refl)
