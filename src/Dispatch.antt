-- ===== src/Dispatch.antt =====
-- The dispatcher of firmware/uart.c over the two UART backends.
pub mod Interface
use midex_class_firmware.Base.{
  ℕ, Bool, true, false, ◌&&◌, leb, if◌then◌else◌, ◌≡◌, ◌≢◌, ◌<◌, ◌+◌, ◌≤◌, arith,
}
use midex_class_firmware.Config.{Board}
use midex_class_firmware.Registers.{Sfr}
use midex_class_firmware.UartExt.{Bus, uart_ext_init, uart_ext_tx_ready, uart_ext_putc}
use midex_class_firmware.UartOnchip.{
  Onchip, uart_onchip_init, uart_onchip_tx_ready, uart_onchip_putc,
}

module _ (bus : Bus) (board : Board) where
  -- `uart_init`
  unfoldable pub uart_init : Sfr × (bus.State × Onchip) → Sfr × (bus.State × Onchip)
  uart_init (f, (s, o)) =
      let (g, q) = if board.has_onchip_uart then uart_onchip_init (f, o) else (f, o) in
      (g, (uart_ext_init bus board s, q))

  -- `uart_tx_ready`
  unfoldable pub uart_tx_ready : ℕ → bus.State × Onchip → Bool × (bus.State × Onchip)
  uart_tx_ready port (s, o) =
      let (ready, t) = uart_ext_tx_ready bus board port s in
      if board.has_onchip_uart && leb board.onchip_port_first port
      then (uart_onchip_tx_ready board port o, (s, o))
      else (ready, (t, o))

  -- `uart_putc`
  unfoldable pub uart_putc : ℕ → ℕ → bus.State × Onchip → bus.State × Onchip
  uart_putc port b (s, o) =
      if board.has_onchip_uart && leb board.onchip_port_first port
      then (s, uart_onchip_putc board port b o)
      else (uart_ext_putc bus board port b s, o)

-- On a board with on-chip UARTs, behind `uart_init` both on-chip ports are ready. A byte put to one
-- makes that one busy, and it leaves the readiness of the other and the external bus as they were.
uart_putc-tx_ready :
    (bus : Bus) (board : Board) (p q b : ℕ) (f : Sfr) (s : bus.State) (o : Onchip)
    → board.has_onchip_uart ≡ true
    → board.onchip_port_first ≤ p
    → p < board.onchip_port_first + 2
    → board.onchip_port_first ≤ q
    → q < board.onchip_port_first + 2
    → q ≢ p
    → ((uart_tx_ready bus board p (uart_init bus board (f, (s, o))).1).0 ≡ true)
      × ((uart_tx_ready bus board p (uart_putc bus board p b (s, o))).0 ≡ false)
      × ((uart_tx_ready bus board q (uart_putc bus board p b (s, o))).0
          ≡ (uart_tx_ready bus board q (s, o)).0)
      × ((uart_putc bus board p b (s, o)).0 ≡ s)
unfolding uart_tx_ready uart_putc uart_init uart_onchip_tx_ready uart_onchip_putc uart_onchip_init
uart_putc-tx_ready bus board p q b f s o on lo hi lq hq ne =
    (ground arith, ground arith, ground arith, ground arith)
