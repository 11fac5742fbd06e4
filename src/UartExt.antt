-- ===== src/UartExt.antt =====
-- firmware/uart_ext.c and UART_REG of firmware/uart_ext.h: the external 16550 channels, on an
-- XDATA bus that is a parameter.
pub mod Latch
pub mod Address
pub mod Bank
pub mod Change
pub mod Init
use midex_class_firmware.Base.{
  ℕ, zero, suc, ◌+◌, ◌*◌, ◌%◌, ◌^◌, Bool, ◌==◌, if◌then◌else◌, has_bit, not,
}
use midex_class_firmware.Config.{Board, uart_lsr_thre}
use midex_class_firmware.Registers.{Pins}

-- The volatile accesses and the delay loop; a read may change the state. `pins` is what the board's
-- pins, which have the RESET lines among them, do to the chips when they have been written.
pub record Bus : Type 1 where
  pub State : Type 0
  pub read : ℕ → State → ℕ × State
  pub write : ℕ → ℕ → State → State
  pub delay_us : ℕ → State → State
  pub pins : Pins → State → State

-- The register offsets of a channel: UART_RHR, UART_THR, UART_DLL, ...
abbrev pub uart_thr : ℕ
uart_thr = 0

abbrev pub uart_dll : ℕ
uart_dll = 0

abbrev pub uart_dlm : ℕ
uart_dlm = 1

abbrev pub uart_ier : ℕ
uart_ier = 1

abbrev pub uart_lcr : ℕ
uart_lcr = 3

abbrev pub uart_mcr : ℕ
uart_mcr = 4

abbrev pub uart_lsr : ℕ
uart_lsr = 5

-- `UART_REG`, an address of 16 bits.
unfoldable pub uart_reg : Board → ℕ → ℕ → ℕ
uart_reg board port off = (board.uart_base + port * board.uart_stride + off) % 2 ^ 16

module _ (bus : Bus) (board : Board) where
  -- The loop of `uart_write_lcr` with the tries that are left.
  unfoldable pub lcr_loop : ℕ → ℕ → ℕ → bus.State → bus.State
  lcr_loop zero port val s = s
  lcr_loop (suc left) port val s =
      let (got, t) =
        bus.read (uart_reg board port uart_lcr) (bus.write (uart_reg board port uart_lcr) val s) in
      let rest = lcr_loop left port val (bus.delay_us 10 t) in if got == val then t else rest

  -- `uart_write_lcr`
  unfoldable pub uart_write_lcr : ℕ → ℕ → bus.State → bus.State
  uart_write_lcr = lcr_loop board.lcr_max_tries

  -- The body of the loop of `uart_ext_init`.
  unfoldable pub init_channel : ℕ → bus.State → bus.State
  init_channel port s =
      let s = uart_write_lcr port board.lcr_dlab s in
      let s = bus.write (uart_reg board port uart_dll) board.divisor s in
      let s = bus.write (uart_reg board port uart_dlm) 0x00 s in
      let s = uart_write_lcr port board.lcr_8n1 s in
      let s = bus.write (uart_reg board port uart_mcr) 0x00 s in
      bus.write (uart_reg board port uart_ier) 0x00 s

  unfoldable pub init_channels : ℕ → bus.State → bus.State
  init_channels zero s = s
  init_channels (suc n) s = init_channel n (init_channels n s)

  -- `uart_ext_init`
  unfoldable pub uart_ext_init : bus.State → bus.State
  uart_ext_init = init_channels board.num_ext_ports

  -- `uart_ext_tx_ready`
  unfoldable pub uart_ext_tx_ready : ℕ → bus.State → Bool × bus.State
  uart_ext_tx_ready port s =
      let (lsr, t) = bus.read (uart_reg board port uart_lsr) s in (has_bit uart_lsr_thre lsr, t)

  -- `uart_ext_putc`
  unfoldable pub uart_ext_putc : ℕ → ℕ → bus.State → bus.State
  uart_ext_putc port b s = bus.write (uart_reg board port uart_thr) b s
