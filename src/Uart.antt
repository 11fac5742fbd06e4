-- ===== src/Uart.antt =====
-- The RX-capture half of firmware/uart.c: the per-port software FIFOs, the Timer0 interrupt that
-- fills them and the two operations that the bridge consumes them by.
pub mod Fifo
pub mod Interleaving
pub mod Sweep
pub mod Tick
pub mod Lossless
pub mod Direct
pub mod Emptied
pub mod Preempted
use midex_class_firmware.Base.{
  ℕ, zero, suc, ◌+◌, ◌-◌, ◌*◌, ◌/◌, ◌%◌, Bool, true, false, not, ◌&&◌, ltb, ◌==◌, if◌then◌else◌,
  has_bit, write, for_ports, List, [], ◌∷◌,
}
use midex_class_firmware.Config.{num_midi_ports, midex_rx_fifo_size, uart_lsr_dr, Board}
use midex_class_firmware.Registers.{Sfr}

-- `rx_fifo`, `rx_fifo_head`, `rx_fifo_tail`, `uart_rx_overflows` and `rx_tick_prescale`.
pub record Capture : Type 0 where
  pub rx_fifo : ℕ → ℕ → ℕ
  pub rx_fifo_head : ℕ → ℕ
  pub rx_fifo_tail : ℕ → ℕ
  pub uart_rx_overflows : ℕ
  pub rx_tick_prescale : ℕ

unfoldable pub reset_port : ℕ → Capture → Capture
reset_port port c = record c {
  rx_fifo_head = write c.rx_fifo_head port 0;
  rx_fifo_tail = write c.rx_fifo_tail port 0;
}

-- `uart_rx_reset`
unfoldable pub uart_rx_reset : Capture → Capture
unfolding reset_port
uart_rx_reset c = record (for_ports reset_port num_midi_ports c) { uart_rx_overflows = 0 }

-- The Timer0 registers that `uart_rx_start` programs.
pub record Timer0 : Type 0 where
  pub th0 : ℕ
  pub tl0 : ℕ
  pub pt0 : Bool
  pub et0 : Bool
  pub tr0 : Bool

-- `uart_rx_start`. A value whose low nibble is clear or'ed with 0x02 is their sum.
unfoldable pub uart_rx_start : Board → Capture → Sfr × Timer0 → Capture × (Sfr × Timer0)
uart_rx_start board c (f, t) = (
  record c { rx_tick_prescale = 1 },
  (
    record f { tmod = f.tmod / 16 * 16 + 0x02 },
    record t { th0 = board.t0_reload; tl0 = board.t0_reload; pt0 = true; et0 = true; tr0 = true },
  ),
)

-- `uart_rx_available`
unfoldable pub uart_rx_available : ℕ → Capture → Bool
uart_rx_available port c = not (c.rx_fifo_head port == c.rx_fifo_tail port)

-- `uart_rx_dequeue`
unfoldable pub uart_rx_dequeue : ℕ → Capture → ℕ × Capture
uart_rx_dequeue port c =
    let tail = c.rx_fifo_tail port in
    (
      c.rx_fifo port tail,
      record c { rx_fifo_tail = write c.rx_fifo_tail port ((tail + 1) % midex_rx_fifo_size) },
    )

-- `RX_STORE`
unfoldable pub rx_store : ℕ → ℕ → Capture → Capture
rx_store port byte c =
    let head = (c.rx_fifo_head port + 1) % 256 % midex_rx_fifo_size in
    if head == c.rx_fifo_tail port
    then record c {
      uart_rx_overflows =
          if c.uart_rx_overflows == 0xFF then c.uart_rx_overflows else c.uart_rx_overflows + 1;
    }
    else record c {
      rx_fifo = write c.rx_fifo port (write (c.rx_fifo port) (c.rx_fifo_head port) byte);
      rx_fifo_head = write c.rx_fifo_head port head;
    }

-- What the receivers show to one sweep: LSR and RHR of each external channel, and RI and SBUF of
-- the two on-chip UARTs.
pub record Lines : Type 0 where
  pub lsr : ℕ → ℕ
  pub rhr : ℕ → ℕ
  pub ri_0 : Bool
  pub sbuf0 : ℕ
  pub ri_1 : Bool
  pub sbuf1 : ℕ

-- The first loop's body.
sweep_ext : Lines → ℕ → Capture → Capture
sweep_ext lines port c =
    if has_bit uart_lsr_dr (lines.lsr port) then rx_store port (lines.rhr port) c else c

-- RI of both on-chip UARTs is clear behind the sweep.
sweep_onchip : Board → Lines → Capture → Capture
sweep_onchip board lines c =
    let d = if lines.ri_0 then rx_store board.onchip_port_first lines.sbuf0 c else c in
    if lines.ri_1 then rx_store (board.onchip_port_first + 1) lines.sbuf1 d else d

-- What `uart_rx_isr` does on a sweep tick, behind the prescaler.
unfoldable pub sweep : Board → Lines → Capture → Capture
unfolding sweep_ext sweep_onchip
sweep board lines c =
    let d = for_ports (sweep_ext lines) board.onchip_port_first c in
    if board.has_onchip_uart then sweep_onchip board lines d else d

-- `uart_rx_isr`. `--rx_tick_prescale` wraps at a byte.
unfoldable pub uart_rx_isr : Board → Lines → Capture → Capture
uart_rx_isr board lines c =
    let count = (c.rx_tick_prescale + 256 - 1) % 256 in
    if count == 0
    then sweep board lines (record c { rx_tick_prescale = board.t0_prescale })
    else record c { rx_tick_prescale = count }
