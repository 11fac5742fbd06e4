-- ===== src/RxPump.antt =====
-- The device->host half of firmware/midi_parser.c: the ring of parsed packets, `emit`,
-- `midi_parser_reset` and `midi_rx_pump`, over the FIFOs of `Uart` and the EP2-IN endpoint.
-- A pass of the pump is one step here; `RxPath` takes it apart into those between which the capture
-- interrupt may come.
pub mod Queue
pub mod Round
pub mod Drain
pub mod Ship
pub mod Pass
use midex_class_firmware.Base.{
  ℕ, zero, suc, ◌+◌, ◌-◌, ◌*◌, ◌%◌, Bool, true, false, ◌&&◌, Option, none, some, bit_or, leb, ltb,
  ◌==◌, if◌then◌else◌, write, for_ports,
}
use midex_class_firmware.Config.{num_midi_ports, midi_rx_ring_size, midi_ep_maxpkt}
use midex_class_firmware.Parser.{PortParser, Packet, parse_byte, reset}
use midex_class_firmware.Uart.{Capture, uart_rx_available, uart_rx_dequeue}

-- EP2-IN: its buffer IN2BUF, its byte count IN2BC, and the EPBSY bit of IN2CS.
pub record In2 : Type 0 where
  pub in2buf : ℕ → ℕ
  pub in2bc : ℕ
  pub epbsy : Bool

pub record Rx : Type 0 where
  pub parser : ℕ → PortParser
  pub rx_ring : ℕ → ℕ
  pub rx_head : ℕ
  pub rx_tail : ℕ
  pub capture : Capture
  pub in2 : In2

unfoldable pub reset_parser : ℕ → Rx → Rx
reset_parser p s = record s { parser = write s.parser p (reset (s.parser p)) }

-- `midi_parser_reset`
unfoldable pub midi_parser_reset : Rx → Rx
unfolding reset_parser
midi_parser_reset s = record (for_ports reset_parser num_midi_ports s) { rx_head = 0; rx_tail = 0 }

-- `rx_ring_count`
unfoldable pub rx_ring_count : Rx → ℕ
rx_ring_count s = (s.rx_head + 256 - s.rx_tail) % 256 % midi_rx_ring_size

-- `rx_ring[rx_head] = b; rx_head = (rx_head + 1) & RX_RING_MASK`
unfoldable pub put : ℕ → Rx → Rx
put b s = record s {
  rx_ring = write s.rx_ring s.rx_head b;
  rx_head = (s.rx_head + 1) % midi_rx_ring_size;
}

-- `emit`; the first byte is `(cn << 4) | cin`.
unfoldable pub emit : ℕ → Packet → Rx → Rx
emit cn p s = put p.b2 (put p.b1 (put p.b0 (put (bit_or (cn * 16) p.cin % 256) s)))

unfoldable pub emit? : ℕ → Option Packet → Rx → Rx
emit? cn none s = s
emit? cn (some p) s = emit cn p s

-- `parse_byte(cn, b)` with its effect on the parser array and the ring.
unfoldable pub parse_byte_into_ring : ℕ → ℕ → Rx → Rx
parse_byte_into_ring cn b s =
    let (ps, out) = parse_byte b (s.parser cn) in
    emit? cn out (record s { parser = write s.parser cn ps })

-- One round of the inner loop: `parse_byte(p, uart_rx_dequeue(p))`.
unfoldable pub drain_one : ℕ → Rx → Rx
drain_one p s =
    let (b, c) = uart_rx_dequeue p s.capture in parse_byte_into_ring p b (record s { capture = c })

-- The inner `while` of `midi_rx_pump`, on fuel.
unfoldable pub drain : ℕ → ℕ → Rx → Rx
drain zero p s = s
drain (suc fuel) p s = elim (uart_rx_available p s.capture) [
  | false ↦ s
  | true ↦ elim (ltb ((midi_rx_ring_size - 1 - 4) % 256) (rx_ring_count s)) [
    | true ↦ s
    | false ↦ drain fuel p (drain_one p s)
  ]
]

-- A FIFO holds fifteen bytes at most.
abbrev pub drain_fuel : ℕ
drain_fuel = 16

-- `IN2BUF[n++] = rx_ring[rx_tail]; rx_tail = (rx_tail + 1) & RX_RING_MASK`
unfoldable pub copy_byte : ℕ × Rx → ℕ × Rx
copy_byte (n, s) = (
  n + 1,
  record s {
    in2 = record (s.in2) { in2buf = write s.in2.in2buf n (s.rx_ring s.rx_tail) };
    rx_tail = (s.rx_tail + 1) % midi_rx_ring_size;
  },
)

-- The `while` that fills IN2BUF, on fuel.
unfoldable pub fill : ℕ → ℕ × Rx → ℕ × Rx
fill zero (n, s) = (n, s)
fill (suc fuel) (n, s) = elim (leb 4 (rx_ring_count s) && leb n ((midi_ep_maxpkt - 4) % 256)) [
  | true ↦ fill fuel (copy_byte (copy_byte (copy_byte (copy_byte (n, s)))))
  | false ↦ (n, s)
]

-- Sixteen packets fill the endpoint.
abbrev pub fill_fuel : ℕ
fill_fuel = 17

-- Writing IN2BC hands the buffer to the USB core, which sets EPBSY.
unfoldable pub start : ℕ × Rx → Rx
start (n, s) = if n == 0 then s else record s { in2 = record (s.in2) { in2bc = n; epbsy = true } }

-- The second half of `midi_rx_pump`.
unfoldable pub ship : Rx → Rx
ship s = if s.in2.epbsy then s else start (fill fill_fuel (0, s))

-- `midi_rx_pump`
unfoldable pub midi_rx_pump : Rx → Rx
midi_rx_pump s = ship (for_ports (drain drain_fuel) num_midi_ports s)
