-- ===== src/Bridge.antt =====
-- The host->instrument half of firmware/main.c: the per-port TX rings, `bridge_out`, which decodes
-- EP2-OUT packets into them, and `uart_tx_pump`, which feeds the UARTs from them.
pub mod Queue
pub mod Pass
pub mod Pump
pub mod Endpoint
pub mod Stream
pub mod Reopen
pub mod Ready
pub mod Progress
use midex_class_firmware.Base.{
  ℕ, zero, suc, ◌+◌, ◌-◌, ◌/◌, ◌%◌, ◌≡◌, ◌≢◌, Bool, true, false, not, ◌&&◌, ◌||◌, leb, ltb, ◌==◌,
  if◌then◌else◌, write, for_ports, List, [], ◌∷◌, ◌++◌,
}
use midex_class_firmware.Config.{num_midi_ports, midi_tx_ring_size}
use midex_class_firmware.Cin.{cin_len}

-- The rings, the resume offset, and EP2-OUT: its buffer OUT2BUF, its byte count OUT2BC, whether it
-- is armed to receive, and the flag that its interrupt raises.
pub record Tx : Type 0 where
  pub tx_ring : ℕ → ℕ → ℕ
  pub tx_head : ℕ → ℕ
  pub tx_tail : ℕ → ℕ
  pub out_off : ℕ
  pub semaphore_ep2_out : Bool
  pub out2buf : ℕ → ℕ
  pub out2bc : ℕ
  pub armed : Bool

unfoldable pub reset_port : ℕ → Tx → Tx
reset_port p s = record s { tx_head = write s.tx_head p 0; tx_tail = write s.tx_tail p 0 }

-- `tx_reset`
unfoldable pub tx_reset : Tx → Tx
unfolding reset_port
tx_reset s = record (for_ports reset_port num_midi_ports s) { out_off = 0 }

-- `tx_room`
unfoldable pub tx_room : ℕ → Tx → ℕ
tx_room p s = midi_tx_ring_size - 1 - (s.tx_head p + 256 - s.tx_tail p) % 256 % midi_tx_ring_size

-- `tx_ring[cn][tx_head[cn]] = b; tx_head[cn] = (tx_head[cn] + 1) & TX_RING_MASK`
unfoldable pub push : ℕ → ℕ → Tx → Tx
push cn b s = record s {
  tx_ring = write s.tx_ring cn (write (s.tx_ring cn) (s.tx_head cn) b);
  tx_head = write s.tx_head cn ((s.tx_head cn + 1) % midi_tx_ring_size);
}

-- The loop over `j`: the bytes of OUT2BUF from index `i`, `k` of them.
unfoldable pub push_bytes : ℕ → ℕ → ℕ → Tx → Tx
push_bytes cn i zero s = s
push_bytes cn i (suc k) s = push_bytes cn (i + 1) k (push cn (s.out2buf i) s)

-- The cable number and the data length of the packet at index `i`.
abbrev pub cable : (ℕ → ℕ) → ℕ → ℕ
cable buf i = buf i / 16

abbrev pub data_len : (ℕ → ℕ) → ℕ → ℕ
data_len buf i = cin_len (buf i % 16)

-- Writing OUT2BC arms the endpoint again.
unfoldable pub rearm : Tx → Tx
rearm s = record s { out_off = 0; semaphore_ep2_out = false; out2bc = 0; armed = true }

-- The `for` loop of `bridge_out` and what follows it, on fuel; `n` is OUT2BC.
unfoldable pub decode : ℕ → ℕ → ℕ → Tx → Tx
decode zero n i s = s
decode (suc fuel) n i s = elim (leb ((i + 4) % 256) n) [
  | false ↦ rearm s
  | true ↦ elim (leb num_midi_ports (cable s.out2buf i) || (data_len s.out2buf i == 0)) [
    | true ↦ decode fuel n ((i + 4) % 256) s
    | false ↦ elim (ltb (tx_room (cable s.out2buf i) s) (data_len s.out2buf i)) [
      | true ↦ record s { out_off = i }
      | false ↦
          decode fuel n ((i + 4) % 256)
            (push_bytes (cable s.out2buf i) (i + 1) (data_len s.out2buf i) s)
    ]
  ]
]

-- A bulk packet is 64 bytes, sixteen event packets, at most.
abbrev pub decode_fuel : ℕ
decode_fuel = 17

-- `ep2out_isr`; CLEAR_IRQ and OUT07IRQ acknowledge the interrupt.
unfoldable pub ep2out_isr : Tx → Tx
ep2out_isr s = record s { semaphore_ep2_out = true }

-- `bridge_out`
unfoldable pub bridge_out : Tx → Tx
bridge_out s = if not s.semaphore_ep2_out then s else decode decode_fuel s.out2bc s.out_off s

-- What `usb_handle_set_interface` of firmware/usb.c does to EP2-OUT: OUT2BC = 0 arms it.
unfoldable pub set_interface_out : Tx → Tx
set_interface_out s = record s { out2bc = 0; armed = true }

-- The UART operations that the bridge sees (firmware/uart.h). The test may change a state: it reads a
-- register. `sent` is what a port's transmitter has been given so far.
pub record UartOps : Type 1 where
  pub State : Type 0
  pub tx_ready : ℕ → State → Bool × State
  pub putc : ℕ → ℕ → State → State
  pub sent : ℕ → State → List ℕ
  pub sent-tx_ready : (p q : ℕ) (u : State) → sent q (tx_ready p u).1 ≡ sent q u
  pub sent-putc :
      (p b : ℕ) (u : State)
      → (tx_ready p u).0 ≡ true
      → sent p (putc p b (tx_ready p u).1) ≡ sent p u ++ (b ∷ [])
  pub sent-putc_other : (p q b : ℕ) (u : State) → q ≢ p → sent q (putc p b u) ≡ sent q u

module _ (ops : UartOps) where
  open ops use {State, tx_ready, putc}

  -- One round of `uart_tx_pump`.
  unfoldable pub pump_port : ℕ → Tx × State → Tx × State
  pump_port p (s, u) =
      if s.tx_head p == s.tx_tail p
      then (s, u)
      else (let (ready, v) = tx_ready p u in
          if ready
          then (
            record s { tx_tail = write s.tx_tail p ((s.tx_tail p + 1) % midi_tx_ring_size) },
            putc p (s.tx_ring p (s.tx_tail p)) v,
          )
          else (s, v))

  -- `uart_tx_pump`
  unfoldable pub uart_tx_pump : Tx × State → Tx × State
  uart_tx_pump = for_ports pump_port num_midi_ports
