-- ===== src/Wire/Transmit.antt =====
-- The transmitters behind the bridge: THR and THRE of the external channels, SBUF and TI of the on-chip
-- UARTs, under uart_tx_pump (firmware/main.c) and the dispatcher (firmware/uart.c).
pub mod Sending
pub mod Account
pub mod Startup
use midex_class_firmware.Base.{
  ℕ, ◌+◌, ◌<◌, ◌≤◌, ◌≡◌, ◌≢◌, Bool, true, false, ◌==◌, ltb, if◌then◌else◌, has_bit, Option, none,
  some, List, [], ◌∷◌, ◌++◌, map, refl, write,
}
use midex_class_firmware.Config.{Board}
use midex_class_firmware.UartExt.{Bus, uart_reg, uart_lsr, uart_thr}
use midex_class_firmware.UartExt.Bank.{Bank}
use midex_class_firmware.UartOnchip.{Onchip}
use midex_class_firmware.Uart.Lossless.{shown}
use midex_class_firmware.Bridge.{Tx}
use midex_class_firmware.Bridge.Queue.{queue}
use midex_class_firmware.Bridge.Endpoint.{left}
use midex_class_firmware.Bridge.Stream.{Action, act}
use midex_class_firmware.Bridge.Stream
use midex_class_firmware.Dispatch.Interface.{Uarts, dispatcher}

-- The transmitters of a bank: THRE is set only while THR is empty, a read of LSR leaves it so, and a write of
-- THR with DLAB clear fills an empty one. `leave p` is the moment at which the byte of `p` moves on to the
-- wire. None of them touches another transmitter, or any LCR.
pub record Outboxes (bus : Bus) (board : Board) (bank : Bank bus board) : Type 0 where
  pub outbox : bus.State → ℕ → Option ℕ
  pub leave : ℕ → bus.State → bus.State
  pub lsr_free :
      (p : ℕ) (s : bus.State)
      → p < board.num_ext_ports
      → has_bit 0x20 (bus.read (uart_reg board p uart_lsr) s).0 ≡ true
      → outbox s p ≡ none
  pub lsr_keeps :
      (p q : ℕ) (s : bus.State)
      → p < board.num_ext_ports
      → outbox (bus.read (uart_reg board p uart_lsr) s).1 q ≡ outbox s q
  pub lsr_lcr :
      (p q : ℕ) (s : bus.State)
      → p < board.num_ext_ports
      → (bank.channel (bus.read (uart_reg board p uart_lsr) s).1 q).lcr ≡ (bank.channel s q).lcr
  pub thr_takes :
      (p b : ℕ) (s : bus.State)
      → p < board.num_ext_ports
      → has_bit 0x80 (bank.channel s p).lcr ≡ false
      → outbox s p ≡ none
      → outbox (bus.write (uart_reg board p uart_thr) b s) p ≡ some b
  pub thr_apart :
      (p q b : ℕ) (s : bus.State)
      → p < board.num_ext_ports
      → q ≢ p
      → outbox (bus.write (uart_reg board p uart_thr) b s) q ≡ outbox s q
  pub thr_lcr :
      (p q b : ℕ) (s : bus.State)
      → p < board.num_ext_ports
      → has_bit 0x80 (bank.channel s p).lcr ≡ false
      → (bank.channel (bus.write (uart_reg board p uart_thr) b s) q).lcr ≡ (bank.channel s q).lcr
  pub leave_own : (p : ℕ) (s : bus.State) → p < board.num_ext_ports → outbox (leave p s) p ≡ none
  pub leave_apart :
      (p q : ℕ) (s : bus.State)
      → p < board.num_ext_ports
      → q ≢ p
      → outbox (leave p s) q ≡ outbox s q
  pub leave_lcr :
      (p q : ℕ) (s : bus.State)
      → p < board.num_ext_ports
      → (bank.channel (leave p s) q).lcr ≡ (bank.channel s q).lcr

module _ (bus : Bus) (board : Board) (bank : Bank bus board) (outs : Outboxes bus board bank) where
  open outs use {outbox}

  -- DLAB is clear in all channels.
  abbrev pub IsPlain : bus.State → Type 0
  IsPlain s = (p : ℕ) → p < board.num_ext_ports → has_bit 0x80 (bank.channel s p).lcr ≡ false

  -- The byte that a port's transmitter still holds.
  abbrev pub holding : bus.State × Onchip → ℕ → Option ℕ
  holding (s, o) p =
      if ltb p board.onchip_port_first
      then outbox s p
      else if p == board.onchip_port_first
      then (if o.ti_0 then none else some o.sbuf0)
      else (if o.ti_1 then none else some o.sbuf1)

  -- It has gone.
  abbrev pub gone : ℕ → bus.State × Onchip → bus.State × Onchip
  gone p (s, o) =
      if ltb p board.onchip_port_first
      then (outs.leave p s, o)
      else if p == board.onchip_port_first
      then (s, record o { ti_0 = true })
      else (s, record o { ti_1 = true })

  -- The bridge with the dispatcher's UARTs, and the bytes that each port's wire has carried.
  pub record Lined : Type 0 where
    pub tx : Tx
    pub uarts : Uarts bus board
    pub lines : ℕ → List ℕ

  -- A bulk packet comes, with its interrupt; the two calls of the main loop; the byte of a port's
  -- transmitter goes on to the wire; the rest of the program uses the bus.
  pub data Event : Type 0 where
    host : (buf : ℕ → ℕ) → (n : ℕ) → n ≤ 64 → Event
    bridge : Event
    pump : Event
    leave : ℕ → Event
    access : (bus.State → bus.State) → Event

  -- The rest of the program writes no THR and leaves DLAB clear.
  abbrev pub IsEvent : Event → Type 0
  IsEvent (leave p) = p < 8
  IsEvent (access f) =
      (s : bus.State) → IsPlain s → IsPlain (f s) × ((p : ℕ) → outbox (f s) p ≡ outbox s p)
  IsEvent _ = Unit

  -- What a step is to the bridge.
  abbrev pub image : Event → Action (dispatcher bus board)
  image (host buf n h) = Stream.host buf n h
  image bridge = Stream.bridge
  image pump = Stream.pump
  image (leave p) = Stream.wait (λ u. record u { uarts = gone p u.uarts }) (λ q u. refl)
  image (access f) = Stream.wait (λ u. record u { uarts = (f u.uarts.0, u.uarts.1) }) (λ q u. refl)

  abbrev pub carried : Event → Lined → ℕ → List ℕ
  carried (leave p) a = write a.lines p (a.lines p ++ shown (holding a.uarts.uarts p))
  carried _ a = a.lines

  unfoldable pub step : Event → Lined → Lined
  step e a =
      let (t, u) = act (dispatcher bus board) (image e) (a.tx, a.uarts) in
      record { tx = t; uarts = u; lines = carried e a }

  unfoldable pub run : List Event → Lined → Lined
  run [] a = a
  run (e ∷ es) a = run es (step e a)

  -- Each of a port's bytes: on the wire, in the transmitter, in the ring, in the buffer.
  abbrev pub on_way : ℕ → Lined → List ℕ
  on_way p a = ((a.lines p ++ shown (holding a.uarts.uarts p)) ++ queue a.tx p) ++ left p a.tx
