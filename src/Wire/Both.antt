-- ===== src/Wire/Both.antt =====
-- Both directions on the same chips: the main loop's pump (firmware/main.c) and the capture interrupt
-- (firmware/uart.c) use one bus, and each is to the other but another use of it.
pub mod Access
pub mod Views
pub mod Startup
use midex_class_firmware.Base.{
  ℕ, ◌<◌, ◌≤◌, ◌≡◌, ltb, if◌then◌else◌, false, has_bit, List, [], ◌∷◌, Each,
}
use midex_class_firmware.Config.{Board}
use midex_class_firmware.UartExt.{Bus, uart_reg, uart_thr}
use midex_class_firmware.UartExt.Bank.{Bank}
use midex_class_firmware.UartOnchip.{Onchip}
use midex_class_firmware.Uart.Direct.{uart_rhr, Receivers, direct_rx_isr}
use midex_class_firmware.Uart.Emptied.{Inboxes}
use midex_class_firmware.Bridge.{Tx, uart_tx_pump}
use midex_class_firmware.Dispatch.Interface.{Uarts, dispatcher}
use midex_class_firmware.RxPath.{System}
use midex_class_firmware.Wire
use midex_class_firmware.Wire.{Inputs, Wired}
use midex_class_firmware.Wire.Transmit
use midex_class_firmware.Wire.Transmit.{Outboxes, Lined, gone}

-- The two halves of a channel do not touch each other.
pub record Duplex (bus : Bus) (board : Board) (bank : Bank bus board)
    (boxes : Inboxes bus board bank) (inputs : Inputs bus board bank boxes)
    (outs : Outboxes bus board bank) : Type 0 where
  pub thr_inbox :
      (p q b : ℕ) (s : bus.State)
      → p < board.num_ext_ports
      → has_bit 0x80 (bank.channel s p).lcr ≡ false
      → boxes.inbox (bus.write (uart_reg board p uart_thr) b s) q ≡ boxes.inbox s q
  pub leave_inbox :
      (p q : ℕ) (s : bus.State)
      → p < board.num_ext_ports
      → boxes.inbox (outs.leave p s) q ≡ boxes.inbox s q
  pub rhr_outbox :
      (p q : ℕ) (s : bus.State)
      → p < board.num_ext_ports
      → outs.outbox (bus.read (uart_reg board p uart_rhr) s).1 q ≡ outs.outbox s q
  pub deliver_outbox :
      (p q b : ℕ) (s : bus.State)
      → p < board.num_ext_ports
      → outs.outbox (inputs.deliver p b s) q ≡ outs.outbox s q

module _ (bus : Bus) (board : Board) (bank : Bank bus board) (boxes : Inboxes bus board bank)
    (inputs : Inputs bus board bank boxes) (outs : Outboxes bus board bank) where
  -- The chips, and the two sides of the program.
  pub record Machine : Type 0 where
    pub chips : bus.State
    pub receivers : Receivers
    pub path : System
    pub tx : Tx
    pub onchip : Onchip
    pub given : ℕ → List ℕ
    pub lines : ℕ → List ℕ

  abbrev pub hearing : Machine → Wired bus board bank boxes
  hearing a = record { chips = a.chips; receivers = a.receivers; path = a.path }

  abbrev pub playing : Machine → Lined bus board bank outs
  playing a = record {
    tx = a.tx;
    uarts = record { uarts = (a.chips, a.onchip); given = a.given };
    lines = a.lines;
  }

  pub data Event : Type 0 where
    byte : ℕ → ℕ → Event
    isr : Event
    turn : ℕ → Event
    send take : Event
    host : (buf : ℕ → ℕ) → (n : ℕ) → n ≤ 64 → Event
    bridge : Event
    pump : Event
    leave : ℕ → Event

  abbrev pub IsEvent : Event → Type 0
  IsEvent (byte p b) = (p < 8) × (b < 256)
  IsEvent (turn p) = p < 8
  IsEvent (leave p) = p < 8
  IsEvent _ = Unit

  abbrev pub AreEvents : List (ℕ × Event) → Type 0
  AreEvents es = Each (λ e. IsEvent e.1) es

  -- A step of the one side, and of the other.
  abbrev pub hear : Wire.Event bus board bank boxes → Machine → Machine
  hear e a =
      let w = Wire.step bus board bank boxes inputs e (hearing a) in
      record a { chips = w.chips; receivers = w.receivers; path = w.path }

  abbrev pub play : Transmit.Event bus board bank outs → Machine → Machine
  play e a =
      let l = Transmit.step bus board bank outs e (playing a) in
      record a {
        chips = l.uarts.uarts.0;
        onchip = l.uarts.uarts.1;
        given = l.uarts.given;
        tx = l.tx;
        lines = l.lines;
      }

  unfoldable pub step : Event → Machine → Machine
  step (byte p b) a = hear (Wire.byte p b) a
  step isr a = hear Wire.isr a
  step (turn p) a = hear (Wire.turn p) a
  step send a = hear Wire.send a
  step take a = hear Wire.take a
  step (host buf n h) a = play (Transmit.host buf n h) a
  step bridge a = play Transmit.bridge a
  step pump a = play Transmit.pump a
  step (leave p) a = play (Transmit.leave p) a

  unfoldable pub run : List (ℕ × Event) → Machine → Machine
  run [] a = a
  run ((t, e) ∷ es) a = run es (step e a)

  -- What the steps of the other side do to the bus.
  abbrev pub pumped : Machine → bus.State → bus.State
  pumped a s =
      (uart_tx_pump (dispatcher bus board)
        (a.tx, record { uarts = (s, a.onchip); given = a.given })).1.uarts.0

  abbrev pub swept : Machine → bus.State → bus.State
  swept a s = (direct_rx_isr bus board (a.path.rx.capture, (s, a.receivers))).1.0

  abbrev pub in_view : Event → Machine → Wire.Event bus board bank boxes
  in_view (byte p b) a = Wire.byte p b
  in_view isr a = Wire.isr
  in_view (turn p) a = Wire.turn p
  in_view send a = Wire.send
  in_view take a = Wire.take
  in_view pump a = Wire.access (pumped a)
  in_view (leave p) a = Wire.access (λ s. (gone bus board bank outs p (s, a.onchip)).0)
  in_view _ a = Wire.access (λ s. s)

  abbrev pub out_view : Event → Machine → Transmit.Event bus board bank outs
  out_view (host buf n h) a = Transmit.host buf n h
  out_view bridge a = Transmit.bridge
  out_view pump a = Transmit.pump
  out_view (leave p) a = Transmit.leave p
  out_view isr a = Transmit.access (swept a)
  out_view (byte p b) a =
      Transmit.access (λ s. if ltb p board.onchip_port_first then inputs.deliver p b s else s)
  out_view _ a = Transmit.access (λ s. s)

  -- The events as each side sees them.
  unfoldable pub ins : List (ℕ × Event) → Machine → List (ℕ × Wire.Event bus board bank boxes)
  ins [] a = []
  ins ((t, e) ∷ es) a = (t, in_view e a) ∷ ins es (step e a)

  unfoldable pub outs_of : List (ℕ × Event) → Machine → List (Transmit.Event bus board bank outs)
  outs_of [] a = []
  outs_of ((t, e) ∷ es) a = out_view e a ∷ outs_of es (step e a)
