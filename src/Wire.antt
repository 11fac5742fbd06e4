-- ===== src/Wire.antt =====
-- The receive path on its chips: bytes that come over the MIDI wires, the receivers of both backends
-- under the capture interrupt (firmware/uart.c), and behind the FIFOs the path of RxPath.
pub mod Receiving
pub mod Ledger
pub mod Carried
pub mod Time
pub mod Ahead
pub mod Cadence
pub mod Startup
pub mod Transmit
pub mod Both
use midex_class_firmware.Base.{
  ℕ, ◌+◌, ◌<◌, ◌≡◌, ◌≢◌, Bool, true, false, ◌==◌, ltb, if◌then◌else◌, Option, none, some, List, [],
  ◌∷◌,
}
use midex_class_firmware.Config.{Board}
use midex_class_firmware.UartExt.{Bus}
use midex_class_firmware.UartExt.Bank.{Bank}
use midex_class_firmware.Uart.Direct.{Receivers, direct_rx_isr, shown}
use midex_class_firmware.Uart.Emptied.{Inboxes, IsPlain, is_some, pending}
use midex_class_firmware.Uart.Lossless
use midex_class_firmware.RxPath
use midex_class_firmware.RxPath.{System}

module _ (bus : Bus) (board : Board) (bank : Bank bus board) (boxes : Inboxes bus board bank) where
  open boxes use {inbox}

  -- The wires of the external channels: a byte whose last bit has come stands in the receiver, if that
  -- was empty. It touches no other receiver and no LCR.
  pub record Inputs : Type 0 where
    pub deliver : ℕ → ℕ → bus.State → bus.State
    pub deliver_own :
        (p b : ℕ) (s : bus.State)
        → p < board.num_ext_ports
        → inbox s p ≡ none
        → inbox (deliver p b s) p ≡ some b
    pub deliver_apart :
        (p q b : ℕ) (s : bus.State)
        → p < board.num_ext_ports
        → q ≢ p
        → inbox (deliver p b s) q ≡ inbox s q
    pub deliver_lcr :
        (p q b : ℕ) (s : bus.State)
        → p < board.num_ext_ports
        → (bank.channel (deliver p b s) q).lcr ≡ (bank.channel s q).lcr

  -- The chips, the on-chip receivers and the path behind the capture interrupt.
  pub record Wired : Type 0 where
    pub chips : bus.State
    pub receivers : Receivers
    pub path : System

  -- A byte has come at a port; the capture interrupt, whose reads are one step; the rest of the program
  -- uses the bus; and the other steps of the receive path.
  pub data Event : Type 0 where
    byte : ℕ → ℕ → Event
    isr : Event
    access : (bus.State → bus.State) → Event
    turn : ℕ → Event
    send take : Event

  -- The rest of the program uses the bus so: it reads no RHR, and leaves DLAB clear.
  abbrev pub IsAccess : (bus.State → bus.State) → Type 0
  IsAccess f =
      (s : bus.State)
      → IsPlain bus board bank boxes s
      → IsPlain bus board bank boxes (f s) × ((p : ℕ) → inbox (f s) p ≡ inbox s p)

  abbrev pub IsEvent : Event → Type 0
  IsEvent (byte p b) = (p < 8) × (b < 256)
  IsEvent (access f) = IsAccess f
  IsEvent (turn p) = p < 8
  IsEvent _ = Unit

-- An on-chip UART has received a byte: SBUF holds it and RI is set.
abbrev pub received : Board → ℕ → ℕ → Receivers → Receivers
received board p b r =
    if p == board.onchip_port_first
    then record r { ri_0 = true; sbuf0 = b }
    else record r { ri_1 = true; sbuf1 = b }

module _ (bus : Bus) (board : Board) (bank : Bank bus board) (boxes : Inboxes bus board bank) where
  -- The byte that stands in the receiver of port `p`.
  abbrev pub held : Wired bus board bank boxes → ℕ → Option ℕ
  held a p = pending bus board bank boxes (a.chips, a.receivers) p

  module _ (inputs : Inputs bus board bank boxes) where
    unfoldable pub step :
        Event bus board bank boxes → Wired bus board bank boxes → Wired bus board bank boxes
    step (byte p b) a = record a {
      chips = if ltb p board.onchip_port_first then inputs.deliver p b a.chips else a.chips;
      receivers =
          if ltb p board.onchip_port_first then a.receivers else received board p b a.receivers;
    }
    step isr a =
        let (c, (s, r)) = direct_rx_isr bus board (a.path.rx.capture, (a.chips, a.receivers)) in
        record {
          chips = s;
          receivers = r;
          path = record (a.path) { rx = record (a.path.rx) { capture = c } };
        }
    step (access f) a = record a { chips = f a.chips }
    step (turn p) a = record a { path = RxPath.step board (RxPath.turn p) a.path }
    step send a = record a { path = RxPath.step board RxPath.send a.path }
    step take a = record a { path = RxPath.step board RxPath.take a.path }

    unfoldable pub run :
        List (Event bus board bank boxes) → Wired bus board bank boxes → Wired bus board bank boxes
    run [] a = a
    run (e ∷ es) a = run es (step e a)

    -- A byte that comes while its receiver still holds one: the chip loses one of the two.
    abbrev pub overrun : Event bus board bank boxes → Wired bus board bank boxes → Bool
    overrun (byte p b) a = is_some (held a p)
    overrun _ a = false

    unfoldable pub overruns : List (Event bus board bank boxes) → Wired bus board bank boxes → ℕ
    overruns [] a = 0
    overruns (e ∷ es) a =
        let rest = overruns es (step e a) in if overrun e a then rest + 1 else rest

    -- What the run is to the path behind the interrupt.
    unfoldable pub images :
        List (Event bus board bank boxes) → Wired bus board bank boxes → List RxPath.Event
    images [] a = []
    images (byte p b ∷ es) a = images es (step (byte p b) a)
    images (access f ∷ es) a = images es (step (access f) a)
    images (isr ∷ es) a = RxPath.tick (shown bus board a.chips a.receivers) ∷ images es (step isr a)
    images (turn p ∷ es) a = RxPath.turn p ∷ images es (step (turn p) a)
    images (send ∷ es) a = RxPath.send ∷ images es (step send a)
    images (take ∷ es) a = RxPath.take ∷ images es (step take a)

  -- The bytes that come over the wire of port `q`.
  unfoldable pub wire : ℕ → List (Event bus board bank boxes) → List ℕ
  wire q [] = []
  wire q (byte p b ∷ es) = let rest = wire q es in if q == p then b ∷ rest else rest
  wire q (isr ∷ es) = wire q es
  wire q (access f ∷ es) = wire q es
  wire q (turn p ∷ es) = wire q es
  wire q (send ∷ es) = wire q es
  wire q (take ∷ es) = wire q es
