-- ===== src/Main/Start.antt =====
-- What the start of `main` establishes, whatever stood in memory.
use mathlib.Core.Path.{subst}
use native.Mathlib.Decide.{dec_lt}
use midex_class_firmware.Base.{
  ℕ, ◌<◌, ◌≤◌, ◌≡◌, ◌≢◌, ◌∙◌, sym, ap, ap₂, refl, true, false, Bool-cases, inl, inr, List, [], ◌∷◌,
  Each, arith, write, write_self, write_ne, for_ports, for_ports_at, for_ports_past, for_ports_inv,
}
use midex_class_firmware.Config.{Board}
use midex_class_firmware.Ring
use midex_class_firmware.Parser.{reset}
use midex_class_firmware.Parser.Shape
use midex_class_firmware.Parser.Shape.{reset-IsValid}
use midex_class_firmware.Uart.{Capture, uart_rx_reset, uart_rx_start}
use midex_class_firmware.Uart
use midex_class_firmware.Uart.Fifo.{waiting}
use midex_class_firmware.UartExt.{Bus}
use midex_class_firmware.Bridge.{Tx, tx_reset, ep2out_isr, set_interface_out}
use midex_class_firmware.Bridge
use midex_class_firmware.Bridge.Queue
use midex_class_firmware.Bridge.Queue.{queue}
use midex_class_firmware.Bridge.Endpoint.{Endpoint}
use midex_class_firmware.RxPump.{Rx, midi_parser_reset, reset_parser}
use midex_class_firmware.RxPump.Round.{IsValid}
use midex_class_firmware.RxPath.EndToEnd.{IsClear}
use midex_class_firmware.Main.{
  Device, UsbEvent, packet, set_interface, usb_event, usb_events, enumerate, clear_state, go_live,
  main_start,
}

-- What the C types say of memory that holds anything: a SysEx buffer holds bytes. The arrays have
-- eight elements; a function on indices is zero beyond them.
pub record IsMemory (tx : Tx) (rx : Rx) : Type 0 where
  pub chunks :
      (p : ℕ) → ((rx.parser p).sx0 < 256) × ((rx.parser p).sx1 < 256) × ((rx.parser p).sx2 < 256)
  pub fifo_end : (p : ℕ) → 8 ≤ p → (rx.capture.rx_fifo_head p ≡ 0) × (rx.capture.rx_fifo_tail p ≡ 0)
  pub ring_end : (p : ℕ) → 8 ≤ p → (tx.tx_head p ≡ 0) × (tx.tx_tail p ≡ 0)

parser_at : (p : ℕ) (s : Rx) → p < 8 → (midi_parser_reset s).parser p ≡ reset (s.parser p)
unfolding midi_parser_reset reset_parser
parser_at p s h =
    for_ports_at reset_parser (λ t. t.parser p) p (λ _. Unit {0}) reset 8 s (λ _ _ _. tt)
      (λ r t n. write_ne t.parser r p (reset (t.parser r)) (λ e. n (sym e)))
      (λ t _. write_self t.parser p (reset (t.parser p))) tt h

-- A loop that writes 0 at each of eight indices.
cleared {ℓ} :
    {S : Type ℓ} (body : ℕ → S → S) (view : S → ℕ → ℕ) (p : ℕ) (s : S)
    → ((r : ℕ) (t : S) → view (body r t) ≡ write (view t) r 0)
    → (8 ≤ p → view s p ≡ 0)
    → view (for_ports body 8 s) p ≡ 0
cleared body view p s own beyond = elim (dec_lt p 8) [
  | yes l ↦
      for_ports_at body (λ t. view t p) p (λ _. Unit {0}) (λ _. 0) 8 s (λ _ _ _. tt) other
        (λ t _. ap (λ f. f p) (own p t) ∙ write_self (view t) p 0) tt l
  | no g ↦ for_ports_past body (λ t. view t p) p 8 s other (omega arith) ∙ beyond (omega arith)
]
  where
    other : (r : ℕ) (t : _) → r ≢ p → view (body r t) p ≡ view t p
    other r t n = ap (λ f. f p) (own r t) ∙ write_ne (view t) r p 0 (λ e. n (sym e))

same_capture : (s : Rx) → (midi_parser_reset s).capture ≡ s.capture
unfolding midi_parser_reset reset_parser
same_capture s = for_ports_inv reset_parser (λ t. t.capture ≡ s.capture) 8 s (λ p t _ h. h) refl

same_in2 : (s : Rx) → (midi_parser_reset s).in2 ≡ s.in2
unfolding midi_parser_reset reset_parser
same_in2 s = for_ports_inv reset_parser (λ t. t.in2 ≡ s.in2) 8 s (λ p t _ h. h) refl

module _ (tx : Tx) (rx : Rx) (m : IsMemory tx rx) (p : ℕ) where
  abbrev capture : Capture
  capture = (midi_parser_reset rx).capture

  fifo_head : (uart_rx_reset capture).rx_fifo_head p ≡ 0
  unfolding uart_rx_reset Uart.reset_port
  fifo_head =
      cleared Uart.reset_port (λ c. c.rx_fifo_head) p capture (λ r t. refl)
        (λ h. ap (λ c. c.rx_fifo_head p) (same_capture rx) ∙ (m.fifo_end p h).0)

  fifo_tail : (uart_rx_reset capture).rx_fifo_tail p ≡ 0
  unfolding uart_rx_reset Uart.reset_port
  fifo_tail =
      cleared Uart.reset_port (λ c. c.rx_fifo_tail) p capture (λ r t. refl)
        (λ h. ap (λ c. c.rx_fifo_tail p) (same_capture rx) ∙ (m.fifo_end p h).1)

  ring_head : (tx_reset tx).tx_head p ≡ 0
  unfolding tx_reset Bridge.reset_port
  ring_head =
      cleared Bridge.reset_port (λ s. s.tx_head) p tx (λ r t. refl) (λ h. (m.ring_end p h).0)

  ring_tail : (tx_reset tx).tx_tail p ≡ 0
  unfolding tx_reset Bridge.reset_port
  ring_tail =
      cleared Bridge.reset_port (λ s. s.tx_tail) p tx (λ r t. refl) (λ h. (m.ring_end p h).1)

-- What USB does between the resets and the arming of EP2-OUT leaves the rings and the resume offset.
record SameRings (s t : Tx) : Type 0 where
  same_ring : t.tx_ring ≡ s.tx_ring
  same_head : t.tx_head ≡ s.tx_head
  same_tail : t.tx_tail ≡ s.tx_tail
  same_off : t.out_off ≡ s.out_off

event-SameRings : (e : UsbEvent) (s : Tx) → SameRings s (usb_event e s)
unfolding usb_event ep2out_isr set_interface_out
event-SameRings (packet buf n h) s = elim (Bool-cases s.armed) [
  | inl e ↦ rw e (record { same_ring = refl; same_head = refl; same_tail = refl; same_off = refl })
  | inr e ↦ rw e (record { same_ring = refl; same_head = refl; same_tail = refl; same_off = refl })
]
event-SameRings set_interface s = record {
  same_ring = refl;
  same_head = refl;
  same_tail = refl;
  same_off = refl;
}

events-SameRings : (es : List UsbEvent) (s : Tx) → SameRings s (usb_events es s)
unfolding usb_events
events-SameRings [] s = record {
  same_ring = refl;
  same_head = refl;
  same_tail = refl;
  same_off = refl;
}
events-SameRings (e ∷ es) s =
    let one = event-SameRings e s in
    let rest = events-SameRings es (usb_event e s) in
    record {
      same_ring = rest.same_ring ∙ one.same_ring;
      same_head = rest.same_head ∙ one.same_head;
      same_tail = rest.same_tail ∙ one.same_tail;
      same_off = rest.same_off ∙ one.same_off;
    }

-- What `main_start` establishes. EP2-OUT is sound if no packet waits when it is armed; nothing is on
-- its way to the host if EP2-IN is free.
pub record Started (bus : Bus) (d : Device bus) : Type 0 where
  pub rings : Queue.IsValid d.tx
  pub endpoint : d.tx.semaphore_ep2_out ≡ false → Endpoint d.tx
  pub no_bytes : (p : ℕ) → queue d.tx p ≡ []
  pub valid : IsValid d.rx
  pub clear : d.rx.in2.epbsy ≡ false → IsClear d.rx
  pub open_out : d.tx.armed ≡ true
  pub no_overflow : d.rx.capture.uart_rx_overflows ≡ 0
  pub sweeps_next : d.rx.capture.rx_tick_prescale ≡ 1

live-Started :
    (bus : Bus) (board : Board) (usb : List UsbEvent) (d : Device bus)
    → IsMemory d.tx d.rx
    → let c = clear_state bus d in
      Started bus (go_live bus board (record c { tx = usb_events usb c.tx }))
unfolding clear_state go_live uart_rx_start
live-Started bus board usb d m =
    let same = events-SameRings usb (tx_reset d.tx) in
    let head : (p : ℕ) → (usb_events usb (tx_reset d.tx)).tx_head p ≡ 0 =
      λ p. ap (λ f. f p) same.same_head ∙ ring_head d.tx d.rx m p in
    let tail : (p : ℕ) → (usb_events usb (tx_reset d.tx)).tx_tail p ≡ 0 =
      λ p. ap (λ f. f p) same.same_tail ∙ ring_tail d.tx d.rx m p in
    let empty : (p : ℕ) → waiting (uart_rx_reset (midi_parser_reset d.rx).capture) p ≡ [] = λ p.
      ap₂ (Ring.bytes 16 ((uart_rx_reset (midi_parser_reset d.rx).capture).rx_fifo p))
        (fifo_head d.tx d.rx m p) (fifo_tail d.tx d.rx m p) in
    record {
      rings = λ p. (omega (arith, head p), omega (arith, tail p));
      endpoint = λ none. record {
        fits = λ e. absurd (cc (none, e));
        rested = λ e. same.same_off ∙ unfold tx_reset in refl;
        exclusive = λ e. none;
      };
      no_bytes =
          λ p. ap₂ (Ring.bytes 128 ((usb_events usb (tx_reset d.tx)).tx_ring p)) (head p) (tail p);
      valid = record {
        ring = unfold midi_parser_reset in (omega arith, omega arith);
        fifos =
            λ p. (omega (arith, fifo_head d.tx d.rx m p), omega (arith, fifo_tail d.tx d.rx m p));
        parsers = λ p h.
            subst Shape.IsValid (sym (parser_at p d.rx h))
              (reset-IsValid (d.rx.parser p) (m.chunks p).0 (m.chunks p).1 (m.chunks p).2);
        small = λ p h. subst (Each (λ b. b < 256)) (sym (empty p)) tt;
      };
      clear = λ free. record {
        unsent = rw free refl;
        unqueued = unfold midi_parser_reset in refl;
        unread = λ p h. empty p;
      };
      open_out = refl;
      no_overflow = unfold uart_rx_reset in refl;
      sweeps_next = refl;
    }

pub main_start-Started :
    (bus : Bus) (board : Board) (left_tx : Device bus → Tx) (left_rx : Device bus → Rx)
    (usb : List UsbEvent) (d : Device bus)
    → IsMemory (left_tx (enumerate bus board d)) (left_rx (enumerate bus board d))
    → Started bus (main_start bus board left_tx left_rx usb d)
unfolding main_start
main_start-Started bus board left_tx left_rx usb d m =
    let e = enumerate bus board d in
    live-Started bus board usb (record e { tx = left_tx e; rx = left_rx e }) m
