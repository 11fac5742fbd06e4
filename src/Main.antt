-- ===== src/Main.antt =====
-- `main` of firmware/main.c and `usb_init` of firmware/usb.c: what happens before the endless loop,
-- and one pass of the loop, over the joined state of the parts.
pub mod Start
pub mod Loop
pub mod Endpoints
pub mod Channels
use midex_class_firmware.Base.{ℕ, ◌≤◌, Bool, true, false, if◌then◌else◌, set_bit, List, [], ◌∷◌}
use midex_class_firmware.Config.{Board}
use midex_class_firmware.Uart.{Timer0, uart_rx_reset, uart_rx_start}
use midex_class_firmware.UartExt.{Bus}
use midex_class_firmware.UartOnchip.{Onchip}
use midex_class_firmware.Registers.{Sfr, Pins}
use midex_class_firmware.Bringup.{board_init, uart_bringup}
use midex_class_firmware.Bridge.{
  Tx, UartOps, tx_reset, bridge_out, uart_tx_pump, ep2out_isr, set_interface_out,
}
use midex_class_firmware.RxPump.{Rx, midi_parser_reset, midi_rx_pump}

-- The registers of the USB core that `usb_init` writes.
pub record UsbCore : Type 0 where
  pub in07val : ℕ
  pub out07val : ℕ
  pub inisoval : ℕ
  pub outisoval : ℕ
  pub isoctl : ℕ
  pub usbbav : ℕ
  pub usbien : ℕ
  pub out07ien : ℕ
  pub in07ien : ℕ
  pub eusb : Bool
  pub usbcs : ℕ

-- `usb_init`: IN2VAL, OUT2VAL, OUT2IEN and IN2IEN are bit 2, ISODISAB, AVEN and SUDAVIE bit 0. USBCS is
-- DISCON | RENUM for 200 ms, and then DISCOE | RENUM.
unfoldable pub usb_init : UsbCore → UsbCore
usb_init u = record {
  in07val = 0x04;
  out07val = 0x04;
  inisoval = 0;
  outisoval = 0;
  isoctl = 0x01;
  usbbav = set_bit 0x01 u.usbbav;
  usbien = set_bit 0x01 u.usbien;
  out07ien = 0x04;
  in07ien = 0x04;
  eusb = true;
  usbcs = 0x06;
}

-- What comes over USB to EP2-OUT while `main` brings the UARTs up: a bulk packet, which the controller refuses
-- while EP2-OUT is not armed, with its interrupt; and SET_INTERFACE.
pub data UsbEvent : Type 0 where
  packet : (buf : ℕ → ℕ) → (n : ℕ) → n ≤ 64 → UsbEvent
  set_interface : UsbEvent

unfoldable pub usb_event : UsbEvent → Tx → Tx
usb_event (packet buf n h) s =
    if s.armed then ep2out_isr (record s { out2buf = buf; out2bc = n; armed = false }) else s
usb_event set_interface s = set_interface_out s

unfoldable pub usb_events : List UsbEvent → Tx → Tx
usb_events [] s = s
usb_events (e ∷ es) s = usb_events es (usb_event e s)

module _ (bus : Bus) where
  -- All that `main` works on; `ea` enables the interrupts.
  pub record Device : Type 0 where
    pub sfr : Sfr
    pub pins : Pins
    pub core : UsbCore
    pub ea : Bool
    pub uarts : bus.State × Onchip
    pub timer : Timer0
    pub tx : Tx
    pub rx : Rx

  -- `board_init(); usb_init(); EA = 1;`
  unfoldable pub enumerate : Board → Device → Device
  enumerate board d =
      let (sfr, pins) = board_init board (d.sfr, d.pins) in
      record d {
        sfr = sfr;
        pins = pins;
        uarts = (bus.pins pins d.uarts.0, d.uarts.1);
        core = usb_init d.core;
        ea = true;
      }

  -- `tx_reset(); midi_parser_reset(); uart_rx_reset();`
  unfoldable pub clear_state : Device → Device
  clear_state d =
      let rx = midi_parser_reset d.rx in
      record d { tx = tx_reset d.tx; rx = record rx { capture = uart_rx_reset rx.capture } }

  -- `uart_bringup(); uart_rx_start(); OUT2BC = 0;`, which arms EP2-OUT.
  unfoldable pub go_live : Board → Device → Device
  go_live board d =
      let (pins, (sfr, uarts)) = uart_bringup bus board (d.pins, (d.sfr, d.uarts)) in
      let (capture, (sfr, timer)) = uart_rx_start board d.rx.capture (sfr, d.timer) in
      record d {
        sfr = sfr;
        pins = pins;
        uarts = uarts;
        timer = timer;
        tx = record (d.tx) { out2bc = 0; armed = true };
        rx = record (d.rx) { capture = capture };
      }

  -- `main` up to its loop. What the USB core leaves in external memory while the host enumerates the
  -- device is a parameter: that memory holds the rings, the FIFOs and the parsers. So is what comes over
  -- USB between the resets and the arming of EP2-OUT; it acts on the state of EP2-OUT alone, which no
  -- call in between reads or writes.
  unfoldable pub main_start :
      Board → (Device → Tx) → (Device → Rx) → List UsbEvent → Device → Device
  main_start board left_tx left_rx usb d =
      let e = enumerate board d in
      let c = clear_state (record e { tx = left_tx e; rx = left_rx e }) in
      go_live board (record c { tx = usb_events usb c.tx })

module _ (ops : UartOps) where
  -- One pass of the endless loop, with the transmitters behind `uart_putc` as a parameter.
  unfoldable pub main_pass : Tx × (ops.State × Rx) → Tx × (ops.State × Rx)
  main_pass (tx, (u, rx)) =
      let (after, v) = uart_tx_pump ops (bridge_out tx, u) in (after, (v, midi_rx_pump rx))
