-- ===== src/Probe.antt =====
-- The bus-probe build: firmware/main_probe.c and firmware/usb_probe.c.
pub mod Deferred
pub mod Descriptors
pub mod Handlers
pub mod Requests
pub mod Strings
use midex_class_firmware.Base.{
  ℕ, ◌+◌, ◌%◌, Bool, true, false, ◌||◌, Option, none, some, ◌==◌, if◌then◌else◌, set_bit, clear_bit,
  write, bit_and,
}
use midex_class_firmware.UartExt.{Bus}
use midex_class_firmware.Registers.{Sfr, Pins}
use midex_class_firmware.Usb.Codes.{
  usb_req_get_status, usb_req_clear_feature, usb_req_set_feature, usb_req_set_address,
  usb_req_set_descriptor, usb_req_get_descriptor, usb_req_get_configuration,
  usb_req_set_configuration, usb_req_get_interface, usb_req_set_interface, usb_req_synch_frame,
}
use midex_class_firmware.Usb.{SetupData, Usb, stall_ep0, stall_unless, answer1}
use midex_class_firmware.Probe.Descriptors.{config_descriptor, interface_descriptor00}
use midex_class_firmware.Probe.Handlers.{
  usb_reset_data_toggle, usb_handle_get_status, usb_handle_clear_feature, usb_handle_set_feature,
  usb_handle_get_descriptor,
}

-- `board_init`, with PB4 driven low at once. INT4, OUTB4 and OEB4 are bit 4.
unfoldable pub board_init : Sfr × Pins → Sfr × Pins
board_init (f, s) = (
  record f { cpucs = bit_and f.cpucs 0x08; ckcon = bit_and f.ckcon 0xD8 },
  record s {
    portccfg = set_bit 0x40 (set_bit 0x80 s.portccfg);
    portbcfg = clear_bit 0x10 (set_bit 0x80 s.portbcfg);
    rcap2l = 0xFE;
    rcap2h = 0xFF;
    t2con = 0x00;
    tr2 = true;
    outb = clear_bit 0x10 s.outb;
    oeb = set_bit 0x10 s.oeb;
    xdata = write (write (write s.xdata 0xFE00 0xC9) 0xFE02 0x00) 0xFE01 0x10;
  },
)

-- `usb_handle_set_interface`: EPBSY is bit 1.
unfoldable pub usb_handle_set_interface : Usb → Usb
usb_handle_set_interface s =
    let t = usb_reset_data_toggle 0x02 (usb_reset_data_toggle 0x82 s) in
    record t {
      in_cs = write t.in_cs 2 0x02;
      out_cs = write t.out_cs 2 0;
      out2_arms = t.out2_arms + 1;
    }

module _ (bus : Bus) where
  -- The control endpoint's registers, CKCON, external memory behind MOVX, and the write that waits.
  pub record Probe : Type 0 where
    pub usb : Usb
    pub ckcon : ℕ
    pub memory : bus.State
    pub pend_addr : ℕ
    pub pend_val : ℕ
    pub pend_write : Bool

  -- `handle_vendor_command`; none is one of the two loops that never end.
  unfoldable pub handle_vendor_command : SetupData → Probe → Option Probe
  handle_vendor_command d s =
      if d.b_request == 0xB0
      then (let (v, m) = bus.read d.w_value s.memory in
          some (record s { memory = m; usb = record (s.usb) { in0buf0 = v; in0bc = 1 } }))
      else if d.b_request == 0xB1
      then some (record s { pend_addr = d.w_value; pend_val = d.w_index % 256; pend_write = true })
      else if (d.b_request == 0xB2) || (d.b_request == 0xB3)
      then none
      else if d.b_request == 0xB4
      then some (record s { ckcon = d.w_value % 256 })
      else some (record s { usb = stall_ep0 s.usb })

  -- A request that the registers of the control endpoint alone serve.
  on_usb : (Usb → Usb) → Probe → Option Probe
  on_usb f s = some (record s { usb = f s.usb })

  -- `usb_handle_setup_data`
  unfoldable pub usb_handle_setup_data : SetupData → Probe → Option Probe
  unfolding on_usb stall_unless answer1
  usb_handle_setup_data d s =
      let r = d.b_request in
      if r == usb_req_get_status
      then on_usb (λ u. stall_unless (usb_handle_get_status d u)) s
      else if r == usb_req_clear_feature
      then on_usb (λ u. stall_unless (usb_handle_clear_feature d u)) s
      else if (r == 2) || (r == 4)
      then on_usb stall_ep0 s
      else if r == usb_req_set_feature
      then on_usb (λ u. stall_unless (usb_handle_set_feature d u)) s
      else if r == usb_req_set_address
      then some s
      else if r == usb_req_set_descriptor
      then on_usb stall_ep0 s
      else if r == usb_req_get_descriptor
      then on_usb (λ u. stall_unless (usb_handle_get_descriptor d u)) s
      else if r == usb_req_get_configuration
      then on_usb (answer1 config_descriptor.b_configuration_value) s
      else if r == usb_req_set_configuration
      then some s
      else if r == usb_req_get_interface
      then on_usb (answer1 interface_descriptor00.b_interface_number) s
      else if r == usb_req_set_interface
      then on_usb usb_handle_set_interface s
      else if r == usb_req_synch_frame
      then some s
      else handle_vendor_command d s

  -- What `sudav_isr` does behind the handler, if it returns.
  acknowledge : Option Probe → Option Probe
  acknowledge none = none
  acknowledge (some s) =
      some (record s { usb = record (s.usb) { usbirq = 0x01; ep0cs = set_bit 0x02 s.usb.ep0cs } })

  -- `sudav_isr`
  unfoldable pub sudav_isr : SetupData → Probe → Option Probe
  unfolding acknowledge
  sudav_isr d s = acknowledge (usb_handle_setup_data d s)

  -- One turn of the loop of `main`.
  unfoldable pub main_turn : Probe → Probe
  main_turn s =
      if s.pend_write
      then record s { memory = bus.write s.pend_addr s.pend_val s.memory; pend_write = false }
      else s
