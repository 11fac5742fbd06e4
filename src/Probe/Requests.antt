-- ===== src/Probe/Requests.antt =====
-- The standard requests: both builds do the same, but for SET_INTERFACE.
use midex_class_firmware.Base.{◌<◌, ◌≡◌, some, ◌==◌, if◌then◌else◌, write, arith}
use midex_class_firmware.UartExt.{Bus}
use midex_class_firmware.Usb.{SetupData}
use midex_class_firmware.Usb
use midex_class_firmware.Usb.{usb_reset_data_toggle}
use midex_class_firmware.Probe.{Probe, on_usb, usb_handle_setup_data, usb_handle_set_interface}

module _ (bus : Bus) where
  -- On every request below 13 but SET_INTERFACE the probe's handler returns and does to the registers
  -- what that of the class firmware does, and nothing else; on SET_INTERFACE the one difference is that
  -- it writes EPBSY to IN2CS where the class firmware writes 0.
  usb_handle_setup_data-standard :
      (d : SetupData) (s : Probe bus)
      → d.b_request < 13
      → let u = Usb.usb_handle_setup_data d s.usb in
        usb_handle_setup_data bus d s
        ≡ some (record s {
          usb = if d.b_request == 11 then record u { in_cs = write s.usb.in_cs 2 0x02 } else u;
        })
  unfolding usb_handle_setup_data on_usb usb_reset_data_toggle Usb.usb_handle_setup_data
      usb_handle_set_interface Usb.usb_handle_set_interface
  usb_handle_setup_data-standard d s h = ground arith
