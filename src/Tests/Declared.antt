-- ===== src/Tests/Declared.antt =====
-- The descriptors of both builds.
use midex_class_firmware.Base.{◌+◌, ◌*◌, ◌≡◌, true, false, some, [], ◌∷◌, length, get_or, arith}
use midex_class_firmware.Config.{r2}
use midex_class_firmware.Usb.{usb_handle_setup_data}
use midex_class_firmware.Descriptors.{config_block, device_descriptor}
use midex_class_firmware.Descriptors.Layout.{config_bytes, interface_bytes, endpoint_bytes}
use midex_class_firmware.Descriptors.Strings.{
  string_request, own_name, host_reads_string, host_reads_string-device_descriptor,
}
use midex_class_firmware.Descriptors.Walk.{descriptors, ways, config_block-ways}
use midex_class_firmware.Descriptors
use midex_class_firmware.Main.{UsbCore, usb_init}
use midex_class_firmware.Main.Endpoints.{Opened, usb_init-config_block}
use midex_class_firmware.Probe.Handlers
use midex_class_firmware.Probe.Descriptors.{
  config_descriptor, interface_descriptor00, bulk_ep2_in_endpoint_descriptor,
  bulk_ep2_out_endpoint_descriptor, config_and_below,
}
use midex_class_firmware.Probe.Descriptors.Endpoints.{usb_init-config_and_below}
use midex_class_firmware.Tests.Control.{device}

config_block-ways_example :
    (length config_block ≡ get_or config_block 2 0 + 256 * get_or config_block 3 0)
    × (ways (descriptors 64 config_block) 5 ≡ true)
config_block-ways_example = config_block-ways 5 (omega arith)

host_reads_string-device_descriptor_example :
    host_reads_string Descriptors.en_string_descriptors
      (usb_handle_setup_data
        (string_request (get_or (device_descriptor r2) (14 + 1) 0))
        device).sudptr
    ≡ some (own_name 1)
host_reads_string-device_descriptor_example =
    host_reads_string-device_descriptor r2 1 device (omega arith)

abbrev core_on : UsbCore
core_on = record {
  in07val = 0x57;
  out07val = 0x55;
  inisoval = 7;
  outisoval = 7;
  isoctl = 0;
  usbbav = 0;
  usbien = 0;
  out07ien = 0;
  in07ien = 0;
  eusb = false;
  usbcs = 0;
}

usb_init-config_block_example : Opened (descriptors 64 config_block) (usb_init core_on) 2
usb_init-config_block_example = usb_init-config_block core_on 2 (omega arith)

usb_init-config_and_below_example :
    (length config_and_below ≡ config_descriptor.w_total_length)
    × (descriptors 8 config_and_below
        ≡ some (
            config_bytes config_descriptor
            ∷ interface_bytes interface_descriptor00
            ∷ endpoint_bytes bulk_ep2_in_endpoint_descriptor
            ∷ endpoint_bytes bulk_ep2_out_endpoint_descriptor
            ∷ []))
    × Opened (descriptors 8 config_and_below) (Handlers.usb_init core_on) 1
usb_init-config_and_below_example = usb_init-config_and_below core_on 1 (omega arith)
