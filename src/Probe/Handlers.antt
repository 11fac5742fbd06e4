-- ===== src/Probe/Handlers.antt =====
-- What firmware/usb_probe.c has word for word as firmware/usb.c has it: each function is that of the
-- class firmware. `config_block` stands here for `config_descriptor`, at which SUDPTR points.
use midex_class_firmware.Base.{ℕ, Bool, Option}
use midex_class_firmware.Usb.{SetupData, CsReg, Usb}
use midex_class_firmware.Usb
use midex_class_firmware.Main.{UsbCore}
use midex_class_firmware.Main

abbrev pub usb_get_endpoint_cs_reg : ℕ → Option CsReg
usb_get_endpoint_cs_reg = Usb.usb_get_endpoint_cs_reg

abbrev pub usb_reset_data_toggle : ℕ → Usb → Usb
usb_reset_data_toggle = Usb.usb_reset_data_toggle

abbrev pub usb_handle_get_status : SetupData → Usb → Bool × Usb
usb_handle_get_status = Usb.usb_handle_get_status

abbrev pub usb_handle_clear_feature : SetupData → Usb → Bool × Usb
usb_handle_clear_feature = Usb.usb_handle_clear_feature

abbrev pub usb_handle_set_feature : SetupData → Usb → Bool × Usb
usb_handle_set_feature = Usb.usb_handle_set_feature

abbrev pub usb_handle_get_descriptor : SetupData → Usb → Bool × Usb
usb_handle_get_descriptor = Usb.usb_handle_get_descriptor

abbrev pub usb_init : UsbCore → UsbCore
usb_init = Main.usb_init
