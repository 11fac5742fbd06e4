-- ===== src/Usb/Codes.antt =====
-- The codes of firmware/usb.h that the control endpoints test: descriptor types, bmRequestType and
-- bRequest of the standard requests, and the feature selector.
use midex_class_firmware.Base.{ℕ}

abbrev pub usb_descriptor_type_device : ℕ
usb_descriptor_type_device = 0x01

abbrev pub usb_descriptor_type_configuration : ℕ
usb_descriptor_type_configuration = 0x02

abbrev pub usb_descriptor_type_string : ℕ
usb_descriptor_type_string = 0x03

abbrev pub usb_recip_cf_device : ℕ
usb_recip_cf_device = 0x00

abbrev pub usb_recip_cf_endpoint : ℕ
usb_recip_cf_endpoint = 0x02

abbrev pub usb_recip_gs_device : ℕ
usb_recip_gs_device = 0x80

abbrev pub usb_recip_gs_interface : ℕ
usb_recip_gs_interface = 0x81

abbrev pub usb_recip_gs_endpoint : ℕ
usb_recip_gs_endpoint = 0x82

abbrev pub usb_recip_sf_device : ℕ
usb_recip_sf_device = 0x00

abbrev pub usb_recip_sf_endpoint : ℕ
usb_recip_sf_endpoint = 0x02

abbrev pub usb_req_get_status : ℕ
usb_req_get_status = 0

abbrev pub usb_req_clear_feature : ℕ
usb_req_clear_feature = 1

abbrev pub usb_req_set_feature : ℕ
usb_req_set_feature = 3

abbrev pub usb_req_set_address : ℕ
usb_req_set_address = 5

abbrev pub usb_req_get_descriptor : ℕ
usb_req_get_descriptor = 6

abbrev pub usb_req_set_descriptor : ℕ
usb_req_set_descriptor = 7

abbrev pub usb_req_get_configuration : ℕ
usb_req_get_configuration = 8

abbrev pub usb_req_set_configuration : ℕ
usb_req_set_configuration = 9

abbrev pub usb_req_get_interface : ℕ
usb_req_get_interface = 10

abbrev pub usb_req_set_interface : ℕ
usb_req_set_interface = 11

abbrev pub usb_req_synch_frame : ℕ
usb_req_synch_frame = 12

abbrev pub endpoint_halt : ℕ
endpoint_halt = 0
