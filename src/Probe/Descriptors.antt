-- ===== src/Probe/Descriptors.antt =====
-- The descriptors of firmware/usb_probe.c.
pub mod Endpoints
use midex_class_firmware.Base.{
  ℕ, ◌+◌, ◌*◌, ◌==◌, if◌then◌else◌, Option, none, some, List, [], ◌∷◌, ◌++◌,
}
use midex_class_firmware.Descriptors.{units, str_descr}
use midex_class_firmware.Descriptors.Layout.{
  UsbDeviceDescriptor, UsbConfigDescriptor, UsbInterfaceDescriptor, UsbEndpointDescriptor,
  config_bytes, interface_bytes, endpoint_bytes,
}

-- `device_descriptor`, with ID_VENDOR, ID_PRODUCT and BCD_DEVICE
abbrev pub device_descriptor : UsbDeviceDescriptor
device_descriptor = record {
  b_length = 18;
  b_descriptor_type = 0x01;
  bcd_usb = 0x0110;
  b_device_class = 0xFF;
  b_device_sub_class = 0xFF;
  b_device_protocol = 0xFF;
  b_max_packet_size0 = 64;
  id_vendor = 0x0A4E;
  id_product = 0x10C0;
  bcd_device = 0x0100;
  i_manufacturer = 1;
  i_product = 2;
  i_serial_number = 3;
  b_num_configurations = 1;
}

-- NUM_ENDPOINTS
abbrev pub num_endpoints : ℕ
num_endpoints = 2

-- `config_descriptor`; the structures have 9, 9 and 7 bytes.
abbrev pub config_descriptor : UsbConfigDescriptor
config_descriptor = record {
  b_length = 9;
  b_descriptor_type = 0x02;
  w_total_length = 9 + 9 + num_endpoints * 7;
  b_num_interfaces = 1;
  b_configuration_value = 1;
  i_configuration = 4;
  bm_attributes = 0x80;
  max_power = 50;
}

-- `interface_descriptor00`
abbrev pub interface_descriptor00 : UsbInterfaceDescriptor
interface_descriptor00 = record {
  b_length = 9;
  b_descriptor_type = 0x04;
  b_interface_number = 0;
  b_alternate_setting = 0;
  b_num_endpoints = num_endpoints;
  b_interface_class = 0xFF;
  b_interface_subclass = 0xFF;
  b_interface_protocol = 0xFF;
  i_interface = 5;
}

-- `Bulk_EP2_IN_Endpoint_Descriptor`
abbrev pub bulk_ep2_in_endpoint_descriptor : UsbEndpointDescriptor
bulk_ep2_in_endpoint_descriptor = record {
  b_length = 7;
  b_descriptor_type = 0x05;
  b_endpoint_address = 0x82;
  bm_attributes = 2;
  w_max_packet_size = 64;
  b_interval = 0;
}

-- `Bulk_EP2_OUT_Endpoint_Descriptor`
abbrev pub bulk_ep2_out_endpoint_descriptor : UsbEndpointDescriptor
bulk_ep2_out_endpoint_descriptor = record {
  b_length = 7;
  b_descriptor_type = 0x05;
  b_endpoint_address = 0x02;
  bm_attributes = 2;
  w_max_packet_size = 64;
  b_interval = 0;
}

-- What lies from `config_descriptor` on: the source wants the four to be adjacent.
unfoldable pub config_and_below : List ℕ
config_and_below =
    config_bytes config_descriptor
    ++ interface_bytes interface_descriptor00
    ++ endpoint_bytes bulk_ep2_in_endpoint_descriptor
    ++ endpoint_bytes bulk_ep2_out_endpoint_descriptor

-- `language_descriptor`, with USB_LANG_ENGLISH_US
abbrev pub language_descriptor : List ℕ
language_descriptor = 4 ∷ 0x03 ∷ units (0x409 ∷ [])

-- strManufacturer: "Steinberg"
abbrev pub str_manufacturer : List ℕ
str_manufacturer = 83 ∷ 116 ∷ 101 ∷ 105 ∷ 110 ∷ 98 ∷ 101 ∷ 114 ∷ 103 ∷ []

-- strProduct: "MIDEX8 bus-probe"
abbrev pub str_product : List ℕ
str_product =
    77 ∷ 73 ∷ 68 ∷ 69 ∷ 88 ∷ 56 ∷ 32 ∷ 98 ∷ 117 ∷ 115 ∷ 45 ∷ 112 ∷ 114 ∷ 111 ∷ 98 ∷ 101 ∷ []

-- strSerialNumber: "000001"
abbrev pub str_serial_number : List ℕ
str_serial_number = 48 ∷ 48 ∷ 48 ∷ 48 ∷ 48 ∷ 49 ∷ []

-- strConfigDescr: "MyConfig"
abbrev pub str_config_descr : List ℕ
str_config_descr = 77 ∷ 121 ∷ 67 ∷ 111 ∷ 110 ∷ 102 ∷ 105 ∷ 103 ∷ []

-- strInterface: "MyInterface"
abbrev pub str_interface : List ℕ
str_interface = 77 ∷ 121 ∷ 73 ∷ 110 ∷ 116 ∷ 101 ∷ 114 ∷ 102 ∷ 97 ∷ 99 ∷ 101 ∷ []

-- `en_string_descriptors`; nothing is known of what stands before and behind its five pointers.
unfoldable pub en_string_descriptors : ℕ → Option (List ℕ)
en_string_descriptors k =
    if k == 0
    then some (str_descr 9 str_manufacturer)
    else if k == 1
    then some (str_descr 16 str_product)
    else if k == 2
    then some (str_descr 6 str_serial_number)
    else if k == 3
    then some (str_descr 8 str_config_descr)
    else if k == 4
    then some (str_descr 11 str_interface)
    else none
