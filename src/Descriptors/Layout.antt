-- ===== src/Descriptors/Layout.antt =====
-- The descriptor structures of firmware/usb.h, and how one lies in code memory: its members in order, a
-- word with its low byte first, as this compiler has it.
use midex_class_firmware.Base.{ℕ, ◌/◌, ◌%◌, List, [], ◌∷◌}

-- struct usb_device_descriptor
pub record UsbDeviceDescriptor : Type 0 where
  pub b_length : ℕ
  pub b_descriptor_type : ℕ
  pub bcd_usb : ℕ
  pub b_device_class : ℕ
  pub b_device_sub_class : ℕ
  pub b_device_protocol : ℕ
  pub b_max_packet_size0 : ℕ
  pub id_vendor : ℕ
  pub id_product : ℕ
  pub bcd_device : ℕ
  pub i_manufacturer : ℕ
  pub i_product : ℕ
  pub i_serial_number : ℕ
  pub b_num_configurations : ℕ

-- struct usb_config_descriptor
pub record UsbConfigDescriptor : Type 0 where
  pub b_length : ℕ
  pub b_descriptor_type : ℕ
  pub w_total_length : ℕ
  pub b_num_interfaces : ℕ
  pub b_configuration_value : ℕ
  pub i_configuration : ℕ
  pub bm_attributes : ℕ
  pub max_power : ℕ

-- struct usb_interface_descriptor
pub record UsbInterfaceDescriptor : Type 0 where
  pub b_length : ℕ
  pub b_descriptor_type : ℕ
  pub b_interface_number : ℕ
  pub b_alternate_setting : ℕ
  pub b_num_endpoints : ℕ
  pub b_interface_class : ℕ
  pub b_interface_subclass : ℕ
  pub b_interface_protocol : ℕ
  pub i_interface : ℕ

-- struct usb_endpoint_descriptor
pub record UsbEndpointDescriptor : Type 0 where
  pub b_length : ℕ
  pub b_descriptor_type : ℕ
  pub b_endpoint_address : ℕ
  pub bm_attributes : ℕ
  pub w_max_packet_size : ℕ
  pub b_interval : ℕ

abbrev pub device_bytes : UsbDeviceDescriptor → List ℕ
device_bytes d =
    d.b_length
    ∷ d.b_descriptor_type
    ∷ d.bcd_usb % 256
    ∷ d.bcd_usb / 256
    ∷ d.b_device_class
    ∷ d.b_device_sub_class
    ∷ d.b_device_protocol
    ∷ d.b_max_packet_size0
    ∷ d.id_vendor % 256
    ∷ d.id_vendor / 256
    ∷ d.id_product % 256
    ∷ d.id_product / 256
    ∷ d.bcd_device % 256
    ∷ d.bcd_device / 256
    ∷ d.i_manufacturer
    ∷ d.i_product
    ∷ d.i_serial_number
    ∷ d.b_num_configurations
    ∷ []

abbrev pub config_bytes : UsbConfigDescriptor → List ℕ
config_bytes d =
    d.b_length
    ∷ d.b_descriptor_type
    ∷ d.w_total_length % 256
    ∷ d.w_total_length / 256
    ∷ d.b_num_interfaces
    ∷ d.b_configuration_value
    ∷ d.i_configuration
    ∷ d.bm_attributes
    ∷ d.max_power
    ∷ []

abbrev pub interface_bytes : UsbInterfaceDescriptor → List ℕ
interface_bytes d =
    d.b_length ∷ d.b_descriptor_type ∷ d.b_interface_number ∷ d.b_alternate_setting
    ∷ d.b_num_endpoints ∷ d.b_interface_class ∷ d.b_interface_subclass ∷ d.b_interface_protocol
    ∷ d.i_interface ∷ []

abbrev pub endpoint_bytes : UsbEndpointDescriptor → List ℕ
endpoint_bytes d =
    d.b_length
    ∷ d.b_descriptor_type
    ∷ d.b_endpoint_address
    ∷ d.bm_attributes
    ∷ d.w_max_packet_size % 256
    ∷ d.w_max_packet_size / 256
    ∷ d.b_interval
    ∷ []
