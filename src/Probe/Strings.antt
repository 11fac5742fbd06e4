-- ===== src/Probe/Strings.antt =====
-- The strings that the probe's descriptors name, as a host reads them.
use midex_class_firmware.Base.{
  ℕ, zero, suc, ◌<◌, ◌≡◌, Option, none, some, List, [], ◌∷◌, get_or, arith,
}
use midex_class_firmware.UartExt.{Bus}
use midex_class_firmware.Usb.{string}
use midex_class_firmware.Usb
use midex_class_firmware.Descriptors.Strings.{
  host_reads_string, string_request, read_string-str_descr,
}
use midex_class_firmware.Probe.{Probe, usb_handle_setup_data, on_usb}
use midex_class_firmware.Probe.Descriptors.{
  device_descriptor, config_descriptor, interface_descriptor00, en_string_descriptors,
  str_manufacturer, str_product, str_serial_number, str_config_descr, str_interface,
}

-- The indices in the descriptors, and the texts meant.
abbrev pub string_indices : List ℕ
string_indices =
    device_descriptor.i_manufacturer ∷ device_descriptor.i_product
    ∷ device_descriptor.i_serial_number ∷ config_descriptor.i_configuration
    ∷ interface_descriptor00.i_interface ∷ []

abbrev pub texts : List (List ℕ)
texts = str_manufacturer ∷ str_product ∷ str_serial_number ∷ str_config_descr ∷ str_interface ∷ []

module _ (bus : Bus) where
  -- What a host gets from the probe that asks for string `i` in English.
  abbrev pub host_asks : Probe bus → ℕ → Option (List ℕ)
  host_asks s i = elim (usb_handle_setup_data bus (string_request i) s) [
    | none ↦ none
    | some t ↦ host_reads_string en_string_descriptors t.usb.sudptr
  ]

  -- For each of the five string indices in the probe's descriptors, a host that asks for that string
  -- in English is pointed to a descriptor that says its own length, has the type of a string, and reads
  -- as the text meant.
  host_asks-string_indices :
      (s : Probe bus) (k : ℕ)
      → k < 5
      → host_asks s (get_or string_indices k 0) ≡ some (get_or texts k [])
  unfolding usb_handle_setup_data on_usb Usb.usb_handle_get_descriptor en_string_descriptors
  host_asks-string_indices s zero h =
      read_string-str_descr str_manufacturer (ground arith) (omega arith)
  host_asks-string_indices s (suc zero) h =
      read_string-str_descr str_product (ground arith) (omega arith)
  host_asks-string_indices s (suc (suc zero)) h =
      read_string-str_descr str_serial_number (ground arith) (omega arith)
  host_asks-string_indices s (suc (suc (suc zero))) h =
      read_string-str_descr str_config_descr (ground arith) (omega arith)
  host_asks-string_indices s (suc (suc (suc (suc zero)))) h =
      read_string-str_descr str_interface (ground arith) (omega arith)
  host_asks-string_indices s (suc (suc (suc (suc (suc k))))) h = absurd (omega arith)
