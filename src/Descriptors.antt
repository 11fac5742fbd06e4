-- ===== src/Descriptors.antt =====
-- firmware/usb_descriptors.c: the descriptors that the device sends.
pub mod Layout
pub mod Walk
pub mod Strings
use midex_class_firmware.Base.{
  ℕ, ◌+◌, ◌*◌, ◌/◌, ◌%◌, ◌==◌, if◌then◌else◌, Option, none, some, List, [], ◌∷◌, ◌++◌,
}
use midex_class_firmware.Config.{Board, num_midi_ports, midi_ep_maxpkt}

-- JACK_EMBEDDED and JACK_EXTERNAL
abbrev pub jack_embedded : ℕ
jack_embedded = 0x01

abbrev pub jack_external : ℕ
jack_external = 0x02

-- DESC_MIDI_IN_JACK
unfoldable pub desc_midi_in_jack : ℕ → ℕ → List ℕ
desc_midi_in_jack jtype id = 6 ∷ 0x24 ∷ 0x02 ∷ jtype ∷ id ∷ 0 ∷ []

-- DESC_MIDI_OUT_JACK
unfoldable pub desc_midi_out_jack : ℕ → ℕ → ℕ → List ℕ
desc_midi_out_jack jtype id srcid = 9 ∷ 0x24 ∷ 0x03 ∷ jtype ∷ id ∷ 1 ∷ srcid ∷ 1 ∷ 0 ∷ []

-- MIDI_PORT_JACKS
unfoldable pub midi_port_jacks : ℕ → List ℕ
midi_port_jacks p =
    desc_midi_in_jack jack_embedded (4 * p + 1)
    ++ desc_midi_in_jack jack_external (4 * p + 2)
    ++ desc_midi_out_jack jack_embedded (4 * p + 3) (4 * p + 2)
    ++ desc_midi_out_jack jack_external (4 * p + 4) (4 * p + 1)

-- JACKS_PER_PORT_LEN, CS_EP_LEN, CONFIG_TOTAL_LEN and MS_TOTAL_LEN
abbrev pub jacks_per_port_len : ℕ
jacks_per_port_len = 30

abbrev pub cs_ep_len : ℕ → ℕ
cs_ep_len n = 4 + n

abbrev pub config_total_len : ℕ
config_total_len =
    9
    + 9
    + 9
    + 9
    + 7
    + num_midi_ports * jacks_per_port_len
    + 9
    + cs_ep_len num_midi_ports
    + 9
    + cs_ep_len num_midi_ports

abbrev pub ms_total_len : ℕ
ms_total_len = 7 + num_midi_ports * jacks_per_port_len

-- `device_descriptor`, as it lies in code memory: words are little-endian on this compiler.
unfoldable pub device_descriptor : Board → List ℕ
device_descriptor board =
    18
    ∷ 0x01
    ∷ 0x10
    ∷ 0x01
    ∷ 0x00
    ∷ 0x00
    ∷ 0x00
    ∷ 64
    ∷ board.usb_vid % 256
    ∷ board.usb_vid / 256
    ∷ board.usb_pid % 256
    ∷ board.usb_pid / 256
    ∷ 0x00
    ∷ 0x01
    ∷ 1
    ∷ 2
    ∷ 3
    ∷ 1
    ∷ []

-- The head of `config_block`: configuration, AudioControl and MIDIStreaming interfaces.
unfoldable pub config_head : List ℕ
config_head =
    (9 ∷ 0x02 ∷ config_total_len % 256 ∷ config_total_len / 256 ∷ 2 ∷ 1 ∷ 0 ∷ 0x80 ∷ 50 ∷ [])
    ++ (9 ∷ 0x04 ∷ 0 ∷ 0 ∷ 0 ∷ 0x01 ∷ 0x01 ∷ 0x00 ∷ 0 ∷ [])
    ++ (9 ∷ 0x24 ∷ 0x01 ∷ 0x00 ∷ 0x01 ∷ 0x09 ∷ 0x00 ∷ 1 ∷ 1 ∷ [])
    ++ (9 ∷ 0x04 ∷ 1 ∷ 0 ∷ 2 ∷ 0x01 ∷ 0x03 ∷ 0x00 ∷ 0 ∷ [])
    ++ (7 ∷ 0x24 ∷ 0x01 ∷ 0x00 ∷ 0x01 ∷ ms_total_len % 256 ∷ ms_total_len / 256 ∷ [])

-- Its tail: the two bulk endpoints and the jacks that they carry, one for each cable.
unfoldable pub config_endpoints : List ℕ
config_endpoints =
    (9 ∷ 0x05 ∷ 0x02 ∷ 0x02 ∷ midi_ep_maxpkt % 256 ∷ midi_ep_maxpkt / 256 ∷ 0 ∷ 0 ∷ 0 ∷ [])
    ++ (cs_ep_len num_midi_ports
        ∷ 0x25
        ∷ 0x01
        ∷ num_midi_ports
        ∷ 1
        ∷ 5
        ∷ 9
        ∷ 13
        ∷ 17
        ∷ 21
        ∷ 25
        ∷ 29
        ∷ [])
    ++ (9 ∷ 0x05 ∷ 0x82 ∷ 0x02 ∷ midi_ep_maxpkt % 256 ∷ midi_ep_maxpkt / 256 ∷ 0 ∷ 0 ∷ 0 ∷ [])
    ++ (cs_ep_len num_midi_ports
        ∷ 0x25
        ∷ 0x01
        ∷ num_midi_ports
        ∷ 3
        ∷ 7
        ∷ 11
        ∷ 15
        ∷ 19
        ∷ 23
        ∷ 27
        ∷ 31
        ∷ [])

-- `config_block`
unfoldable pub config_block : List ℕ
config_block =
    config_head
    ++ midi_port_jacks 0
    ++ midi_port_jacks 1
    ++ midi_port_jacks 2
    ++ midi_port_jacks 3
    ++ midi_port_jacks 4
    ++ midi_port_jacks 5
    ++ midi_port_jacks 6
    ++ midi_port_jacks 7
    ++ config_endpoints

-- The units of a string, each of two bytes.
abbrev pub units : List ℕ → List ℕ
units [] = []
units (c ∷ cs) = c % 256 ∷ c / 256 % 256 ∷ units cs

-- STR_DESCR
unfoldable pub str_descr : ℕ → List ℕ → List ℕ
str_descr len text = (len * 2 + 2) % 256 ∷ 0x03 ∷ units text

-- `language_descriptor`, with USB_LANG_ENGLISH_US
abbrev pub language_descriptor : List ℕ
language_descriptor = 4 ∷ 0x03 ∷ units (0x409 ∷ [])

-- strManufacturer: "Steinberg"
abbrev pub str_manufacturer : List ℕ
str_manufacturer = 83 ∷ 116 ∷ 101 ∷ 105 ∷ 110 ∷ 98 ∷ 101 ∷ 114 ∷ 103 ∷ []

-- strProduct: "MIDEX8 UAC"
abbrev pub str_product : List ℕ
str_product = 77 ∷ 73 ∷ 68 ∷ 69 ∷ 88 ∷ 56 ∷ 32 ∷ 85 ∷ 65 ∷ 67 ∷ []

-- strSerialNumber: "000001"
abbrev pub str_serial_number : List ℕ
str_serial_number = 48 ∷ 48 ∷ 48 ∷ 48 ∷ 48 ∷ 49 ∷ []

-- `en_string_descriptors`; nothing is known of what stands before and behind its three pointers.
unfoldable pub en_string_descriptors : ℕ → Option (List ℕ)
en_string_descriptors k =
    if k == 0
    then some (str_descr 9 str_manufacturer)
    else if k == 1
    then some (str_descr 10 str_product)
    else if k == 2
    then some (str_descr 6 str_serial_number)
    else none
