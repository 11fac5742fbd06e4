-- ===== src/Usb.antt =====
-- The control-endpoint engine of firmware/usb.c: the SETUP handler and the requests that it serves.
pub mod Halt
pub mod Counter
pub mod Toggle
pub mod Codes
use midex_class_firmware.Base.{
  ℕ, ◌+◌, ◌-◌, ◌/◌, ◌%◌, Bool, true, false, not, ◌&&◌, ◌||◌, Option, none, some, bit_and, bit_or,
  leb, ltb, ◌==◌, if◌then◌else◌, has_bit, set_bit, clear_bit, write, List, [], ◌∷◌, ◌++◌,
}
use midex_class_firmware.Usb.Codes.{
  usb_descriptor_type_device, usb_descriptor_type_configuration, usb_descriptor_type_string,
  usb_recip_cf_device, usb_recip_cf_endpoint, usb_recip_gs_device, usb_recip_gs_interface,
  usb_recip_gs_endpoint, usb_recip_sf_device, usb_recip_sf_endpoint, usb_req_get_status,
  usb_req_clear_feature, usb_req_set_feature, usb_req_set_address, usb_req_get_descriptor,
  usb_req_set_descriptor, usb_req_get_configuration, usb_req_set_configuration,
  usb_req_get_interface, usb_req_set_interface, usb_req_synch_frame, endpoint_halt,
}

-- `struct setup_data`
pub record SetupData : Type 0 where
  pub bm_request_type : ℕ
  pub b_request : ℕ
  pub w_value : ℕ
  pub w_index : ℕ

-- What SUDPTR points to. `string i` is `en_string_descriptors[i - 1]`.
pub data Descriptor : Type 0 where
  device config_block language : Descriptor
  string : ℕ → Descriptor

-- A control and status register: EP0CS, INxCS or OUTxCS.
pub data CsReg : Type 0 where
  ep0 : CsReg
  in_ep out_ep : ℕ → CsReg

-- The registers that the handler reads and writes, `uart_rx_overflows`, and the byte at XDATA
-- address 0, where a null pointer reads. `togctl` holds the writes to TOGCTL, newest first, and
-- `out2_arms` counts those to OUT2BC, which arm EP2-OUT.
pub record Usb : Type 0 where
  pub ep0cs : ℕ
  pub in_cs : ℕ → ℕ
  pub out_cs : ℕ → ℕ
  pub in0buf0 : ℕ
  pub in0buf1 : ℕ
  pub in0bc : ℕ
  pub sudptr : Option Descriptor
  pub togctl : List ℕ
  pub out2_arms : ℕ
  pub uart_rx_overflows : ℕ
  pub xdata_0 : ℕ
  pub usbirq : ℕ

-- `STALL_EP0`; EP0STALL is bit 0.
unfoldable pub stall_ep0 : Usb → Usb
stall_ep0 s = record s { ep0cs = set_bit 0x01 s.ep0cs }

-- `usb_get_endpoint_cs_reg`; none is NULL.
unfoldable pub usb_get_endpoint_cs_reg : ℕ → Option CsReg
usb_get_endpoint_cs_reg ep =
    let ep_num = ep % 16 in
    if ep_num == 0
    then some ep0
    else if ltb ep_num 8
    then some (if has_bit 0x80 ep then in_ep ep_num else out_ep ep_num)
    else none

-- `*ep_cs`
unfoldable pub read_cs : Option CsReg → Usb → ℕ
read_cs none s = s.xdata_0
read_cs (some ep0) s = s.ep0cs
read_cs (some (in_ep n)) s = s.in_cs n
read_cs (some (out_ep n)) s = s.out_cs n

-- `*ep_cs = v`, behind the null check.
unfoldable pub write_cs : CsReg → ℕ → Usb → Usb
write_cs ep0 v s = record s { ep0cs = v }
write_cs (in_ep n) v s = record s { in_cs = write s.in_cs n v }
write_cs (out_ep n) v s = record s { out_cs = write s.out_cs n v }

-- `usb_reset_data_toggle`. In C `ep & 0x80 >> 3` is `ep & (0x80 >> 3)`. TOG_R is bit 5.
unfoldable pub usb_reset_data_toggle : ℕ → Usb → Usb
usb_reset_data_toggle ep s =
    let value = bit_or (bit_and ep 0x10) (bit_and ep 0x7) in
    record s { togctl = bit_or value 0x20 ∷ value ∷ s.togctl }

-- A two-byte answer.
answer2 : ℕ → Usb → Usb
answer2 b s = record s { in0buf0 = b; in0buf1 = 0; in0bc = 2 }

-- A one-byte answer, which leaves the second byte of the buffer.
unfoldable pub answer1 : ℕ → Usb → Usb
answer1 b s = record s { in0buf0 = b; in0bc = 1 }

-- `usb_handle_get_status`
unfoldable pub usb_handle_get_status : SetupData → Usb → Bool × Usb
unfolding answer2
usb_handle_get_status d s =
    if d.bm_request_type == usb_recip_gs_device
    then (true, answer2 0 s)
    else if d.bm_request_type == usb_recip_gs_interface
    then (true, answer2 0 s)
    else if d.bm_request_type == usb_recip_gs_endpoint
    then (
      true,
      answer2
          (if has_bit 0x01 (read_cs (usb_get_endpoint_cs_reg (d.w_index % 256)) s) then 1 else 0) s,
    )
    else (false, s)

-- `ep_cs = ...; if (!ep_cs) return false; *ep_cs = f(*ep_cs)`
update_cs : (ℕ → ℕ) → SetupData → Usb → Bool × Usb
update_cs f d s = elim (usb_get_endpoint_cs_reg (d.w_index % 256)) [
  | none ↦ (false, s)
  | some r ↦ (true, write_cs r (f (read_cs (some r) s)) s)
]

-- `usb_handle_clear_feature`; EPSTALL is bit 0.
unfoldable pub usb_handle_clear_feature : SetupData → Usb → Bool × Usb
unfolding update_cs
usb_handle_clear_feature d s =
    if d.bm_request_type == usb_recip_cf_device
    then (true, stall_ep0 s)
    else if d.bm_request_type == usb_recip_cf_endpoint
    then (if d.w_value == endpoint_halt
        then update_cs (clear_bit 0x01) d s
        else (true, stall_ep0 s))
    else (true, s)

-- `usb_handle_set_feature`
unfoldable pub usb_handle_set_feature : SetupData → Usb → Bool × Usb
unfolding update_cs
usb_handle_set_feature d s =
    if d.bm_request_type == usb_recip_sf_device
    then (true, s)
    else if d.bm_request_type == usb_recip_sf_endpoint
    then (if d.w_value == endpoint_halt then update_cs (set_bit 0x01) d s else (false, s))
    else (true, s)

-- USB_LANG_ENGLISH_US
abbrev pub english_us : ℕ
english_us = 0x409

-- `usb_handle_get_descriptor`
unfoldable pub usb_handle_get_descriptor : SetupData → Usb → Bool × Usb
usb_handle_get_descriptor d s =
    let descriptor_type = d.w_value / 256 % 256 in
    let descriptor_index = d.w_value % 256 in
    if descriptor_type == usb_descriptor_type_device
    then (true, record s { sudptr = some device })
    else if descriptor_type == usb_descriptor_type_configuration
    then (true, record s { sudptr = some config_block })
    else if descriptor_type == usb_descriptor_type_string
    then (if d.w_index == 0
        then (true, record s { sudptr = some language })
        else if d.w_index == english_us
        then (true, record s { sudptr = some (string descriptor_index) })
        else (false, s))
    else (false, s)

-- `usb_handle_set_interface`
unfoldable pub usb_handle_set_interface : Usb → Usb
usb_handle_set_interface s =
    let t = usb_reset_data_toggle 0x02 (usb_reset_data_toggle 0x82 s) in
    record t { in_cs = write t.in_cs 2 0; out_cs = write t.out_cs 2 0; out2_arms = t.out2_arms + 1 }

-- `if (!handler()) STALL_EP0()`
unfoldable pub stall_unless : Bool × Usb → Usb
stall_unless (done, s) = if done then s else stall_ep0 s

-- The `default` of the request switch: the vendor requests.
unfoldable pub handle_other : SetupData → Usb → Usb
unfolding answer1
handle_other d s =
    if bit_and d.bm_request_type 0x60 == 0x40
    then (if (d.b_request == 0x01) && has_bit 0x80 d.bm_request_type
        then answer1 s.uart_rx_overflows s
        else if (d.b_request == 0x02) && not (has_bit 0x80 d.bm_request_type)
        then record s { uart_rx_overflows = 0 }
        else stall_ep0 s)
    else stall_ep0 s

-- `usb_handle_setup_data`
unfoldable pub usb_handle_setup_data : SetupData → Usb → Usb
unfolding stall_unless answer1
usb_handle_setup_data d s =
    let r = d.b_request in
    if r == usb_req_get_status
    then stall_unless (usb_handle_get_status d s)
    else if r == usb_req_clear_feature
    then stall_unless (usb_handle_clear_feature d s)
    else if (r == 2) || (r == 4)
    then stall_ep0 s
    else if r == usb_req_set_feature
    then stall_unless (usb_handle_set_feature d s)
    else if r == usb_req_set_address
    then s
    else if r == usb_req_set_descriptor
    then stall_ep0 s
    else if r == usb_req_get_descriptor
    then stall_unless (usb_handle_get_descriptor d s)
    else if r == usb_req_get_configuration
    then answer1 1 s
    else if r == usb_req_set_configuration
    then s
    else if r == usb_req_get_interface
    then answer1 0 s
    else if r == usb_req_set_interface
    then usb_handle_set_interface s
    else if r == usb_req_synch_frame
    then s
    else handle_other d s

-- `sudav_isr`; SUDAVIR is bit 0 of USBIRQ and HSNAK bit 1 of EP0CS. CLEAR_IRQ acknowledges the 8051.
unfoldable pub sudav_isr : SetupData → Usb → Usb
sudav_isr d s =
    let t = record (usb_handle_setup_data d s) { usbirq = 0x01 } in
    record t { ep0cs = set_bit 0x02 t.ep0cs }
