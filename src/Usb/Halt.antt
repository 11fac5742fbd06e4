-- ===== src/Usb/Halt.antt =====
-- The endpoint-halt feature: what SET_FEATURE and CLEAR_FEATURE do is what GET_STATUS tells.
use midex_class_firmware.Base.{
  ℕ, ◌%◌, ◌<◌, ◌≤◌, ◌≡◌, ◌≢◌, refl, ap, ◌∙◌, Bool, true, false, arith, none, some, ◌==◌, has_bit,
  set_bit, clear_bit, if◌then◌else◌, write_self, write_ne,
}
use midex_class_firmware.Usb.{
  SetupData, Usb, CsReg, ep0, in_ep, out_ep, read_cs, write_cs, usb_get_endpoint_cs_reg,
  usb_handle_set_feature, usb_handle_clear_feature, usb_handle_get_status, usb_handle_setup_data,
  stall_ep0, update_cs,
}

-- The three requests for the endpoint with address `a`.
abbrev pub set_halt : ℕ → SetupData
set_halt a = record { bm_request_type = 0x02; b_request = 3; w_value = 0; w_index = a }

abbrev pub clear_halt : ℕ → SetupData
clear_halt a = record { bm_request_type = 0x02; b_request = 1; w_value = 0; w_index = a }

abbrev pub get_status : ℕ → SetupData
get_status a = record { bm_request_type = 0x82; b_request = 0; w_value = 0; w_index = a }

-- The register of an endpoint number below 8.
abbrev pub reg : ℕ → CsReg
reg a =
    if a % 256 % 16 == 0
    then ep0
    else if has_bit 0x80 (a % 256)
    then in_ep (a % 256 % 16)
    else out_ep (a % 256 % 16)

reg_found : (a : ℕ) → a % 256 % 16 < 8 → usb_get_endpoint_cs_reg (a % 256) ≡ some (reg a)
unfolding usb_get_endpoint_cs_reg
reg_found a h = ground arith

reg_missing : (a : ℕ) → 8 ≤ a % 256 % 16 → usb_get_endpoint_cs_reg (a % 256) ≡ none
unfolding usb_get_endpoint_cs_reg
reg_missing a h = ground arith

read-write_self : (r : CsReg) (v : ℕ) (s : Usb) → read_cs (some r) (write_cs r v s) ≡ v
unfolding read_cs write_cs
read-write_self ep0 v s = refl
read-write_self (in_ep n) v s = write_self s.in_cs n v
read-write_self (out_ep n) v s = write_self s.out_cs n v

read-write_other :
    (r q : CsReg) (v : ℕ) (s : Usb) → q ≢ r → read_cs (some q) (write_cs r v s) ≡ read_cs (some q) s
unfolding read_cs write_cs
read-write_other ep0 ep0 v s n = absurd (n refl)
read-write_other ep0 (in_ep m) v s n = refl
read-write_other ep0 (out_ep m) v s n = refl
read-write_other (in_ep m) ep0 v s n = refl
read-write_other (in_ep m) (in_ep k) v s n = write_ne s.in_cs m k v (λ e. n (ap in_ep e))
read-write_other (in_ep m) (out_ep k) v s n = refl
read-write_other (out_ep m) ep0 v s n = refl
read-write_other (out_ep m) (in_ep k) v s n = refl
read-write_other (out_ep m) (out_ep k) v s n = write_ne s.out_cs m k v (λ e. n (ap out_ep e))

set_halt_lem :
    (a : ℕ) (s : Usb)
    → a % 256 % 16 < 8
    → usb_handle_setup_data (set_halt a) s
      ≡ write_cs (reg a) (set_bit 0x01 (read_cs (some (reg a)) s)) s
unfolding usb_handle_setup_data usb_handle_set_feature update_cs
set_halt_lem a s h = rw (reg_found a h, update_cs)

clear_halt_lem :
    (a : ℕ) (s : Usb)
    → a % 256 % 16 < 8
    → usb_handle_setup_data (clear_halt a) s
      ≡ write_cs (reg a) (clear_bit 0x01 (read_cs (some (reg a)) s)) s
unfolding usb_handle_setup_data usb_handle_clear_feature update_cs
clear_halt_lem a s h = rw (reg_found a h, update_cs)

-- GET_STATUS answers two bytes, the first the halt bit.
get_status_lem :
    (a : ℕ) (s : Usb)
    → a % 256 % 16 < 8
    → let t = usb_handle_setup_data (get_status a) s in
      (t.in0buf0 ≡ (if has_bit 0x01 (read_cs (some (reg a)) s) then 1 else 0))
      × (t.in0buf1 ≡ 0)
      × (t.in0bc ≡ 2)
unfolding usb_handle_setup_data usb_handle_get_status
get_status_lem a s h = rw (reg_found a h) (refl, refl, refl)

set_bit_has : (r : ℕ) → has_bit 0x01 (set_bit 0x01 r) ≡ true
set_bit_has r = ground arith

clear_bit_has : (r : ℕ) → has_bit 0x01 (clear_bit 0x01 r) ≡ false
clear_bit_has r = ground arith

status_of :
    (a : ℕ) (s : Usb)
    → a % 256 % 16 < 8
    → (b : Bool) (v : ℕ) → has_bit 0x01 v ≡ b
    → (usb_handle_setup_data (get_status a) (write_cs (reg a) v s)).in0buf0 ≡ (if b then 1 else 0)
status_of a s h b v e =
    (get_status_lem a (write_cs (reg a) v s) h).0 ∙ rw (read-write_self (reg a) v s, e)

-- For an endpoint address whose number is below 8, SET_FEATURE(ENDPOINT_HALT) and then GET_STATUS
-- answers 1, CLEAR_FEATURE and then GET_STATUS answers 0, and both leave every other endpoint's
-- register as it was.
halt_status :
    (a : ℕ) (s : Usb)
    → a % 256 % 16 < 8
    → let halted = usb_handle_setup_data (set_halt a) s in
      let cleared = usb_handle_setup_data (clear_halt a) s in
      ((usb_handle_setup_data (get_status a) halted).in0buf0 ≡ 1)
      × ((usb_handle_setup_data (get_status a) cleared).in0buf0 ≡ 0)
      × ((q : CsReg)
          → q ≢ reg a
          → (read_cs (some q) halted ≡ read_cs (some q) s)
            × (read_cs (some q) cleared ≡ read_cs (some q) s))
halt_status a s h = (
  rw (set_halt_lem a s h) (status_of a s h true _ (set_bit_has (read_cs (some (reg a)) s))),
  rw (clear_halt_lem a s h) (status_of a s h false _ (clear_bit_has (read_cs (some (reg a)) s))),
  λ q n. (
    rw (set_halt_lem a s h) (read-write_other _ q _ s n),
    rw (clear_halt_lem a s h) (read-write_other _ q _ s n),
  ),
)

-- For an endpoint number from 8 both halt requests only stall endpoint 0.
halt_refused :
    (a : ℕ) (s : Usb)
    → 8 ≤ a % 256 % 16
    → (usb_handle_setup_data (set_halt a) s ≡ stall_ep0 s)
      × (usb_handle_setup_data (clear_halt a) s ≡ stall_ep0 s)
unfolding usb_handle_setup_data usb_handle_set_feature usb_handle_clear_feature update_cs
halt_refused a s h = (rw (reg_missing a h, update_cs), rw (reg_missing a h, update_cs))
