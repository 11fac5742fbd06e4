-- ===== src/Usb/Counter.antt =====
-- The RX-overflow counter and the control endpoint: the vendor requests have the codes of two
-- standard requests, which the switch takes first.
use midex_class_firmware.Base.{
  ℕ, ap, ◌≡◌, ◌≢◌, refl, Bool, true, false, not, ◌&&◌, ◌||◌, Option, none, some, arith, has_bit,
  ◌%◌, inl, inr, Bool-cases, Option-cases, set_bit, clear_bit, ◌==◌, if◌then◌else◌, bit_and,
}
use midex_class_firmware.Usb.{
  SetupData, Usb, CsReg, ep0, in_ep, out_ep, stall_ep0, read_cs, write_cs, usb_get_endpoint_cs_reg,
  usb_handle_get_status, usb_handle_clear_feature, usb_handle_set_feature,
  usb_handle_get_descriptor, usb_handle_set_interface, usb_reset_data_toggle, handle_other,
  usb_handle_setup_data, sudav_isr, update_cs, stall_unless,
}

-- The state with another count.
abbrev pub recount : ℕ → Usb → Usb
recount k s = record s { uart_rx_overflows = k }

write_cs_blind :
    (r : CsReg) (v k : ℕ) (s : Usb) → write_cs r v (recount k s) ≡ recount k (write_cs r v s)
unfolding write_cs
write_cs_blind ep0 v k s = refl
write_cs_blind (in_ep n) v k s = refl
write_cs_blind (out_ep n) v k s = refl

read_cs_blind : (r : Option CsReg) (k : ℕ) (s : Usb) → read_cs r (recount k s) ≡ read_cs r s
unfolding read_cs
read_cs_blind none k s = refl
read_cs_blind (some ep0) k s = refl
read_cs_blind (some (in_ep n)) k s = refl
read_cs_blind (some (out_ep n)) k s = refl

-- A handler that neither reads nor writes the count, and one with an answer.
record IsBlind (f : Usb → Usb) : Type 0 where
  blind : (k : ℕ) (s : Usb) → f (recount k s) ≡ recount k (f s)

record IsBlind2 (f : Usb → Bool × Usb) : Type 0 where
  blind : (k : ℕ) (s : Usb) → f (recount k s) ≡ ((f s).0, recount k (f s).1)

if-IsBlind :
    (b : Bool) {f g : Usb → Usb} → IsBlind f → IsBlind g → IsBlind (λ s. if b then f s else g s)
if-IsBlind true hf hg = hf
if-IsBlind false hf hg = hg

else-IsBlind :
    (b : Bool) (f : Usb → Usb) {g : Usb → Usb}
    → b ≡ false
    → IsBlind g
    → IsBlind (λ s. if b then f s else g s)
else-IsBlind true f e hg = cc
else-IsBlind false f e hg = hg

rest-IsBlind :
    (b : Bool) {f g : Usb → Usb}
    → IsBlind f
    → (b ≡ false → IsBlind g)
    → IsBlind (λ s. if b then f s else g s)
rest-IsBlind true hf hg = hf
rest-IsBlind false hf hg = hg refl

if-IsBlind2 :
    (b : Bool) {f g : Usb → Bool × Usb}
    → IsBlind2 f
    → IsBlind2 g
    → IsBlind2 (λ s. if b then f s else g s)
if-IsBlind2 true hf hg = hf
if-IsBlind2 false hf hg = hg

reply-IsBlind2 : (b : Bool) {f : Usb → Usb} → IsBlind f → IsBlind2 (λ s. (b, f s))
reply-IsBlind2 b h = record { blind = λ k s. ap (λ t. (b, t)) (h.blind k s) }

id-IsBlind : IsBlind (λ s. s)
id-IsBlind = record { blind = λ k s. refl }

stall-IsBlind : IsBlind stall_ep0
unfolding stall_ep0
stall-IsBlind = record { blind = λ k s. refl }

update_cs-IsBlind2 : (f : ℕ → ℕ) (d : SetupData) → IsBlind2 (update_cs f d)
unfolding update_cs
update_cs-IsBlind2 f d = record {
  blind = λ k s. elim (Option-cases (usb_get_endpoint_cs_reg (d.w_index % 256))) [
    | inl e ↦ rw (e, update_cs)
    | inr (r, e) ↦ rw (e, update_cs, read_cs_blind, write_cs_blind)
  ];
}

get_status-IsBlind2 : (d : SetupData) → IsBlind2 (usb_handle_get_status d)
unfolding usb_handle_get_status
get_status-IsBlind2 d =
    if-IsBlind2 (d.bm_request_type == 0x80) (reply-IsBlind2 true (record { blind = λ k s. refl })) (
      if-IsBlind2 (d.bm_request_type == 0x81) (reply-IsBlind2 true (record { blind = λ k s. refl }))
        (if-IsBlind2 (d.bm_request_type == 0x82)
          (reply-IsBlind2 true (record { blind = λ k s. rw read_cs_blind }))
          (reply-IsBlind2 false id-IsBlind)))

clear_feature-IsBlind2 : (d : SetupData) → IsBlind2 (usb_handle_clear_feature d)
unfolding usb_handle_clear_feature
clear_feature-IsBlind2 d =
    if-IsBlind2 (d.bm_request_type == 0x00) (reply-IsBlind2 true stall-IsBlind) (
      if-IsBlind2 (d.bm_request_type == 0x02)
        (if-IsBlind2 (d.w_value == 0) (update_cs-IsBlind2 (clear_bit 0x01) d)
          (reply-IsBlind2 true stall-IsBlind))
        (reply-IsBlind2 true id-IsBlind))

set_feature-IsBlind2 : (d : SetupData) → IsBlind2 (usb_handle_set_feature d)
unfolding usb_handle_set_feature
set_feature-IsBlind2 d = if-IsBlind2 (d.bm_request_type == 0x00) (reply-IsBlind2 true id-IsBlind) (
    if-IsBlind2 (d.bm_request_type == 0x02)
      (if-IsBlind2 (d.w_value == 0) (update_cs-IsBlind2 (set_bit 0x01) d)
        (reply-IsBlind2 false id-IsBlind))
      (reply-IsBlind2 true id-IsBlind))

get_descriptor-IsBlind2 : (d : SetupData) → IsBlind2 (usb_handle_get_descriptor d)
unfolding usb_handle_get_descriptor
get_descriptor-IsBlind2 d = record { blind = λ k s. ground arith }

interface-IsBlind : IsBlind usb_handle_set_interface
unfolding usb_handle_set_interface usb_reset_data_toggle
interface-IsBlind = record { blind = λ k s. refl }

stall_unless-IsBlind : {f : Usb → Bool × Usb} → IsBlind2 f → IsBlind (λ s. stall_unless (f s))
unfolding stall_unless stall_ep0
stall_unless-IsBlind {f} h = record {
  blind = λ k s. rw (h.blind k s) (elim (Bool-cases (f s).0) [ inl e ↦ rw e | inr e ↦ rw e ]);
}

-- Past the standard codes neither vendor code is left.
other-IsBlind : (d : SetupData) → d.b_request ≢ 1 → d.b_request ≢ 2 → IsBlind (handle_other d)
unfolding handle_other
other-IsBlind d one two =
    if-IsBlind (bit_and d.bm_request_type 0x60 == 0x40)
      (else-IsBlind ((d.b_request == 1) && has_bit 0x80 d.bm_request_type) _ (ground arith) (
        else-IsBlind ((d.b_request == 2) && not (has_bit 0x80 d.bm_request_type)) _ (ground arith)
          stall-IsBlind))
      stall-IsBlind

handle_setup-IsBlind : (d : SetupData) → IsBlind (usb_handle_setup_data d)
unfolding usb_handle_setup_data
handle_setup-IsBlind d =
    let r = d.b_request in
    if-IsBlind (r == 0) (stall_unless-IsBlind (get_status-IsBlind2 d)) (
      rest-IsBlind (r == 1) (stall_unless-IsBlind (clear_feature-IsBlind2 d)) λ one.
        (rest-IsBlind ((r == 2) || (r == 4)) stall-IsBlind λ two.
          (if-IsBlind (r == 3) (stall_unless-IsBlind (set_feature-IsBlind2 d)) (
            if-IsBlind (r == 5) id-IsBlind (
              if-IsBlind (r == 7) stall-IsBlind (
                if-IsBlind (r == 6) (stall_unless-IsBlind (get_descriptor-IsBlind2 d)) (
                  if-IsBlind (r == 8) (record { blind = λ k s. refl })
                    (if-IsBlind (r == 9) id-IsBlind (
                      if-IsBlind (r == 10) (record { blind = λ k s. refl })
                        (if-IsBlind (r == 11) interface-IsBlind (
                          if-IsBlind (r == 12) id-IsBlind
                            (other-IsBlind d (ground arith) (ground arith)))))))))))))

-- Whatever SETUP packet comes, the handler does the same for every value of the RX-overflow counter,
-- and leaves the counter as it is: the host can neither read nor clear it.
pub sudav_isr-recount :
    (d : SetupData) (k : ℕ) (s : Usb) → sudav_isr d (recount k s) ≡ recount k (sudav_isr d s)
unfolding sudav_isr
sudav_isr-recount d k s =
    ap {A = Usb} {B = Usb} (λ t. record t { usbirq = 0x01; ep0cs = set_bit 0x02 t.ep0cs })
      ((handle_setup-IsBlind d).blind k s)

pub sudav_isr-count :
    (d : SetupData) (s : Usb) → (sudav_isr d s).uart_rx_overflows ≡ s.uart_rx_overflows
sudav_isr-count d s = ap (λ t. t.uart_rx_overflows) (sudav_isr-recount d s.uart_rx_overflows s)
