-- ===== src/Usb/Toggle.antt =====
-- What `usb_reset_data_toggle` writes for the endpoint addresses that the firmware has.
use midex_class_firmware.Base.{
  ℕ, ◌+◌, ◌<◌, ◌≡◌, refl, true, ◌∷◌, arith, bit_and, bit_or, ◌==◌, passes_below, passes_below_sound,
  ◌&&◌,
}
use midex_class_firmware.Usb.{Usb, usb_reset_data_toggle}

-- The endpoint number `n` with the direction bit of an IN endpoint.
abbrev pub in_address : ℕ → ℕ
in_address n = 0x80 + n

masks_table :
    passes_below 8 (λ n.
      (bit_or (bit_and n 0x10) (bit_and n 0x7) == n)
      && (bit_or (bit_and (in_address n) 0x10) (bit_and (in_address n) 0x7) == n)
      && (bit_or n 0x20 == n + 0x20))
    ≡ true
unfolding passes_below
masks_table = refl

record Masks (n : ℕ) : Type 0 where
  out_mask : bit_or (bit_and n 0x10) (bit_and n 0x7) ≡ n
  in_mask : bit_or (bit_and (in_address n) 0x10) (bit_and (in_address n) 0x7) ≡ n
  r_mask : bit_or n 0x20 ≡ n + 0x20

Masks-at : (n : ℕ) → n < 8 → Masks n
Masks-at n h =
    let t = passes_below_sound 8 _ n masks_table h in
    record { out_mask = ground (arith, t); in_mask = ground (arith, t); r_mask = ground (arith, t) }

-- For an endpoint number below 8 the function writes the same two values to TOGCTL for the IN address
-- as for the OUT address: the number, and the number with the reset bit. The IO bit (0x10), which
-- selects the IN endpoint, is never set.
pub togctl-usb_reset_data_toggle :
    (n : ℕ) (s : Usb)
    → n < 8
    → ((usb_reset_data_toggle n s).togctl ≡ (n + 0x20) ∷ n ∷ s.togctl)
      × ((usb_reset_data_toggle (in_address n) s).togctl ≡ (n + 0x20) ∷ n ∷ s.togctl)
unfolding usb_reset_data_toggle
togctl-usb_reset_data_toggle n s h =
    let m = Masks-at n h in (rw (m.out_mask, m.r_mask), rw (m.in_mask, m.r_mask))
