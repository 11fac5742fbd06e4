-- ===== src/Main/Endpoints.antt =====
-- The endpoints that the configuration block declares, and those that `usb_init` opens.
use midex_class_firmware.Base.{
  ℕ, ◌+◌, ◌^◌, ◌<◌, ◌≡◌, ◌∙◌, refl, Bool, true, false, ◌&&◌, ◌||◌, ◌==◌, Option, none, some, List,
  [], ◌∷◌, get_or, has_bit, passes_below, agree_below, agree_below_sound, sym,
}
use midex_class_firmware.Descriptors.{
  config_block, config_head, config_endpoints, midi_port_jacks, desc_midi_in_jack,
  desc_midi_out_jack,
}
use midex_class_firmware.Descriptors.Walk.{descriptors}
use midex_class_firmware.Main.{UsbCore, usb_init}

-- A block is delimited, and declares an endpoint of this address.
abbrev pub has_endpoint : ℕ → List (List ℕ) → Bool
has_endpoint address [] = false
has_endpoint address (d ∷ ds) =
    ((get_or d 1 0 == 0x05) && (get_or d 2 0 == address)) || has_endpoint address ds

abbrev pub is_declared : ℕ → Option (List (List ℕ)) → Bool
is_declared address none = false
is_declared address (some ds) = has_endpoint address ds

-- Either direction of endpoint `n` is valid, and its interrupt enabled, just if it is declared.
pub record Opened (ds : Option (List (List ℕ))) (u : UsbCore) (n : ℕ) : Type 0 where
  pub in_valid : has_bit (2 ^ n) u.in07val ≡ is_declared (0x80 + n) ds
  pub in_enabled : has_bit (2 ^ n) u.in07ien ≡ is_declared (0x80 + n) ds
  pub out_valid : has_bit (2 ^ n) u.out07val ≡ is_declared n ds
  pub out_enabled : has_bit (2 ^ n) u.out07ien ≡ is_declared n ds

only_two : agree_below 8 (λ n. has_bit (2 ^ n) 0x04) (λ n. n == 2) ≡ true
unfolding passes_below
only_two = refl

-- The registers of `usb_init` open endpoint 2 alone, in both directions.
pub usb_init-Opened :
    (ds : Option (List (List ℕ))) (u : UsbCore) (n : ℕ)
    → n < 8
    → is_declared (0x80 + n) ds ≡ (n == 2)
    → is_declared n ds ≡ (n == 2)
    → Opened ds (usb_init u) n
unfolding usb_init
usb_init-Opened ds u n h i o =
    let bit : has_bit (2 ^ n) 0x04 ≡ (n == 2) =
      agree_below_sound 8 (λ k. has_bit (2 ^ k) 0x04) (λ k. k == 2) n only_two h in
    record {
      in_valid = bit ∙ sym i;
      in_enabled = bit ∙ sym i;
      out_valid = bit ∙ sym o;
      out_enabled = bit ∙ sym o;
    }

ins_declared :
    agree_below 8 (λ n. is_declared (0x80 + n) (descriptors 64 config_block)) (λ n. n == 2) ≡ true
unfolding passes_below descriptors config_block config_head config_endpoints midi_port_jacks
    desc_midi_in_jack desc_midi_out_jack
ins_declared = refl

outs_declared :
    agree_below 8 (λ n. is_declared n (descriptors 64 config_block)) (λ n. n == 2) ≡ true
unfolding passes_below descriptors config_block config_head config_endpoints midi_port_jacks
    desc_midi_in_jack desc_midi_out_jack
outs_declared = refl

-- Whatever the core's registers were, behind `usb_init` an endpoint below 8 is valid in a direction,
-- and its interrupt enabled, just if the configuration block, read by the length bytes of its
-- descriptors, declares it.
pub usb_init-config_block :
    (u : UsbCore) (n : ℕ) → n < 8 → Opened (descriptors 64 config_block) (usb_init u) n
usb_init-config_block u n h =
    usb_init-Opened (descriptors 64 config_block) u n h
      (agree_below_sound 8 (λ k. is_declared (0x80 + k) (descriptors 64 config_block)) (λ k. k == 2)
        n ins_declared h)
      (agree_below_sound 8 (λ k. is_declared k (descriptors 64 config_block)) (λ k. k == 2) n
        outs_declared h)
