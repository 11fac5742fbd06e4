-- ===== src/Probe/Descriptors/Endpoints.antt =====
-- The configuration that the probe declares, and what its `usb_init` opens.
use midex_class_firmware.Base.{
  ℕ, ◌+◌, ◌<◌, ◌≡◌, refl, true, ◌==◌, some, [], ◌∷◌, length, passes_below, agree_below,
  agree_below_sound,
}
use midex_class_firmware.Descriptors.Layout.{interface_bytes, config_bytes, endpoint_bytes}
use midex_class_firmware.Descriptors.Walk.{descriptors}
use midex_class_firmware.Main.{UsbCore}
use midex_class_firmware.Main.Endpoints.{is_declared, Opened, usb_init-Opened}
use midex_class_firmware.Probe.Handlers.{usb_init}
use midex_class_firmware.Probe.Descriptors.{
  config_descriptor, interface_descriptor00, bulk_ep2_in_endpoint_descriptor,
  bulk_ep2_out_endpoint_descriptor, config_and_below,
}

ins_declared :
    agree_below 8 (λ n. is_declared (0x80 + n) (descriptors 8 config_and_below)) (λ n. n == 2)
    ≡ true
unfolding passes_below descriptors config_and_below
ins_declared = refl

outs_declared :
    agree_below 8 (λ n. is_declared n (descriptors 8 config_and_below)) (λ n. n == 2) ≡ true
unfolding passes_below descriptors config_and_below
outs_declared = refl

-- The probe's configuration has the length that it tells, and its length bytes cut it into the four
-- structures in their order. Whatever the core's registers were, behind its `usb_init` an endpoint
-- below 8 is valid in a direction, and its interrupt enabled, just if one of them declares it.
pub usb_init-config_and_below :
    (u : UsbCore) (n : ℕ)
    → n < 8
    → (length config_and_below ≡ config_descriptor.w_total_length)
      × (descriptors 8 config_and_below
          ≡ some (
              config_bytes config_descriptor
              ∷ interface_bytes interface_descriptor00
              ∷ endpoint_bytes bulk_ep2_in_endpoint_descriptor
              ∷ endpoint_bytes bulk_ep2_out_endpoint_descriptor
              ∷ []))
      × Opened (descriptors 8 config_and_below) (usb_init u) n
unfolding config_and_below descriptors
usb_init-config_and_below u n h = (
  refl,
  refl,
  usb_init-Opened (descriptors 8 config_and_below) u n h
      (agree_below_sound 8 (λ k. is_declared (0x80 + k) (descriptors 8 config_and_below))
        (λ k. k == 2) n ins_declared h)
      (agree_below_sound 8 (λ k. is_declared k (descriptors 8 config_and_below)) (λ k. k == 2) n
        outs_declared h),
)
