-- ===== src/Probe/Deferred.antt =====
-- A write by VR_WRITE_XDATA happens in the loop of `main`, behind the interrupt.
use midex_class_firmware.Base.{
  ℕ, ◌%◌, ◌≡◌, ◌∙◌, refl, true, false, Option, none, some, List, [], ◌∷◌, ◌++◌,
}
use midex_class_firmware.UartExt.{Bus}
use midex_class_firmware.Usb.{SetupData}
use midex_class_firmware.Probe.{
  Probe, handle_vendor_command, usb_handle_setup_data, acknowledge, sudav_isr, main_turn,
}

-- The request that writes the low byte of `w.1` to the address `w.0`.
abbrev pub write_request : ℕ × ℕ → SetupData
write_request w = record { bm_request_type = 0x40; b_request = 0xB1; w_value = w.0; w_index = w.1 }

module _ (bus : Bus) where
  -- Write requests that arrive before the loop comes round.
  unfoldable pub requests : List (ℕ × ℕ) → Probe bus → Option (Probe bus)
  requests [] s = some s
  requests (w ∷ ws) s = elim (sudav_isr bus (write_request w) s) [
    | none ↦ none
    | some t ↦ requests ws t
  ]

  -- What a write request leaves behind.
  pub record Waits (w : ℕ × ℕ) (s t : Probe bus) : Type 0 where
    pub addr : t.pend_addr ≡ w.0
    pub val : t.pend_val ≡ w.1 % 256
    pub flag : t.pend_write ≡ true
    pub memory_kept : t.memory ≡ s.memory

  one-Waits :
      (w : ℕ × ℕ) (s : Probe bus)
      → (t : Probe bus) × (sudav_isr bus (write_request w) s ≡ some t) × Waits w s t
  unfolding sudav_isr usb_handle_setup_data handle_vendor_command acknowledge
  one-Waits w s = (_, refl, record { addr = refl; val = refl; flag = refl; memory_kept = refl })

  last-Waits :
      (ws : List (ℕ × ℕ)) (w : ℕ × ℕ) (s : Probe bus)
      → (t : Probe bus) × (requests (ws ++ (w ∷ [])) s ≡ some t) × Waits w s t
  unfolding requests
  last-Waits [] w s = let (t, e, r) = one-Waits w s in (t, rw (e, requests), r)
  last-Waits (v ∷ ws) w s =
      let (t, e, r) = one-Waits v s in
      let (u, f, q) = last-Waits ws w t in
      (
        u,
        rw (e, requests) f,
        record {
          addr = q.addr;
          val = q.val;
          flag = q.flag;
          memory_kept = q.memory_kept ∙ r.memory_kept;
        },
      )

  -- Any number of write requests served before the loop comes round change no memory: the next turn of
  -- the loop makes the write of the last of them and of no other, with the low byte of its wIndex.
  pub main_turn-requests :
      (ws : List (ℕ × ℕ)) (w : ℕ × ℕ) (s : Probe bus)
      → (t : Probe bus) × (requests (ws ++ (w ∷ [])) s ≡ some t)
        × (t.memory ≡ s.memory)
        × ((main_turn bus t).memory ≡ bus.write w.0 (w.1 % 256) s.memory)
        × ((main_turn bus t).pend_write ≡ false)
  unfolding main_turn
  main_turn-requests ws w s =
      let (t, e, r) = last-Waits ws w s in
      (t, e, r.memory_kept, rw (r.flag, r.addr, r.val, r.memory_kept) refl, rw (r.flag) refl)
