-- ===== src/Wire/Time.antt =====
-- When bytes come over the wires and when the capture interrupt is taken: Timer0 in mode 2 with the
-- settings of firmware/board_r1.h and firmware/board_r2.h.
use midex_class_firmware.Base.{
  ℕ, Bool, true, false, has_bit, ◌%◌, ◌≡◌, ◌+◌, ◌-◌, ◌≤◌, List, [], ◌∷◌, write,
}
use midex_class_firmware.Config.{Board}
use midex_class_firmware.UartExt.{Bus}
use midex_class_firmware.UartExt.Bank.{Bank}
use midex_class_firmware.Registers.{Sfr}
use midex_class_firmware.Uart.{Timer0}
use midex_class_firmware.Uart.Emptied.{Inboxes}
use midex_class_firmware.Wire.{Event, byte, isr}

-- Where the time stands: now, when the timer overflows next, and the first moment at which a wire can
-- have brought its next byte. All in counts of Timer0.
pub record Clock : Type 0 where
  pub now : ℕ
  pub due : ℕ
  pub free : ℕ → ℕ

-- What these registers must hold for Timer0 to overflow, and to interrupt, every `n` counts of a
-- twelfth of the clock: mode 2 of a timer that is neither gated nor a counter, T0M of CKCON clear, running, with
-- its interrupt enabled at high priority and the interrupts enabled.
pub record IsTicking (f : Sfr) (t : Timer0) (ea : Bool) (n : ℕ) : Type 0 where
  pub mode : f.tmod % 16 ≡ 2
  pub slow : has_bit 0x08 f.ckcon ≡ false
  pub overflows_after : n ≡ 256 - t.th0
  pub starts_at : t.tl0 ≡ t.th0
  pub runs : t.tr0 ≡ true
  pub interrupts : t.et0 ≡ true
  pub high : t.pt0 ≡ true
  pub enabled : ea ≡ true

module _ (bus : Bus) (board : Board) (bank : Bank bus board) (boxes : Inboxes bus board bank) where
  -- Events with their times, in order. The timer overflows every `period` counts; the interrupt is taken
  -- once for each overflow, not before it and at most `late` counts behind it; bytes on one wire are at least `spacing` counts
  -- apart.
  abbrev pub IsTimely :
      (period late spacing : ℕ) → Clock → List (ℕ × Event bus board bank boxes) → Type 0
  IsTimely period late spacing c [] = Unit
  IsTimely period late spacing c ((t, byte p b) ∷ es) =
      (c.now ≤ t)
      × (t ≤ c.due + late)
      × (c.free p ≤ t)
      × IsTimely period late spacing (record c { now = t; free = write c.free p (t + spacing) }) es
  IsTimely period late spacing c ((t, isr) ∷ es) =
      (c.due ≤ t)
      × (t ≤ c.due + late)
      × (c.now ≤ t)
      × IsTimely period late spacing (record c { now = t; due = c.due + period }) es
  IsTimely period late spacing c ((t, _) ∷ es) =
      (c.now ≤ t) × (t ≤ c.due + late) × IsTimely period late spacing (record c { now = t }) es

  abbrev pub untimed : List (ℕ × Event bus board bank boxes) → List (Event bus board bank boxes)
  untimed [] = []
  untimed ((t, e) ∷ es) = e ∷ untimed es
