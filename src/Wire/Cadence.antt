-- ===== src/Wire/Cadence.antt =====
-- The cadence of the capture interrupt in time: firmware/uart.c against the rate at which bytes can
-- come.
use midex_class_firmware.Base.{
  ℕ, ◌+◌, ◌*◌, ◌<◌, ◌≤◌, ◌≡◌, ap, refl, if◌then◌else◌, List, [], ◌∷◌, Each, write,
}
use midex_class_firmware.Config.{Board}
use midex_class_firmware.UartExt.{Bus}
use midex_class_firmware.UartExt.Bank.{Bank}
use midex_class_firmware.Uart.Emptied.{Inboxes, IsPlain}
use midex_class_firmware.RxPath
use midex_class_firmware.RxPath.{sweeps}
use midex_class_firmware.RxPath.Counter.{drain_prescale, ship_capture}
use midex_class_firmware.Wire.{
  Inputs, Wired, Event, byte, isr, access, turn, send, take, IsEvent, step, overruns,
}
use midex_class_firmware.Wire.Receiving.{pending-inbox, step-IsPlain}
use midex_class_firmware.Wire.Time.{Clock, IsTimely, untimed}
use midex_class_firmware.Wire.Ahead.{IsAhead, finds_room, came-IsAhead, tick-IsAhead, idle-IsAhead}

module _ (bus : Bus) (board : Board) (bank : Bank bus board) (boxes : Inboxes bus board bank) where
  module _ (inputs : Inputs bus board bank boxes)
      (full : board.onchip_port_first + (if board.has_onchip_uart then 2 else 0) ≡ 8)
      (all : board.onchip_port_first ≤ board.num_ext_ports) (period late spacing : ℕ)
      (some_ticks : 1 ≤ board.t0_prescale) (few_ticks : board.t0_prescale < 256)
      (in_time : board.t0_prescale * period + late < spacing) where
    abbrev Here : Type 0
    Here = Wired bus board bank boxes

    pub overruns_none :
        (es : List (ℕ × Event bus board bank boxes)) (c : Clock) (a : Here)
        → Each (IsEvent bus board bank boxes) (untimed bus board bank boxes es)
        → IsTimely bus board bank boxes period late spacing c es
        → IsPlain bus board bank boxes a.chips
        → IsAhead bus board bank boxes inputs full all period late spacing some_ticks few_ticks
            in_time c a
        → overruns bus board bank boxes inputs (untimed bus board bank boxes es) a ≡ 0
    unfolding overruns step
    overruns_none [] c a each timely plain v = refl
    overruns_none ((t, byte p b) ∷ es) c a each timely plain v =
        let clear =
          finds_room bus board bank boxes inputs full all period late spacing some_ticks few_ticks
            in_time c a t p v each.0.0 timely.1 timely.2 in
        rw clear (
          overruns_none es (record c { now = t; free = write c.free p (t + spacing) })
            (step bus board bank boxes inputs (byte p b) a) each.1 timely.3
            (step-IsPlain bus board bank boxes inputs full all (byte p b) a each.0 plain)
            (came-IsAhead bus board bank boxes inputs full all period late spacing some_ticks
              few_ticks in_time c a t p b v each.0.0 timely.0))
    overruns_none ((t, isr) ∷ es) c a each timely plain v =
        overruns_none es (record c { now = t; due = c.due + period })
          (step bus board bank boxes inputs isr a) each.1 timely.3
          (step-IsPlain bus board bank boxes inputs full all isr a each.0 plain)
          (tick-IsAhead bus board bank boxes inputs full all period late spacing some_ticks
            few_ticks in_time c a t plain v timely.0 timely.2)
    overruns_none ((t, access f) ∷ es) c a each timely plain v =
        let b = step bus board bank boxes inputs (access f) a in
        let kept = each.0 a.chips plain in
        overruns_none es (record c { now = t }) b each.1 timely.2 kept.0
          (idle-IsAhead bus board bank boxes inputs full all period late spacing some_ticks
            few_ticks in_time c a b t v timely.0 refl
            (λ p.
              pending-inbox bus board bank boxes inputs p (f a.chips) a.chips a.receivers
                (kept.1 p)))
    overruns_none ((t, turn p) ∷ es) c a each timely plain v =
        let b = step bus board bank boxes inputs (turn p) a in
        overruns_none es (record c { now = t }) b each.1 timely.2 plain
          (idle-IsAhead bus board bank boxes inputs full all period late spacing some_ticks
            few_ticks in_time c a b t v timely.0
            (unfold RxPath.step in drain_prescale 1 p a.path.rx) (λ q. refl))
    overruns_none ((t, send) ∷ es) c a each timely plain v =
        let b = step bus board bank boxes inputs send a in
        overruns_none es (record c { now = t }) b each.1 timely.2 plain
          (idle-IsAhead bus board bank boxes inputs full all period late spacing some_ticks
            few_ticks in_time c a b t v timely.0
            (unfold RxPath.step in ap (λ d. d.rx_tick_prescale) (ship_capture a.path.rx))
            (λ q. refl))
    overruns_none ((t, take) ∷ es) c a each timely plain v =
        let b = step bus board bank boxes inputs take a in
        overruns_none es (record c { now = t }) b each.1 timely.2 plain
          (idle-IsAhead bus board bank boxes inputs full all period late spacing some_ticks
            few_ticks in_time c a b t v timely.0 (unfold RxPath.step in refl) (λ q. refl))
