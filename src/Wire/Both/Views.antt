-- ===== src/Wire/Both/Views.antt =====
-- The run of both directions is, to either, a run of its own.
use midex_class_firmware.Base.{ℕ, ◌≡◌, ◌∙◌, ap, refl, List, [], ◌∷◌}
use midex_class_firmware.Config.{Board}
use midex_class_firmware.UartExt.{Bus}
use midex_class_firmware.UartExt.Bank.{Bank}
use midex_class_firmware.Uart.Emptied.{Inboxes}
use midex_class_firmware.Bridge.Stream.{act}
use midex_class_firmware.Wire
use midex_class_firmware.Wire.{Inputs}
use midex_class_firmware.Wire.Time.{untimed}
use midex_class_firmware.Wire.Transmit
use midex_class_firmware.Wire.Transmit.{Outboxes, gone}
use midex_class_firmware.Wire.Both.{
  Machine, hearing, playing, Event, byte, isr, turn, send, take, host, bridge, pump, leave, step,
  run, in_view, out_view, ins, outs_of,
}

module _ (bus : Bus) (board : Board) (bank : Bank bus board) (boxes : Inboxes bus board bank)
    (inputs : Inputs bus board bank boxes) (outs : Outboxes bus board bank) where
  abbrev Whole : Type 0
  Whole = Machine bus board bank boxes inputs outs

  abbrev Happens : Type 0
  Happens = Event bus board bank boxes inputs outs

  hearing-step :
      (e : Happens) (a : Whole)
      → hearing bus board bank boxes inputs outs (step bus board bank boxes inputs outs e a)
        ≡ Wire.step bus board bank boxes inputs
            (in_view bus board bank boxes inputs outs e a)
            (hearing bus board bank boxes inputs outs a)
  unfolding step Wire.step Transmit.step act
  hearing-step (byte p b) a = refl
  hearing-step isr a = refl
  hearing-step (turn p) a = refl
  hearing-step send a = refl
  hearing-step take a = refl
  hearing-step (host buf n h) a = refl
  hearing-step bridge a = refl
  hearing-step pump a = refl
  hearing-step (leave p) a = refl

  playing-step :
      (e : Happens) (a : Whole)
      → playing bus board bank boxes inputs outs (step bus board bank boxes inputs outs e a)
        ≡ Transmit.step bus board bank outs
            (out_view bus board bank boxes inputs outs e a)
            (playing bus board bank boxes inputs outs a)
  unfolding step Wire.step Transmit.step act
  playing-step (byte p b) a = refl
  playing-step isr a = refl
  playing-step (turn p) a = refl
  playing-step send a = refl
  playing-step take a = refl
  playing-step (host buf n h) a = refl
  playing-step bridge a = refl
  playing-step pump a = refl
  playing-step (leave p) a = refl

  pub hearing-run :
      (es : List (ℕ × Happens)) (a : Whole)
      → hearing bus board bank boxes inputs outs (run bus board bank boxes inputs outs es a)
        ≡ Wire.run bus board bank boxes inputs
            (untimed bus board bank boxes (ins bus board bank boxes inputs outs es a))
            (hearing bus board bank boxes inputs outs a)
  unfolding run ins Wire.run
  hearing-run [] a = refl
  hearing-run ((t, e) ∷ es) a =
      let b = step bus board bank boxes inputs outs e a in
      hearing-run es b
      ∙ ap
          (Wire.run bus board bank boxes inputs
            (untimed bus board bank boxes (ins bus board bank boxes inputs outs es b)))
          (hearing-step e a)

  pub playing-run :
      (es : List (ℕ × Happens)) (a : Whole)
      → playing bus board bank boxes inputs outs (run bus board bank boxes inputs outs es a)
        ≡ Transmit.run bus board bank outs
            (outs_of bus board bank boxes inputs outs es a)
            (playing bus board bank boxes inputs outs a)
  unfolding run outs_of Transmit.run
  playing-run [] a = refl
  playing-run ((t, e) ∷ es) a =
      let b = step bus board bank boxes inputs outs e a in
      playing-run es b
      ∙ ap (Transmit.run bus board bank outs (outs_of bus board bank boxes inputs outs es b))
          (playing-step e a)
