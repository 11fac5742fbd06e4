-- ===== src/Wire/Carried.antt =====
-- From the MIDI wires to the host.
use mathlib.Core.Path.{subst}
use native.Mathlib.Decide.{ℕ_discrete}
use midex_class_firmware.Base.{
  ℕ, ◌+◌, ◌<◌, ◌≤◌, ◌≡◌, ◌∙◌, sym, ap, Bool-cases, inl, inr, if◌then◌else◌, none, List, [], ◌∷◌,
  ◌++◌, Each, append-nil, concat_map,
}
use midex_class_firmware.Config.{Board}
use midex_class_firmware.UartExt.{Bus}
use midex_class_firmware.UartExt.Bank.{Bank}
use midex_class_firmware.Uart.Emptied.{Inboxes, IsPlain, found-pending}
use midex_class_firmware.Parser.Messages
use midex_class_firmware.Parser.Messages.{Message, IsMessage, packets}
use midex_class_firmware.RxPump.Round.{IsValid}
use midex_class_firmware.RxPump.Pass.{of_cable}
use midex_class_firmware.RxPath
use midex_class_firmware.RxPath.{System, sweeps, arrivals}
use midex_class_firmware.RxPath.Counter.{overflows}
use midex_class_firmware.RxPath.Flow.{Flow}
use midex_class_firmware.RxPath.Steps.{run-Flow}
use midex_class_firmware.RxPath.Polls.{polls}
use midex_class_firmware.RxPath.EndToEnd.{deframe, IsClear}
use midex_class_firmware.RxPath.Delivery.{of_cable-polls}
use midex_class_firmware.Wire.{
  Inputs, Wired, Event, byte, isr, access, turn, send, take, IsEvent, held, step, run, overruns,
  images, wire,
}
use midex_class_firmware.Wire.Receiving.{
  path-run, pending-inbox, held-byte, held-byte_apart, isr_swept, isr_skipped, step-IsPlain,
}
use midex_class_firmware.Wire.Ledger.{there, lost_none, ledger}

module _ (bus : Bus) (board : Board) (bank : Bank bus board) (boxes : Inboxes bus board bank)
    (inputs : Inputs bus board bank boxes)
    (full : board.onchip_port_first + (if board.has_onchip_uart then 2 else 0) ≡ 8)
    (all : board.onchip_port_first ≤ board.num_ext_ports) where
  abbrev Here : Type 0
  Here = Wired bus board bank boxes

  abbrev now : ℕ → Here → List ℕ
  now q a = there bus board bank boxes inputs full all q a

  -- DLAB is clear in the chips, and what stands in a receiver is a byte.
  pub record IsReady (a : Here) : Type 0 where
    pub plain : IsPlain bus board bank boxes a.chips
    pub small : (q : ℕ) → q < 8 → Each (λ b. b < 256) (now q a)

  byte-small :
      (p b : ℕ) (a : Here)
      → (p < 8) × (b < 256)
      → held bus board bank boxes a p ≡ none
      → IsReady a
      → (q : ℕ) → q < 8
      → Each (λ x. x < 256) (now q (step bus board bank boxes inputs (byte p b) a))
  byte-small p b a v clear r q h = elim (ℕ_discrete q p) [
    | yes e ↦ rw (e, held-byte bus board bank boxes inputs full all p b a v.0 clear) (v.1, tt)
    | no n ↦ rw (held-byte_apart bus board bank boxes inputs full all p q b a v.0 h n) (r.small q h)
  ]

  isr-small :
      (a : Here)
      → IsReady a
      → (q : ℕ) → q < 8
      → Each (λ x. x < 256) (now q (step bus board bank boxes inputs isr a))
  isr-small a r q h = elim (Bool-cases (sweeps a.path.rx.capture)) [
    | inl e ↦ rw (isr_swept bus board bank boxes inputs full all q a r.plain e) tt
    | inr e ↦ rw (isr_skipped bus board bank boxes inputs full all q a e) (r.small q h)
  ]

  -- The steps of the path behind the interrupt are steps of RxPath.
  images-IsEvent :
      (es : List (Event bus board bank boxes)) (a : Here)
      → Each (IsEvent bus board bank boxes) es
      → IsReady a
      → overruns bus board bank boxes inputs es a ≡ 0
      → Each (RxPath.IsEvent board) (images bus board bank boxes inputs es a)
  unfolding images overruns step
  images-IsEvent [] a each r none_lost = tt
  images-IsEvent (byte p b ∷ es) a each r none_lost =
      let clear = lost_none bus board bank boxes inputs full all p b es a none_lost in
      images-IsEvent es (step bus board bank boxes inputs (byte p b) a) each.1
        (record {
          plain = step-IsPlain bus board bank boxes inputs full all (byte p b) a each.0 r.plain;
          small = byte-small p b a each.0 clear.0 r;
        })
        clear.1
  images-IsEvent (isr ∷ es) a each r none_lost = (
    λ q h. rw (found-pending bus board bank boxes q a.chips a.receivers all r.plain) (r.small q h),
    images-IsEvent es (step bus board bank boxes inputs isr a) each.1
        (record {
          plain = step-IsPlain bus board bank boxes inputs full all isr a tt r.plain;
          small = isr-small a r;
        })
        none_lost,
  )
  images-IsEvent (access f ∷ es) a each r none_lost =
      let kept = each.0 a.chips r.plain in
      images-IsEvent es (step bus board bank boxes inputs (access f) a) each.1
        (record {
          plain = kept.0;
          small = λ q h.
              rw
                (pending-inbox bus board bank boxes inputs q (f a.chips) a.chips a.receivers
                  (kept.1 q))
                (r.small q h);
        })
        none_lost
  images-IsEvent (turn p ∷ es) a each r none_lost = (
    each.0,
    images-IsEvent es (step bus board bank boxes inputs (turn p) a) each.1
        (record { plain = r.plain; small = r.small }) none_lost,
  )
  images-IsEvent (send ∷ es) a each r none_lost = (
    tt,
    images-IsEvent es (step bus board bank boxes inputs send a) each.1
        (record { plain = r.plain; small = r.small }) none_lost,
  )
  images-IsEvent (take ∷ es) a each r none_lost = (
    tt,
    images-IsEvent es (step bus board bank boxes inputs take a) each.1
        (record { plain = r.plain; small = r.small }) none_lost,
  )

  module _ (es : List (Event bus board bank boxes)) (a : Here)
      (each : Each (IsEvent bus board bank boxes) es) (valid : IsValid a.path.rx)
      (ready : IsReady a) (none_lost : overruns bus board bank boxes inputs es a ≡ 0)
      (none_dropped : overflows (run bus board bank boxes inputs es a).path ≡ 0) where
    abbrev came : ℕ → List ℕ
    came q = arrivals board q (images bus board bank boxes inputs es a) a.path

    -- From a valid state whose receivers hold bytes, DLAB clear, over any sequence of bytes on the
    -- wires, capture interrupts on the chips, other uses of the bus that leave receivers and DLAB as
    -- they are, turns, sends and reads: if no byte came while its receiver held one, and the overflow
    -- counter stands at zero at the end, then at every port the byte that stood in the receiver and
    -- the bytes that came over the wire are, in their order, those that entered the receive path and
    -- the one that stands in the receiver; and the path carried what entered it, as `Flow` says.
    pub run-Carried :
        Flow came a.path (run bus board bank boxes inputs es a).path
        × ((q : ℕ)
            → q < 8
            → now q a ++ wire bus board bank boxes q es
              ≡ came q ++ now q (run bus board bank boxes inputs es a))
    run-Carried =
        let same = path-run bus board bank boxes inputs es a in
        (
          subst (Flow came a.path) (sym same) (
              run-Flow board (images bus board bank boxes inputs es a) a.path
                (images-IsEvent es a each ready none_lost) valid
                (sym (ap overflows same) ∙ none_dropped)),
          λ q h. ledger bus board bank boxes inputs full all q es a h each ready.plain none_lost,
        )

    -- The host has read nothing and nothing is on its way; then, in any order, bytes come over the
    -- wires, those at port `p` the bytes of these messages, the capture interrupt runs on the chips,
    -- the program uses the bus, and the loops and the host take their steps. No byte finds its receiver
    -- full, the receiver of port `p` holds none before and at the end, and the overflow counter stands
    -- at zero. Then 186 passes of the pump, the host reading EP2-IN behind each, bring it to this, that
    -- the packets of cable `p` in what it has read are those of the messages, in their order.
    pub of_cable-wire :
        (p : ℕ) (ms : List Message)
        → p < 8
        → a.path.host ≡ []
        → IsClear a.path.rx
        → now p a ≡ []
        → now p (run bus board bank boxes inputs es a) ≡ []
        → wire bus board bank boxes p es ≡ concat_map Messages.wire ms
        → Each IsMessage ms
        → of_cable p (
            deframe (RxPath.run board (polls 186) (run bus board bank boxes inputs es a).path).host)
          ≡ concat_map packets ms
    of_cable-wire p ms h unread clear before after came_here meant =
        let same = path-run bus board bank boxes inputs es a in
        ap (λ s. of_cable p (deframe (RxPath.run board (polls 186) s).host)) same
        ∙ of_cable-polls board (images bus board bank boxes inputs es a) a.path p ms h
            (images-IsEvent es a each ready none_lost) valid unread clear
            (sym (append-nil (came p))
              ∙ ap (λ l. came p ++ l) (sym after)
              ∙ sym (run-Carried.1 p h)
              ∙ ap (λ l. l ++ wire bus board bank boxes p es) before
              ∙ came_here)
            meant (sym (ap overflows same) ∙ none_dropped)
