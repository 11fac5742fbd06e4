-- ===== src/Wire/Ledger.antt =====
-- What comes over the wires, byte by byte, until it stands in a FIFO.
use midex_class_firmware.Base.{
  ℕ, ◌+◌, ◌<◌, ◌≤◌, ◌≡◌, ◌∙◌, sym, ap, refl, ==_iff, ne_of_==, Bool-cases, true, inl, inr, ◌==◌,
  if◌then◌else◌, Option-cases, none, List, [], ◌∷◌, ◌++◌, Each, append_assoc, append-nil, arith,
}
use midex_class_firmware.Config.{Board}
use midex_class_firmware.UartExt.{Bus}
use midex_class_firmware.UartExt.Bank.{Bank}
use midex_class_firmware.Uart.Direct.{shown}
use midex_class_firmware.Uart.Emptied.{Inboxes, IsPlain, found-pending}
use midex_class_firmware.Uart.Lossless
use midex_class_firmware.RxPath
use midex_class_firmware.RxPath.{System, sweeps, arrivals}
use midex_class_firmware.Wire.{
  Inputs, Wired, Event, byte, isr, access, turn, send, take, IsEvent, held, step, run, overruns,
  images, wire,
}
use midex_class_firmware.Wire.Receiving.{
  pending-inbox, isr_path, held-byte, held-byte_apart, isr_swept, isr_skipped, isr-IsPlain,
  step-IsPlain,
}

module _ (bus : Bus) (board : Board) (bank : Bank bus board) (boxes : Inboxes bus board bank)
    (inputs : Inputs bus board bank boxes) where
  abbrev Here : Type 0
  Here = Wired bus board bank boxes

  module _ (full : board.onchip_port_first + (if board.has_onchip_uart then 2 else 0) ≡ 8)
      (all : board.onchip_port_first ≤ board.num_ext_ports) where
    abbrev pub there : ℕ → Here → List ℕ
    there q a = Lossless.shown (held bus board bank boxes a q)

    -- What stands in a receiver under an interrupt is shown to it, or stands there still.
    isr-there :
        (q : ℕ) (a : Here)
        → IsPlain bus board bank boxes a.chips
        → there q a
          ≡ RxPath.arrival board q (RxPath.tick (shown bus board a.chips a.receivers)) a.path
            ++ there q (step bus board bank boxes inputs isr a)
    isr-there q a plain = elim (Bool-cases (sweeps a.path.rx.capture)) [
      | inl e ↦
          rw
            (
              e,
              isr_swept bus board bank boxes inputs full all q a plain e,
              found-pending bus board bank boxes q a.chips a.receivers all plain,
            )
            (sym (append-nil (there q a)))
      | inr e ↦ rw (e, isr_skipped bus board bank boxes inputs full all q a e) refl
    ]

    -- A byte that is not lost finds its receiver empty.
    pub lost_none :
        (p b : ℕ) (es : List (Event bus board bank boxes)) (a : Here)
        → overruns bus board bank boxes inputs (byte p b ∷ es) a ≡ 0
        → (held bus board bank boxes a p ≡ none)
          × (overruns bus board bank boxes inputs es (step bus board bank boxes inputs (byte p b) a)
              ≡ 0)
    unfolding overruns
    lost_none p b es a h = elim (Option-cases (held bus board bank boxes a p)) [
      | inl e ↦ (e, rw e at h)
      | inr (x, e) ↦ absurd (omega (arith, (rw e at h)))
    ]

    came_own :
        (q p b : ℕ) (es : List (Event bus board bank boxes)) (a : Here)
        → p < 8
        → (q == p) ≡ true
        → held bus board bank boxes a p ≡ none
        → there q a ++ b ∷ wire bus board bank boxes q es
          ≡ there q (step bus board bank boxes inputs (byte p b) a)
            ++ wire bus board bank boxes q es
    came_own q p b es a h e clear =
        let same : q ≡ p = (==_iff q p).0 e in
        rw (same, clear, held-byte bus board bank boxes inputs full all p b a h clear) refl

    -- At port `q`, what stood in the receiver and what came over the wire is what the sweeps found,
    -- and what stands in the receiver.
    pub ledger :
        (q : ℕ) (es : List (Event bus board bank boxes)) (a : Here)
        → q < 8
        → Each (IsEvent bus board bank boxes) es
        → IsPlain bus board bank boxes a.chips
        → overruns bus board bank boxes inputs es a ≡ 0
        → there q a ++ wire bus board bank boxes q es
          ≡ arrivals board q (images bus board bank boxes inputs es a) a.path
            ++ there q (run bus board bank boxes inputs es a)
    unfolding run images wire overruns arrivals step
    ledger q [] a h each plain none_lost = append-nil (there q a)
    ledger q (byte p b ∷ es) a h each plain none_lost =
        let t = step bus board bank boxes inputs (byte p b) a in
        let clear = lost_none p b es a none_lost in
        let rest =
          ledger q es t h each.1
            (step-IsPlain bus board bank boxes inputs full all (byte p b) a each.0 plain) clear.1 in
        elim (Bool-cases (q == p)) [
          | inl e ↦ rw e (came_own q p b es a each.0.0 e clear.0 ∙ rest)
          | inr e ↦ rw e (
              ap (λ o. Lossless.shown o ++ wire bus board bank boxes q es)
                (sym (
                  held-byte_apart bus board bank boxes inputs full all p q b a each.0.0 h
                    (ne_of_== q p e)))
              ∙ rest)
        ]
    ledger q (isr ∷ es) a h each plain none_lost =
        let t = step bus board bank boxes inputs isr a in
        let found_here =
          RxPath.arrival board q (RxPath.tick (shown bus board a.chips a.receivers)) a.path in
        let more = arrivals board q (images bus board bank boxes inputs es t) t.path in
        let last = there q (run bus board bank boxes inputs es t) in
        ap (λ l. l ++ wire bus board bank boxes q es) (isr-there q a plain)
        ∙ append_assoc found_here (there q t) (wire bus board bank boxes q es)
        ∙ ap (λ l. found_here ++ l)
            (ledger q es t h each.1 (isr-IsPlain bus board bank boxes inputs full all a plain)
              none_lost)
        ∙ sym (append_assoc found_here more last)
        ∙ ap
            (λ c.
              (found_here ++ arrivals board q (images bus board bank boxes inputs es t) c) ++ last)
            (isr_path bus board bank boxes inputs a)
    ledger q (access f ∷ es) a h each plain none_lost =
        let t = step bus board bank boxes inputs (access f) a in
        let kept = each.0 a.chips plain in
        ap (λ o. Lossless.shown o ++ wire bus board bank boxes q es)
          (sym (
            pending-inbox bus board bank boxes inputs q (f a.chips) a.chips a.receivers (kept.1 q)))
        ∙ ledger q es t h each.1 kept.0 none_lost
    ledger q (turn p ∷ es) a h each plain none_lost =
        ledger q es (step bus board bank boxes inputs (turn p) a) h each.1 plain none_lost
    ledger q (send ∷ es) a h each plain none_lost =
        ledger q es (step bus board bank boxes inputs send a) h each.1 plain none_lost
    ledger q (take ∷ es) a h each plain none_lost =
        ledger q es (step bus board bank boxes inputs take a) h each.1 plain none_lost
