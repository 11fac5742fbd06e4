-- ===== src/Wire/Transmit/Account.antt =====
-- From the host to the wires: every byte, over any sequence of steps.
use native.Mathlib.Decide.{ℕ_discrete}
use midex_class_firmware.Base.{
  ℕ, ◌+◌, ◌<◌, ◌≤◌, ◌≡◌, ◌≢◌, ◌∙◌, sym, ap, refl, Bool-cases, inl, inr, ◌==◌, ltb, if◌then◌else◌,
  has_bit, none, List, [], ◌∷◌, ◌++◌, map, Each, append-nil, write_self, write_ne,
}
use midex_class_firmware.Config.{Board}
use midex_class_firmware.UartExt.{Bus}
use midex_class_firmware.UartExt.Bank.{Bank}
use midex_class_firmware.UartOnchip.{Onchip}
use midex_class_firmware.Uart.Lossless.{shown}
use midex_class_firmware.Bridge.{Tx}
use midex_class_firmware.Bridge.Queue.{queue}
use midex_class_firmware.Bridge.Endpoint.{left}
use midex_class_firmware.Bridge.Stream.{act, account, gifts, IsSound, run-account}
use midex_class_firmware.Bridge.Stream
use midex_class_firmware.Dispatch.Interface.{Uarts, dispatcher}
use midex_class_firmware.Wire.Transmit.{
  Outboxes, IsPlain, holding, gone, Lined, Event, host, bridge, pump, leave, access, IsEvent, image,
  step, run, on_way,
}
use midex_class_firmware.Wire.Transmit.Sending.{
  Agrees, holding-outbox, external, one_first, pump-Agrees,
}

module _ (bus : Bus) (board : Board) (bank : Bank bus board) (outs : Outboxes bus board bank)
    (full : board.onchip_port_first + (if board.has_onchip_uart then 2 else 0) ≡ 8)
    (all : board.onchip_port_first ≤ board.num_ext_ports) where
  gone_own :
      (p : ℕ) (w : bus.State × Onchip)
      → holding bus board bank outs (gone bus board bank outs p w) p ≡ none
  gone_own p (s, o) = elim (Bool-cases (ltb p board.onchip_port_first)) [
    | inl e ↦ rw e (outs.leave_own p s (external bus board bank outs full all p e))
    | inr e ↦ elim (Bool-cases (p == board.onchip_port_first)) [
      | inl f ↦ simp (e, f) refl
      | inr f ↦ simp (e, f) refl
    ]
  ]

  gone_apart :
      (p q : ℕ) (w : bus.State × Onchip)
      → p < 8
      → q < 8
      → q ≢ p
      → holding bus board bank outs (gone bus board bank outs p w) q
        ≡ holding bus board bank outs w q
  gone_apart p q (s, o) h l n = elim (Bool-cases (ltb p board.onchip_port_first)) [
    | inl e ↦ rw e (
        holding-outbox bus board bank outs q _ s o
          (outs.leave_apart p q s (external bus board bank outs full all p e) n))
    | inr e ↦ elim (Bool-cases (ltb q board.onchip_port_first)) [
      | inl g ↦ elim (Bool-cases (p == board.onchip_port_first)) [
        | inl f ↦ simp (e, g, f) refl
        | inr f ↦ simp (e, g, f) refl
      ]
      | inr g ↦
          let k = one_first bus board bank outs full all p q h l n e g in
          elim (Bool-cases (p == board.onchip_port_first)) [
            | inl f ↦ simp (e, g, f, k) refl
            | inr f ↦ simp (e, g, f, k) refl
          ]
    ]
  ]

  pub gone-IsPlain :
      (p : ℕ) (w : bus.State × Onchip)
      → IsPlain bus board bank outs w.0
      → IsPlain bus board bank outs (gone bus board bank outs p w).0
  gone-IsPlain p (s, o) plain = elim (Bool-cases (ltb p board.onchip_port_first)) [
    | inl e ↦ rw e (λ q l.
        ap (has_bit 0x80) (outs.leave_lcr p q s (external bus board bank outs full all p e))
        ∙ plain q l)
    | inr e ↦ elim (Bool-cases (p == board.onchip_port_first)) [
      | inl f ↦ simp (e, f) plain
      | inr f ↦ simp (e, f) plain
    ]
  ]

  abbrev Ok : Lined bus board bank outs → Type 0
  Ok a = Agrees bus board bank outs a.lines a.uarts

  gone-Agrees :
      (p : ℕ) (a : Lined bus board bank outs)
      → p < 8
      → Ok a
      → Ok (step bus board bank outs (leave p) a)
  unfolding step act
  gone-Agrees p a h v = record {
    plain = gone-IsPlain p a.uarts.uarts v.plain;
    told = λ q l. elim (ℕ_discrete q p) [
      | yes e ↦
          rw
            (
              e,
              gone_own p a.uarts.uarts,
              write_self a.lines p
                  (a.lines p ++ shown (holding bus board bank outs a.uarts.uarts p)),
            )
            (v.told p h
              ∙ sym (append-nil (a.lines p ++ shown (holding bus board bank outs a.uarts.uarts p))))
      | no n ↦
          rw
            (
              gone_apart p q a.uarts.uarts h l n,
              write_ne a.lines p q
                  (a.lines p ++ shown (holding bus board bank outs a.uarts.uarts p)) n,
            )
            (v.told q l)
    ];
  }

  step-Agrees :
      (e : Event bus board bank outs) (a : Lined bus board bank outs)
      → IsEvent bus board bank outs e
      → Ok a
      → Ok (step bus board bank outs e a)
  unfolding step act
  step-Agrees (host buf n h) a i v = v
  step-Agrees bridge a i v = v
  step-Agrees pump a i v = pump-Agrees bus board bank outs full all a.lines (a.tx, a.uarts) v
  step-Agrees (leave p) a i v = gone-Agrees p a i v
  step-Agrees (access f) a i v =
      let kept = i a.uarts.uarts.0 v.plain in
      record {
        plain = kept.0;
        told = λ q l.
            v.told q l
            ∙ ap (λ o. a.lines q ++ shown o)
                (sym (
                  holding-outbox bus board bank outs q _ a.uarts.uarts.0 a.uarts.uarts.1
                    (kept.1 q)));
      }

  run-Agrees :
      (es : List (Event bus board bank outs)) (a : Lined bus board bank outs)
      → Each (IsEvent bus board bank outs) es
      → Ok a
      → Ok (run bus board bank outs es a)
  unfolding run
  run-Agrees [] a i v = v
  run-Agrees (e ∷ es) a i v =
      run-Agrees es (step bus board bank outs e a) i.1 (step-Agrees e a i.0 v)

  abbrev bridged : Lined bus board bank outs → Tx × Uarts bus board
  bridged a = (a.tx, a.uarts)

  run-bridged :
      (es : List (Event bus board bank outs)) (a : Lined bus board bank outs)
      → bridged (run bus board bank outs es a)
        ≡ Stream.run (dispatcher bus board) (map (image bus board bank outs) es) (bridged a)
  unfolding run step Stream.run
  run-bridged [] a = refl
  run-bridged (e ∷ es) a = run-bridged es (step bus board bank outs e a)

  told_lem :
      (p : ℕ) (a : Lined bus board bank outs)
      → p < 8
      → Ok a
      → account (dispatcher bus board) p (bridged a) ≡ on_way bus board bank outs p a
  told_lem p a h v = ap (λ g. (g ++ queue a.tx p) ++ left p a.tx) (v.told p h)

  pub run-on_way :
      (p : ℕ) (es : List (Event bus board bank outs)) (a : Lined bus board bank outs)
      → p < 8
      → Each (IsEvent bus board bank outs) es
      → IsSound (dispatcher bus board) a.tx
      → Agrees bus board bank outs a.lines a.uarts
      → on_way bus board bank outs p (run bus board bank outs es a)
        ≡ on_way bus board bank outs p a
          ++ gifts (dispatcher bus board) p (map (image bus board bank outs) es) (a.tx, a.uarts)
  run-on_way p es a h i sound v =
      let xs = map (image bus board bank outs) es in
      sym (told_lem p (run bus board bank outs es a) h (run-Agrees es a i v))
      ∙ ap (account (dispatcher bus board) p) (run-bridged es a)
      ∙ run-account (dispatcher bus board) p xs (bridged a) h sound
      ∙ ap (λ l. l ++ gifts (dispatcher bus board) p xs (bridged a)) (told_lem p a h v)
