-- ===== src/Wire/Both/Access.antt =====
-- What the one side does to the bus leaves what the other side looks at.
use mathlib.Core.Path.{subst}
use midex_class_firmware.Base.{
  ℕ, ◌+◌, ◌<◌, ◌≤◌, ◌≡◌, ◌∙◌, sym, ap, refl, Bool-cases, inl, inr, ◌==◌, ltb, if◌then◌else◌,
  has_bit, for_ports_inv, List, [], ◌∷◌, Each, arith,
}
use midex_class_firmware.Config.{Board}
use midex_class_firmware.UartExt.{Bus, uart_reg, uart_lsr, uart_ext_tx_ready, uart_ext_putc}
use midex_class_firmware.UartExt.Bank.{Bank}
use midex_class_firmware.Uart.Direct.{look, direct_rx_isr-shown}
use midex_class_firmware.Uart.Emptied.{Inboxes, IsPlain}
use midex_class_firmware.Bridge.{Tx, pump_port, uart_tx_pump}
use midex_class_firmware.Dispatch.{uart_tx_ready, uart_putc}
use midex_class_firmware.Dispatch.Interface.{Uarts, dispatcher, ask, give}
use midex_class_firmware.RxPath.{sweeps}
use midex_class_firmware.Wire
use midex_class_firmware.Wire.{Inputs}
use midex_class_firmware.Wire.Time.{untimed}
use midex_class_firmware.Wire.Transmit
use midex_class_firmware.Wire.Transmit.{Outboxes, gone}
use midex_class_firmware.Wire.Transmit.Sending.{which, external}
use midex_class_firmware.Wire.Transmit.Account.{gone-IsPlain}
use midex_class_firmware.Wire.Both.{
  Duplex, Machine, Event, byte, isr, turn, send, take, host, bridge, pump, leave, IsEvent,
  AreEvents, step, pumped, swept, in_view, out_view, ins, outs_of,
}

module _ (bus : Bus) (board : Board) (bank : Bank bus board) (boxes : Inboxes bus board bank)
    (inputs : Inputs bus board bank boxes) (outs : Outboxes bus board bank)
    (duplex : Duplex bus board bank boxes inputs outs)
    (full : board.onchip_port_first + (if board.has_onchip_uart then 2 else 0) ≡ 8)
    (all : board.onchip_port_first ≤ board.num_ext_ports) where
  abbrev Plain : bus.State → Type 0
  Plain = IsPlain bus board bank boxes

  -- DLAB is clear, and the receivers are those of `s`; or the transmitters.
  abbrev Heard : bus.State → bus.State → Type 0
  Heard s t = Plain t × ((q : ℕ) → boxes.inbox t q ≡ boxes.inbox s q)

  abbrev Held : bus.State → bus.State → Type 0
  Held s t = Plain t × ((q : ℕ) → outs.outbox t q ≡ outs.outbox s q)

  ask-Heard :
      (s : bus.State) (p : ℕ) (u : Uarts bus board)
      → p < 8
      → Heard s u.uarts.0
      → Heard s (ask bus board p u).1.uarts.0
  unfolding uart_tx_ready uart_ext_tx_ready
  ask-Heard s p u h v = elim (which bus board bank outs full all p h) [
    | inr e ↦ rw e.1 v
    | inl e ↦
        let l = external bus board bank outs full all p e.0 in
        rw e.1 (
          λ q k. ap (has_bit 0x80) (boxes.lsr_lcr p q u.uarts.0 l) ∙ v.0 q k,
          λ q. boxes.lsr_keeps p q u.uarts.0 l ∙ v.1 q,
        )
  ]

  give-Heard :
      (s : bus.State) (p b : ℕ) (u : Uarts bus board)
      → p < 8
      → Heard s u.uarts.0
      → Heard s (give bus board p b u).uarts.0
  unfolding uart_putc uart_ext_putc
  give-Heard s p b u h v = elim (which bus board bank outs full all p h) [
    | inr e ↦ rw e.1 v
    | inl e ↦
        let l = external bus board bank outs full all p e.0 in
        rw e.1 (
          λ q k. ap (has_bit 0x80) (outs.thr_lcr p q b u.uarts.0 l (v.0 p l)) ∙ v.0 q k,
          λ q. duplex.thr_inbox p q b u.uarts.0 l (v.0 p l) ∙ v.1 q,
        )
  ]

  round-Heard :
      (s : bus.State) (p : ℕ) (a : Tx × Uarts bus board)
      → p < 8
      → Heard s a.1.uarts.0
      → Heard s (pump_port (dispatcher bus board) p a).1.uarts.0
  unfolding pump_port
  round-Heard s p (t, u) h v = elim (Bool-cases (t.tx_head p == t.tx_tail p)) [
    | inl e ↦ rw e v
    | inr e ↦ elim (Bool-cases (ask bus board p u).0) [
      | inr r ↦ rw (e, r) (ask-Heard s p u h v)
      | inl r ↦
          rw (e, r)
            (give-Heard s p (t.tx_ring p (t.tx_tail p)) (ask bus board p u).1 h
              (ask-Heard s p u h v))
    ]
  ]

  -- The pump is but another use of the bus to the receive side.
  pumped-IsAccess :
      (a : Machine bus board bank boxes inputs outs)
      → Wire.IsAccess bus board bank boxes (pumped bus board bank boxes inputs outs a)
  unfolding uart_tx_pump
  pumped-IsAccess a s plain =
      for_ports_inv (pump_port (dispatcher bus board)) (λ b. Heard s b.1.uarts.0) 8
        (a.tx, record { uarts = (s, a.onchip); given = a.given }) (λ p b h v. round-Heard s p b h v)
        (plain, λ q. refl)

  gone-IsAccess :
      (p : ℕ) (a : Machine bus board bank boxes inputs outs)
      → Wire.IsAccess bus board bank boxes (λ s. (gone bus board bank outs p (s, a.onchip)).0)
  gone-IsAccess p a s plain = (
    gone-IsPlain bus board bank outs full all p (s, a.onchip) plain,
    λ q. elim (Bool-cases (ltb p board.onchip_port_first)) [
      | inl e ↦ rw e (duplex.leave_inbox p q s (external bus board bank outs full all p e))
      | inr e ↦ elim (Bool-cases (p == board.onchip_port_first)) [
        | inl f ↦ simp (e, f) refl
        | inr f ↦ simp (e, f) refl
      ]
    ],
  )

  look-Held :
      (s : bus.State) (p : ℕ) (t : bus.State)
      → p < board.num_ext_ports
      → Held s t
      → Held s (look bus board p t)
  unfolding look
  look-Held s p t h v =
      let u = (bus.read (uart_reg board p uart_lsr) t).1 in
      let plain : Plain u = λ q k. ap (has_bit 0x80) (boxes.lsr_lcr p q t h) ∙ v.0 q k in
      let same : (q : ℕ) → outs.outbox u q ≡ outs.outbox s q =
        λ q. outs.lsr_keeps p q t h ∙ v.1 q in
      elim (Bool-cases (has_bit 0x01 (bus.read (uart_reg board p uart_lsr) t).0)) [
        | inr e ↦ rw e (plain, same)
        | inl e ↦ rw e (
          λ q k. ap (has_bit 0x80) (boxes.rhr_lcr p q u h) ∙ plain q k,
          λ q. duplex.rhr_outbox p q u h ∙ same q,
        )
      ]

  -- The capture interrupt is but another use of the bus to the transmit side.
  swept-Held :
      (a : Machine bus board bank boxes inputs outs) (s : bus.State)
      → Plain s
      → Held s (swept bus board bank boxes inputs outs a s)
  swept-Held a s plain =
      subst (λ w. Held s w.1.0)
        (sym (direct_rx_isr-shown bus board a.path.rx.capture s a.receivers))
        (elim (Bool-cases (sweeps a.path.rx.capture)) [
          | inr e ↦ rw e (plain, λ q. refl)
          | inl e ↦ rw e (
              for_ports_inv (look bus board) (Held s) board.onchip_port_first s
                (λ p t h v. look-Held s p t (omega (arith, h, all)) v) (plain, λ q. refl))
        ])

  delivered-Held :
      (p b : ℕ) (s : bus.State)
      → Plain s
      → Held s (if ltb p board.onchip_port_first then inputs.deliver p b s else s)
  delivered-Held p b s plain = elim (Bool-cases (ltb p board.onchip_port_first)) [
    | inr e ↦ rw e (plain, λ q. refl)
    | inl e ↦
        let l = external bus board bank outs full all p e in
        rw e (
          λ q k. ap (has_bit 0x80) (inputs.deliver_lcr p q b s l) ∙ plain q k,
          λ q. duplex.deliver_outbox p q b s l,
        )
  ]

  abbrev Whole : Type 0
  Whole = Machine bus board bank boxes inputs outs

  abbrev Happens : Type 0
  Happens = Event bus board bank boxes inputs outs

  in_view-IsEvent :
      (e : Happens) (a : Whole)
      → IsEvent bus board bank boxes inputs outs e
      → Wire.IsEvent bus board bank boxes (in_view bus board bank boxes inputs outs e a)
  in_view-IsEvent (byte p b) a i = i
  in_view-IsEvent isr a i = tt
  in_view-IsEvent (turn p) a i = i
  in_view-IsEvent send a i = tt
  in_view-IsEvent take a i = tt
  in_view-IsEvent (host buf n h) a i = λ s plain. (plain, λ q. refl)
  in_view-IsEvent bridge a i = λ s plain. (plain, λ q. refl)
  in_view-IsEvent pump a i = pumped-IsAccess a
  in_view-IsEvent (leave p) a i = gone-IsAccess p a

  out_view-IsEvent :
      (e : Happens) (a : Whole)
      → IsEvent bus board bank boxes inputs outs e
      → Transmit.IsEvent bus board bank outs (out_view bus board bank boxes inputs outs e a)
  out_view-IsEvent (byte p b) a i = λ s plain. delivered-Held p b s plain
  out_view-IsEvent isr a i = λ s plain. swept-Held a s plain
  out_view-IsEvent (turn p) a i = λ s plain. (plain, λ q. refl)
  out_view-IsEvent send a i = λ s plain. (plain, λ q. refl)
  out_view-IsEvent take a i = λ s plain. (plain, λ q. refl)
  out_view-IsEvent (host buf n h) a i = tt
  out_view-IsEvent bridge a i = tt
  out_view-IsEvent pump a i = tt
  out_view-IsEvent (leave p) a i = i

  pub ins-IsEvent :
      (es : List (ℕ × Happens)) (a : Whole)
      → AreEvents bus board bank boxes inputs outs es
      → Each
          (Wire.IsEvent bus board bank boxes)
          (untimed bus board bank boxes (ins bus board bank boxes inputs outs es a))
  unfolding ins
  ins-IsEvent [] a i = tt
  ins-IsEvent ((t, e) ∷ es) a i =
      (in_view-IsEvent e a i.0, ins-IsEvent es (step bus board bank boxes inputs outs e a) i.1)

  pub outs_of-IsEvent :
      (es : List (ℕ × Happens)) (a : Whole)
      → AreEvents bus board bank boxes inputs outs es
      → Each (Transmit.IsEvent bus board bank outs) (outs_of bus board bank boxes inputs outs es a)
  unfolding outs_of
  outs_of-IsEvent [] a i = tt
  outs_of-IsEvent ((t, e) ∷ es) a i =
      (out_view-IsEvent e a i.0, outs_of-IsEvent es (step bus board bank boxes inputs outs e a) i.1)
