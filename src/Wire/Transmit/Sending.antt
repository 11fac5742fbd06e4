-- ===== src/Wire/Transmit/Sending.antt =====
-- What the transmitters do with the bytes that the pump gives them.
use mathlib.Core.Path.{subst}
use native.Mathlib.Decide.{ℕ_discrete}
use midex_class_firmware.Base.{
  ℕ, ◌+◌, ◌<◌, ◌≤◌, ◌≡◌, ◌≢◌, ◌⊎◌, ◌∙◌, sym, ap, refl, Bool-cases, true, false, not, inl, inr, ◌&&◌,
  leb, ◌==◌, ltb, ltb→lt, if◌then◌else◌, has_bit, none, some, List, [], ◌∷◌, ◌++◌, append-nil,
  write, write_self, write_ne, for_ports_inv, arith,
}
use midex_class_firmware.Config.{Board}
use midex_class_firmware.UartExt.{Bus, uart_ext_tx_ready, uart_ext_putc}
use midex_class_firmware.UartExt.Bank.{Bank}
use midex_class_firmware.UartOnchip.{Onchip, uart_onchip_tx_ready, uart_onchip_putc}
use midex_class_firmware.Uart.Lossless.{shown}
use midex_class_firmware.Bridge.{Tx, pump_port, uart_tx_pump}
use midex_class_firmware.Dispatch.{uart_tx_ready, uart_putc}
use midex_class_firmware.Dispatch.Interface.{Uarts, dispatcher, ask, give}
use midex_class_firmware.Wire.Transmit.{Outboxes, IsPlain, holding}

module _ (bus : Bus) (board : Board) (bank : Bank bus board) (outs : Outboxes bus board bank) where
  pub holding-outbox :
      (p : ℕ) (s t : bus.State) (o : Onchip)
      → outs.outbox s p ≡ outs.outbox t p
      → holding bus board bank outs (s, o) p ≡ holding bus board bank outs (t, o) p
  holding-outbox p s t o h = elim (Bool-cases (ltb p board.onchip_port_first)) [
    | inl e ↦ rw e h
    | inr e ↦ rw e refl
  ]

  -- What was given to each port is what its wire has carried and what its transmitter holds.
  pub record Agrees (lines : ℕ → List ℕ) (u : Uarts bus board) : Type 0 where
    pub plain : IsPlain bus board bank outs u.uarts.0
    pub told :
        (p : ℕ) → p < 8 → u.given p ≡ lines p ++ shown (holding bus board bank outs u.uarts p)

  module _ (full : board.onchip_port_first + (if board.has_onchip_uart then 2 else 0) ≡ 8)
      (all : board.onchip_port_first ≤ board.num_ext_ports) where
    -- A port is an external channel or an on-chip UART, for the dispatcher too.
    pub which :
        (p : ℕ)
        → p < 8
        → ((ltb p board.onchip_port_first ≡ true)
            × ((board.has_onchip_uart && leb board.onchip_port_first p) ≡ false))
          ⊎ ((ltb p board.onchip_port_first ≡ false)
              × ((board.has_onchip_uart && leb board.onchip_port_first p) ≡ true))
    which p h = elim (Bool-cases (ltb p board.onchip_port_first)) [
      | inl e ↦ inl (e, ground arith)
      | inr e ↦ inr (e, ground arith)
    ]

    pub external : (p : ℕ) → ltb p board.onchip_port_first ≡ true → p < board.num_ext_ports
    external p e = omega (arith, all, ltb→lt p board.onchip_port_first e)

    -- The test of a port leaves what stands there.
    ask-Agrees :
        (lines : ℕ → List ℕ) (p : ℕ) (u : Uarts bus board)
        → p < 8
        → Agrees lines u
        → Agrees lines (ask bus board p u).1
    unfolding uart_tx_ready uart_ext_tx_ready
    ask-Agrees lines p u h v = elim (which p h) [
      | inr e ↦ rw e.1 (record { plain = v.plain; told = v.told })
      | inl e ↦ rw e.1 (record {
        plain =
            λ q l. ap (has_bit 0x80) (outs.lsr_lcr p q u.uarts.0 (external p e.0)) ∙ v.plain q l;
        told = λ q l.
            v.told q l
            ∙ ap (λ o. lines q ++ shown o)
                (sym (
                  holding-outbox q _ u.uarts.0 u.uarts.1
                    (outs.lsr_keeps p q u.uarts.0 (external p e.0))));
      })
    ]

    -- A port that is ready holds no byte.
    ask_free :
        (p : ℕ) (u : Uarts bus board)
        → p < 8
        → (ask bus board p u).0 ≡ true
        → holding bus board bank outs (ask bus board p u).1.uarts p ≡ none
    unfolding uart_tx_ready uart_ext_tx_ready uart_onchip_tx_ready
    ask_free p u h ready = elim (which p h) [
      | inl e ↦
          rw (e.1, e.0)
            (outs.lsr_keeps p p u.uarts.0 (external p e.0)
              ∙ outs.lsr_free p u.uarts.0 (external p e.0) (rw e.1 at ready))
      | inr e ↦ elim (Bool-cases (p == board.onchip_port_first)) [
        | inl f ↦
            let set : u.uarts.1.ti_0 ≡ true = simp (e.1, f) at ready in simp (e.1, e.0, f, set) refl
        | inr f ↦
            let set : u.uarts.1.ti_1 ≡ true = simp (e.1, f) at ready in simp (e.1, e.0, f, set) refl
      ]
    ]

    putc_own :
        (p b : ℕ) (w : bus.State × Onchip)
        → p < 8
        → IsPlain bus board bank outs w.0
        → holding bus board bank outs w p ≡ none
        → holding bus board bank outs (uart_putc bus board p b w) p ≡ some b
    unfolding uart_putc uart_ext_putc uart_onchip_putc
    putc_own p b (s, o) h plain free = elim (which p h) [
      | inl e ↦
          rw (e.1, e.0)
            (outs.thr_takes p b s (external p e.0) (plain p (external p e.0)) (rw e.0 at free))
      | inr e ↦ elim (Bool-cases (p == board.onchip_port_first)) [
        | inl f ↦ simp (e.1, e.0, f) refl
        | inr f ↦ simp (e.1, e.0, f) refl
      ]
    ]

    -- Two on-chip ports, of which one is the first.
    pub one_first :
        (p q : ℕ)
        → p < 8
        → q < 8
        → q ≢ p
        → ltb p board.onchip_port_first ≡ false
        → ltb q board.onchip_port_first ≡ false
        → (q == board.onchip_port_first) ≡ not (p == board.onchip_port_first)
    one_first p q h l n e f = elim (Bool-cases board.has_onchip_uart) [
      | inr o ↦ absurd (ground arith)
      | inl o ↦ elim (Bool-cases (p == board.onchip_port_first)) [
        | inl g ↦ rw g (ground arith)
        | inr g ↦ rw g (ground arith)
      ]
    ]

    putc_apart :
        (p q b : ℕ) (w : bus.State × Onchip)
        → p < 8
        → q < 8
        → q ≢ p
        → holding bus board bank outs (uart_putc bus board p b w) q
          ≡ holding bus board bank outs w q
    unfolding uart_putc uart_ext_putc uart_onchip_putc
    putc_apart p q b (s, o) h l n = elim (which p h) [
      | inl e ↦ rw e.1 (holding-outbox q _ s o (outs.thr_apart p q b s (external p e.0) n))
      | inr e ↦ elim (Bool-cases (ltb q board.onchip_port_first)) [
        | inl g ↦ simp (e.1, g) refl
        | inr g ↦
            let k = one_first p q h l n e.0 g in
            elim (Bool-cases (p == board.onchip_port_first)) [
              | inl f ↦ simp (e.1, g, f, k) refl
              | inr f ↦ simp (e.1, g, f, k) refl
            ]
      ]
    ]

    putc-IsPlain :
        (p b : ℕ) (w : bus.State × Onchip)
        → p < 8
        → IsPlain bus board bank outs w.0
        → IsPlain bus board bank outs (uart_putc bus board p b w).0
    unfolding uart_putc uart_ext_putc
    putc-IsPlain p b (s, o) h plain = elim (which p h) [
      | inl e ↦ rw e.1 (λ q l.
          ap (has_bit 0x80) (outs.thr_lcr p q b s (external p e.0) (plain p (external p e.0)))
          ∙ plain q l)
      | inr e ↦ rw e.1 plain
    ]

    -- A byte given to a port that holds none.
    give-Agrees :
        (lines : ℕ → List ℕ) (p b : ℕ) (u : Uarts bus board)
        → p < 8
        → holding bus board bank outs u.uarts p ≡ none
        → Agrees lines u
        → Agrees lines (give bus board p b u)
    give-Agrees lines p b u h free v = record {
      plain = putc-IsPlain p b u.uarts h v.plain;
      told = λ q l. elim (ℕ_discrete q p) [
        | yes e ↦
            subst
              (λ r.
                write u.given p (u.given p ++ b ∷ []) r
                ≡ lines r
                  ++ shown (holding bus board bank outs (uart_putc bus board p b u.uarts) r))
              (sym e)
              (write_self u.given p (u.given p ++ b ∷ [])
                ∙ ap (λ g. g ++ b ∷ [])
                    (v.told p h ∙ ap (λ o. lines p ++ shown o) free ∙ append-nil (lines p))
                ∙ sym (ap (λ o. lines p ++ shown o) (putc_own p b u.uarts h v.plain free)))
        | no n ↦
            write_ne u.given p q (u.given p ++ b ∷ []) n
            ∙ v.told q l
            ∙ ap (λ o. lines q ++ shown o) (sym (putc_apart p q b u.uarts h l n))
      ];
    }

    round-Agrees :
        (lines : ℕ → List ℕ) (p : ℕ) (a : Tx × Uarts bus board)
        → p < 8
        → Agrees lines a.1
        → Agrees lines (pump_port (dispatcher bus board) p a).1
    unfolding pump_port
    round-Agrees lines p (s, u) h v = elim (Bool-cases (s.tx_head p == s.tx_tail p)) [
      | inl e ↦ rw e v
      | inr e ↦ elim (Bool-cases (ask bus board p u).0) [
        | inr r ↦ rw (e, r) (ask-Agrees lines p u h v)
        | inl r ↦
            rw (e, r)
              (give-Agrees lines p (s.tx_ring p (s.tx_tail p)) (ask bus board p u).1 h
                (ask_free p u h r) (ask-Agrees lines p u h v))
      ]
    ]

    -- The pump overwrites no byte.
    pub pump-Agrees :
        (lines : ℕ → List ℕ) (a : Tx × Uarts bus board)
        → Agrees lines a.1
        → Agrees lines (uart_tx_pump (dispatcher bus board) a).1
    unfolding uart_tx_pump
    pump-Agrees lines a v =
        for_ports_inv (pump_port (dispatcher bus board)) (λ b. Agrees lines b.1) 8 a
          (λ p b h w. round-Agrees lines p b h w) v
