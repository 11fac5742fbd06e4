-- ===== src/Wire/Receiving.antt =====
-- What each step does to the receivers.
use mathlib.Core.Path.{subst}
use midex_class_firmware.Base.{
  ℕ, ◌+◌, ◌<◌, ◌≤◌, ◌≡◌, ◌≢◌, ◌∙◌, sym, ap, refl, Bool-cases, true, false, has_bit, inl, inr, ◌==◌,
  ltb, ltb→lt, if◌then◌else◌, none, some, for_ports, List, [], ◌∷◌, arith,
}
use midex_class_firmware.Config.{Board}
use midex_class_firmware.UartExt.{Bus}
use midex_class_firmware.UartExt.Bank.{Bank}
use midex_class_firmware.Uart.Direct.{Receivers, shown, served, look, direct_rx_isr-shown}
use midex_class_firmware.Uart.Emptied.{Inboxes, IsPlain, pending, pending-served, reads}
use midex_class_firmware.RxPath
use midex_class_firmware.RxPath.{System, sweeps, arrivals}
use midex_class_firmware.Wire.{
  Inputs, Wired, Event, byte, isr, access, turn, send, take, IsEvent, held, step, run, images,
}

module _ (bus : Bus) (board : Board) (bank : Bank bus board) (boxes : Inboxes bus board bank)
    (inputs : Inputs bus board bank boxes) where
  abbrev Here : Type 0
  Here = Wired bus board bank boxes

  pub pending-inbox :
      (p : ℕ) (s t : bus.State) (r : Receivers)
      → boxes.inbox s p ≡ boxes.inbox t p
      → pending bus board bank boxes (s, r) p ≡ pending bus board bank boxes (t, r) p
  pending-inbox p s t r h = elim (Bool-cases (ltb p board.onchip_port_first)) [
    | inl e ↦ rw e h
    | inr e ↦ rw e refl
  ]

  pub isr_path :
      (a : Here)
      → (step bus board bank boxes inputs isr a).path
        ≡ RxPath.step board (RxPath.tick (shown bus board a.chips a.receivers)) a.path
  unfolding step RxPath.step
  isr_path a =
      ap (λ w. record (a.path) { rx = record (a.path.rx) { capture = w.0 } })
        (direct_rx_isr-shown bus board a.path.rx.capture a.chips a.receivers)

  pub isr_left :
      (a : Here)
      → let b = step bus board bank boxes inputs isr a in
        let left : bus.State × Receivers = (b.chips, b.receivers) in
        left ≡ (
          if sweeps a.path.rx.capture
          then (
            for_ports (look bus board) board.onchip_port_first a.chips,
            served bus board a.receivers,
          )
          else (a.chips, a.receivers))
  unfolding step
  isr_left a = ap (λ w. w.1) (direct_rx_isr-shown bus board a.path.rx.capture a.chips a.receivers)

  pub path-run :
      (es : List (Event bus board bank boxes)) (a : Here)
      → (run bus board bank boxes inputs es a).path
        ≡ RxPath.run board (images bus board bank boxes inputs es a) a.path
  unfolding run step images RxPath.run
  path-run [] a = refl
  path-run (byte p b ∷ es) a = path-run es (step bus board bank boxes inputs (byte p b) a)
  path-run (isr ∷ es) a =
      let b = step bus board bank boxes inputs isr a in
      path-run es b ∙ ap (RxPath.run board (images bus board bank boxes inputs es b)) (isr_path a)
  path-run (access f ∷ es) a = path-run es (step bus board bank boxes inputs (access f) a)
  path-run (turn p ∷ es) a = path-run es (step bus board bank boxes inputs (turn p) a)
  path-run (send ∷ es) a = path-run es (step bus board bank boxes inputs send a)
  path-run (take ∷ es) a = path-run es (step bus board bank boxes inputs take a)

  module _ (full : board.onchip_port_first + (if board.has_onchip_uart then 2 else 0) ≡ 8)
      (all : board.onchip_port_first ≤ board.num_ext_ports) where
    pub held-byte :
        (p b : ℕ) (a : Here)
        → p < 8
        → held bus board bank boxes a p ≡ none
        → held bus board bank boxes (step bus board bank boxes inputs (byte p b) a) p ≡ some b
    unfolding step
    held-byte p b a h clear = elim (Bool-cases (ltb p board.onchip_port_first)) [
      | inl e ↦
          rw e (inputs.deliver_own p b a.chips (omega (arith, all, ltb→lt _ _ e)) (rw e at clear))
      | inr e ↦ elim (Bool-cases board.has_onchip_uart) [
        | inr f ↦ absurd (ground arith)
        | inl f ↦ elim (Bool-cases (p == board.onchip_port_first)) [
          | inl g ↦ simp (e, f, g) refl
          | inr g ↦
              let k : (p == board.onchip_port_first + 1) ≡ true = ground arith in
              simp (e, f, g, k) refl
        ]
      ]
    ]

    pub held-byte_apart :
        (p q b : ℕ) (a : Here)
        → p < 8
        → q < 8
        → q ≢ p
        → held bus board bank boxes (step bus board bank boxes inputs (byte p b) a) q
          ≡ held bus board bank boxes a q
    unfolding step
    held-byte_apart p q b a h l n = elim (Bool-cases (ltb p board.onchip_port_first)) [
      | inl e ↦ rw e (
          pending-inbox q (inputs.deliver p b a.chips) a.chips a.receivers
            (inputs.deliver_apart p q b a.chips (omega (arith, all, ltb→lt _ _ e)) n))
      | inr e ↦ elim (Bool-cases (ltb q board.onchip_port_first)) [
        | inl f ↦ simp (e, f) refl
        | inr f ↦ elim (Bool-cases board.has_onchip_uart) [
          | inr o ↦ absurd (ground arith)
          | inl o ↦ elim (Bool-cases (p == board.onchip_port_first)) [
            | inl g ↦
                let k : (q == board.onchip_port_first) ≡ false = ground arith in
                simp (e, f, o, g, k) refl
            | inr g ↦
                let k : (q == board.onchip_port_first) ≡ true = ground arith in
                simp (e, f, o, g, k) refl
          ]
        ]
      ]
    ]

    pub isr_swept :
        (q : ℕ) (a : Here)
        → IsPlain bus board bank boxes a.chips
        → sweeps a.path.rx.capture ≡ true
        → held bus board bank boxes (step bus board bank boxes inputs isr a) q ≡ none
    isr_swept q a plain e =
        ap (λ w. pending bus board bank boxes w q) (isr_left a)
        ∙ rw e (
            pending-served bus board bank boxes q _ a.receivers
              ((reads bus board bank boxes board.onchip_port_first a.chips all plain).behind q))

    pub isr_skipped :
        (q : ℕ) (a : Here)
        → sweeps a.path.rx.capture ≡ false
        → held bus board bank boxes (step bus board bank boxes inputs isr a) q
          ≡ held bus board bank boxes a q
    isr_skipped q a e = ap (λ w. pending bus board bank boxes w q) (isr_left a) ∙ rw e refl

    pub isr-IsPlain :
        (a : Here)
        → IsPlain bus board bank boxes a.chips
        → IsPlain bus board bank boxes (step bus board bank boxes inputs isr a).chips
    isr-IsPlain a plain =
        subst (IsPlain bus board bank boxes) (sym (ap (λ w. w.0) (isr_left a)))
          (elim (Bool-cases (sweeps a.path.rx.capture)) [
            | inl e ↦
                rw e (reads bus board bank boxes board.onchip_port_first a.chips all plain).plain
            | inr e ↦ rw e plain
          ])

    pub step-IsPlain :
        (e : Event bus board bank boxes) (a : Here)
        → IsEvent bus board bank boxes e
        → IsPlain bus board bank boxes a.chips
        → IsPlain bus board bank boxes (step bus board bank boxes inputs e a).chips
    unfolding step
    step-IsPlain (byte p b) a v plain = elim (Bool-cases (ltb p board.onchip_port_first)) [
      | inl e ↦ rw e (λ q h.
          ap (has_bit 0x80) (inputs.deliver_lcr p q b a.chips (omega (arith, all, ltb→lt _ _ e)))
          ∙ plain q h)
      | inr e ↦ rw e plain
    ]
    step-IsPlain isr a v plain = isr-IsPlain a plain
    step-IsPlain (access f) a v plain = (v a.chips plain).0
    step-IsPlain (turn p) a v plain = plain
    step-IsPlain send a v plain = plain
    step-IsPlain take a v plain = plain
