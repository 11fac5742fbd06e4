-- ===== src/Uart/Direct.antt =====
-- The capture interrupt of firmware/uart.c on the receivers themselves: the XDATA bus of the external
-- channels, and RI and SBUF of the on-chip UARTs.
use midex_class_firmware.Base.{
  ℕ, zero, suc, ◌+◌, ◌-◌, ◌%◌, ◌≡◌, ◌∙◌, sym, ap, ap₂, refl, Bool, Bool-cases, true, false, inl,
  inr, ◌==◌, if◌then◌else◌, has_bit, for_ports, for_ports_last, for_ports_none,
}
use midex_class_firmware.Config.{Board, uart_lsr_dr}
use midex_class_firmware.UartExt.{Bus, uart_reg, uart_lsr}
use midex_class_firmware.Uart.{
  Capture, Lines, rx_store, sweep, sweep_ext, sweep_onchip, uart_rx_isr,
}

-- UART_RHR
abbrev pub uart_rhr : ℕ
uart_rhr = 0

-- RI_0, SBUF0, RI_1 and SBUF1 as they are read.
pub record Receivers : Type 0 where
  pub ri_0 : Bool
  pub sbuf0 : ℕ
  pub ri_1 : Bool
  pub sbuf1 : ℕ

module _ (bus : Bus) (board : Board) where
  -- The first loop's body: RHR is read only behind DR.
  serve_ext : ℕ → Capture × bus.State → Capture × bus.State
  serve_ext port (c, s) =
      let (lsr, t) = bus.read (uart_reg board port uart_lsr) s in
      let (b, u) = bus.read (uart_reg board port uart_rhr) t in
      if has_bit uart_lsr_dr lsr then (rx_store port b c, u) else (c, t)

  -- The two on-chip UARTs.
  serve_0 : Capture × Receivers → Capture × Receivers
  serve_0 (c, r) =
      if r.ri_0
      then (rx_store board.onchip_port_first r.sbuf0 c, record r { ri_0 = false })
      else (c, r)

  serve_1 : Capture × Receivers → Capture × Receivers
  serve_1 (c, r) =
      if r.ri_1
      then (rx_store (board.onchip_port_first + 1) r.sbuf1 c, record r { ri_1 = false })
      else (c, r)

  -- What the interrupt does on a sweep tick.
  unfoldable pub direct_sweep :
      Capture × (bus.State × Receivers) → Capture × (bus.State × Receivers)
  unfolding serve_ext serve_0 serve_1
  direct_sweep (c, (s, r)) =
      let (d, t) = for_ports serve_ext board.onchip_port_first (c, s) in
      let (e, q) = if board.has_onchip_uart then serve_1 (serve_0 (d, r)) else (d, r) in (e, (t, q))

  -- `uart_rx_isr`
  unfoldable pub direct_rx_isr :
      Capture × (bus.State × Receivers) → Capture × (bus.State × Receivers)
  direct_rx_isr (c, w) =
      let count = (c.rx_tick_prescale + 256 - 1) % 256 in
      if count == 0
      then direct_sweep (record c { rx_tick_prescale = board.t0_prescale }, w)
      else (record c { rx_tick_prescale = count }, w)

  -- What the reads at one port leave of the bus.
  unfoldable pub look : ℕ → bus.State → bus.State
  look port s =
      let (lsr, t) = bus.read (uart_reg board port uart_lsr) s in
      if has_bit uart_lsr_dr lsr then (bus.read (uart_reg board port uart_rhr) t).1 else t

  -- What the receivers show to a sweep: the answers to its reads, in its order.
  abbrev pub asked : ℕ → bus.State → ℕ × bus.State
  asked port s = bus.read (uart_reg board port uart_lsr) (for_ports look port s)

  abbrev pub shown : bus.State → Receivers → Lines
  shown s r = record {
    lsr = λ p. (asked p s).0;
    rhr = λ p. (bus.read (uart_reg board p uart_rhr) (asked p s).1).0;
    ri_0 = r.ri_0;
    sbuf0 = r.sbuf0;
    ri_1 = r.ri_1;
    sbuf1 = r.sbuf1;
  }

  ext_round :
      (n : ℕ) (c : Capture) (s : bus.State) (r : Receivers)
      → serve_ext n (c, for_ports look n s)
        ≡ (sweep_ext (shown s r) n c, look n (for_ports look n s))
  unfolding serve_ext sweep_ext look
  ext_round n c s r = elim (Bool-cases (has_bit 0x01 (asked n s).0)) [
    | inl e ↦ rw e refl
    | inr e ↦ rw e refl
  ]

  ext_loop :
      (n : ℕ) (c : Capture) (s : bus.State) (r : Receivers)
      → for_ports serve_ext n (c, s) ≡ (for_ports (sweep_ext (shown s r)) n c, for_ports look n s)
  ext_loop zero c s r =
      for_ports_none serve_ext (c, s)
      ∙ sym (ap₂ (λ x y. (x, y)) (for_ports_none (sweep_ext (shown s r)) c) (for_ports_none look s))
  ext_loop (suc n) c s r =
      for_ports_last serve_ext n (c, s)
      ∙ ap (serve_ext n) (ext_loop n c s r)
      ∙ ext_round n (for_ports (sweep_ext (shown s r)) n c) s r
      ∙ sym (
          ap₂ (λ x y. (x, y)) (for_ports_last (sweep_ext (shown s r)) n c)
            (for_ports_last look n s))

  -- The receivers behind the on-chip part: both RI are clear.
  abbrev pub served : Receivers → Receivers
  served r = if board.has_onchip_uart then record r { ri_0 = false; ri_1 = false } else r

  onchip_served :
      (x : Bool) (a : ℕ) (y : Bool) (b : ℕ) (d : Capture) (s : bus.State)
      → let r : Receivers = record { ri_0 = x; sbuf0 = a; ri_1 = y; sbuf1 = b } in
        serve_1 (serve_0 (d, r))
        ≡ (sweep_onchip board (shown s r) d, record r { ri_0 = false; ri_1 = false })
  unfolding serve_0 serve_1 sweep_onchip
  onchip_served true a true b d s = refl
  onchip_served true a false b d s = refl
  onchip_served false a true b d s = refl
  onchip_served false a false b d s = refl

  onchip_part :
      (d : Capture) (s : bus.State) (r : Receivers)
      → (if board.has_onchip_uart then serve_1 (serve_0 (d, r)) else (d, r))
        ≡ (if board.has_onchip_uart then sweep_onchip board (shown s r) d else d, served r)
  onchip_part d s r = elim (Bool-cases board.has_onchip_uart) [
    | inr e ↦ rw e refl
    | inl e ↦ simp e (onchip_served r.ri_0 r.sbuf0 r.ri_1 r.sbuf1 d s)
  ]

  pub direct_sweep-shown :
      (c : Capture) (s : bus.State) (r : Receivers)
      → direct_sweep (c, (s, r))
        ≡ (sweep board (shown s r) c, (for_ports look board.onchip_port_first s, served r))
  unfolding direct_sweep sweep
  direct_sweep-shown c s r =
      let n = board.onchip_port_first in
      let loop = ext_loop n c s r in
      let d = for_ports (sweep_ext (shown s r)) n c in
      let after = for_ports look n s in
      ap
        (λ a.
          let e = if board.has_onchip_uart then serve_1 (serve_0 (a.0, r)) else (a.0, r) in
          (e.0, (a.1, e.1)))
        loop
      ∙ ap (λ e. (e.0, (after, e.1))) (onchip_part d s r)

  -- On any bus and either board, the interrupt with its reads in their order does to the FIFOs what
  -- `uart_rx_isr` does with the answers: a sweep tick reads LSR of each external channel once, and RHR
  -- once behind DR and else not at all, and leaves RI of the on-chip UARTs clear; the other ticks read
  -- nothing.
  pub direct_rx_isr-shown :
      (c : Capture) (s : bus.State) (r : Receivers)
      → direct_rx_isr (c, (s, r)) ≡ (
        uart_rx_isr board (shown s r) c,
        if (c.rx_tick_prescale + 256 - 1) % 256 == 0
            then (for_ports look board.onchip_port_first s, served r)
            else (s, r),
      )
  unfolding direct_rx_isr uart_rx_isr
  direct_rx_isr-shown c s r = elim (Bool-cases ((c.rx_tick_prescale + 256 - 1) % 256 == 0)) [
    | inl e ↦ rw e (direct_sweep-shown (record c { rx_tick_prescale = board.t0_prescale }) s r)
    | inr e ↦ rw e refl
  ]
