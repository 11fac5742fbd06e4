-- ===== src/Uart/Tick.antt =====
-- The prescaler of the capture interrupt: one sweep in every three ticks.
use midex_class_firmware.Base.{
  ℕ, suc, ◌+◌, ◌<◌, ◌≡◌, ◌∙◌, ap, refl, List, [], ◌∷◌, arith, for_ports, for_ports_inv, Bool-cases,
  inl, inr,
}
use midex_class_firmware.Config.{Board}
use midex_class_firmware.Uart.{
  Capture, Lines, rx_store, sweep, uart_rx_isr, sweep_ext, sweep_onchip,
}

-- The interrupt at each of these ticks, the receivers as each shows them. Between two ticks the
-- main loop may do to the FIFOs what the entry's function does.
pub ticks : Board → List ((Capture → Capture) × Lines) → Capture → Capture
ticks board [] c = c
ticks board ((main, lines) ∷ rest) c = ticks board rest (uart_rx_isr board lines (main c))

-- The main loop leaves the prescaler alone.
abbrev pub Leaves : (Capture → Capture) → Type 0
Leaves f = (c : Capture) → (f c).rx_tick_prescale ≡ c.rx_tick_prescale

idle :
    (board : Board) (lines : Lines) (c : Capture) (k : ℕ)
    → c.rx_tick_prescale ≡ suc (suc k)
    → suc k < 255
    → uart_rx_isr board lines c ≡ record c { rx_tick_prescale = suc k }
unfolding uart_rx_isr
idle board lines c k h l = ground arith

fires :
    (board : Board) (lines : Lines) (c : Capture)
    → c.rx_tick_prescale ≡ 1
    → uart_rx_isr board lines c
      ≡ sweep board lines (record c { rx_tick_prescale = board.t0_prescale })
unfolding uart_rx_isr
fires board lines c h = ground arith

store_leaves :
    (p b k : ℕ) (c : Capture) → c.rx_tick_prescale ≡ k → (rx_store p b c).rx_tick_prescale ≡ k
unfolding rx_store
store_leaves p b k c h = ground arith

sweep_ext_leaves :
    (lines : Lines) (p k : ℕ) (c : Capture)
    → c.rx_tick_prescale ≡ k
    → (sweep_ext lines p c).rx_tick_prescale ≡ k
unfolding sweep_ext
sweep_ext_leaves lines p k c h = ground (arith, store_leaves p (lines.rhr p) k c)

sweep_onchip_leaves :
    (board : Board) (lines : Lines) (k : ℕ) (c : Capture)
    → c.rx_tick_prescale ≡ k
    → (sweep_onchip board lines c).rx_tick_prescale ≡ k
unfolding sweep_onchip
sweep_onchip_leaves board lines k c h = ground (
  arith,
  store_leaves board.onchip_port_first lines.sbuf0 k c,
  store_leaves (board.onchip_port_first + 1) lines.sbuf1 k c,
  store_leaves (board.onchip_port_first + 1) lines.sbuf1 k
      (rx_store board.onchip_port_first lines.sbuf0 c),
)

pub sweep_leaves :
    (board : Board) (lines : Lines) (k : ℕ) (c : Capture)
    → c.rx_tick_prescale ≡ k
    → (sweep board lines c).rx_tick_prescale ≡ k
unfolding sweep
sweep_leaves board lines k c h =
    let d = for_ports (sweep_ext lines) board.onchip_port_first c in
    let hd : d.rx_tick_prescale ≡ k =
      for_ports_inv (sweep_ext lines) (λ t. t.rx_tick_prescale ≡ k) board.onchip_port_first c
        (λ q t _. sweep_ext_leaves lines q k t) h in
    elim (Bool-cases board.has_onchip_uart) [
      | inl e ↦ rw e (sweep_onchip_leaves board lines k d hd)
      | inr e ↦ rw e hd
    ]

module _ (board : Board) (three : board.t0_prescale ≡ 3) (f g h : Capture → Capture) (lf : Leaves f)
    (lg : Leaves g) (lh : Leaves h) (l m n : Lines) where
  -- With a prescale of 3 and the prescaler at 1, the first of three ticks sweeps and the other two do
  -- not touch the FIFOs; behind the third the prescaler is at 1 again. Between the ticks the main
  -- loop may do anything that leaves the prescaler alone.
  pub ticks_period :
      (rest : List ((Capture → Capture) × Lines)) (c : Capture)
      → c.rx_tick_prescale ≡ 1
      → ticks board ((f, l) ∷ (g, m) ∷ (h, n) ∷ rest) c
        ≡ ticks board rest
            (record (h (record (g (sweep board l (record (f c) { rx_tick_prescale = 3 }))) {
              rx_tick_prescale = 2;
            })) { rx_tick_prescale = 1 })
  unfolding ticks
  ticks_period rest c one =
      let c1 = sweep board l (record (f c) { rx_tick_prescale = 3 }) in
      let e1 : uart_rx_isr board l (f c) ≡ c1 =
        fires board l (f c) (lf c ∙ one)
        ∙ ap (λ k. sweep board l (record (f c) { rx_tick_prescale = k })) three in
      let p1 : c1.rx_tick_prescale ≡ 3 =
        sweep_leaves board l 3 (record (f c) { rx_tick_prescale = 3 }) refl in
      let c2 = record (g c1) { rx_tick_prescale = 2 } in
      let e2 : uart_rx_isr board m (g c1) ≡ c2 = idle board m (g c1) 1 (lg c1 ∙ p1) (omega arith) in
      let e3 : uart_rx_isr board n (h c2) ≡ record (h c2) { rx_tick_prescale = 1 } =
        idle board n (h c2) 0 (lh c2) (omega arith) in
      rw (e1, e2, e3)
