-- ===== src/Uart/Preempted.antt =====
-- A visit of the main loop to a FIFO, with the capture interrupt between its byte accesses.
use midex_class_firmware.Base.{
  ℕ, ◌+◌, ◌-◌, ◌%◌, ◌≡◌, ◌≢◌, ◌∙◌, sym, ap, ap₂, refl, Bool, true, false, ◌==◌, if◌then◌else◌,
  has_bit, Option, none, some, List, [], ◌∷◌, write, for_ports, for_ports_inv, Bool-cases, inl, inr,
  ne_of_==, ==_of_ne, arith,
}
use midex_class_firmware.Config.{Board, midex_rx_fifo_size}
use midex_class_firmware.Uart.{
  Capture, Lines, rx_store, sweep, sweep_ext, sweep_onchip, uart_rx_isr, uart_rx_available,
  uart_rx_dequeue,
}
use midex_class_firmware.Uart.Interleaving.{consume}

-- Some runs of the interrupt.
abbrev pub interrupts : Board → List Lines → Capture → Capture
interrupts board [] c = c
interrupts board (l ∷ ls) c = interrupts board ls (uart_rx_isr board l c)

-- `if (uart_rx_available(port)) b = uart_rx_dequeue(port)`: the test, the read of the byte, and the write
-- of the tail, with interrupts between the first two, and between the last two.
unfoldable pub visit_in_steps : Board → ℕ → List Lines → List Lines → Capture → Option ℕ × Capture
visit_in_steps board port first second c =
    let d = interrupts board first c in
    let tail = d.rx_fifo_tail port in
    let b = d.rx_fifo port tail in
    let e = interrupts board second d in
    if uart_rx_available port c
    then (
      some b,
      record e { rx_fifo_tail = write e.rx_fifo_tail port ((tail + 1) % midex_rx_fifo_size) },
    )
    else (none, e)

module _ (port tail b : ℕ) where
  -- The byte `b` stands at the tail of the port's FIFO.
  record Ready (c : Capture) : Type 0 where
    at_tail : c.rx_fifo_tail port ≡ tail
    byte : c.rx_fifo port tail ≡ b
    here : c.rx_fifo_head port ≢ tail

  -- The store writes a free slot, and stops at a full FIFO.
  rx_store-Ready : (q x : ℕ) (c : Capture) → Ready c → Ready (rx_store q x c)
  unfolding rx_store
  rx_store-Ready q x c r = record {
    at_tail = ground (arith, r.at_tail);
    byte = ground (arith, r.byte, r.at_tail, r.here);
    here = λ e. ground (arith, e, r.here, r.at_tail);
  }

  store_if-Ready :
      (x : Bool) (q y : ℕ) (c : Capture) → Ready c → Ready (if x then rx_store q y c else c)
  store_if-Ready true q y c r = rx_store-Ready q y c r
  store_if-Ready false q y c r = r

  sweep-Ready : (board : Board) (l : Lines) (c : Capture) → Ready c → Ready (sweep board l c)
  unfolding sweep sweep_ext sweep_onchip
  sweep-Ready board l c r =
      let first = board.onchip_port_first in
      let d = for_ports (sweep_ext l) first c in
      let f : Ready d =
        for_ports_inv (sweep_ext l) Ready first c
          (λ q t _ v. store_if-Ready (has_bit 0x01 (l.lsr q)) q (l.rhr q) t v) r in
      let e = if l.ri_0 then rx_store first l.sbuf0 d else d in
      let g : Ready e = store_if-Ready l.ri_0 first l.sbuf0 d f in
      either board.has_onchip_uart d _ f (store_if-Ready l.ri_1 (first + 1) l.sbuf1 e g)
    where
      either : (x : Bool) (d e : Capture) → Ready d → Ready e → Ready (if x then e else d)
      either true d e f g = g
      either false d e f g = f

  isr-Ready : (board : Board) (l : Lines) (c : Capture) → Ready c → Ready (uart_rx_isr board l c)
  unfolding uart_rx_isr
  isr-Ready board l c r = elim (Bool-cases ((c.rx_tick_prescale + 256 - 1) % 256 == 0)) [
    | inl e ↦ simp e (
        sweep-Ready board l (record c { rx_tick_prescale = board.t0_prescale })
          (record { at_tail = r.at_tail; byte = r.byte; here = r.here }))
    | inr e ↦ simp e (record { at_tail = r.at_tail; byte = r.byte; here = r.here })
  ]

  interrupts-Ready :
      (board : Board) (ls : List Lines) (c : Capture) → Ready c → Ready (interrupts board ls c)
  interrupts-Ready board [] c r = r
  interrupts-Ready board (l ∷ ls) c r =
      interrupts-Ready board ls (uart_rx_isr board l c) (isr-Ready board l c r)

  -- A byte read from `c` at its tail, and the tail of `e` advanced from there.
  read_at :
      (c e : Capture)
      → Ready c
      → ◌≡◌ {A = Option ℕ × Capture}
          (
            some (c.rx_fifo port (c.rx_fifo_tail port)),
            record e {
              rx_fifo_tail =
                  write e.rx_fifo_tail port ((c.rx_fifo_tail port + 1) % midex_rx_fifo_size);
            },
          )
          (
            some b,
            record e { rx_fifo_tail = write e.rx_fifo_tail port ((tail + 1) % midex_rx_fifo_size) },
          )
  read_at c e r =
      let leave : ℕ → Capture =
        λ t. record e { rx_fifo_tail = write e.rx_fifo_tail port ((t + 1) % midex_rx_fifo_size) } in
      ap₂ (λ x t. (some x, leave t)) (ap (c.rx_fifo port) r.at_tail ∙ r.byte) r.at_tail

  -- What a visit reads and leaves there.
  consume-Ready :
      (c : Capture)
      → Ready c
      → consume port c ≡ (
        some b,
        record c { rx_fifo_tail = write c.rx_fifo_tail port ((tail + 1) % midex_rx_fifo_size) },
      )
  unfolding consume uart_rx_available uart_rx_dequeue
  consume-Ready c r =
      let full : (c.rx_fifo_head port == c.rx_fifo_tail port) ≡ false =
        ==_of_ne _ _ (λ e. r.here (e ∙ r.at_tail)) in
      simp full (read_at c c r)

-- On either board and from any state, a visit with runs of the interrupt between its test, its read
-- and its write of the tail does what a visit at one moment does, with none of these runs within it:
-- the visit then stands behind all of them if it finds a byte, and before all if it finds none.
pub visit_in_steps-consume :
    (board : Board) (port : ℕ) (first second : List Lines) (c : Capture)
    → let all = interrupts board second (interrupts board first c) in
      visit_in_steps board port first second c
      ≡ (if uart_rx_available port c then consume port all else (none, all))
unfolding visit_in_steps uart_rx_available
visit_in_steps-consume board port first second c =
    elim (Bool-cases (c.rx_fifo_head port == c.rx_fifo_tail port)) [
      | inl e ↦ simp e refl
      | inr e ↦
          let tail = c.rx_fifo_tail port in
          let b = c.rx_fifo port tail in
          let d = interrupts board first c in
          let all = interrupts board second d in
          let at_start : Ready port tail b c = record {
            at_tail = refl;
            byte = refl;
            here = ne_of_== _ _ e;
          } in
          let between = interrupts-Ready port tail b board first c at_start in
          let at_end = interrupts-Ready port tail b board second d between in
          simp e (read_at port tail b d all between ∙ sym (consume-Ready port tail b all at_end))
    ]
