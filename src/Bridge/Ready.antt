-- ===== src/Bridge/Ready.antt =====
-- UARTs that get ready in time: a pass of the pump takes a byte off every ring.
use midex_class_firmware.Base.{
  ℕ, ◌+◌, ◌%◌, ◌<◌, ◌≡◌, ◌≢◌, ◌∙◌, sym, ap, refl, true, ◌==◌, ==_refl, List, [], ◌∷◌, length, arith,
  for_ports_once,
}
use midex_class_firmware.Ring
use midex_class_firmware.Bridge.{Tx, UartOps, pump_port, uart_tx_pump}
use midex_class_firmware.Bridge.Queue.{IsValid, queue}
use midex_class_firmware.Bridge.Pump.{pump_port-IsValid, stream-pump_port_other, pump_port_cases}

-- A queue behind the sending of its oldest byte.
abbrev pub rest_of : List ℕ → List ℕ
rest_of [] = []
rest_of (x ∷ l) = l

module _ (ops : UartOps) where
  open ops use {State, tx_ready, putc, sent}

  -- Time passes in which every UART gets ready; a byte put to one leaves the others ready.
  pub record Serves (f : State → State) : Type 0 where
    pub keeps : (q : ℕ) (u : State) → sent q (f u) ≡ sent q u
    pub ready : (p : ℕ) (u : State) → p < 8 → (tx_ready p (f u)).0 ≡ true
    pub apart : (p q b : ℕ) (u : State) → q ≢ p → (tx_ready q (putc p b u)).0 ≡ (tx_ready q u).0
    pub asked : (p q : ℕ) (u : State) → q ≢ p → (tx_ready q (tx_ready p u).1).0 ≡ (tx_ready q u).0

  module _ (p : ℕ) (start : Tx × State) where
    record Before (a : Tx × State) : Type 0 where
      valid : IsValid a.0
      is_ready : (tx_ready p a.1).0 ≡ true
      same : queue a.0 p ≡ queue start.0 p

    ready_apart :
        (f : State → State) (r : ℕ) (a : Tx × State)
        → Serves f
        → p ≢ r
        → (tx_ready p a.1).0 ≡ true
        → (tx_ready p (pump_port ops r a).1).0 ≡ true
    ready_apart f r (s, u) law n h =
        let still = law.asked r p u n ∙ h in
        pump_port_cases ops r s u (λ b. (tx_ready p b.1).0 ≡ true) (λ _. h) (λ _ _. still)
          (λ _ _. law.apart r p (s.tx_ring r (s.tx_tail r)) (tx_ready r u).1 n ∙ still)

    no_bytes : (s : Tx) → IsValid s → s.tx_head p == s.tx_tail p ≡ true → length (queue s p) ≡ 0
    no_bytes s v e =
        let met : s.tx_head p ≡ s.tx_tail p = ground arith in
        omega (
          arith,
          Ring.length-span 128 (s.tx_ring p) (s.tx_tail p)
              (Ring.queued 128 (s.tx_head p) (s.tx_tail p)),
          (Ring.empty_iff 128 (s.tx_head p) (s.tx_tail p) (v p).0 (v p).1).0 met,
        )

    takes_one :
        (a : Tx × State) → Before a → queue (pump_port ops p a).0 p ≡ rest_of (queue start.0 p)
    takes_one (s, u) b =
        pump_port_cases ops p s u (λ c. queue c.0 p ≡ rest_of (queue start.0 p))
          (λ e.
            b.same ∙ none (queue start.0 p) (omega (arith, no_bytes s b.valid e, ap length b.same)))
          (λ _ busy. absurd (cc (busy, b.is_ready)))
          (λ e _.
            let x = s.tx_ring p (s.tx_tail p) in
            let rest = Ring.bytes 128 (s.tx_ring p) (s.tx_head p) ((s.tx_tail p + 1) % 128) in
            let popped : queue s p ≡ x ∷ rest =
              Ring.bytes-pop 128 (s.tx_ring p) (s.tx_head p) (s.tx_tail p) (b.valid p).0
                (b.valid p).1 (ground arith) in
            rw (==_refl p) (ap rest_of (sym popped ∙ b.same)))
      where
        none : (l : List ℕ) → length l ≡ 0 → l ≡ rest_of l
        none [] h = refl
        none (x ∷ l) h = absurd (omega arith)

  -- A pass of the pump with every UART ready takes the oldest byte off each ring.
  pub queue-uart_tx_pump :
      (f : State → State) (p : ℕ) (s : Tx) (u : State)
      → Serves f
      → p < 8
      → IsValid s
      → queue (uart_tx_pump ops (s, f u)).0 p ≡ rest_of (queue s p)
  unfolding uart_tx_pump
  queue-uart_tx_pump f p s u law h v =
      let a : Tx × State = (s, f u) in
      for_ports_once (pump_port ops) (Before p a) (λ b. queue b.0 p ≡ rest_of (queue s p)) p 8 a
        (λ r b n i. record {
          valid = pump_port-IsValid ops r b i.valid;
          is_ready = ready_apart p a f r b law (λ e. n (sym e)) i.is_ready;
          same = (stream-pump_port_other ops r p b (λ e. n (sym e))).1 ∙ i.same;
        })
        (λ b i. takes_one p a b i)
        (λ r b n g. (stream-pump_port_other ops r p b (λ e. n (sym e))).1 ∙ g)
        (record { valid = v; is_ready = law.ready p u h; same = refl }) h
