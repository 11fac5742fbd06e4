-- ===== src/Bridge/Pump.antt =====
-- One pass of `uart_tx_pump`: each port whose UART is ready gets the oldest byte of its ring.
use native.Mathlib.Decide.{ℕ_discrete}
use midex_class_firmware.Base.{
  write, false, ℕ, ◌+◌, ◌%◌, ◌≡◌, ◌≢◌, ◌∙◌, sym, ap, ap₂, refl, true, ◌==◌, ==_refl, ==_of_ne, List,
  [], ◌∷◌, ◌++◌, arith, append_assoc, Bool-cases, inl, inr, for_ports_inv,
}
use midex_class_firmware.Ring
use midex_class_firmware.Bridge.{Tx, UartOps, pump_port, uart_tx_pump}
use midex_class_firmware.Bridge.Queue.{IsValid, queue}

-- What the pump leaves alone.
pub record Keeps (s t : Tx) : Type 0 where
  pub same_off : t.out_off ≡ s.out_off
  pub same_flag : t.semaphore_ep2_out ≡ s.semaphore_ep2_out
  pub same_buf : t.out2buf ≡ s.out2buf
  pub same_bc : t.out2bc ≡ s.out2bc
  pub same_armed : t.armed ≡ s.armed

module _ (ops : UartOps) where
  open ops use {State, tx_ready, putc, sent, sent-tx_ready, sent-putc, sent-putc_other}

  -- The bytes of port `p`, those given to the UART before those that wait.
  abbrev pub stream : ℕ → Tx × State → List ℕ
  stream p a = sent p a.1 ++ queue a.0 p

  pub pump_port-IsValid : (p : ℕ) (a : Tx × State) → IsValid a.0 → IsValid (pump_port ops p a).0
  unfolding pump_port
  pump_port-IsValid p (s, u) v q = ground (arith, v q, v p)

  -- A round finds the ring empty, the UART busy, or sends a byte.
  module _ (p : ℕ) (s : Tx) (u : State) where
    abbrev popped : Tx
    popped = record s { tx_tail = write s.tx_tail p ((s.tx_tail p + 1) % 128) }

    abbrev told : State
    told = (tx_ready p u).1

    abbrev given : State
    given = putc p (s.tx_ring p (s.tx_tail p)) told

    -- What holds of the three outcomes holds behind the round.
    pub pump_port_cases {ℓ} :
        (G : Tx × State → Type ℓ)
        → (s.tx_head p == s.tx_tail p ≡ true → G (s, u))
        → (s.tx_head p == s.tx_tail p ≡ false → (tx_ready p u).0 ≡ false → G (s, told))
        → (s.tx_head p == s.tx_tail p ≡ false → (tx_ready p u).0 ≡ true → G (popped, given))
        → G (pump_port ops p (s, u))
    unfolding pump_port
    pump_port_cases G empty busy sends = elim (Bool-cases (s.tx_head p == s.tx_tail p)) [
      | inl e ↦ rw e (empty e)
      | inr e ↦ elim (Bool-cases (tx_ready p u).0) [
        | inl r ↦ rw (e, r) (sends e r)
        | inr r ↦ rw (e, r) (busy e r)
      ]
    ]

  pump_port-Keeps : (p : ℕ) (a : Tx × State) → Keeps a.0 (pump_port ops p a).0
  pump_port-Keeps p (s, u) =
      pump_port_cases p s u (λ b. Keeps s b.0) (λ _. same) (λ _ _. same)
        (λ _ _. record {
          same_off = refl;
          same_flag = refl;
          same_buf = refl;
          same_bc = refl;
          same_armed = refl;
        })
    where
      same : Keeps s s
      same = record {
        same_off = refl;
        same_flag = refl;
        same_buf = refl;
        same_bc = refl;
        same_armed = refl;
      }

  stream-pump_port_own :
      (p : ℕ) (a : Tx × State) → IsValid a.0 → stream p (pump_port ops p a) ≡ stream p a
  stream-pump_port_own p (s, u) v =
      pump_port_cases p s u (λ b. stream p b ≡ stream p (s, u)) (λ _. refl)
        (λ _ _. ap (λ l. l ++ queue s p) (sent-tx_ready p p u))
        (λ e r.
          let b = s.tx_ring p (s.tx_tail p) in
          let rest = Ring.bytes 128 (s.tx_ring p) (s.tx_head p) ((s.tx_tail p + 1) % 128) in
          let popped_off : queue s p ≡ b ∷ rest =
            Ring.bytes-pop 128 (s.tx_ring p) (s.tx_head p) (s.tx_tail p) (v p).0 (v p).1
              (ground arith) in
          rw (==_refl p) (
            ap (λ l. l ++ rest) (sent-putc p b u r)
            ∙ append_assoc (sent p u) (b ∷ []) rest
            ∙ ap (λ l. sent p u ++ l) (sym popped_off)))

  pub stream-pump_port_other :
      (p q : ℕ) (a : Tx × State)
      → q ≢ p
      → (sent q (pump_port ops p a).1 ≡ sent q a.1) × (queue (pump_port ops p a).0 q ≡ queue a.0 q)
  stream-pump_port_other p q (s, u) n =
      pump_port_cases p s u (λ b. (sent q b.1 ≡ sent q u) × (queue b.0 q ≡ queue s q))
        (λ _. (refl, refl)) (λ _ _. (sent-tx_ready p q u, refl))
        (λ _ _. (
          sent-putc_other p q (s.tx_ring p (s.tx_tail p)) (tx_ready p u).1 n ∙ sent-tx_ready p q u,
          rw (==_of_ne q p n) refl,
        ))

  stream-pump_port :
      (p q : ℕ) (a : Tx × State) → IsValid a.0 → stream q (pump_port ops p a) ≡ stream q a
  stream-pump_port p q a v = elim (ℕ_discrete q p) [
    | yes e ↦ rw e (stream-pump_port_own p a v)
    | no n ↦ let both = stream-pump_port_other p q a n in ap₂ ◌++◌ both.0 both.1
  ]

  -- What a pass does: each port's stream, what its UART was given and then what its ring holds, is
  -- as before.
  pub record Pumped (a b : Tx × State) : Type 0 where
    pub valid : IsValid b.0
    pub streams : (q : ℕ) → stream q b ≡ stream q a
    pub keeps : Keeps a.0 b.0

  -- From valid rings a pass of `uart_tx_pump` keeps the rings valid, changes no port's stream of bytes
  -- sent and bytes queued, and leaves the endpoint and the resume offset alone.
  pub uart_tx_pump-Pumped : (a : Tx × State) → IsValid a.0 → Pumped a (uart_tx_pump ops a)
  unfolding uart_tx_pump
  uart_tx_pump-Pumped a v =
      for_ports_inv (pump_port ops) (Pumped a) 8 a
        (λ p b _ d.
          let k = pump_port-Keeps p b in
          record {
            valid = pump_port-IsValid p b d.valid;
            streams = λ q. stream-pump_port p q b d.valid ∙ d.streams q;
            keeps = record {
              same_off = k.same_off ∙ d.keeps.same_off;
              same_flag = k.same_flag ∙ d.keeps.same_flag;
              same_buf = k.same_buf ∙ d.keeps.same_buf;
              same_bc = k.same_bc ∙ d.keeps.same_bc;
              same_armed = k.same_armed ∙ d.keeps.same_armed;
            };
          })
        (record {
          valid = v;
          streams = λ q. refl;
          keeps = record {
            same_off = refl;
            same_flag = refl;
            same_buf = refl;
            same_bc = refl;
            same_armed = refl;
          };
        })
