-- ===== src/Bridge/Stream.antt =====
-- Any sequence of host packets, main-loop calls and UART progress: no byte for a port is lost,
-- doubled or moved past another.
use midex_class_firmware.Base.{
  ℕ, ◌+◌, ◌-◌, ◌/◌, ◌≤◌, ◌<◌, ◌≡◌, ◌⊎◌, ◌∙◌, sym, ap, ap₂, refl, Bool, true, false, if◌then◌else◌,
  List, [], ◌∷◌, ◌++◌, arith, append_assoc, append-nil, Bool-cases, inl, inr,
}
use midex_class_firmware.Bridge.{Tx, UartOps, bridge_out, ep2out_isr, uart_tx_pump}
use midex_class_firmware.Bridge.Queue.{IsValid, queue}
use midex_class_firmware.Bridge.Pass.{
  data_of, index, index_lem, Finished, Blocked, Decoded, bridge_out-Decoded, bridge_out_idle,
}
use midex_class_firmware.Bridge.Pump.{stream, uart_tx_pump-Pumped}
use midex_class_firmware.Bridge.Endpoint.{Endpoint, data_of_split, left, left-Keeps}

module _ (ops : UartOps) where
  open ops use {State, sent}

  -- `host` is the arrival of a bulk packet, with the interrupt that follows it; the controller
  -- refuses it while the endpoint is not armed. `wait` is time in which the UARTs go on.
  pub data Action : Type 0 where
    host : (ℕ → ℕ) → (n : ℕ) → n ≤ 64 → Action
    bridge : Action
    pump : Action
    wait : (f : State → State) → ((q : ℕ) (u : State) → sent q (f u) ≡ sent q u) → Action

  -- The transfer of a bulk packet, and the interrupt behind it.
  unfoldable pub receive : (ℕ → ℕ) → ℕ → Tx → Tx
  receive buf n s =
      if s.armed then ep2out_isr (record s { out2buf = buf; out2bc = n; armed = false }) else s

  unfoldable pub act : Action → Tx × State → Tx × State
  act (host buf n h) a = (receive buf n a.0, a.1)
  act bridge a = (bridge_out a.0, a.1)
  act pump a = uart_tx_pump ops a
  act (wait f h) a = (a.0, f a.1)

  unfoldable pub run : List Action → Tx × State → Tx × State
  run [] a = a
  run (x ∷ xs) a = run xs (act x a)

  -- What the host hands over for port `p` by this action.
  abbrev pub gift : ℕ → Action → Tx × State → List ℕ
  gift p (host buf n h) a = if a.0.armed then data_of p buf 0 (n / 4) else []
  gift p _ a = []

  unfoldable pub gifts : ℕ → List Action → Tx × State → List ℕ
  gifts p [] a = []
  gifts p (x ∷ xs) a = gift p x a ++ gifts p xs (act x a)

  pub record IsSound (s : Tx) : Type 0 where
    pub valid : IsValid s
    pub endpoint : Endpoint s

  -- Each of a port's bytes: sent, in the ring, and still in the buffer.
  abbrev pub account : ℕ → Tx × State → List ℕ
  account p a = stream ops p a ++ left p a.0

  receive_lem :
      (p : ℕ) (buf : ℕ → ℕ) (n : ℕ) (h : n ≤ 64) (a : Tx × State)
      → IsSound a.0
      → IsSound (receive buf n a.0)
        × (account p (receive buf n a.0, a.1)
            ≡ account p a ++ (if a.0.armed then data_of p buf 0 (n / 4) else []))
  unfolding receive ep2out_isr
  receive_lem p buf n h (s, u) v = go s.armed refl
    where
      filled : Tx
      filled = record s { out2buf = buf; out2bc = n; armed = false; semaphore_ep2_out = true }

      go :
          (b : Bool)
          → s.armed ≡ b
          → IsSound (if b then filled else s)
            × (account p (if b then filled else s, u)
                ≡ account p (s, u) ++ (if b then data_of p buf 0 (n / 4) else []))
      go false e = (v, sym (append-nil (account p (s, u))))
      go true e =
          let off : s.out_off ≡ 0 = v.endpoint.rested (v.endpoint.exclusive e) in
          let all : n - 0 ≡ n = omega arith in
          (
            record {
              valid = v.valid;
              endpoint = record {
                fits = λ _. (h, omega arith);
                rested = λ x. absurd (cc x);
                exclusive = λ x. absurd (cc x);
              };
            },
            rw (v.endpoint.exclusive e, off, all)
                (ap (λ l. l ++ data_of p buf 0 (n / 4)) (sym (append-nil (stream ops p (s, u))))),
          )

  -- What is left behind a call: nothing if it finished, else what stands behind its resume offset.
  left_after :
      (p : ℕ) (s t : Tx) (d : Decoded s.out2bc s.out_off s t)
      → s.semaphore_ep2_out ≡ true
      → s.out2bc ≤ 64
      → (s.armed ≡ true → s.semaphore_ep2_out ≡ false)
      → (data_of p s.out2buf (index s.out_off d.taken) ((s.out2bc - index s.out_off d.taken) / 4)
          ≡ left p t)
        × Endpoint t
  left_after p s t d flag fits ex = go d.end d.inside
    where
      go :
          Finished s.out2bc s.out_off d.taken t ⊎ Blocked s.out2bc s.out_off d.taken s t
          → index s.out_off d.taken ≤ s.out2bc
          → (data_of p s.out2buf
                (index s.out_off d.taken)
                ((s.out2bc - index s.out_off d.taken) / 4)
              ≡ left p t)
            × Endpoint t
      go (inl f) h =
          let over : (s.out2bc - index s.out_off d.taken) / 4 ≡ 0 = omega (arith, f.all) in
          (
            rw (over, f.flag),
            record {
              fits = λ x. absurd (cc (f.flag));
              rested = λ _. f.off;
              exclusive = λ _. f.flag;
            },
          )
      go (inr b) h = (
        sym (rw (b.flag ∙ flag, d.same_buf, b.off, b.bc)),
        record {
          fits = λ _. omega (arith, b.bc, b.off, h, fits);
          rested = λ x. absurd (cc (b.flag, flag));
          exclusive = λ x. absurd (cc (ex (sym b.closed ∙ x), flag));
        },
      )

  pub bridge_lem :
      (p : ℕ) (a : Tx × State)
      → p < 8
      → IsSound a.0
      → IsSound (bridge_out a.0) × (account p (bridge_out a.0, a.1) ≡ account p a)
  bridge_lem p (s, u) h v = elim (Bool-cases s.semaphore_ep2_out) [
    | inr e ↦ rw (bridge_out_idle s e) (v, refl)
    | inl e ↦
        let fits = v.endpoint.fits e in
        let d = bridge_out-Decoded s v.valid e fits.0 fits.1 in
        let t = bridge_out s in
        let after = left_after p s t d e fits.0 v.endpoint.exclusive in
        let k = index s.out_off d.taken in
        let count : (s.out2bc - s.out_off) / 4 ≡ d.taken + (s.out2bc - k) / 4 =
          omega (arith, index_lem s.out_off d.taken, d.inside) in
        let so_far = stream ops p (s, u) in
        let now = data_of p s.out2buf s.out_off d.taken in
        let rest = data_of p s.out2buf k ((s.out2bc - k) / 4) in
        (
          record { valid = d.valid; endpoint = after.1 },
          ap₂ (λ q r. (sent p u ++ q) ++ r) (d.queued p h) (sym after.0)
              ∙ ap (λ l. l ++ rest) (sym (append_assoc (sent p u) (queue s p) now))
              ∙ append_assoc so_far now rest
              ∙ ap (λ l. so_far ++ l)
                  (sym (data_of_split p s.out2buf s.out_off d.taken ((s.out2bc - k) / 4)))
              ∙ ap (λ j. so_far ++ data_of p s.out2buf s.out_off j) (sym count)
              ∙ ap
                  (λ b.
                    so_far
                    ++ (if b
                        then data_of p s.out2buf s.out_off ((s.out2bc - s.out_off) / 4)
                        else []))
                  (sym e),
        )
  ]

  pump_lem :
      (p : ℕ) (a : Tx × State)
      → IsSound a.0
      → IsSound (uart_tx_pump ops a).0 × (account p (uart_tx_pump ops a) ≡ account p a)
  pump_lem p a v =
      let b = uart_tx_pump ops a in
      let d = uart_tx_pump-Pumped ops a v.valid in
      let k = d.keeps in
      (
        record {
          valid = d.valid;
          endpoint = record {
            fits = λ x. rw (k.same_bc, k.same_off) (v.endpoint.fits (sym k.same_flag ∙ x));
            rested = λ x. k.same_off ∙ v.endpoint.rested (sym k.same_flag ∙ x);
            exclusive = λ x. k.same_flag ∙ v.endpoint.exclusive (sym k.same_armed ∙ x);
          };
        },
        ap (λ l. l ++ left p b.0) (d.streams p) ∙ ap (λ l. stream ops p a ++ l) (left-Keeps p k),
      )

  pub act_lem :
      (p : ℕ) (x : Action) (a : Tx × State)
      → p < 8
      → IsSound a.0
      → IsSound (act x a).0 × (account p (act x a) ≡ account p a ++ gift p x a)
  unfolding act
  act_lem p (host buf n h) a l v = receive_lem p buf n h a v
  act_lem p bridge a l v = let r = bridge_lem p a l v in (r.0, r.1 ∙ sym (append-nil (account p a)))
  act_lem p pump a l v = let r = pump_lem p a v in (r.0, r.1 ∙ sym (append-nil (account p a)))
  act_lem p (wait f h) a l v =
      (v, ap (λ q. (q ++ queue a.0 p) ++ left p a.0) (h p a.1) ∙ sym (append-nil (account p a)))

  -- From any sound state, after any sequence of host packets, `bridge_out` calls, pump calls and UART
  -- progress, what port `p`'s UART was given, then what its ring holds, then what the packet at hand
  -- still has for it is that of the start followed by the bytes for `p` of the packets that the
  -- armed endpoint took in: no byte is lost, doubled or reordered.
  pub run-account :
      (p : ℕ) (xs : List Action) (a : Tx × State)
      → p < 8
      → IsSound a.0
      → account p (run xs a) ≡ account p a ++ gifts p xs a
  unfolding run gifts
  run-account p [] a l v = sym (append-nil (account p a))
  run-account p (x ∷ xs) a l v =
      let one = act_lem p x a l v in
      run-account p xs (act x a) l one.0
      ∙ ap (λ l. l ++ gifts p xs (act x a)) one.1
      ∙ append_assoc (account p a) (gift p x a) (gifts p xs (act x a))
