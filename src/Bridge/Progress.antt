-- ===== src/Bridge/Progress.antt =====
-- While the UARTs take a byte in every pass, everything that the host handed over is sent.
use midex_class_firmware.Base.{
  ℕ, zero, suc, ◌+◌, ◌%◌, ◌≤◌, ◌<◌, ◌≡◌, ◌⊎◌, inl, inr, ◌∙◌, sym, ap, ap₂, refl, List, [], ◌∷◌,
  ◌++◌, length, length-append, append-nil, arith, Bool-cases, sum, sum_same, sum_zero, sum_less,
}
use midex_class_firmware.Cin.{cin_len-le_3}
use midex_class_firmware.Bridge.{Tx, cable, UartOps, uart_tx_pump, bridge_out}
use midex_class_firmware.Bridge.Queue.{queue, tx_room-length}
use midex_class_firmware.Bridge.Pass.{
  index, Finished, Blocked, Decoded, bridge_out-Decoded, bridge_out_idle,
}
use midex_class_firmware.Bridge.Pump.{stream, uart_tx_pump-Pumped}
use midex_class_firmware.Bridge.Stream.{
  IsSound, Action, bridge, pump, wait, act, run, account, gifts, act_lem, run-account,
}
use midex_class_firmware.Bridge.Endpoint.{left, left-Keeps}
use midex_class_firmware.Bridge.Ready.{rest_of, Serves, queue-uart_tx_pump}

module _ (ops : UartOps) where
  open ops use {State, sent}

  -- The bytes that are still to be sent to port `p`, and to all ports.
  abbrev pub rest : ℕ → Tx → ℕ
  rest p s = length (queue s p) + length (left p s)

  abbrev pub unsent : Tx → ℕ
  unsent s = sum 8 (λ p. rest p s)

  length-account :
      (p : ℕ) (a : Tx × State) → length (account ops p a) ≡ length (sent p a.1) + rest p a.0
  length-account p a =
      omega (
        arith,
        length-append (stream ops p a) (left p a.0),
        length-append (sent p a.1) (queue a.0 p),
      )

  module _ (f : State → State) (law : Serves ops f) (a : Tx × State) (v : IsSound ops a.0) where
    -- Behind `bridge_out`, and behind the time that passes.
    abbrev bridged : Tx
    bridged = bridge_out a.0

    abbrev pub after_pass : Tx × State
    after_pass = uart_tx_pump ops (bridged, f a.1)

    bridge_IsSound :
        (p : ℕ)
        → p < 8
        → IsSound ops bridged × (account ops p (bridged, a.1) ≡ account ops p a ++ [])
    unfolding act
    bridge_IsSound p h = act_lem ops p bridge a h v

    same_rest : (p : ℕ) → p < 8 → rest p bridged ≡ rest p a.0
    same_rest p h = omega (
      arith,
      ap length ((bridge_IsSound p h).1 ∙ append-nil (account ops p a)),
      length-account p (bridged, a.1),
      length-account p a,
    )

    one_less :
        (p : ℕ)
        → p < 8
        → (rest p after_pass.0 + 1 ≤ rest p bridged)
          ⊎ ((rest p after_pass.0 ≡ rest p bridged) × (queue bridged p ≡ []))
    one_less p h = pick (queue bridged p) refl
      where
        sound : IsSound ops bridged
        sound = (bridge_IsSound p h).0

        took : queue after_pass.0 p ≡ rest_of (queue bridged p)
        took = queue-uart_tx_pump ops f p bridged a.1 law h sound.valid

        still : left p after_pass.0 ≡ left p bridged
        still = left-Keeps p (uart_tx_pump-Pumped ops (bridged, f a.1) sound.valid).keeps

        pick :
            (l : List ℕ)
            → queue bridged p ≡ l
            → (rest p after_pass.0 + 1 ≤ rest p bridged)
              ⊎ ((rest p after_pass.0 ≡ rest p bridged) × (queue bridged p ≡ []))
        pick [] e = inr (
          omega
              (arith, ap length took, ap length still, ap (λ q. length (rest_of q)) e, ap length e),
          e,
        )
        pick (x ∷ l) e = inl (
            omega
              (arith, ap length took, ap length still, ap (λ q. length (rest_of q)) e, ap length e))

    -- With every ring empty behind it, `bridge_out` has taken the whole packet.
    finished : ((p : ℕ) → p < 8 → queue bridged p ≡ []) → (p : ℕ) → left p bridged ≡ []
    finished none p = elim (Bool-cases a.0.semaphore_ep2_out) [
      | inr e ↦ rw (bridge_out_idle a.0 e, e) refl
      | inl e ↦
          let fits = v.endpoint.fits e in
          let d = bridge_out-Decoded a.0 v.valid e fits.0 fits.1 in ended d d.end
    ]
      where
        ended :
            (d : Decoded a.0.out2bc a.0.out_off a.0 bridged)
            → Finished a.0.out2bc a.0.out_off d.taken bridged
              ⊎ Blocked a.0.out2bc a.0.out_off d.taken a.0 bridged
            → left p bridged ≡ []
        ended d (inl e) = rw (e.flag) refl
        ended d (inr b) =
            let cn = cable a.0.out2buf (index a.0.out_off d.taken) in
            absurd (
              omega (
                arith,
                b.no_room,
                cin_len-le_3 (a.0.out2buf (index a.0.out_off d.taken) % 16) (omega arith),
                tx_room-length cn bridged d.valid,
                ap length (none cn b.cable_small),
              ))

    less_unsent : (unsent after_pass.0 + 1 ≤ unsent a.0) ⊎ (unsent after_pass.0 ≡ 0)
    less_unsent = elim (sum_less (λ p. rest p after_pass.0) (λ p. rest p bridged) 8 plain) [
      | inl l ↦ inl (omega (arith, l, sum_same (λ p. rest p bridged) (λ p. rest p a.0) 8 same_rest))
      | inr same ↦ inr (
          sum_same (λ p. rest p after_pass.0) (λ p. 0) 8
            (λ p h. omega (
              arith,
              same p h,
              ap length (emptied same p h),
              ap length (finished (emptied same) p),
            )))
    ]
      where
        plain :
            (p : ℕ)
            → p < 8
            → (rest p after_pass.0 + 1 ≤ rest p bridged) ⊎ (rest p after_pass.0 ≡ rest p bridged)
        plain p h = elim (one_less p h) [ inl l ↦ inl l | inr (e, _) ↦ inr e ]

        emptied :
            ((p : ℕ) → p < 8 → rest p after_pass.0 ≡ rest p bridged)
            → (p : ℕ) → p < 8
            → queue bridged p ≡ []
        emptied same p h = elim (one_less p h) [
          | inl l ↦ absurd (omega (arith, l, same p h))
          | inr (_, e) ↦ e
        ]

  -- `n` passes of the loop, with the time in which the UARTs get ready.
  abbrev pub passes :
      (f : State → State) → ((q : ℕ) (u : State) → sent q (f u) ≡ sent q u) → ℕ → List (Action ops)
  passes f keeps zero = []
  passes f keeps (suc n) = bridge ∷ wait f keeps ∷ pump ∷ passes f keeps n

  after_pass-IsSound :
      (f : State → State) (law : Serves ops f) (a : Tx × State) (v : IsSound ops a.0)
      → IsSound ops (after_pass f law a v).0
  unfolding act
  after_pass-IsSound f law a v =
      (act_lem ops 0 pump (bridge_out a.0, f a.1) (omega arith)
        (act_lem ops 0 bridge a (omega arith) v).0).0

  passes_unsent :
      (f : State → State) (law : Serves ops f) (n : ℕ) (a : Tx × State)
      → IsSound ops a.0
      → (unsent (run ops (passes f law.keeps n) a).0 + n ≤ unsent a.0)
        ⊎ (unsent (run ops (passes f law.keeps n) a).0 ≡ 0)
  unfolding run act
  passes_unsent f law zero a v = inl (omega arith)
  passes_unsent f law (suc n) a v =
      let b = after_pass f law a v in
      elim (passes_unsent f law n b (after_pass-IsSound f law a v)) [
        | inr e ↦ inr e
        | inl l ↦ elim (less_unsent f law a v) [
          | inl m ↦ inl (omega (arith, l, m))
          | inr e ↦ inr (omega (arith, l, e))
        ]
      ]

  gifts_none :
      (p : ℕ) (f : State → State) (keeps : (q : ℕ) (u : State) → sent q (f u) ≡ sent q u) (n : ℕ)
      (a : Tx × State)
      → gifts ops p (passes f keeps n) a ≡ []
  unfolding gifts act
  gifts_none p f keeps zero a = refl
  gifts_none p f keeps (suc n) a = gifts_none p f keeps n (uart_tx_pump ops (bridge_out a.0, f a.1))

  -- From a sound state, with time before each pump call in which every UART gets ready, and a byte put
  -- to one leaving the others ready: after as many passes of `bridge_out` and `uart_tx_pump` as bytes are
  -- still to be sent, or more, each port's UART has been given all that its ring and the packet at
  -- hand had for it, in order.
  pub sent-passes :
      (f : State → State) (law : Serves ops f) (n p : ℕ) (a : Tx × State)
      → IsSound ops a.0
      → unsent a.0 ≤ n
      → p < 8
      → sent p (run ops (passes f law.keeps n) a).1 ≡ account ops p a
  sent-passes f law n p a v enough h =
      let b = run ops (passes f law.keeps n) a in
      let nothing : rest p b.0 ≡ 0 =
        sum_zero (λ q. rest q b.0) 8 p (all_gone (passes_unsent f law n a v)) h in
      sym (append-nil (sent p b.1))
      ∙ sym (append-nil (sent p b.1 ++ []))
      ∙ sym (
          ap₂ (λ x y. (sent p b.1 ++ x) ++ y) (only_nil (queue b.0 p) (omega (arith, nothing)))
            (only_nil (left p b.0) (omega (arith, nothing))))
      ∙ run-account ops p (passes f law.keeps n) a h v
      ∙ ap (λ l. account ops p a ++ l) (gifts_none p f law.keeps n a)
      ∙ append-nil (account ops p a)
    where
      all_gone : {x : ℕ} → (x + n ≤ unsent a.0) ⊎ (x ≡ 0) → x ≡ 0
      all_gone (inl l) = omega (arith, l, enough)
      all_gone (inr e) = e

      only_nil : (l : List ℕ) → length l ≡ 0 → l ≡ []
      only_nil [] e = refl
      only_nil (x ∷ l) e = absurd (omega arith)
