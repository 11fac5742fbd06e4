-- ===== src/RxPath/Polls.antt =====
-- Passes of the pump with a read of EP2-IN behind each: after 186 of them nothing is left.
use mathlib.Core.Path.{subst}
use midex_class_firmware.Base.{
  ℕ, zero, suc, ◌+◌, ◌*◌, ◌%◌, ◌≤◌, ◌<◌, ◌≡◌, ◌⊎◌, inl, inr, ◌∙◌, sym, ap, refl, true, false, List,
  [], ◌∷◌, ◌++◌, length, length-append, arith,
}
use midex_class_firmware.Config.{Board}
use midex_class_firmware.Ring
use midex_class_firmware.RxPump.{Rx, midi_rx_pump}
use midex_class_firmware.RxPump.Queue.{pending}
use midex_class_firmware.RxPump.Round.{IsValid}
use midex_class_firmware.RxPump.Drain.{length-waiting_lt}
use midex_class_firmware.RxPump.Ship.{Shipped}
use midex_class_firmware.RxPump.Pass.{midi_rx_pump-Passed, drained}
use midex_class_firmware.RxPath.{System, Event, take, host_reads, step, run}
use midex_class_firmware.RxPath.Flow.{keeps_IsValid}
use midex_class_firmware.RxPath.EndToEnd.{IsClear}
use midex_class_firmware.RxPath.Passes.{pump_steps, run-append, run-pump_steps}
use midex_class_firmware.RxPath.Settle.{load, waiting_below, IsRested, shipped, all-SoFar}

-- `k` passes of the pump, the host reading EP2-IN behind each.
abbrev pub poll : List Event
poll = pump_steps ++ (take ∷ [])

abbrev pub polls : ℕ → List Event
polls zero = []
polls (suc k) = poll ++ polls k

-- The ring holds whole packets.
abbrev pub IsWhole : Rx → Type 0
IsWhole s = IsValid s × (length (pending s) % 4 ≡ 0)

polled : System → System
polled a = host_reads (record a { rx = midi_rx_pump a.rx })

run-poll : (board : Board) (a : System) → run board poll a ≡ polled a
unfolding polled
run-poll board a =
    run-append board pump_steps (take ∷ []) a
    ∙ ap (run board (take ∷ [])) (run-pump_steps board a)
    ∙ unfold run step in refl

pump_keeps : (s : Rx) → IsWhole s → IsWhole (midi_rx_pump s)
pump_keeps s (v, w) = from (midi_rx_pump-Passed s v).1
  where
    from :
        (((s.in2.epbsy ≡ true) × (midi_rx_pump s ≡ drained s))
          ⊎ ((s.in2.epbsy ≡ false) × Shipped (drained s) (midi_rx_pump s)))
        → IsWhole (midi_rx_pump s)
    from (inl (_, e)) = subst IsWhole (sym e) ((all-SoFar s v w).valid, (all-SoFar s v w).whole)
    from (inr (_, d)) = (
      keeps_IsValid (drained s) (midi_rx_pump s) (all-SoFar s v w).valid d.ring.0 d.ring.1
          d.same_parser d.same_capture,
      omega (
        arith,
        (all-SoFar s v w).whole,
        d.whole,
        ap length d.taken,
        length-append d.moved (pending (midi_rx_pump s)),
      ),
    )

-- Behind a read the endpoint is free.
record IsFree (a : System) : Type 0 where
  whole : IsWhole a.rx
  free : a.rx.in2.epbsy ≡ false

read_keeps : (a : System) → IsWhole a.rx → IsFree (host_reads a)
read_keeps a (v, w) = record {
  whole = (keeps_IsValid a.rx (host_reads a).rx v v.ring.0 v.ring.1 refl refl, w);
  free = refl;
}

polled-IsFree : (a : System) → IsWhole a.rx → IsFree (polled a)
unfolding polled
polled-IsFree a w = read_keeps (record a { rx = midi_rx_pump a.rx }) (pump_keeps a.rx w)

polled_less : (a : System) → IsFree a → IsClear (polled a).rx ⊎ (load (polled a).rx + 4 ≤ load a.rx)
unfolding polled
polled_less a f = from (midi_rx_pump-Passed a.rx f.whole.0).1
  where
    cleared : IsRested (midi_rx_pump a.rx) → IsClear (polled a).rx
    cleared r = record { unsent = refl; unqueued = r.ring; unread = r.ports }

    rest :
        IsRested (midi_rx_pump a.rx) ⊎ (load (midi_rx_pump a.rx) + 4 ≤ load a.rx)
        → IsClear (polled a).rx ⊎ (load (polled a).rx + 4 ≤ load a.rx)
    rest (inl r) = inl (cleared r)
    rest (inr l) = inr l

    from :
        (((a.rx.in2.epbsy ≡ true) × (midi_rx_pump a.rx ≡ drained a.rx))
          ⊎ ((a.rx.in2.epbsy ≡ false) × Shipped (drained a.rx) (midi_rx_pump a.rx)))
        → IsClear (polled a).rx ⊎ (load (polled a).rx + 4 ≤ load a.rx)
    from (inl (e, _)) = absurd (ground (arith, f.free))
    from (inr (_, d)) = rest (shipped a.rx f.whole.0 f.whole.1 (midi_rx_pump a.rx) d)

load-IsClear : (s : Rx) → IsClear s → load s ≡ 0
load-IsClear s c = omega (arith, ap length c.unqueued, none 8 (omega arith))
  where
    none : (k : ℕ) → k ≤ 8 → waiting_below k s ≡ 0
    none zero h = refl
    none (suc k) h = omega (arith, ap length (c.unread k (omega arith)), none k (omega arith))

module _ (board : Board) where
  next : (k : ℕ) (a : System) → run board (polls (suc k)) a ≡ run board (polls k) (polled a)
  next k a = run-append board poll (polls k) a ∙ ap (run board (polls k)) (run-poll board a)

  stays-IsClear :
      (k : ℕ) (a : System) → IsFree a → IsClear a.rx → IsClear (run board (polls k) a).rx
  stays-IsClear zero a f c = unfold run in c
  stays-IsClear (suc k) a f c =
      subst (λ b. IsClear b.rx) (sym (next k a))
        (stays-IsClear k (polled a) (polled-IsFree a f.whole) (elim (polled_less a f) [
          | inl d ↦ d
          | inr l ↦ absurd (omega (arith, l, load-IsClear a.rx c))
        ]))

  polls_less :
      (k : ℕ) (a : System)
      → IsFree a
      → IsClear (run board (polls k) a).rx ⊎ (load (run board (polls k) a).rx + 4 * k ≤ load a.rx)
  polls_less zero a f = unfold run in inr (omega arith)
  polls_less (suc k) a f =
      subst (λ b. IsClear b.rx ⊎ (load b.rx + 4 * suc k ≤ load a.rx)) (sym (next k a))
        (elim (polled_less a f) [
          | inl c ↦ inl (stays-IsClear k (polled a) (polled-IsFree a f.whole) c)
          | inr l ↦ elim (polls_less k (polled a) (polled-IsFree a f.whole)) [
            | inl c ↦ inl c
            | inr m ↦ inr (omega arith)
          ]
        ])

  load_bound : (s : Rx) → IsValid s → load s < 4 * 185
  load_bound s v = omega (
    arith,
    below 8,
    Ring.length-span 256 s.rx_ring s.rx_tail (Ring.queued 256 s.rx_head s.rx_tail),
    Ring.queued-lt 256 s.rx_head s.rx_tail v.ring.1,
  )
    where
      below : (k : ℕ) → waiting_below k s ≤ 15 * k
      below zero = omega arith
      below (suc k) = omega (arith, length-waiting_lt k s.capture v.fifos, below k)

  -- From a valid state with whole packets in the ring, and with no byte arriving: after 186 passes of
  -- the pump, the host reading EP2-IN behind each, nothing is left in the endpoint, in the ring or in the
  -- FIFO of any port.
  pub polls-IsClear : (a : System) → IsWhole a.rx → IsClear (run board (polls 186) a).rx
  polls-IsClear a w =
      let f = polled-IsFree a w in
      subst (λ b. IsClear b.rx) (sym (next 185 a))
        (elim (polls_less 185 (polled a) f) [
          | inl c ↦ c
          | inr l ↦ absurd (omega (arith, l, load_bound (polled a).rx f.whole.0))
        ])
