-- ===== src/Wire/Ahead.antt =====
-- How far the next sweep is, and which receivers it finds in time.
use native.Mathlib.Decide.{ℕ_discrete}
use native.Mathlib.Numerals.{unary_clauses}
use native.Mathlib.Nat.{suc-mul, add_comm}
use midex_class_firmware.Base.{
  ℕ, zero, suc, ◌+◌, ◌-◌, ◌*◌, ◌%◌, ◌<◌, ◌≤◌, ◌≡◌, ◌⊎◌, ◌∙◌, sym, ap, refl, Bool-cases, true, false,
  inl, inr, if◌then◌else◌, none, arith, write, write_self, write_ne,
}
use midex_class_firmware.Config.{Board}
use midex_class_firmware.UartExt.{Bus}
use midex_class_firmware.UartExt.Bank.{Bank}
use midex_class_firmware.Uart.{Lines, Capture, uart_rx_isr}
use midex_class_firmware.Uart.Tick.{sweep_leaves}
use midex_class_firmware.Uart.Emptied.{Inboxes, IsPlain}
use midex_class_firmware.RxPath
use midex_class_firmware.RxPath.{sweeps}
use midex_class_firmware.Wire.{Inputs, Wired, byte, isr, held, step}
use midex_class_firmware.Wire.Receiving.{isr_path, held-byte_apart, isr_swept, isr_skipped}
use midex_class_firmware.Wire.Time.{Clock}

abbrev pub prescale :
    {bus : Bus} {board : Board} {bank : Bank bus board} {boxes : Inboxes bus board bank}
    → Wired bus board bank boxes
    → ℕ
prescale a = a.path.rx.capture.rx_tick_prescale

pub turned : (n k : ℕ) → 1 ≤ n → k + (n - 1) * k ≡ n * k
turned zero k h = absurd (omega (arith, h))
turned (suc n) k h = simp unary_clauses (add_comm k (n * k) ∙ sym (suc-mul n k))

-- The prescaler behind an interrupt.
isr_prescale :
    (board : Board) (lines : Lines) (c : Capture)
    → (uart_rx_isr board lines c).rx_tick_prescale
      ≡ (if sweeps c then board.t0_prescale else (c.rx_tick_prescale + 256 - 1) % 256)
unfolding uart_rx_isr
isr_prescale board lines c = elim (Bool-cases (sweeps c)) [
  | inl e ↦ rw e (
      sweep_leaves board lines board.t0_prescale (record c { rx_tick_prescale = board.t0_prescale })
        refl)
  | inr e ↦ rw e refl
]

module _ (bus : Bus) (board : Board) (bank : Bank bus board) (boxes : Inboxes bus board bank) where
  module _ (inputs : Inputs bus board bank boxes)
      (full : board.onchip_port_first + (if board.has_onchip_uart then 2 else 0) ≡ 8)
      (all : board.onchip_port_first ≤ board.num_ext_ports) (period late spacing : ℕ)
      (some_ticks : 1 ≤ board.t0_prescale) (few_ticks : board.t0_prescale < 256)
      (in_time : board.t0_prescale * period + late < spacing) where
    abbrev Here : Type 0
    Here = Wired bus board bank boxes

    -- The next sweep is `left` ticks behind the next tick. It is at most a round of ticks away, and a
    -- port whose receiver holds a byte gets no other before it.
    pub record IsAhead (c : Clock) (a : Here) : Type 0 where
      pub left : ℕ
      pub counts : prescale a ≡ suc left
      pub byte_wide : suc left < 256
      pub near : c.due + left * period ≤ c.now + board.t0_prescale * period
      pub clear :
          (p : ℕ)
          → p < 8
          → (held bus board bank boxes a p ≡ none) ⊎ (c.due + left * period + late < c.free p)

    -- A byte cannot find its receiver full.
    pub finds_room :
        (c : Clock) (a : Here) (t p : ℕ)
        → IsAhead c a
        → p < 8
        → t ≤ c.due + late
        → c.free p ≤ t
        → held bus board bank boxes a p ≡ none
    finds_room c a t p v h soon free = elim (v.clear p h) [
      | inl e ↦ e
      | inr l ↦ absurd (omega (arith, soon, free, l, v.near))
    ]

    pub came-IsAhead :
        (c : Clock) (a : Here) (t p b : ℕ)
        → IsAhead c a
        → p < 8
        → c.now ≤ t
        → IsAhead
            (record c { now = t; free = write c.free p (t + spacing) })
            (step bus board bank boxes inputs (byte p b) a)
    unfolding step
    came-IsAhead c a t p b v h l = record {
      left = v.left;
      counts = v.counts;
      byte_wide = v.byte_wide;
      near = omega (arith, v.near, l);
      clear = λ q k. elim (ℕ_discrete q p) [
        | yes e ↦
            inr (rw (e, write_self c.free p (t + spacing)) (omega (arith, v.near, l, in_time)))
        | no n ↦
            rw
              (
                held-byte_apart bus board bank boxes inputs full all p q b a h k n,
                write_ne c.free p q (t + spacing) n,
              )
              (v.clear q k)
      ];
    }

    isr_counts :
        (a : Here)
        → prescale (step bus board bank boxes inputs isr a)
          ≡ (if sweeps a.path.rx.capture then board.t0_prescale else (prescale a + 256 - 1) % 256)
    isr_counts a =
        ap (λ s. s.rx.capture.rx_tick_prescale) (isr_path bus board bank boxes inputs a)
        ∙ unfold RxPath.step in isr_prescale board _ a.path.rx.capture

    -- The tick is the last of a round: it sweeps, and the next sweep is a round away.
    sweep-IsAhead :
        (c : Clock) (a : Here) (t : ℕ)
        → IsPlain bus board bank boxes a.chips
        → prescale a ≡ 1
        → c.due ≤ t
        → IsAhead
            (record c { now = t; due = c.due + period })
            (step bus board bank boxes inputs isr a)
    sweep-IsAhead c a t plain one l =
        let here : sweeps a.path.rx.capture ≡ true = rw one refl in
        let round : period + (board.t0_prescale - 1) * period ≡ board.t0_prescale * period =
          turned board.t0_prescale (period) some_ticks in
        record {
          left = board.t0_prescale - 1;
          counts = isr_counts a ∙ rw here (omega (arith, some_ticks));
          byte_wide = omega (arith, some_ticks, few_ticks);
          near = omega (arith, l, round);
          clear = λ p h. inl (isr_swept bus board bank boxes inputs full all p a plain here);
        }

    skip-IsAhead :
        (c : Clock) (a : Here) (t i : ℕ)
        → (v : IsAhead c a) → v.left ≡ suc i
        → c.now ≤ t
        → IsAhead
            (record c { now = t; due = c.due + period })
            (step bus board bank boxes inputs isr a)
    skip-IsAhead c a t i v e l =
        let count : prescale a ≡ suc (suc i) = v.counts ∙ ap suc e in
        let wide : suc (suc i) < 256 = rw e at v.byte_wide in
        let not_here : sweeps a.path.rx.capture ≡ false = rw count (ground (arith, wide)) in
        let round : v.left * period ≡ period + i * period =
          ap (λ k. k * period) e ∙ suc-mul i (period) ∙ add_comm (i * period) (period) in
        record {
          left = i;
          counts = isr_counts a ∙ rw (not_here, count) (omega (arith, wide));
          byte_wide = omega (arith, wide);
          near = omega (arith, v.near, l, round);
          clear = λ p h. elim (v.clear p h) [
            | inl o ↦ inl (isr_skipped bus board bank boxes inputs full all p a not_here ∙ o)
            | inr m ↦ inr (omega (arith, m, round))
          ];
        }

    pub tick-IsAhead :
        (c : Clock) (a : Here) (t : ℕ)
        → IsPlain bus board bank boxes a.chips
        → IsAhead c a
        → c.due ≤ t
        → c.now ≤ t
        → IsAhead
            (record c { now = t; due = c.due + period })
            (step bus board bank boxes inputs isr a)
    tick-IsAhead c a t plain v l m = by_left v.left refl
      where
        by_left :
            (k : ℕ)
            → v.left ≡ k
            → IsAhead
                (record c { now = t; due = c.due + period })
                (step bus board bank boxes inputs isr a)
        by_left zero e = sweep-IsAhead c a t plain (v.counts ∙ ap suc e) l
        by_left (suc i) e = skip-IsAhead c a t i v e m

    -- Nothing happens to the prescaler or to a receiver.
    pub idle-IsAhead :
        (c : Clock) (a b : Here) (t : ℕ)
        → IsAhead c a
        → c.now ≤ t
        → prescale b ≡ prescale a
        → ((p : ℕ) → held bus board bank boxes b p ≡ held bus board bank boxes a p)
        → IsAhead (record c { now = t }) b
    idle-IsAhead c a b t v l same_count same = record {
      left = v.left;
      counts = same_count ∙ v.counts;
      byte_wide = v.byte_wide;
      near = omega (arith, v.near, l);
      clear = λ p h. rw (same p) (v.clear p h);
    }
