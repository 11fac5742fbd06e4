-- ===== src/RxPath/Settle.antt =====
-- A host that keeps reading EP2-IN gets everything: the receive path comes to rest.
use mathlib.Core.Path.{subst}
use native.Mathlib.Decide.{ℕ_discrete}
use midex_class_firmware.Base.{
  ℕ, zero, suc, ◌+◌, ◌*◌, ◌%◌, ◌≤◌, ◌<◌, ◌≡◌, ◌≢◌, ◌⊎◌, inl, inr, ◌∙◌, sym, ap, ap₂, refl, true,
  false, Bool-cases, Option, none, some, ◌==◌, List, [], ◌∷◌, length, length-append, concat_map,
  arith, for_ports_inv, for_ports_reach,
}
use midex_class_firmware.Parser.{PortParser, Packet, packets_of, parse_byte, feed}
use midex_class_firmware.Uart.Fifo.{waiting}
use midex_class_firmware.RxPump.{Rx, drain}
use midex_class_firmware.RxPump.Queue.{pending, frame}
use midex_class_firmware.RxPump.Round.{IsValid}
use midex_class_firmware.RxPump.Drain.{Drained, drain-Drained, drain_done}
use midex_class_firmware.RxPump.Ship.{Shipped}
use midex_class_firmware.RxPump.Pass.{drained}
use midex_class_firmware.RxPath.Steps.{length-frames}

-- The bytes in the FIFOs of the ports below `k`.
abbrev pub waiting_below : ℕ → Rx → ℕ
waiting_below zero s = 0
waiting_below (suc k) s = length (waiting s.capture k) + waiting_below k s

-- What is left to do: a byte off a FIFO gives a packet of four bytes at most.
abbrev pub load : Rx → ℕ
load s = length (pending s) + 4 * waiting_below 8 s

below_same :
    (p k : ℕ) (s t : Rx)
    → ((q : ℕ) → q ≢ p → waiting t.capture q ≡ waiting s.capture q)
    → k ≤ p
    → waiting_below k t ≡ waiting_below k s
below_same p zero s t other h = refl
below_same p (suc k) s t other h =
    omega (arith, ap length (other k (omega arith)), below_same p k s t other (omega arith))

below_one :
    (p k n : ℕ) (s t : Rx)
    → ((q : ℕ) → q ≢ p → waiting t.capture q ≡ waiting s.capture q)
    → length (waiting s.capture p) ≡ n + length (waiting t.capture p)
    → p < k
    → waiting_below k s ≡ n + waiting_below k t
below_one p zero n s t other own h = absurd (omega arith)
below_one p (suc k) n s t other own h = elim (ℕ_discrete k p) [
  | yes e ↦ omega (
    arith,
    own,
    below_same p k s t other (omega arith),
    ap (λ q. length (waiting s.capture q)) e,
    ap (λ q. length (waiting t.capture q)) e,
  )
  | no d ↦ omega (arith, ap length (other k d), below_one p k n s t other own (omega arith))
]

few_packets : (ps : PortParser) (bs : List ℕ) → length (feed ps bs).1 ≤ length bs
unfolding feed
few_packets ps [] = omega arith
few_packets ps (b ∷ bs) = omega (
  arith,
  at_most_one (parse_byte b ps).1,
  length-append (packets_of (parse_byte b ps).1) (feed (parse_byte b ps).0 bs).1,
  few_packets (parse_byte b ps).0 bs,
)
  where
    at_most_one : (out : Option Packet) → length (packets_of out) ≤ 1
    at_most_one none = omega arith
    at_most_one (some k) = omega arith

-- Draining a port adds no load, and the ring grows by whole packets.
module _ (p : ℕ) (s t : Rx) (h : p < 8) (d : Drained p 16 s t) where
  queued : length (pending t) ≡ length (pending s) + 4 * length (feed (s.parser p) d.consumed).1
  queued = omega (
    arith,
    ap length d.queued_up,
    length-append (pending s) (concat_map (frame p) (feed (s.parser p) d.consumed).1),
    length-frames p (feed (s.parser p) d.consumed).1,
  )

  load-Drained : load t ≤ load s
  load-Drained = omega (
    arith,
    queued,
    few_packets (s.parser p) d.consumed,
    below_one p 8 (length d.consumed) s t (λ q n. (d.others q n).1)
        (ap length d.taken ∙ length-append d.consumed (waiting t.capture p)) h,
  )

  whole-Drained : length (pending s) % 4 ≡ 0 → length (pending t) % 4 ≡ 0
  whole-Drained w = omega (arith, queued, w)

-- All ports: no load is added, and each ends empty or finds the ring full.
module _ (s : Rx) (v : IsValid s) (w : length (pending s) % 4 ≡ 0) where
  pub record SoFar (t : Rx) : Type 0 where
    pub valid : IsValid t
    pub whole : length (pending t) % 4 ≡ 0
    pub less : load t ≤ load s

  pub all-SoFar : SoFar (drained s)
  all-SoFar =
      for_ports_inv (drain 16) SoFar 8 s
        (λ p t h a.
          let d = drain-Drained 16 p t h a.valid in
          record {
            valid = d.valid;
            whole = whole-Drained p t (drain 16 p t) h d a.whole;
            less = omega (arith, a.less, load-Drained p t (drain 16 p t) h d);
          })
        (record { valid = v; whole = w; less = omega arith })

abbrev Emptied : ℕ → Rx → Type 0
Emptied q t = (waiting t.capture q ≡ []) ⊎ (252 ≤ length (pending t))

only_nil : (l : List ℕ) → length l ≡ 0 → l ≡ []
only_nil [] h = refl
only_nil (x ∷ l) h = absurd (omega arith)

stays_Emptied : (p q : ℕ) (s t : Rx) → Drained p 16 s t → Emptied q s → Emptied q t
stays_Emptied p q s t d (inr l) = inr (
    omega (
      arith,
      l,
      ap length d.queued_up,
      length-append (pending s) (concat_map (frame p) (feed (s.parser p) d.consumed).1),
    ))
stays_Emptied p q s t d (inl e) = inl (elim (ℕ_discrete q p) [
  | yes m ↦
      subst (λ r. waiting t.capture r ≡ []) (sym m)
        (only_nil (waiting t.capture p) (
          omega (
            arith,
            ap length d.taken,
            length-append d.consumed (waiting t.capture p),
            ap length (ap (waiting s.capture) (sym m) ∙ e),
          )))
  | no n ↦ (d.others q n).1 ∙ e
])

drained-Emptied : (q : ℕ) (s : Rx) → q < 8 → IsValid s → Emptied q (drained s)
drained-Emptied q s h v =
    for_ports_reach (drain 16) IsValid (Emptied q) q 8 s
      (λ p t l w. (drain-Drained 16 p t l w).valid)
      (λ p t l w g. stays_Emptied p q t (drain 16 p t) (drain-Drained 16 p t l w) g)
      (λ t w. drain_done q t (drain 16 q t) w (drain-Drained 16 q t h w)) v h

-- Nothing waits in the ring or at a port.
pub record IsRested (s : Rx) : Type 0 where
  pub ring : pending s ≡ []
  pub ports : (q : ℕ) → q < 8 → waiting s.capture q ≡ []

module _ (s : Rx) (v : IsValid s) (w : length (pending s) % 4 ≡ 0) where
  so_far : SoFar s v w (drained s)
  so_far = all-SoFar s v w

  -- What is shipped is taken off the load, and nothing is shipped only when nothing is left.
  pub shipped : (t : Rx) → Shipped (drained s) t → IsRested t ⊎ (load t + 4 ≤ load s)
  shipped t d = elim (Bool-cases (length d.moved == 0)) [
    | inl e ↦ inl (record {
      ring = only_nil (pending t) (none_left e d.greedy);
      ports = λ q h. ap (λ c. waiting c q) d.same_capture ∙ elim (drained-Emptied q s h v) [
        | inl f ↦ f
        | inr l ↦ absurd (omega (arith, l, split, none_left e d.greedy, none_moved e))
      ];
    })
    | inr e ↦ inr (omega (arith, split, d.whole, so_far.less, same_ports 8, some_moved e))
  ]
    where
      split : length (pending (drained s)) ≡ length d.moved + length (pending t)
      split = ap length d.taken ∙ length-append d.moved (pending t)

      none_moved : length d.moved == 0 ≡ true → length d.moved ≡ 0
      none_moved e = ground arith

      some_moved : length d.moved == 0 ≡ false → 1 ≤ length d.moved
      some_moved e = ground arith

      none_left :
          length d.moved == 0 ≡ true
          → (length (pending t) < 4) ⊎ (length d.moved ≡ 64)
          → length (pending t) ≡ 0
      none_left e g = ground (arith, split, so_far.whole)

      same_ports : (k : ℕ) → waiting_below k t ≡ waiting_below k (drained s)
      same_ports zero = refl
      same_ports (suc k) =
          ap₂ (λ x y. x + y) (ap (λ c. length (waiting c k)) d.same_capture) (same_ports k)
