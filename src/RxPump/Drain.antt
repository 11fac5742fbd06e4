-- ===== src/RxPump/Drain.antt =====
-- The inner loop of `midi_rx_pump` takes bytes off a port's FIFO in order, feeds them to the port's
-- parser and puts the packets behind the ring, until the FIFO is empty or the ring has no room.
use midex_class_firmware.Base.{
  ℕ, zero, suc, ◌≤◌, ◌<◌, ◌≡◌, ◌≢◌, ◌⊎◌, ◌∙◌, sym, ap, ap₂, refl, true, false, ltb, List, [], ◌∷◌,
  ◌++◌, length, length-append, arith, append_assoc, append-nil, Bool-cases, inl, inr, concat_map,
  concat_map-append, ltb→lt,
}
use midex_class_firmware.Ring
use midex_class_firmware.Parser.{parse_byte, packets_of, feed}
use midex_class_firmware.Uart.{Capture, uart_rx_available}
use midex_class_firmware.Uart.Fifo
use midex_class_firmware.Uart.Fifo.{
  waiting, uart_rx_dequeue-IsValid, waiting-uart_rx_dequeue, waiting-uart_rx_dequeue_other,
  waiting-none,
}
use midex_class_firmware.RxPump.{Rx, rx_ring_count, drain_one, drain, drain_fuel}
use midex_class_firmware.RxPump.Queue.{pending, frame, rx_ring_count-eq-length}
use midex_class_firmware.RxPump.Round.{IsValid, Round, drain_one-Round}

-- What the loop has done when it stops: the bytes that it took off, and why it stopped.
pub record Drained (p fuel : ℕ) (s t : Rx) : Type 0 where
  pub consumed : List ℕ
  pub taken : waiting s.capture p ≡ consumed ++ waiting t.capture p
  pub parsed : t.parser p ≡ (feed (s.parser p) consumed).0
  pub queued_up : pending t ≡ pending s ++ concat_map (frame p) (feed (s.parser p) consumed).1
  pub stopped : (waiting t.capture p ≡ []) ⊎ (252 ≤ length (pending t)) ⊎ (fuel ≤ length consumed)
  pub valid : IsValid t
  pub others :
      (q : ℕ) → q ≢ p → (t.parser q ≡ s.parser q) × (waiting t.capture q ≡ waiting s.capture q)
  pub in2_kept : t.in2 ≡ s.in2

stops_here :
    (p fuel : ℕ) (s : Rx)
    → IsValid s
    → (waiting s.capture p ≡ []) ⊎ (252 ≤ length (pending s)) ⊎ (fuel ≤ 0)
    → Drained p fuel s s
unfolding feed
stops_here p fuel s v why = record {
  consumed = [];
  taken = refl;
  parsed = refl;
  queued_up = sym (append-nil (pending s));
  stopped = why;
  valid = v;
  others = λ q n. (refl, refl);
  in2_kept = refl;
}

goes_on : (p fuel : ℕ) (s m t : Rx) → Round p s m → Drained p fuel m t → Drained p (suc fuel) s t
unfolding feed
goes_on p fuel s m t r d =
    let again : feed (m.parser p) d.consumed ≡ feed (parse_byte r.byte (s.parser p)).0 d.consumed =
      ap (λ ps. feed ps d.consumed) r.parsed in
    let out = packets_of (parse_byte r.byte (s.parser p)).1 in
    record {
      consumed = r.byte ∷ d.consumed;
      taken = r.taken ∙ ap (λ l. r.byte ∷ l) d.taken;
      parsed = d.parsed ∙ ap (λ f. f.0) again;
      queued_up =
          d.queued_up
          ∙ ap₂ (λ l f. l ++ concat_map (frame p) f.1) r.queued_up again
          ∙ append_assoc (pending s) (concat_map (frame p) out)
              (concat_map (frame p) (feed (parse_byte r.byte (s.parser p)).0 d.consumed).1)
          ∙ ap (λ l. pending s ++ l)
              (sym (
                concat_map-append (frame p) out
                  (feed (parse_byte r.byte (s.parser p)).0 d.consumed).1));
      stopped = one_more d.stopped;
      valid = d.valid;
      others = λ q n. ((d.others q n).0 ∙ (r.others q n).0, (d.others q n).1 ∙ (r.others q n).1);
      in2_kept = d.in2_kept ∙ r.in2_kept;
    }
  where
    one_more : {A B : Type 0} {n : ℕ} → A ⊎ B ⊎ (fuel ≤ n) → A ⊎ B ⊎ (suc fuel ≤ suc n)
    one_more (inl a) = inl a
    one_more (inr (inl b)) = inr (inl b)
    one_more (inr (inr l)) = inr (inr (omega arith))

pub drain-Drained : (fuel p : ℕ) (s : Rx) → p < 8 → IsValid s → Drained p fuel s (drain fuel p s)
unfolding drain
drain-Drained zero p s h v = stops_here p 0 s v (inr (inr (omega arith)))
drain-Drained (suc fuel) p s h v = elim (Bool-cases (uart_rx_available p s.capture)) [
  | inr e ↦ rw (e, drain) (stops_here p (suc fuel) s v (inl (waiting-none p s.capture v.fifos e)))
  | inl e ↦ elim (Bool-cases (ltb 251 (rx_ring_count s))) [
    | inl full ↦
        rw (e, full, drain)
          (stops_here p (suc fuel) s v
            (inr (inl (omega (arith, ltb→lt _ _ full, rx_ring_count-eq-length s)))))
    | inr room ↦
        rw (e, room, drain)
          (goes_on p fuel s (drain_one p s) (drain fuel p (drain_one p s)) (round s h v e room)
            (drain-Drained fuel p (drain_one p s) h (round s h v e room).valid))
  ]
]
  where
    round :
        (s : Rx)
        → p < 8
        → IsValid s
        → uart_rx_available p s.capture ≡ true
        → ltb 251 (rx_ring_count s) ≡ false
        → Round p s (drain_one p s)
    round s h v e room = drain_one-Round p s h v e (ground (arith, rx_ring_count-eq-length s))

pub length-waiting_lt : (p : ℕ) (c : Capture) → Fifo.IsValid c → length (waiting c p) < 16
length-waiting_lt p c v = omega (
  arith,
  Ring.length-span 16 (c.rx_fifo p) (c.rx_fifo_tail p)
      (Ring.queued 16 (c.rx_fifo_head p) (c.rx_fifo_tail p)),
  Ring.queued-lt 16 (c.rx_fifo_head p) (c.rx_fifo_tail p) (v p).1,
)

-- The fuel of a pass is enough: the loop ends by one of its tests.
pub drain_done :
    (p : ℕ) (s t : Rx)
    → IsValid s
    → (d : Drained p 16 s t) → (waiting t.capture p ≡ []) ⊎ (252 ≤ length (pending t))
drain_done p s t v d = pick d.stopped
  where
    pick :
        (waiting t.capture p ≡ []) ⊎ (252 ≤ length (pending t)) ⊎ (16 ≤ length d.consumed)
        → (waiting t.capture p ≡ []) ⊎ (252 ≤ length (pending t))
    pick (inl a) = inl a
    pick (inr (inl b)) = inr b
    pick (inr (inr l)) = absurd (
        omega (
          arith,
          ap length d.taken,
          length-append d.consumed (waiting t.capture p),
          length-waiting_lt p s.capture v.fifos,
        ))

-- From a valid state the inner loop of `midi_rx_pump` takes bytes off the front of port `p`'s FIFO,
-- feeds them to the port's parser and puts the packets behind the ring; it keeps the state valid and
-- the other ports as they were; and it ends with the FIFO empty or fewer than four free bytes.
pub drain_stops :
    (p : ℕ) (s : Rx)
    → p < 8
    → IsValid s
    → let t = drain drain_fuel p s in
      Drained p 16 s t × ((waiting t.capture p ≡ []) ⊎ (252 ≤ length (pending t)))
drain_stops p s h v = let d = drain-Drained 16 p s h v in (d, drain_done p s (drain 16 p s) v d)
