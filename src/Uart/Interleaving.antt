-- ===== src/Uart/Interleaving.antt =====
-- The capture interrupt and the main loop may take turns in any order: what the main loop reads
-- from a port is what a bounded queue would give it.
use mathlib.Core.Path.{fun_ext}
use native.Mathlib.Decide.{ℕ_discrete}
use midex_class_firmware.Base.{
  ℕ, ◌≤◌, ◌≡◌, ◌∙◌, sym, ap, refl, Option, none, some, ltb, ◌==◌, ==_refl, ==_of_ne, if◌then◌else◌,
  write, List, [], ◌∷◌, ◌++◌, length, arith, Bool-cases, inl, inr, append_assoc, append-nil,
}
use midex_class_firmware.Uart.{Capture, uart_rx_available, uart_rx_dequeue, rx_store}
use midex_class_firmware.Uart.Fifo.{
  IsValid, waiting, enqueue, rx_store-IsValid, uart_rx_dequeue-IsValid, waiting-rx_store,
  waiting-rx_store_other, waiting-none, waiting-uart_rx_dequeue, waiting-uart_rx_dequeue_other,
  overflows-rx_store,
}

-- A byte that the interrupt stores, or a visit of the main loop to a port.
pub data Event : Type 0 where
  arrive : ℕ → ℕ → Event
  visit : ℕ → Event

-- The main loop reads a byte only where one is available.
unfoldable pub consume : ℕ → Capture → Option ℕ × Capture
consume p c =
    if uart_rx_available p c
    then (some (uart_rx_dequeue p c).0, (uart_rx_dequeue p c).1)
    else (none, c)

unfoldable pub step : Event → Capture → Option ℕ × Capture
unfolding consume
step (arrive p b) c = (none, rx_store p b c)
step (visit p) c = consume p c

-- The replies, oldest first, and the state at the end.
unfoldable pub run : List Event → Capture → List (Option ℕ) × Capture
run [] c = ([], c)
run (e ∷ es) c = let (r, d) = step e c in let (rs, last) = run es d in (r ∷ rs, last)

abbrev Queues : Type 0
Queues = ℕ → List ℕ

abbrev pop_from : ℕ → List ℕ → Queues → Option ℕ × Queues
pop_from p [] q = (none, q)
pop_from p (x ∷ xs) q = (some x, write q p xs)

abbrev pub queue_step : Event → Queues → Option ℕ × Queues
queue_step (arrive p b) q = (none, write q p (enqueue b (q p)))
queue_step (visit p) q = pop_from p (q p) q

abbrev pub queue_run : List Event → Queues → List (Option ℕ) × Queues
queue_run [] q = ([], q)
queue_run (e ∷ es) q =
    let (r, d) = queue_step e q in let (rs, last) = queue_run es d in (r ∷ rs, last)

stored :
    (p b : ℕ) (c : Capture)
    → IsValid c
    → waiting (rx_store p b c) ≡ write (waiting c) p (enqueue b (waiting c p))
stored p b c v = fun_ext λ j. elim (ℕ_discrete j p) [
  | yes e ↦ rw (e, ==_refl p) (waiting-rx_store p b c v)
  | no n ↦ rw (==_of_ne j p n) (waiting-rx_store_other p b j c n)
]

taken :
    (p : ℕ) (c : Capture)
    → IsValid c
    → (rest : List ℕ) → waiting (uart_rx_dequeue p c).1 p ≡ rest
    → waiting (uart_rx_dequeue p c).1 ≡ write (waiting c) p rest
taken p c v rest h = fun_ext λ j. elim (ℕ_discrete j p) [
  | yes e ↦ rw (e, ==_refl p) h
  | no n ↦ rw (==_of_ne j p n) (waiting-uart_rx_dequeue_other p j c n)
]

pub step-IsValid : (e : Event) (c : Capture) → IsValid c → IsValid (step e c).1
unfolding step consume
step-IsValid (arrive p b) c v = rx_store-IsValid p b c v
step-IsValid (visit p) c v = elim (Bool-cases (uart_rx_available p c)) [
  | inl e ↦ rw e (uart_rx_dequeue-IsValid p c v)
  | inr e ↦ rw e v
]

step_refines :
    (e : Event) (c : Capture)
    → IsValid c
    → ((step e c).0, waiting (step e c).1) ≡ queue_step e (waiting c)
unfolding step consume
step_refines (arrive p b) c v = ap (λ q. (none, q)) (stored p b c v)
step_refines (visit p) c v = elim (Bool-cases (uart_rx_available p c)) [
  | inl e ↦
      rw (e, waiting-uart_rx_dequeue p c v e)
        (ap (λ q. (some (uart_rx_dequeue p c).0, q)) (taken p c v _ refl))
  | inr e ↦ rw (e, waiting-none p c v e)
]

-- For any order of stored bytes and main-loop visits, from a valid capture state, the replies and the
-- final contents are those of one bounded queue for each port: at most fifteen bytes, a byte that
-- finds it full is dropped, a visit takes the oldest.
pub run_refines :
    (es : List Event) (c : Capture)
    → IsValid c
    → ((run es c).0, waiting (run es c).1) ≡ queue_run es (waiting c)
unfolding run
run_refines [] c v = refl
run_refines (e ∷ es) c v = rw (← step_refines e c v) (
    ap {A = List (Option ℕ) × Queues} (λ r. ((step e c).0 ∷ r.0, r.1))
      (run_refines es (step e c).1 (step-IsValid e c v)))

-- The bytes that arrive at port `p`.
abbrev pub arrival : ℕ → Event → List ℕ
arrival p (arrive q b) = if q == p then b ∷ [] else []
arrival p (visit q) = []

abbrev pub arrivals : ℕ → List Event → List ℕ
arrivals p [] = []
arrivals p (e ∷ es) = arrival p e ++ arrivals p es

abbrev pub reply_at : ℕ → Event → Option ℕ → List ℕ
reply_at p (visit q) (some b) = if q == p then b ∷ [] else []
reply_at p _ _ = []

-- The bytes that the main loop reads from port `p`.
unfoldable pub reads : ℕ → List Event → Capture → List ℕ
unfolding step
reads p [] c = []
reads p (e ∷ es) c = reply_at p e (step e c).0 ++ reads p es (step e c).1

overflows-step :
    (e : Event) (c : Capture)
    → IsValid c
    → c.uart_rx_overflows ≤ 255
    → c.uart_rx_overflows ≤ (step e c).1.uart_rx_overflows × ((step e c).1.uart_rx_overflows ≤ 255)
unfolding step consume uart_rx_dequeue
overflows-step (arrive p b) c v h = ground (arith, overflows-rx_store p b c v)
overflows-step (visit p) c v h = ground arith

overflows-run :
    (es : List Event) (c : Capture)
    → IsValid c
    → c.uart_rx_overflows ≤ 255
    → c.uart_rx_overflows ≤ (run es c).1.uart_rx_overflows
unfolding run
overflows-run [] c v h = omega arith
overflows-run (e ∷ es) c v h =
    let s = overflows-step e c v h in
    omega (arith, s.0, overflows-run es (step e c).1 (step-IsValid e c v) s.1)

kept :
    (b : ℕ) (p : ℕ) (c : Capture)
    → IsValid c
    → (rx_store p b c).uart_rx_overflows ≡ 0
    → enqueue b (waiting c p) ≡ waiting c p ++ (b ∷ [])
kept b p c v h = elim (Bool-cases (ltb (length (waiting c p)) 15)) [
  | inl e ↦ rw e
  | inr e ↦ absurd (ground (arith, rw e at (overflows-rx_store p b c v)))
]

lossless_visit :
    (p q : ℕ) (c : Capture)
    → IsValid c
    → reply_at p (visit q) (consume q c).0 ++ waiting (consume q c).1 p ≡ waiting c p ++ []
unfolding consume
lossless_visit p q c v = elim (Bool-cases (uart_rx_available q c)) [
  | inl a ↦ elim (ℕ_discrete q p) [
    | yes e ↦
        rw (a, e, ==_refl p)
          (sym (waiting-uart_rx_dequeue p c v (rw e at a)) ∙ sym (append-nil (waiting c p)))
    | no n ↦
        rw (a, ==_of_ne q p n)
          (waiting-uart_rx_dequeue_other q p c (λ e. n (sym e)) ∙ sym (append-nil (waiting c p)))
  ]
  | inr a ↦ rw a (sym (append-nil (waiting c p)))
]

lossless_step :
    (p : ℕ) (e : Event) (c : Capture)
    → IsValid c
    → (step e c).1.uart_rx_overflows ≡ 0
    → reply_at p e (step e c).0 ++ waiting (step e c).1 p ≡ waiting c p ++ arrival p e
unfolding step
lossless_step p (arrive q b) c v h = elim (ℕ_discrete q p) [
  | yes e ↦ rw (e, ==_refl p) (waiting-rx_store p b c v ∙ kept b p c v (rw e at h))
  | no n ↦
      rw (==_of_ne q p n)
        (waiting-rx_store_other q b p c (λ e. n (sym e)) ∙ sym (append-nil (waiting c p)))
]
lossless_step p (visit q) c v h = lossless_visit p q c v

-- If the overflow counter still stands at zero at the end, then what the main loop read from port `p`
-- followed by what still waits there is what waited at the start followed by all that arrived.
reads-run :
    (p : ℕ) (es : List Event) (c : Capture)
    → IsValid c
    → c.uart_rx_overflows ≤ 255
    → (run es c).1.uart_rx_overflows ≡ 0
    → reads p es c ++ waiting (run es c).1 p ≡ waiting c p ++ arrivals p es
unfolding run reads
reads-run p [] c v o h = sym (append-nil (waiting c p))
reads-run p (e ∷ es) c v o h =
    let d = (step e c).1 in
    let dv : IsValid d = step-IsValid e c v in
    let od : d.uart_rx_overflows ≤ 255 = (overflows-step e c v o).1 in
    append_assoc (reply_at p e (step e c).0) (reads p es d) (waiting (run es d).1 p)
    ∙ ap (λ l. reply_at p e (step e c).0 ++ l) (reads-run p es d dv od h)
    ∙ sym (append_assoc (reply_at p e (step e c).0) (waiting d p) (arrivals p es))
    ∙ ap (λ l. l ++ arrivals p es)
        (lossless_step p e c v (omega (arith, h, overflows-run es d dv od)))
    ∙ append_assoc (waiting c p) (arrival p e) (arrivals p es)
