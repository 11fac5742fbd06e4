-- ===== src/Uart/Fifo.antt =====
-- Each port's FIFO is a queue of at most fifteen bytes.
use midex_class_firmware.Base.{
  ℕ, ◌+◌, ◌%◌, ◌<◌, ◌≡◌, ◌≢◌, ◌∙◌, sym, ap, true, false, ltb, ◌==◌, if◌then◌else◌, write,
  write_self, write_ne, List, [], ◌∷◌, ◌++◌, length, arith, for_ports_at, Bool-cases, inl, inr,
  ==_iff, ==_refl, ==_of_ne, ne_of_==,
}
use midex_class_firmware.Ring
use midex_class_firmware.Ring.{bytes, queued}
use midex_class_firmware.Uart.{
  Capture, reset_port, uart_rx_reset, uart_rx_available, uart_rx_dequeue, rx_store,
}

-- Every index stands inside its FIFO.
abbrev pub IsValid : Capture → Type 0
IsValid c = (p : ℕ) → (c.rx_fifo_head p < 16) × (c.rx_fifo_tail p < 16)

-- The bytes captured for a port and not yet consumed, oldest first.
abbrev pub waiting : Capture → ℕ → List ℕ
waiting c p = bytes 16 (c.rx_fifo p) (c.rx_fifo_head p) (c.rx_fifo_tail p)

-- A queue that holds fifteen bytes at most, and drops what comes when it is full.
abbrev pub enqueue : ℕ → List ℕ → List ℕ
enqueue b q = if ltb (length q) 15 then q ++ (b ∷ []) else q

pub rx_store-IsValid : (port byte : ℕ) (c : Capture) → IsValid c → IsValid (rx_store port byte c)
unfolding rx_store
rx_store-IsValid port byte c v p = ground (arith, v p, v port)

pub uart_rx_dequeue-IsValid :
    (port : ℕ) (c : Capture) → IsValid c → IsValid (uart_rx_dequeue port c).1
unfolding uart_rx_dequeue
uart_rx_dequeue-IsValid port c v p = ground (arith, v p, v port)

enqueue_full : (b : ℕ) (q : List ℕ) → length q ≡ 15 → enqueue b q ≡ q
enqueue_full b q h = rw h

enqueue_room : (b : ℕ) (q : List ℕ) → length q < 15 → enqueue b q ≡ q ++ (b ∷ [])
enqueue_room b q h = ground arith

length-waiting :
    (port : ℕ) (c : Capture)
    → length (waiting c port) ≡ queued 16 (c.rx_fifo_head port) (c.rx_fifo_tail port)
length-waiting port c = Ring.length-span 16 (c.rx_fifo port) (c.rx_fifo_tail port) _

module _ (port : ℕ) (c : Capture)
    (v : (c.rx_fifo_head port < 16) × (c.rx_fifo_tail port < 16)) where
  full :
      ((c.rx_fifo_head port + 1) % 256 % 16 == c.rx_fifo_tail port) ≡ true
      → queued 16 (c.rx_fifo_head port) (c.rx_fifo_tail port) ≡ 15
  full e = omega (arith, (==_iff _ _).0 e)

  not_full :
      ((c.rx_fifo_head port + 1) % 256 % 16 == c.rx_fifo_tail port) ≡ false
      → queued 16 (c.rx_fifo_head port) (c.rx_fifo_tail port) < 15
  not_full e = omega (arith, ne_of_== _ _ e)

pushed :
    (port byte : ℕ) (c : Capture)
    → (c.rx_fifo_head port < 16) × (c.rx_fifo_tail port < 16)
    → ((c.rx_fifo_head port + 1) % 256 % 16 == c.rx_fifo_tail port) ≡ false
    → bytes 16
        (write (c.rx_fifo port) (c.rx_fifo_head port) byte)
        ((c.rx_fifo_head port + 1) % 256 % 16)
        (c.rx_fifo_tail port)
      ≡ waiting c port ++ (byte ∷ [])
pushed port byte c v e =
    let same : (c.rx_fifo_head port + 1) % 256 % 16 ≡ (c.rx_fifo_head port + 1) % 16 =
      omega arith in
    rw same (
      Ring.bytes-push 16 (c.rx_fifo port) (c.rx_fifo_head port) (c.rx_fifo_tail port) byte v.0 v.1
        (omega (arith, not_full port c v e)))

pub waiting-rx_store :
    (port byte : ℕ) (c : Capture)
    → IsValid c
    → waiting (rx_store port byte c) port ≡ enqueue byte (waiting c port)
unfolding rx_store
waiting-rx_store port byte c v =
    elim (Bool-cases ((c.rx_fifo_head port + 1) % 256 % 16 == c.rx_fifo_tail port)) [
      | inl e ↦ rw e (
          sym (enqueue_full byte (waiting c port) (length-waiting port c ∙ full port c (v port) e)))
      | inr e ↦
          rw (e, ==_refl port)
            (pushed port byte c (v port) e
              ∙ sym (
                  enqueue_room byte (waiting c port)
                    (rw (length-waiting port c) (not_full port c (v port) e))))
    ]

pub waiting-rx_store_other :
    (port byte q : ℕ) (c : Capture) → q ≢ port → waiting (rx_store port byte c) q ≡ waiting c q
unfolding rx_store
waiting-rx_store_other port byte q c n =
    elim (Bool-cases ((c.rx_fifo_head port + 1) % 256 % 16 == c.rx_fifo_tail port)) [
      | inl e ↦ rw e
      | inr e ↦ rw (e, ==_of_ne q port n)
    ]

pub waiting-none :
    (port : ℕ) (c : Capture) → IsValid c → uart_rx_available port c ≡ false → waiting c port ≡ []
unfolding uart_rx_available
waiting-none port c v h =
    let met : c.rx_fifo_head port ≡ c.rx_fifo_tail port = ground arith in
    ap (Ring.span 16 (c.rx_fifo port) (c.rx_fifo_tail port))
      ((Ring.empty_iff 16 _ _ (v port).0 (v port).1).0 met)

pub waiting-uart_rx_dequeue :
    (port : ℕ) (c : Capture)
    → IsValid c
    → uart_rx_available port c ≡ true
    → waiting c port ≡ (uart_rx_dequeue port c).0 ∷ waiting (uart_rx_dequeue port c).1 port
unfolding uart_rx_available uart_rx_dequeue
waiting-uart_rx_dequeue port c v h = rw (==_refl port) (
    Ring.bytes-pop 16 (c.rx_fifo port) (c.rx_fifo_head port) (c.rx_fifo_tail port) (v port).0
      (v port).1 (ground arith))

pub waiting-uart_rx_dequeue_other :
    (port q : ℕ) (c : Capture) → q ≢ port → waiting (uart_rx_dequeue port c).1 q ≡ waiting c q
unfolding uart_rx_dequeue
waiting-uart_rx_dequeue_other port q c n = rw (==_of_ne q port n)

-- The overflow counter tells whether a byte was dropped, up to its ceiling.
pub overflows-rx_store :
    (port byte : ℕ) (c : Capture)
    → IsValid c
    → (rx_store port byte c).uart_rx_overflows ≡ (
        if ltb (length (waiting c port)) 15
        then c.uart_rx_overflows
        else if c.uart_rx_overflows == 0xFF
        then 0xFF
        else c.uart_rx_overflows + 1)
unfolding rx_store
overflows-rx_store port byte c v =
    ground (arith, length-waiting port c, full port c (v port), not_full port c (v port))

pub uart_rx_reset-IsValid :
    (c : Capture) (p : ℕ)
    → p < 8
    → (waiting (uart_rx_reset c) p ≡ [])
      × ((uart_rx_reset c).rx_fifo_head p ≡ 0)
      × ((uart_rx_reset c).rx_fifo_tail p ≡ 0)
unfolding uart_rx_reset reset_port
uart_rx_reset-IsValid c p h =
    let at_head =
      for_ports_at reset_port (λ d. d.rx_fifo_head p) p (λ _. Unit {0}) (λ _. 0) 8 c (λ _ _ _. tt)
        (λ r t n. write_ne t.rx_fifo_head r p 0 (λ e. n (sym e)))
        (λ t _. write_self t.rx_fifo_head p 0) tt h in
    let at_tail =
      for_ports_at reset_port (λ d. d.rx_fifo_tail p) p (λ _. Unit {0}) (λ _. 0) 8 c (λ _ _ _. tt)
        (λ r t n. write_ne t.rx_fifo_tail r p 0 (λ e. n (sym e)))
        (λ t _. write_self t.rx_fifo_tail p 0) tt h in
    (rw (at_head, at_tail), at_head, at_tail)
