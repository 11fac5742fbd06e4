-- ===== src/UartExt/Latch.antt =====
-- The read-back loop of `uart_write_lcr`, on a bus that may lose writes.
use midex_class_firmware.Base.{
  ℕ, zero, suc, ◌<◌, ◌≡◌, ◌≢◌, refl, ◌==◌, ==_iff, ne_of_==, Bool-cases, inl, inr, arith,
}
use midex_class_firmware.Config.{Board}
use midex_class_firmware.UartExt.{Bus, uart_reg, uart_lcr, lcr_loop, uart_write_lcr}

module _ (bus : Bus) (board : Board) (port val : ℕ) where
  -- What one try reads back, and the state behind the read.
  abbrev pub answer : bus.State → ℕ × bus.State
  answer s =
      bus.read (uart_reg board port uart_lcr) (bus.write (uart_reg board port uart_lcr) val s)

  -- The state behind `k` tries and their delays.
  unfoldable pub tried : ℕ → bus.State → bus.State
  tried zero s = s
  tried (suc k) s = tried k (bus.delay_us 10 (answer s).1)

  -- The two outcomes of at most `n` tries from `s`: try `k` is the first that reads `val` back, and
  -- nothing is done behind its read; or no try does.
  pub data Outcome (n : ℕ) (s t : bus.State) : Type 0 where
    latched :
        (k : ℕ)
        → k < n
        → ((j : ℕ) → j < k → (answer (tried j s)).0 ≢ val)
        → (answer (tried k s)).0 ≡ val
        → t ≡ (answer (tried k s)).1
        → Outcome n s t
    gave_up : ((j : ℕ) → j < n → (answer (tried j s)).0 ≢ val) → t ≡ tried n s → Outcome n s t

  -- A failed try in front.
  earlier :
      (s : bus.State) (n : ℕ)
      → (answer s).0 ≢ val
      → ((j : ℕ) → j < n → (answer (tried j (bus.delay_us 10 (answer s).1))).0 ≢ val)
      → (j : ℕ) → j < suc n
      → (answer (tried j s)).0 ≢ val
  unfolding tried
  earlier s n ne all zero h = ne
  earlier s n ne all (suc j) h = all j (omega arith)

  later :
      (n : ℕ) (s t : bus.State)
      → (answer s).0 ≢ val
      → Outcome n (bus.delay_us 10 (answer s).1) t
      → Outcome (suc n) s t
  unfolding tried
  later n s t ne (latched k h all e f) = latched (suc k) (omega arith) (earlier s k ne all) e f
  later n s t ne (gave_up all f) = gave_up (earlier s n ne all) f

  loop-Outcome : (n : ℕ) (s : bus.State) → Outcome n s (lcr_loop bus board n port val s)
  unfolding lcr_loop tried
  loop-Outcome zero s = gave_up (λ j h. absurd (omega arith)) refl
  loop-Outcome (suc n) s = elim (Bool-cases ((answer s).0 == val)) [
    | inl e ↦ rw e (latched 0 (omega arith) (λ j h. absurd (omega arith)) ((==_iff _ _).0 e) refl)
    | inr e ↦ rw e (later n s _ (ne_of_== _ _ e) (loop-Outcome n (bus.delay_us 10 (answer s).1)))
  ]

-- On every bus `uart_write_lcr` stops behind the first try that reads the value back, and if none of
-- the BOARD_UART_LCR_MAX_TRIES tries does, behind the last try and its delay.
pub uart_write_lcr-Outcome :
    (bus : Bus) (board : Board) (port val : ℕ) (s : bus.State)
    → Outcome bus board port val board.lcr_max_tries s (uart_write_lcr bus board port val s)
unfolding uart_write_lcr
uart_write_lcr-Outcome bus board port val s = loop-Outcome bus board port val board.lcr_max_tries s
