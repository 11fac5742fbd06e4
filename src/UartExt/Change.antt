-- ===== src/UartExt/Change.antt =====
-- What a try, several tries and `uart_write_lcr` change in a bank.
use midex_class_firmware.Base.{ℕ, zero, suc, ◌<◌, ◌≡◌, ◌≢◌, ◌∙◌, sym, ap, refl, arith, inl, inr}
use midex_class_firmware.Config.{Board}
use midex_class_firmware.UartExt.{Bus, uart_reg, uart_lcr, uart_write_lcr}
use midex_class_firmware.UartExt.Latch.{
  answer, tried, Outcome, latched, gave_up, uart_write_lcr-Outcome,
}
use midex_class_firmware.UartExt.Bank.{Channel, Bank}

unfoldable pub with_lcr : ℕ → Channel → Channel
with_lcr v c = record c { lcr = v }

module _ (bus : Bus) (board : Board) (bank : Bank bus board) where
  open bank use {channel}

  -- From `s` to `t` channel `p` has come from `a` to `b`, and the others are as they were.
  pub record Changed (p : ℕ) (s t : bus.State) (b : Channel) : Type 0 where
    pub own : channel t p ≡ b
    pub others : (q : ℕ) → q < board.num_ext_ports → q ≢ p → channel t q ≡ channel s q

  -- A try leaves all but LCR of its own channel, which it either writes or leaves.
  answer-Changed :
      (p v : ℕ) (s : bus.State)
      → p < board.num_ext_ports
      → v < 256
      → (l : ℕ) × Changed p s (answer bus board p v s).1 (with_lcr l (channel s p))
  unfolding with_lcr
  answer-Changed p v s h b =
      let put = bus.write (uart_reg board p uart_lcr) v s in
      let apart : (q : ℕ)
          → q < board.num_ext_ports
          → q ≢ p
          → channel (answer bus board p v s).1 q ≡ channel s q =
        λ q l n.
          bank.read_lcr_keeps p q put h ∙ bank.write_apart p q uart_lcr v s h l (omega arith) n in
      elim (bank.write_lcr p v s h b) [
        | inl e ↦ (v, record { own = bank.read_lcr_keeps p p put h ∙ e; others = apart })
        | inr e ↦
            ((channel s p).lcr, record { own = bank.read_lcr_keeps p p put h ∙ e; others = apart })
      ]

  -- Two changes of LCR one after another.
  chain :
      (p l m : ℕ) {s t u : bus.State}
      → Changed p s t (with_lcr l (channel s p))
      → Changed p t u (with_lcr m (channel t p))
      → Changed p s u (with_lcr m (channel s p))
  unfolding with_lcr
  chain p l m f g = record {
    own = g.own ∙ ap (with_lcr m) f.own;
    others = λ q h n. g.others q h n ∙ f.others q h n;
  }

  -- With a delay between them.
  chain_delay :
      (p l m k : ℕ) {s t u : bus.State}
      → Changed p s t (with_lcr l (channel s p))
      → Changed p (bus.delay_us k t) u (with_lcr m (channel (bus.delay_us k t) p))
      → Changed p s u (with_lcr m (channel s p))
  chain_delay p l m k {s} {t} {u} f g = chain p l m f (record {
    own = g.own ∙ ap (with_lcr m) (bank.delay_keeps k p t);
    others = λ q h n. g.others q h n ∙ bank.delay_keeps k q t;
  })

  tried-Changed :
      (p v k : ℕ) (s : bus.State)
      → p < board.num_ext_ports
      → v < 256
      → (l : ℕ) × Changed p s (tried bus board p v k s) (with_lcr l (channel s p))
  unfolding tried with_lcr
  tried-Changed p v zero s h b = ((channel s p).lcr, record { own = refl; others = λ q l n. refl })
  tried-Changed p v (suc k) s h b =
      let (l, f) = answer-Changed p v s h b in
      let (m, g) = tried-Changed p v k (bus.delay_us 10 (answer bus board p v s).1) h b in
      (m, chain_delay p l m 10 f g)

  -- The try that reads `v` back has written it.
  answer-Changed_read :
      (p v : ℕ) (s : bus.State)
      → p < board.num_ext_ports
      → v < 256
      → (answer bus board p v s).0 ≡ v
      → Changed p s (answer bus board p v s).1 (with_lcr v (channel s p))
  unfolding with_lcr
  answer-Changed_read p v s h b e =
      let (l, f) = answer-Changed p v s h b in
      let put = bus.write (uart_reg board p uart_lcr) v s in
      let same : l ≡ v =
        sym (ap (λ c. c.lcr) (sym (bank.read_lcr_keeps p p put h) ∙ f.own))
        ∙ sym (bank.read_lcr p put h)
        ∙ e in
      record { own = f.own ∙ ap (λ x. with_lcr x (channel s p)) same; others = f.others }

  pub write_lcr-Changed :
      (p v : ℕ) (s : bus.State)
      → p < board.num_ext_ports
      → v < 256
      → Changed p s (uart_write_lcr bus board p v s) (with_lcr v (channel s p))
  write_lcr-Changed p v s h b =
      by_outcome (uart_write_lcr bus board p v s) (uart_write_lcr-Outcome bus board p v s)
    where
      by_outcome :
          (t : bus.State)
          → Outcome bus board p v board.lcr_max_tries s t
          → Changed p s t (with_lcr v (channel s p))
      by_outcome t (latched k l f e last) =
          let (m, g) = tried-Changed p v k s h b in
          rw last (chain p m v g (answer-Changed_read p v (tried bus board p v k s) h b e))
      by_outcome t (gave_up never last) =
          let (k, l, e) = bank.sticks p v s h b in absurd (never k l e)
