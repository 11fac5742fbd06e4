-- ===== src/Uart/Emptied.antt =====
-- A sweep of the capture interrupt on receivers that hold one byte each.
use midex_class_firmware.Base.{
  ℕ, zero, suc, ◌+◌, ◌<◌, ◌≤◌, ◌≡◌, ◌≢◌, ◌∙◌, sym, ap, refl, ==_iff, ne_of_==, Bool, Bool-cases,
  true, false, inl, inr, ◌&&◌, ◌==◌, ltb, ltb→lt, if◌then◌else◌, Option, Option-cases, none, some,
  has_bit, for_ports, for_ports_last, for_ports_none, arith,
}
use midex_class_firmware.Config.{Board}
use midex_class_firmware.UartExt.{Bus, uart_reg, uart_lsr}
use midex_class_firmware.UartExt.Bank.{Bank}
use midex_class_firmware.Uart.{Capture}
use midex_class_firmware.Uart.Direct.{
  uart_rhr, Receivers, direct_sweep, look, asked, shown, served, direct_sweep-shown,
}
use midex_class_firmware.Uart.Fifo.{IsValid, waiting}
use midex_class_firmware.Uart.Sweep.{found, enqueue?, waiting-sweep}

abbrev pub is_some : Option ℕ → Bool
is_some none = false
is_some (some b) = true

-- The receivers of a bank: DR shows whether RHR holds a byte, a read of LSR leaves it there, and a
-- read of RHR with DLAB clear gives it and takes it. No such read changes LCR.
pub record Inboxes (bus : Bus) (board : Board) (bank : Bank bus board) : Type 0 where
  pub inbox : bus.State → ℕ → Option ℕ
  pub lsr_shows :
      (p : ℕ) (s : bus.State)
      → p < board.num_ext_ports
      → has_bit 0x01 (bus.read (uart_reg board p uart_lsr) s).0 ≡ is_some (inbox s p)
  pub lsr_keeps :
      (p q : ℕ) (s : bus.State)
      → p < board.num_ext_ports
      → inbox (bus.read (uart_reg board p uart_lsr) s).1 q ≡ inbox s q
  pub lsr_lcr :
      (p q : ℕ) (s : bus.State)
      → p < board.num_ext_ports
      → (bank.channel (bus.read (uart_reg board p uart_lsr) s).1 q).lcr ≡ (bank.channel s q).lcr
  pub rhr_gives :
      (p b : ℕ) (s : bus.State)
      → p < board.num_ext_ports
      → has_bit 0x80 (bank.channel s p).lcr ≡ false
      → inbox s p ≡ some b
      → (bus.read (uart_reg board p uart_rhr) s).0 ≡ b
  pub rhr_takes :
      (p : ℕ) (s : bus.State)
      → p < board.num_ext_ports
      → has_bit 0x80 (bank.channel s p).lcr ≡ false
      → inbox (bus.read (uart_reg board p uart_rhr) s).1 p ≡ none
  pub rhr_apart :
      (p q : ℕ) (s : bus.State)
      → p < board.num_ext_ports
      → q ≢ p
      → inbox (bus.read (uart_reg board p uart_rhr) s).1 q ≡ inbox s q
  pub rhr_lcr :
      (p q : ℕ) (s : bus.State)
      → p < board.num_ext_ports
      → (bank.channel (bus.read (uart_reg board p uart_rhr) s).1 q).lcr ≡ (bank.channel s q).lcr

module _ (bus : Bus) (board : Board) (bank : Bank bus board) (boxes : Inboxes bus board bank) where
  open boxes use {inbox}

  -- DLAB is clear in all channels.
  abbrev pub IsPlain : bus.State → Type 0
  IsPlain s = (p : ℕ) → p < board.num_ext_ports → has_bit 0x80 (bank.channel s p).lcr ≡ false

  -- Behind the reads at the ports below `k`.
  pub record After (k : ℕ) (s t : bus.State) : Type 0 where
    pub plain : IsPlain t
    pub ahead : (p : ℕ) → k ≤ p → inbox t p ≡ inbox s p
    pub behind : (p : ℕ) → p < k → inbox t p ≡ none

  is_some-none : (o : Option ℕ) → is_some o ≡ false → o ≡ none
  is_some-none none e = refl
  is_some-none (some b) e = absurd (cc e)

  up_to :
      (u : bus.State) (k : ℕ)
      → ((p : ℕ) → p < k → inbox u p ≡ none)
      → inbox u k ≡ none
      → (p : ℕ) → p < suc k
      → inbox u p ≡ none
  up_to u k below at p h = elim (Bool-cases (p == k)) [
    | inl e ↦ ap (inbox u) ((==_iff p k).0 e) ∙ at
    | inr e ↦ below p (omega (arith, h, ne_of_== p k e))
  ]

  next :
      (k : ℕ) (s t : bus.State)
      → k < board.num_ext_ports
      → After k s t
      → After (suc k) s (look bus board k t)
  unfolding look
  next k s t h f =
      let a = bus.read (uart_reg board k uart_lsr) t in
      let still : IsPlain a.1 = λ p l. ap (has_bit 0x80) (boxes.lsr_lcr k p t h) ∙ f.plain p l in
      elim (Bool-cases (has_bit 0x01 a.0)) [
        | inr e ↦ rw e (record {
          plain = still;
          ahead = λ p l. boxes.lsr_keeps k p t h ∙ f.ahead p (omega (arith, l));
          behind =
              up_to a.1 k (λ p l. boxes.lsr_keeps k p t h ∙ f.behind p l)
                (boxes.lsr_keeps k k t h
                  ∙ is_some-none (inbox t k) (sym (boxes.lsr_shows k t h) ∙ e));
        })
        | inl e ↦ rw e (record {
          plain = λ p l. ap (has_bit 0x80) (boxes.rhr_lcr k p a.1 h) ∙ still p l;
          ahead = λ p l.
              boxes.rhr_apart k p a.1 h (omega (arith, l))
              ∙ boxes.lsr_keeps k p t h
              ∙ f.ahead p (omega (arith, l));
          behind =
              up_to (bus.read (uart_reg board k uart_rhr) a.1).1 k
                (λ p l.
                  boxes.rhr_apart k p a.1 h (omega (arith, l))
                  ∙ boxes.lsr_keeps k p t h
                  ∙ f.behind p l)
                (boxes.rhr_takes k a.1 h (still k h));
        })
      ]

  pub reads :
      (k : ℕ) (s : bus.State)
      → k ≤ board.num_ext_ports
      → IsPlain s
      → After k s (for_ports (look bus board) k s)
  reads zero s h v =
      rw (for_ports_none (look bus board) s)
        (record { plain = v; ahead = λ p l. refl; behind = λ p l. absurd (omega (arith, l)) })
  reads (suc k) s h v =
      rw (for_ports_last (look bus board) k s)
        (next k s (for_ports (look bus board) k s) (omega arith) (reads k s (omega arith) v))

  -- What a sweep finds at an external port is what stands in its receiver.
  found-shown :
      (p : ℕ) (s : bus.State) (r : Receivers)
      → p < board.num_ext_ports
      → IsPlain s
      → (let lines = shown bus board s r in
          if has_bit 0x01 (lines.lsr p) then some (lines.rhr p) else none)
        ≡ inbox s p
  found-shown p s r h v =
      let t = for_ports (look bus board) p s in
      let f = reads p s (omega (arith, h)) v in
      let a = asked bus board p s in
      let same : inbox t p ≡ inbox s p = f.ahead p (omega arith) in
      let still = ap (has_bit 0x80) (boxes.lsr_lcr p p t h) ∙ f.plain p h in
      elim (Option-cases (inbox s p)) [
        | inl e ↦
            let dark : has_bit 0x01 a.0 ≡ false = boxes.lsr_shows p t h ∙ ap is_some (same ∙ e) in
            rw (dark, e) refl
        | inr (b, e) ↦
            let light : has_bit 0x01 a.0 ≡ true = boxes.lsr_shows p t h ∙ ap is_some (same ∙ e) in
            let byte : (bus.read (uart_reg board p uart_rhr) a.1).0 ≡ b =
              boxes.rhr_gives p b a.1 h still (boxes.lsr_keeps p p t h ∙ same ∙ e) in
            rw (light, byte, e) refl
      ]

  -- The byte that stands in the receiver of a port.
  abbrev pub pending : bus.State × Receivers → ℕ → Option ℕ
  pending (s, r) p =
      if ltb p board.onchip_port_first
      then inbox s p
      else if board.has_onchip_uart && (p == board.onchip_port_first)
      then (if r.ri_0 then some r.sbuf0 else none)
      else if board.has_onchip_uart && (p == board.onchip_port_first + 1)
      then (if r.ri_1 then some r.sbuf1 else none)
      else none

  pub found-pending :
      (p : ℕ) (s : bus.State) (r : Receivers)
      → board.onchip_port_first ≤ board.num_ext_ports
      → IsPlain s
      → found board (shown bus board s r) p ≡ pending (s, r) p
  found-pending p s r all plain = elim (Bool-cases (ltb p board.onchip_port_first)) [
    | inl e ↦ rw e (found-shown p s r (omega (arith, all, ltb→lt _ _ e)) plain)
    | inr e ↦ rw e refl
  ]

  pub pending-served :
      (p : ℕ) (t : bus.State) (r : Receivers)
      → (p < board.onchip_port_first → inbox t p ≡ none)
      → pending (t, served bus board r) p ≡ none
  pending-served p t r ext = elim (Bool-cases (ltb p board.onchip_port_first)) [
    | inl e ↦ rw e (ext (ltb→lt _ _ e))
    | inr e ↦ elim (Bool-cases board.has_onchip_uart) [
      | inr f ↦ simp (e, f) refl
      | inl f ↦ elim (Bool-cases (p == board.onchip_port_first)) [
        | inl g ↦ simp (e, f, g) refl
        | inr g ↦ elim (Bool-cases (p == board.onchip_port_first + 1)) [
          | inl k ↦ simp (e, f, g, k) refl
          | inr k ↦ simp (e, f, g, k) refl
        ]
      ]
    ]
  ]

  -- On a bank of receivers of one byte each, DLAB clear, and any FIFOs within their bounds: a sweep
  -- tick puts the byte that stands in each port's receiver, external or on-chip, behind the port's
  -- waiting bytes, where the FIFO has room, and behind it no receiver holds a byte: each byte is
  -- taken once.
  direct_sweep-pending :
      (c : Capture) (s : bus.State) (r : Receivers) (p : ℕ)
      → IsValid c
      → IsPlain s
      → board.onchip_port_first ≤ board.num_ext_ports
      → let after = direct_sweep bus board (c, (s, r)) in
        (waiting after.0 p ≡ enqueue? (pending (s, r) p) (waiting c p)) × (pending after.1 p ≡ none)
  direct_sweep-pending c s r p v plain all = rw (direct_sweep-shown bus board c s r) (
    waiting-sweep board (shown bus board s r) p c v
        ∙ ap (λ o. enqueue? o (waiting c p)) (found-pending p s r all plain),
    pending-served p _ r ((reads board.onchip_port_first s all plain).behind p),
  )
