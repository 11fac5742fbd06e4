-- ===== src/Uart/Sweep.antt =====
-- One sweep of the capture interrupt: each port gets at most one byte, its own.
use native.Mathlib.Decide.{ℕ_discrete, dec_lt}
use midex_class_firmware.Base.{
  ℕ, ◌+◌, ◌≤◌, ◌<◌, ◌≡◌, ◌≢◌, ◌∙◌, sym, ap, Bool, true, false, ◌&&◌, Option, none, some, ltb, ◌==◌,
  if◌then◌else◌, has_bit, List, arith, Bool-cases, inl, inr, for_ports, for_ports_at,
  for_ports_past, for_ports_inv,
}
use midex_class_firmware.Config.{Board}
use midex_class_firmware.Uart.{Capture, Lines, rx_store, sweep, sweep_ext, sweep_onchip}
use midex_class_firmware.Uart.Fifo.{
  IsValid, waiting, enqueue, rx_store-IsValid, waiting-rx_store, waiting-rx_store_other,
}

-- The byte that a sweep finds at port `p`, if there is one.
abbrev pub found : Board → Lines → ℕ → Option ℕ
found board lines p =
    if ltb p board.onchip_port_first
    then (if has_bit 0x01 (lines.lsr p) then some (lines.rhr p) else none)
    else if board.has_onchip_uart && (p == board.onchip_port_first)
    then (if lines.ri_0 then some lines.sbuf0 else none)
    else if board.has_onchip_uart && (p == board.onchip_port_first + 1)
    then (if lines.ri_1 then some lines.sbuf1 else none)
    else none

abbrev pub enqueue? : Option ℕ → List ℕ → List ℕ
enqueue? none q = q
enqueue? (some b) q = enqueue b q

-- Store a byte if there is one.
abbrev pub store? : Bool → ℕ → ℕ → Capture → Capture
store? here port b c = if here then rx_store port b c else c

module _ (here : Bool) (port b : ℕ) where
  pub store?-IsValid : (c : Capture) → IsValid c → IsValid (store? here port b c)
  store?-IsValid c v = elim (Bool-cases here) [
    | inl e ↦ rw e (rx_store-IsValid port b c v)
    | inr e ↦ rw e v
  ]

  store?_own :
      (c : Capture)
      → IsValid c
      → waiting (store? here port b c) port
        ≡ enqueue? (if here then some b else none) (waiting c port)
  store?_own c v = elim (Bool-cases here) [
    | inl e ↦ rw e (waiting-rx_store port b c v)
    | inr e ↦ rw e
  ]

  store?_other : (q : ℕ) (c : Capture) → q ≢ port → waiting (store? here port b c) q ≡ waiting c q
  store?_other q c n = elim (Bool-cases here) [
    | inl e ↦ rw e (waiting-rx_store_other port b q c n)
    | inr e ↦ rw e
  ]

module _ (lines : Lines) where
  ext_own :
      (board : Board) (p : ℕ) (c : Capture)
      → IsValid c
      → p < board.onchip_port_first
      → waiting (for_ports (sweep_ext lines) board.onchip_port_first c) p
        ≡ enqueue? (found board lines p) (waiting c p)
  unfolding sweep_ext
  ext_own board p c v h =
      let inside : ltb p board.onchip_port_first ≡ true = ground arith in
      rw inside (
        for_ports_at (sweep_ext lines) (λ d. waiting d p) p IsValid
          (enqueue? (if has_bit 0x01 (lines.lsr p) then some (lines.rhr p) else none))
          board.onchip_port_first c
          (λ r t. store?-IsValid (has_bit 0x01 (lines.lsr r)) r (lines.rhr r) t)
          (λ r t n. store?_other (has_bit 0x01 (lines.lsr r)) r (lines.rhr r) p t (λ e. n (sym e)))
          (λ t. store?_own (has_bit 0x01 (lines.lsr p)) p (lines.rhr p) t) v h)

  ext_past :
      (k p : ℕ) (c : Capture) → k ≤ p → waiting (for_ports (sweep_ext lines) k c) p ≡ waiting c p
  unfolding sweep_ext
  ext_past k p c h =
      for_ports_past (sweep_ext lines) (λ d. waiting d p) p k c
        (λ r t n. store?_other (has_bit 0x01 (lines.lsr r)) r (lines.rhr r) p t (λ e. n (sym e))) h

  ext-IsValid : (k : ℕ) (c : Capture) → IsValid c → IsValid (for_ports (sweep_ext lines) k c)
  unfolding sweep_ext
  ext-IsValid k c v =
      for_ports_inv (sweep_ext lines) IsValid k c
        (λ r t _. store?-IsValid (has_bit 0x01 (lines.lsr r)) r (lines.rhr r) t) v

module _ (board : Board) (lines : Lines) (p : ℕ) (c : Capture) (v : IsValid c) where
  abbrev first : ℕ
  first = board.onchip_port_first

  abbrev swept : Capture
  swept = for_ports (sweep_ext lines) first c

  abbrev first_stored : Capture
  first_stored = store? lines.ri_0 first lines.sbuf0 swept

  -- The on-chip part, by the port's place.
  onchip_at :
      board.has_onchip_uart ≡ true
      → waiting (sweep_onchip board lines swept) p ≡ enqueue? (found board lines p) (waiting c p)
  unfolding sweep_onchip
  onchip_at has = elim (dec_lt p first) [
    | yes l ↦
        store?_other lines.ri_1 (first + 1) lines.sbuf1 p first_stored (omega arith)
        ∙ store?_other lines.ri_0 first lines.sbuf0 p swept (omega arith)
        ∙ ext_own lines board p c v l
    | no g ↦ elim (ℕ_discrete p first) [
      | yes e ↦
          let found_is : found board lines p ≡ (if lines.ri_0 then some lines.sbuf0 else none) =
            ground arith in
          rw found_is (
            store?_other lines.ri_1 (first + 1) lines.sbuf1 p first_stored (omega arith)
            ∙ rw e (
                store?_own lines.ri_0 first lines.sbuf0 swept (ext-IsValid lines first c v)
                ∙ ap (enqueue? _) (ext_past lines first first c (omega arith))))
      | no n ↦ elim (ℕ_discrete p (first + 1)) [
        | yes e ↦
            let found_is : found board lines p ≡ (if lines.ri_1 then some lines.sbuf1 else none) =
              ground arith in
            rw found_is (
              rw e (
                store?_own lines.ri_1 (first + 1) lines.sbuf1 first_stored
                  (store?-IsValid lines.ri_0 first lines.sbuf0 swept (ext-IsValid lines first c v))
                ∙ ap (enqueue? _) (
                    store?_other lines.ri_0 first lines.sbuf0 (first + 1) swept (omega arith)
                    ∙ ext_past lines first (first + 1) c (omega arith))))
        | no m ↦
            let found_is : found board lines p ≡ none = ground arith in
            rw found_is (
              store?_other lines.ri_1 (first + 1) lines.sbuf1 p first_stored m
              ∙ store?_other lines.ri_0 first lines.sbuf0 p swept n
              ∙ ext_past lines first p c (omega arith))
      ]
    ]
  ]

  ext_only :
      board.has_onchip_uart ≡ false → waiting swept p ≡ enqueue? (found board lines p) (waiting c p)
  ext_only has = elim (dec_lt p first) [
    | yes l ↦ ext_own lines board p c v l
    | no g ↦
        let found_is : found board lines p ≡ none = ground arith in
        rw found_is (ext_past lines first p c (omega arith))
  ]

  -- On any board, a sweep puts behind each port's waiting bytes the byte that its receiver shows, if
  -- it shows one and the FIFO has room, and does nothing else to them: an external channel for the
  -- ports below the first on-chip one, the two on-chip UARTs for the next two where there are any.
  pub waiting-sweep : waiting (sweep board lines c) p ≡ enqueue? (found board lines p) (waiting c p)
  unfolding sweep
  waiting-sweep = elim (Bool-cases board.has_onchip_uart) [
    | inl e ↦ rw e (rw e at (onchip_at e))
    | inr e ↦ rw e (rw e at (ext_only e))
  ]
