-- ===== src/Uart/Lossless.antt =====
-- The overflow counter tells the truth of a sweep: while it stands at zero, every byte that a receiver
-- showed has been stored.
use mathlib.Core.Path.{subst}
use native.Mathlib.Decide.{ℕ_discrete, dec_lt}
use midex_class_firmware.Base.{
  ℕ, ◌+◌, ◌≤◌, ◌<◌, ◌≡◌, ◌∙◌, sym, Bool, true, false, Option, none, some, ltb, has_bit, List, [],
  ◌∷◌, ◌++◌, length, append-nil, arith, Bool-cases, Option-cases, inl, inr, for_ports,
  for_ports_inv, for_ports_reach,
}
use midex_class_firmware.Config.{Board}
use midex_class_firmware.Uart.{Capture, Lines, rx_store, sweep, sweep_ext, sweep_onchip}
use midex_class_firmware.Uart.Fifo.{
  IsValid, waiting, rx_store-IsValid, waiting-rx_store, waiting-rx_store_other, overflows-rx_store,
}
use midex_class_firmware.Uart.Sweep.{found, store?, store?-IsValid, waiting-sweep}

-- The counter never goes down.
overflows-store? :
    (here : Bool) (port b : ℕ) (c : Capture)
    → c.uart_rx_overflows ≤ (store? here port b c).uart_rx_overflows
overflows-store? here port b c = unfold rx_store in ground arith

-- Port `p` is full, and whatever is stored leaves it so.
abbrev Full : ℕ → Capture → Type 0
Full p c = IsValid c × (15 ≤ length (waiting c p))

store?-Full : (here : Bool) (port b p : ℕ) (c : Capture) → Full p c → Full p (store? here port b c)
store?-Full false port b p c f = f
store?-Full true port b p c f = (
  rx_store-IsValid port b c f.0,
  elim (ℕ_discrete p port) [
    | yes e ↦ rw (e, waiting-rx_store port b c f.0) (ground (arith, f.1))
    | no n ↦ rw (waiting-rx_store_other port b p c n) f.1
  ],
)

-- A byte for the full port is counted.
counted :
    (here : Bool) (b p : ℕ) (c : Capture)
    → here ≡ true
    → Full p c
    → 1 ≤ (store? here p b c).uart_rx_overflows
counted here b p c e f = rw e (ground (arith, overflows-rx_store p b c f.0, f.1))

still :
    (here : Bool) (port b : ℕ) (c : Capture)
    → 1 ≤ c.uart_rx_overflows
    → 1 ≤ (store? here port b c).uart_rx_overflows
still here port b c h = omega (arith, overflows-store? here port b c)

module _ (board : Board) (lines : Lines) (p : ℕ) (c : Capture) (f : Full p c) where
  abbrev first : ℕ
  first = board.onchip_port_first

  abbrev swept : Capture
  swept = for_ports (sweep_ext lines) first c

  swept-Full : Full p swept
  swept-Full =
      unfold sweep_ext in
      for_ports_inv (sweep_ext lines) (Full p) first c
        (λ r t _ g. store?-Full (has_bit 0x01 (lines.lsr r)) r (lines.rhr r) p t g) f

  ext_counted : p < first → has_bit 0x01 (lines.lsr p) ≡ true → 1 ≤ swept.uart_rx_overflows
  ext_counted h e =
      unfold sweep_ext in
      for_ports_reach (sweep_ext lines) (Full p) (λ t. 1 ≤ t.uart_rx_overflows) p first c
        (λ r t _ g. store?-Full (has_bit 0x01 (lines.lsr r)) r (lines.rhr r) p t g)
        (λ r t _ g h. still (has_bit 0x01 (lines.lsr r)) r (lines.rhr r) t h)
        (λ t g. counted (has_bit 0x01 (lines.lsr p)) (lines.rhr p) p t e g) f h

  abbrev first_stored : Capture
  first_stored = store? lines.ri_0 first lines.sbuf0 swept

  onchip_counted :
      (b : ℕ)
      → board.has_onchip_uart ≡ true
      → found board lines p ≡ some b
      → 1 ≤ (sweep_onchip board lines swept).uart_rx_overflows
  unfolding sweep_onchip
  onchip_counted b has e = elim (dec_lt p first) [
    | yes l ↦
        let here : has_bit 0x01 (lines.lsr p) ≡ true = ground arith in
        still lines.ri_1 (first + 1) lines.sbuf1 first_stored
          (still lines.ri_0 first lines.sbuf0 swept (ext_counted l here))
    | no g ↦ elim (ℕ_discrete p first) [
      | yes m ↦
          let here : lines.ri_0 ≡ true = ground arith in
          still lines.ri_1 (first + 1) lines.sbuf1 first_stored (
            subst (λ r. 1 ≤ (store? lines.ri_0 r lines.sbuf0 swept).uart_rx_overflows) m
              (counted lines.ri_0 lines.sbuf0 p swept here swept-Full))
      | no n ↦
          let place : p ≡ first + 1 = ground arith in
          let here : lines.ri_1 ≡ true = ground arith in
          subst (λ r. 1 ≤ (store? lines.ri_1 r lines.sbuf1 first_stored).uart_rx_overflows) place
            (counted lines.ri_1 lines.sbuf1 p first_stored here
              (store?-Full lines.ri_0 first lines.sbuf0 p swept swept-Full))
    ]
  ]

  sweep_counted :
      (b : ℕ) → found board lines p ≡ some b → 1 ≤ (sweep board lines c).uart_rx_overflows
  unfolding sweep
  sweep_counted b e = elim (Bool-cases board.has_onchip_uart) [
    | inl has ↦ rw has (onchip_counted b has e)
    | inr has ↦
        let l : p < first = ground arith in
        let here : has_bit 0x01 (lines.lsr p) ≡ true = ground arith in rw has (ext_counted l here)
  ]

-- The byte of a receiver, as a list.
abbrev pub shown : Option ℕ → List ℕ
shown none = []
shown (some b) = b ∷ []

pub overflows-sweep :
    (board : Board) (lines : Lines) (c : Capture)
    → c.uart_rx_overflows ≤ (sweep board lines c).uart_rx_overflows
unfolding sweep sweep_ext sweep_onchip
overflows-sweep board lines c =
    let first = board.onchip_port_first in
    let d = for_ports (λ r t. store? (has_bit 0x01 (lines.lsr r)) r (lines.rhr r) t) first c in
    let e = store? lines.ri_0 first lines.sbuf0 d in
    let up : c.uart_rx_overflows ≤ d.uart_rx_overflows =
      for_ports_inv (λ r t. store? (has_bit 0x01 (lines.lsr r)) r (lines.rhr r) t)
        (λ t. c.uart_rx_overflows ≤ t.uart_rx_overflows) first c
        (λ r t _ h.
          omega (arith, h, overflows-store? (has_bit 0x01 (lines.lsr r)) r (lines.rhr r) t))
        (omega arith) in
    elim (Bool-cases board.has_onchip_uart) [
      | inl has ↦ rw has (
          omega (
            arith,
            up,
            overflows-store? lines.ri_0 first lines.sbuf0 d,
            overflows-store? lines.ri_1 (first + 1) lines.sbuf1 e,
          ))
      | inr has ↦ rw has up
    ]

pub sweep-IsValid :
    (board : Board) (lines : Lines) (c : Capture) → IsValid c → IsValid (sweep board lines c)
unfolding sweep sweep_ext sweep_onchip
sweep-IsValid board lines c v =
    let first = board.onchip_port_first in
    let d = for_ports (λ r t. store? (has_bit 0x01 (lines.lsr r)) r (lines.rhr r) t) first c in
    let w : IsValid d =
      for_ports_inv (λ r t. store? (has_bit 0x01 (lines.lsr r)) r (lines.rhr r) t) IsValid first c
        (λ r t _. store?-IsValid (has_bit 0x01 (lines.lsr r)) r (lines.rhr r) t) v in
    elim (Bool-cases board.has_onchip_uart) [
      | inl has ↦ rw has (
          store?-IsValid lines.ri_1 (first + 1) lines.sbuf1 (store? lines.ri_0 first lines.sbuf0 d)
            (store?-IsValid lines.ri_0 first lines.sbuf0 d w))
      | inr has ↦ rw has w
    ]

-- From a valid state: if the counter stands at zero behind a sweep, then every port's FIFO holds what
-- it held and then the byte that its receiver showed.
pub sweep-lossless :
    (board : Board) (lines : Lines) (p : ℕ) (c : Capture)
    → IsValid c
    → (sweep board lines c).uart_rx_overflows ≡ 0
    → waiting (sweep board lines c) p ≡ waiting c p ++ shown (found board lines p)
sweep-lossless board lines p c v zero_left =
    waiting-sweep board lines p c v ∙ elim (Option-cases (found board lines p)) [
      | inl e ↦ rw e (sym (append-nil (waiting c p)))
      | inr (b, e) ↦ rw e (elim (Bool-cases (ltb (length (waiting c p)) 15)) [
        | inl room ↦ rw room
        | inr full ↦
            absurd (omega (arith, zero_left, sweep_counted board lines p c (v, ground arith) b e))
      ])
    ]
