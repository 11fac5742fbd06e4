-- ===== src/Bringup/Reset.antt =====
-- The RESET lines of the external UARTs: held through enumeration, released before `uart_init`.
use midex_class_firmware.Base.{
  ℕ, zero, suc, Bool-cases, ◌==◌, ◌≡◌, inl, inr, Bool, true, false, not, ◌&&◌, if◌then◌else◌,
  has_bit, set_bit, clear_bit, arith, List, [], ◌∷◌, Each,
}
use midex_class_firmware.Config.{Board}
use midex_class_firmware.UartExt.{
  Bus, uart_reg, uart_lcr, uart_dll, uart_dlm, lcr_loop, uart_write_lcr, init_channel,
  init_channels, uart_ext_init,
}
use midex_class_firmware.UartOnchip.{Onchip}
use midex_class_firmware.Registers.{Sfr, Pins}
use midex_class_firmware.Dispatch.{uart_init}
use midex_class_firmware.Bringup.{board_init, release, uart_bringup, board_init_r1, board_init_r2}

-- RESET of the ST16C454 is high unless PB4 is driven low: a GPIO, an output, and its latch 0.
abbrev pub st16c454_in_reset : Pins → Bool
st16c454_in_reset s =
    not (not (has_bit 0x10 s.portbcfg) && has_bit 0x10 s.oeb && not (has_bit 0x10 s.outb))

-- RESET of the ST16C452, which r2 has, is active low on PC4.
abbrev pub st16c452_in_reset : Pins → Bool
st16c452_in_reset s = has_bit 0x10 s.oec && not (has_bit 0x10 s.outc)

abbrev pub in_reset : Board → Pins → Bool
in_reset board s = st16c454_in_reset s && (if board.rev == 2 then st16c452_in_reset s else true)

-- Every external UART is out of reset.
abbrev pub running : Board → Pins → Bool
running board s =
    not (st16c454_in_reset s) && (if board.rev == 2 then not (st16c452_in_reset s) else true)

-- Bit 4 behind the writes of a bit.
module _ (r : ℕ) where
  set_16 : has_bit 0x10 (set_bit 0x10 r) ≡ true
  set_16 = ground arith

  clear_16 : has_bit 0x10 (clear_bit 0x10 r) ≡ false
  clear_16 = ground arith

  set_4 : has_bit 0x10 (set_bit 0x04 r) ≡ has_bit 0x10 r
  set_4 = ground arith

  clear_4 : has_bit 0x10 (clear_bit 0x04 r) ≡ has_bit 0x10 r
  clear_4 = ground arith

held :
    (board : Board) (f : Sfr) (s : Pins)
    → has_bit 0x10 s.oeb ≡ false
    → in_reset board (board_init board (f, s)).1 ≡ true
unfolding board_init board_init_r1 board_init_r2
held board f s h = elim (Bool-cases (board.rev == 2)) [
  | inl e ↦ rw (e, h, set_4, set_16, clear_4, clear_16)
  | inr e ↦ rw (e, h, clear_16)
]

released :
    (board : Board) (f : Sfr) (s : Pins)
    → running board (release board (board_init board (f, s)).1) ≡ true
unfolding board_init board_init_r1 board_init_r2 release
released board f s = elim (Bool-cases (board.rev == 2)) [
  | inl e ↦ rw (e, set_16, clear_16, set_16, set_4, set_16)
  | inr e ↦ rw (e, set_16, clear_16, clear_16)
]

-- A bus that is watched: beside its state, whether the chips run, and for each access so far whether
-- they ran at it, the latest first.
abbrev pub watched : Bus → Board → Bus
watched bus board = record {
  State = bus.State × (Bool × List Bool);
  read = λ a s. let (v, t) = bus.read a s.0 in (v, (t, (s.1.0, s.1.0 ∷ s.1.1)));
  write = λ a b s. (bus.write a b s.0, (s.1.0, s.1.0 ∷ s.1.1));
  delay_us = λ n s. (bus.delay_us n s.0, s.1);
  pins = λ p s. (bus.pins p s.0, (running board p, s.1.1));
}

module _ (bus : Bus) (board : Board) where
  abbrev Seen : Type 0
  Seen = (watched bus board).State

  -- The chips run, and ran at every access.
  abbrev InTime : Seen → Type 0
  InTime s = (s.1.0 ≡ true) × Each (λ b. b ≡ true) s.1.1

  lcr_loop-InTime :
      (left port val : ℕ) (s : Seen)
      → InTime s
      → InTime (lcr_loop (watched bus board) board left port val s)
  unfolding lcr_loop
  lcr_loop-InTime zero port val s h = h
  lcr_loop-InTime (suc left) port val s h =
      let a = uart_reg board port uart_lcr in
      let r = (watched bus board).read a ((watched bus board).write a val s) in
      elim (Bool-cases (r.0 == val)) [
        | inl e ↦ rw e (h.0, (h.0, (h.0, h.1)))
        | inr e ↦ rw e (
            lcr_loop-InTime left port val ((watched bus board).delay_us 10 r.1)
              (h.0, (h.0, (h.0, h.1))))
      ]

  init_channel-InTime :
      (port : ℕ) (s : Seen) → InTime s → InTime (init_channel (watched bus board) board port s)
  unfolding init_channel uart_write_lcr
  init_channel-InTime port s h =
      let w = watched bus board in
      let a = uart_write_lcr w board port board.lcr_dlab s in
      let va : InTime a = lcr_loop-InTime board.lcr_max_tries port board.lcr_dlab s h in
      let b =
        w.write (uart_reg board port uart_dlm) 0
          (w.write (uart_reg board port uart_dll) board.divisor a) in
      let vb : InTime b = (va.0, (va.0, (va.0, va.1))) in
      let vc : InTime (uart_write_lcr w board port board.lcr_8n1 b) =
        lcr_loop-InTime board.lcr_max_tries port board.lcr_8n1 b vb in
      (vc.0, (vc.0, (vc.0, vc.1)))

  init_channels-InTime :
      (n : ℕ) (s : Seen) → InTime s → InTime (init_channels (watched bus board) board n s)
  unfolding init_channels
  init_channels-InTime zero s h = h
  init_channels-InTime (suc n) s h =
      init_channel-InTime n (init_channels (watched bus board) board n s)
        (init_channels-InTime n s h)

  -- On either board, if PB4 is no output at power-on: behind `board_init` every external UART is in
  -- reset, behind `uart_bringup` every one is out of it, and they were out of it at each access that
  -- `uart_bringup` made to the bus.
  pub uart_bringup-running :
      (f : Sfr) (s : Pins) (chips : bus.State) (flag : Bool) (o : Onchip)
      → has_bit 0x10 s.oeb ≡ false
      → let (g, t) = board_init board (f, s) in
        let end = uart_bringup (watched bus board) board (t, (g, ((chips, (flag, [])), o))) in
        (in_reset board t ≡ true)
        × (running board end.0 ≡ true)
        × Each (λ b. b ≡ true) end.1.1.0.1.1
  unfolding uart_bringup uart_init uart_ext_init
  uart_bringup-running f s chips flag o h = (
    held board f s h,
    released board f s,
    (init_channels-InTime board.num_ext_ports
        (
          bus.pins (release board (board_init board (f, s)).1) chips,
          (running board (release board (board_init board (f, s)).1), []),
        )
        (released board f s, tt)).1,
  )
