-- ===== src/UartExt/Init.antt =====
-- What `uart_ext_init` leaves in the channels of a bank.
use midex_class_firmware.Base.{
  ℕ, zero, suc, ◌<◌, ◌≤◌, ◌≡◌, ◌∙◌, ap, true, false, has_bit, arith, inl, inr, ==_iff, ◌==◌,
  Bool-cases, ne_of_==,
}
use midex_class_firmware.Config.{Board}
use midex_class_firmware.UartExt.{
  Bus, uart_reg, uart_dll, uart_dlm, uart_ier, uart_mcr, uart_write_lcr, init_channel,
  init_channels, uart_ext_init,
}
use midex_class_firmware.UartExt.Bank.{Channel, Bank}
use midex_class_firmware.UartExt.Change.{with_lcr, Changed, write_lcr-Changed}

-- The settings of a board header: bytes, of which the one sets DLAB and the other clears it.
pub record IsSettings (board : Board) : Type 0 where
  pub dlab_byte : board.lcr_dlab < 256
  pub dlab_set : has_bit 0x80 board.lcr_dlab ≡ true
  pub line_byte : board.lcr_8n1 < 256
  pub line_clear : has_bit 0x80 board.lcr_8n1 ≡ false
  pub divisor_byte : board.divisor < 256

module _ (bus : Bus) (board : Board) (bank : Bank bus board) where
  open bank use {channel}

  -- What the header's settings come to.
  abbrev pub configured : Channel
  configured = record { lcr = board.lcr_8n1; dll = board.divisor; dlm = 0; ier = 0; mcr = 0 }

  module _ (settings : IsSettings board) (p : ℕ) (h : p < board.num_ext_ports) where
    -- The divisor, behind the first write of LCR.
    divided :
        (s : bus.State)
        → (channel s p).lcr ≡ board.lcr_dlab
        → Changed bus board bank p s
            (bus.write
              (uart_reg board p uart_dlm)
              0x00
              (bus.write (uart_reg board p uart_dll) board.divisor s))
            (record (channel s p) { dll = board.divisor; dlm = 0 })
    divided s e =
        let t : bus.State = bus.write (uart_reg board p uart_dll) board.divisor s in
        let low : channel t p ≡ record (channel s p) { dll = board.divisor } =
          bank.write_dll p board.divisor s h settings.divisor_byte
            (ap (has_bit 0x80) e ∙ settings.dlab_set) in
        let latch : has_bit 0x80 (channel t p).lcr ≡ true =
          ap (λ c. has_bit 0x80 c.lcr) low ∙ ap (has_bit 0x80) e ∙ settings.dlab_set in
        record {
          own =
              bank.write_dlm p 0x00 t h (omega arith) latch
              ∙ ap {A = Channel} {B = Channel} (λ c. record c { dlm = 0 }) low;
          others = λ q l n.
              bank.write_apart p q uart_dlm 0x00 t h l (omega arith) n
              ∙ bank.write_apart p q uart_dll board.divisor s h l (omega arith) n;
        }

    -- The modem control and the interrupts, behind the second.
    silenced :
        (s : bus.State)
        → (channel s p).lcr ≡ board.lcr_8n1
        → Changed bus board bank p s
            (bus.write
              (uart_reg board p uart_ier)
              0x00
              (bus.write (uart_reg board p uart_mcr) 0x00 s))
            (record (channel s p) { mcr = 0; ier = 0 })
    silenced s e =
        let t : bus.State = bus.write (uart_reg board p uart_mcr) 0x00 s in
        let modem : channel t p ≡ record (channel s p) { mcr = 0 } =
          bank.write_mcr p 0x00 s h (omega arith) in
        let plain : has_bit 0x80 (channel t p).lcr ≡ false =
          ap (λ c. has_bit 0x80 c.lcr) modem ∙ ap (has_bit 0x80) e ∙ settings.line_clear in
        record {
          own =
              bank.write_ier p 0x00 t h (omega arith) plain
              ∙ ap {A = Channel} {B = Channel} (λ c. record c { ier = 0 }) modem;
          others = λ q l n.
              bank.write_apart p q uart_ier 0x00 t h l (omega arith) n
              ∙ bank.write_apart p q uart_mcr 0x00 s h l (omega arith) n;
        }

    init_channel-Changed :
        (s : bus.State) → Changed bus board bank p s (init_channel bus board p s) configured
    unfolding init_channel with_lcr
    init_channel-Changed s =
        let a : bus.State = uart_write_lcr bus board p board.lcr_dlab s in
        let first = write_lcr-Changed bus board bank p board.lcr_dlab s h settings.dlab_byte in
        let b : bus.State =
          bus.write (uart_reg board p uart_dlm) 0x00
            (bus.write (uart_reg board p uart_dll) board.divisor a) in
        let second = divided a (ap (λ c. c.lcr) first.own) in
        let d : bus.State = uart_write_lcr bus board p board.lcr_8n1 b in
        let third = write_lcr-Changed bus board bank p board.lcr_8n1 b h settings.line_byte in
        let fourth = silenced d (ap (λ c. c.lcr) third.own) in
        record {
          own =
              fourth.own
              ∙ ap {A = Channel} {B = Channel} (λ c. record c { mcr = 0; ier = 0 }) third.own
              ∙ ap {A = Channel} {B = Channel}
                  (λ c. record c { lcr = board.lcr_8n1; mcr = 0; ier = 0 }) second.own;
          others = λ q l n.
              fourth.others q l n ∙ third.others q l n ∙ second.others q l n ∙ first.others q l n;
        }

  up_to :
      (settings : IsSettings board) (n : ℕ) (s : bus.State) (p : ℕ)
      → n ≤ board.num_ext_ports
      → p < n
      → channel (init_channels bus board n s) p ≡ configured
  unfolding init_channels
  up_to settings zero s p h l = absurd (omega arith)
  up_to settings (suc n) s p h l =
      let before : bus.State = init_channels bus board n s in
      let step = init_channel-Changed settings n (omega arith) before in
      elim (Bool-cases (p == n)) [
        | inl e ↦
            let same : p ≡ n = (==_iff p n).0 e in
            ap (channel (init_channel bus board n before)) same ∙ step.own
        | inr e ↦
            let other = ne_of_== p n e in
            step.others p (omega arith) other
            ∙ up_to settings n s p (omega arith) (omega (arith, other))
      ]

  -- On every bank of channels that keeps one of the tries to write LCR, and for a header whose
  -- settings are bytes, of which one sets DLAB and the other clears it: behind `uart_ext_init` each
  -- external channel has the line setting in LCR, the divisor in DLL and DLM, and no interrupt and no
  -- modem line on, whatever was there before.
  pub uart_ext_init-configured :
      (s : bus.State) (p : ℕ)
      → IsSettings board
      → p < board.num_ext_ports
      → channel (uart_ext_init bus board s) p ≡ configured
  unfolding uart_ext_init
  uart_ext_init-configured s p settings h = up_to settings board.num_ext_ports s p (omega arith) h
