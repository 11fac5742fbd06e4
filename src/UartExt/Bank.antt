-- ===== src/UartExt/Bank.antt =====
-- What the code relies on of the external bank: 16C450 channels on a bus that may lose a write of LCR.
use midex_class_firmware.Base.{ℕ, ◌<◌, ◌≡◌, ◌≢◌, ◌⊎◌, true, false, has_bit}
use midex_class_firmware.Config.{Board}
use midex_class_firmware.UartExt.{Bus, uart_reg, uart_dll, uart_dlm, uart_ier, uart_lcr, uart_mcr}
use midex_class_firmware.UartExt.Latch.{answer, tried}

-- The registers of a channel that last. DLL and DLM share their addresses with THR and IER: bit 7 of
-- LCR, DLAB, chooses.
pub record Channel : Type 0 where
  pub lcr : ℕ
  pub dll : ℕ
  pub dlm : ℕ
  pub ier : ℕ
  pub mcr : ℕ

-- A bus with such channels at the board's addresses. A write of a register leaves the other
-- channels. A write of LCR is kept or lost; with as many tries as the board allows one is kept. A read
-- of LCR and a delay change no register.
pub record Bank (bus : Bus) (board : Board) : Type 0 where
  pub channel : bus.State → ℕ → Channel
  pub write_apart :
      (p q i v : ℕ) (s : bus.State)
      → p < board.num_ext_ports
      → q < board.num_ext_ports
      → i < 8
      → q ≢ p
      → channel (bus.write (uart_reg board p i) v s) q ≡ channel s q
  pub write_lcr :
      (p v : ℕ) (s : bus.State)
      → p < board.num_ext_ports
      → v < 256
      → (channel (bus.write (uart_reg board p uart_lcr) v s) p ≡ record (channel s p) { lcr = v })
        ⊎ (channel (bus.write (uart_reg board p uart_lcr) v s) p ≡ channel s p)
  pub write_dll :
      (p v : ℕ) (s : bus.State)
      → p < board.num_ext_ports
      → v < 256
      → has_bit 0x80 (channel s p).lcr ≡ true
      → channel (bus.write (uart_reg board p uart_dll) v s) p ≡ record (channel s p) { dll = v }
  pub write_dlm :
      (p v : ℕ) (s : bus.State)
      → p < board.num_ext_ports
      → v < 256
      → has_bit 0x80 (channel s p).lcr ≡ true
      → channel (bus.write (uart_reg board p uart_dlm) v s) p ≡ record (channel s p) { dlm = v }
  pub write_ier :
      (p v : ℕ) (s : bus.State)
      → p < board.num_ext_ports
      → v < 256
      → has_bit 0x80 (channel s p).lcr ≡ false
      → channel (bus.write (uart_reg board p uart_ier) v s) p ≡ record (channel s p) { ier = v }
  pub write_mcr :
      (p v : ℕ) (s : bus.State)
      → p < board.num_ext_ports
      → v < 256
      → channel (bus.write (uart_reg board p uart_mcr) v s) p ≡ record (channel s p) { mcr = v }
  pub read_lcr :
      (p : ℕ) (s : bus.State)
      → p < board.num_ext_ports
      → (bus.read (uart_reg board p uart_lcr) s).0 ≡ (channel s p).lcr
  pub read_lcr_keeps :
      (p q : ℕ) (s : bus.State)
      → p < board.num_ext_ports
      → channel (bus.read (uart_reg board p uart_lcr) s).1 q ≡ channel s q
  pub delay_keeps : (n q : ℕ) (s : bus.State) → channel (bus.delay_us n s) q ≡ channel s q
  pub sticks :
      (p v : ℕ) (s : bus.State)
      → p < board.num_ext_ports
      → v < 256
      → (k : ℕ) × (k < board.lcr_max_tries)
        × ((answer bus board p v (tried bus board p v k s)).0 ≡ v)
