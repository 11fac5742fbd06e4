-- ===== src/Registers.antt =====
-- The special function registers that several parts of the program write, each once.
use midex_class_firmware.Base.{ℕ, Bool}

-- CPUCS, CKCON and TMOD: the board's start, the on-chip UARTs and the capture timer share them.
pub record Sfr : Type 0 where
  pub cpucs : ℕ
  pub ckcon : ℕ
  pub tmod : ℕ

-- The pins and Timer2. `xdata` holds the bytes of external memory that the r1 code writes.
pub record Pins : Type 0 where
  pub portacfg : ℕ
  pub portbcfg : ℕ
  pub portccfg : ℕ
  pub outb : ℕ
  pub outc : ℕ
  pub oeb : ℕ
  pub oec : ℕ
  pub rcap2l : ℕ
  pub rcap2h : ℕ
  pub t2con : ℕ
  pub tr2 : Bool
  pub xdata : ℕ → ℕ
