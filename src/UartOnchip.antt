-- ===== src/UartOnchip.antt =====
-- firmware/uart_onchip.c: UART0 and UART1 of the EZ-USB FX, which are ports 6 and 7 on r2.
pub mod Baud
use midex_class_firmware.Base.{
  ℕ, Bool, true, false, ◌+◌, ◌%◌, has_bit, set_bit, clear_bit, ◌==◌, if◌then◌else◌,
}
use midex_class_firmware.Config.{Board}
use midex_class_firmware.Registers.{Sfr}

-- The special function registers that the file touches.
pub record Onchip : Type 0 where
  pub scon0 : ℕ
  pub scon1 : ℕ
  pub th1 : ℕ
  pub tl1 : ℕ
  pub pcon : ℕ
  pub smod1 : Bool
  pub tr1 : Bool
  pub es0 : Bool
  pub es1 : Bool
  pub ti_0 : Bool
  pub ti_1 : Bool
  pub sbuf0 : ℕ
  pub sbuf1 : ℕ

-- `uart_onchip_init`: M11 is 0x20, T1M 0x10, SMOD0 0x80. A value below 16 or'ed with M11 is their sum.
unfoldable pub uart_onchip_init : Sfr × Onchip → Sfr × Onchip
uart_onchip_init (f, s) =
    let fast = has_bit 0x08 f.cpucs in
    (
      record f { tmod = f.tmod % 16 + 0x20; ckcon = set_bit 0x10 f.ckcon },
      record s {
        scon0 = 0x50;
        scon1 = 0x50;
        th1 = 0xF4;
        tl1 = 0xF4;
        pcon = if fast then clear_bit 0x80 s.pcon else set_bit 0x80 s.pcon;
        smod1 = if fast then false else true;
        tr1 = true;
        es0 = false;
        es1 = false;
        ti_0 = true;
        ti_1 = true;
      },
    )

-- `uart_onchip_tx_ready`
unfoldable pub uart_onchip_tx_ready : Board → ℕ → Onchip → Bool
uart_onchip_tx_ready board port s = if port == board.onchip_port_first then s.ti_0 else s.ti_1

-- `uart_onchip_putc`
unfoldable pub uart_onchip_putc : Board → ℕ → ℕ → Onchip → Onchip
uart_onchip_putc board port b s =
    if port == board.onchip_port_first
    then record s { ti_0 = false; sbuf0 = b }
    else record s { ti_1 = false; sbuf1 = b }
