-- ===== src/Bringup.antt =====
-- firmware/main.c: board_init and uart_bringup, the pins and registers that they write.
pub mod Reset
use midex_class_firmware.Base.{
  ℕ, ◌==◌, Bool, true, false, if◌then◌else◌, has_bit, set_bit, clear_bit, bit_and, write,
}
use midex_class_firmware.Config.{Board}
use midex_class_firmware.Registers.{Sfr, Pins}
use midex_class_firmware.UartExt.{Bus}
use midex_class_firmware.UartOnchip.{Onchip}
use midex_class_firmware.Dispatch.{uart_init}

-- The r2 branch of `board_init`: OE is 0x04, RD | WR | TXD0 | RXD0 is 0xC3, TXD1 | RXD1 is 0x0C.
board_init_r2 : Pins → Pins
board_init_r2 s = record s {
  portacfg = 0x04;
  portccfg = 0xC3;
  portbcfg = 0x0C;
  outb = clear_bit 0x10 s.outb;
  outc = clear_bit 0x04 (clear_bit 0x10 s.outc);
  oec = set_bit 0x04 (set_bit 0x10 s.oec);
}

-- The r1 branch.
board_init_r1 : Pins → Pins
board_init_r1 s = record s {
  portccfg = set_bit 0x40 (set_bit 0x80 s.portccfg);
  portbcfg = clear_bit 0x10 (set_bit 0x80 s.portbcfg);
  rcap2l = 0xFE;
  rcap2h = 0xFF;
  t2con = 0x00;
  tr2 = true;
  outb = clear_bit 0x10 s.outb;
  xdata = write (write (write s.xdata 0xFE00 0xC9) 0xFE02 0x00) 0xFE01 0x10;
}

-- `board_init`. The strap in bit 3 of CPUCS is read-only; CKCON is masked on both boards.
unfoldable pub board_init : Board → Sfr × Pins → Sfr × Pins
unfolding board_init_r1 board_init_r2
board_init board (f, s) = (
  record f { cpucs = bit_and f.cpucs 0x08; ckcon = bit_and f.ckcon 0xD8 },
  if board.rev == 2 then board_init_r2 s else board_init_r1 s,
)

-- The pin writes of `uart_bringup`, behind its first delay.
unfoldable pub release : Board → Pins → Pins
release board s =
    if board.rev == 2
    then record s { oeb = set_bit 0x10 s.oeb; outc = set_bit 0x10 s.outc }
    else record s { oeb = set_bit 0x10 s.oeb }

module _ (bus : Bus) (board : Board) where
  -- `uart_bringup`; the two delays have no effect but time. The chips see the pins before `uart_init`
  -- writes to them.
  unfoldable pub uart_bringup :
      Pins × (Sfr × (bus.State × Onchip)) → Pins × (Sfr × (bus.State × Onchip))
  uart_bringup (s, (f, (chips, o))) =
      let t = release board s in (t, uart_init bus board (f, (bus.pins t chips, o)))
