-- ===== src/UartOnchip/Baud.antt =====
-- The baud rates of the on-chip UARTs, as the registers set them.
use midex_class_firmware.Base.{
  ℕ, ◌-◌, ◌*◌, ◌/◌, ◌≡◌, Bool, ◌&&◌, ◌==◌, Option, none, some, has_bit, if◌then◌else◌, arith,
}
use midex_class_firmware.Config.{Board}
use midex_class_firmware.Registers.{Sfr}
use midex_class_firmware.Uart.{Capture, Timer0, uart_rx_start}
use midex_class_firmware.UartOnchip.{Onchip, uart_onchip_init}

-- The core clock that the CPUCS strap tells.
abbrev pub clkout : Sfr → ℕ
clkout f = if has_bit 0x08 f.cpucs then 48000000 else 24000000

-- Timer 1 counts the clock and reloads: TR1 is set, and the high nibble of TMOD, which is GATE, C/T, M1
-- and M0 of Timer 1, is mode 2.
abbrev pub timer1_runs : Sfr → Onchip → Bool
timer1_runs f s = s.tr1 && (f.tmod / 16 == 2)

-- Its overflows in a second: T1M selects a quarter of the clock or a twelfth.
abbrev pub overflow_rate : Sfr → Onchip → ℕ
overflow_rate f s = clkout f / (if has_bit 0x10 f.ckcon then 4 else 12) / (256 - s.th1)

-- A UART's rate by its SCON and SMOD: SM0 and SM1, the bits 7 and 6, are mode 1, which takes a 32nd of
-- that rate, or with SMOD a 16th; REN, bit 4, lets it receive. In any other state, no rate.
abbrev pub baud : ℕ → Bool → Sfr → Onchip → Option ℕ
baud scon smod f s =
    if timer1_runs f s && (scon / 64 == 1) && has_bit 0x10 scon
    then some ((if smod then 2 else 1) * overflow_rate f s / 32)
    else none

-- Both UARTs send and receive at 31250 baud.
abbrev pub AtMidiRate : Sfr → Onchip → Type 0
AtMidiRate f s =
    (baud s.scon0 (has_bit 0x80 s.pcon) f s ≡ some 31250) × (baud s.scon1 s.smod1 f s ≡ some 31250)

-- Whatever the registers held and whichever core clock is strapped: behind `uart_onchip_init` the baud
-- timer runs in mode 2, both UARTs are in mode 1 with their receivers on, and their rate is 31250 baud;
-- and so it is behind `uart_rx_start`, which writes to TMOD too.
pub uart_onchip_init-baud :
    (board : Board) (c : Capture) (t : Timer0) (f : Sfr) (s : Onchip)
    → let (g, o) = uart_onchip_init (f, s) in
      AtMidiRate g o × AtMidiRate (uart_rx_start board c (g, t)).1.0 o
unfolding uart_onchip_init uart_rx_start
uart_onchip_init-baud board c t f s = ((ground arith, ground arith), (ground arith, ground arith))
