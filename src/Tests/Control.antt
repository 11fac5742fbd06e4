-- ===== src/Tests/Control.antt =====
-- The control endpoint and the UART backends.
use midex_class_firmware.Base.{
  ℕ, ◌+◌, if◌then◌else◌, ◌≡◌, ◌++◌, ◌%◌, true, false, none, some, [], ◌∷◌, arith, write, ltb,
}
use midex_class_firmware.Config.{r1, r2}
use midex_class_firmware.Usb.{SetupData, Usb, usb_reset_data_toggle, sudav_isr}
use midex_class_firmware.Usb.Toggle.{in_address, togctl-usb_reset_data_toggle}
use midex_class_firmware.Usb.Counter.{recount, sudav_isr-recount}
use midex_class_firmware.UartExt.{Bus, uart_write_lcr}
use midex_class_firmware.UartExt.Latch.{Outcome, uart_write_lcr-Outcome}
use midex_class_firmware.UartOnchip.{Onchip, uart_onchip_init}
use midex_class_firmware.Registers.{Sfr}
use midex_class_firmware.Uart.{uart_rx_start}
use midex_class_firmware.Tests.Whole.{board}
use midex_class_firmware.UartOnchip.Baud.{AtMidiRate, uart_onchip_init-baud}
use midex_class_firmware.Probe.{Probe, main_turn}
use midex_class_firmware.Probe.Deferred.{requests, main_turn-requests}

abbrev pub device : Usb
device = record {
  ep0cs = 0;
  in_cs = λ n. 0;
  out_cs = λ n. 8;
  in0buf0 = 0;
  in0buf1 = 0;
  in0bc = 0;
  sudptr = none;
  togctl = [];
  out2_arms = 0;
  uart_rx_overflows = 3;
  xdata_0 = 0;
  usbirq = 0;
}

togctl-usb_reset_data_toggle_example :
    ((usb_reset_data_toggle 2 device).togctl ≡ 0x22 ∷ 2 ∷ [])
    × ((usb_reset_data_toggle (in_address 2) device).togctl ≡ 0x22 ∷ 2 ∷ [])
togctl-usb_reset_data_toggle_example = togctl-usb_reset_data_toggle 2 device (omega arith)

-- The request that asks for the counter.
abbrev get_overflows : SetupData
get_overflows = record { bm_request_type = 0xC0; b_request = 1; w_value = 0; w_index = 0 }

sudav_isr-recount_example :
    sudav_isr get_overflows (recount 9 device) ≡ recount 9 (sudav_isr get_overflows device)
sudav_isr-recount_example = sudav_isr-recount get_overflows 9 device

-- A bus of memory cells that loses its first two writes.
abbrev pub memory : Bus
memory = record {
  State = ℕ × (ℕ → ℕ);
  read = λ a s. (s.1 a, s);
  write = λ a v s. if ltb s.0 2 then (s.0 + 1, s.1) else (s.0, write s.1 a v);
  delay_us = λ n s. s;
  pins = λ p s. s;
}

uart_write_lcr-Outcome_example :
    Outcome memory r1 3 0x83 50 (0, λ a. 0) (uart_write_lcr memory r1 3 0x83 (0, λ a. 0))
uart_write_lcr-Outcome_example = uart_write_lcr-Outcome memory r1 3 0x83 (0, λ a. 0)

abbrev chip : Onchip
chip = record {
  scon0 = 0;
  scon1 = 0;
  th1 = 0;
  tl1 = 0;
  pcon = 0x80;
  smod1 = true;
  tr1 = false;
  es0 = true;
  es1 = true;
  ti_0 = false;
  ti_1 = false;
  sbuf0 = 0;
  sbuf1 = 0;
}

abbrev strapped : Sfr
strapped = record { cpucs = 0x08; ckcon = 1; tmod = 2 }

uart_onchip_init-baud_example :
    AtMidiRate (uart_onchip_init (strapped, chip)).0 (uart_onchip_init (strapped, chip)).1
    × AtMidiRate
        (uart_rx_start r2 board.rx.capture ((uart_onchip_init (strapped, chip)).0, board.timer)).1.0
        (uart_onchip_init (strapped, chip)).1
uart_onchip_init-baud_example = uart_onchip_init-baud r2 board.rx.capture board.timer strapped chip

abbrev pub prober : Probe memory
prober = record {
  usb = device;
  ckcon = 0;
  memory = (0, λ a. 0);
  pend_addr = 0;
  pend_val = 0;
  pend_write = false;
}

-- Two writes before the loop comes round.
main_turn-requests_example :
    (t : Probe memory) × (requests memory (((0x4043, 0x83) ∷ []) ++ ((0x4040, 1) ∷ [])) prober
      ≡ some t)
    × (t.memory ≡ prober.memory)
    × ((main_turn memory t).memory ≡ memory.write 0x4040 (1 % 256) prober.memory)
    × ((main_turn memory t).pend_write ≡ false)
main_turn-requests_example = main_turn-requests memory ((0x4043, 0x83) ∷ []) (0x4040, 1) prober
