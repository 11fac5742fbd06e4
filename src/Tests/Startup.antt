-- ===== src/Tests/Startup.antt =====
-- The bring-up of the board, and the uploader.
use midex_class_firmware.Base.{
  Each, List, ℕ, length, ◌==◌, ◌+◌, ◌-◌, ◌*◌, leb, ◌&&◌, ◌||◌, ◌≡◌, ◌<◌, refl, Bool, true, false,
  if◌then◌else◌, none, some, [], ◌∷◌, ◌++◌, map, arith, write,
}
use midex_class_firmware.Config.{r2}
use midex_class_firmware.UartExt.{Bus}
use midex_class_firmware.UartOnchip.{Onchip}
use midex_class_firmware.Bringup.{board_init, uart_bringup}
use midex_class_firmware.Registers.{Sfr, Pins}
use midex_class_firmware.Bringup.Reset.{in_reset, running, watched, uart_bringup-running}
use midex_class_firmware.Upload.{FwRecord, parse_ihex}
use midex_class_firmware.Upload.Transfer.{
  Transfer, Reply, moved, no_device, upload, write_records, write_chunks, anchor_write, let_go,
}
use midex_class_firmware.Upload.Record.{digit, checksum, line_with, end_line, IsRecord}
use midex_class_firmware.Upload.Roundtrip.{ReadsDigits, parse_ihex-lines}

-- The values of the two characters, where they are digits.
abbrev value : ℕ → ℕ
value c = if leb 65 c then c - 55 else c - 48

abbrev is_digit : ℕ → Bool
is_digit c = (leb 48 c && leb c 57) || (leb 65 c && leb c 70)

abbrev pub strtol : ℕ → ℕ → ℕ × ℕ
strtol a b =
    if is_digit a && is_digit b
    then (value a * 16 + value b, 2)
    else if is_digit a
    then (value a, 1)
    else (0, 0)

value-digit : (d : ℕ) → d < 16 → (value (digit d) ≡ d) × (is_digit (digit d) ≡ true)
value-digit d h = (ground arith, ground arith)

strtol-ReadsDigits : ReadsDigits strtol
strtol-ReadsDigits h l p q =
    rw ((value-digit h p).0, (value-digit h p).1, (value-digit l q).0, (value-digit l q).1)

-- A jump at address 0, and two bytes at 0x1FFE.
abbrev pub jump : FwRecord
jump = record { addr = 0; len = 3; bytes = 2 ∷ 0 ∷ 0x80 ∷ [] }

abbrev two : FwRecord
two = record { addr = 0x1FFE; len = 2; bytes = 0xFF ∷ 0 ∷ [] }

jump-IsRecord : IsRecord jump
jump-IsRecord = record {
  addr_small = omega arith;
  len_small = omega arith;
  len_is = refl;
  small = ground arith;
}

two-IsRecord : IsRecord two
two-IsRecord = record {
  addr_small = omega arith;
  len_small = omega arith;
  len_is = refl;
  small = ground arith;
}

parse_ihex-lines_example :
    (parse_ihex strtol 0 (map (λ r. line_with (checksum r) r) (jump ∷ []) ++ end_line ∷ [])
      ≡ some (jump ∷ []))
    × (parse_ihex strtol 0 (map (λ r. line_with (checksum r) r) (jump ∷ []) ++ line_with 7 two ∷ [])
        ≡ none)
parse_ihex-lines_example =
    parse_ihex-lines strtol (jump ∷ []) two 7 [] strtol-ReadsDigits (jump-IsRecord, tt) two-IsRecord
      (omega arith) (omega arith)

-- A bus of memory cells.
abbrev pub cells : Bus
cells = record {
  State = ℕ → ℕ;
  read = λ a s. (s a, s);
  write = λ a v s. write s a v;
  delay_us = λ n s. s;
  pins = λ p s. s;
}

abbrev pub silent : Onchip
silent = record {
  scon0 = 0;
  scon1 = 0;
  th1 = 0;
  tl1 = 0;
  pcon = 0;
  smod1 = false;
  tr1 = false;
  es0 = false;
  es1 = false;
  ti_0 = false;
  ti_1 = false;
  sbuf0 = 0;
  sbuf1 = 0;
}

abbrev pub registers : Sfr
registers = record { cpucs = 2; ckcon = 1; tmod = 0x20 }

abbrev pub power_on : Pins
power_on = record {
  portacfg = 0;
  portbcfg = 0x10;
  portccfg = 0;
  outb = 0xFF;
  outc = 0xFF;
  oeb = 0;
  oec = 0;
  rcap2l = 0;
  rcap2h = 0;
  t2con = 0;
  tr2 = false;
  xdata = λ a. 0;
}

abbrev on : Sfr × Pins
on = board_init r2 (registers, power_on)

abbrev up : Pins × (Sfr × ((watched cells r2).State × Onchip))
up = uart_bringup (watched cells r2) r2 (on.1, (on.0, (((λ a. 0), (false, [])), silent)))

uart_bringup-running_example :
    (in_reset r2 on.1 ≡ true) × (running r2 up.0 ≡ true) × Each (λ b. b ≡ true) up.1.1.0.1.1
uart_bringup-running_example =
    uart_bringup-running cells r2 registers power_on (λ a. 0) false silent refl

-- A loader that takes every byte, and loses the device as the 8051 starts.
abbrev pub loader : List Transfer → Transfer → Reply
loader log t = if length log == 3 then no_device else moved (length t.payload)

upload_runs : (upload loader (jump ∷ two ∷ [])).0 ≡ true
unfolding upload write_records write_chunks anchor_write let_go
upload_runs = refl
