-- ===== src/Tests/Channels.antt =====
-- The start of `main` on the bank that loses writes of LCR.
use midex_class_firmware.Base.{◌≡◌, true, false, has_bit, arith}
use midex_class_firmware.Config.{r1}
use midex_class_firmware.UartExt.Init.{configured}
use midex_class_firmware.Main.{Device, main_start}
use midex_class_firmware.Main.Channels.{main_start-configured}
use midex_class_firmware.Tests.Startup.{silent}
use midex_class_firmware.Tests.Whole.{board, early, dirty_tx, dirty_rx}
use midex_class_firmware.Tests.Bank.{chips, chips-Bank, noisy, settings}

abbrev pub noisy_board : Device chips
noisy_board = record {
  sfr = board.sfr;
  pins = board.pins;
  core = board.core;
  ea = false;
  uarts = (noisy, silent);
  timer = board.timer;
  tx = dirty_tx;
  rx = dirty_rx;
}

abbrev begun : Device chips
begun = main_start chips r1 (λ e. dirty_tx) (λ e. dirty_rx) early noisy_board

main_start-configured_example :
    (chips-Bank.channel begun.uarts.0 5 ≡ configured chips r1 chips-Bank)
    × (has_bit 0x80 (chips-Bank.channel begun.uarts.0 5).lcr ≡ false)
    × (begun.timer.tr0 ≡ true)
    × (begun.timer.et0 ≡ true)
main_start-configured_example =
    main_start-configured chips r1 chips-Bank settings (λ e. dirty_tx) (λ e. dirty_rx) early
      noisy_board 5 (omega arith)
