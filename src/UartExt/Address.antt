-- ===== src/UartExt/Address.antt =====
-- The XDATA addresses of the external channels' registers.
use midex_class_firmware.Base.{ℕ, ◌+◌, ◌*◌, ◌<◌, ◌≤◌, ◌≡◌, arith}
use midex_class_firmware.Config.{Board}
use midex_class_firmware.UartExt.{uart_reg}

-- No two registers of the bank have one address: for a board whose stride is at least 8 and whose
-- last register lies below 2 ^ 16, ports below `n` and offsets below 8 are determined by it.
uart_reg_inj :
    (board : Board) (n p q i j : ℕ)
    → board.uart_stride ≡ 8
    → board.uart_base + n * 8 ≤ 65536
    → p < n
    → q < n
    → i < 8
    → j < 8
    → uart_reg board p i ≡ uart_reg board q j
    → (p ≡ q) × (i ≡ j)
unfolding uart_reg
uart_reg_inj board n p q i j stride fits hp hq hi hj e =
    let f = rw stride at e in (omega arith, omega arith)
