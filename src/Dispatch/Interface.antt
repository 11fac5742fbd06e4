-- ===== src/Dispatch/Interface.antt =====
-- The dispatcher behind the interface by which the bridge sees the UARTs.
use midex_class_firmware.Base.{ℕ, refl, Bool, List, [], ◌∷◌, ◌++◌, write, write_self, write_ne}
use midex_class_firmware.Config.{Board}
use midex_class_firmware.UartExt.{Bus}
use midex_class_firmware.UartOnchip.{Onchip}
use midex_class_firmware.Dispatch.{uart_tx_ready, uart_putc}
use midex_class_firmware.Bridge.{UartOps}

module _ (bus : Bus) (board : Board) where
  -- The UARTs, and what `uart_putc` has been given for each port.
  pub record Uarts : Type 0 where
    pub uarts : bus.State × Onchip
    pub given : ℕ → List ℕ

  abbrev pub ask : ℕ → Uarts → Bool × Uarts
  ask p u = let (ready, v) = uart_tx_ready bus board p u.uarts in (ready, record u { uarts = v })

  abbrev pub give : ℕ → ℕ → Uarts → Uarts
  give p b u = record {
    uarts = uart_putc bus board p b u.uarts;
    given = write u.given p (u.given p ++ (b ∷ []));
  }

  abbrev pub dispatcher : UartOps
  dispatcher = record {
    State = Uarts;
    tx_ready = ask;
    putc = give;
    sent = λ p u. u.given p;
    sent-tx_ready = λ p q u. refl;
    sent-putc = λ p b u h. write_self u.given p (u.given p ++ (b ∷ []));
    sent-putc_other = λ p q b u n. write_ne u.given p q (u.given p ++ (b ∷ [])) n;
  }
