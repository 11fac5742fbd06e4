-- ===== src/Tests/Send.antt =====
-- The host->instrument direction.
use midex_class_firmware.Base.{
  ℕ, ◌==◌, if◌then◌else◌, ◌≡◌, ◌≤◌, refl, true, false, List, [], ◌∷◌, ◌++◌, arith, write,
  write_self, write_ne,
}
use midex_class_firmware.Cin.{cin_len}
use midex_class_firmware.Bridge.Reopen.{run-set_interface}
use midex_class_firmware.Bridge.{Tx, UartOps, bridge_out, set_interface_out}
use midex_class_firmware.Bridge.Queue
use midex_class_firmware.Bridge.Pass.{data_of, Decoded, bridge_out-Decoded}
use midex_class_firmware.Bridge.Pump.{stream}
use midex_class_firmware.Bridge.Stream.{
  IsSound, Action, host, bridge, pump, wait, run, gifts, account, receive, run-account,
}
use midex_class_firmware.Bridge.Ready.{Serves}
use midex_class_firmware.Bridge.Progress.{unsent, passes, sent-passes}

-- UARTs that are always ready and keep what they are given.
abbrev pub recorder : UartOps
recorder = record {
  State = ℕ → List ℕ;
  tx_ready = λ p u. (true, u);
  sent-tx_ready = λ p q u. refl;
  putc = λ p b u. write u p (u p ++ (b ∷ []));
  sent = λ p u. u p;
  sent-putc = λ p b u h. write_self u p (u p ++ (b ∷ []));
  sent-putc_other = λ p q b u n. write_ne u p q (u p ++ (b ∷ [])) n;
}

-- A note on cable 1 and one on cable 2, whose ring is full.
abbrev pub sender : Tx
sender = record {
  tx_ring = λ p i. i;
  tx_head = λ p. if p == 2 then 9 else 0;
  tx_tail = λ p. if p == 2 then 10 else 0;
  out_off = 0;
  semaphore_ep2_out = true;
  out2buf = λ i. if i == 0 then 0x19 else if i == 4 then 0x29 else 0x70;
  out2bc = 8;
  armed = false;
}

sender-IsValid : Queue.IsValid sender
sender-IsValid p = ground arith

sender-IsSound : IsSound recorder sender
sender-IsSound = record {
  valid = sender-IsValid;
  endpoint = record {
    fits = λ e. (omega arith, omega arith);
    rested = λ e. refl;
    exclusive = λ e. absurd (cc e);
  };
}

abbrev plan : List (Action recorder)
plan =
    bridge
    ∷ pump
    ∷ bridge
    ∷ wait (λ u. u) (λ q u. refl)
    ∷ host (λ i. 0x1F) 4 (omega arith)
    ∷ pump
    ∷ []

run-account_example :
    account recorder 2 (run recorder plan (sender, λ p. []))
    ≡ account recorder 2 (sender, λ p. []) ++ gifts recorder 2 plan (sender, λ p. [])
run-account_example = run-account recorder 2 plan (sender, λ p. []) (omega arith) sender-IsSound

bridge_out-Decoded_example : Decoded 8 0 sender (bridge_out sender)
bridge_out-Decoded_example =
    bridge_out-Decoded sender sender-IsValid refl (omega arith) (omega arith)

recorder-Serves : Serves recorder (λ u. u)
recorder-Serves = record {
  keeps = λ q u. refl;
  ready = λ p u h. refl;
  apart = λ p q b u n. refl;
  asked = λ p q u n. refl;
}

sender_unsent : unsent recorder sender ≤ 300
unfolding cin_len
sender_unsent = omega arith

sent-passes_example :
    recorder.sent 2
      (run recorder (passes recorder (λ u. u) recorder-Serves.keeps 300) (sender, λ p. [])).1
    ≡ account recorder 2 (sender, λ p. [])
sent-passes_example =
    sent-passes recorder (λ u. u) recorder-Serves 300 2 (sender, λ p. []) sender-IsSound
      sender_unsent (omega arith)

-- The same, with the call stopped at the second event packet.
abbrev stopped : Tx
stopped = record sender { out_off = 4 }

stopped-IsSound : IsSound recorder stopped
stopped-IsSound = record {
  valid = sender-IsValid;
  endpoint = record {
    fits = λ e. (omega arith, omega arith);
    rested = λ e. absurd (cc e);
    exclusive = λ e. absurd (cc e);
  };
}

-- Of the new packet of two notes for cable 1 only the second is sent.
abbrev early : Tx × recorder.State
early = (bridge_out (set_interface_out stopped), λ p. [])

abbrev late : Tx × recorder.State
late = (bridge_out (receive recorder (λ i. 0x19) 8 (set_interface_out stopped)), λ p. [])

run-set_interface_example :
    (account recorder 1 (run recorder plan early)
      ≡ stream recorder 1 (stopped, λ p. []) ++ gifts recorder 1 plan early)
    × (account recorder 1 (run recorder plan late)
        ≡ (stream recorder 1 (stopped, λ p. []) ++ data_of 1 (λ i. 0x19) 4 1)
          ++ gifts recorder 1 plan late)
run-set_interface_example =
    run-set_interface recorder 1 (λ i. 0x19) 8 plan stopped (λ p. []) (omega arith) (omega arith)
      stopped-IsSound
