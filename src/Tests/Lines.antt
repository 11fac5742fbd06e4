-- ===== src/Tests/Lines.antt =====
-- A note for port 1, from the start of `main` to its wire.
use midex_class_firmware.Base.{
  ℕ, ◌≡◌, ◌≢◌, ◌==◌, ◌∙◌, sym, for_ports, if◌then◌else◌, Bool-cases, inl, inr, true, false, ap,
  refl, Option, none, some, List, [], ◌∷◌, map, Each, write, write_self, write_ne, arith, has_bit,
}
use native.Mathlib.Decide.{ℕ_discrete}
use midex_class_firmware.Config.{r1}
use midex_class_firmware.UartExt.{
  uart_ext_init, init_channels, init_channel, uart_write_lcr, lcr_loop, uart_reg,
}
use midex_class_firmware.Bridge.{tx_reset, set_interface_out}
use midex_class_firmware.Bridge
use midex_class_firmware.Bridge.Stream.{gifts}
use midex_class_firmware.Bringup.{uart_bringup}
use midex_class_firmware.Dispatch.{uart_init}
use midex_class_firmware.Dispatch.Interface.{dispatcher}
use midex_class_firmware.Main.{main_start, enumerate, clear_state, go_live, usb_events, usb_event}
use midex_class_firmware.Wire.Transmit.{
  Outboxes, Lined, Event, host, bridge, pump, leave, access, IsEvent, image, run, on_way,
}
use midex_class_firmware.Wire.Transmit.Startup.{booted, played_from_start}
use midex_class_firmware.Tests.Bank.{
  chips, chips-Bank, Chips, settings, lsr_of, put, put_at, get_at, read-reg, write-reg,
}
use midex_class_firmware.Tests.Channels.{noisy_board}
use midex_class_firmware.Tests.Whole.{early, dirty_tx, dirty_rx, dirty-IsMemory}

pub blank : (i o : Option ℕ) → has_bit 0x20 (lsr_of i o) ≡ true → o ≡ none
blank i none e = refl
blank none (some c) e = absurd (cc e)
blank (some b) (some c) e = absurd (cc e)

pub filled :
    (p b : ℕ) (s : Chips)
    → has_bit 0x80 (s.channels p).lcr ≡ false
    → (put_at p 0 b s).outbox ≡ write s.outbox p (some b)
unfolding put_at
filled p b s e = rw e refl

pub apart : (p q b : ℕ) (s : Chips) → q ≢ p → (put_at p 0 b s).outbox q ≡ s.outbox q
unfolding put_at
apart p q b s n = elim (Bool-cases (has_bit 0x80 (s.channels p).lcr)) [
  | inl e ↦ rw e refl
  | inr e ↦ rw e (write_ne s.outbox p q (some b) n)
]

pub same_line :
    (p q b : ℕ) (s : Chips)
    → has_bit 0x80 (s.channels p).lcr ≡ false
    → ((put_at p 0 b s).channels q).lcr ≡ (s.channels q).lcr
unfolding put_at put
same_line p q b s e = elim (ℕ_discrete q p) [
  | yes h ↦ rw (h, write_self s.channels p (put 0 (s.channels p) s.warm b), e) refl
  | no n ↦ ap (λ c. c.lcr) (write_ne s.channels p q (put 0 (s.channels p) s.warm b) n)
]

unfoldable pub chips-Outboxes : Outboxes chips r1 chips-Bank
unfolding chips-Bank get_at
chips-Outboxes = record {
  outbox = λ s p. s.outbox p;
  leave = λ p s. record s { outbox = write s.outbox p none };
  lsr_free = λ p s h e.
      blank (s.inbox p) (s.outbox p)
        (sym (ap (λ a. has_bit 0x20 a.0) (read-reg p 5 s h (omega arith))) ∙ e);
  lsr_keeps = λ p q s h. ap (λ a. a.1.outbox q) (read-reg p 5 s h (omega arith));
  lsr_lcr = λ p q s h. ap (λ a. (a.1.channels q).lcr) (read-reg p 5 s h (omega arith));
  thr_takes = λ p b s h d e.
      ap (λ t. t.outbox p) (write-reg p 0 b s h (omega arith))
      ∙ ap (λ f. f p) (filled p b s d)
      ∙ write_self s.outbox p (some b);
  thr_apart =
      λ p q b s h n. ap (λ t. t.outbox q) (write-reg p 0 b s h (omega arith)) ∙ apart p q b s n;
  thr_lcr = λ p q b s h d.
      ap (λ t. (t.channels q).lcr) (write-reg p 0 b s h (omega arith)) ∙ same_line p q b s d;
  leave_own = λ p s h. write_self s.outbox p none;
  leave_apart = λ p q s h n. write_ne s.outbox p q none n;
  leave_lcr = λ p q s h. refl;
}

abbrev pub note : ℕ → ℕ
note i = if i == 0 then 0x19 else if i == 1 then 0x90 else if i == 2 then 0x3C else 0x40

abbrev tune : List (Event chips r1 chips-Bank chips-Outboxes)
tune = host note 4 (omega arith) ∷ bridge ∷ pump ∷ pump ∷ leave 1 ∷ access (λ s. s) ∷ pump ∷ []

tune-IsEvent : Each (IsEvent chips r1 chips-Bank chips-Outboxes) tune
tune-IsEvent = (tt, (tt, (tt, (tt, (omega arith, ((λ s h. (h, λ p. refl)), (tt, tt)))))))

abbrev awake : Lined chips r1 chips-Bank chips-Outboxes
awake = booted chips r1 chips-Bank chips-Outboxes (λ e. dirty_tx) (λ e. dirty_rx) early noisy_board

pub awake_idle : (p : ℕ) → chips-Outboxes.outbox awake.uarts.uarts.0 p ≡ none
unfolding main_start enumerate clear_state go_live usb_events usb_event set_interface_out
    uart_bringup uart_init uart_ext_init init_channels init_channel uart_write_lcr lcr_loop put_at
    get_at uart_reg put chips-Outboxes
awake_idle p = refl

pub awake_open :
    (main_start chips r1 (λ e. dirty_tx) (λ e. dirty_rx) early noisy_board).tx.semaphore_ep2_out
    ≡ false
unfolding main_start clear_state go_live usb_events usb_event set_interface_out tx_reset for_ports
    Bridge.reset_port
awake_open = refl

played_from_start_example :
    on_way chips r1 chips-Bank chips-Outboxes 1 (run chips r1 chips-Bank chips-Outboxes tune awake)
    ≡ gifts
        (dispatcher chips r1)
        1
        (map (image chips r1 chips-Bank chips-Outboxes) tune)
        (awake.tx, awake.uarts)
played_from_start_example =
    played_from_start chips r1 chips-Bank chips-Outboxes settings refl (omega arith) (λ e. dirty_tx)
      (λ e. dirty_rx) early noisy_board dirty-IsMemory (λ p h. awake_idle p) awake_open 1 tune
      (omega arith) tune-IsEvent
