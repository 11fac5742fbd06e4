-- ===== src/Tests/Bank.antt =====
-- A bank of eight channels that loses every first write of LCR.
use midex_class_firmware.Base.{
  Bool-cases, for_ports, ℕ, ◌+◌, ◌-◌, ◌/◌, ◌%◌, ◌<◌, ◌≡◌, ◌≢◌, ap₂, Option, none, some, ◌⊎◌, refl,
  ap, ◌∙◌, Bool, true, false, inl, inr, ◌==◌, if◌then◌else◌, has_bit, write, write_self, write_ne,
  arith,
}
use midex_class_firmware.Config.{r1}
use midex_class_firmware.UartExt.{Bus, uart_reg}
use midex_class_firmware.UartExt.Latch.{answer, tried}
use midex_class_firmware.UartExt.Bank.{Channel, Bank}
use midex_class_firmware.Uart.{Capture, uart_rx_isr}
use midex_class_firmware.Uart.Direct.{
  Receivers, direct_rx_isr, look, shown, served, direct_rx_isr-shown,
}
use midex_class_firmware.Uart.Emptied.{is_some, Inboxes}
use midex_class_firmware.UartExt.Init.{IsSettings}

-- The channels, whether the next write of LCR is kept, which a delay brings about, and the bytes
-- received and to be sent.
pub record Chips : Type 0 where
  pub channels : ℕ → Channel
  pub warm : Bool
  pub inbox : ℕ → Option ℕ
  pub outbox : ℕ → Option ℕ

-- A write of offset `i` of a channel.
unfoldable pub put : ℕ → Channel → Bool → ℕ → Channel
put i c warm v =
    if i == 0
    then (if has_bit 0x80 c.lcr then record c { dll = v } else c)
    else if i == 1
    then (if has_bit 0x80 c.lcr then record c { dlm = v } else record c { ier = v })
    else if i == 3
    then (if warm then record c { lcr = v } else c)
    else if i == 4
    then record c { mcr = v }
    else c

unfoldable pub put_at : ℕ → ℕ → ℕ → Chips → Chips
put_at p i v s = record s {
  channels = write s.channels p (put i (s.channels p) s.warm v);
  warm = if i == 3 then false else s.warm;
  outbox =
      if i == 0
      then (if has_bit 0x80 (s.channels p).lcr then s.outbox else write s.outbox p (some v))
      else s.outbox;
}

-- LSR: DR, THRE and TEMT.
abbrev pub lsr_of : Option ℕ → Option ℕ → ℕ
lsr_of i o = (if is_some i then 1 else 0) + (if is_some o then 0 else 0x60)

abbrev byte_in : Option ℕ → ℕ
byte_in none = 0
byte_in (some b) = b

-- A read of offset `i` of a channel.
unfoldable pub get_at : ℕ → ℕ → Chips → ℕ × Chips
get_at p i s =
    if i == 3
    then ((s.channels p).lcr, s)
    else if i == 5
    then (lsr_of (s.inbox p) (s.outbox p), s)
    else (byte_in (s.inbox p), record s { inbox = write s.inbox p none })

abbrev port_of : ℕ → ℕ
port_of a = (a - 0x4040) / 8

abbrev offset_of : ℕ → ℕ
offset_of a = (a - 0x4040) % 8

abbrev pub chips : Bus
chips = record {
  State = Chips;
  read = λ a s. get_at (port_of a) (offset_of a) s;
  write = λ a v s. put_at (port_of a) (offset_of a) v s;
  delay_us = λ n s. record s { warm = true };
  pins = λ p s. s;
}

port_of-reg : (p i : ℕ) → p < 8 → i < 8 → port_of (uart_reg r1 p i) ≡ p
unfolding uart_reg
port_of-reg p i h l = omega (arith, h, l)

offset_of-reg : (p i : ℕ) → p < 8 → i < 8 → offset_of (uart_reg r1 p i) ≡ i
unfolding uart_reg
offset_of-reg p i h l = omega (arith, h, l)

pub write-reg :
    (p i v : ℕ) (s : Chips) → p < 8 → i < 8 → chips.write (uart_reg r1 p i) v s ≡ put_at p i v s
write-reg p i v s h l = rw (port_of-reg p i h l, offset_of-reg p i h l) refl

pub read-reg : (p i : ℕ) (s : Chips) → p < 8 → i < 8 → chips.read (uart_reg r1 p i) s ≡ get_at p i s
read-reg p i s h l = ap₂ (λ q k. get_at q k s) (port_of-reg p i h l) (offset_of-reg p i h l)

-- What the write leaves in its own channel.
own :
    (p i v : ℕ) (s : Chips)
    → p < 8
    → i < 8
    → (chips.write (uart_reg r1 p i) v s).channels p ≡ put i (s.channels p) s.warm v
unfolding put_at
own p i v s h l =
    ap (λ t. t.channels p) (write-reg p i v s h l)
    ∙ write_self s.channels p (put i (s.channels p) s.warm v)

pub apart :
    (p q i v : ℕ) (s : Chips)
    → p < 8
    → i < 8
    → q ≢ p
    → (chips.write (uart_reg r1 p i) v s).channels q ≡ s.channels q
unfolding put_at
apart p q i v s h l n =
    ap (λ t. t.channels q) (write-reg p i v s h l)
    ∙ write_ne s.channels p q (put i (s.channels p) s.warm v) n

-- What is read back behind a write of LCR.
back :
    (p v : ℕ) (s : Chips) → p < 8 → (answer chips r1 p v s).0 ≡ (put 3 (s.channels p) s.warm v).lcr
unfolding get_at
back p v s h =
    ap (λ a. a.0) (read-reg p 3 (chips.write (uart_reg r1 p 3) v s) h (omega arith))
    ∙ ap (λ c. c.lcr) (own p 3 v s h (omega arith))

pub written :
    (p v : ℕ) (s : Chips)
    → p < 8
    → ((chips.write (uart_reg r1 p 3) v s).channels p ≡ record (s.channels p) { lcr = v })
      ⊎ ((chips.write (uart_reg r1 p 3) v s).channels p ≡ s.channels p)
unfolding put
written p v s h = elim (Bool-cases s.warm) [
  | inl e ↦ inl (own p 3 v s h (omega arith) ∙ ap (λ b. put 3 (s.channels p) b v) e)
  | inr e ↦ inr (own p 3 v s h (omega arith) ∙ ap (λ b. put 3 (s.channels p) b v) e)
]

pub kept :
    (p v : ℕ) (s : Chips)
    → p < 8
    → (k : ℕ) × (k < 50) × ((answer chips r1 p v (tried chips r1 p v k s)).0 ≡ v)
unfolding put tried
kept p v s h = elim (Bool-cases s.warm) [
  | inl e ↦ (0, omega arith, back p v s h ∙ ap (λ b. (put 3 (s.channels p) b v).lcr) e)
  | inr e ↦ (1, omega arith, back p v (tried chips r1 p v 1 s) h)
]

pub latched_at :
    (p i v : ℕ) (s : Chips) (c : Channel)
    → p < 8
    → i < 8
    → put i (s.channels p) s.warm v ≡ c
    → (chips.write (uart_reg r1 p i) v s).channels p ≡ c
latched_at p i v s c h l e = own p i v s h l ∙ e

unfoldable pub chips-Bank : Bank chips r1
unfolding put get_at
chips-Bank = record {
  channel = λ s p. s.channels p;
  write_apart = λ p q i v s h l j n. apart p q i v s h j n;
  write_lcr = λ p v s h b. written p v s h;
  write_dll = λ p v s h b e. latched_at p 0 v s _ h (omega arith) (rw e refl);
  write_dlm = λ p v s h b e. latched_at p 1 v s _ h (omega arith) (rw e refl);
  write_ier = λ p v s h b e. latched_at p 1 v s _ h (omega arith) (rw e refl);
  write_mcr = λ p v s h b. latched_at p 4 v s _ h (omega arith) refl;
  read_lcr = λ p s h. ap (λ a. a.0) (read-reg p 3 s h (omega arith));
  read_lcr_keeps = λ p q s h. ap (λ a. a.1.channels q) (read-reg p 3 s h (omega arith));
  delay_keeps = λ n q s. refl;
  sticks = λ p v s h b. kept p v s h;
}

-- Channels with everything set.
abbrev pub noisy : Chips
noisy = record {
  channels = λ p. record { lcr = 0x40; dll = 9; dlm = 9; ier = 0x0F; mcr = 0x1F };
  warm = false;
  inbox = λ p. none;
  outbox = λ p. none;
}

abbrev empty : Capture
empty = record {
  rx_fifo = λ p i. 0;
  rx_fifo_head = λ p. 0;
  rx_fifo_tail = λ p. 0;
  uart_rx_overflows = 0;
  rx_tick_prescale = 1;
}

pub settings : IsSettings r1
settings = record {
  dlab_byte = omega arith;
  dlab_set = refl;
  line_byte = omega arith;
  line_clear = refl;
  divisor_byte = omega arith;
}

pub lamp : (i o : Option ℕ) → has_bit 0x01 (lsr_of i o) ≡ is_some i
lamp none none = refl
lamp none (some c) = refl
lamp (some b) none = refl
lamp (some b) (some c) = refl

unfoldable pub chips-Inboxes : Inboxes chips r1 chips-Bank
unfolding get_at chips-Bank
chips-Inboxes = record {
  inbox = λ s p. s.inbox p;
  lsr_shows = λ p s h.
      ap (λ a. has_bit 0x01 a.0) (read-reg p 5 s h (omega arith)) ∙ lamp (s.inbox p) (s.outbox p);
  lsr_keeps = λ p q s h. ap (λ a. a.1.inbox q) (read-reg p 5 s h (omega arith));
  lsr_lcr = λ p q s h. ap (λ a. (a.1.channels q).lcr) (read-reg p 5 s h (omega arith));
  rhr_gives = λ p b s h d e. ap (λ a. a.0) (read-reg p 0 s h (omega arith)) ∙ ap byte_in e;
  rhr_takes =
      λ p s h d. ap (λ a. a.1.inbox p) (read-reg p 0 s h (omega arith)) ∙ write_self s.inbox p none;
  rhr_apart = λ p q s h n.
      ap (λ a. a.1.inbox q) (read-reg p 0 s h (omega arith)) ∙ write_ne s.inbox p q none n;
  rhr_lcr = λ p q s h. ap (λ a. (a.1.channels q).lcr) (read-reg p 0 s h (omega arith));
}

-- A byte stands in the receiver of port 2.
abbrev ringing : Chips
ringing = record {
  channels = λ p. record { lcr = 0x03; dll = 1; dlm = 0; ier = 0; mcr = 0 };
  warm = false;
  inbox = λ p. if p == 2 then some 0x90 else none;
  outbox = λ p. none;
}

abbrev pub unlit : Receivers
unlit = record { ri_0 = false; sbuf0 = 0; ri_1 = false; sbuf1 = 0 }

direct_rx_isr-shown_example : direct_rx_isr chips r1 (empty, (ringing, unlit)) ≡ (
  uart_rx_isr r1 (shown chips r1 ringing unlit) empty,
  (for_ports (look chips r1) 8 ringing, served chips r1 unlit),
)
direct_rx_isr-shown_example = direct_rx_isr-shown chips r1 empty ringing unlit
