-- ===== src/Bridge/Pass.antt =====
-- One call of `bridge_out`: it takes whole event packets off the OUT buffer in order, and stops
-- either at the end or at the first packet that finds no room, where the next call goes on.
use mathlib.Core.Path.{subst}
use midex_class_firmware.Base.{
  ℕ, zero, suc, ◌+◌, ◌*◌, ◌%◌, ◌≤◌, ◌<◌, ◌≡◌, ◌⊎◌, ◌∙◌, sym, ap₂, refl, true, false, not, ◌||◌, leb,
  ltb, ◌==◌, ==_iff, ne_of_==, leb→le, ltb→lt, if◌then◌else◌, List, [], ◌++◌, arith, append_assoc,
  append-nil, Bool-cases, inl, inr,
}
use midex_class_firmware.Bridge.{
  Tx, tx_room, cable, data_len, push_bytes, rearm, decode, bridge_out,
}
use midex_class_firmware.Bridge.Queue.{
  IsValid, queue, slice, tx_room-length, Pushed, push_bytes-Pushed,
}

-- The MIDI bytes for port `p` in the event packet at index `i`.
abbrev pub data_for : ℕ → (ℕ → ℕ) → ℕ → List ℕ
data_for p buf i = if cable buf i == p then slice buf (i + 1) (data_len buf i) else []

-- And in `k` packets from there.
abbrev pub data_of : ℕ → (ℕ → ℕ) → ℕ → ℕ → List ℕ
data_of p buf i zero = []
data_of p buf i (suc k) = data_for p buf i ++ data_of p buf (i + 4) k

-- The index behind `k` packets from `i`.
abbrev pub index : ℕ → ℕ → ℕ
index i zero = i
index i (suc k) = index (i + 4) k

pub index_lem : (i k : ℕ) → index i k ≡ i + 4 * k
index_lem i zero = omega arith
index_lem i (suc k) = omega (arith, index_lem (i + 4) k)

-- The buffer is done, and the endpoint is armed again.
pub record Finished (n i k : ℕ) (t : Tx) : Type 0 where
  pub all : n < index i k + 4
  pub off : t.out_off ≡ 0
  pub flag : t.semaphore_ep2_out ≡ false
  pub bc : t.out2bc ≡ 0
  pub open_again : t.armed ≡ true

-- The packet behind the `k` that were taken has no room in its ring, and nothing else has changed.
pub record Blocked (n i k : ℕ) (s t : Tx) : Type 0 where
  pub more : index i k + 4 ≤ n
  pub off : t.out_off ≡ index i k
  pub cable_small : cable s.out2buf (index i k) < 8
  pub no_room : tx_room (cable s.out2buf (index i k)) t < data_len s.out2buf (index i k)
  pub flag : t.semaphore_ep2_out ≡ s.semaphore_ep2_out
  pub bc : t.out2bc ≡ s.out2bc
  pub closed : t.armed ≡ s.armed

pub record Decoded (n i : ℕ) (s t : Tx) : Type 0 where
  pub taken : ℕ
  pub inside : index i taken ≤ n
  pub queued : (p : ℕ) → p < 8 → queue t p ≡ queue s p ++ data_of p s.out2buf i taken
  pub end : Finished n i taken t ⊎ Blocked n i taken s t
  pub valid : IsValid t
  pub same_buf : t.out2buf ≡ s.out2buf

rearm-Decoded : (n i : ℕ) (s : Tx) → IsValid s → i ≤ n → n < i + 4 → Decoded n i s (rearm s)
unfolding rearm
rearm-Decoded n i s v h e = record {
  taken = 0;
  inside = omega arith;
  queued = λ p q. sym (append-nil (queue s p));
  end = inl (record { all = e; off = refl; flag = refl; bc = refl; open_again = refl });
  valid = v;
  same_buf = refl;
}

block-Decoded :
    (n i : ℕ) (s : Tx)
    → IsValid s
    → i + 4 ≤ n
    → cable s.out2buf i < 8
    → tx_room (cable s.out2buf i) s < data_len s.out2buf i
    → Decoded n i s (record s { out_off = i })
unfolding tx_room
block-Decoded n i s v h c r = record {
  taken = 0;
  inside = omega arith;
  queued = λ p q. sym (append-nil (queue s p));
  end = inr (record {
    more = h;
    off = refl;
    cable_small = c;
    no_room = r;
    flag = refl;
    bc = refl;
    closed = refl;
  });
  valid = v;
  same_buf = refl;
}

skip_data :
    (p : ℕ) (buf : ℕ → ℕ) (i : ℕ)
    → p < 8
    → (leb 8 (cable buf i) || (data_len buf i == 0)) ≡ true
    → data_for p buf i ≡ []
skip_data p buf i h e = elim (Bool-cases (cable buf i == p)) [
  | inl own ↦ let none_at_all : data_len buf i ≡ 0 = ground arith in rw (own, none_at_all)
  | inr other ↦ rw other
]

-- A packet that is taken or skipped, then the rest.
step-Decoded :
    (n i : ℕ) (s m t : Tx)
    → ((p : ℕ) → p < 8 → queue m p ≡ queue s p ++ data_for p s.out2buf i)
    → m.out2buf ≡ s.out2buf
    → m.semaphore_ep2_out ≡ s.semaphore_ep2_out
    → m.out2bc ≡ s.out2bc
    → m.armed ≡ s.armed
    → Decoded n (i + 4) m t
    → Decoded n i s t
step-Decoded n i s m t q buf flag bc armed d = record {
  taken = suc d.taken;
  inside = d.inside;
  queued = λ p h.
      d.queued p h
      ∙ ap₂ (λ l b. l ++ data_of p b (i + 4) d.taken) (q p h) buf
      ∙ append_assoc (queue s p) (data_for p s.out2buf i) (data_of p s.out2buf (i + 4) d.taken);
  end = carry d.end;
  valid = d.valid;
  same_buf = d.same_buf ∙ buf;
}
  where
    carry :
        {k : ℕ}
        → Finished n (i + 4) k t ⊎ Blocked n (i + 4) k m t
        → Finished n i (suc k) t ⊎ Blocked n i (suc k) s t
    carry (inl f) =
        inl
          (record { all = f.all; off = f.off; flag = f.flag; bc = f.bc; open_again = f.open_again })
    carry (inr b) = inr (record {
      more = b.more;
      off = b.off;
      cable_small = rw buf at b.cable_small;
      no_room = rw buf at b.no_room;
      flag = b.flag ∙ flag;
      bc = b.bc ∙ bc;
      closed = b.closed ∙ armed;
    })

-- `push_bytes` gives the packet's bytes to its own port.
data-Pushed :
    (i : ℕ) (s m : Tx)
    → Pushed (cable s.out2buf i) (slice s.out2buf (i + 1) (data_len s.out2buf i)) s m
    → (p : ℕ) → queue m p ≡ queue s p ++ data_for p s.out2buf i
data-Pushed i s m f p = elim (Bool-cases (cable s.out2buf i == p)) [
  | inl own ↦ rw own (rw ((==_iff _ _).0 own) at f.own)
  | inr other ↦
      rw other (f.other p (λ e. ne_of_== _ _ other (sym e)) ∙ sym (append-nil (queue s p)))
]

decode-Decoded :
    (fuel n i : ℕ) (s : Tx)
    → IsValid s
    → n ≤ 64
    → i ≤ n
    → n < i + 4 * fuel
    → Decoded n i s (decode fuel n i s)
unfolding decode
decode-Decoded zero n i s v h l f = absurd (omega arith)
decode-Decoded (suc fuel) n i s v h l f =
    let byte : (i + 4) % 256 ≡ i + 4 = omega arith in
    let cn = cable s.out2buf i in
    let len = data_len s.out2buf i in
    elim (Bool-cases (leb (i + 4) n)) [
      | inr past ↦ rw (byte, past, decode) (rearm-Decoded n i s v l (ground arith))
      | inl more ↦ elim (Bool-cases (leb 8 cn || (len == 0))) [
        | inl skip ↦
            rw (byte, more, skip, decode)
              (rw byte (
                step-Decoded n i s s _
                  (λ p q. sym (rw (skip_data p s.out2buf i q skip) (append-nil (queue s p)))) refl
                  refl refl refl
                  (decode-Decoded fuel n (i + 4) s v h (leb→le _ _ more) (omega arith))))
        | inr take ↦ elim (Bool-cases (ltb (tx_room cn s) len)) [
          | inl full ↦
              rw (byte, more, take, full, decode)
                (block-Decoded n i s v (leb→le _ _ more) (ground arith) (ltb→lt _ _ full))
          | inr room ↦
              let done : Pushed cn (slice s.out2buf (i + 1) len) s (push_bytes cn (i + 1) len s) =
                push_bytes-Pushed cn (i + 1) len s v (ground (arith, tx_room-length cn s v)) in
              rw (byte, more, take, room, decode)
                (rw byte (
                  step-Decoded n i s (push_bytes cn (i + 1) len s) _
                    (λ p q. data-Pushed i s _ done p) done.same_buf done.same_flag done.same_bc
                    done.same_armed
                    (decode-Decoded fuel n (i + 4) (push_bytes cn (i + 1) len s) done.valid h
                      (leb→le _ _ more) (omega arith))))
        ]
      ]
    ]

-- While a packet of at most 64 bytes is at hand, `bridge_out` from a valid state takes whole event
-- packets from the resume offset on and puts their bytes, in order, behind the rings of their cables;
-- it ends with the whole packet taken, the offset at zero and the endpoint armed, or at the first
-- event packet whose bytes have no room, with the offset there and the endpoint as it was.
pub bridge_out-Decoded :
    (s : Tx)
    → IsValid s
    → s.semaphore_ep2_out ≡ true
    → s.out2bc ≤ 64
    → s.out_off ≤ s.out2bc
    → Decoded s.out2bc s.out_off s (bridge_out s)
unfolding bridge_out
bridge_out-Decoded s v flag h l =
    subst (λ b. Decoded s.out2bc s.out_off s (if not b then s else decode 17 s.out2bc s.out_off s))
      (sym flag) (decode-Decoded 17 s.out2bc s.out_off s v h l (omega arith))

pub bridge_out_idle : (s : Tx) → s.semaphore_ep2_out ≡ false → bridge_out s ≡ s
unfolding bridge_out
bridge_out_idle s h = rw h

decode-past : (fuel n i : ℕ) (s : Tx) → i ≤ 64 → n < i + 4 → decode (suc fuel) n i s ≡ rearm s
unfolding decode
decode-past fuel n i s low over =
    let byte : (i + 4) % 256 ≡ i + 4 = omega (arith, low) in
    let past : leb (i + 4) n ≡ false = ground (arith, over) in rw (byte, past, decode) refl

-- With less than an event packet behind the resume offset, the call only finishes.
pub bridge_out-rearm :
    (s : Tx)
    → s.semaphore_ep2_out ≡ true
    → s.out_off ≤ 64
    → s.out2bc < s.out_off + 4
    → bridge_out s ≡ rearm s
unfolding bridge_out
bridge_out-rearm s flag low over =
    subst (λ b. (if not b then s else decode 17 s.out2bc s.out_off s) ≡ rearm s) (sym flag)
      (decode-past 16 s.out2bc s.out_off s low over)
