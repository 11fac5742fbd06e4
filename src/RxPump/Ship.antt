-- ===== src/RxPump/Ship.antt =====
-- The second half of `midi_rx_pump` moves whole packets from the front of the ring into EP2-IN.
use mathlib.Core.Path.{subst}
use native.Mathlib.Numerals.{add-one}
use midex_class_firmware.Base.{
  ℕ, zero, suc, ◌+◌, ◌*◌, ◌%◌, ◌≤◌, ◌<◌, ◌≡◌, ◌⊎◌, ◌∙◌, sym, ap, ap₂, refl, true, false, not, ◌&&◌,
  leb, ◌==◌, if◌then◌else◌, write, write_self, write_ne, List, [], ◌∷◌, ◌++◌, length, length-append,
  arith, append_assoc, append-nil, Bool-cases, inl, inr,
}
use midex_class_firmware.Ring
use midex_class_firmware.RxPump.{Rx, rx_ring_count, copy_byte, fill, start, ship}
use midex_class_firmware.RxPump.Queue.{InRing, pending, rx_ring_count-eq-length}

-- The first `n` bytes of the endpoint's buffer.
abbrev pub loaded : (ℕ → ℕ) → ℕ → List ℕ
loaded m zero = []
loaded m (suc n) = loaded m n ++ (m n ∷ [])

loaded-write_above : (m : ℕ → ℕ) (k n v : ℕ) → k ≤ n → loaded (write m n v) k ≡ loaded m k
loaded-write_above m zero n v h = refl
loaded-write_above m (suc k) n v h =
    ap₂ (λ l x. l ++ (x ∷ [])) (loaded-write_above m k n v (omega arith))
      (write_ne m n k v (omega arith))

loaded-write : (m : ℕ → ℕ) (n v : ℕ) → loaded (write m n v) (n + 1) ≡ loaded m n ++ (v ∷ [])
loaded-write m n v =
    rw add-one
      (ap₂ (λ l x. l ++ (x ∷ [])) (loaded-write_above m n n v (omega arith)) (write_self m n v))

-- From one state of the loop to a later one the bytes `xs` have moved, and nothing else changed.
pub record Moved (xs : List ℕ) (a b : ℕ × Rx) : Type 0 where
  pub taken : pending a.1 ≡ xs ++ pending b.1
  pub stored : loaded b.1.in2.in2buf b.0 ≡ loaded a.1.in2.in2buf a.0 ++ xs
  pub count : b.0 ≡ a.0 + length xs
  pub ring : InRing b.1
  pub same_bc : b.1.in2.in2bc ≡ a.1.in2.in2bc
  pub same_busy : b.1.in2.epbsy ≡ a.1.in2.epbsy
  pub same_parser : b.1.parser ≡ a.1.parser
  pub same_capture : b.1.capture ≡ a.1.capture

Moved-refl : (a : ℕ × Rx) → InRing a.1 → Moved [] a a
Moved-refl a v = record {
  taken = refl;
  stored = sym (append-nil (loaded a.1.in2.in2buf a.0));
  count = omega arith;
  ring = v;
  same_bc = refl;
  same_busy = refl;
  same_parser = refl;
  same_capture = refl;
}

Moved-trans : (xs ys : List ℕ) (a b c : ℕ × Rx) → Moved xs a b → Moved ys b c → Moved (xs ++ ys) a c
Moved-trans xs ys a b c f g = record {
  taken = f.taken ∙ ap (λ l. xs ++ l) g.taken ∙ sym (append_assoc xs ys (pending c.1));
  stored = g.stored ∙ ap (λ l. l ++ ys) f.stored ∙ append_assoc (loaded a.1.in2.in2buf a.0) xs ys;
  count = omega (arith, f.count, g.count, length-append xs ys);
  ring = g.ring;
  same_bc = g.same_bc ∙ f.same_bc;
  same_busy = g.same_busy ∙ f.same_busy;
  same_parser = g.same_parser ∙ f.same_parser;
  same_capture = g.same_capture ∙ f.same_capture;
}

copy_byte-Moved :
    (n : ℕ) (s : Rx)
    → InRing s
    → 0 < length (pending s)
    → Moved (s.rx_ring s.rx_tail ∷ []) (n, s) (copy_byte (n, s))
unfolding copy_byte
copy_byte-Moved n s v h = record {
  taken = Ring.bytes-pop 256 s.rx_ring s.rx_head s.rx_tail v.0 v.1 (
      omega (
        arith,
        Ring.length-span 256 s.rx_ring s.rx_tail (Ring.queued 256 s.rx_head s.rx_tail),
        (Ring.empty_iff 256 s.rx_head s.rx_tail v.0 v.1).0,
      ));
  stored = loaded-write s.in2.in2buf n (s.rx_ring s.rx_tail);
  count = refl;
  ring = omega arith;
  same_bc = refl;
  same_busy = refl;
  same_parser = refl;
  same_capture = refl;
}

-- The bytes of `k` rounds of copying.
copies : ℕ → ℕ × Rx → ℕ × Rx
copies zero a = a
copies (suc k) a = copies k (copy_byte a)

copies-Moved :
    (k n : ℕ) (s : Rx)
    → InRing s
    → k ≤ length (pending s)
    → (xs : List ℕ) × (length xs ≡ k) × Moved xs (n, s) (copies k (n, s))
unfolding copies
copies-Moved zero n s v h = ([], refl, Moved-refl (n, s) v)
copies-Moved (suc k) n s v h =
    let one = copy_byte-Moved n s v (omega arith) in
    let b = copy_byte (n, s) in
    let rest = copies-Moved k b.0 b.1 one.ring (omega (arith, ap length one.taken)) in
    (
      s.rx_ring s.rx_tail ∷ rest.0,
      ap suc rest.1,
      Moved-trans (s.rx_ring s.rx_tail ∷ []) rest.0 (n, s) b (copies k b) one rest.2,
    )

pub record Filled (fuel : ℕ) (a b : ℕ × Rx) : Type 0 where
  pub moved : List ℕ
  pub did : Moved moved a b
  pub whole : length moved % 4 ≡ 0
  pub fits : b.0 ≤ 64
  pub stopped : (length (pending b.1) < 4) ⊎ (60 < b.0) ⊎ (4 * fuel ≤ length moved)

fill-Filled : (fuel n : ℕ) (s : Rx) → InRing s → n ≤ 64 → Filled fuel (n, s) (fill fuel (n, s))
unfolding fill copies
fill-Filled zero n s v h = record {
  moved = [];
  did = Moved-refl (n, s) v;
  whole = refl;
  fits = h;
  stopped = inr (inr (omega arith));
}
fill-Filled (suc fuel) n s v h = elim (Bool-cases (leb 4 (rx_ring_count s) && leb n 60)) [
  | inr e ↦
      rw (e, fill)
        (record {
          moved = [];
          did = Moved-refl (n, s) v;
          whole = refl;
          fits = h;
          stopped = ground (arith, rx_ring_count-eq-length s);
        })
  | inl e ↦
      let four = copies-Moved 4 n s v (ground (arith, rx_ring_count-eq-length s)) in
      let next = copies 4 (n, s) in
      let more = fill-Filled fuel next.0 next.1 four.2.ring (ground (arith, four.2.count)) in
      rw (e, fill)
        (record {
          moved = four.0 ++ more.moved;
          did = Moved-trans four.0 more.moved (n, s) next (fill fuel next) four.2 more.did;
          whole = omega (arith, length-append four.0 more.moved, four.1, more.whole);
          fits = more.fits;
          stopped =
              later fuel _ _ more.stopped (omega (arith, length-append four.0 more.moved, four.1));
        })
]
  where
    later : {A B : Type 0} (f k m : ℕ) → A ⊎ B ⊎ (4 * f ≤ k) → m ≡ 4 + k → A ⊎ B ⊎ (4 * suc f ≤ m)
    later f k m (inl a) g = inl a
    later f k m (inr (inl b)) g = inr (inl b)
    later f k m (inr (inr l)) g = inr (inr (omega arith))

-- What a pass hands to the endpoint when it is free.
pub record Shipped (s t : Rx) : Type 0 where
  pub moved : List ℕ
  pub taken : pending s ≡ moved ++ pending t
  pub whole : length moved % 4 ≡ 0
  pub fits : length moved ≤ 64
  pub greedy : (length (pending t) < 4) ⊎ (length moved ≡ 64)
  pub buffered : loaded t.in2.in2buf (length moved) ≡ moved
  pub armed : t.in2.epbsy ≡ not (length moved == 0)
  pub counted : t.in2.in2bc ≡ (if length moved == 0 then s.in2.in2bc else length moved)
  pub ring : InRing t
  pub same_parser : t.parser ≡ s.parser
  pub same_capture : t.capture ≡ s.capture

pub ship_busy : (s : Rx) → s.in2.epbsy ≡ true → ship s ≡ s
unfolding ship
ship_busy s h = rw h

start-Shipped :
    (s : Rx) (b : ℕ × Rx) → s.in2.epbsy ≡ false → Filled 17 (0, s) b → Shipped s (start b)
unfolding start
start-Shipped s b free f =
    let n : b.0 ≡ length f.moved = f.did.count ∙ omega arith in
    let done : (length (pending b.1) < 4) ⊎ (length f.moved ≡ 64) =
      ends f.stopped n f.fits f.whole in
    elim (Bool-cases (b.0 == 0)) [
      | inl e ↦ rw e (record {
        moved = f.moved;
        taken = f.did.taken;
        whole = f.whole;
        fits = rw n at f.fits;
        greedy = done;
        buffered = rw n at f.did.stored;
        armed = f.did.same_busy ∙ free ∙ sym (ap not (rw n at e));
        counted = f.did.same_bc ∙ sym (rw (rw n at e) refl);
        ring = f.did.ring;
        same_parser = f.did.same_parser;
        same_capture = f.did.same_capture;
      })
      | inr e ↦ rw e (record {
        moved = f.moved;
        taken = f.did.taken;
        whole = f.whole;
        fits = rw n at f.fits;
        greedy = done;
        buffered = rw n at f.did.stored;
        armed = sym (ap not (rw n at e));
        counted = n ∙ sym (rw (rw n at e) refl);
        ring = f.did.ring;
        same_parser = f.did.same_parser;
        same_capture = f.did.same_capture;
      })
    ]
  where
    ends :
        {A : Type 0} {m k : ℕ}
        → A ⊎ (60 < m) ⊎ (4 * 17 ≤ k)
        → m ≡ k
        → m ≤ 64
        → k % 4 ≡ 0
        → A ⊎ (k ≡ 64)
    ends (inl a) g h w = inl a
    ends (inr (inl l)) g h w = inr (omega arith)
    ends (inr (inr l)) g h w = inr (omega arith)

-- With the endpoint free, the second half of the pump moves whole packets from the front of the ring
-- into IN2BUF, as many as are there up to sixteen, writes IN2BC and so arms the endpoint only if
-- there is one, and leaves the parsers and the FIFOs alone.
pub ship-Shipped : (s : Rx) → InRing s → s.in2.epbsy ≡ false → Shipped s (ship s)
unfolding ship
ship-Shipped s v h =
    subst (Shipped s) (sym (ap (λ b. if b then s else start (fill 17 (0, s))) h))
      (start-Shipped s (fill 17 (0, s)) h (fill-Filled 17 0 s v (omega arith)))
