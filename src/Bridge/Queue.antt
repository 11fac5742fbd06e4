-- ===== src/Bridge/Queue.antt =====
-- Each TX ring is a queue of at most 127 bytes.
use midex_class_firmware.Base.{
  ℕ, zero, suc, ◌+◌, ◌≤◌, ◌<◌, ◌≡◌, ◌≢◌, ◌∙◌, sym, ap, refl, ==_refl, ==_of_ne, write_self,
  write_ne, List, [], ◌∷◌, ◌++◌, length, length-append, arith, append_assoc, append-nil,
  for_ports_at,
}
use midex_class_firmware.Ring
use midex_class_firmware.Bridge.{Tx, reset_port, tx_reset, tx_room, push, push_bytes}

abbrev pub IsValid : Tx → Type 0
IsValid s = (p : ℕ) → (s.tx_head p < 128) × (s.tx_tail p < 128)

-- The bytes that wait for port `p`'s UART, oldest first.
abbrev pub queue : Tx → ℕ → List ℕ
queue s p = Ring.bytes 128 (s.tx_ring p) (s.tx_head p) (s.tx_tail p)

length-queue : (p : ℕ) (s : Tx) → length (queue s p) ≡ Ring.queued 128 (s.tx_head p) (s.tx_tail p)
length-queue p s =
    Ring.length-span 128 (s.tx_ring p) (s.tx_tail p) (Ring.queued 128 (s.tx_head p) (s.tx_tail p))

pub tx_room-length : (p : ℕ) (s : Tx) → IsValid s → tx_room p s + length (queue s p) ≡ 127
unfolding tx_room
tx_room-length p s v = omega (arith, v p, length-queue p s)

pub push-IsValid : (cn b : ℕ) (s : Tx) → IsValid s → IsValid (push cn b s)
unfolding push
push-IsValid cn b s v p = ground (arith, v p, v cn)

pub queue-push :
    (cn b : ℕ) (s : Tx)
    → IsValid s
    → length (queue s cn) < 127
    → queue (push cn b s) cn ≡ queue s cn ++ (b ∷ [])
unfolding push
queue-push cn b s v h = rw (==_refl cn) (
    Ring.bytes-push 128 (s.tx_ring cn) (s.tx_head cn) (s.tx_tail cn) b (v cn).0 (v cn).1
      (omega (arith, length-queue cn s)))

pub queue-push_other : (cn q b : ℕ) (s : Tx) → q ≢ cn → queue (push cn b s) q ≡ queue s q
unfolding push
queue-push_other cn q b s n = rw (==_of_ne q cn n)

-- The `k` bytes of a buffer from index `i`.
abbrev pub slice : (ℕ → ℕ) → ℕ → ℕ → List ℕ
slice buf i zero = []
slice buf i (suc k) = buf i ∷ slice buf (i + 1) k

-- What the loop over `j` leaves alone.
pub record Pushed (cn : ℕ) (bs : List ℕ) (s t : Tx) : Type 0 where
  pub valid : IsValid t
  pub own : queue t cn ≡ queue s cn ++ bs
  pub other : (q : ℕ) → q ≢ cn → queue t q ≡ queue s q
  pub same_off : t.out_off ≡ s.out_off
  pub same_flag : t.semaphore_ep2_out ≡ s.semaphore_ep2_out
  pub same_buf : t.out2buf ≡ s.out2buf
  pub same_bc : t.out2bc ≡ s.out2bc
  pub same_armed : t.armed ≡ s.armed

push-Pushed :
    (cn b : ℕ) (s : Tx) → IsValid s → length (queue s cn) < 127 → Pushed cn (b ∷ []) s (push cn b s)
push-Pushed cn b s v h = record {
  valid = push-IsValid cn b s v;
  own = queue-push cn b s v h;
  other = λ q n. queue-push_other cn q b s n;
  same_off = unfold push in refl;
  same_flag = unfold push in refl;
  same_buf = unfold push in refl;
  same_bc = unfold push in refl;
  same_armed = unfold push in refl;
}

Pushed-trans :
    (cn : ℕ) (xs ys : List ℕ) (s t u : Tx)
    → Pushed cn xs s t
    → Pushed cn ys t u
    → Pushed cn (xs ++ ys) s u
Pushed-trans cn xs ys s t u f g = record {
  valid = g.valid;
  own = g.own ∙ ap (λ l. l ++ ys) f.own ∙ append_assoc (queue s cn) xs ys;
  other = λ q n. g.other q n ∙ f.other q n;
  same_off = g.same_off ∙ f.same_off;
  same_flag = g.same_flag ∙ f.same_flag;
  same_buf = g.same_buf ∙ f.same_buf;
  same_bc = g.same_bc ∙ f.same_bc;
  same_armed = g.same_armed ∙ f.same_armed;
}

pub push_bytes-Pushed :
    (cn i k : ℕ) (s : Tx)
    → IsValid s
    → length (queue s cn) + k ≤ 127
    → Pushed cn (slice s.out2buf i k) s (push_bytes cn i k s)
unfolding push_bytes push
push_bytes-Pushed cn i zero s v h = record {
  valid = v;
  own = sym (append-nil (queue s cn));
  other = λ q n. refl;
  same_off = refl;
  same_flag = refl;
  same_buf = refl;
  same_bc = refl;
  same_armed = refl;
}
push_bytes-Pushed cn i (suc k) s v h =
    let m = push cn (s.out2buf i) s in
    let one = push-Pushed cn (s.out2buf i) s v (omega arith) in
    let rest =
      push_bytes-Pushed cn (i + 1) k m one.valid
        (omega (arith, ap length one.own, length-append (queue s cn) (s.out2buf i ∷ []))) in
    Pushed-trans cn (s.out2buf i ∷ []) (slice s.out2buf (i + 1) k) s m (push_bytes cn (i + 1) k m)
      one rest

pub tx_reset-IsValid :
    (s : Tx) (p : ℕ) → p < 8 → ((tx_reset s).tx_head p ≡ 0) × ((tx_reset s).tx_tail p ≡ 0)
unfolding tx_reset reset_port
tx_reset-IsValid s p h = (
  for_ports_at reset_port (λ d. d.tx_head p) p (λ _. Unit {0}) (λ _. 0) 8 s (λ _ _ _. tt)
      (λ r t n. write_ne t.tx_head r p 0 (λ e. n (sym e))) (λ t _. write_self t.tx_head p 0) tt h,
  for_ports_at reset_port (λ d. d.tx_tail p) p (λ _. Unit {0}) (λ _. 0) 8 s (λ _ _ _. tt)
      (λ r t n. write_ne t.tx_tail r p 0 (λ e. n (sym e))) (λ t _. write_self t.tx_tail p 0) tt h,
)
