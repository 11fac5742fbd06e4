-- ===== src/RxPump/Queue.antt =====
-- The device->host ring is a queue of bytes, and `emit` puts a whole packet behind it.
use midex_class_firmware.Base.{
  ℕ, ◌+◌, ◌*◌, ◌%◌, ◌≤◌, ◌<◌, ◌≡◌, ◌∙◌, ap, Option, none, some, bit_or, List, [], ◌∷◌, ◌++◌, length,
  length-append, arith, append_assoc, or_nibbles,
}
use midex_class_firmware.Ring
use midex_class_firmware.Ring.{bytes, queued}
use midex_class_firmware.Parser.{Packet}
use midex_class_firmware.RxPump.{Rx, rx_ring_count, put, emit, emit?}

-- Both indices stand inside the ring.
abbrev pub InRing : Rx → Type 0
InRing s = (s.rx_head < 256) × (s.rx_tail < 256)

-- The bytes in the ring, oldest first.
abbrev pub pending : Rx → List ℕ
pending s = bytes 256 s.rx_ring s.rx_head s.rx_tail

-- The four bytes of a packet of cable `cn` on the bus.
abbrev pub frame : ℕ → Packet → List ℕ
frame cn p = (cn * 16 + p.cin) ∷ p.b0 ∷ p.b1 ∷ p.b2 ∷ []

pub rx_ring_count-eq-length : (s : Rx) → rx_ring_count s ≡ length (pending s)
unfolding rx_ring_count
rx_ring_count-eq-length s =
    omega (arith, Ring.length-span 256 s.rx_ring s.rx_tail (queued 256 s.rx_head s.rx_tail))

pending-put :
    (b : ℕ) (s : Rx)
    → InRing s
    → length (pending s) < 255
    → pending (put b s) ≡ pending s ++ (b ∷ [])
unfolding put
pending-put b s v h =
    Ring.bytes-push 256 s.rx_ring s.rx_head s.rx_tail b v.0 v.1
      (omega (arith, Ring.length-span 256 s.rx_ring s.rx_tail (queued 256 s.rx_head s.rx_tail)))

put-InRing : (b : ℕ) (s : Rx) → InRing s → InRing (put b s)
unfolding put
put-InRing b s v = omega arith

put_room :
    (b k : ℕ) (s : Rx)
    → InRing s
    → length (pending s) ≤ k
    → k < 255
    → length (pending (put b s)) ≤ k + 1
put_room b k s v h l =
    omega (arith, ap length (pending-put b s v (omega arith)), length-append (pending s) (b ∷ []))

pub emit-InRing : (cn : ℕ) (p : Packet) (s : Rx) → InRing s → InRing (emit cn p s)
unfolding emit
emit-InRing cn p s v = put-InRing p.b2 _ (put-InRing p.b1 _ (put-InRing p.b0 _ (put-InRing _ s v)))

regroup : (r ys : List ℕ) (x : ℕ) {q : List ℕ} → q ≡ r ++ (x ∷ []) → q ++ ys ≡ r ++ x ∷ ys
regroup r ys x e = rw e (append_assoc r (x ∷ []) ys)

-- With room for four bytes `emit` puts the packet's four bytes behind those in the ring, the first
-- with the cable number in its high nibble and the CIN in the low one.
pub pending-emit :
    (cn : ℕ) (p : Packet) (s : Rx)
    → InRing s
    → cn < 16
    → p.cin < 16
    → length (pending s) ≤ 251
    → pending (emit cn p s) ≡ pending s ++ frame cn p
unfolding emit
pending-emit cn p s v c d room =
    let hdr : bit_or (cn * 16) p.cin % 256 ≡ cn * 16 + p.cin =
      omega (arith, or_nibbles cn p.cin c d) in
    let s1 = put (cn * 16 + p.cin) s in
    let s2 = put p.b0 s1 in
    let s3 = put p.b1 s2 in
    let v1 : InRing s1 = put-InRing (cn * 16 + p.cin) s v in
    let v2 : InRing s2 = put-InRing p.b0 s1 v1 in
    let v3 : InRing s3 = put-InRing p.b1 s2 v2 in
    let r1 : length (pending s1) ≤ 252 = put_room (cn * 16 + p.cin) 251 s v room (omega arith) in
    let r2 : length (pending s2) ≤ 253 = put_room p.b0 252 s1 v1 r1 (omega arith) in
    let r3 : length (pending s3) ≤ 254 = put_room p.b1 253 s2 v2 r2 (omega arith) in
    rw hdr (
      pending-put p.b2 s3 v3 (omega (arith, r3))
      ∙ regroup (pending s2) (p.b2 ∷ []) p.b1 (pending-put p.b1 s2 v2 (omega (arith, r2)))
      ∙ regroup (pending s1) (p.b1 ∷ p.b2 ∷ []) p.b0 (pending-put p.b0 s1 v1 (omega (arith, r1)))
      ∙ regroup (pending s) (p.b0 ∷ p.b1 ∷ p.b2 ∷ []) (cn * 16 + p.cin)
          (pending-put (cn * 16 + p.cin) s v (omega (arith, room))))

pub emit?-InRing : (cn : ℕ) (out : Option Packet) (s : Rx) → InRing s → InRing (emit? cn out s)
unfolding emit?
emit?-InRing cn none s v = v
emit?-InRing cn (some p) s v = emit-InRing cn p s v
