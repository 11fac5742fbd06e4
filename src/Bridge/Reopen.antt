-- ===== src/Bridge/Reopen.antt =====
-- A SET_INTERFACE between two calls of `bridge_out`, when a packet may be half decoded.
use midex_class_firmware.Base.{
  ℕ, ◌-◌, ◌/◌, ◌≤◌, ◌<◌, ◌≡◌, ◌∙◌, ap, refl, List, ◌++◌, arith, append-nil, Bool-cases, inl, inr,
  leb, leb→le,
}
use midex_class_firmware.Bridge.{Tx, UartOps, bridge_out, ep2out_isr, rearm, set_interface_out}
use midex_class_firmware.Bridge.Pass.{data_of, bridge_out_idle, bridge_out-rearm}
use midex_class_firmware.Bridge.Pump.{stream}
use midex_class_firmware.Bridge.Stream.{
  Action, receive, run, gifts, IsSound, account, run-account, bridge_lem,
}

module _ (ops : UartOps) where
  open ops use {State, sent}

  -- The state is sound, and the account of port `p` is `l`.
  pub record Holds (p : ℕ) (l : List ℕ) (a : Tx × State) : Type 0 where
    pub sound : IsSound ops a.0
    pub is : account ops p a ≡ l

  rearm-Holds :
      (p : ℕ) (s t : Tx) (u : State)
      → IsSound ops s
      → t.tx_ring ≡ s.tx_ring
      → t.tx_head ≡ s.tx_head
      → t.tx_tail ≡ s.tx_tail
      → Holds p (stream ops p (s, u)) (rearm t, u)
  unfolding rearm
  rearm-Holds p s t u v r h l = record {
    sound = record {
      valid = rw (h, l) v.valid;
      endpoint = record { fits = λ x. absurd (cc x); rested = λ _. refl; exclusive = λ _. refl };
    };
    is = rw (r, h, l) (append-nil (stream ops p (s, u)));
  }

  after :
      (p : ℕ) (l : List ℕ) (xs : List (Action ops)) (a : Tx × State)
      → p < 8
      → Holds p l a
      → account ops p (run ops xs a) ≡ l ++ gifts ops p xs a
  after p l xs a h k = run-account ops p xs a h k.sound ∙ ap (λ m. m ++ gifts ops p xs a) k.is

  offset_low : (s : Tx) → IsSound ops s → s.out_off ≤ 64
  offset_low s v = elim (Bool-cases s.semaphore_ep2_out) [
    | inl e ↦ omega (arith, v.endpoint.fits e)
    | inr e ↦ omega (arith, v.endpoint.rested e)
  ]

  -- The call comes before the next packet.
  dropped :
      (p : ℕ) (s : Tx) (u : State)
      → IsSound ops s
      → Holds p (stream ops p (s, u)) (bridge_out (set_interface_out s), u)
  unfolding set_interface_out
  dropped p s u v = elim (Bool-cases s.semaphore_ep2_out) [
    | inl e ↦
        rw (bridge_out-rearm (set_interface_out s) e (offset_low s v) (omega arith))
          (rearm-Holds p s (set_interface_out s) u v refl refl refl)
    | inr e ↦ rw (bridge_out_idle (set_interface_out s) e) (record {
      sound = record {
        valid = v.valid;
        endpoint = record {
          fits = λ x. absurd (cc (x, e));
          rested = v.endpoint.rested;
          exclusive = λ _. e;
        };
      };
      is = rw e (append-nil (stream ops p (s, u)));
    })
  ]

  -- The next packet comes before the call.
  overwritten :
      (p : ℕ) (buf : ℕ → ℕ) (n : ℕ) (s : Tx) (u : State)
      → p < 8
      → n ≤ 64
      → IsSound ops s
      → Holds p
          (stream ops p (s, u) ++ data_of p buf s.out_off ((n - s.out_off) / 4))
          (bridge_out (receive ops buf n (set_interface_out s)), u)
  unfolding set_interface_out receive ep2out_isr
  overwritten p buf n s u l h v = elim (Bool-cases (leb s.out_off n)) [
    | inl low ↦
        let r =
          bridge_lem ops p (t, u) l
            (record {
              valid = v.valid;
              endpoint = record {
                fits = λ _. (h, leb→le _ _ low);
                rested = λ x. absurd (cc x);
                exclusive = λ x. absurd (cc x);
              };
            }) in
        record { sound = r.0; is = r.1 }
    | inr high ↦
        let none_left : (n - s.out_off) / 4 ≡ 0 = ground (arith, high) in
        rw
          (
            bridge_out-rearm t refl (offset_low s v) (ground (arith, high)),
            none_left,
            append-nil (stream ops p (s, u)),
          )
          (rearm-Holds p s t u v refl refl refl)
  ]
    where
      t : Tx
      t = receive ops buf n (set_interface_out s)

  -- From any sound state, a SET_INTERFACE between two calls of `bridge_out` has one of two effects. If
  -- the next call comes before the next packet, the rest of the packet at hand is dropped, and the
  -- account goes on with the bytes of the packets behind. If a packet comes first, it is decoded from
  -- the old resume offset on: its event packets before that offset are lost, and the rest of the old
  -- packet too. In either case what is behind this step loses, doubles or reorders nothing.
  pub run-set_interface :
      (p : ℕ) (buf : ℕ → ℕ) (n : ℕ) (xs : List (Action ops)) (s : Tx) (u : State)
      → p < 8
      → n ≤ 64
      → IsSound ops s
      → let early : Tx × State = (bridge_out (set_interface_out s), u) in
        let late : Tx × State = (bridge_out (receive ops buf n (set_interface_out s)), u) in
        (account ops p (run ops xs early) ≡ stream ops p (s, u) ++ gifts ops p xs early)
        × (account ops p (run ops xs late)
            ≡ (stream ops p (s, u) ++ data_of p buf s.out_off ((n - s.out_off) / 4))
              ++ gifts ops p xs late)
  run-set_interface p buf n xs s u l h v = (
    after p (stream ops p (s, u)) xs _ l (dropped p s u v),
    after p _ xs _ l (overwritten p buf n s u l h v),
  )
