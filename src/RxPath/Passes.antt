-- ===== src/RxPath/Passes.antt =====
-- `midi_rx_pump` as a sequence of the path's steps.
use midex_class_firmware.Base.{
  ℕ, zero, suc, ◌+◌, ◌≡◌, ◌∙◌, sym, ap, refl, true, false, Bool-cases, inl, inr, ltb, List, [], ◌∷◌,
  ◌++◌, rounds_from, for_ports, Each, Each-append, ◌<◌, ◌≤◌, arith,
}
use midex_class_firmware.Config.{Board}
use midex_class_firmware.Uart.{uart_rx_available}
use midex_class_firmware.RxPump.{Rx, drain, rx_ring_count, midi_rx_pump}
use midex_class_firmware.RxPath.{System, Event, turn, send, step, run, IsEvent}

-- `k` turns of the inner loop at port `p`.
abbrev pub turns : ℕ → ℕ → List Event
turns zero p = []
turns (suc k) p = turn p ∷ turns k p

-- The ports from `p` on, `k` of them, sixteen turns each.
abbrev pub port_turns : ℕ → ℕ → List Event
port_turns p zero = []
port_turns p (suc k) = turns 16 p ++ port_turns (p + 1) k

-- A pass of the pump.
abbrev pub pump_steps : List Event
pump_steps = port_turns 0 8 ++ (send ∷ [])

pub run-append :
    (board : Board) (xs ys : List Event) (a : System)
    → run board (xs ++ ys) a ≡ run board ys (run board xs a)
unfolding run
run-append board [] ys a = refl
run-append board (x ∷ xs) ys a = run-append board xs ys (step board x a)

-- The loop goes on where a turn has left it; where a turn does nothing, it is over.
drain-suc : (k p : ℕ) (s : Rx) → drain (suc k) p s ≡ drain k p (drain 1 p s)
unfolding drain
drain-suc k p s = elim (Bool-cases (uart_rx_available p s.capture)) [
  | inr e ↦ rw (e, drain) (empty k e)
  | inl e ↦ elim (Bool-cases (ltb 251 (rx_ring_count s))) [
    | inl full ↦ rw (e, full, drain) (stuck k e full)
    | inr room ↦ rw (e, room, drain) refl
  ]
]
  where
    empty : (k : ℕ) → uart_rx_available p s.capture ≡ false → s ≡ drain k p s
    empty zero e = refl
    empty (suc k) e = rw (e, drain) refl

    stuck :
        (k : ℕ)
        → uart_rx_available p s.capture ≡ true
        → ltb 251 (rx_ring_count s) ≡ true
        → s ≡ drain k p s
    stuck zero e full = refl
    stuck (suc k) e full = rw (e, full, drain) refl

run-turns :
    (board : Board) (k p : ℕ) (a : System)
    → run board (turns k p) a ≡ record a { rx = drain k p a.rx }
unfolding run step
run-turns board zero p a = unfold drain in refl
run-turns board (suc k) p a =
    run-turns board k p (record a { rx = drain 1 p a.rx })
    ∙ ap (λ s. record a { rx = s }) (sym (drain-suc k p a.rx))

run-port_turns :
    (board : Board) (p k : ℕ) (a : System)
    → run board (port_turns p k) a ≡ record a { rx = rounds_from (drain 16) p k a.rx }
unfolding rounds_from
run-port_turns board p zero a = unfold run in refl
run-port_turns board p (suc k) a =
    run-append board (turns 16 p) (port_turns (p + 1) k) a
    ∙ ap (run board (port_turns (p + 1) k)) (run-turns board 16 p a)
    ∙ run-port_turns board (p + 1) k (record a { rx = drain 16 p a.rx })

-- A pass of `midi_rx_pump` does what sixteen turns at each of the eight ports, in their order, and then
-- a send do: so a capture interrupt may be put between any two turns of a pass.
pub run-pump_steps :
    (board : Board) (a : System) → run board pump_steps a ≡ record a { rx = midi_rx_pump a.rx }
unfolding midi_rx_pump for_ports
run-pump_steps board a =
    run-append board (port_turns 0 8) (send ∷ []) a
    ∙ ap (run board (send ∷ [])) (run-port_turns board 0 8 a)
    ∙ unfold run step in refl

turns-IsEvent : (board : Board) (k p : ℕ) → p < 8 → Each (IsEvent board) (turns k p)
turns-IsEvent board zero p h = tt
turns-IsEvent board (suc k) p h = (h, turns-IsEvent board k p h)

port_turns-IsEvent : (board : Board) (p k : ℕ) → p + k ≤ 8 → Each (IsEvent board) (port_turns p k)
port_turns-IsEvent board p zero h = tt
port_turns-IsEvent board p (suc k) h =
    Each-append (IsEvent board) (turns 16 p) (port_turns (p + 1) k)
      (turns-IsEvent board 16 p (omega (arith, h)))
      (port_turns-IsEvent board (p + 1) k (omega (arith, h)))

pub pump_steps-IsEvent : (board : Board) → Each (IsEvent board) pump_steps
pump_steps-IsEvent board =
    Each-append (IsEvent board) (port_turns 0 8) (send ∷ [])
      (port_turns-IsEvent board 0 8 (omega arith)) (tt, tt)
