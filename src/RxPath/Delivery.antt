-- ===== src/RxPath/Delivery.antt =====
-- Whatever happened before, a host that goes on reading gets all that the instruments sent.
use mathlib.Core.Path.{subst}
use midex_class_firmware.Base.{
  ℕ, zero, suc, ◌+◌, ◌%◌, ◌<◌, ◌≤◌, ◌≡◌, ◌∙◌, sym, ap, ap₂, refl, List, [], ◌∷◌, ◌++◌, length,
  append-nil, append_assoc, concat_map, Each, Each-append, arith,
}
use midex_class_firmware.Config.{Board}
use midex_class_firmware.Parser.Messages.{Message, IsMessage, wire, packets}
use midex_class_firmware.RxPump.Queue.{pending}
use midex_class_firmware.RxPump.Round.{IsValid}
use midex_class_firmware.RxPump.Pass.{of_cable}
use midex_class_firmware.RxPath.{
  System, Event, tick, turn, send, take, step, run, arrival, arrivals, IsEvent,
}
use midex_class_firmware.RxPath.Counter.{overflows, drain_overflows, ship_capture}
use midex_class_firmware.RxPath.Flow.{Flow}
use midex_class_firmware.RxPath.Steps.{run-Flow}
use midex_class_firmware.RxPath.Passes.{turns, port_turns, pump_steps, run-append}
use midex_class_firmware.RxPath.Polls.{polls, poll, polls-IsClear}
use midex_class_firmware.RxPath.EndToEnd.{deframe, IsClear, of_cable-run}

-- No tick.
abbrev IsCalm : Event → Type 0
IsCalm (tick lines) = ⊥
IsCalm (turn p) = p < 8
IsCalm _ = Unit

turns-IsCalm : (k p : ℕ) → p < 8 → Each IsCalm (turns k p)
turns-IsCalm zero p h = tt
turns-IsCalm (suc k) p h = (h, turns-IsCalm k p h)

port_turns-IsCalm : (p k : ℕ) → p + k ≤ 8 → Each IsCalm (port_turns p k)
port_turns-IsCalm p zero h = tt
port_turns-IsCalm p (suc k) h =
    Each-append IsCalm (turns 16 p) (port_turns (p + 1) k) (turns-IsCalm 16 p (omega arith))
      (port_turns-IsCalm (p + 1) k (omega arith))

poll-IsCalm : Each IsCalm poll
poll-IsCalm =
    Each-append IsCalm pump_steps (take ∷ [])
      (Each-append IsCalm (port_turns 0 8) (send ∷ []) (port_turns-IsCalm 0 8 (omega arith))
        (tt, tt))
      (tt, tt)

polls-IsCalm : (k : ℕ) → Each IsCalm (polls k)
polls-IsCalm zero = tt
polls-IsCalm (suc k) = Each-append IsCalm poll (polls k) poll-IsCalm (polls-IsCalm k)

module _ (board : Board) where
  calm-IsEvent : (e : Event) → IsCalm e → IsEvent board e
  calm-IsEvent (tick lines) c = absurd c
  calm-IsEvent (turn p) c = c
  calm-IsEvent send c = tt
  calm-IsEvent take c = tt

  all-IsEvent : (es : List Event) → Each IsCalm es → Each (IsEvent board) es
  all-IsEvent [] c = tt
  all-IsEvent (e ∷ es) c = (calm-IsEvent e c.0, all-IsEvent es c.1)

  calm_overflows : (e : Event) (a : System) → IsCalm e → overflows (step board e a) ≡ overflows a
  unfolding step
  calm_overflows (tick lines) a c = absurd c
  calm_overflows (turn p) a c = drain_overflows 1 p a.rx
  calm_overflows send a c = ap (λ d. d.uart_rx_overflows) (ship_capture a.rx)
  calm_overflows take a c = refl

  calm_arrival : (p : ℕ) (e : Event) (a : System) → IsCalm e → arrival board p e a ≡ []
  calm_arrival p (tick lines) a c = absurd c
  calm_arrival p (turn q) a c = refl
  calm_arrival p send a c = refl
  calm_arrival p take a c = refl

  all_overflows :
      (es : List Event) (a : System) → Each IsCalm es → overflows (run board es a) ≡ overflows a
  unfolding run
  all_overflows [] a c = refl
  all_overflows (e ∷ es) a c = all_overflows es (step board e a) c.1 ∙ calm_overflows e a c.0

  all_arrivals :
      (p : ℕ) (es : List Event) (a : System) → Each IsCalm es → arrivals board p es a ≡ []
  unfolding arrivals
  all_arrivals p [] a c = refl
  all_arrivals p (e ∷ es) a c =
      ap₂ ◌++◌ (calm_arrival p e a c.0) (all_arrivals p es (step board e a) c.1)

  arrivals-append :
      (p : ℕ) (xs ys : List Event) (a : System)
      → arrivals board p (xs ++ ys) a
        ≡ arrivals board p xs a ++ arrivals board p ys (run board xs a)
  unfolding arrivals run
  arrivals-append p [] ys a = refl
  arrivals-append p (x ∷ xs) ys a =
      ap (λ l. arrival board p x a ++ l) (arrivals-append p xs ys (step board x a))
      ∙ sym (
          append_assoc (arrival board p x a) (arrivals board p xs (step board x a))
            (arrivals board p ys (run board xs (step board x a))))

-- The host has read nothing and nothing is on its way; then ticks, turns, sends and reads happen in any
-- order, in which the receiver of port `p` shows the bytes of these messages and behind which the
-- overflow counter stands at zero. Then 186 passes of the pump, the host reading EP2-IN behind each,
-- bring it to this, that the packets of cable `p` in what it has read are those of the messages, in
-- their order, whatever the other ports did.
pub of_cable-polls :
    (board : Board) (es : List Event) (a : System) (p : ℕ) (ms : List Message)
    → p < 8
    → Each (IsEvent board) es
    → IsValid a.rx
    → a.host ≡ []
    → IsClear a.rx
    → arrivals board p es a ≡ concat_map wire ms
    → Each IsMessage ms
    → overflows (run board es a) ≡ 0
    → of_cable p (deframe (run board (polls 186) (run board es a)).host) ≡ concat_map packets ms
of_cable-polls board es a p ms h each v none before came meant zero_left =
    let b = run board es a in
    let rest = polls 186 in
    let calm : Each IsCalm rest = polls-IsCalm 186 in
    let f : Flow (λ q. arrivals board q es a) a b = run-Flow board es a each v zero_left in
    let whole : length (pending b.rx) % 4 ≡ 0 = f.whole (ap (λ l. length l % 4) before.unqueued) in
    ap (λ c. of_cable p (deframe c.host)) (sym (run-append board es rest a))
    ∙ of_cable-run board (es ++ rest) a p ms h
        (Each-append (IsEvent board) es rest each (all-IsEvent board rest calm)) v none before
        (arrivals-append board p es rest a
          ∙ ap (λ l. arrivals board p es a ++ l) (all_arrivals board p rest b calm)
          ∙ append-nil (arrivals board p es a)
          ∙ came)
        meant
        (ap overflows (run-append board es rest a) ∙ all_overflows board rest b calm ∙ zero_left)
        (subst (λ c. IsClear c.rx) (sym (run-append board es rest a))
          (polls-IsClear board b (f.valid, whole)))
