-- ===== src/Main/Loop.antt =====
-- The endless loop of `main` with everything around it: both directions as one sequence of steps.
use mathlib.Core.Path.{subst}
use midex_class_firmware.Base.{
  ℕ, ◌<◌, ◌≡◌, ◌∙◌, sym, ap, ap₂, refl, false, List, [], ◌∷◌, ◌++◌, append-nil, Each, Each-append,
}
use midex_class_firmware.Config.{Board}
use midex_class_firmware.UartExt.{Bus}
use midex_class_firmware.Bridge.{Tx, UartOps, bridge_out, uart_tx_pump}
use midex_class_firmware.Bridge.Stream.{Action, bridge, pump, act, account, gifts, run-account}
use midex_class_firmware.Bridge.Stream
use midex_class_firmware.RxPump.{Rx, midi_rx_pump}
use midex_class_firmware.RxPath.{System, Event, step, run, arrivals, IsEvent}
use midex_class_firmware.RxPath.Counter.{overflows}
use midex_class_firmware.RxPath.Flow.{Flow}
use midex_class_firmware.RxPath.Passes.{pump_steps, run-append, run-pump_steps, pump_steps-IsEvent}
use midex_class_firmware.RxPath.Steps.{run-Flow}
use midex_class_firmware.Main.{Device, UsbEvent, enumerate, main_start, main_pass}
use midex_class_firmware.Main.Start.{IsMemory, Started, main_start-Started}

module _ (ops : UartOps) (board : Board) where
  open ops use {State, sent}

  -- A pass of the endless loop as a whole, a step of the direction to the instruments, or one of that to
  -- the host.
  pub data Step : Type 0 where
    pass : Step
    out : Action ops → Step
    in_ : Event → Step

  abbrev pub Both : Type 0
  Both = (Tx × State) × System

  unfoldable pub move : Step → Both → Both
  move pass (a, b) =
      let (after, (v, rx)) = main_pass ops (a.0, (a.1, b.rx)) in ((after, v), record b { rx = rx })
  move (out x) (a, b) = (act ops x a, b)
  move (in_ e) (a, b) = (a, step board e b)

  unfoldable pub move_all : List Step → Both → Both
  move_all [] b = b
  move_all (s ∷ ss) b = move_all ss (move s b)

  -- The steps of each direction.
  abbrev pub outs : List Step → List (Action ops)
  outs [] = []
  outs (pass ∷ ss) = bridge ∷ pump ∷ outs ss
  outs (out x ∷ ss) = x ∷ outs ss
  outs (in_ e ∷ ss) = outs ss

  abbrev pub ins : List Step → List Event
  ins [] = []
  ins (pass ∷ ss) = pump_steps ++ ins ss
  ins (out x ∷ ss) = ins ss
  ins (in_ e ∷ ss) = e ∷ ins ss

  -- The receivers show bytes, and a turn is at one of the eight ports.
  abbrev pub IsStep : Step → Type 0
  IsStep (in_ e) = IsEvent board e
  IsStep _ = Unit

  ins-IsEvent : (ss : List Step) → Each IsStep ss → Each (IsEvent board) (ins ss)
  ins-IsEvent [] h = tt
  ins-IsEvent (pass ∷ ss) h =
      Each-append (IsEvent board) pump_steps (ins ss) (pump_steps-IsEvent board)
        (ins-IsEvent ss h.1)
  ins-IsEvent (out x ∷ ss) h = ins-IsEvent ss h.1
  ins-IsEvent (in_ e ∷ ss) h = (h.0, ins-IsEvent ss h.1)

  -- The directions share nothing that a step writes, and a pass is made of their steps.
  move_all-runs :
      (ss : List Step) (a : Tx × State) (b : System)
      → move_all ss (a, b) ≡ (Stream.run ops (outs ss) a, run board (ins ss) b)
  unfolding move_all move main_pass
  move_all-runs [] a b = unfold run Stream.run in refl
  move_all-runs (pass ∷ ss) a b =
      let c = uart_tx_pump ops (bridge_out a.0, a.1) in
      let same : Stream.run ops (outs ss) c ≡ Stream.run ops (bridge ∷ pump ∷ outs ss) a =
        unfold Stream.run act in refl in
      move_all-runs ss c (record b { rx = midi_rx_pump b.rx })
      ∙ ap₂ (λ x y. (x, y)) same
          (ap (run board (ins ss)) (sym (run-pump_steps board b))
            ∙ sym (run-append board pump_steps (ins ss) b))
  move_all-runs (out x ∷ ss) a b = move_all-runs ss (act ops x a) b ∙ unfold run Stream.run in refl
  move_all-runs (in_ e ∷ ss) a b =
      move_all-runs ss a (step board e b) ∙ unfold run Stream.run in refl

  -- Behind the start of `main`, nothing of a packet is left and nothing waits for a port.
  account-Started :
      (bus : Bus) (d : Device bus) (u : State) (p : ℕ)
      → Started bus d
      → d.tx.semaphore_ep2_out ≡ false
      → account ops p (d.tx, u) ≡ sent p u
  account-Started bus d u p s idle =
      ap₂ (λ q r. (sent p u ++ q) ++ r) (s.no_bytes p) (rw idle refl)
      ∙ append-nil (sent p u ++ [])
      ∙ append-nil (sent p u)

  -- From the start of `main`, whatever the rings and parsers held when the host had enumerated the device
  -- and whatever came over USB meanwhile, with no packet waiting when `main` arms EP2-OUT: over any
  -- sequence of passes of the endless loop, host packets, ticks of the capture interrupt, single calls and
  -- turns of the loop's functions, UART progress and host reads, for each of the eight ports: what the port's UART was given, what its
  -- ring holds and what the packet at hand still has for it are, one behind another, what the UART was
  -- given before and then all bytes for the port that the host handed over.
  pub move_all-account :
      (bus : Bus) (left_tx : Device bus → Tx) (left_rx : Device bus → Rx) (usb : List UsbEvent)
      (d : Device bus) (u : State) (r : System) (ss : List Step) (p : ℕ)
      → p < 8
      → IsMemory (left_tx (enumerate bus board d)) (left_rx (enumerate bus board d))
      → (main_start bus board left_tx left_rx usb d).tx.semaphore_ep2_out ≡ false
      → let s = main_start bus board left_tx left_rx usb d in
        account ops p (move_all ss ((s.tx, u), r)).0 ≡ sent p u ++ gifts ops p (outs ss) (s.tx, u)
  move_all-account bus left_tx left_rx usb d u r ss p h m idle =
      let s = main_start bus board left_tx left_rx usb d in
      let st = main_start-Started bus board left_tx left_rx usb d m in
      ap (λ x. account ops p x.0) (move_all-runs ss (s.tx, u) r)
      ∙ run-account ops p (outs ss) (s.tx, u) h
          (record { valid = st.rings; endpoint = st.endpoint idle })
      ∙ ap (λ l. l ++ gifts ops p (outs ss) (s.tx, u)) (account-Started bus s u p st idle)

  -- From the start of `main`, whatever the rings, FIFOs and parsers held when the host had enumerated
  -- the device and whatever came over USB meanwhile: over any sequence of passes of the endless
  -- loop, host packets, ticks of the capture interrupt, single calls and turns of the loop's functions, UART progress and host reads, in which
  -- the receivers show bytes and behind which the overflow counter stands at zero, what the host has
  -- read and what is on its way to it grow by whole packets that are, cable by cable, those of the
  -- bytes that arrived.
  pub move_all-Flow :
      (bus : Bus) (left_tx : Device bus → Tx) (left_rx : Device bus → Rx) (usb : List UsbEvent)
      (d : Device bus) (u : State) (ss : List Step)
      → IsMemory (left_tx (enumerate bus board d)) (left_rx (enumerate bus board d))
      → Each IsStep ss
      → let s = main_start bus board left_tx left_rx usb d in
        let r : System = record { rx = s.rx; host = [] } in
        let end = (move_all ss ((s.tx, u), r)).1 in
        overflows end ≡ 0 → Flow (λ q. arrivals board q (ins ss) r) r end
  move_all-Flow bus left_tx left_rx usb d u ss m each zero_left =
      let s = main_start bus board left_tx left_rx usb d in
      let r : System = record { rx = s.rx; host = [] } in
      let st = main_start-Started bus board left_tx left_rx usb d m in
      let both = move_all-runs ss (s.tx, u) r in
      subst (λ x. Flow (λ q. arrivals board q (ins ss) r) r x.1) (sym both)
        (run-Flow board (ins ss) r (ins-IsEvent ss each) st.valid
          (sym (ap (λ x. overflows x.1) both) ∙ zero_left))
