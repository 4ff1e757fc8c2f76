-- ===== src/World/OnSelf.antt =====
-- Predicates on the connection object alone: what does not write to the object keeps them.
use librabbitmq.Base.{Option, List, [], ◌∷◌}
use librabbitmq.Base.Cmd.{Run, ok, crash, blocked, Cmd, Ensures}
use librabbitmq.Base.Keeps.{Keeps}
use librabbitmq.Py.{Py, PyErr}
use librabbitmq.Py.Held.{xdecref_held}
use librabbitmq.World.{World, Connection}
use librabbitmq.World.Calls.{with_py, lift, set_self, take_outcome, next_outcome}
use librabbitmq.World.Keeps.{IsStable}

module _ (Q : Connection → Type 0) where
  abbrev pub OnSelf : World → Type 0
  OnSelf w = Q w.self

  pub OnSelf-IsStable : IsStable OnSelf
  OnSelf-IsStable = record { raising = λ e w h. h; calling = λ c w h. h; reading = λ l w h. h }

  lifted :
      {A : Type 0} (r : Run Py A) (w : World) → OnSelf w → Ensures (λ a w'. OnSelf w') (with_py w r)
  lifted (ok a s) w h = h
  lifted crash w h = tt
  lifted blocked w h = tt

  pub lift-Keeps : {A : Type 0} (m : Cmd Py A) → Keeps OnSelf (lift m)
  lift-Keeps m = record { at = λ w h. lifted (m w.py) w h }

  pub releasing-Keeps : Keeps OnSelf (λ w. ok tt (record w { py = xdecref_held w.py }))
  releasing-Keeps = record { at = λ w h. h }

  outcome :
      (os : List (Option PyErr)) (w : World)
      → OnSelf w
      → Ensures (λ a w'. OnSelf w') (take_outcome os w)
  outcome [] w h = tt
  outcome (o ∷ os) w h = h

  pub next_outcome-Keeps : Keeps OnSelf next_outcome
  next_outcome-Keeps = record { at = λ w h. outcome w.caller.outcomes w h }

  pub set_self-Keeps :
      (f : Connection → Connection) → ((c : Connection) → Q c → Q (f c)) → Keeps OnSelf (set_self f)
  set_self-Keeps f kf = record { at = λ w h. kf w.self h }
