-- ===== src/Errors/Close.antt =====
-- What `PyRabbitMQ_Connection_close` does, by the state that it finds.
use librabbitmq.Base.{◌≡◌, refl, true, false, inl, inr, ◌∷◌, arith, Bool-cases, if◌then◌else◌}
use librabbitmq.Base.Int.{pos}
use librabbitmq.Base.Cmd.{Run, Returns}
use librabbitmq.World.{World, connection_close_, destroy_connection}
use librabbitmq.World.Open.{IsSound, IsAlive}
use librabbitmq.Errors.{close, closed}

-- An open connection is closed and destroyed by two calls, in this order, and the pointer dangles;
-- a closed one is left as it is. Nothing else of the state changes.
abbrev pub after_close : World → World
after_close w = record w {
  self = closed w.self;
  trace = destroy_connection ∷ connection_close_ ∷ w.trace;
}

pub close_open :
    (w : World) → w.self.connected ≡ true → IsAlive w → close w ≡ Run.ok tt (after_close w)
unfolding close
close_open w e o = ground arith

pub close_closed : (w : World) → w.self.connected ≡ false → close w ≡ Run.ok tt w
unfolding close
close_closed w e = ground arith

not_connected-IsSound : (w : World) → w.self.connected ≡ false → IsSound w
not_connected-IsSound w e = record { held = λ c. cc }

-- After closing `w`: the connection is closed and sound, and nothing that it does not own has
-- changed; where it was open, the descriptor is forgotten and the two calls were made.
abbrev pub Closed : World → World → Type 0
Closed w w' =
    IsSound w'
    × (w'.self.connected ≡ false)
    × (w'.py ≡ w.py)
    × (w'.lib ≡ w.lib)
    × (w'.self.sockfd ≡ (if w.self.connected then pos 0 else w.self.sockfd))
    × (w'.trace
        ≡ (if w.self.connected then destroy_connection ∷ connection_close_ ∷ w.trace else w.trace))

-- Closing a sound connection does not crash, leaves it closed and sound, and changes neither the
-- interpreter nor the library's script; where it was open, the descriptor is 0 afterwards and exactly
-- the calls to close and to destroy it were made, else there is no call and the descriptor stays.
pub close-IsSound : (w : World) → IsSound w → Returns (λ _ w'. Closed w w') (close w)
close-IsSound w s = elim (Bool-cases w.self.connected) [
  | inl e ↦
      rw (close_open w e (record { alive_ = s.held e }))
        (record { held = λ c. cc }, refl, refl, refl, rw e refl, rw e refl)
  | inr e ↦ rw (close_closed w e) (not_connected-IsSound w e, e, refl, refl, rw e refl, rw e refl)
]
