-- ===== src/World/Open.antt =====
-- The invariant of the connection object, and what the basic steps keep.
use librabbitmq.Base.{◌≡◌, refl, true, List, [], ◌∷◌, arith}
use librabbitmq.Base.Int.{ℤ}
use librabbitmq.Base.Cmd.{ok, NoCrash}
use librabbitmq.World.{World, alive, Call, RpcReply, Wait}
use librabbitmq.World.Calls.{
  called, call, take_status, next_status, take_reply, next_reply, take_frame, next_frame,
}

-- While the object says that it is connected, its pointer leads to a state that the library holds.
pub record IsSound (w : World) : Type 0 where
  pub held : w.self.connected ≡ true → w.self.conn ≡ alive

-- A pointer that may be followed.
pub record IsAlive (w : World) : Type 0 where
  pub alive_ : w.self.conn ≡ alive

pub IsAlive-IsSound : (w : World) → IsAlive w → IsSound w
IsAlive-IsSound w o = record { held = λ c. o.alive_ }

-- The pointer may still be followed, and neither the object nor the interpreter has changed.
abbrev pub Stays : {A : Type 0} → World → A → World → Type 0
Stays w a w' = IsAlive w' × (w'.py ≡ w.py) × (w'.self ≡ w.self)

pub call_alive : (c : Call) (w : World) → IsAlive w → call c w ≡ ok tt (called c w)
call_alive c w o = ground arith

pub call-Stays : (c : Call) (w : World) → IsAlive w → NoCrash (Stays w) (call c w)
call-Stays c w o = rw (call_alive c w o) (record { alive_ = o.alive_ }, refl, refl)

take_status-Stays : (zs : List ℤ) (w : World) → IsAlive w → NoCrash (Stays w) (take_status zs w)
take_status-Stays [] w o = tt
take_status-Stays (z ∷ zs) w o = (record { alive_ = o.alive_ }, refl, refl)

pub next_status-Stays : (w : World) → IsAlive w → NoCrash (Stays w) (next_status w)
next_status-Stays w o = take_status-Stays w.lib.statuses w o

take_reply-Stays :
    (rs : List RpcReply) (w : World) → IsAlive w → NoCrash (Stays w) (take_reply rs w)
take_reply-Stays [] w o = tt
take_reply-Stays (r ∷ rs) w o = (record { alive_ = o.alive_ }, refl, refl)

pub next_reply-Stays : (w : World) → IsAlive w → NoCrash (Stays w) (next_reply w)
next_reply-Stays w o = take_reply-Stays w.lib.replies w o

take_frame-Stays : (fs : List Wait) (w : World) → IsAlive w → NoCrash (Stays w) (take_frame fs w)
take_frame-Stays [] w o = tt
take_frame-Stays (f ∷ fs) w o = (record { alive_ = o.alive_ }, refl, refl)

pub next_frame-Stays : (w : World) → IsAlive w → NoCrash (Stays w) (next_frame w)
next_frame-Stays w o = take_frame-Stays w.lib.frames w o
