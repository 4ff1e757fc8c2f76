-- ===== src/World/Keeps.antt =====
-- Predicates on the world that the basic steps keep.
use librabbitmq.Base.{Bool, List, [], ◌∷◌}
use librabbitmq.Base.Int.{ℤ}
use librabbitmq.Base.Cmd.{Ensures}
use librabbitmq.Base.Keeps.{Keeps}
use librabbitmq.Py.{PyErr}
use librabbitmq.World.{
  World, Script, Call, Pointer, null, alive, dangling, RpcReply, Wait, Selection,
}
use librabbitmq.World.Calls.{
  raised, raise, called, use_pointer, call, take_status, next_status, take_reply, next_reply,
  take_frame, next_frame, take_buffered, next_buffered, take_poll, next_poll, waits,
}

-- Neither the exception that is set, nor the script or the trace, matters to `P`.
pub record IsStable (P : World → Type 0) : Type 0 where
  pub raising : (e : PyErr) (w : World) → P w → P (raised e w)
  pub calling : (c : Call) (w : World) → P w → P (called c w)
  pub reading : (l : Script) (w : World) → P w → P (record w { lib = l })

module _ (P : World → Type 0) (stable : IsStable P) where
  pub raise-Keeps : (e : PyErr) → Keeps P (raise e)
  raise-Keeps e = record { at = λ w h. stable.raising e w h }

  used : (p : Pointer) (c : Call) (w : World) → P w → Ensures (λ a w'. P w') (use_pointer p c w)
  used alive c w h = stable.calling c w h
  used null c w h = tt
  used dangling c w h = tt

  pub call-Keeps : (c : Call) → Keeps P (call c)
  call-Keeps c = record { at = λ w h. used w.self.conn c w h }

  status : (zs : List ℤ) (w : World) → P w → Ensures (λ a w'. P w') (take_status zs w)
  status [] w h = tt
  status (z ∷ zs) w h = stable.reading _ w h

  pub next_status-Keeps : Keeps P next_status
  next_status-Keeps = record { at = λ w h. status w.lib.statuses w h }

  reply : (rs : List RpcReply) (w : World) → P w → Ensures (λ a w'. P w') (take_reply rs w)
  reply [] w h = tt
  reply (r ∷ rs) w h = stable.reading _ w h

  pub next_reply-Keeps : Keeps P next_reply
  next_reply-Keeps = record { at = λ w h. reply w.lib.replies w h }

  frame : (fs : List Wait) (w : World) → P w → Ensures (λ a w'. P w') (take_frame fs w)
  frame [] w h = tt
  frame (f ∷ fs) w h = stable.reading _ w h

  pub next_frame-Keeps : Keeps P next_frame
  next_frame-Keeps = record { at = λ w h. frame w.lib.frames w h }

  buffer : (bs : List Bool) (w : World) → P w → Ensures (λ a w'. P w') (take_buffered bs w)
  buffer [] w h = tt
  buffer (b ∷ bs) w h = stable.reading _ w h

  pub next_buffered-Keeps : Keeps P next_buffered
  next_buffered-Keeps = record { at = λ w h. buffer w.lib.buffered w h }

  poll : (zs : List Selection) (w : World) → P w → Ensures (λ a w'. P w') (take_poll zs w)
  poll [] w h = tt
  poll (z ∷ zs) w h = stable.reading _ w h

  pub next_poll-Keeps : Keeps P next_poll
  next_poll-Keeps = record { at = λ w h. poll w.lib.polls w h }

  pub waits-Keeps : {A : Type 0} → Keeps P (waits {A = A})
  waits-Keeps = record { at = λ w h. tt }
