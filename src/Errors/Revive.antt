-- ===== src/Errors/Revive.antt =====
-- The error handler of connection.c and the two functions that it calls, on an open connection.
use Prim.Native.String.{String}
use librabbitmq.Base.{ℕ, ◌≡◌, ◌∙◌, subst₂, Top, refl, Bool, true, false, List, [], ◌∷◌}
use librabbitmq.Base.Int.{ℤ, pos, negsuc}
use librabbitmq.Base.Cmd.{Cmd, NoCrash, NoCrash-bind, Returns-NoCrash}
use librabbitmq.Py.{
  Py, PyErr, err_occurred, connection_error, channel_error, server_channel_error, text,
}
use librabbitmq.World.{
  as_channel, World, Connection, channel_open, channel_close_ok, get_rpc_reply, RpcReply, normal,
  missing, library_exception, server_exception, basic_deliver, channel_close, connection_close,
  other_method,
}
use librabbitmq.World.Calls.{raised, call, next_reply, next_status}
use librabbitmq.Errors.{
  Status, fine, connection_failed, channel_failed, close, conn_error, handle_with, failed_status,
  revive_send, revive_with, create_on, create_channel, revive_channel, handle_amq_error,
}
use librabbitmq.World.Open.{
  IsSound, IsAlive, IsAlive-IsSound, Stays, call-Stays, next_status-Stays, next_reply-Stays,
}
use librabbitmq.Errors.Close.{close-IsSound}

-- What a call that may fail, begun with object `c` and interpreter `s`, leaves: the object is as it
-- was if it went well, and otherwise an exception is set; it is sound in any case, and an exception
-- that was set is not cleared.
abbrev pub Reports : Connection → Py → Bool → World → Type 0
Reports c s failed w' =
    IsSound w'
    × (failed ≡ false → (w'.self ≡ c) × IsAlive w')
    × (failed ≡ true → err_occurred w'.py ≡ true)
    × (err_occurred s ≡ true → err_occurred w'.py ≡ true)

-- The same of the handler, by its result.
abbrev pub Handled : World → Status → World → Type 0
Handled w fine w' = w' ≡ w
Handled w connection_failed w' =
    IsSound w' × (w'.self.connected ≡ false) × (err_occurred w'.py ≡ true)
Handled w channel_failed w' = IsSound w' × (err_occurred w'.py ≡ true)

-- After a close: sound, not connected, the interpreter as it was.
abbrev After : Py → Top → World → Type 0
After s u w' = IsSound w' × (w'.self.connected ≡ false) × (w'.py ≡ s)

close-After : (w : World) → IsAlive w → NoCrash (After w.py) (close w)
close-After w o =
    Returns-NoCrash _ (After w.py) (close w) (close-IsSound w (IsAlive-IsSound w o))
      (λ u w' p. (p.0, p.1, p.2))

conn_error_ok : (e : PyErr) (w : World) → IsAlive w → NoCrash (Handled w) (conn_error e w)
unfolding conn_error
conn_error_ok e w o =
    NoCrash-bind (After (raised e w).py) (Handled w) (close (raised e w)) _
      (close-After (raised e w) (record { alive_ = o.alive_ })) (λ u w' p. (p.0, p.1, rw p.2))

module _ (f : ℕ → Cmd World Bool)
    (f_ok : (ch : ℕ) (w : World) → IsAlive w → NoCrash (Reports w.self w.py) (f ch w)) where
  handle_with_ok :
      (ch : ℕ) (r : RpcReply) (context : String) (w : World)
      → IsAlive w
      → NoCrash (Handled w) (handle_with f ch r context w)
  unfolding handle_with
  handle_with_ok ch (normal d) context w o = refl
  handle_with_ok ch missing context w o = conn_error_ok _ w o
  handle_with_ok ch (library_exception z) context w o = conn_error_ok _ w o
  handle_with_ok ch (server_exception (connection_close c t)) context w o = conn_error_ok _ w o
  handle_with_ok ch (server_exception (other_method i)) context w o = conn_error_ok _ w o
  handle_with_ok ch (server_exception (basic_deliver d)) context w o = conn_error_ok _ w o
  handle_with_ok ch (server_exception (channel_close c t)) context w o =
      NoCrash-bind (Reports w.self (raised e w).py) (Handled w) (f ch (raised e w)) _
        (f_ok ch (raised e w) (record { alive_ = o.alive_ })) (λ b w' p. (p.0, p.3 refl))
    where
      e : PyErr
      e = channel_error (server_channel_error context c t)

  revive_send_ok :
      (ch : ℕ) (z : ℤ) (w : World)
      → IsAlive w
      → NoCrash (Reports w.self w.py) (revive_send f ch z w)
  unfolding revive_send
  revive_send_ok ch (negsuc n) w o =
      NoCrash-bind (After (raised e w).py) (Reports w.self w.py) (close (raised e w)) _
        (close-After (raised e w) (record { alive_ = o.alive_ }))
        (λ u w' p. (p.0, (λ c. cc), (λ c. rw p.2), (λ c. rw p.2)))
    where
      e : PyErr
      e = connection_error (text "Couldn't revive channel")
  revive_send_ok ch (pos n) w o = f_ok ch w o

  revive_with_ok :
      (ch : ℕ) (w : World) → IsAlive w → NoCrash (Reports w.self w.py) (revive_with f ch w)
  unfolding revive_with
  revive_with_ok ch w o =
      NoCrash-bind (Stays w) (Reports w.self w.py) (call (channel_close_ok (as_channel ch)) w) _
        (call-Stays (channel_close_ok (as_channel ch)) w o)
        (λ u w1 p.
          NoCrash-bind (Stays w1) (Reports w.self w.py) (next_status w1) _
            (next_status-Stays w1 p.0)
            (λ z w2 q.
              subst₂ (λ c s. NoCrash (Reports c s) (revive_send f ch z w2)) (q.2 ∙ p.2) (q.1 ∙ p.1)
                (revive_send_ok ch z w2 q.0)))

-- The handler's result, as the functions around it report it.
pub Handled-Reports :
    (c : Connection) (s : Py) (w : World) (z : Status) (w' : World)
    → IsAlive w
    → w.self ≡ c
    → w.py ≡ s
    → Handled w z w'
    → Reports c s (failed_status z) w'
Handled-Reports c s w fine w' o d e h =
    rw h (IsAlive-IsSound w o, (λ t. (d, o)), (λ t. cc), (λ t. rw e t))
Handled-Reports c s w connection_failed w' o d e h = (h.0, (λ c. cc), (λ c. h.2), (λ c. h.2))
Handled-Reports c s w channel_failed w' o d e h = (h.0, (λ c. cc), (λ c. h.1), (λ c. h.1))

-- The recursion ends with the replies, so it is an induction on them.
create_on_ok :
    (rs : List RpcReply) (ch : ℕ) (w : World)
    → IsAlive w
    → NoCrash (Reports w.self w.py) (create_on rs ch w)
unfolding create_on
create_on_ok [] ch w o =
    NoCrash-bind (Stays w) (Reports w.self w.py) (call (channel_open ch) w) _
      (call-Stays (channel_open ch) w o)
      (λ u w1 p.
        NoCrash-bind (Stays w1) (Reports w.self w.py) (call get_rpc_reply w1) _
          (call-Stays get_rpc_reply w1 p.0) (λ u' w2 q. tt))
create_on_ok (r ∷ rs) ch w o =
    NoCrash-bind (Stays w) (Reports w.self w.py) (call (channel_open ch) w) _
      (call-Stays (channel_open ch) w o)
      (λ u w1 p.
        NoCrash-bind (Stays w1) (Reports w.self w.py) (call get_rpc_reply w1) _
          (call-Stays get_rpc_reply w1 p.0)
          (λ u' w2 q.
            NoCrash-bind (Stays w2) (Reports w.self w.py) (next_reply w2) _
              (next_reply-Stays w2 q.0)
              (λ reply w3 t.
                NoCrash-bind (Handled w3) (Reports w.self w.py)
                  (handle_with (revive_with (create_on rs)) 0 reply "Couldn't create channel" w3) _
                  (handle_with_ok (revive_with (create_on rs))
                    (revive_with_ok (create_on rs) (create_on_ok rs)) 0 reply
                    "Couldn't create channel" w3 t.0)
                  (λ z w4 h.
                    Handled-Reports w.self w.py w3 z w4 t.0 (t.2 ∙ q.2 ∙ p.2) (t.1 ∙ q.1 ∙ p.1)
                      h))))

pub create_channel_ok :
    (ch : ℕ) (w : World) → IsAlive w → NoCrash (Reports w.self w.py) (create_channel ch w)
unfolding create_channel
create_channel_ok ch w o = create_on_ok w.lib.replies ch w o

pub revive_channel_ok :
    (ch : ℕ) (w : World) → IsAlive w → NoCrash (Reports w.self w.py) (revive_channel ch w)
unfolding revive_channel
revive_channel_ok = revive_with_ok create_channel create_channel_ok

-- Where the pointer may be followed, the error handler does not crash, so makes no call on a state
-- that is gone. Where it returns: after success nothing has changed; else an exception is set and
-- the object is sound, and after a connection error it is not connected.
pub handle_amq_error_ok :
    (ch : ℕ) (r : RpcReply) (context : String) (w : World)
    → IsAlive w
    → NoCrash (Handled w) (handle_amq_error ch r context w)
unfolding handle_amq_error
handle_amq_error_ok = handle_with_ok revive_channel revive_channel_ok
