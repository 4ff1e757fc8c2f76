-- ===== src/Basic/Acknowledge.antt =====
-- Acknowledging and rejecting a message: what is sent, and what is left where nothing can be sent.
use librabbitmq.Base.{ℕ, ◌≡◌, refl, sym, subst, true, none, some, List, ◌∷◌}
use librabbitmq.Base.Int.{ℤ, pos, negsuc, to_uint64}
use librabbitmq.Base.Cmd.{ok}
use librabbitmq.Py.{connection_error, text}
use librabbitmq.World.{
  as_channel, World, Call, alive, basic_ack, basic_reject, channel_close_ok, connection_close_,
  destroy_connection,
}
use librabbitmq.Errors.{closed, close, handle_error, revive_send, revive_with}
use librabbitmq.World.Open.{IsAlive}
use librabbitmq.Basic.{AckArgs, basic_ack_method, basic_reject_method}

-- An open connection, and the statuses of the sends to come.
abbrev at : World → List ℤ → World
at w zs = record w {
  self = record self { connected = true; conn = alive };
  lib = record lib { statuses = zs };
}
  where
    open w use {self, lib}

at-same :
    (w : World) (zs : List ℤ)
    → IsAlive w
    → w.self.connected ≡ true
    → w.lib.statuses ≡ zs
    → w ≡ at w zs
at-same w zs o c z = λ i. record w {
  self = record self { connected = c i; conn = o.alive_ i };
  lib = record lib { statuses = z i };
}
  where
    open w use {self, lib}

-- After a call that was sent.
abbrev pub sent : Call → List ℤ → World → World
sent c zs w = record w { lib = record lib { statuses = zs }; trace = c ∷ trace }
  where
    open w use {lib, trace}

-- After a call that was not sent, and a close-ok that was not sent either.
abbrev pub lost : Call → ℕ → List ℤ → World → World
lost c channel zs w = record w {
  py = record py { err = some (connection_error (text "Couldn't revive channel")) };
  self = closed self;
  lib = record lib { statuses = zs };
  trace =
      destroy_connection ∷ connection_close_ ∷ channel_close_ok (as_channel channel) ∷ c ∷ trace;
}
  where
    open w use {py, self, lib, trace}

abbrev pub ack_call : AckArgs → Call
ack_call a = basic_ack a.channel (to_uint64 a.delivery_tag) a.multiple

abbrev pub reject_call : AckArgs → Call
reject_call a = basic_reject a.channel (to_uint64 a.delivery_tag) a.multiple

-- On an open connection, where the send succeeds, both methods return None after exactly one call,
-- with the delivery tag as an unsigned number and the flag; nothing else changes.
pub basic_ack_method-sent :
    (a : AckArgs) (n : ℕ) (zs : List ℤ) (w : World)
    → IsAlive w
    → w.self.connected ≡ true
    → w.lib.statuses ≡ pos n ∷ zs
    → (basic_ack_method (some a) w ≡ ok (some tt) (sent (ack_call a) zs w))
      × (basic_reject_method (some a) w ≡ ok (some tt) (sent (reject_call a) zs w))
unfolding basic_ack_method basic_reject_method handle_error
basic_ack_method-sent a n zs w o c z =
    subst
      (λ v.
        (basic_ack_method (some a) v ≡ ok (some tt) (sent (ack_call a) zs v))
        × (basic_reject_method (some a) v ≡ ok (some tt) (sent (reject_call a) zs v)))
      (sym (at-same w _ o c z)) (refl, refl)

-- On an open connection, where neither the method nor the close-ok that is to revive the channel can
-- be sent, both methods close and destroy the connection and return NULL with one exception: that
-- the channel could not be revived, in place of the one for the method.
pub basic_ack_method-lost :
    (a : AckArgs) (n m : ℕ) (zs : List ℤ) (w : World)
    → IsAlive w
    → w.self.connected ≡ true
    → w.lib.statuses ≡ negsuc n ∷ negsuc m ∷ zs
    → (basic_ack_method (some a) w ≡ ok none (lost (ack_call a) a.channel zs w))
      × (basic_reject_method (some a) w ≡ ok none (lost (reject_call a) a.channel zs w))
unfolding basic_ack_method basic_reject_method handle_error revive_with revive_send close
basic_ack_method-lost a n m zs w o c z =
    subst
      (λ v.
        (basic_ack_method (some a) v ≡ ok none (lost (ack_call a) a.channel zs v))
        × (basic_reject_method (some a) v ≡ ok none (lost (reject_call a) a.channel zs v)))
      (sym (at-same w _ o c z)) (refl, refl)
