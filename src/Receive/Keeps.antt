-- ===== src/Receive/Keeps.antt =====
-- What receiving a message keeps: every predicate on the connection object alone that closing the
-- connection keeps.
pub mod Opening
pub mod Contents
pub mod Callback
use librabbitmq.Base.{
  ℕ, zero, suc, ◌==◌, ◌+◌, ◌≡◌, refl, Bool, true, false, Option, none, some, List, [], ◌∷◌, ◌++◌,
  Top, if◌then◌else◌, ltb, leb, length,
}
use librabbitmq.Base.Int.{ℤ, pos, negsuc}
use librabbitmq.Base.Cmd.{Run, ok, Cmd, pure, fail, ◌>>=◌, ◌>>◌, Ensures}
use librabbitmq.Base.Keeps.{Keeps, Keeps-pure, Keeps-fail, Keeps-bind, Keeps-then, Keeps-if}
use librabbitmq.Py.{
  PyErr, attribute_error, unicode_decode_error, PyVal, PyItems, null, none_, bool, int, float, str,
  bytes, dict, list, tuple, other, nil,
}
use librabbitmq.Py.Text.{utf8_decode}
use librabbitmq.World.{
  World, Connection, Method, basic_deliver, channel_close, connection_close, other_method, Deliver,
  method, header, body, other_frame, Payload, Wait, failed, got, Delivery, Body, text_body,
  frames_enqueued,
}
use librabbitmq.World.Calls.{lift, call, raise, next_frame, next_poll, next_buffered, next_outcome}
use librabbitmq.World.Keeps.{
  IsStable, raise-Keeps, call-Keeps, next_frame-Keeps, next_buffered-Keeps, next_poll-Keeps,
  waits-Keeps,
}
use librabbitmq.World.OnSelf.{OnSelf, OnSelf-IsStable, lift-Keeps, next_outcome-Keeps}
use librabbitmq.Errors.{close, revive_channel, handle_poll_error}
use librabbitmq.Errors.Keeps.{
  raise_if_clear-Keeps, revive_channel-Keeps, set_err_unexpected_header-Keeps, not_connected-Keeps,
  handle_poll_error-Keeps,
}
use librabbitmq.Amqp.Read.{string_from_amqbytes}
use librabbitmq.Message.{set_str, basic_properties_to_dict, basic_deliver_to_dict}
use librabbitmq.Receive.Opening.{
  set_err_received_frame, altframe, deliver_start, first_method, deliver_frame, deliver_on,
  header_frame, receive_header, Exit, go, finally, Start, Head,
}
use librabbitmq.Receive.Fragments.{
  Content, absent, whole, copied, copy, fragment, body_frame, body_on, receive_body, payload_of,
  view_of,
}
use librabbitmq.Receive.Callback.{
  callback_for, run_callback, listed, with_channel, channel_callbacks, apply_callback, deliver_to,
}
use librabbitmq.Receive.{
  Received, on_go, receive_start, store, dispatch, recv, active_buffers, polled, received,
  basic_recv,
}
use librabbitmq.Receive.Waiting.{Timeout, positive, minus_one, other_timeout, wait_ready}
use Opening.{receive_start-Keeps, receive_header-Keeps}
use librabbitmq.Receive.Waiting.Keeps.{wait_ready-Keeps}
use Contents.{receive_body-Keeps, store-Keeps}
use Callback.{apply_callback-Keeps}

module _ (Q : Connection → Type 0) (closing : Keeps (OnSelf Q) close) where
  abbrev stable : IsStable (OnSelf Q)
  stable = OnSelf-IsStable Q

  dispatch-Keeps : (s : Start) (h : Head) (c : Content) → Keeps (OnSelf Q) (dispatch s h c)
  unfolding dispatch
  dispatch-Keeps s h c = viewed (view_of h.body_target c)
    where
      viewed :
          (o : Option Body)
          → Keeps {A = Received} (OnSelf Q) (elim o [
            | none ↦ pure (negsuc 0, none)
            | some b ↦ (do
              z ← apply_callback (record {
                channel = h.channel;
                consumer_tag = s.consumer_tag;
                properties = h.propdict;
                delivery_info = s.delivery_info;
                body = b;
              })
              pure (z, none))
          ])
      viewed none = Keeps-pure _
      viewed (some b) = Keeps-bind _ _ (apply_callback-Keeps Q closing _) (λ z. Keeps-pure _)

  on_go-Keeps :
      {A : Type 0} (next : A → Cmd World Received) (x : Exit A)
      → ((a : A) → Keeps (OnSelf Q) (next a))
      → Keeps (OnSelf Q) (on_go next x)
  unfolding on_go
  on_go-Keeps next (go a) k = k a
  on_go-Keeps next (finally z) k = Keeps-pure _

  pub recv-Keeps : (into_p piggyback : Bool) → Keeps (OnSelf Q) (recv into_p piggyback)
  unfolding recv
  recv-Keeps into_p piggyback = Keeps-bind _ _ (receive_start-Keeps Q closing piggyback) (λ started.
      on_go-Keeps _ started (λ s.
        Keeps-bind _ _ (receive_header-Keeps Q closing s.cur_channel) (λ headed.
          on_go-Keeps _ headed (λ h. Keeps-bind _ _ (receive_body-Keeps Q closing h) (λ ended.
            on_go-Keeps _ ended
              (λ c. Keeps-if into_p _ _ (store-Keeps Q closing h c) (dispatch-Keeps s h c)))))))

  pub received-Keeps : {A : Type 0} (z : ℤ) (a : A) → Keeps (OnSelf Q) (received z a)
  unfolding received
  received-Keeps (pos n) a = Keeps-pure _
  received-Keeps (negsuc n) a =
      Keeps-then _ _ (Keeps-then _ _ (raise_if_clear-Keeps _ stable _) closing) (Keeps-pure _)

  active_buffers-Keeps : Keeps (OnSelf Q) active_buffers
  unfolding active_buffers
  active_buffers-Keeps =
      Keeps-bind _ _ (call-Keeps _ stable _)
        (λ u. Keeps-bind _ _ (next_buffered-Keeps _ stable) data_)
    where
      data_ :
          (b : Bool)
          → Keeps {A = Bool}
              (OnSelf Q)
              (elim b [ true ↦ pure true | false ↦ (do call frames_enqueued; next_buffered) ])
      data_ true = Keeps-pure _
      data_ false = Keeps-bind _ _ (call-Keeps _ stable _) (λ u. next_buffered-Keeps _ stable)

  poll_ended :
      (z : ℤ)
      → Keeps {A = Bool}
          (OnSelf Q)
          (elim z [ pos zero ↦ pure false | pos (suc n) ↦ pure true | negsuc n ↦ pure false ])
  poll_ended (pos zero) = Keeps-pure _
  poll_ended (pos (suc n)) = Keeps-pure _
  poll_ended (negsuc n) = Keeps-pure _

  unless_active :
      (fd : ℤ) (t : Timeout) (b : Bool)
      → Keeps {A = Bool} (OnSelf Q) (elim b [
        | true ↦ pure true
        | false ↦ (do
          ready ← wait_ready fd t
          z ← handle_poll_error ready
          elim z [ pos zero ↦ pure false | pos (suc n) ↦ pure true | negsuc n ↦ pure false ])
      ])
  unless_active fd t true = Keeps-pure _
  unless_active fd t false =
      Keeps-bind _ _ (wait_ready-Keeps _ stable fd t)
        (λ ready. Keeps-bind _ _ (handle_poll_error-Keeps _ stable ready) poll_ended)

  polled-Keeps : (fd : ℤ) (t : Timeout) → Keeps (OnSelf Q) (polled fd t)
  unfolding polled
  polled-Keeps fd (positive n e) =
      Keeps-bind _ _ active_buffers-Keeps (unless_active fd (positive n e))
  polled-Keeps fd minus_one = Keeps-bind _ _ active_buffers-Keeps (unless_active fd minus_one)
  polled-Keeps fd other_timeout = Keeps-pure _

  pub basic_recv-Keeps : (args : Option Timeout) → Keeps (OnSelf Q) (basic_recv args)
  unfolding basic_recv
  basic_recv-Keeps none = Keeps-bind _ _ (not_connected-Keeps _ stable) (λ refused.
      Keeps-if refused _ _ (Keeps-pure _) (Keeps-then _ _ (raise-Keeps _ stable _) (Keeps-pure _)))
  basic_recv-Keeps (some t) = Keeps-bind _ _ (not_connected-Keeps _ stable) (λ refused.
      Keeps-if refused _ _ (Keeps-pure _) (
        Keeps-bind _ _ (record { at = λ w h. Keeps.at (polled-Keeps w.self.sockfd t) w h })
          (λ go_on.
            Keeps-if go_on _ _
              (Keeps-bind _ _ (recv-Keeps false false) (λ r. received-Keeps r.0 tt))
              (Keeps-pure _))))
