-- ===== src/Receive/Keeps/Callback.antt =====
-- What calling the callback of a consumer keeps: every predicate on the connection object alone that
-- closing the connection keeps.
use librabbitmq.Base.{ℕ, Option, none, some, List, if◌then◌else◌}
use librabbitmq.Base.Int.{ℤ, pos, negsuc}
use librabbitmq.Base.Cmd.{ok, pure, ◌>>=◌, ◌>>◌}
use librabbitmq.Base.Keeps.{Keeps, Keeps-pure, Keeps-fail, Keeps-bind, Keeps-then, Keeps-if}
use librabbitmq.Py.{
  PyErr, attribute_error, PyVal, null, none_, bool, int, float, str, bytes, dict, list, tuple,
  other,
}
use librabbitmq.World.{Connection, Delivery}
use librabbitmq.World.Calls.{raise, next_outcome}
use librabbitmq.World.Keeps.{IsStable, raise-Keeps}
use librabbitmq.World.OnSelf.{OnSelf, OnSelf-IsStable, next_outcome-Keeps}
use librabbitmq.Errors.{close}
use librabbitmq.Receive.Callback.{
  callback_for, run_callback, listed, with_channel, channel_callbacks, apply_callback, deliver_to,
}

module _ (Q : Connection → Type 0) (closing : Keeps (OnSelf Q) close) where
  abbrev stable : IsStable (OnSelf Q)
  stable = OnSelf-IsStable Q

  run_callback-Keeps : (m : Delivery) → Keeps (OnSelf Q) (run_callback m)
  unfolding run_callback
  run_callback-Keeps m = Keeps-bind _ _ (next_outcome-Keeps Q) built
    where
      ended :
          (o : Option PyErr)
          → Keeps {A = ℤ}
              (OnSelf Q)
              (elim o [ none ↦ pure (pos 0) | some e ↦ raise e >> pure (pos 0) ])
      ended none = Keeps-pure _
      ended (some e) = Keeps-then _ _ (raise-Keeps _ stable e) (Keeps-pure _)

      built :
          (o : Option PyErr)
          → Keeps {A = ℤ} (OnSelf Q) (elim o [
            | some e ↦ raise e >> pure (negsuc 0)
            | none ↦ (do
              (λ w. ok tt (deliver_to m w))
              e ← next_outcome
              elim e [ none ↦ pure (pos 0) | some e' ↦ raise e' >> pure (pos 0) ])
          ])
      built (some e) = Keeps-then _ _ (raise-Keeps _ stable e) (Keeps-pure _)
      built none =
          Keeps-then (λ w. ok tt (deliver_to m w)) _ (record { at = λ w h. h })
            (Keeps-bind _ _ (next_outcome-Keeps Q) ended)

  with_channel-Keeps : (m : Delivery) → Keeps (OnSelf Q) (with_channel m)
  unfolding with_channel
  with_channel-Keeps m = record { at = λ w h. (of_channels w.caller.channels).at w h }
    where
      of_channels :
          (o : Option (List ℕ))
          → Keeps {A = ℤ} (OnSelf Q) (λ w. elim o [
            | none ↦ (raise attribute_error >> pure (negsuc 0)) w
            | some cs ↦ (if listed m.channel cs then run_callback m else pure (negsuc 0)) w
          ])
      of_channels none = Keeps-then _ _ (raise-Keeps _ stable _) (Keeps-pure _)
      of_channels (some cs) =
          Keeps-if (listed m.channel cs) _ _ (run_callback-Keeps m) (Keeps-pure _)

  channel_callbacks-Keeps : (o : Option PyVal) (ch : ℕ) → Keeps (OnSelf Q) (channel_callbacks o ch)
  unfolding channel_callbacks
  channel_callbacks-Keeps none ch = Keeps-fail
  channel_callbacks-Keeps (some v) ch = any v
    where
      any : (v : PyVal) → Keeps (OnSelf Q) (channel_callbacks (some v) ch)
      any null = Keeps-pure _
      any none_ = Keeps-pure _
      any (bool b) = Keeps-pure _
      any (int z) = Keeps-pure _
      any (float d) = Keeps-pure _
      any (str cs) = Keeps-pure _
      any (bytes bs) = Keeps-pure _
      any (dict d) = Keeps-pure _
      any (list d) = Keeps-pure _
      any (tuple d) = Keeps-pure _
      any other = Keeps-pure _

  callback_for-Keeps : (v tag : PyVal) → Keeps (OnSelf Q) (callback_for v tag)
  unfolding callback_for
  callback_for-Keeps null tag = Keeps-pure _
  callback_for-Keeps none_ tag = Keeps-pure _
  callback_for-Keeps (bool b) tag = Keeps-pure _
  callback_for-Keeps (int z) tag = Keeps-pure _
  callback_for-Keeps (float d) tag = Keeps-pure _
  callback_for-Keeps (str cs) tag = Keeps-pure _
  callback_for-Keeps (bytes bs) tag = Keeps-pure _
  callback_for-Keeps (list d) tag = Keeps-pure _
  callback_for-Keeps (tuple d) tag = Keeps-pure _
  callback_for-Keeps other tag = Keeps-pure _
  callback_for-Keeps (dict d) null = Keeps-fail
  callback_for-Keeps (dict d) none_ = Keeps-fail
  callback_for-Keeps (dict d) (bool b) = Keeps-fail
  callback_for-Keeps (dict d) (int z) = Keeps-fail
  callback_for-Keeps (dict d) (float e) = Keeps-fail
  callback_for-Keeps (dict d) (str cs) = Keeps-pure _
  callback_for-Keeps (dict d) (bytes bs) = Keeps-fail
  callback_for-Keeps (dict d) (dict e) = Keeps-fail
  callback_for-Keeps (dict d) (list e) = Keeps-fail
  callback_for-Keeps (dict d) (tuple e) = Keeps-fail
  callback_for-Keeps (dict d) other = Keeps-fail

  pub apply_callback-Keeps : (m : Delivery) → Keeps (OnSelf Q) (apply_callback m)
  unfolding apply_callback
  apply_callback-Keeps m = record {
    at = λ w h. (Keeps-bind _ _ (channel_callbacks-Keeps w.self.callbacks m.channel) found).at w h;
  }
    where
      called_back :
          (o : Option PyVal)
          → Keeps {A = ℤ} (OnSelf Q) (elim o [ none ↦ pure (negsuc 0) | some c ↦ with_channel m ])
      called_back none = Keeps-pure _
      called_back (some c) = with_channel-Keeps m

      found :
          (o : Option PyVal)
          → Keeps {A = ℤ} (OnSelf Q) (elim o [
            | none ↦ pure (negsuc 0)
            | some inner ↦ (do
              callback ← callback_for inner m.consumer_tag
              elim callback [ none ↦ pure (negsuc 0) | some c ↦ with_channel m ])
          ])
      found none = Keeps-pure _
      found (some v) = Keeps-bind _ _ (callback_for-Keeps v m.consumer_tag) called_back
