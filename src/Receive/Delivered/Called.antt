-- ===== src/Receive/Delivered/Called.antt =====
-- The callback of a consumer that is listening (`PyRabbitMQ_ApplyCallback`).
use librabbitmq.Base.{ℕ, subst, ◌≡◌, refl, sym, true, Option, none, some, List, ◌∷◌}
use librabbitmq.Base.Int.{pos}
use librabbitmq.Base.Cmd.{ok}
use librabbitmq.Py.{Py, PyErr, PyVal, PyItems, str, dict}
use librabbitmq.World.{World, Delivery}
use librabbitmq.Receive.Callback.{
  get_item, get_number, callback_for, listed, run_callback, with_channel, channel_callbacks,
  apply_callback,
}

-- A callback is registered for the tag on the channel, and the channel is one of the connection's.
pub record IsListening (c : ℕ) (tag : List ℕ) (w : World) : Type 0 where
  pub callbacks : PyItems
  pub of_channel : PyItems
  pub callback : PyVal
  pub channels : List ℕ
  pub has_callbacks : w.self.callbacks ≡ some (dict callbacks)
  pub has_channel : get_number callbacks c ≡ some (dict of_channel)
  pub has_tag : get_item of_channel tag ≡ some callback
  pub has_channels : w.caller.channels ≡ some channels
  pub is_listed : listed c channels ≡ true

-- What the callback raised is left set.
abbrev pub after_callback : Option PyErr → Py → Py
after_callback none s = s
after_callback (some e) s = record s { err = some e }

abbrev pub handed : Delivery → Option PyErr → List (Option PyErr) → World → World
handed m o os w = record w {
  caller = record caller { outcomes = os; delivered = m ∷ delivered };
  py = after_callback o py;
}
  where
    open w use {caller, caller.{delivered}, py}

-- A message that carries the tag.
abbrev pub tagged : Delivery → List ℕ → Delivery
tagged m tag = record m { consumer_tag = str tag }

abbrev asked : PyItems → List ℕ → List (Option PyErr) → World → World
asked callbacks channels os w = record w {
  self = record self { callbacks = some (dict callbacks) };
  caller = record caller { channels = some channels; outcomes = os };
}
  where
    open w use {self, caller}

run_callback_ok :
    (m : Delivery) (callbacks : PyItems) (channels : List ℕ) (o : Option PyErr)
    (os : List (Option PyErr)) (w : World)
    → run_callback m (asked callbacks channels (none ∷ o ∷ os) w)
      ≡ ok (pos 0) (handed m o os (asked callbacks channels (none ∷ o ∷ os) w))
unfolding run_callback
run_callback_ok m callbacks channels none os w = refl
run_callback_ok m callbacks channels (some x) os w = refl

asked_ok :
    (m : Delivery) (tag : List ℕ) (callbacks of_channel : PyItems) (callback : PyVal)
    (channels : List ℕ) (o : Option PyErr) (os : List (Option PyErr)) (w : World)
    → get_number callbacks m.channel ≡ some (dict of_channel)
    → get_item of_channel tag ≡ some callback
    → listed m.channel channels ≡ true
    → apply_callback (tagged m tag) (asked callbacks channels (none ∷ o ∷ os) w)
      ≡ ok (pos 0) (handed (tagged m tag) o os (asked callbacks channels (none ∷ o ∷ os) w))
unfolding apply_callback channel_callbacks callback_for with_channel
asked_ok m tag callbacks of_channel callback channels o os w a b c =
    rw (apply_callback, channel_callbacks, a, callback_for, b, with_channel, c)
      (run_callback_ok (tagged m tag) callbacks channels o os w)

pub apply_callback_ok :
    (m : Delivery) (tag : List ℕ) (o : Option PyErr) (os : List (Option PyErr)) (w : World)
    → IsListening m.channel tag w
    → w.caller.outcomes ≡ none ∷ o ∷ os
    → apply_callback (tagged m tag) w ≡ ok (pos 0) (handed (tagged m tag) o os w)
apply_callback_ok m tag o os w l e =
    subst (λ v. apply_callback (tagged m tag) v ≡ ok (pos 0) (handed (tagged m tag) o os v))
      (sym same)
      (asked_ok m tag l.callbacks l.of_channel l.callback l.channels o os w l.has_channel l.has_tag
        l.is_listed)
  where
    same : w ≡ asked l.callbacks l.channels (none ∷ o ∷ os) w
    same = λ i. record w {
      self = record self { callbacks = l.has_callbacks i };
      caller = record caller { channels = l.has_channels i; outcomes = e i };
    }
      where
        open w use {self, caller}
