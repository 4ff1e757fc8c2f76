-- ===== src/Receive/Callback.antt =====
-- `PyRabbitMQ_ApplyCallback` of connection.c.
use librabbitmq.Base.{ℕ, Bool, true, false, Option, none, some, List, [], ◌∷◌, ◌==◌, if◌then◌else◌}
use librabbitmq.Base.Int.{ℤ, pos, negsuc}
use librabbitmq.Base.Cmd.{Cmd, ok, pure, fail, ◌>>=◌, ◌>>◌}
use librabbitmq.Py.{PyVal, PyItems, int, str, dict, nil, cons, attribute_error}
use librabbitmq.Amqp.Read.{is_key}
use librabbitmq.World.{World, Delivery}
use librabbitmq.World.Calls.{raise, next_outcome}

-- `PyDict_GetItem` at a text, and at a number that is not negative.
unfoldable pub get_item : PyItems → List ℕ → Option PyVal
unfolding is_key
get_item nil cs = none
get_item (cons k v rest) cs = if is_key cs k then some v else get_item rest cs

unfoldable pub is_number : ℕ → PyVal → Bool
is_number n (int (pos m)) = n == m
is_number n v = false

unfoldable pub get_number : PyItems → ℕ → Option PyVal
unfolding is_number
get_number nil n = none
get_number (cons k v rest) n = if is_number n k then some v else get_number rest n

-- `PyDict_GetItem` at the tag: NULL is followed, and what is no dict has no items.
unfoldable pub callback_for : PyVal → PyVal → Cmd World (Option PyVal)
unfolding get_item
callback_for (dict d) (str tag) = pure (get_item d tag)
callback_for (dict d) v = fail
callback_for v tag = pure none

-- Whether `channel` is a key of the attribute `channels`.
unfoldable pub listed : ℕ → List ℕ → Bool
listed channel [] = false
listed channel (c ∷ cs) = if channel == c then true else listed channel cs

abbrev pub deliver_to : Delivery → World → World
deliver_to m w = record w { caller = record caller { delivered = m ∷ delivered } }
  where
    open w use {caller, caller.{delivered}}

-- The constructor of the message, then the callback. What the callback raises is left set.
unfoldable pub run_callback : Delivery → Cmd World ℤ
run_callback m = do
  built ← next_outcome
  elim built [
    | some e ↦ raise e >> pure (negsuc 0)
    | none ↦ (do
      (λ w. ok tt (deliver_to m w))
      ended ← next_outcome
      elim ended [ none ↦ pure (pos 0) | some e ↦ raise e >> pure (pos 0) ])
  ]

-- `self.channels[channel]`.
unfoldable pub with_channel : Delivery → Cmd World ℤ
unfolding run_callback listed
with_channel m w = elim w.caller.channels [
  | none ↦ (raise attribute_error >> pure (negsuc 0)) w
  | some cs ↦ (if listed m.channel cs then run_callback m else pure (negsuc 0)) w
]

-- `self.callbacks[channel]`, where `callbacks` is not NULL.
unfoldable pub channel_callbacks : Option PyVal → ℕ → Cmd World (Option PyVal)
unfolding get_number
channel_callbacks (some (dict d)) channel = pure (get_number d channel)
channel_callbacks (some v) channel = pure none
channel_callbacks none channel = fail

unfoldable pub apply_callback : Delivery → Cmd World ℤ
unfolding channel_callbacks callback_for with_channel
apply_callback m w =
    (do
      found ← channel_callbacks w.self.callbacks m.channel
      elim found [
        | none ↦ pure (negsuc 0)
        | some inner ↦ (do
          callback ← callback_for inner m.consumer_tag
          elim callback [ none ↦ pure (negsuc 0) | some c ↦ with_channel m ])
      ])
      w
