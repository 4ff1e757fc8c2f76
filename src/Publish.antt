-- ===== src/Publish.antt =====
-- `_basic_publish` of connection.c. A method that returns NULL returns `none` here.
pub mod Properties
pub mod Keeps
pub mod RoundTrip
pub mod Sent
pub mod Leaks
use librabbitmq.Base.{ℕ, Bool, true, false, Option, none, some, List, Top}
use librabbitmq.Base.Int.{ℤ}
use librabbitmq.Base.Cmd.{Cmd, ok, pure, ◌>>=◌, ◌>>◌}
use librabbitmq.Py.{PyVal, new_ref, xdecref}
use librabbitmq.Py.Held.{Object}
use librabbitmq.Amqp.{AmqpBytes, string_as_amqbytes}
use librabbitmq.World.{
  as_channel, World, BasicProperties, basic_publish, channel_pool, release_on_channel,
}
use librabbitmq.World.Calls.{lift, call, next_status}
use librabbitmq.Errors.{handle_error, revive_channel}
use librabbitmq.Synchronous.{release_held, bail, opened, named}
use Properties.{dict_to_basic_properties}

-- The arguments: the body is the bytes that `s#` gives.
pub record PublishArgs : Type 0 where
  pub channel : ℕ
  pub body : List ℕ
  pub exchange : PyVal
  pub routing_key : PyVal
  pub propdict : PyVal
  pub mandatory : ℕ
  pub immediate : ℕ

-- The label `error`, where the message could not be sent.
unfoldable pub published : ℕ → Bool → Cmd World (Option Top)
unfolding revive_channel
published channel true = pure (some tt)
published channel false = revive_channel channel >> bail

-- The message is sent. There is no answer to it.
unfoldable pub publish_send :
    PublishArgs → Object → Object → BasicProperties → Cmd World (Option Top)
unfolding string_as_amqbytes handle_error published
publish_send a exchange routing_key props = do
  e ← lift (string_as_amqbytes exchange)
  r ← lift (string_as_amqbytes routing_key)
  call (basic_publish a.channel e r a.mandatory a.immediate props a.body)
  ret ← next_status
  call (release_on_channel a.channel)
  release_held
  sent ← handle_error ret "basic.publish"
  published a.channel sent

-- `Py_INCREF(propdict)`, which is a reference of its own here; it is given back where the properties
-- could be read, and on no other path.
unfoldable pub publish_properties : PublishArgs → Object → Object → Cmd World (Option Top)
unfolding dict_to_basic_properties publish_send
publish_properties a exchange routing_key = do
  i ← lift new_ref
  call (channel_pool (as_channel a.channel))
  props ← lift (dict_to_basic_properties a.propdict)
  elim props [ none ↦ bail | some p ↦ (do lift (xdecref i); publish_send a exchange routing_key p) ]

unfoldable pub publish_work : PublishArgs → Cmd World (Option Top)
unfolding named publish_properties
publish_work a =
    named a.exchange
      (λ exchange. named a.routing_key (λ routing_key. publish_properties a exchange routing_key))

-- `PyRabbitMQ_Connection_basic_publish`.
unfoldable pub basic_publish_method : Option PublishArgs → Cmd World (Option Top)
unfolding opened publish_work
basic_publish_method args = opened args publish_work
