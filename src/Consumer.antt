-- ===== src/Consumer.antt =====
-- `_basic_consume` and `_basic_cancel` of connection.c.
pub mod Cancel
pub mod Started
pub mod Keeps
use librabbitmq.Base.{ℕ, Bool, true, false, Option, none, some, Top, if◌then◌else◌}
use librabbitmq.Base.Cmd.{Cmd, pure, fail, ◌>>=◌, ◌>>◌}
use librabbitmq.Py.{PyVal, type_error}
use librabbitmq.Amqp.{string_as_amqbytes}
use librabbitmq.Amqp.Read.{string_from_amqbytes}
use librabbitmq.World.{World, RpcReply, normal, consume_ok, basic_consume, basic_cancel}
use librabbitmq.World.Calls.{lift, raise}
use librabbitmq.Errors.{not_connected}
use librabbitmq.Synchronous.{bail, opened, named, unless_null, with_table, synchronous, return_none}

-- `channel`, `queue`, `consumer_tag`, flags and `arguments`.
pub record ConsumeArgs : Type 0 where
  pub channel : ℕ
  pub queue : PyVal
  pub consumer_tag : PyVal
  pub no_local : ℕ
  pub no_ack : ℕ
  pub exclusive : ℕ
  pub arguments : PyVal

-- The tag as a text; a NULL is returned as it is.
unfoldable pub consumed : RpcReply → Cmd World (Option PyVal)
unfolding string_from_amqbytes
consumed (normal (consume_ok name)) = do
  v ← lift (string_from_amqbytes name)
  elim v [ PyVal.null ↦ pure none | tag ↦ pure (some tag) ]
consumed reply = fail

unfoldable pub consume_work : ConsumeArgs → Cmd World (Option PyVal)
unfolding named with_table string_as_amqbytes synchronous consumed
consume_work a = named a.queue (λ queue. named a.consumer_tag (λ consumer_tag.
    with_table a.channel a.arguments (λ t. do
      q ← lift (string_as_amqbytes queue)
      tag ← lift (string_as_amqbytes consumer_tag)
      synchronous false a.channel (basic_consume a.channel q tag a.no_local a.no_ack a.exclusive t)
          "basic.consume" consumed)))

-- `PyRabbitMQ_Connection_basic_consume`.
unfoldable pub basic_consume_method : Option ConsumeArgs → Cmd World (Option PyVal)
unfolding opened consume_work
basic_consume_method args = opened args consume_work

-- `channel` and `consumer_tag`.
pub record CancelArgs : Type 0 where
  pub channel : ℕ
  pub consumer_tag : PyVal

unfoldable pub cancel_work : CancelArgs → Cmd World (Option Top)
unfolding named string_as_amqbytes synchronous
cancel_work a = named a.consumer_tag (λ consumer_tag. do
  tag ← lift (string_as_amqbytes consumer_tag)
  synchronous true a.channel (basic_cancel a.channel tag) "basic.cancel" return_none)

-- `PyRabbitMQ_Connection_basic_cancel`: on a closed connection it goes to the label `ok`.
unfoldable pub basic_cancel_method : Option CancelArgs → Cmd World (Option Top)
unfolding not_connected cancel_work
basic_cancel_method args = do
  refused ← not_connected
  if refused
      then pure (some tt)
      else elim args [ none ↦ raise type_error >> bail | some a ↦ cancel_work a ]
