-- ===== src/Queue.antt =====
-- "Queues" and "Exchanges" of connection.c: `_queue_bind`, `_queue_unbind`, `_queue_delete`,
-- `_queue_declare`, `_queue_purge`, `_exchange_declare` and `_exchange_delete`. A method that returns
-- NULL returns `none` here; `none` for the arguments stands for arguments that do not parse.
pub mod Requests
pub mod Sent
pub mod Counts
pub mod Declaration
pub mod Exchanges
pub mod Keeps
pub mod Refused
use librabbitmq.Base.{ℕ, Bool, true, false, Option, none, some, Top, if◌then◌else◌}
use librabbitmq.Base.Cmd.{Cmd, pure, fail, ◌>>=◌, ◌>>◌}
use librabbitmq.Py.{PyVal}
use librabbitmq.Amqp.{AmqpBytes, Entries, string_as_amqbytes}
use librabbitmq.Amqp.Read.{string_from_amqbytes}
use librabbitmq.World.{
  World, Call, RpcReply, normal, missing, library_exception, server_exception, queue_declare_ok,
  queue_delete_ok, queue_purge_ok, queue_bind, queue_unbind, queue_delete, queue_declare,
  queue_purge, exchange_declare, exchange_delete, get_rpc_reply, release_on_channel,
}
use librabbitmq.World.Calls.{lift, call, next_reply}
use librabbitmq.Synchronous.{
  release_held, bail, opened, named, with_table, handled, synchronous, return_none,
}

-- `channel`, `queue`, `exchange`, `routing_key` and `arguments`.
pub record BindArgs : Type 0 where
  pub channel : ℕ
  pub queue : PyVal
  pub exchange : PyVal
  pub routing_key : PyVal
  pub arguments : PyVal

-- Both bindings, over the call that they make.
unfoldable pub bind_work :
    (AmqpBytes → AmqpBytes → AmqpBytes → Entries → Cmd World (Option Top))
    → BindArgs
    → Cmd World (Option Top)
unfolding named with_table string_as_amqbytes
bind_work send a = named a.queue (λ queue. named a.exchange (λ exchange.
    named a.routing_key (λ routing_key. with_table a.channel a.arguments (λ t. do
      q ← lift (string_as_amqbytes queue)
      e ← lift (string_as_amqbytes exchange)
      r ← lift (string_as_amqbytes routing_key)
      send q e r t))))

unfoldable pub bind_send :
    BindArgs → AmqpBytes → AmqpBytes → AmqpBytes → Entries → Cmd World (Option Top)
unfolding synchronous
bind_send a q e r t =
    synchronous true a.channel (queue_bind a.channel q e r t) "queue.bind" return_none

-- `PyRabbitMQ_Connection_queue_bind`.
unfoldable pub queue_bind_method : Option BindArgs → Cmd World (Option Top)
unfolding opened bind_work bind_send
queue_bind_method args = opened args (λ a. bind_work (bind_send a) a)

unfoldable pub unbind_send :
    BindArgs → AmqpBytes → AmqpBytes → AmqpBytes → Entries → Cmd World (Option Top)
unfolding synchronous
unbind_send a q e r t =
    synchronous true a.channel (queue_unbind a.channel q e r t) "queue.unbind" return_none

-- `PyRabbitMQ_Connection_queue_unbind`.
unfoldable pub queue_unbind_method : Option BindArgs → Cmd World (Option Top)
unfolding opened bind_work unbind_send
queue_unbind_method args = opened args (λ a. bind_work (unbind_send a) a)

-- A queue's name is encoded for a request that carries nothing else.
unfoldable pub with_queue : PyVal → (AmqpBytes → Cmd World (Option ℕ)) → Cmd World (Option ℕ)
unfolding named string_as_amqbytes
with_queue v work = named v (λ queue. do q ← lift (string_as_amqbytes queue); work q)

-- `channel`, `queue`, `if_unused` and `if_empty`.
pub record DeleteArgs : Type 0 where
  pub channel : ℕ
  pub queue : PyVal
  pub if_unused : ℕ
  pub if_empty : ℕ

-- `ok` is NULL where the answer is no `queue.delete-ok`: only then the answer is asked for and
-- handled, and where it is no failure NULL is followed.
unfoldable pub delete_answered : DeleteArgs → RpcReply → Cmd World (Option ℕ)
unfolding handled
delete_answered a (normal (queue_delete_ok n)) =
    call (release_on_channel a.channel) >> release_held >> pure (some n)
delete_answered a reply = do
  call get_rpc_reply
  call (release_on_channel a.channel)
  release_held
  handled a.channel reply "queue.delete" (λ r. fail)

unfoldable pub delete_work : DeleteArgs → AmqpBytes → Cmd World (Option ℕ)
unfolding delete_answered
delete_work a q = do
  call (queue_delete a.channel q a.if_unused a.if_empty)
  reply ← next_reply
  delete_answered a reply

-- `PyRabbitMQ_Connection_queue_delete`.
unfoldable pub queue_delete_method : Option DeleteArgs → Cmd World (Option ℕ)
unfolding opened with_queue delete_work
queue_delete_method args = opened args (λ a. with_queue a.queue (delete_work a))

-- `channel`, `queue`, four flags and `arguments`.
pub record DeclareArgs : Type 0 where
  pub channel : ℕ
  pub queue : PyVal
  pub passive : ℕ
  pub durable : ℕ
  pub exclusive : ℕ
  pub auto_delete : ℕ
  pub arguments : PyVal

-- The tuple that is returned.
pub record Declared : Type 0 where
  pub queue : PyVal
  pub message_count : ℕ
  pub consumer_count : ℕ

unfoldable pub declared : RpcReply → Cmd World (Option Declared)
unfolding string_from_amqbytes
declared (normal (queue_declare_ok name messages consumers)) = do
  q ← lift (string_from_amqbytes name)
  pure (some (record { queue = q; message_count = messages; consumer_count = consumers }))
declared reply = fail

unfoldable pub queue_declare_work : DeclareArgs → Cmd World (Option Declared)
unfolding named with_table string_as_amqbytes synchronous declared
queue_declare_work a = named a.queue (λ queue. with_table a.channel a.arguments (λ t. do
  q ← lift (string_as_amqbytes queue)
  synchronous false a.channel
      (queue_declare a.channel q a.passive a.durable a.exclusive a.auto_delete t) "queue.declare"
      declared))

-- `PyRabbitMQ_Connection_queue_declare`.
unfoldable pub queue_declare_method : Option DeclareArgs → Cmd World (Option Declared)
unfolding opened queue_declare_work
queue_declare_method args = opened args queue_declare_work

-- `channel`, `queue` and `no_wait`, which is not used.
pub record PurgeArgs : Type 0 where
  pub channel : ℕ
  pub queue : PyVal
  pub no_wait : ℕ

unfoldable pub purged : RpcReply → Cmd World (Option ℕ)
purged (normal (queue_purge_ok n)) = pure (some n)
purged reply = fail

unfoldable pub purge_work : PurgeArgs → AmqpBytes → Cmd World (Option ℕ)
unfolding synchronous purged
purge_work a q = synchronous true a.channel (queue_purge a.channel q) "queue.purge" purged

-- `PyRabbitMQ_Connection_queue_purge`.
unfoldable pub queue_purge_method : Option PurgeArgs → Cmd World (Option ℕ)
unfolding opened with_queue purge_work
queue_purge_method args = opened args (λ a. with_queue a.queue (purge_work a))

-- `channel`, `exchange`, `type`, flags and `arguments`; `auto_delete` is ignored.
pub record ExchangeArgs : Type 0 where
  pub channel : ℕ
  pub exchange : PyVal
  pub type : PyVal
  pub passive : ℕ
  pub durable : ℕ
  pub auto_delete : ℕ
  pub arguments : PyVal

unfoldable pub exchange_declare_work : ExchangeArgs → Cmd World (Option Top)
unfolding named with_table string_as_amqbytes synchronous
exchange_declare_work a = named a.exchange (λ exchange. named a.type (λ type.
    with_table a.channel a.arguments (λ t. do
      e ← lift (string_as_amqbytes exchange)
      y ← lift (string_as_amqbytes type)
      synchronous false a.channel (exchange_declare a.channel e y a.passive a.durable 0 0 t)
          "exchange.declare" return_none)))

-- `PyRabbitMQ_Connection_exchange_declare`.
unfoldable pub exchange_declare_method : Option ExchangeArgs → Cmd World (Option Top)
unfolding opened exchange_declare_work
exchange_declare_method args = opened args exchange_declare_work

-- `channel`, `exchange` and `if_unused`.
pub record ExchangeDeleteArgs : Type 0 where
  pub channel : ℕ
  pub exchange : PyVal
  pub if_unused : ℕ

unfoldable pub exchange_delete_work : ExchangeDeleteArgs → Cmd World (Option Top)
unfolding named string_as_amqbytes synchronous
exchange_delete_work a = named a.exchange (λ exchange. do
  e ← lift (string_as_amqbytes exchange)
  synchronous true a.channel (exchange_delete a.channel e a.if_unused) "exchange.delete"
      return_none)

-- `PyRabbitMQ_Connection_exchange_delete`.
unfoldable pub exchange_delete_method : Option ExchangeDeleteArgs → Cmd World (Option Top)
unfolding opened exchange_delete_work
exchange_delete_method args = opened args exchange_delete_work
