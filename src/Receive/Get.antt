-- ===== src/Receive/Get.antt =====
-- `_basic_get` of connection.c. A method that returns NULL returns `none` here.
pub mod Keeps
pub mod Content
pub mod Fetched
use librabbitmq.Base.{ℕ, true, false, Option, none, some, Top, if◌then◌else◌}
use librabbitmq.Base.Int.{pos}
use librabbitmq.Base.Cmd.{Cmd, ok, pure, ◌>>=◌, ◌>>◌}
use librabbitmq.Py.{PyVal, PyItems, null, int, nil, type_error}
use librabbitmq.Py.Held.{Object, maybe_unicode, xdecref_held}
use librabbitmq.Amqp.{string_as_amqbytes}
use librabbitmq.Message.{set_str, basic_deliver_to_dict}
use librabbitmq.World.{World, Deliver, RpcReply, normal, get_ok, basic_get, data_in_buffer}
use librabbitmq.World.Calls.{lift, raise, call, next_reply, next_buffered}
use librabbitmq.Errors.{not_connected, handle_amq_error, failed_status}
use librabbitmq.Receive.{recv, received}
use librabbitmq.Receive.Fragments.{Message}

-- The dict `p`; the part that `PyRabbitMQ_recv` stores is a record of its own.
pub record Got : Type 0 where
  pub delivery_info : PyItems
  pub message : Option Message

-- The arguments `channel`, `queue` and `no_ack`.
pub record GetArgs : Type 0 where
  pub channel : ℕ
  pub queue : PyVal
  pub no_ack : ℕ

abbrev pub release_held : Cmd World Top
release_held w = ok tt (record w { py = xdecref_held w.py })

-- `p["delivery_info"]`.
unfoldable pub get_info : Deliver → ℕ → Cmd World PyItems
unfolding basic_deliver_to_dict
get_info d message_count = do
  info ← lift (basic_deliver_to_dict nil d)
  lift (set_str info "message_count" (int (pos message_count)))

-- The message itself, where there is data in the buffer.
unfoldable pub get_content : PyItems → Cmd World (Option (Option Got))
unfolding recv received
get_content info = do
  call data_in_buffer
  data_ ← next_buffered
  elim data_ [
    | true ↦ (do
      r ← recv true true
      received r.0 (some (record { delivery_info = info; message = r.1 })))
    | false ↦ pure (some (some (record { delivery_info = info; message = none })))
  ]

-- A reply that is no `get_ok` says that the queue is empty.
unfoldable pub get_reply : RpcReply → Cmd World (Option (Option Got))
unfolding get_info get_content
get_reply (normal (get_ok d message_count)) = do info ← get_info d message_count; get_content info
get_reply r = pure (some none)

-- The queue's name is sent; where its encoding failed nothing is.
unfoldable pub get_from : GetArgs → Object → Cmd World (Option (Option Got))
unfolding string_as_amqbytes handle_amq_error get_reply
get_from args queue = elim queue.value [
  | null ↦ release_held >> pure none
  | _ ↦ (do
    name ← lift (string_as_amqbytes queue)
    call (basic_get args.channel name args.no_ack)
    reply ← next_reply
    release_held
    z ← handle_amq_error args.channel reply "basic.get"
    if failed_status z then release_held >> pure none else get_reply reply)
]

-- `PyRabbitMQ_Connection_basic_get`.
unfoldable pub basic_get_method : Option GetArgs → Cmd World (Option (Option Got))
unfolding not_connected maybe_unicode get_from
basic_get_method args = do
  refused ← not_connected
  if refused then release_held >> pure none else elim args [
    | none ↦ raise type_error >> release_held >> pure none
    | some a ↦ (do queue ← lift (maybe_unicode a.queue); get_from a queue)
  ]
