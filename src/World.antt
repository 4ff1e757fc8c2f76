-- ===== src/World.antt =====
-- The state that the methods of a connection work on: the interpreter, the connection object of
-- Modules/_librabbitmq/connection.h, and the C library rabbitmq-c behind it. That library is not
-- part of the repository: what its calls return is a script, and which calls are made is a trace.
pub mod Calls
pub mod Open
pub mod Keeps
pub mod OnSelf
use librabbitmq.Base.{
  ◌%◌, ◌^◌, ℕ, ◌+◌, Bool, true, false, Option, none, some, List, [], ◌∷◌, Top, if◌then◌else◌,
}
use librabbitmq.Base.Int.{ℤ, pos, negsuc}
use librabbitmq.Base.Cmd.{Run, ok, crash, blocked, Cmd}
use librabbitmq.Py.{Py, PyErr, PyVal, PyItems}
use librabbitmq.Amqp.{AmqpBytes, Entries}

-- `amqp_basic_properties_t`: a field that is `none` has its flag unset.
pub record BasicProperties : Type 0 where
  pub content_type : Option AmqpBytes
  pub content_encoding : Option AmqpBytes
  pub correlation_id : Option AmqpBytes
  pub reply_to : Option AmqpBytes
  pub expiration : Option AmqpBytes
  pub message_id : Option AmqpBytes
  pub type : Option AmqpBytes
  pub user_id : Option AmqpBytes
  pub app_id : Option AmqpBytes
  pub delivery_mode : Option ℕ
  pub priority : Option ℕ
  pub timestamp : Option ℕ
  pub headers : Option Entries

-- `amqp_basic_deliver_t`, and the part of it that `amqp_basic_get_ok_t` shares.
pub record Deliver : Type 0 where
  pub delivery_tag : ℕ
  pub exchange : AmqpBytes
  pub routing_key : AmqpBytes
  pub redelivered : ℕ
  pub consumer_tag : AmqpBytes

-- A method as the code tells it apart by its id.
pub data Method : Type 0 where
  basic_deliver : Deliver → Method
  channel_close connection_close : ℕ → List ℕ → Method
  other_method : ℕ → Method

-- The decoded method of a normal reply.
pub data Decoded : Type 0 where
  get_ok : Deliver → ℕ → Decoded
  queue_declare_ok : AmqpBytes → ℕ → ℕ → Decoded
  queue_delete_ok queue_purge_ok : ℕ → Decoded
  consume_ok : AmqpBytes → Decoded
  other_ok : ℕ → Decoded

-- `amqp_rpc_reply_t`.
pub data RpcReply : Type 0 where
  normal : Decoded → RpcReply
  missing : RpcReply
  library_exception : ℤ → RpcReply
  server_exception : Method → RpcReply

-- `amqp_frame_t`: the frame types, and what a frame of each type carries.
pub data Payload : Type 0 where
  method : Method → Payload
  header : BasicProperties → ℕ → Payload
  body : List ℕ → Payload
  other_frame : ℕ → Payload

pub record Frame : Type 0 where
  pub channel : ℕ
  pub payload : Payload

-- What `amqp_simple_wait_frame` returns: a status below 0 (its distance below -1), or a frame.
pub data Wait : Type 0 where
  failed : ℕ → Wait
  got : Frame → Wait

-- The conversion of an `unsigned int` to `amqp_channel_t`.
abbrev pub as_channel : ℕ → ℕ
as_channel n = n % 2 ^ 16

-- The calls of the library, with the arguments that matter, as the code writes them: a channel is an
-- `unsigned int` unless the code casts it, and the library's parameters, which are of type
-- `amqp_channel_t`, keep its low 16 bits. A flag is its 32 bits, which the cast to
-- `amqp_boolean_t`, an `int`, keeps.
pub data Call : Type 0 where
  new_connection tcp_socket_new get_sockfd connection_close_ destroy_connection : Call
  socket_open : List ℕ → ℤ → Call
  socket_open_noblock : List ℕ → ℤ → ℤ → Call
  login : List ℕ → ℤ → ℤ → ℤ → Option Entries → List ℕ → List ℕ → Call
  channel_open channel_close_ channel_close_ok release_on_channel : ℕ → Call
  get_rpc_reply release_buffers wait_frame : Call
  wait_frame_on_channel : ℕ → Call
  basic_get : ℕ → AmqpBytes → ℕ → Call
  channel_pool : ℕ → Call
  queue_bind queue_unbind : ℕ → AmqpBytes → AmqpBytes → AmqpBytes → Entries → Call
  queue_delete : ℕ → AmqpBytes → ℕ → ℕ → Call
  queue_declare : ℕ → AmqpBytes → ℕ → ℕ → ℕ → ℕ → Entries → Call
  queue_purge : ℕ → AmqpBytes → Call
  exchange_declare : ℕ → AmqpBytes → AmqpBytes → ℕ → ℕ → ℕ → ℕ → Entries → Call
  exchange_delete : ℕ → AmqpBytes → ℕ → Call
  basic_consume : ℕ → AmqpBytes → AmqpBytes → ℕ → ℕ → ℕ → Entries → Call
  basic_cancel : ℕ → AmqpBytes → Call
  basic_ack basic_reject : ℕ → ℕ → ℕ → Call
  basic_qos : ℕ → ℕ → ℕ → ℕ → Call
  channel_flow basic_recover : ℕ → ℕ → Call
  basic_publish : ℕ → AmqpBytes → AmqpBytes → ℕ → ℕ → BasicProperties → List ℕ → Call
  data_in_buffer frames_enqueued : Call

-- The pointer `conn`: NULL, a state that the library holds, or one that it has destroyed.
pub data Pointer : Type 0 where
  null alive dangling : Pointer

-- `PyRabbitMQ_Connection`.
-- The tuned limits `channel_max`, `frame_max` and `heartbeat` are numbers of type `int`.
pub record Connection : Type 0 where
  pub conn : Pointer
  pub hostname : Option (List ℕ)
  pub userid : Option (List ℕ)
  pub password : Option (List ℕ)
  pub virtual_host : Option (List ℕ)
  pub port : ℤ
  pub frame_max : ℤ
  pub channel_max : ℤ
  pub heartbeat : ℤ
  pub connect_timeout : ℤ
  pub sockfd : ℤ
  pub connected : Bool
  pub client_properties : Option PyVal
  pub server_properties : Option PyVal
  pub callbacks : Option PyVal

-- `struct timeval` as `gettimeofday` fills it.
pub record Timeval : Type 0 where
  pub tv_sec : ℕ
  pub tv_usec : ℕ

-- A call of `select` for the socket: what it returned, whether the socket is in the set afterwards,
-- and the clock before and after it.
pub record Selection : Type 0 where
  pub result : ℤ
  pub is_set : Bool
  pub before : Timeval
  pub after : Timeval

-- What the library returns, in the order in which it is asked: replies, frames, the statuses of
-- sends and of opening a socket, and whether it has buffered data or frames; the calls of `select`
-- for the socket; whether it has a socket to give, and its descriptor; and what
-- the handshake agreed on.
pub record Script : Type 0 where
  pub replies : List RpcReply
  pub frames : List Wait
  pub statuses : List ℤ
  pub buffered : List Bool
  pub polls : List Selection
  pub has_socket : Bool
  pub socket_fd : ℤ
  pub tuned_channel_max : ℤ
  pub tuned_frame_max : ℤ
  pub tuned_heartbeat : ℤ
  pub broker_properties : Entries

-- The content of a message as the code hands it over: a text, or a bytes object or a view of one of
-- the given size. The list is what was written; where it is shorter, the rest is uninitialised.
pub data Body : Type 0 where
  text_body : List ℕ → Body
  bytes_body view_body : List ℕ → ℕ → Body

-- A message as a callback receives it.
pub record Delivery : Type 0 where
  pub channel : ℕ
  pub consumer_tag : PyVal
  pub properties : PyItems
  pub delivery_info : PyItems
  pub body : Body

-- The Python code around the object: the keys of its attribute `channels`, if it has one; how the
-- calls of Python code end, by an exception or without; and the messages that callbacks received,
-- the newest first.
pub record Caller : Type 0 where
  pub channels : Option (List ℕ)
  pub outcomes : List (Option PyErr)
  pub delivered : List Delivery

pub record World : Type 0 where
  pub caller : Caller
  pub py : Py
  pub self : Connection
  pub lib : Script
  pub trace : List Call
