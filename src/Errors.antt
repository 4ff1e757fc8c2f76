-- ===== src/Errors.antt =====
-- "Error Handlers" of connection.c, `PyRabbitMQ_Connection_close`, and the three functions that call
-- one another: `PyRabbitMQ_HandleAMQError`, `PyRabbitMQ_revive_channel` and
-- `PyRabbitMQ_Connection_create_channel`.
pub mod Close
pub mod Revive
pub mod Refusals
pub mod Keeps
use Prim.Native.String.{String}
use librabbitmq.Base.{ℕ, Bool, true, false, Option, none, some, List, [], ◌∷◌, Top}
use librabbitmq.Base.Int.{ℤ, pos, negsuc}
use librabbitmq.Base.Cmd.{Cmd, Run, ok, crash, blocked, pure, ◌>>=◌, ◌>>◌}
use librabbitmq.Py.{
  PyErr, connection_error, channel_error, os_error, socket_timeout, text, status, missing_rpc_reply,
  library_error, end_of_stream, server_connection_error, server_channel_error, unknown_server_error,
  unexpected_header, err_occurred,
}
use librabbitmq.World.{
  as_channel, World, Connection, Pointer, dangling, Call, connection_close_, destroy_connection,
  channel_open, channel_close_ok, get_rpc_reply, RpcReply, normal, missing, library_exception,
  server_exception, Method, basic_deliver, channel_close, connection_close, other_method,
}
use librabbitmq.World.Calls.{raise, call, set_self, next_status, next_reply, waits}

-- `PyRabbitMQ_Not_Connected`.
unfoldable pub not_connected : Cmd World Bool
not_connected w = elim w.self.connected [
  | true ↦ ok false w
  | false ↦ (raise (connection_error (text "Operation on closed connection")) >> pure true) w
]

-- `PyRabbitMQ_HandleError`: whether the call went well.
unfoldable pub handle_error : ℤ → String → Cmd World Bool
handle_error (pos n) context = pure true
handle_error (negsuc n) context = raise (connection_error (status context (negsuc n))) >> pure false

-- An exception is set where none is.
abbrev pub raise_if_clear : PyErr → Cmd World Top
raise_if_clear e w = elim (err_occurred w.py) [ true ↦ ok tt w | false ↦ raise e w ]

-- `PyRabbitMQ_HandlePollError`.
unfoldable pub handle_poll_error : ℤ → Cmd World ℤ
handle_poll_error (negsuc n) = raise_if_clear os_error >> pure (negsuc n)
handle_poll_error (pos ℕ.zero) = raise_if_clear socket_timeout >> pure (pos 0)
handle_poll_error (pos (ℕ.suc n)) = pure (pos (ℕ.suc n))

-- `PyRabbitMQ_HandleAMQStatus`.
unfoldable pub handle_amq_status : ℤ → String → Cmd World ℤ
handle_amq_status (pos ℕ.zero) context = pure (pos 0)
handle_amq_status z context = raise (connection_error (status context z)) >> pure z

-- `PyRabbitMQ_SetErr_UnexpectedHeader`.
unfoldable pub set_err_unexpected_header : ℕ → Cmd World Top
set_err_unexpected_header frame_type = raise (channel_error (unexpected_header frame_type))

-- What closing leaves of the connection object. The pointer stays, to a state that is gone.
abbrev pub closed : Connection → Connection
closed c = record c { connected = false; sockfd = pos 0; conn = dangling }

-- `PyRabbitMQ_Connection_close`.
unfoldable pub close : Cmd World Top
close w = elim w.self.connected [
  | true ↦ (call connection_close_ >> call destroy_connection >> set_self closed) w
  | false ↦ ok tt w
]

-- `PYRABBITMQ_CONNECTION_ERROR` and `PYRABBITMQ_CHANNEL_ERROR`, as `PyRabbitMQ_HandleAMQError`
-- returns them, or 0.
pub data Status : Type 0 where
  fine connection_failed channel_failed : Status

-- The label `connerror`.
unfoldable pub conn_error : PyErr → Cmd World Status
unfolding close
conn_error e = raise e >> close >> pure connection_failed

-- The label `chanerror`, over the function that opens the channel again.
unfoldable pub chan_error : (ℕ → Cmd World Bool) → ℕ → PyErr → Cmd World Status
chan_error revive channel e = do raise e; revived ← revive channel; pure channel_failed

abbrev pub library_message : String → ℤ → PyErr
library_message context (pos ℕ.zero) = connection_error (end_of_stream context)
library_message context z = connection_error (library_error context z)

-- The id of `basic.deliver`.
abbrev pub deliver_id : ℕ
deliver_id = 0x003c_003c

-- `PyRabbitMQ_HandleAMQError`, over the function that opens the channel again.
unfoldable pub handle_with : (ℕ → Cmd World Bool) → ℕ → RpcReply → String → Cmd World Status
unfolding conn_error chan_error
handle_with revive channel (normal d) context = pure fine
handle_with revive channel missing context =
    conn_error (connection_error (missing_rpc_reply context))
handle_with revive channel (library_exception z) context = conn_error (library_message context z)
handle_with revive channel (server_exception (connection_close code reason)) context =
    conn_error (connection_error (server_connection_error context code reason))
handle_with revive channel (server_exception (channel_close code reason)) context =
    chan_error revive channel (channel_error (server_channel_error context code reason))
handle_with revive channel (server_exception (other_method id)) context =
    conn_error (connection_error (unknown_server_error context id))
handle_with revive channel (server_exception (basic_deliver d)) context =
    conn_error (connection_error (unknown_server_error context deliver_id))

abbrev pub failed_status : Status → Bool
failed_status fine = false
failed_status connection_failed = true
failed_status channel_failed = true

-- `PyRabbitMQ_revive_channel`, over the function that creates a channel: whether it failed.
unfoldable pub revive_send : (ℕ → Cmd World Bool) → ℕ → ℤ → Cmd World Bool
unfolding close
revive_send create channel (negsuc n) =
    raise (connection_error (text "Couldn't revive channel")) >> close >> pure true
revive_send create channel (pos n) = create channel

unfoldable pub revive_with : (ℕ → Cmd World Bool) → ℕ → Cmd World Bool
unfolding revive_send
revive_with create channel = do
  call (channel_close_ok (as_channel channel))
  z ← next_status
  revive_send create channel z

-- `PyRabbitMQ_Connection_create_channel` with the replies that are to come. Each call takes one, so
-- the calls that it makes of itself, through the handler, end.
unfoldable pub create_on : List RpcReply → ℕ → Cmd World Bool
unfolding handle_with revive_with
create_on [] channel = do call (channel_open channel); call get_rpc_reply; waits
create_on (r ∷ rs) channel = do
  call (channel_open channel)
  call get_rpc_reply
  reply ← next_reply
  z ← handle_with (revive_with (create_on rs)) 0 reply "Couldn't create channel"
  pure (failed_status z)

unfoldable pub create_channel : ℕ → Cmd World Bool
unfolding create_on
create_channel channel w = create_on w.lib.replies channel w

unfoldable pub revive_channel : ℕ → Cmd World Bool
unfolding create_channel revive_with
revive_channel = revive_with create_channel

unfoldable pub handle_amq_error : ℕ → RpcReply → String → Cmd World Status
unfolding revive_channel handle_with
handle_amq_error = handle_with revive_channel
