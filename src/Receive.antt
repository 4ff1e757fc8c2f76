-- ===== src/Receive.antt =====
-- `PyRabbitMQ_recv` of connection.c, and the methods that call it: `_basic_recv` and `_basic_get`.
pub mod Opening
pub mod Fragments
pub mod Callback
pub mod Get
pub mod Assembly
pub mod Bodies
pub mod Delivered
pub mod Unexpected
pub mod Beyond
pub mod Waiting
pub mod Keeps
use librabbitmq.Base.{
  ℕ, zero, suc, ◌==◌, Bool, true, false, Option, none, some, Top, if◌then◌else◌, ◌||◌,
}
use librabbitmq.Base.Int.{ℤ, pos, negsuc}
use librabbitmq.Base.Cmd.{Cmd, ok, pure, fail, ◌>>=◌, ◌>>◌}
use librabbitmq.Py.{
  PyVal, PyItems, null, int, nil, err_occurred, type_error, connection_error, text,
}
use librabbitmq.Py.Held.{Object, maybe_unicode, xdecref_held}
use librabbitmq.Amqp.{AmqpBytes, string_as_amqbytes}
use librabbitmq.Message.{set_str, basic_deliver_to_dict}
use librabbitmq.World.{
  World, Deliver, Decoded, RpcReply, normal, get_ok, Body, Delivery, basic_get, data_in_buffer,
  frames_enqueued,
}
use librabbitmq.World.Calls.{lift, raise, call, next_reply, next_buffered, next_poll}
use librabbitmq.Errors.{
  not_connected, handle_poll_error, close, handle_amq_error, failed_status, raise_if_clear,
}
use Waiting.{Timeout, should_poll, wait_ready}
use Opening.{Exit, go, finally, Start, Head, deliver_on, receive_header}
use Fragments.{Content, Message, receive_body, payload_of, view_of}
use Callback.{apply_callback}

-- What `PyRabbitMQ_recv` gives: its result, and what it stored in `p`.
abbrev pub Received : Type 0
Received = ℤ × Option Message

-- A stage, and what follows unless it jumped to `finally`.
unfoldable pub on_go : {A : Type 0} → (A → Cmd World Received) → Exit A → Cmd World Received
on_go next (go a) = next a
on_go next (finally z) = pure (z, none)

-- With `piggyback` the `basic.deliver` is not waited for: there is no channel and no tag yet.
unfoldable pub receive_start : Bool → Cmd World (Exit Start)
unfolding deliver_on
receive_start true w =
    ok (go (record { cur_channel = 0; consumer_tag = null; delivery_info = nil })) w
receive_start false w = deliver_on w.lib.frames w

-- The end for a caller that gave `p`.
unfoldable pub store : Head → Content → Cmd World Received
unfolding payload_of
store h content = do
  payload ← payload_of h.body_target content
  elim payload [
    | none ↦ pure (negsuc 0, none)
    | some b ↦
        pure (pos 0, some (record { properties = h.propdict; body = b; channel = h.channel }))
  ]

-- The end for a caller that gave NULL.
unfoldable pub dispatch : Start → Head → Content → Cmd World Received
unfolding view_of apply_callback
dispatch s h content = elim (view_of h.body_target content) [
  | none ↦ pure (negsuc 0, none)
  | some b ↦ (do
    z ← apply_callback (record {
      channel = h.channel;
      consumer_tag = s.consumer_tag;
      properties = h.propdict;
      delivery_info = s.delivery_info;
      body = b;
    })
    pure (z, none))
]

-- `PyRabbitMQ_recv`, with `p` or without.
unfoldable pub recv : Bool → Bool → Cmd World Received
unfolding on_go receive_start receive_header receive_body store dispatch
recv into_p piggyback = do
  started ← receive_start piggyback
  on_go
      (λ s. do
        headed ← receive_header s.cur_channel
        on_go
            (λ h. do
              ended ← receive_body h
              on_go (λ content. if into_p then store h content else dispatch s h content) ended)
            headed)
      started

-- `AMQP_ACTIVE_BUFFERS`.
unfoldable pub active_buffers : Cmd World Bool
active_buffers = do
  call data_in_buffer
  data_ ← next_buffered
  elim data_ [ true ↦ pure true | false ↦ (do call frames_enqueued; next_buffered) ]

-- Whether to go on after the poll.
unfoldable pub polled : ℤ → Timeout → Cmd World Bool
unfolding active_buffers handle_poll_error wait_ready
polled sockfd timeout = elim (should_poll timeout) [
  | false ↦ pure true
  | true ↦ (do
    active ← active_buffers
    elim active [
      | true ↦ pure true
      | false ↦ (do
        ready ← wait_ready sockfd timeout
        z ← handle_poll_error ready
        elim z [ pos zero ↦ pure false | pos (suc n) ↦ pure true | negsuc n ↦ pure false ])
    ])
]

-- A result below 0 closes the connection, with an exception at hand.
unfoldable pub received : {A : Type 0} → ℤ → A → Cmd World (Option A)
unfolding close
received (pos n) a = pure (some a)
received (negsuc n) a =
    raise_if_clear (connection_error (text "Bad frame read")) >> close >> pure none

abbrev receive_one : Cmd World (Option Top)
receive_one = do r ← recv false false; received r.0 tt

-- `PyRabbitMQ_Connection_basic_recv`; `none` stands for arguments that do not parse.
unfoldable pub basic_recv : Option Timeout → Cmd World (Option Top)
unfolding not_connected polled recv received
basic_recv args = do
  refused ← not_connected
  if refused then pure none else elim args [
    | none ↦ raise type_error >> pure none
    | some timeout ↦ (do
      go_on ← (λ w. polled w.self.sockfd timeout w)
      if go_on then receive_one else pure none)
  ]
