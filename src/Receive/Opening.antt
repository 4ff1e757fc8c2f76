-- ===== src/Receive/Opening.antt =====
-- The first two frames of a message in `PyRabbitMQ_recv` of connection.c: the `basic.deliver` and the
-- header, and `PyRabbitMQ_SetErr_ReceivedFrame`. A loop takes a frame in each round and recurs on the
-- frames that are to come.
use librabbitmq.Base.{ℕ, List, [], ◌∷◌, Top, ◌==◌, if◌then◌else◌}
use librabbitmq.Base.Int.{ℤ, pos, negsuc}
use librabbitmq.Base.Cmd.{Cmd, pure, ◌>>=◌, ◌>>◌}
use librabbitmq.Py.{
  PyVal, PyItems, nil, connection_error, channel_error, channel_error_frame, connection_error_frame,
  text,
}
use librabbitmq.Amqp.Read.{string_from_amqbytes}
use librabbitmq.Message.{set_str, basic_properties_to_dict, basic_deliver_to_dict}
use librabbitmq.World.{
  World, Method, basic_deliver, channel_close, connection_close, other_method, Deliver, method,
  header, body, other_frame, Wait, failed, got, release_buffers, wait_frame, wait_frame_on_channel,
}
use librabbitmq.World.Calls.{lift, raise, call, next_frame, waits}
use librabbitmq.Errors.{close, set_err_unexpected_header, revive_channel}

-- `PyRabbitMQ_SetErr_ReceivedFrame`, of the channel and the method of a frame.
unfoldable pub set_err_received_frame : ℕ → Method → Cmd World Top
unfolding close revive_channel
set_err_received_frame channel (channel_close code reason) = do
  raise (channel_error (channel_error_frame code reason))
  b ← revive_channel channel
  pure tt
set_err_received_frame channel (connection_close code reason) =
    raise (connection_error (connection_error_frame code reason)) >> close
set_err_received_frame channel (basic_deliver d) = raise (connection_error (text "Bad frame read"))
set_err_received_frame channel (other_method i) = raise (connection_error (text "Bad frame read"))

-- A stage of the function goes on with a value, or jumps to `finally` with a result.
pub data Exit (A : Type 0) : Type 0 where
  go : A → Exit A
  finally : ℤ → Exit A

-- The labels `altframe` and `error`.
abbrev pub altframe : {A : Type 0} → ℕ → Method → Cmd World (Exit A)
altframe channel m = set_err_received_frame channel m >> pure (finally (negsuc 0))

-- What the first frame of a delivery gives: `cur_channel`, the consumer tag, `delivery_info`.
pub record Start : Type 0 where
  pub cur_channel : ℕ
  pub consumer_tag : PyVal
  pub delivery_info : PyItems

-- A `basic.deliver` that was read on a channel.
unfoldable pub deliver_start : ℕ → Deliver → Cmd World (Exit Start)
deliver_start channel deliver = do
  info ← lift (basic_deliver_to_dict nil deliver)
  tag ← lift (string_from_amqbytes deliver.consumer_tag)
  info' ← lift (set_str info "consumer_tag" tag)
  pure (go (record { cur_channel = channel; consumer_tag = tag; delivery_info = info' }))

-- A method that is no `basic.deliver` goes to `altframe`.
unfoldable pub first_method : ℕ → Method → Cmd World (Exit Start)
unfolding deliver_start set_err_received_frame
first_method channel (basic_deliver d) = deliver_start channel d
first_method channel (channel_close code reason) = altframe channel (channel_close code reason)
first_method channel (connection_close code reason) =
    altframe channel (connection_close code reason)
first_method channel (other_method i) = altframe channel (other_method i)

-- The first frame, over the next round of the loop.
unfoldable pub deliver_frame : Cmd World (Exit Start) → Wait → Cmd World (Exit Start)
unfolding first_method
deliver_frame again (failed n) = pure (finally (negsuc n))
deliver_frame again (got f) = elim f.payload [ method m ↦ first_method f.channel m | _ ↦ again ]

-- Frames that carry no method are skipped.
unfoldable pub deliver_on : List Wait → Cmd World (Exit Start)
unfolding deliver_frame
deliver_on [] = call release_buffers >> call wait_frame >> waits
deliver_on (x ∷ xs) = do
  call release_buffers
  call wait_frame
  y ← next_frame
  deliver_frame (deliver_on xs) y

-- The header gives the channel, the properties and the length of the body.
pub record Head : Type 0 where
  pub channel : ℕ
  pub propdict : PyItems
  pub body_target : ℕ

-- `AMQP_FRAME_BODY`.
abbrev pub frame_body : ℕ
frame_body = 3

unfoldable pub header_frame : Wait → Cmd World (Exit Head)
unfolding set_err_received_frame basic_properties_to_dict set_err_unexpected_header
header_frame (failed n) = pure (finally (negsuc n))
header_frame (got f) = elim f.payload [
  | method m ↦ altframe f.channel m
  | header props size ↦ (do
    propdict ← lift (basic_properties_to_dict props nil)
    pure (go (record { channel = f.channel; propdict = propdict; body_target = size })))
  | body bs ↦ (set_err_unexpected_header frame_body >> pure (finally (pos 0)))
  | other_frame t ↦ (set_err_unexpected_header t >> pure (finally (pos 0)))
]

unfoldable pub receive_header : ℕ → Cmd World (Exit Head)
unfolding header_frame
receive_header cur_channel = do
  if cur_channel == 0 then call wait_frame else call (wait_frame_on_channel cur_channel)
  x ← next_frame
  header_frame x
