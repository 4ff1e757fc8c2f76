-- ===== src/Basic.antt =====
-- The methods of connection.c whose arguments are numbers: `_basic_ack`, `_basic_reject`,
-- `_basic_qos`, `_flow` and `_basic_recover`. A method that returns NULL returns `none` here; `none`
-- for the arguments stands for arguments that do not parse.
pub mod Sound
pub mod Acknowledge
pub mod Keeps
use Prim.Native.String.{String}
use librabbitmq.Base.{ℕ, ◌%◌, ◌^◌, Bool, true, false, Option, none, some, Top}
use librabbitmq.Base.Int.{ℤ, to_uint64}
use librabbitmq.Base.Cmd.{Cmd, pure, ◌>>=◌, ◌>>◌}
use librabbitmq.World.{
  World, Call, basic_ack, basic_reject, basic_qos, channel_flow, basic_recover, get_rpc_reply,
  release_on_channel,
}
use librabbitmq.World.Calls.{call, next_status, next_reply}
use librabbitmq.Errors.{handle_error, revive_channel, handle_amq_error, failed_status}
use librabbitmq.Lifecycle.{guarded}

-- `channel`, `delivery_tag` and `multiple`.
pub record AckArgs : Type 0 where
  pub channel : ℕ
  pub delivery_tag : ℤ
  pub multiple : ℕ

-- `channel`, `prefetch_size`, `prefetch_count` and `_global`.
pub record QosArgs : Type 0 where
  pub channel : ℕ
  pub prefetch_size : ℤ
  pub prefetch_count : ℕ
  pub global : ℕ

-- `channel`, and `active` or `requeue`.
pub record FlagArgs : Type 0 where
  pub channel : ℕ
  pub flag : ℕ

-- A method is sent for which there is no answer; where that fails the channel is revived. Whether it
-- failed.
unfoldable pub send_or_revive : ℕ → Call → String → Cmd World Bool
unfolding handle_error revive_channel
send_or_revive channel c context = do
  call c
  ret ← next_status
  sent ← handle_error ret context
  elim sent [ true ↦ pure false | false ↦ revive_channel channel >> pure true ]

unfoldable pub ack_work : AckArgs → Cmd World Bool
unfolding send_or_revive
ack_work a =
    send_or_revive a.channel (basic_ack a.channel (to_uint64 a.delivery_tag) a.multiple) "basic.ack"

-- `PyRabbitMQ_Connection_basic_ack`.
unfoldable pub basic_ack_method : Option AckArgs → Cmd World (Option Top)
unfolding guarded ack_work
basic_ack_method args = guarded args ack_work

unfoldable pub reject_work : AckArgs → Cmd World Bool
unfolding send_or_revive
reject_work a =
    send_or_revive a.channel (basic_reject a.channel (to_uint64 a.delivery_tag) a.multiple)
      "basic.reject"

-- `PyRabbitMQ_Connection_basic_reject`.
unfoldable pub basic_reject_method : Option AckArgs → Cmd World (Option Top)
unfolding guarded reject_work
basic_reject_method args = guarded args reject_work

-- The library waits for the answer, and the code does not ask what it was. The numbers are cut to
-- `uint32_t` and `uint16_t`.
unfoldable pub qos_work : QosArgs → Cmd World Bool
qos_work a = do
  call (
      basic_qos a.channel (to_uint64 a.prefetch_size % 2 ^ 32) (a.prefetch_count % 2 ^ 16) a.global)
  reply ← next_reply
  pure false

-- `PyRabbitMQ_Connection_basic_qos`.
unfoldable pub basic_qos_method : Option QosArgs → Cmd World (Option Top)
unfolding guarded qos_work
basic_qos_method args = guarded args qos_work

-- A synchronous method: it is sent, its answer is asked for, the buffers of the channel are released,
-- and the answer is handled.
unfoldable pub request : ℕ → Call → String → Cmd World Bool
unfolding handle_amq_error
request channel c context = do
  call c
  call get_rpc_reply
  reply ← next_reply
  call (release_on_channel channel)
  z ← handle_amq_error channel reply context
  pure (failed_status z)

unfoldable pub flow_work : FlagArgs → Cmd World Bool
unfolding request
flow_work a = request a.channel (channel_flow a.channel a.flag) "channel.flow"

-- `PyRabbitMQ_Connection_flow`.
unfoldable pub flow_method : Option FlagArgs → Cmd World (Option Top)
unfolding guarded flow_work
flow_method args = guarded args flow_work

unfoldable pub recover_work : FlagArgs → Cmd World Bool
unfolding request
recover_work a = request a.channel (basic_recover a.channel a.flag) "basic.recover"

-- `PyRabbitMQ_Connection_basic_recover`.
unfoldable pub basic_recover_method : Option FlagArgs → Cmd World (Option Top)
unfolding guarded recover_work
basic_recover_method args = guarded args recover_work
