-- ===== src/Message.antt =====
-- What a received message is turned into: `basic_properties_to_PyDict` and
-- `amqp_basic_deliver_to_PyDict` of connection.c.
pub mod Items
pub mod Dict
use Prim.Native.String.{String}
use librabbitmq.Base.{ℕ, ◌-◌, ◌^◌, Option, none, some, ltb, if◌then◌else◌}
use librabbitmq.Base.Int.{ℤ, pos, negsuc}
use librabbitmq.Base.Cmd.{Cmd, pure, fail, ◌>>=◌}
use librabbitmq.Py.{Py, PyVal, PyItems, null, bool, int, dict}
use librabbitmq.Py.Text.{codes}
use librabbitmq.Amqp.{AmqpBytes, Entries}
use librabbitmq.Amqp.Read.{string_from_amqbytes, from_long, set_item, table_to_dict}
use librabbitmq.World.{BasicProperties, Deliver}

-- `PyDICT_SETSTR_DECREF`, which follows a NULL value.
unfoldable pub set_str : PyItems → String → PyVal → Cmd Py PyItems
set_str d name null = fail
set_str d name v = pure (set_item d (codes name) v)

-- A number of up to 64 bits without a sign, passed as `long` or `long long`.
abbrev pub as_long_long : ℕ → ℤ
as_long_long n = if ltb n (2 ^ 63) then pos n else negsuc (2 ^ 64 - 1 - n)

-- A text, a number and a table, where their flags are set.
unfoldable pub put_string : Option AmqpBytes → String → PyItems → Cmd Py PyItems
unfolding set_str string_from_amqbytes
put_string none name d = pure d
put_string (some b) name d = do v ← string_from_amqbytes b; set_str d name v

unfoldable pub put_int : Option ℕ → String → PyItems → Cmd Py PyItems
unfolding set_str
put_int none name d = pure d
put_int (some n) name d = set_str d name (int (as_long_long n))

unfoldable pub put_table : Option Entries → String → PyItems → Cmd Py PyItems
unfolding set_str table_to_dict
put_table none name d = pure d
put_table (some t) name d = do h ← table_to_dict t; set_str d name (dict h)

-- `basic_properties_to_PyDict`. A timestamp of `2 ^ 63` or more comes out below 0.
unfoldable pub basic_properties_to_dict : BasicProperties → PyItems → Cmd Py PyItems
unfolding put_string put_int put_table
basic_properties_to_dict props p = do
  p1 ← put_string props.content_type "content_type" p
  p2 ← put_string props.content_encoding "content_encoding" p1
  p3 ← put_string props.correlation_id "correlation_id" p2
  p4 ← put_string props.reply_to "reply_to" p3
  p5 ← put_string props.expiration "expiration" p4
  p6 ← put_string props.message_id "message_id" p5
  p7 ← put_string props.type "type" p6
  p8 ← put_string props.user_id "user_id" p7
  p9 ← put_string props.app_id "app_id" p8
  p10 ← put_int props.delivery_mode "delivery_mode" p9
  p11 ← put_int props.priority "priority" p10
  p12 ← put_int props.timestamp "timestamp" p11
  put_table props.headers "headers" p12

-- `amqp_basic_deliver_to_PyDict`.
unfoldable pub basic_deliver_to_dict : PyItems → Deliver → Cmd Py PyItems
unfolding set_str string_from_amqbytes
basic_deliver_to_dict dest deliver = do
  d1 ← set_str dest "delivery_tag" (int (as_long_long deliver.delivery_tag))
  exchange ← string_from_amqbytes deliver.exchange
  d2 ← set_str d1 "exchange" exchange
  routing_key ← string_from_amqbytes deliver.routing_key
  d3 ← set_str d2 "routing_key" routing_key
  set_str d3 "redelivered" (bool (from_long deliver.redelivered))
