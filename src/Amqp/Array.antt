-- ===== src/Amqp/Array.antt =====
-- The setters of an array (connection.c, "AMQP Utils"), with the bound of `Amqp.Table`.
use librabbitmq.Base.{ℕ, ltb, if◌then◌else◌}
use librabbitmq.Base.Int.{to_int32}
use librabbitmq.Base.Cmd.{Cmd, pure, fail}
use librabbitmq.Py.{Py}
use librabbitmq.Amqp.{
  AmqpBytes, FieldValue, Entries, Values, no_values, value, num_values, append_values, void, i32,
  utf8, table, array,
}

-- `AMQArray_AddEntry`, and the store through the pointer that it returns.
unfoldable pub add_entry : ℕ → Values → FieldValue → Cmd Py Values
add_entry room dst v =
    if ltb (num_values dst) room then pure (append_values dst (value v no_values)) else fail

unfoldable pub set_nil_value : ℕ → Values → Cmd Py Values
unfolding add_entry
set_nil_value room dst = add_entry room dst void

unfoldable pub set_table_value : ℕ → Values → Entries → Cmd Py Values
unfolding add_entry
set_table_value room dst v = add_entry room dst (table v)

unfoldable pub set_array_value : ℕ → Values → Values → Cmd Py Values
unfolding add_entry
set_array_value room dst v = add_entry room dst (array v)

unfoldable pub set_string_value : ℕ → Values → AmqpBytes → Cmd Py Values
unfolding add_entry
set_string_value room dst v = add_entry room dst (utf8 v)

-- The argument is a `uint64_t` that the parameter's type `int` cuts.
unfoldable pub set_int_value : ℕ → Values → ℕ → Cmd Py Values
unfolding add_entry
set_int_value room dst u = add_entry room dst (i32 (to_int32 u))
