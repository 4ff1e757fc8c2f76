-- ===== src/Amqp/Table.antt =====
-- The setters of a table (connection.c, "AMQP Utils"). A table under construction is the number of
-- entries that were allocated and the entries so far; a write behind the allocation is a crash.
use librabbitmq.Base.{ℕ, ltb, if◌then◌else◌}
use librabbitmq.Base.Int.{to_int32}
use librabbitmq.Base.Cmd.{Cmd, pure, fail}
use librabbitmq.Py.{Py}
use librabbitmq.Amqp.{
  AmqpBytes, FieldValue, Entries, Values, no_entries, entry, num_entries, append_entries, void,
  boolean, i32, f64, utf8, table, array,
}

-- `AMQTable_AddEntry`, and the store through the pointer that it returns.
unfoldable pub add_entry : ℕ → Entries → AmqpBytes → FieldValue → Cmd Py Entries
add_entry room dst key v =
    if ltb (num_entries dst) room then pure (append_entries dst (entry key v no_entries)) else fail

unfoldable pub set_table_value : ℕ → Entries → AmqpBytes → Entries → Cmd Py Entries
unfolding add_entry
set_table_value room dst key v = add_entry room dst key (table v)

unfoldable pub set_array_value : ℕ → Entries → AmqpBytes → Values → Cmd Py Entries
unfolding add_entry
set_array_value room dst key v = add_entry room dst key (array v)

unfoldable pub set_string_value : ℕ → Entries → AmqpBytes → AmqpBytes → Cmd Py Entries
unfolding add_entry
set_string_value room dst key v = add_entry room dst key (utf8 v)

unfoldable pub set_bool_value : ℕ → Entries → AmqpBytes → ℕ → Cmd Py Entries
unfolding add_entry
set_bool_value room dst key v = add_entry room dst key (boolean v)

-- The argument is a `uint64_t` that the parameter's type `int` cuts.
unfoldable pub set_int_value : ℕ → Entries → AmqpBytes → ℕ → Cmd Py Entries
unfolding add_entry
set_int_value room dst key u = add_entry room dst key (i32 (to_int32 u))

unfoldable pub set_nil_value : ℕ → Entries → AmqpBytes → Cmd Py Entries
unfolding add_entry
set_nil_value room dst key = add_entry room dst key void

unfoldable pub set_double_value : ℕ → Entries → AmqpBytes → ℕ → Cmd Py Entries
unfolding add_entry
set_double_value room dst key v = add_entry room dst key (f64 v)
