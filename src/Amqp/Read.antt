-- ===== src/Amqp/Read.antt =====
-- `AMQTable_toPyDict` and `AMQArray_toPyList` of connection.c. A new dict or list is always had.
pub mod RoundTrip
use librabbitmq.Base.{
  ℕ, Bool, true, false, ◌&&◌, Option, none, some, List, ◌==◌, if◌then◌else◌, list_eq,
}
use librabbitmq.Base.Int.{ℤ, pos}
use librabbitmq.Base.Cmd.{Cmd, ok, pure, fail, ◌>>=◌}
use librabbitmq.Py.{
  Py, PyVal, PyItems, PySeq, null, none_, bool, int, float, str, bytes, dict, list, tuple, other,
  nil, cons, end, item, unicode_decode_error, set_err,
}
use librabbitmq.Py.Text.{utf8_decode}
use librabbitmq.Amqp.{
  AmqpBytes, FieldValue, Entries, Values, no_entries, no_values, entry, value, void, boolean, i8,
  i16, i32, i64, u8, u16, u32, u64, f32, f64, utf8, table, array, unknown,
}

-- `PySTRING_FROM_AMQBYTES`: NULL, with an exception, where the bytes are not UTF-8.
unfoldable pub string_from_amqbytes : AmqpBytes → Cmd Py PyVal
string_from_amqbytes b s = elim (utf8_decode b.bytes) [
  | none ↦ ok null (set_err unicode_decode_error s)
  | some cs ↦ ok (str cs) s
]

-- `PyBool_FromLong`.
abbrev pub from_long : ℕ → Bool
from_long n = if n == 0 then false else true

-- Whether a key of a dict is this text.
unfoldable pub is_key : List ℕ → PyVal → Bool
is_key cs (str ds) = list_eq cs ds
is_key cs v = false

-- `PyDict_SetItem` at a text: an old pair keeps its place and its key, a new one comes last.
unfoldable pub set_item : PyItems → List ℕ → PyVal → PyItems
unfolding is_key
set_item nil cs v = cons (str cs) v nil
set_item (cons k w rest) cs v = if is_key cs k then cons k v rest else cons k w (set_item rest cs v)

-- `PyDICT_SETKV_DECREF`, or `PyDICT_SETNONE_DECREF` where the value is NULL or None. A NULL key is
-- followed by `PyDict_SetItem`.
unfoldable pub set_pair : PyItems → PyVal → PyVal → Cmd Py PyItems
unfolding set_item
set_pair d (str cs) null = pure (set_item d cs none_)
set_pair d (str cs) v = pure (set_item d cs v)
set_pair d key v = fail

unfoldable mutual
  unfolding string_from_amqbytes set_pair

  -- The switch of the table loop. A kind that it does not name leaves the value NULL.
  pub table_value : FieldValue → Cmd Py PyVal
  table_value void = pure none_
  table_value (boolean n) = pure (bool (from_long n))
  table_value (i8 z) = pure (int z)
  table_value (i16 z) = pure (int z)
  table_value (i32 z) = pure (int z)
  table_value (i64 z) = pure (int z)
  table_value (u8 n) = pure (int (pos n))
  table_value (u16 n) = pure (int (pos n))
  table_value (u32 n) = pure (int (pos n))
  table_value (u64 n) = pure (int (pos n))
  table_value (f32 d) = pure (float d)
  table_value (f64 d) = pure (float d)
  table_value (utf8 b) = string_from_amqbytes b
  table_value (table t) = do d ← dict_loop nil t; pure (dict d)
  table_value (array a) = do l ← list_loop a; pure (list l)
  table_value (unknown kind) = pure null

  pub dict_loop : PyItems → Entries → Cmd Py PyItems
  dict_loop d no_entries = pure d
  dict_loop d (entry k v rest) = do
    x ← table_value v
    key ← string_from_amqbytes k
    d' ← set_pair d key x
    dict_loop d' rest

  -- The switch of the array loop. A kind that it does not name, the void kind too, gives None.
  pub array_value : FieldValue → Cmd Py PyVal
  array_value (boolean n) = pure (bool (from_long n))
  array_value (i8 z) = pure (int z)
  array_value (i16 z) = pure (int z)
  array_value (i32 z) = pure (int z)
  array_value (i64 z) = pure (int z)
  array_value (u8 n) = pure (int (pos n))
  array_value (u16 n) = pure (int (pos n))
  array_value (u32 n) = pure (int (pos n))
  array_value (u64 n) = pure (int (pos n))
  array_value (f32 d) = pure (float d)
  array_value (f64 d) = pure (float d)
  array_value (utf8 b) = string_from_amqbytes b
  array_value (table t) = do d ← dict_loop nil t; pure (dict d)
  array_value (array a) = do l ← list_loop a; pure (list l)
  array_value v = pure none_

  -- A NULL that a text leaves stays in its slot.
  pub list_loop : Values → Cmd Py PySeq
  list_loop no_values = pure end
  list_loop (value v rest) = do x ← array_value v; xs ← list_loop rest; pure (item x xs)

unfoldable pub table_to_dict : Entries → Cmd Py PyItems
unfolding dict_loop
table_to_dict t = dict_loop nil t

unfoldable pub array_to_list : Values → Cmd Py PySeq
unfolding list_loop
array_to_list a = list_loop a
