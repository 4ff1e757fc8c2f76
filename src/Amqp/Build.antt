-- ===== src/Amqp/Build.antt =====
-- `PyDict_ToAMQTable` and `PyIter_ToAMQArray` of connection.c. The pool's allocation and the
-- temporary objects of CPython succeed; `assert` is compiled out, as in a release build.
use librabbitmq.Base.{
  ℕ, suc, ◌-◌, ◌^◌, Bool, true, false, Option, none, some, List, ◌==◌, if◌then◌else◌, Top,
}
use librabbitmq.Base.Int.{ℤ, pos, as_int64, to_uint64}
use librabbitmq.Base.Cmd.{Cmd, ok, pure, modify, ◌>>=◌, ◌>>◌}
use librabbitmq.Py.{
  Py, PyVal, PyItems, PySeq, null, none_, bool, int, float, str, bytes, dict, list, tuple, other,
  nil, cons, end, item, value_error, overflow_error, unicode_encode_error, system_error, set_err,
  new_ref, xdecref,
}
use librabbitmq.Py.Text.{ascii_encode, utf8_encode}
use librabbitmq.Py.Held.{Object, borrowed, created, keep_bytes, maybe_unicode}
use librabbitmq.Amqp.{Entries, Values, no_entries, no_values, string_as_amqbytes}
use librabbitmq.Amqp.Table
use librabbitmq.Amqp.Array

-- `PyDict_Size` and `PySequence_Size`.
abbrev pub dict_size : PyItems → ℕ
dict_size nil = 0
dict_size (cons k v rest) = suc (dict_size rest)

abbrev pub seq_size : PySeq → ℕ
seq_size end = 0
seq_size (item v rest) = suc (seq_size rest)

-- The bit pattern of -1.0.
abbrev pub minus_one : ℕ
minus_one = 0xbff0_0000_0000_0000

-- `(int64_t)PyLong_AsLong(v)` in a `uint64_t`: -1 with an exception where the value does not fit.
abbrev pub long_value : ℤ → Cmd Py ℕ
long_value z s = elim (as_int64 z) [
  | none ↦ ok (2 ^ 64 - 1) (set_err overflow_error s)
  | some n ↦ ok (to_uint64 n) s
]

-- `Py_True` is 1.
abbrev pub truth : Bool → ℕ
truth true = 1
truth false = 0

-- How an item ends: the loop goes on with the container, or jumps to the error label.
pub data Flow (A : Type 0) : Type 0 where
  next : A → Flow A
  error : Flow A

abbrev pub go_on : {A : Type 0} → Cmd Py A → Cmd Py (Flow A)
go_on m = do a ← m; pure (next a)

-- The branch `Int | Long` of the table loop.
unfoldable pub table_int : ℕ → Entries → Object → ℤ → Cmd Py (Flow Entries)
unfolding string_as_amqbytes Table.set_int_value
table_int room dst dkey z = do
  clong_value ← long_value z
  if clong_value == 2 ^ 64 - 1
      then pure error
      else go_on (do key ← string_as_amqbytes dkey; Table.set_int_value room dst key clong_value)

-- The branch of a float.
unfoldable pub table_float : ℕ → Entries → Object → ℕ → Cmd Py (Flow Entries)
unfolding string_as_amqbytes Table.set_double_value
table_float room dst dkey d =
    if d == minus_one
    then pure error
    else go_on (do key ← string_as_amqbytes dkey; Table.set_double_value room dst key d)

-- The branch `String | Unicode`, on a bytes object.
unfoldable pub table_string : ℕ → Entries → Object → Object → Cmd Py (Flow Entries)
unfolding string_as_amqbytes Table.set_string_value
table_string room dst dkey dvalue = go_on (do
  key ← string_as_amqbytes dkey
  v ← string_as_amqbytes dvalue
  Table.set_string_value room dst key v)

-- The same branch on a text, which is encoded first and kept.
unfoldable pub table_text : ℕ → Entries → Object → List ℕ → Cmd Py (Flow Entries)
unfolding table_string
table_text room dst dkey cs s = elim (utf8_encode cs) [
  | none ↦ ok error (set_err unicode_encode_error s)
  | some bs ↦ (do v ← keep_bytes bs; table_string room dst dkey v) s
]

-- The branch of an unsupported type, whose message reads the key.
unfoldable pub table_unsupported : Object → Cmd Py (Flow Entries)
unfolding string_as_amqbytes
table_unsupported dkey = do key ← string_as_amqbytes dkey; modify (set_err value_error); pure error

-- `PyLong_AsLongLong(v)` of an item; an overflow stores -1 and goes on.
unfoldable pub array_int : ℕ → Values → ℤ → Cmd Py (Flow Values)
unfolding Array.set_int_value
array_int room dst z =
    go_on (do clong_value ← long_value z; Array.set_int_value room dst clong_value)

-- The branch `String | Unicode` of the array loop, on a bytes object.
unfoldable pub array_string : ℕ → Values → Object → Cmd Py (Flow Values)
unfolding string_as_amqbytes Array.set_string_value
array_string room dst o = go_on (do v ← string_as_amqbytes o; Array.set_string_value room dst v)

-- What one round of the array loop leaves: how it ends, and the references `item_tmp` and `item`.
pub record Round : Type 0 where
  pub flow : Flow Values
  pub item_tmp : Option ℕ
  pub current : Option ℕ

abbrev pub round : Flow Values → Option ℕ → Option ℕ → Round
round f tmp i = record { flow = f; item_tmp = tmp; current = i }

abbrev pub xdecref_maybe : Option ℕ → Cmd Py Top
xdecref_maybe none = pure tt
xdecref_maybe (some i) = xdecref i

-- The labels `item_error` and `error`.
abbrev pub item_error : {A : Type 0} → A → Option ℕ → Option ℕ → ℕ → Cmd Py A
item_error dst tmp current iterator = do
  xdecref_maybe tmp
  xdecref_maybe current
  xdecref iterator
  pure dst

-- The array's branch of a text: the new object takes the place of `item`, which stays in
-- `item_tmp` after its reference has been given back.
unfoldable pub array_text : ℕ → Values → ℕ → List ℕ → Cmd Py Round
unfolding array_string
array_text room dst i cs s = elim (ascii_encode cs) [
  | none ↦ ok (round error (some i) none) (set_err unicode_encode_error s)
  | some bs ↦
      (do
        j ← new_ref
        xdecref i
        f ← array_string room dst (created (bytes bs) j)
        pure (round f (some i) (some j)))
        s
]

-- A branch that leaves the references alone.
abbrev pub plain : Option ℕ → ℕ → Cmd Py (Flow Values) → Cmd Py Round
plain tmp i m = do f ← m; pure (round f tmp (some i))

abbrev pub array_unsupported : Option ℕ → ℕ → Cmd Py Round
array_unsupported tmp i = modify (set_err value_error) >> pure (round error tmp (some i))

-- The loops, and the branches of one round. A nested call allocates for its own container, and an
-- array's starts with an iterator of its own.
unfoldable mutual
  unfolding string_as_amqbytes table_int table_float table_string table_text table_unsupported
      array_int array_string array_text maybe_unicode Table.set_nil_value Table.set_table_value
      Table.set_array_value Table.set_bool_value Array.set_nil_value Array.set_table_value
      Array.set_array_value

  pub table_item : ℕ → Entries → Object → PyVal → Cmd Py (Flow Entries)
  table_item room dst dkey none_ =
      go_on (do key ← string_as_amqbytes dkey; Table.set_nil_value room dst key)
  table_item room dst dkey (dict d) = go_on (do
    t ← table_loop (dict_size d) no_entries d
    key ← string_as_amqbytes dkey
    Table.set_table_value room dst key t)
  table_item room dst dkey (list sq) = go_on (do
    iterator ← new_ref
    a ← array_loop (seq_size sq) iterator none no_values sq
    key ← string_as_amqbytes dkey
    Table.set_array_value room dst key a)
  table_item room dst dkey (tuple sq) = go_on (do
    iterator ← new_ref
    a ← array_loop (seq_size sq) iterator none no_values sq
    key ← string_as_amqbytes dkey
    Table.set_array_value room dst key a)
  table_item room dst dkey (bool b) =
      go_on (do key ← string_as_amqbytes dkey; Table.set_bool_value room dst key (truth b))
  table_item room dst dkey (int z) = table_int room dst dkey z
  table_item room dst dkey (float d) = table_float room dst dkey d
  table_item room dst dkey (str cs) = table_text room dst dkey cs
  table_item room dst dkey (bytes bs) = table_string room dst dkey (borrowed (bytes bs))
  table_item room dst dkey other = table_unsupported dkey
  table_item room dst dkey null = table_unsupported dkey

  -- The error label returns `amqp_empty_table`, whatever has been filled in.
  pub table_loop : ℕ → Entries → PyItems → Cmd Py Entries
  table_loop room dst nil = pure dst
  table_loop room dst (cons k v rest) = do
    dkey ← maybe_unicode k
    f ← table_item room dst dkey v
    elim f [ next dst' ↦ table_loop room dst' rest | error ↦ pure no_entries ]

  pub array_item : ℕ → Values → Option ℕ → ℕ → PyVal → Cmd Py Round
  array_item room dst tmp i none_ = plain tmp i (go_on (Array.set_nil_value room dst))
  array_item room dst tmp i (dict d) =
      plain tmp i
        (go_on (do t ← table_loop (dict_size d) no_entries d; Array.set_table_value room dst t))
  array_item room dst tmp i (list sq) = plain tmp i (
      go_on (do
        iterator ← new_ref
        a ← array_loop (seq_size sq) iterator none no_values sq
        Array.set_array_value room dst a))
  array_item room dst tmp i (tuple sq) = plain tmp i (
      go_on (do
        iterator ← new_ref
        a ← array_loop (seq_size sq) iterator none no_values sq
        Array.set_array_value room dst a))
  array_item room dst tmp i (bool b) = plain tmp i (array_int room dst (pos (truth b)))
  array_item room dst tmp i (int z) = plain tmp i (array_int room dst z)
  array_item room dst tmp i (str cs) = array_text room dst i cs
  array_item room dst tmp i (bytes bs) = plain tmp i (array_string room dst (borrowed (bytes bs)))
  array_item room dst tmp i (float d) = array_unsupported tmp i
  array_item room dst tmp i other = array_unsupported tmp i
  array_item room dst tmp i null = array_unsupported tmp i

  -- The error label returns the array as far as it has been filled.
  pub array_loop : ℕ → ℕ → Option ℕ → Values → PySeq → Cmd Py Values
  array_loop room iterator tmp dst end = pure dst
  array_loop room iterator tmp dst (item v rest) = do
    i ← new_ref
    r ← array_item room dst tmp i v
    elim r.flow [
      | next dst' ↦ xdecref_maybe r.current >> array_loop room iterator r.item_tmp dst' rest
      | error ↦ item_error dst r.item_tmp r.current iterator
    ]

-- `PyDict_ToAMQTable`. What is no dict has no size and no pairs: CPython's exception is set.
unfoldable pub dict_to_table : PyVal → Cmd Py Entries
unfolding table_loop
dict_to_table (dict d) = table_loop (dict_size d) no_entries d
dict_to_table v = modify (set_err system_error) >> pure no_entries

-- `PyIter_ToAMQArray` of a list or a tuple.
unfoldable pub iter_to_array : PySeq → Cmd Py Values
unfolding array_loop
iter_to_array sq = do iterator ← new_ref; array_loop (seq_size sq) iterator none no_values sq
