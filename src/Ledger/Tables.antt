-- ===== src/Ledger/Tables.antt =====
-- `PyObjectArray_Maybe_Unicode` and `PyDict_ToAMQTable` with the references that they create, on
-- every path, the failing ones included.
use librabbitmq.Base.{ℕ, ◌∙◌, ◌-◌, ◌^◌, ◌==◌, ltb, Option, none, some, List}
use librabbitmq.Base.Int.{ℤ, as_int64, to_uint64}
use librabbitmq.Base.Cmd.{ok, Cmd, pure, modify, ◌>>=◌, ◌>>◌}
use librabbitmq.Base.Keeps.{Keeps, Keeps-pure, Keeps-fail, Keeps-bind, Keeps-then, Keeps-if}
use librabbitmq.Py.{
  Py, PyErr, PyVal, PyItems, null, none_, bool, int, float, str, bytes, dict, list, tuple, other,
  nil, cons, set_err, unicode_encode_error, overflow_error, value_error, system_error,
}
use librabbitmq.Py.Text.{ascii_encode, utf8_encode}
use librabbitmq.Py.Held.{Object, borrowed, keep_bytes, keep_ascii, maybe_unicode}
use librabbitmq.Py.Held.Laws.{keep_bytes-IsBalanced}
use librabbitmq.Amqp.{AmqpBytes, Entries, FieldValue, no_entries, num_entries, string_as_amqbytes}
use librabbitmq.Amqp.Table
use librabbitmq.Amqp.Build.{
  Flow, next, error, go_on, long_value, minus_one, dict_size, table_int, table_float, table_string,
  table_text, table_unsupported, table_item, table_loop, dict_to_table,
}
use librabbitmq.Ledger.{IsKept, HasNoList, HaveNoList}

module _ (base : ℕ → ℕ) (excess : ℕ) where
  abbrev Kept : Py → Type 0
  Kept = IsKept base excess

  pub kept_err : (e : PyErr) (s : Py) → Kept s → Kept (set_err e s)
  kept_err e s h = (record { balance = h.0.balance; packed = h.0.packed }, h.1)

  pub set_err-Keeps : (e : PyErr) → Keeps Kept (modify (set_err e))
  set_err-Keeps e = record { at = λ s h. kept_err e s h }

  keep_bytes-Keeps : (bs : List ℕ) → Keeps Kept (keep_bytes bs)
  keep_bytes-Keeps bs = record {
    at = λ s h. let r = keep_bytes-IsBalanced base s bs h.0 in (r.0, r.2 ∙ h.1);
  }

  keep_ascii-Keeps : (cs : List ℕ) → Keeps Kept (keep_ascii cs)
  unfolding keep_ascii
  keep_ascii-Keeps cs = encoded (ascii_encode cs)
    where
      encoded :
          (o : Option (List ℕ))
          → Keeps {A = Object} Kept (λ s. elim o [
            | none ↦ ok (borrowed null) (set_err unicode_encode_error s)
            | some bs ↦ keep_bytes bs s
          ])
      encoded none = record { at = λ s h. kept_err _ s h }
      encoded (some bs) = record { at = λ s h. (keep_bytes-Keeps bs).at s h }

  pub maybe_unicode-Keeps : (v : PyVal) → Keeps Kept (maybe_unicode v)
  unfolding maybe_unicode
  maybe_unicode-Keeps (str cs) = keep_ascii-Keeps cs
  maybe_unicode-Keeps null = Keeps-pure _
  maybe_unicode-Keeps none_ = Keeps-pure _
  maybe_unicode-Keeps (bool b) = Keeps-pure _
  maybe_unicode-Keeps (int z) = Keeps-pure _
  maybe_unicode-Keeps (float d) = Keeps-pure _
  maybe_unicode-Keeps (bytes bs) = Keeps-pure _
  maybe_unicode-Keeps (dict d) = Keeps-pure _
  maybe_unicode-Keeps (list d) = Keeps-pure _
  maybe_unicode-Keeps (tuple d) = Keeps-pure _
  maybe_unicode-Keeps other = Keeps-pure _

  bytes_of :
      (v : PyVal) (i : Option ℕ) → Keeps Kept (string_as_amqbytes (record { value = v; ref = i }))
  unfolding string_as_amqbytes
  bytes_of (bytes bs) i = Keeps-pure _
  bytes_of null i = Keeps-fail
  bytes_of none_ i = Keeps-fail
  bytes_of (bool b) i = Keeps-fail
  bytes_of (int z) i = Keeps-fail
  bytes_of (float d) i = Keeps-fail
  bytes_of (str cs) i = Keeps-fail
  bytes_of (dict d) i = Keeps-fail
  bytes_of (list d) i = Keeps-fail
  bytes_of (tuple d) i = Keeps-fail
  bytes_of other i = Keeps-fail

  pub string_as_amqbytes-Keeps : (o : Object) → Keeps Kept (string_as_amqbytes o)
  string_as_amqbytes-Keeps o = bytes_of o.value o.ref

  add_entry-Keeps :
      (room : ℕ) (dst : Entries) (key : AmqpBytes) (v : FieldValue)
      → Keeps Kept (Table.add_entry room dst key v)
  unfolding Table.add_entry
  add_entry-Keeps room dst key v =
      Keeps-if (ltb (num_entries dst) room) _ _ (Keeps-pure _) Keeps-fail

  -- A setter behind the bytes of the key.
  keyed-Keeps :
      (dkey : Object) (set : AmqpBytes → Cmd Py Entries)
      → ((key : AmqpBytes) → Keeps Kept (set key))
      → Keeps Kept (go_on (string_as_amqbytes dkey >>= set))
  keyed-Keeps dkey set k =
      Keeps-bind _ _ (Keeps-bind _ _ (string_as_amqbytes-Keeps dkey) k) (λ t. Keeps-pure _)

  pub long_value-Keeps : (z : ℤ) → Keeps Kept (long_value z)
  long_value-Keeps z = fitting (as_int64 z)
    where
      fitting :
          (o : Option ℤ)
          → Keeps {A = ℕ} Kept (λ s. elim o [
            | none ↦ ok (2 ^ 64 - 1) (set_err overflow_error s)
            | some n ↦ ok (to_uint64 n) s
          ])
      fitting none = record { at = λ s h. kept_err _ s h }
      fitting (some n) = record { at = λ s h. h }

  table_int-Keeps :
      (room : ℕ) (dst : Entries) (dkey : Object) (z : ℤ) → Keeps Kept (table_int room dst dkey z)
  unfolding table_int Table.set_int_value
  table_int-Keeps room dst dkey z = Keeps-bind _ _ (long_value-Keeps z) (λ n.
      Keeps-if (n == 2 ^ 64 - 1) _ _ (Keeps-pure _)
        (keyed-Keeps dkey _ (λ key. add_entry-Keeps room dst key _)))

  table_float-Keeps :
      (room : ℕ) (dst : Entries) (dkey : Object) (d : ℕ) → Keeps Kept (table_float room dst dkey d)
  unfolding table_float Table.set_double_value
  table_float-Keeps room dst dkey d =
      Keeps-if (d == minus_one) _ _ (Keeps-pure _)
        (keyed-Keeps dkey _ (λ key. add_entry-Keeps room dst key _))

  table_string-Keeps :
      (room : ℕ) (dst : Entries) (dkey dvalue : Object)
      → Keeps Kept (table_string room dst dkey dvalue)
  unfolding table_string Table.set_string_value
  table_string-Keeps room dst dkey dvalue = keyed-Keeps dkey _ (λ key.
      Keeps-bind _ _ (string_as_amqbytes-Keeps dvalue) (λ v. add_entry-Keeps room dst key _))

  table_text-Keeps :
      (room : ℕ) (dst : Entries) (dkey : Object) (cs : List ℕ)
      → Keeps Kept (table_text room dst dkey cs)
  unfolding table_text
  table_text-Keeps room dst dkey cs = encoded (utf8_encode cs)
    where
      encoded :
          (o : Option (List ℕ))
          → Keeps {A = Flow Entries} Kept (λ s. elim o [
            | none ↦ ok error (set_err unicode_encode_error s)
            | some bs ↦ (do v ← keep_bytes bs; table_string room dst dkey v) s
          ])
      encoded none = record { at = λ s h. kept_err _ s h }
      encoded (some bs) =
          Keeps-bind _ _ (keep_bytes-Keeps bs) (λ v. table_string-Keeps room dst dkey v)

  table_unsupported-Keeps : (dkey : Object) → Keeps Kept (table_unsupported dkey)
  unfolding table_unsupported
  table_unsupported-Keeps dkey =
      Keeps-bind _ _ (string_as_amqbytes-Keeps dkey)
        (λ key. Keeps-then _ _ (set_err-Keeps value_error) (Keeps-pure _))

  -- How a round ends, over the rounds to come.
  flowing :
      (room : ℕ) (f : Flow Entries) (rest : PyItems)
      → ((dst' : Entries) → Keeps Kept (table_loop room dst' rest))
      → Keeps {A = Entries} Kept
          (elim f [ next dst' ↦ table_loop room dst' rest | error ↦ pure no_entries ])
  flowing room (next dst') rest k = k dst'
  flowing room error rest k = Keeps-pure _

  mutual
    unfolding table_item table_loop HasNoList HaveNoList Table.set_nil_value Table.set_bool_value
        Table.set_table_value

    table_item-Keeps :
        (room : ℕ) (dst : Entries) (dkey : Object) (v : PyVal)
        → HasNoList v
        → Keeps Kept (table_item room dst dkey v)
    table_item-Keeps room dst dkey none_ n =
        keyed-Keeps dkey _ (λ key. add_entry-Keeps room dst key _)
    table_item-Keeps room dst dkey (dict d) n =
        Keeps-bind _ _
          (Keeps-bind _ _ (table_loop-Keeps (dict_size d) no_entries d n) (λ t.
            Keeps-bind _ _ (string_as_amqbytes-Keeps dkey) (λ key. add_entry-Keeps room dst key _)))
          (λ t. Keeps-pure _)
    table_item-Keeps room dst dkey (list d) n = absurd n
    table_item-Keeps room dst dkey (tuple d) n = absurd n
    table_item-Keeps room dst dkey (bool b) n =
        keyed-Keeps dkey _ (λ key. add_entry-Keeps room dst key _)
    table_item-Keeps room dst dkey (int z) n = table_int-Keeps room dst dkey z
    table_item-Keeps room dst dkey (float d) n = table_float-Keeps room dst dkey d
    table_item-Keeps room dst dkey (str cs) n = table_text-Keeps room dst dkey cs
    table_item-Keeps room dst dkey (bytes bs) n =
        table_string-Keeps room dst dkey (borrowed (bytes bs))
    table_item-Keeps room dst dkey other n = table_unsupported-Keeps dkey
    table_item-Keeps room dst dkey null n = table_unsupported-Keeps dkey

    table_loop-Keeps :
        (room : ℕ) (dst : Entries) (d : PyItems) → HaveNoList d → Keeps Kept (table_loop room dst d)
    table_loop-Keeps room dst nil n = Keeps-pure _
    table_loop-Keeps room dst (cons k v rest) n = Keeps-bind _ _ (maybe_unicode-Keeps k) (λ dkey.
        Keeps-bind _ _ (table_item-Keeps room dst dkey v n.0)
          (λ f. flowing room f rest (λ dst'. table_loop-Keeps room dst' rest n.1)))

  failing : Keeps {A = Entries} Kept (modify (set_err system_error) >> pure no_entries)
  failing = Keeps-then _ _ (set_err-Keeps system_error) (Keeps-pure _)

  pub dict_to_table-Keeps : (v : PyVal) → HasNoList v → Keeps Kept (dict_to_table v)
  unfolding dict_to_table HasNoList
  dict_to_table-Keeps (dict d) n = table_loop-Keeps (dict_size d) no_entries d n
  dict_to_table-Keeps null n = failing
  dict_to_table-Keeps none_ n = failing
  dict_to_table-Keeps (bool b) n = failing
  dict_to_table-Keeps (int z) n = failing
  dict_to_table-Keeps (float d) n = failing
  dict_to_table-Keeps (str cs) n = failing
  dict_to_table-Keeps (bytes bs) n = failing
  dict_to_table-Keeps (list d) n = failing
  dict_to_table-Keeps (tuple d) n = failing
  dict_to_table-Keeps other n = failing
