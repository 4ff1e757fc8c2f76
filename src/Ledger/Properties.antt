-- ===== src/Ledger/Properties.antt =====
-- `PyDict_to_basic_properties` with the references that it creates, on every path.
use Prim.Native.String.{String}
use librabbitmq.Base.{ℕ, ◌%◌, ◌^◌, Bool, true, false, Option, none, some, List, Top, if◌then◌else◌}
use librabbitmq.Base.Cmd.{ok, Cmd, pure, ◌>>=◌, Ensures}
use librabbitmq.Base.Keeps.{Keeps, Keeps-pure, Keeps-bind, Keeps-then}
use librabbitmq.Py.{
  Py, PyVal, PyItems, null, none_, bool, int, float, str, bytes, dict, list, tuple, other, nil,
  cons, err_occurred, type_error, system_error,
}
use librabbitmq.Py.Text.{codes}
use librabbitmq.Py.Held.{maybe_unicode}
use librabbitmq.Amqp.{AmqpBytes, Entries, no_entries}
use librabbitmq.Amqp.Build.{dict_to_table}
use librabbitmq.Amqp.Read.{is_key}
use librabbitmq.World.{BasicProperties}
use librabbitmq.Receive.Callback.{get_item}
use librabbitmq.Publish.Properties.{
  items_of, texts, encoded_field, text_field, as_long, number_field, headers_field,
  rest_of_properties, dict_to_basic_properties,
}
use librabbitmq.Ledger.{IsKept, HasNoList, HaveNoList}
use librabbitmq.Ledger.Tables.{
  set_err-Keeps, maybe_unicode-Keeps, string_as_amqbytes-Keeps, long_value-Keeps,
  dict_to_table-Keeps,
}

-- What `PyDict_GetItemString` finds.
abbrev Found : Option PyVal → Type 0
Found none = Top
Found (some v) = HasNoList v

get_item-HasNoList : (p : PyItems) (cs : List ℕ) → HaveNoList p → Found (get_item p cs)
unfolding get_item HaveNoList
get_item-HasNoList nil cs n = tt
get_item-HasNoList (cons k v rest) cs n = either (is_key cs k) (get_item-HasNoList rest cs n.1)
  where
    either : (b : Bool) → Found (get_item rest cs) → Found (if b then some v else get_item rest cs)
    either true h = n.0
    either false h = h

items_of-HaveNoList : (v : PyVal) → HasNoList v → HaveNoList (items_of v)
unfolding HasNoList HaveNoList
items_of-HaveNoList (dict d) n = n
items_of-HaveNoList null n = tt
items_of-HaveNoList none_ n = tt
items_of-HaveNoList (bool b) n = tt
items_of-HaveNoList (int z) n = tt
items_of-HaveNoList (float d) n = tt
items_of-HaveNoList (str cs) n = tt
items_of-HaveNoList (bytes bs) n = tt
items_of-HaveNoList (list d) n = absurd n
items_of-HaveNoList (tuple d) n = absurd n
items_of-HaveNoList other n = tt

module _ (base : ℕ → ℕ) (excess : ℕ) where
  abbrev Kept : Py → Type 0
  Kept = IsKept base excess

  -- The object that was encoded goes on, unless it is NULL.
  encoded :
      (v : PyVal) (i : Option ℕ) (next : Option AmqpBytes → Cmd Py (Option BasicProperties))
      → ((b : Option AmqpBytes) → Keeps Kept (next b))
      → Keeps Kept (encoded_field next (record { value = v; ref = i }))
  unfolding encoded_field
  encoded null i next k = Keeps-pure _
  encoded none_ i next k =
      Keeps-bind _ _ (string_as_amqbytes-Keeps base excess (record { value = none_; ref = i }))
        (λ b. k (some b))
  encoded (bool b) i next k =
      Keeps-bind _ _ (string_as_amqbytes-Keeps base excess (record { value = bool b; ref = i }))
        (λ b. k (some b))
  encoded (int z) i next k =
      Keeps-bind _ _ (string_as_amqbytes-Keeps base excess (record { value = int z; ref = i }))
        (λ b. k (some b))
  encoded (float d) i next k =
      Keeps-bind _ _ (string_as_amqbytes-Keeps base excess (record { value = float d; ref = i }))
        (λ b. k (some b))
  encoded (str cs) i next k =
      Keeps-bind _ _ (string_as_amqbytes-Keeps base excess (record { value = str cs; ref = i }))
        (λ b. k (some b))
  encoded (bytes bs) i next k =
      Keeps-bind _ _ (string_as_amqbytes-Keeps base excess (record { value = bytes bs; ref = i }))
        (λ b. k (some b))
  encoded (dict d) i next k =
      Keeps-bind _ _ (string_as_amqbytes-Keeps base excess (record { value = dict d; ref = i }))
        (λ b. k (some b))
  encoded (list d) i next k =
      Keeps-bind _ _ (string_as_amqbytes-Keeps base excess (record { value = list d; ref = i }))
        (λ b. k (some b))
  encoded (tuple d) i next k =
      Keeps-bind _ _ (string_as_amqbytes-Keeps base excess (record { value = tuple d; ref = i }))
        (λ b. k (some b))
  encoded other i next k =
      Keeps-bind _ _ (string_as_amqbytes-Keeps base excess (record { value = other; ref = i }))
        (λ b. k (some b))

  text_field-Keeps :
      (p : PyItems) (name : String) (next : Option AmqpBytes → Cmd Py (Option BasicProperties))
      → ((b : Option AmqpBytes) → Keeps Kept (next b))
      → Keeps Kept (text_field p name next)
  unfolding text_field
  text_field-Keeps p name next k = found (get_item p (codes name))
    where
      found :
          (o : Option PyVal)
          → Keeps {A = Option BasicProperties} Kept
              (elim o [ none ↦ next none | some v ↦ maybe_unicode v >>= encoded_field next ])
      found none = k none
      found (some v) =
          Keeps-bind _ _ (maybe_unicode-Keeps base excess v) (λ o. encoded o.value o.ref next k)

  as_long-Keeps : (v : PyVal) → Keeps Kept (as_long v)
  unfolding as_long
  as_long-Keeps (int z) = long_value-Keeps base excess z
  as_long-Keeps (bool b) = Keeps-pure _
  as_long-Keeps null = Keeps-then _ _ (set_err-Keeps base excess system_error) (Keeps-pure _)
  as_long-Keeps none_ = Keeps-then _ _ (set_err-Keeps base excess type_error) (Keeps-pure _)
  as_long-Keeps (float d) = Keeps-then _ _ (set_err-Keeps base excess type_error) (Keeps-pure _)
  as_long-Keeps (str cs) = Keeps-then _ _ (set_err-Keeps base excess type_error) (Keeps-pure _)
  as_long-Keeps (bytes bs) = Keeps-then _ _ (set_err-Keeps base excess type_error) (Keeps-pure _)
  as_long-Keeps (dict d) = Keeps-then _ _ (set_err-Keeps base excess type_error) (Keeps-pure _)
  as_long-Keeps (list d) = Keeps-then _ _ (set_err-Keeps base excess type_error) (Keeps-pure _)
  as_long-Keeps (tuple d) = Keeps-then _ _ (set_err-Keeps base excess type_error) (Keeps-pure _)
  as_long-Keeps other = Keeps-then _ _ (set_err-Keeps base excess type_error) (Keeps-pure _)

  number_field-Keeps : (p : PyItems) (name : String) (w : ℕ) → Keeps Kept (number_field p name w)
  unfolding number_field
  number_field-Keeps p name w = found (get_item p (codes name))
    where
      found :
          (o : Option PyVal)
          → Keeps {A = Option ℕ} Kept
              (elim o [ none ↦ pure none | some v ↦ (do n ← as_long v; pure (some (n % 2 ^ w))) ])
      found none = Keeps-pure _
      found (some v) = Keeps-bind _ _ (as_long-Keeps v) (λ n. Keeps-pure _)

  headers_field-Keeps : (p : PyItems) → HaveNoList p → Keeps Kept (headers_field p)
  unfolding headers_field
  headers_field-Keeps p n =
      found (get_item p (codes "headers")) (get_item-HasNoList p (codes "headers") n)
    where
      checked :
          (t : Entries) (b : Bool) (s : Py)
          → Kept s
          → Ensures {A = Option Entries}
              (λ a s'. Kept s')
              (elim b [ true ↦ ok none s | false ↦ ok (some t) s ])
      checked t true s h = h
      checked t false s h = h

      found :
          (o : Option PyVal)
          → Found o
          → Keeps {A = Option Entries} Kept (elim o [
            | none ↦ pure (some no_entries)
            | some v ↦ (do
              t ← dict_to_table v
              (λ s. elim (err_occurred s) [ true ↦ ok none s | false ↦ ok (some t) s ]))
          ])
      found none h = Keeps-pure _
      found (some v) h =
          Keeps-bind _ _ (dict_to_table-Keeps base excess v h)
            (λ t. record { at = λ s k. checked t (err_occurred s) s k })

  rest_of_properties-Keeps :
      (p : PyItems) (props : BasicProperties)
      → HaveNoList p
      → Keeps Kept (rest_of_properties p props)
  unfolding rest_of_properties
  rest_of_properties-Keeps p props n =
      Keeps-bind _ _ (number_field-Keeps p "delivery_mode" 8) (λ delivery_mode.
        Keeps-bind _ _ (number_field-Keeps p "priority" 8) (λ priority.
          Keeps-bind _ _ (number_field-Keeps p "timestamp" 64) (λ timestamp.
            Keeps-bind _ _ (headers_field-Keeps p n)
              (λ headers. given headers delivery_mode priority timestamp))))
    where
      given :
          (o : Option Entries) (delivery_mode priority timestamp : Option ℕ)
          → Keeps {A = Option BasicProperties} Kept (elim o [
            | none ↦ pure none
            | some t ↦ pure (
                some (record props {
                  delivery_mode = delivery_mode;
                  priority = priority;
                  timestamp = timestamp;
                  headers = some t;
                }))
          ])
      given none delivery_mode priority timestamp = Keeps-pure _
      given (some t) delivery_mode priority timestamp = Keeps-pure _

  pub dict_to_basic_properties-Keeps :
      (v : PyVal) → HasNoList v → Keeps Kept (dict_to_basic_properties v)
  unfolding dict_to_basic_properties
  dict_to_basic_properties-Keeps v n =
      text_field-Keeps (items_of v) "content_type" _ (λ content_type.
        text_field-Keeps (items_of v) "content_encoding" _ (λ content_encoding.
          text_field-Keeps (items_of v) "correlation_id" _ (λ correlation_id.
            text_field-Keeps (items_of v) "reply_to" _ (λ reply_to.
              text_field-Keeps (items_of v) "expiration" _ (λ expiration.
                text_field-Keeps (items_of v) "message_id" _ (λ message_id.
                  text_field-Keeps (items_of v) "type" _ (λ type.
                    text_field-Keeps (items_of v) "user_id" _ (λ user_id.
                      text_field-Keeps (items_of v) "app_id" _ (λ app_id.
                        rest_of_properties-Keeps (items_of v)
                          (texts content_type content_encoding correlation_id reply_to expiration
                            message_id type user_id app_id)
                          (items_of-HaveNoList v n))))))))))
