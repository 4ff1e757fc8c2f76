-- ===== src/Publish/Properties.antt =====
-- `PyDict_to_basic_properties` of connection.c: the properties of a message from a Python dict.
use Prim.Native.String.{String}
use librabbitmq.Base.{ℕ, ◌-◌, ◌%◌, ◌^◌, true, false, Option, none, some}
use librabbitmq.Base.Cmd.{Cmd, ok, pure, modify, ◌>>=◌, ◌>>◌}
use librabbitmq.Py.{
  Py, PyVal, PyItems, null, bool, int, dict, nil, err_occurred, set_err, system_error, type_error,
}
use librabbitmq.Py.Text.{codes}
use librabbitmq.Py.Held.{Object, maybe_unicode}
use librabbitmq.Amqp.{AmqpBytes, Entries, no_entries, string_as_amqbytes}
use librabbitmq.Amqp.Build.{long_value, truth, dict_to_table}
use librabbitmq.World.{BasicProperties}
use librabbitmq.Receive.Callback.{get_item}

-- What `PyDict_GetItemString` looks in: what is no dict has no items.
abbrev pub items_of : PyVal → PyItems
items_of (dict d) = d
items_of _ = nil

-- The bytes of an encoded text go on; NULL ends the function with -1, which is `none` here.
unfoldable pub encoded_field :
    (Option AmqpBytes → Cmd Py (Option BasicProperties)) → Object → Cmd Py (Option BasicProperties)
unfolding string_as_amqbytes
encoded_field next o = elim o.value [
  | null ↦ pure none
  | _ ↦ (do b ← string_as_amqbytes o; next (some b))
]

-- A text, which is encoded and kept.
unfoldable pub text_field :
    PyItems
    → String
    → (Option AmqpBytes → Cmd Py (Option BasicProperties))
    → Cmd Py (Option BasicProperties)
unfolding get_item maybe_unicode encoded_field
text_field p name next = elim (get_item p (codes name)) [
  | none ↦ next none
  | some v ↦ maybe_unicode v >>= encoded_field next
]

-- `PyInt_AS_LONG`, which is `PyLong_AsLong`, in 64 bits: what is no int sets an exception and gives
-- -1, which goes on. No object here has a method `__index__`.
unfoldable pub as_long : PyVal → Cmd Py ℕ
as_long (int z) = long_value z
as_long (bool b) = pure (truth b)
as_long null = modify (set_err system_error) >> pure (2 ^ 64 - 1)
as_long _ = modify (set_err type_error) >> pure (2 ^ 64 - 1)

-- A number of `w` bits.
unfoldable pub number_field : PyItems → String → ℕ → Cmd Py (Option ℕ)
unfolding get_item as_long
number_field p name w = elim (get_item p (codes name)) [
  | none ↦ pure none
  | some v ↦ (do n ← as_long v; pure (some (n % 2 ^ w)))
]

-- The headers, whose flag is always set. Only here it is asked whether there is an exception.
unfoldable pub headers_field : PyItems → Cmd Py (Option Entries)
unfolding get_item dict_to_table
headers_field p = elim (get_item p (codes "headers")) [
  | none ↦ pure (some no_entries)
  | some v ↦ (do
    t ← dict_to_table v
    (λ s. elim (err_occurred s) [ true ↦ ok none s | false ↦ ok (some t) s ]))
]

-- The texts, before the numbers and the headers.
abbrev pub texts : (ct ce ci rt ex mi ty ui ai : Option AmqpBytes) → BasicProperties
texts ct ce ci rt ex mi ty ui ai = record {
  content_type = ct;
  content_encoding = ce;
  correlation_id = ci;
  reply_to = rt;
  expiration = ex;
  message_id = mi;
  type = ty;
  user_id = ui;
  app_id = ai;
  delivery_mode = none;
  priority = none;
  timestamp = none;
  headers = none;
}

-- The numbers and the headers, behind the texts.
unfoldable pub rest_of_properties : PyItems → BasicProperties → Cmd Py (Option BasicProperties)
unfolding number_field headers_field
rest_of_properties p props = do
  delivery_mode ← number_field p "delivery_mode" 8
  priority ← number_field p "priority" 8
  timestamp ← number_field p "timestamp" 64
  headers ← headers_field p
  elim headers [
    | none ↦ pure none
    | some t ↦ pure (
        some (record props {
          delivery_mode = delivery_mode;
          priority = priority;
          timestamp = timestamp;
          headers = some t;
        }))
  ]

-- `PyDict_to_basic_properties`.
unfoldable pub dict_to_basic_properties : PyVal → Cmd Py (Option BasicProperties)
unfolding text_field rest_of_properties
dict_to_basic_properties v =
    let p = items_of v in
    text_field p "content_type" (λ content_type.
      text_field p "content_encoding" (λ content_encoding.
        text_field p "correlation_id" (λ correlation_id. text_field p "reply_to" (λ reply_to.
          text_field p "expiration" (λ expiration. text_field p "message_id" (λ message_id.
            text_field p "type" (λ type. text_field p "user_id" (λ user_id.
              text_field p "app_id" (λ app_id. rest_of_properties p (
                texts content_type content_encoding correlation_id reply_to expiration message_id
                  type user_id app_id))))))))))
