-- ===== src/Publish/RoundTrip.antt =====
-- The properties of a received message, published again: `basic_properties_to_PyDict`, then
-- `PyDict_to_basic_properties`.
use Prim.Native.String.{String}
use librabbitmq.Base.{
  ℕ, ◌≡◌, ◌<◌, ◌^◌, ◌%◌, ◌∙◌, refl, Option, none, some, List, Top, arith, list_eq,
}
use librabbitmq.Base.Int.{pos}
use librabbitmq.Base.Cmd.{ok, Cmd, ◌>>=◌, Returns, Returns-mono}
use librabbitmq.Py.{Py, PyVal, PyItems, dict, nil}
use librabbitmq.Py.Text.{codes}
use librabbitmq.Py.Text.Laws.{ascii_encode_self}
use librabbitmq.Py.Held.{keep_ascii, maybe_unicode}
use librabbitmq.Amqp.{AmqpBytes, no_entries, string_as_amqbytes}
use librabbitmq.Amqp.Build.{long_value}
use librabbitmq.World.{BasicProperties}
use librabbitmq.Message.{as_long_long, basic_properties_to_dict}
use librabbitmq.Message.Items.{filled, or_else, get_item-filled}
use librabbitmq.Message.Dict.{
  IsAsciiField, HasAsciiTexts, text_value, int_value, fields, basic_properties_to_dict_ok,
}
use librabbitmq.Receive.Callback.{get_item}
use librabbitmq.Publish.Properties.{
  encoded_field, text_field, as_long, number_field, headers_field, texts, rest_of_properties,
  dict_to_basic_properties,
}

-- The bytes of a text property, wherever they are.
abbrev pub field_bytes : Option AmqpBytes → Option (List ℕ)
field_bytes none = none
field_bytes (some b) = some b.bytes

-- A number of `w` bits, or none.
abbrev pub IsBelow : ℕ → Option ℕ → Type 0
IsBelow w none = Top
IsBelow w (some n) = n < 2 ^ w

-- What a C program can have received, and a Python `int` of 64 bits with a sign can hold.
pub record HasSmallNumbers (props : BasicProperties) : Type 0 where
  pub delivery_mode : IsBelow 8 props.delivery_mode
  pub priority : IsBelow 8 props.priority
  pub timestamp : IsBelow 63 props.timestamp

-- The same properties, with bytes of their own, and headers that are empty.
pub record SaysTheSame (props q : BasicProperties) : Type 0 where
  pub content_type : field_bytes q.content_type ≡ field_bytes props.content_type
  pub content_encoding : field_bytes q.content_encoding ≡ field_bytes props.content_encoding
  pub correlation_id : field_bytes q.correlation_id ≡ field_bytes props.correlation_id
  pub reply_to : field_bytes q.reply_to ≡ field_bytes props.reply_to
  pub expiration : field_bytes q.expiration ≡ field_bytes props.expiration
  pub message_id : field_bytes q.message_id ≡ field_bytes props.message_id
  pub type : field_bytes q.type ≡ field_bytes props.type
  pub user_id : field_bytes q.user_id ≡ field_bytes props.user_id
  pub app_id : field_bytes q.app_id ≡ field_bytes props.app_id
  pub delivery_mode : q.delivery_mode ≡ props.delivery_mode
  pub priority : q.priority ≡ props.priority
  pub timestamp : q.timestamp ≡ props.timestamp
  pub headers : q.headers ≡ some no_entries

text_field_ok :
    (p : PyItems) (name : String) (o : Option AmqpBytes)
    (next : Option AmqpBytes → Cmd Py (Option BasicProperties))
    (Q : Option BasicProperties → Py → Type 0) (s : Py)
    → get_item p (codes name) ≡ text_value o
    → IsAsciiField o
    → ((o' : Option AmqpBytes) (s' : Py)
        → field_bytes o' ≡ field_bytes o
        → s'.err ≡ s.err
        → Returns Q (next o' s'))
    → Returns Q (text_field p name next s)
unfolding text_field maybe_unicode keep_ascii encoded_field string_as_amqbytes
text_field_ok p name none next Q s e h k = rw (text_field, e) (k none s refl refl)
text_field_ok p name (some b) next Q s e h k =
    rw (text_field, e, keep_ascii, ascii_encode_self b.bytes h)
      (k (some (record { bytes = b.bytes; owner = some s.fresh })) _ refl refl)

-- Cutting a number to `w` bits does not change it.
abbrev IsCut : ℕ → Option ℕ → Type 0
IsCut w none = Top
IsCut w (some n) = n % 2 ^ w ≡ n

cut8 : (o : Option ℕ) → IsBelow 8 o → IsCut 8 o
cut8 none h = tt
cut8 (some n) h = omega (arith, h)

cut64 : (o : Option ℕ) → IsBelow 63 o → IsCut 64 o
cut64 none h = tt
cut64 (some n) h = omega (arith, h)

below63 : (o : Option ℕ) → IsBelow 8 o → IsBelow 63 o
below63 none h = tt
below63 (some n) h = omega (arith, h)

long_value_small : (n : ℕ) (s : Py) → n < 2 ^ 63 → long_value (pos n) s ≡ ok n s
long_value_small n s h = ground arith

as_long_long_small : (n : ℕ) → n < 2 ^ 63 → as_long_long n ≡ pos n
as_long_long_small n h = ground arith

number_field_ok :
    (p : PyItems) (name : String) (w : ℕ) (o : Option ℕ) (s : Py)
    → get_item p (codes name) ≡ int_value o
    → IsCut w o
    → IsBelow 63 o
    → number_field p name w s ≡ ok o s
unfolding number_field as_long
number_field_ok p name w none s e h h' = rw (number_field, e) refl
number_field_ok p name w (some n) s e h h' =
    rw (number_field, e, as_long_long_small n h', long_value_small n s h', h) refl

or_none : (o : Option PyVal) → or_else o none ≡ o
or_none none = refl
or_none (some v) = refl

module _ (props : BasicProperties) where
  abbrev pub items : PyItems
  items = filled (fields props) nil

  content_type_item : get_item items (codes "content_type") ≡ text_value props.content_type
  unfolding list_eq get_item
  content_type_item =
      get_item-filled (fields props) nil (codes "content_type")
      ∙ or_none (text_value props.content_type)

  content_encoding_item :
      get_item items (codes "content_encoding") ≡ text_value props.content_encoding
  unfolding list_eq get_item
  content_encoding_item =
      get_item-filled (fields props) nil (codes "content_encoding")
      ∙ or_none (text_value props.content_encoding)

  correlation_id_item : get_item items (codes "correlation_id") ≡ text_value props.correlation_id
  unfolding list_eq get_item
  correlation_id_item =
      get_item-filled (fields props) nil (codes "correlation_id")
      ∙ or_none (text_value props.correlation_id)

  reply_to_item : get_item items (codes "reply_to") ≡ text_value props.reply_to
  unfolding list_eq get_item
  reply_to_item =
      get_item-filled (fields props) nil (codes "reply_to") ∙ or_none (text_value props.reply_to)

  expiration_item : get_item items (codes "expiration") ≡ text_value props.expiration
  unfolding list_eq get_item
  expiration_item =
      get_item-filled (fields props) nil (codes "expiration")
      ∙ or_none (text_value props.expiration)

  message_id_item : get_item items (codes "message_id") ≡ text_value props.message_id
  unfolding list_eq get_item
  message_id_item =
      get_item-filled (fields props) nil (codes "message_id")
      ∙ or_none (text_value props.message_id)

  type_item : get_item items (codes "type") ≡ text_value props.type
  unfolding list_eq get_item
  type_item = get_item-filled (fields props) nil (codes "type") ∙ or_none (text_value props.type)

  user_id_item : get_item items (codes "user_id") ≡ text_value props.user_id
  unfolding list_eq get_item
  user_id_item =
      get_item-filled (fields props) nil (codes "user_id") ∙ or_none (text_value props.user_id)

  app_id_item : get_item items (codes "app_id") ≡ text_value props.app_id
  unfolding list_eq get_item
  app_id_item =
      get_item-filled (fields props) nil (codes "app_id") ∙ or_none (text_value props.app_id)

  delivery_mode_item : get_item items (codes "delivery_mode") ≡ int_value props.delivery_mode
  unfolding list_eq get_item
  delivery_mode_item =
      get_item-filled (fields props) nil (codes "delivery_mode")
      ∙ or_none (int_value props.delivery_mode)

  priority_item : get_item items (codes "priority") ≡ int_value props.priority
  unfolding list_eq get_item
  priority_item =
      get_item-filled (fields props) nil (codes "priority") ∙ or_none (int_value props.priority)

  timestamp_item : get_item items (codes "timestamp") ≡ int_value props.timestamp
  unfolding list_eq get_item
  timestamp_item =
      get_item-filled (fields props) nil (codes "timestamp") ∙ or_none (int_value props.timestamp)

  headers_item : get_item items (codes "headers") ≡ none
  unfolding list_eq get_item
  headers_item = get_item-filled (fields props) nil (codes "headers")

  rest_ok :
      (q : BasicProperties) (s : Py)
      → HasSmallNumbers props
      → rest_of_properties items q s
        ≡ ok
            (some (record q {
              delivery_mode = props.delivery_mode;
              priority = props.priority;
              timestamp = props.timestamp;
              headers = some no_entries;
            }))
            s
  unfolding rest_of_properties headers_field
  rest_ok q s h =
      rw
        (
          rest_of_properties,
          number_field_ok items "delivery_mode" 8 props.delivery_mode s delivery_mode_item
              (cut8 _ h.delivery_mode) (below63 _ h.delivery_mode),
          number_field_ok items "priority" 8 props.priority s priority_item (cut8 _ h.priority)
              (below63 _ h.priority),
          number_field_ok items "timestamp" 64 props.timestamp s timestamp_item
              (cut64 _ h.timestamp) h.timestamp,
          headers_field,
          headers_item,
        )
        refl

  -- What is read back from the dict.
  abbrev pub ReadBack : Py → Option BasicProperties → Py → Type 0
  ReadBack s none s' = ⊥
  ReadBack s (some q) s' = SaysTheSame props q × (s'.err ≡ s.err)

  pub read_back :
      (s : Py)
      → HasAsciiTexts props
      → HasSmallNumbers props
      → Returns (ReadBack s) (dict_to_basic_properties (dict items) s)
  unfolding dict_to_basic_properties
  read_back s a n =
      text_field_ok items "content_type" props.content_type _ (ReadBack s) s content_type_item
        a.content_type
        (λ o0 s0 e0 f0.
          text_field_ok items "content_encoding" props.content_encoding _ (ReadBack s) s0
            content_encoding_item a.content_encoding
            (λ o1 s1 e1 f1.
              text_field_ok items "correlation_id" props.correlation_id _ (ReadBack s) s1
                correlation_id_item a.correlation_id
                (λ o2 s2 e2 f2.
                  text_field_ok items "reply_to" props.reply_to _ (ReadBack s) s2 reply_to_item
                    a.reply_to
                    (λ o3 s3 e3 f3.
                      text_field_ok items "expiration" props.expiration _ (ReadBack s) s3
                        expiration_item a.expiration
                        (λ o4 s4 e4 f4.
                          text_field_ok items "message_id" props.message_id _ (ReadBack s) s4
                            message_id_item a.message_id
                            (λ o5 s5 e5 f5.
                              text_field_ok items "type" props.type _ (ReadBack s) s5 type_item
                                a.type
                                (λ o6 s6 e6 f6.
                                  text_field_ok items "user_id" props.user_id _ (ReadBack s) s6
                                    user_id_item a.user_id
                                    (λ o7 s7 e7 f7.
                                      text_field_ok items "app_id" props.app_id
                                        (λ o.
                                          rest_of_properties items
                                            (texts o0 o1 o2 o3 o4 o5 o6 o7 o))
                                        (ReadBack s) s7 app_id_item a.app_id
                                        (λ o8 s8 e8 f8.
                                          rw (rest_ok (texts o0 o1 o2 o3 o4 o5 o6 o7 o8) s8 n) (
                                            record {
                                              content_type = e0;
                                              content_encoding = e1;
                                              correlation_id = e2;
                                              reply_to = e3;
                                              expiration = e4;
                                              message_id = e5;
                                              type = e6;
                                              user_id = e7;
                                              app_id = e8;
                                              delivery_mode = refl;
                                              priority = refl;
                                              timestamp = refl;
                                              headers = refl;
                                            },
                                            f8 ∙ f7 ∙ f6 ∙ f5 ∙ f4 ∙ f3 ∙ f2 ∙ f1 ∙ f0,
                                          ))))))))))

-- The properties of a message without headers, whose texts are in ASCII and whose timestamp is below
-- `2 ^ 63`, as a dict and back: neither direction crashes, the properties that come back are those
-- that were there (same fields set, same bytes, same numbers; the headers are set, and empty), and
-- the exception that is set, or not, is the same.
pub dict_to_basic_properties-basic_properties_to_dict :
    (props : BasicProperties) (s : Py)
    → HasAsciiTexts props
    → HasSmallNumbers props
    → props.headers ≡ none
    → Returns
        (λ r s'. (q : BasicProperties) × (r ≡ some q) × SaysTheSame props q × (s'.err ≡ s.err))
        ((basic_properties_to_dict props nil >>= λ d. dict_to_basic_properties (dict d)) s)
dict_to_basic_properties-basic_properties_to_dict props s a n h =
    rw (basic_properties_to_dict_ok props s a h)
      (Returns-mono (ReadBack props s) _ _ (read_back props s a n) given)
  where
    given :
        (r : Option BasicProperties) (s' : Py)
        → ReadBack props s r s'
        → (q : BasicProperties) × (r ≡ some q) × SaysTheSame props q × (s'.err ≡ s.err)
    given none s' e = absurd e
    given (some q) s' e = (q, refl, e.0, e.1)
