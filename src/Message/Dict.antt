-- ===== src/Message/Dict.antt =====
-- The dict of a received message, by what it has under each name (`basic_properties_to_PyDict`).
use Prim.Native.String.{String}
use librabbitmq.Base.{ℕ, ◌≡◌, refl, Option, none, some, [], ◌∷◌, Top}
use librabbitmq.Base.Cmd.{ok}
use librabbitmq.Py.{Py, PyVal, PyItems, int, str, nil}
use librabbitmq.Py.Text.{codes, IsAscii}
use librabbitmq.Py.Text.Laws.{utf8_decode_ascii}
use librabbitmq.Amqp.{AmqpBytes, Entries}
use librabbitmq.Amqp.Read.{string_from_amqbytes}
use librabbitmq.World.{BasicProperties}
use librabbitmq.Message.{
  set_str, as_long_long, put_string, put_int, put_table, basic_properties_to_dict,
}
use librabbitmq.Message.Items.{put_field, Fields, filled}

-- A text property in ASCII, or none.
abbrev pub IsAsciiField : Option AmqpBytes → Type 0
IsAsciiField none = Top
IsAsciiField (some b) = IsAscii b.bytes

-- Every text property is in ASCII.
pub record HasAsciiTexts (props : BasicProperties) : Type 0 where
  pub content_type : IsAsciiField props.content_type
  pub content_encoding : IsAsciiField props.content_encoding
  pub correlation_id : IsAsciiField props.correlation_id
  pub reply_to : IsAsciiField props.reply_to
  pub expiration : IsAsciiField props.expiration
  pub message_id : IsAsciiField props.message_id
  pub type : IsAsciiField props.type
  pub user_id : IsAsciiField props.user_id
  pub app_id : IsAsciiField props.app_id

abbrev pub text_value : Option AmqpBytes → Option PyVal
text_value none = none
text_value (some b) = some (str b.bytes)

abbrev pub int_value : Option ℕ → Option PyVal
int_value none = none
int_value (some n) = some (int (as_long_long n))

-- The dict's fields, but for the headers.
abbrev pub fields : BasicProperties → Fields
fields props =
    (codes "content_type", text_value props.content_type)
    ∷ (codes "content_encoding", text_value props.content_encoding)
    ∷ (codes "correlation_id", text_value props.correlation_id)
    ∷ (codes "reply_to", text_value props.reply_to)
    ∷ (codes "expiration", text_value props.expiration)
    ∷ (codes "message_id", text_value props.message_id)
    ∷ (codes "type", text_value props.type)
    ∷ (codes "user_id", text_value props.user_id)
    ∷ (codes "app_id", text_value props.app_id)
    ∷ (codes "delivery_mode", int_value props.delivery_mode)
    ∷ (codes "priority", int_value props.priority)
    ∷ (codes "timestamp", int_value props.timestamp)
    ∷ []

put_string_ok :
    (o : Option AmqpBytes) (name : String) (d : PyItems) (s : Py)
    → IsAsciiField o
    → put_string o name d s ≡ ok (put_field d (codes name) (text_value o)) s
unfolding put_string set_str string_from_amqbytes
put_string_ok none name d s h = refl
put_string_ok (some b) name d s h =
    rw (put_string, string_from_amqbytes, utf8_decode_ascii b.bytes h) refl

put_int_ok :
    (o : Option ℕ) (name : String) (d : PyItems) (s : Py)
    → put_int o name d s ≡ ok (put_field d (codes name) (int_value o)) s
unfolding put_int set_str
put_int_ok none name d s = refl
put_int_ok (some n) name d s = refl

put_table-none :
    (o : Option Entries) (name : String) (d : PyItems) (s : Py)
    → o ≡ none
    → put_table o name d s ≡ ok d s
unfolding put_table
put_table-none o name d s e = rw e refl

-- The properties of a message without headers, whose texts are in ASCII: the dict has exactly the
-- properties that are set, and neither an exception nor a reference is left behind.
pub basic_properties_to_dict_ok :
    (props : BasicProperties) (s : Py)
    → HasAsciiTexts props
    → props.headers ≡ none
    → basic_properties_to_dict props nil s ≡ ok (filled (fields props) nil) s
unfolding basic_properties_to_dict
basic_properties_to_dict_ok props s h e =
    rw
      (
        basic_properties_to_dict,
        put_string_ok props.content_type "content_type" nil s h.content_type,
        λ (d : PyItems).
            put_string_ok props.content_encoding "content_encoding" d s h.content_encoding,
        λ (d : PyItems). put_string_ok props.correlation_id "correlation_id" d s h.correlation_id,
        λ (d : PyItems). put_string_ok props.reply_to "reply_to" d s h.reply_to,
        λ (d : PyItems). put_string_ok props.expiration "expiration" d s h.expiration,
        λ (d : PyItems). put_string_ok props.message_id "message_id" d s h.message_id,
        λ (d : PyItems). put_string_ok props.type "type" d s h.type,
        λ (d : PyItems). put_string_ok props.user_id "user_id" d s h.user_id,
        λ (d : PyItems). put_string_ok props.app_id "app_id" d s h.app_id,
        λ (d : PyItems). put_int_ok props.delivery_mode "delivery_mode" d s,
        λ (d : PyItems). put_int_ok props.priority "priority" d s,
        λ (d : PyItems). put_int_ok props.timestamp "timestamp" d s,
        λ (d : PyItems). put_table-none props.headers "headers" d s e,
      )
      refl
