-- ===== src/Receive/Delivered/Frames.antt =====
-- The first two frames of a message whose texts are in ASCII (`PyRabbitMQ_recv`).
use librabbitmq.Base.{ℕ, suc, ◌≡◌, refl, false, none, some, List, [], ◌∷◌, ◌++◌, ◌==◌, arith}
use librabbitmq.Base.Cmd.{ok}
use librabbitmq.Py.{Py, int, bool, str, nil}
use librabbitmq.Py.Text.{codes, IsAscii}
use librabbitmq.Py.Text.Laws.{utf8_decode_ascii}
use librabbitmq.Amqp.{AmqpBytes}
use librabbitmq.Amqp.Read.{string_from_amqbytes, from_long}
use librabbitmq.Message.{set_str, as_long_long, basic_deliver_to_dict}
use librabbitmq.Message.Items.{Fields, filled}
use librabbitmq.Message.Dict.{HasAsciiTexts, fields, basic_properties_to_dict_ok}
use librabbitmq.World.{
  World, Deliver, BasicProperties, Wait, got, method, basic_deliver, header, release_buffers,
  wait_frame, wait_frame_on_channel,
}
use librabbitmq.World.Open.{IsAlive}
use librabbitmq.Receive.{receive_start}
use librabbitmq.Receive.Opening.{
  go, Start, Head, deliver_start, first_method, deliver_frame, deliver_on, header_frame,
  receive_header,
}

-- The three texts of a delivery are in ASCII.
pub record HasAsciiNames (d : Deliver) : Type 0 where
  pub exchange : IsAscii d.exchange.bytes
  pub routing_key : IsAscii d.routing_key.bytes
  pub consumer_tag : IsAscii d.consumer_tag.bytes

-- `delivery_info`, without the consumer tag.
abbrev pub info_fields : Deliver → Fields
info_fields d =
    (codes "delivery_tag", some (int (as_long_long d.delivery_tag)))
    ∷ (codes "exchange", some (str d.exchange.bytes))
    ∷ (codes "routing_key", some (str d.routing_key.bytes))
    ∷ (codes "redelivered", some (bool (from_long d.redelivered)))
    ∷ []

-- All of `delivery_info`.
abbrev pub consumer_fields : Deliver → Fields
consumer_fields d = info_fields d ++ ((codes "consumer_tag", some (str d.consumer_tag.bytes)) ∷ [])

string_ok :
    (b : AmqpBytes) (s : Py) → IsAscii b.bytes → string_from_amqbytes b s ≡ ok (str b.bytes) s
unfolding string_from_amqbytes
string_ok b s h = rw (string_from_amqbytes, utf8_decode_ascii b.bytes h) refl

pub basic_deliver_to_dict_ok :
    (d : Deliver) (s : Py)
    → IsAscii d.exchange.bytes
    → IsAscii d.routing_key.bytes
    → basic_deliver_to_dict nil d s ≡ ok (filled (info_fields d) nil) s
unfolding basic_deliver_to_dict set_str
basic_deliver_to_dict_ok d s he hr =
    rw (basic_deliver_to_dict, string_ok d.exchange s he, string_ok d.routing_key s hr) refl

-- What the first frame gives.
abbrev pub started : ℕ → Deliver → Start
started c d = record {
  cur_channel = c;
  consumer_tag = str d.consumer_tag.bytes;
  delivery_info = filled (consumer_fields d) nil;
}

deliver_start_ok :
    (c : ℕ) (d : Deliver) (w : World)
    → HasAsciiNames d
    → deliver_start c d w ≡ ok (go (started c d)) w
unfolding deliver_start set_str
deliver_start_ok c d w h =
    rw
      (
        deliver_start,
        basic_deliver_to_dict_ok d w.py h.exchange h.routing_key,
        string_ok d.consumer_tag w.py h.consumer_tag,
      )
      refl

abbrev pub after_first : List Wait → World → World
after_first xs w = record w {
  lib = record lib { frames = xs };
  trace = wait_frame ∷ release_buffers ∷ trace;
}
  where
    open w use {lib, trace}

abbrev pub after_header : ℕ → List Wait → World → World
after_header c xs w = record w {
  lib = record lib { frames = xs };
  trace = wait_frame_on_channel c ∷ trace;
}
  where
    open w use {lib, trace}

pub receive_start_ok :
    (c : ℕ) (d : Deliver) (xs : List Wait) (w : World)
    → IsAlive w
    → HasAsciiNames d
    → w.lib.frames ≡ got (record { channel = c; payload = method (basic_deliver d) }) ∷ xs
    → receive_start false w ≡ ok (go (started c d)) (after_first xs w)
unfolding receive_start deliver_on deliver_frame first_method
receive_start_ok c d xs w o h e =
    rw (receive_start, e, deliver_on, o.alive_) (deliver_start_ok c d _ h)

abbrev pub headed : ℕ → BasicProperties → ℕ → Head
headed c props size = record {
  channel = c;
  propdict = filled (fields props) nil;
  body_target = size;
}

pub not_zero : (n : ℕ) → (suc n == 0) ≡ false
not_zero n = ground arith

pub receive_header_ok :
    (n : ℕ) (props : BasicProperties) (size : ℕ) (xs : List Wait) (w : World)
    → IsAlive w
    → HasAsciiTexts props
    → props.headers ≡ none
    → w.lib.frames ≡ got (record { channel = suc n; payload = header props size }) ∷ xs
    → receive_header (suc n) w ≡ ok (go (headed (suc n) props size)) (after_header (suc n) xs w)
unfolding receive_header header_frame
receive_header_ok n props size xs w o h none_ e =
    rw
      (
        receive_header,
        not_zero n,
        o.alive_,
        e,
        header_frame,
        basic_properties_to_dict_ok props w.py h none_,
      )
      refl
