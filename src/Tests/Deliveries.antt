-- ===== src/Tests/Deliveries.antt =====
-- A message for a consumer on concrete frames.
use librabbitmq.Base.{◌≡◌, refl, none, some, List, [], ◌∷◌, arith, ℕ, false, list_eq}
use librabbitmq.Base.Int.{pos}
use librabbitmq.Base.Cmd.{ok, Returns}
use librabbitmq.Py.{int, str, dict, nil, cons, other, value_error}
use librabbitmq.Amqp.{AmqpBytes}
use librabbitmq.Amqp.Read.{is_key}
use librabbitmq.World.{World, Deliver, BasicProperties}
use librabbitmq.Message.Dict.{HasAsciiTexts}
use librabbitmq.Receive.{recv, basic_recv}
use librabbitmq.Receive.Waiting.{other_timeout}
use librabbitmq.Receive.Callback.{get_item, get_number, is_number, listed}
use librabbitmq.Receive.Delivered.{Handed, message_of, frames_of, recv_delivered}
use librabbitmq.Receive.Delivered.Frames.{HasAsciiNames}
use librabbitmq.Receive.Delivered.Called.{IsListening}
use librabbitmq.Receive.Unexpected.{broken_off, after_two, basic_recv_unexpected}
use librabbitmq.Tests.{open_world, open_world-IsAlive}

abbrev here : List ℕ → AmqpBytes
here bs = record { bytes = bs; owner = none }

-- For the consumer "t", from the exchange "x", with the key "k".
abbrev pub delivery : Deliver
delivery = record {
  delivery_tag = 9;
  exchange = here (120 ∷ []);
  routing_key = here (107 ∷ []);
  redelivered = 0;
  consumer_tag = here (116 ∷ []);
}

delivery-HasAsciiNames : HasAsciiNames delivery
delivery-HasAsciiNames = record {
  exchange = (omega arith, tt);
  routing_key = (omega arith, tt);
  consumer_tag = (omega arith, tt);
}

abbrev pub plain : BasicProperties
plain = record {
  content_type = some (here (65 ∷ []));
  content_encoding = none;
  correlation_id = none;
  reply_to = none;
  expiration = none;
  message_id = none;
  type = none;
  user_id = none;
  app_id = none;
  delivery_mode = some 2;
  priority = none;
  timestamp = some 0xffff_ffff_ffff_ffff;
  headers = none;
}

pub plain-HasAsciiTexts : HasAsciiTexts plain
plain-HasAsciiTexts = record {
  content_type = (omega arith, tt);
  content_encoding = tt;
  correlation_id = tt;
  reply_to = tt;
  expiration = tt;
  message_id = tt;
  type = tt;
  user_id = tt;
  app_id = tt;
}

-- Five bytes in two frames; the callback raises an exception.
abbrev in_two : World
in_two = record w {
  self = record self {
    callbacks = some (dict (cons (int (pos 1)) (dict (cons (str (116 ∷ [])) other nil)) nil));
  };
  caller = record caller { channels = some (1 ∷ []); outcomes = none ∷ some value_error ∷ [] };
}
  where
    w : World
    w = open_world [] (frames_of 1 delivery plain 5 ((1 ∷ 2 ∷ 3 ∷ []) ∷ []) (4 ∷ 5 ∷ []) []) []

    open w use {self, caller}

in_two-IsListening : IsListening 1 (116 ∷ []) in_two
unfolding get_number is_number get_item is_key list_eq listed
in_two-IsListening = record {
  callbacks = cons (int (pos 1)) (dict (cons (str (116 ∷ [])) other nil)) nil;
  of_channel = cons (str (116 ∷ [])) other nil;
  callback = other;
  channels = 1 ∷ [];
  has_callbacks = refl;
  has_channel = refl;
  has_tag = refl;
  has_channels = refl;
  is_listed = refl;
}

recv_delivered_example :
    Returns
      (λ r v.
        Handed
          (message_of 1 delivery plain (1 ∷ 2 ∷ 3 ∷ 4 ∷ 5 ∷ []) 5)
          (some value_error)
          []
          in_two
          r.0
          v)
      (recv false false in_two)
recv_delivered_example =
    recv_delivered 0 delivery plain 5 ((1 ∷ 2 ∷ 3 ∷ []) ∷ []) (4 ∷ 5 ∷ []) [] (some value_error) []
      in_two (record { alive_ = refl }) refl delivery-HasAsciiNames plain-HasAsciiTexts refl
      (omega arith) refl in_two-IsListening refl

-- The header is missing.
abbrev headless : World
headless = open_world [] (broken_off 1 delivery (1 ∷ 2 ∷ []) []) []

basic_recv_unexpected_example :
    basic_recv (some other_timeout) headless ≡ ok (some tt) (after_two 1 (1 ∷ 2 ∷ []) [] headless)
basic_recv_unexpected_example =
    basic_recv_unexpected 0 delivery (1 ∷ 2 ∷ []) [] headless (open_world-IsAlive _ _ _) refl
      delivery-HasAsciiNames refl
