-- ===== src/Tests/Publishing.antt =====
-- A message is published on concrete runs, and its properties go to a dict and back.
use librabbitmq.Base.{◌≡◌, refl, none, some, List, [], ◌∷◌, arith, ℕ}
use librabbitmq.Base.Int.{pos}
use librabbitmq.Base.Cmd.{Returns, ◌>>=◌}
use librabbitmq.Py.{bytes, str, dict, nil}
use librabbitmq.Py.Text.{ascii_encode}
use librabbitmq.Amqp.{AmqpBytes}
use librabbitmq.World.{World, BasicProperties}
use librabbitmq.Message.{basic_properties_to_dict}
use librabbitmq.Message.Dict.{HasAsciiTexts}
use librabbitmq.Publish.{PublishArgs, basic_publish_method}
use librabbitmq.Publish.Properties.{dict_to_basic_properties}
use librabbitmq.Publish.RoundTrip.{
  items, HasSmallNumbers, SaysTheSame, dict_to_basic_properties-basic_properties_to_dict,
}
use librabbitmq.Publish.Sent.{Published, basic_publish_method_sent}
use librabbitmq.Publish.Leaks.{Leaked, with_names, basic_publish_method_leaks}
use librabbitmq.Tests.{calm, open_world, open_world-IsAlive}

abbrev here : List ℕ → AmqpBytes
here bs = record { bytes = bs; owner = none }

-- A persistent message of type "A", answered to "BC".
abbrev persistent : BasicProperties
persistent = record {
  content_type = some (here (65 ∷ []));
  content_encoding = none;
  correlation_id = none;
  reply_to = some (here (66 ∷ 67 ∷ []));
  expiration = none;
  message_id = none;
  type = none;
  user_id = none;
  app_id = none;
  delivery_mode = some 2;
  priority = none;
  timestamp = some 1_700_000_000;
  headers = none;
}

persistent-HasAsciiTexts : HasAsciiTexts persistent
persistent-HasAsciiTexts = record {
  content_type = (omega arith, tt);
  content_encoding = tt;
  correlation_id = tt;
  reply_to = (omega arith, (omega arith, tt));
  expiration = tt;
  message_id = tt;
  type = tt;
  user_id = tt;
  app_id = tt;
}

persistent-HasSmallNumbers : HasSmallNumbers persistent
persistent-HasSmallNumbers = record {
  delivery_mode = omega arith;
  priority = tt;
  timestamp = omega arith;
}

dict_to_basic_properties-basic_properties_to_dict_example :
    Returns
      (λ r s'. (q : BasicProperties) × (r ≡ some q) × SaysTheSame persistent q × (s'.err ≡ none))
      ((basic_properties_to_dict persistent nil >>= λ d. dict_to_basic_properties (dict d)) calm)
dict_to_basic_properties-basic_properties_to_dict_example =
    dict_to_basic_properties-basic_properties_to_dict persistent calm persistent-HasAsciiTexts
      persistent-HasSmallNumbers refl

-- To the exchange "x", with the key "k".
abbrev hello : PublishArgs
hello = record {
  channel = 1;
  body = 104 ∷ 105 ∷ [];
  exchange = str (120 ∷ []);
  routing_key = bytes (107 ∷ []);
  propdict = dict (items persistent);
  mandatory = 0;
  immediate = 0;
}

abbrev takes : World
takes = open_world [] [] (pos 0 ∷ [])

basic_publish_method_sent_example :
    Returns (Published hello persistent [] takes) (basic_publish_method (some hello) takes)
basic_publish_method_sent_example =
    basic_publish_method_sent hello persistent 0 [] takes (omega arith, tt) tt refl
      persistent-HasAsciiTexts persistent-HasSmallNumbers (open_world-IsAlive _ _ _) refl refl refl

not_ascii : ascii_encode (233 ∷ []) ≡ none
unfolding ascii_encode
not_ascii = refl

basic_publish_method_leaks_example :
    Returns
      (Leaked 1 takes)
      (basic_publish_method (some (with_names hello (120 ∷ []) (107 ∷ []) (233 ∷ []) nil)) takes)
basic_publish_method_leaks_example =
    basic_publish_method_leaks hello (120 ∷ []) (107 ∷ []) (233 ∷ []) nil takes not_ascii
      (open_world-IsAlive _ _ _) refl refl
