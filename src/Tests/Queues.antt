-- ===== src/Tests/Queues.antt =====
-- Declaring a concrete queue and exchange, and consuming from the queue.
use librabbitmq.Base.{◌≡◌, refl, none, some, [], ◌∷◌, arith}
use librabbitmq.Base.Cmd.{Returns}
use librabbitmq.Py.{PyItems, int, str, dict, nil, cons}
use librabbitmq.Py.Text.{utf8_encode, utf8_char}
use librabbitmq.Base.Int.{pos}
use librabbitmq.Amqp.{AmqpBytes}
use librabbitmq.World.{World, normal, queue_declare_ok, consume_ok, other_ok}
use librabbitmq.Queue.{DeclareArgs, queue_declare_method, ExchangeArgs, exchange_declare_method}
use librabbitmq.Queue.Exchanges.{Established, exchange_declare_accepted}
use librabbitmq.Consumer.{ConsumeArgs, basic_consume_method}
use librabbitmq.Consumer.Started.{Started, basic_consume_accepted}
use librabbitmq.Queue.Declaration.{Announced, queue_declare_accepted}
use librabbitmq.Tests.{open_world, open_world-IsAlive}

-- `{"n": 1}`.
abbrev queue_arguments : PyItems
queue_arguments = cons (str (110 ∷ [])) (int (pos 1)) nil

-- The queue without a name, which the broker calls "é".
abbrev nameless : DeclareArgs
nameless = record {
  channel = 1;
  queue = str [];
  passive = 0;
  durable = 1;
  exclusive = 0;
  auto_delete = 1;
  arguments = dict queue_arguments;
}

abbrev e_acute : AmqpBytes
e_acute = record { bytes = 195 ∷ 169 ∷ []; owner = none }

abbrev naming : World
naming = open_world (normal (queue_declare_ok e_acute 4 2) ∷ []) [] []

e_acute_encoded : utf8_encode (233 ∷ []) ≡ some (195 ∷ 169 ∷ [])
unfolding utf8_encode utf8_char
e_acute_encoded = refl

queue_declare_accepted_example :
    Returns
      (Announced nameless queue_arguments
        (record { queue = str (233 ∷ []); message_count = 4; consumer_count = 2 })
        []
        naming)
      (queue_declare_method (some nameless) naming)
queue_declare_accepted_example =
    queue_declare_accepted nameless queue_arguments e_acute (233 ∷ []) 4 2 [] naming tt refl
      ((omega arith, tt), (omega arith, (λ e. cc)), tt) (open_world-IsAlive _ _ _) refl refl refl
      e_acute_encoded

-- The exchange "x" of type "t".
abbrev exchange : ExchangeArgs
exchange = record {
  channel = 1;
  exchange = str (120 ∷ []);
  type = str (116 ∷ []);
  passive = 0;
  durable = 1;
  auto_delete = 1;
  arguments = dict queue_arguments;
}

abbrev establishing : World
establishing = open_world (normal (other_ok 0) ∷ []) [] []

exchange_declare_accepted_example :
    Returns
      (Established exchange queue_arguments [] establishing)
      (exchange_declare_method (some exchange) establishing)
exchange_declare_accepted_example =
    exchange_declare_accepted exchange queue_arguments (other_ok 0) [] establishing
      (record {
        exchange_key = (omega arith, tt);
        type_key = (omega arith, tt);
        arguments_dict = refl;
        clean = ((omega arith, tt), (omega arith, (λ e. cc)), tt);
      })
      (open_world-IsAlive _ _ _) refl refl refl

-- The broker chooses the tag.
abbrev consumer : ConsumeArgs
consumer = record {
  channel = 1;
  queue = str (113 ∷ []);
  consumer_tag = str [];
  no_local = 0;
  no_ack = 1;
  exclusive = 0;
  arguments = dict queue_arguments;
}

abbrev starting : World
starting = open_world (normal (consume_ok e_acute) ∷ []) [] []

basic_consume_accepted_example :
    Returns
      (Started consumer queue_arguments (233 ∷ []) [] starting)
      (basic_consume_method (some consumer) starting)
basic_consume_accepted_example =
    basic_consume_accepted consumer queue_arguments e_acute (233 ∷ []) [] starting
      (record {
        queue_key = (omega arith, tt);
        consumer_tag_key = tt;
        arguments_dict = refl;
        clean = ((omega arith, tt), (omega arith, (λ e. cc)), tt);
      })
      (open_world-IsAlive _ _ _) refl refl refl e_acute_encoded
