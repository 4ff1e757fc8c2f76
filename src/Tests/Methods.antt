-- ===== src/Tests/Methods.antt =====
-- The methods of queues, exchanges, consumers and messages on concrete runs.
use librabbitmq.Base.{◌≡◌, refl, none, some, [], ◌∷◌, arith}
use librabbitmq.Base.Int.{pos, negsuc}
use librabbitmq.Base.Cmd.{Returns, ok, NoCrash}
use librabbitmq.Py.{PyItems, int, str, dict, nil, cons}
use librabbitmq.World.{queue_delete_ok, World, normal, server_exception, channel_close, other_ok}
use librabbitmq.World.Calls.{raised}
use librabbitmq.Lifecycle.Laws.{Answers}
use librabbitmq.Basic.{
  AckArgs, QosArgs, FlagArgs, basic_ack_method, basic_reject_method, basic_qos_method, flow_method,
  basic_recover_method,
}
use librabbitmq.Basic.Sound.{basic_methods_ok}
use librabbitmq.Basic.Acknowledge.{
  sent, lost, ack_call, reject_call, basic_ack_method-sent, basic_ack_method-lost,
}
use librabbitmq.Synchronous.Clean.{refused, closed_error}
use librabbitmq.Queue.{
  DeleteArgs, BindArgs, queue_bind_method, queue_unbind_method, queue_delete_method,
  queue_declare_method, queue_purge_method, ExchangeArgs, exchange_declare_method,
  exchange_delete_method,
}
use librabbitmq.Queue.Requests.{IsBindable, queue_bindings_ok, exchange_declare_ok}
use librabbitmq.Queue.Sent.{Bound, bind_request, unbind_request, queue_bindings_accepted}
use librabbitmq.Queue.Counts.{Deleted, queue_delete_accepted}
use librabbitmq.Queue.Refused.{requests_unconnected}
use librabbitmq.Consumer.{CancelArgs, basic_cancel_method, basic_consume_method}
use librabbitmq.Consumer.Cancel.{consumers_unconnected}
use librabbitmq.Tests.{open_world, closed_world, open_world-IsAlive, open_world-IsSound}

abbrev tag_nine : AckArgs
tag_nine = record { channel = 1; delivery_tag = pos 9; multiple = 0 }

abbrev sends : World
sends = open_world [] [] (pos 0 ∷ [])

abbrev sends_nothing : World
sends_nothing = open_world [] [] (negsuc 8 ∷ negsuc 8 ∷ [])

basic_ack_method-sent_example :
    (basic_ack_method (some tag_nine) sends ≡ ok (some tt) (sent (ack_call tag_nine) [] sends))
    × (basic_reject_method (some tag_nine) sends
        ≡ ok (some tt) (sent (reject_call tag_nine) [] sends))
basic_ack_method-sent_example =
    basic_ack_method-sent tag_nine 0 [] sends (open_world-IsAlive _ _ _) refl refl

basic_ack_method-lost_example :
    (basic_ack_method (some tag_nine) sends_nothing
      ≡ ok none (lost (ack_call tag_nine) 1 [] sends_nothing))
    × (basic_reject_method (some tag_nine) sends_nothing
        ≡ ok none (lost (reject_call tag_nine) 1 [] sends_nothing))
basic_ack_method-lost_example =
    basic_ack_method-lost tag_nine 8 8 [] sends_nothing (open_world-IsAlive _ _ _) refl refl

-- The broker answers with a channel exception, and the channel is opened again.
abbrev answering : World
answering =
    open_world (server_exception (channel_close 406 []) ∷ normal (other_ok 0) ∷ []) [] (pos 0 ∷ [])

abbrev qos : QosArgs
qos = record { channel = 1; prefetch_size = pos 0; prefetch_count = 10; global = 0 }

abbrev flag_one : FlagArgs
flag_one = record { channel = 1; flag = 1 }

basic_methods_ok_example :
    NoCrash (Answers answering.self) (basic_ack_method (some tag_nine) answering)
    × NoCrash (Answers answering.self) (basic_reject_method (some tag_nine) answering)
    × NoCrash (Answers answering.self) (basic_qos_method (some qos) answering)
    × NoCrash (Answers answering.self) (flow_method (some flag_one) answering)
    × NoCrash (Answers answering.self) (basic_recover_method (some flag_one) answering)
basic_methods_ok_example =
    basic_methods_ok (some tag_nine) (some tag_nine) (some qos) (some flag_one) (some flag_one)
      answering (open_world-IsSound _ _ _)

-- `{"n": 1}`.
abbrev arguments : PyItems
arguments = cons (str (110 ∷ [])) (int (pos 1)) nil

abbrev binding : BindArgs
binding = record {
  channel = 1;
  queue = str (113 ∷ []);
  exchange = str (101 ∷ []);
  routing_key = str [];
  arguments = dict arguments;
}

binding-IsBindable : IsBindable binding arguments
binding-IsBindable = record {
  queue_key = (omega arith, tt);
  exchange_key = (omega arith, tt);
  routing_key_key = tt;
  arguments_dict = refl;
  clean = ((omega arith, tt), (omega arith, (λ e. cc)), tt);
}

queue_bindings_ok_example :
    NoCrash (Answers answering.self) (queue_bind_method (some binding) answering)
    × NoCrash (Answers answering.self) (queue_unbind_method (some binding) answering)
queue_bindings_ok_example =
    queue_bindings_ok binding arguments answering binding-IsBindable (open_world-IsSound _ _ _) refl

abbrev topic : ExchangeArgs
topic = record {
  channel = 1;
  exchange = str (101 ∷ []);
  type = str (116 ∷ []);
  passive = 0;
  durable = 1;
  auto_delete = 1;
  arguments = dict arguments;
}

exchange_declare_ok_example :
    NoCrash (Answers answering.self) (exchange_declare_method (some topic) answering)
exchange_declare_ok_example =
    exchange_declare_ok topic arguments answering
      (record {
        exchange_key = (omega arith, tt);
        type_key = (omega arith, tt);
        arguments_dict = refl;
        clean = ((omega arith, tt), (omega arith, (λ e. cc)), tt);
      })
      (open_world-IsSound _ _ _) refl

abbrev idle : World
idle = closed_world []

requests_unconnected_example :
    (queue_bind_method (some binding) idle ≡ ok none (refused idle))
    × (queue_unbind_method (some binding) idle ≡ ok none (refused idle))
    × (queue_delete_method none idle ≡ ok none (refused idle))
    × (queue_declare_method none idle ≡ ok none (refused idle))
    × (queue_purge_method none idle ≡ ok none (refused idle))
    × (exchange_declare_method (some topic) idle ≡ ok none (refused idle))
    × (exchange_delete_method none idle ≡ ok none (refused idle))
requests_unconnected_example =
    requests_unconnected (some binding) none none none (some topic) none idle refl

abbrev cancelled : CancelArgs
cancelled = record { channel = 1; consumer_tag = str (99 ∷ []) }

consumers_unconnected_example :
    (basic_consume_method none idle ≡ ok none (refused idle))
    × (basic_cancel_method (some cancelled) idle ≡ ok (some tt) (raised closed_error idle))
consumers_unconnected_example = consumers_unconnected none (some cancelled) idle refl

-- The broker accepts.
abbrev accepting : World
accepting = open_world (normal (other_ok 0) ∷ []) [] []

queue_bindings_accepted_example :
    Returns
      (Bound bind_request binding arguments [] accepting)
      (queue_bind_method (some binding) accepting)
    × Returns
        (Bound unbind_request binding arguments [] accepting)
        (queue_unbind_method (some binding) accepting)
queue_bindings_accepted_example =
    queue_bindings_accepted binding arguments (other_ok 0) [] accepting binding-IsBindable
      (open_world-IsAlive _ _ _) refl refl refl

abbrev delete : DeleteArgs
delete = record { channel = 1; queue = str (113 ∷ []); if_unused = 1; if_empty = 0 }

abbrev deleting : World
deleting = open_world (normal (queue_delete_ok 3) ∷ []) [] []

queue_delete_accepted_example :
    Returns (Deleted delete 3 [] deleting) (queue_delete_method (some delete) deleting)
queue_delete_accepted_example =
    queue_delete_accepted delete 3 [] deleting (omega arith, tt) (open_world-IsAlive _ _ _) refl
      refl refl
