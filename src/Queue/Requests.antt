-- ===== src/Queue/Requests.antt =====
-- The methods for queues and exchanges that return None, on arguments that the code converts.
use librabbitmq.Base.{◌≡◌, sym, subst, true, false, Option, none, some, Top}
use librabbitmq.Base.Cmd.{Cmd, NoCrash}
use librabbitmq.Py.{PyItems, dict}
use librabbitmq.Amqp.{AmqpBytes, Entries, string_as_amqbytes}
use librabbitmq.Amqp.Encodes.{IsKey, EncodesItems, IsCleanItems}
use librabbitmq.World.{World, Connection, queue_bind, queue_unbind}
use librabbitmq.World.Open.{IsSound}
use librabbitmq.Lifecycle.Laws.{Answers}
use librabbitmq.Synchronous.{with_table}
use librabbitmq.Synchronous.Clean.{Ready, named_ok, with_table_ok, synchronous_ok, opened_ok}
use librabbitmq.Queue.{
  BindArgs, bind_work, queue_bind_method, queue_unbind_method, bind_send, unbind_send, ExchangeArgs,
  exchange_declare_work, exchange_declare_method,
}

-- Names that can be encoded, and a clean dict of arguments.
pub record IsBindable (a : BindArgs) (d : PyItems) : Type 0 where
  pub queue_key : IsKey a.queue
  pub exchange_key : IsKey a.exchange
  pub routing_key_key : IsKey a.routing_key
  pub arguments_dict : a.arguments ≡ dict d
  pub clean : IsCleanItems d

pub record IsDeclarable (a : ExchangeArgs) (d : PyItems) : Type 0 where
  pub exchange_key : IsKey a.exchange
  pub type_key : IsKey a.type
  pub arguments_dict : a.arguments ≡ dict d
  pub clean : IsCleanItems d

bind_ok :
    (send : AmqpBytes → AmqpBytes → AmqpBytes → Entries → Cmd World (Option Top)) (a : BindArgs)
    (d : PyItems) (w : World)
    → ((q e r : AmqpBytes) (t : Entries) (w' : World)
        → Ready w.self w'
        → NoCrash (Answers w.self) (send q e r t w'))
    → IsBindable a d
    → Ready w.self w
    → NoCrash (Answers w.self) (bind_work send a w)
unfolding bind_work string_as_amqbytes
bind_ok send a d w sends fine ready =
    named_ok w.self (Answers w.self) a.queue _ w fine.queue_key ready (λ qs qr w1 qe r1.
      named_ok w.self (Answers w.self) a.exchange _ w1 fine.exchange_key r1 (λ es er w2 ee r2.
        named_ok w.self (Answers w.self) a.routing_key _ w2 fine.routing_key_key r2
          (λ ks kr w3 ke r3. rw fine.arguments_dict (
            with_table_ok w.self (Answers w.self) a.channel d _ w3 fine.clean r3
              (λ t w4 te r4. sends _ _ _ t w4 r4)))))

-- With names that can be encoded and a clean dict, on a sound object with no exception set, binding and unbinding a queue do not crash, whatever the broker answers; NULL comes with an
-- exception, None with the object unchanged, and the object stays sound.
pub queue_bindings_ok :
    (a : BindArgs) (d : PyItems) (w : World)
    → IsBindable a d
    → IsSound w
    → w.py.err ≡ none
    → NoCrash (Answers w.self) (queue_bind_method (some a) w)
      × NoCrash (Answers w.self) (queue_unbind_method (some a) w)
unfolding queue_bind_method queue_unbind_method bind_send unbind_send
queue_bindings_ok a d w fine s calm = (
  opened_ok a (λ b. bind_work (bind_send b) b) w s calm
      (λ ready.
        bind_ok (bind_send a) a d w
          (λ q e r t w' now.
            synchronous_ok w.self true a.channel (queue_bind a.channel q e r t) "queue.bind" w' now)
          fine ready),
  opened_ok a (λ b. bind_work (unbind_send b) b) w s calm
      (λ ready.
        bind_ok (unbind_send a) a d w
          (λ q e r t w' now.
            synchronous_ok w.self true a.channel (queue_unbind a.channel q e r t) "queue.unbind" w'
              now)
          fine ready),
)

table_then :
    (a : ExchangeArgs) (d : PyItems) (next : Entries → Cmd World (Option Top)) (w : World)
    (c : Connection)
    → IsDeclarable a d
    → Ready c w
    → ((t : Entries) (w' : World) → EncodesItems d t → Ready c w' → NoCrash (Answers c) (next t w'))
    → NoCrash (Answers c) (with_table a.channel a.arguments next w)
table_then a d next w c fine ready go =
    subst (λ x. NoCrash (Answers c) (with_table a.channel x next w)) (sym fine.arguments_dict)
      (with_table_ok c (Answers c) a.channel d next w fine.clean ready go)

exchange_declare_work_ok :
    (a : ExchangeArgs) (d : PyItems) (w : World)
    → IsDeclarable a d
    → Ready w.self w
    → NoCrash (Answers w.self) (exchange_declare_work a w)
unfolding exchange_declare_work string_as_amqbytes
exchange_declare_work_ok a d w fine ready =
    named_ok w.self (Answers w.self) a.exchange _ w fine.exchange_key ready (λ es er w1 ee r1.
      named_ok w.self (Answers w.self) a.type _ w1 fine.type_key r1 (λ ts tr w2 te r2.
        table_then a d _ w2 w.self fine r2
          (λ t w3 e r3. synchronous_ok w.self false a.channel _ "exchange.declare" w3 r3)))

-- With names that can be encoded and a clean dict, on a sound object with no exception set, declaring
-- an exchange does not crash, whatever the broker answers; NULL comes with an exception, None with
-- the object unchanged, and the object stays sound.
pub exchange_declare_ok :
    (a : ExchangeArgs) (d : PyItems) (w : World)
    → IsDeclarable a d
    → IsSound w
    → w.py.err ≡ none
    → NoCrash (Answers w.self) (exchange_declare_method (some a) w)
unfolding exchange_declare_method
exchange_declare_ok a d w fine s calm =
    opened_ok a exchange_declare_work w s calm (λ ready. exchange_declare_work_ok a d w fine ready)
