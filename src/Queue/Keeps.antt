-- ===== src/Queue/Keeps.antt =====
-- The methods for queues and exchanges on arguments of any kind, up to the table of `arguments`.
use librabbitmq.Base.{ℕ, true, false, Option, none, some, Top}
use librabbitmq.Base.Cmd.{Cmd, fail, ◌>>◌}
use librabbitmq.Base.Keeps.{
  Keeps, Keeps-pure, Keeps-fail, Keeps-bind, Ends-bind, Ends-then, Ends-Keeps, Ends-seq_then,
}
use librabbitmq.Py.{PyVal}
use librabbitmq.Amqp.{AmqpBytes, Entries}
use librabbitmq.Amqp.Build.{dict_to_table}
use librabbitmq.World.{
  World, RpcReply, normal, missing, library_exception, server_exception, get_ok, queue_declare_ok,
  queue_delete_ok, queue_purge_ok, consume_ok, other_ok, get_rpc_reply, release_on_channel,
}
use librabbitmq.World.Calls.{lift, call}
use librabbitmq.World.Keeps.{call-Keeps, next_reply-Keeps}
use librabbitmq.Synchronous.{release_held, return_none, handled}
use librabbitmq.Synchronous.Keeps.{
  Passes, Closes, OnArgs, bytes-Keeps, string-Keeps, opened-Closes, named-Closes, with_table-Closes,
  handled-Keeps, synchronous-Closes,
}
use librabbitmq.Queue.{
  BindArgs, bind_work, bind_send, queue_bind_method, unbind_send, queue_unbind_method, with_queue,
  DeleteArgs, delete_answered, delete_work, queue_delete_method, DeclareArgs, declared,
  queue_declare_work, queue_declare_method, PurgeArgs, purged, purge_work, queue_purge_method,
  ExchangeArgs, exchange_declare_work, exchange_declare_method, ExchangeDeleteArgs,
  exchange_delete_work, exchange_delete_method,
}

module _ (P R : World → Type 0) (p : Passes P R) where
  -- The table of a value is converted under `P`.
  abbrev pub IsTabled : PyVal → Type 0
  IsTabled v = Keeps P (lift (dict_to_table v))

  returns_none : (r : RpcReply) → Keeps R (return_none r)
  returns_none r = Keeps-pure _

  bind_work-Closes :
      (send : AmqpBytes → AmqpBytes → AmqpBytes → Entries → Cmd World (Option Top)) (a : BindArgs)
      → IsTabled a.arguments
      → ((q e r : AmqpBytes) (t : Entries) → Closes P R p (send q e r t))
      → Closes P R p (bind_work send a)
  unfolding bind_work
  bind_work-Closes send a tabled closes = named-Closes P R p a.queue _ (λ queue.
      named-Closes P R p a.exchange _ (λ exchange.
        named-Closes P R p a.routing_key _ (λ routing_key.
          with_table-Closes P R p a.channel a.arguments _ tabled (λ t.
            Ends-bind _ _ _ (bytes-Keeps P queue) (λ q.
              Ends-bind _ _ _ (bytes-Keeps P exchange)
                (λ e. Ends-bind _ _ _ (bytes-Keeps P routing_key) (λ r. closes q e r t)))))))

  bind_each :
      (a : Option BindArgs)
      → OnArgs (λ b. IsTabled b.arguments) a
      → OnArgs (λ b. Closes P R p (bind_work (bind_send b) b)) a
  unfolding bind_send
  bind_each none t = tt
  bind_each (some a) t =
      bind_work-Closes (bind_send a) a t (λ q e r t'.
        synchronous-Closes P R p true a.channel _ "queue.bind" return_none returns_none)

  unbind_each :
      (a : Option BindArgs)
      → OnArgs (λ b. IsTabled b.arguments) a
      → OnArgs (λ b. Closes P R p (bind_work (unbind_send b) b)) a
  unfolding unbind_send
  unbind_each none t = tt
  unbind_each (some a) t = bind_work-Closes (unbind_send a) a t (λ q e r t'.
      synchronous-Closes P R p true a.channel _ "queue.unbind" return_none returns_none)

  pub queue_bind_method-Closes :
      (a : Option BindArgs)
      → OnArgs (λ b. IsTabled b.arguments) a
      → Closes P R p (queue_bind_method a)
  unfolding queue_bind_method
  queue_bind_method-Closes a t = opened-Closes P R p a _ (bind_each a t)

  pub queue_unbind_method-Closes :
      (a : Option BindArgs)
      → OnArgs (λ b. IsTabled b.arguments) a
      → Closes P R p (queue_unbind_method a)
  unfolding queue_unbind_method
  queue_unbind_method-Closes a t = opened-Closes P R p a _ (unbind_each a t)

  with_queue-Closes :
      (v : PyVal) (work : AmqpBytes → Cmd World (Option ℕ))
      → ((q : AmqpBytes) → Closes P R p (work q))
      → Closes P R p (with_queue v work)
  unfolding with_queue
  with_queue-Closes v work closes =
      named-Closes P R p v _ (λ queue. Ends-bind _ _ _ (bytes-Keeps P queue) closes)

  delete_refused :
      (a : DeleteArgs) (r : RpcReply)
      → Keeps R (handled {B = ℕ} a.channel r "queue.delete" (λ r'. fail))
  delete_refused a r =
      handled-Keeps P R p a.channel r "queue.delete" (λ r'. fail) (λ r'. Keeps-fail)

  asked_again :
      (a : DeleteArgs) (r : RpcReply)
      → Closes P R p (do
        call get_rpc_reply
        call (release_on_channel a.channel)
        release_held
        handled {B = ℕ} a.channel r "queue.delete" (λ r'. fail))
  asked_again a r = Ends-bind _ _ _ (call-Keeps P p.before _) (λ u.
      Ends-bind _ _ _ (call-Keeps P p.before _) (λ u'.
        Ends-seq_then R _ release_held _ (record { at = λ w h. p.releasing w h })
          (Ends-Keeps _ (delete_refused a r))))

  delete_answered-Closes : (a : DeleteArgs) (r : RpcReply) → Closes P R p (delete_answered a r)
  unfolding delete_answered
  delete_answered-Closes a (normal (queue_delete_ok n)) =
      Ends-seq_then R _ _ _
        (Ends-then _ _ _ (call-Keeps P p.before _) (record { at = λ w h. p.releasing w h }))
        (Ends-Keeps _ (Keeps-pure _))
  delete_answered-Closes a (normal (get_ok d n)) = asked_again a (normal (get_ok d n))
  delete_answered-Closes a (normal (queue_declare_ok q n m)) =
      asked_again a (normal (queue_declare_ok q n m))
  delete_answered-Closes a (normal (queue_purge_ok n)) = asked_again a (normal (queue_purge_ok n))
  delete_answered-Closes a (normal (consume_ok t)) = asked_again a (normal (consume_ok t))
  delete_answered-Closes a (normal (other_ok n)) = asked_again a (normal (other_ok n))
  delete_answered-Closes a missing = asked_again a missing
  delete_answered-Closes a (library_exception z) = asked_again a (library_exception z)
  delete_answered-Closes a (server_exception m) = asked_again a (server_exception m)

  delete_each :
      (args : Option DeleteArgs)
      → OnArgs (λ a. Closes P R p (with_queue a.queue (delete_work a))) args
  unfolding delete_work
  delete_each none = tt
  delete_each (some a) = with_queue-Closes a.queue (delete_work a) (λ q.
      Ends-bind _ _ _ (call-Keeps P p.before _)
        (λ u. Ends-bind _ _ _ (next_reply-Keeps P p.before) (λ r. delete_answered-Closes a r)))

  pub queue_delete_method-Closes :
      (args : Option DeleteArgs) → Closes P R p (queue_delete_method args)
  unfolding queue_delete_method
  queue_delete_method-Closes args = opened-Closes P R p args _ (delete_each args)

  purged-Keeps : (r : RpcReply) → Keeps R (purged r)
  unfolding purged
  purged-Keeps (normal (queue_purge_ok n)) = Keeps-pure _
  purged-Keeps (normal (get_ok d n)) = Keeps-fail
  purged-Keeps (normal (queue_declare_ok q n m)) = Keeps-fail
  purged-Keeps (normal (queue_delete_ok n)) = Keeps-fail
  purged-Keeps (normal (consume_ok t)) = Keeps-fail
  purged-Keeps (normal (other_ok n)) = Keeps-fail
  purged-Keeps missing = Keeps-fail
  purged-Keeps (library_exception z) = Keeps-fail
  purged-Keeps (server_exception m) = Keeps-fail

  purge_each :
      (args : Option PurgeArgs)
      → OnArgs (λ a. Closes P R p (with_queue a.queue (purge_work a))) args
  unfolding purge_work
  purge_each none = tt
  purge_each (some a) =
      with_queue-Closes a.queue (purge_work a)
        (λ q. synchronous-Closes P R p true a.channel _ "queue.purge" purged purged-Keeps)

  pub queue_purge_method-Closes : (args : Option PurgeArgs) → Closes P R p (queue_purge_method args)
  unfolding queue_purge_method
  queue_purge_method-Closes args = opened-Closes P R p args _ (purge_each args)

  declared-Keeps : (r : RpcReply) → Keeps R (declared r)
  unfolding declared
  declared-Keeps (normal (queue_declare_ok name n m)) =
      Keeps-bind _ _ (string-Keeps R p.after name) (λ q. Keeps-pure _)
  declared-Keeps (normal (queue_purge_ok n)) = Keeps-fail
  declared-Keeps (normal (get_ok d n)) = Keeps-fail
  declared-Keeps (normal (queue_delete_ok n)) = Keeps-fail
  declared-Keeps (normal (consume_ok t)) = Keeps-fail
  declared-Keeps (normal (other_ok n)) = Keeps-fail
  declared-Keeps missing = Keeps-fail
  declared-Keeps (library_exception z) = Keeps-fail
  declared-Keeps (server_exception m) = Keeps-fail

  declare_each :
      (args : Option DeclareArgs)
      → OnArgs (λ a. IsTabled a.arguments) args
      → OnArgs (λ a. Closes P R p (queue_declare_work a)) args
  unfolding queue_declare_work
  declare_each none t = tt
  declare_each (some a) tabled = named-Closes P R p a.queue _ (λ queue.
      with_table-Closes P R p a.channel a.arguments _ tabled (λ t.
        Ends-bind _ _ _ (bytes-Keeps P queue) (λ q.
          synchronous-Closes P R p false a.channel _ "queue.declare" declared declared-Keeps)))

  pub queue_declare_method-Closes :
      (args : Option DeclareArgs)
      → OnArgs (λ a. IsTabled a.arguments) args
      → Closes P R p (queue_declare_method args)
  unfolding queue_declare_method
  queue_declare_method-Closes args tabled = opened-Closes P R p args _ (declare_each args tabled)

  exchange_each :
      (args : Option ExchangeArgs)
      → OnArgs (λ a. IsTabled a.arguments) args
      → OnArgs (λ a. Closes P R p (exchange_declare_work a)) args
  unfolding exchange_declare_work
  exchange_each none t = tt
  exchange_each (some a) tabled = named-Closes P R p a.exchange _ (λ exchange.
      named-Closes P R p a.type _ (λ type.
        with_table-Closes P R p a.channel a.arguments _ tabled (λ t.
          Ends-bind _ _ _ (bytes-Keeps P exchange) (λ e. Ends-bind _ _ _ (bytes-Keeps P type) (λ y.
            synchronous-Closes P R p false a.channel _ "exchange.declare" return_none
              returns_none)))))

  pub exchange_declare_method-Closes :
      (args : Option ExchangeArgs)
      → OnArgs (λ a. IsTabled a.arguments) args
      → Closes P R p (exchange_declare_method args)
  unfolding exchange_declare_method
  exchange_declare_method-Closes args tabled =
      opened-Closes P R p args _ (exchange_each args tabled)

  exchange_delete_each :
      (args : Option ExchangeDeleteArgs) → OnArgs (λ a. Closes P R p (exchange_delete_work a)) args
  unfolding exchange_delete_work
  exchange_delete_each none = tt
  exchange_delete_each (some a) = named-Closes P R p a.exchange _ (λ exchange.
      Ends-bind _ _ _ (bytes-Keeps P exchange)
        (λ e. synchronous-Closes P R p true a.channel _ "exchange.delete" return_none returns_none))

  pub exchange_delete_method-Closes :
      (args : Option ExchangeDeleteArgs) → Closes P R p (exchange_delete_method args)
  unfolding exchange_delete_method
  exchange_delete_method-Closes args = opened-Closes P R p args _ (exchange_delete_each args)
