-- ===== src/Receive/Get/Keeps.antt =====
-- What `_basic_get` keeps: every predicate on the connection object alone that closing the connection
-- keeps.
use librabbitmq.Base.{ℕ, Bool, true, false, Option, none, some, if◌then◌else◌}
use librabbitmq.Base.Int.{pos}
use librabbitmq.Base.Cmd.{pure, ◌>>=◌, ◌>>◌}
use librabbitmq.Base.Keeps.{Keeps, Keeps-pure, Keeps-bind, Keeps-then, Keeps-if}
use librabbitmq.Py.{
  PyVal, PyItems, null, none_, bool, int, float, str, bytes, dict, list, tuple, other, nil,
}
use librabbitmq.Py.Held.{Object, maybe_unicode}
use librabbitmq.Amqp.{string_as_amqbytes}
use librabbitmq.Message.{set_str, basic_deliver_to_dict}
use librabbitmq.World.{
  Connection, Deliver, RpcReply, normal, missing, library_exception, server_exception, get_ok,
  queue_declare_ok, queue_delete_ok, queue_purge_ok, consume_ok, other_ok, basic_get,
}
use librabbitmq.World.Calls.{lift, call, next_reply}
use librabbitmq.World.Keeps.{
  IsStable, raise-Keeps, call-Keeps, next_reply-Keeps, next_buffered-Keeps,
}
use librabbitmq.World.OnSelf.{OnSelf, OnSelf-IsStable, lift-Keeps, releasing-Keeps}
use librabbitmq.Errors.{close, handle_amq_error, failed_status}
use librabbitmq.Errors.Keeps.{not_connected-Keeps, handle_amq_error-Keeps}
use librabbitmq.Receive.{recv, received}
use librabbitmq.Receive.Keeps.{recv-Keeps, received-Keeps}
use librabbitmq.Receive.Get.{
  Got, GetArgs, release_held, get_info, get_content, get_reply, get_from, basic_get_method,
}

module _ (Q : Connection → Type 0) (closing : Keeps (OnSelf Q) close) where
  abbrev stable : IsStable (OnSelf Q)
  stable = OnSelf-IsStable Q

  released-Keeps : Keeps {A = Option (Option Got)} (OnSelf Q) (release_held >> pure none)
  released-Keeps = Keeps-then release_held _ (releasing-Keeps Q) (Keeps-pure none)

  get_info-Keeps : (d : Deliver) (n : ℕ) → Keeps (OnSelf Q) (get_info d n)
  unfolding get_info
  get_info-Keeps d n =
      Keeps-bind _ _ (lift-Keeps Q (basic_deliver_to_dict nil d))
        (λ info. lift-Keeps Q (set_str info "message_count" (int (pos n))))

  content :
      (info : PyItems) (b : Bool)
      → Keeps {A = Option (Option Got)} (OnSelf Q) (elim b [
        | true ↦ (do
          r ← recv true true
          received r.0 (some (record { delivery_info = info; message = r.1 })))
        | false ↦ pure (some (some (record { delivery_info = info; message = none })))
      ])
  content info true =
      Keeps-bind _ _ (recv-Keeps Q closing true true) (λ r. received-Keeps Q closing r.0 _)
  content info false = Keeps-pure _

  get_content-Keeps : (info : PyItems) → Keeps (OnSelf Q) (get_content info)
  unfolding get_content
  get_content-Keeps info =
      Keeps-bind _ _ (call-Keeps _ stable _)
        (λ u. Keeps-bind _ _ (next_buffered-Keeps _ stable) (content info))

  get_reply-Keeps : (r : RpcReply) → Keeps (OnSelf Q) (get_reply r)
  unfolding get_reply
  get_reply-Keeps (normal (get_ok d n)) = Keeps-bind _ _ (get_info-Keeps d n) get_content-Keeps
  get_reply-Keeps (normal (queue_declare_ok q n m)) = Keeps-pure _
  get_reply-Keeps (normal (queue_delete_ok n)) = Keeps-pure _
  get_reply-Keeps (normal (queue_purge_ok n)) = Keeps-pure _
  get_reply-Keeps (normal (consume_ok t)) = Keeps-pure _
  get_reply-Keeps (normal (other_ok n)) = Keeps-pure _
  get_reply-Keeps missing = Keeps-pure _
  get_reply-Keeps (library_exception z) = Keeps-pure _
  get_reply-Keeps (server_exception m) = Keeps-pure _

  sent-Keeps :
      (args : GetArgs) (queue : Object)
      → Keeps {A = Option (Option Got)} (OnSelf Q) (do
        name ← lift (string_as_amqbytes queue)
        call (basic_get args.channel name args.no_ack)
        reply ← next_reply
        release_held
        z ← handle_amq_error args.channel reply "basic.get"
        if failed_status z then release_held >> pure none else get_reply reply)
  sent-Keeps args queue = Keeps-bind _ _ (lift-Keeps Q (string_as_amqbytes queue)) (λ name.
      Keeps-bind _ _ (call-Keeps _ stable _) (λ u.
        Keeps-bind _ _ (next_reply-Keeps _ stable) (λ reply.
          Keeps-bind release_held _ (releasing-Keeps Q) (λ u'.
            Keeps-bind _ _ (handle_amq_error-Keeps _ stable closing args.channel reply "basic.get")
              (λ z. Keeps-if (failed_status z) _ _ released-Keeps (get_reply-Keeps reply))))))

  from_value :
      (args : GetArgs) (v : PyVal) (i : Option ℕ)
      → Keeps (OnSelf Q) (get_from args (record { value = v; ref = i }))
  unfolding get_from
  from_value args null i = released-Keeps
  from_value args none_ i = sent-Keeps args (record { value = none_; ref = i })
  from_value args (bool b) i = sent-Keeps args (record { value = bool b; ref = i })
  from_value args (int z) i = sent-Keeps args (record { value = int z; ref = i })
  from_value args (float d) i = sent-Keeps args (record { value = float d; ref = i })
  from_value args (str cs) i = sent-Keeps args (record { value = str cs; ref = i })
  from_value args (bytes bs) i = sent-Keeps args (record { value = bytes bs; ref = i })
  from_value args (dict d) i = sent-Keeps args (record { value = dict d; ref = i })
  from_value args (list d) i = sent-Keeps args (record { value = list d; ref = i })
  from_value args (tuple d) i = sent-Keeps args (record { value = tuple d; ref = i })
  from_value args other i = sent-Keeps args (record { value = other; ref = i })

  get_from-Keeps : (args : GetArgs) (queue : Object) → Keeps (OnSelf Q) (get_from args queue)
  get_from-Keeps args queue = from_value args queue.value queue.ref

  pub basic_get_method-Keeps : (args : Option GetArgs) → Keeps (OnSelf Q) (basic_get_method args)
  unfolding basic_get_method
  basic_get_method-Keeps none = Keeps-bind _ _ (not_connected-Keeps _ stable) (λ refused.
      Keeps-if refused _ _ released-Keeps (
        Keeps-then _ _ (Keeps-then _ _ (raise-Keeps _ stable _) (releasing-Keeps Q))
          (Keeps-pure none)))
  basic_get_method-Keeps (some a) = Keeps-bind _ _ (not_connected-Keeps _ stable) (λ refused.
      Keeps-if refused _ _ released-Keeps
        (Keeps-bind _ _ (lift-Keeps Q (maybe_unicode a.queue)) (get_from-Keeps a)))
