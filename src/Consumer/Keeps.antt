-- ===== src/Consumer/Keeps.antt =====
-- `_basic_consume` and `_basic_cancel` on arguments of any kind, up to the table of `arguments`.
use librabbitmq.Base.{true, false, Option, none, some, Top}
use librabbitmq.Base.Cmd.{pure}
use librabbitmq.Base.Keeps.{
  Keeps, Ends, Keeps-pure, Keeps-fail, Keeps-bind, Ends-bind, Ends-then, Ends-if,
}
use librabbitmq.Py.{
  PyVal, null, none_, bool, int, float, str, bytes, dict, list, tuple, other, type_error,
}
use librabbitmq.World.{
  World, RpcReply, normal, missing, library_exception, server_exception, get_ok, queue_declare_ok,
  queue_delete_ok, queue_purge_ok, consume_ok, other_ok,
}
use librabbitmq.World.Calls.{raise}
use librabbitmq.World.Keeps.{IsStable, raise-Keeps}
use librabbitmq.Errors.Keeps.{not_connected-Keeps}
use librabbitmq.Synchronous.{return_none, bail}
use librabbitmq.Synchronous.Keeps.{
  Passes, Closes, OnArgs, bytes-Keeps, string-Keeps, opened-Closes, named-Closes, with_table-Closes,
  synchronous-Closes,
}
use librabbitmq.Queue.Keeps.{IsTabled}
use librabbitmq.Consumer.{
  ConsumeArgs, consumed, consume_work, basic_consume_method, CancelArgs, cancel_work,
  basic_cancel_method,
}

module _ (P R : World → Type 0) (p : Passes P R) where
  tag_or_null :
      (v : PyVal)
      → Keeps {A = Option PyVal} R (elim v [ PyVal.null ↦ pure none | tag ↦ pure (some tag) ])
  tag_or_null null = Keeps-pure _
  tag_or_null none_ = Keeps-pure _
  tag_or_null (bool b) = Keeps-pure _
  tag_or_null (int z) = Keeps-pure _
  tag_or_null (float d) = Keeps-pure _
  tag_or_null (str cs) = Keeps-pure _
  tag_or_null (bytes bs) = Keeps-pure _
  tag_or_null (dict d) = Keeps-pure _
  tag_or_null (list d) = Keeps-pure _
  tag_or_null (tuple d) = Keeps-pure _
  tag_or_null other = Keeps-pure _

  consumed-Keeps : (r : RpcReply) → Keeps R (consumed r)
  unfolding consumed
  consumed-Keeps (normal (consume_ok tag)) =
      Keeps-bind _ _ (string-Keeps R p.after tag) (λ v. tag_or_null v)
  consumed-Keeps (normal (get_ok d n)) = Keeps-fail
  consumed-Keeps (normal (queue_declare_ok q n m)) = Keeps-fail
  consumed-Keeps (normal (queue_delete_ok n)) = Keeps-fail
  consumed-Keeps (normal (queue_purge_ok n)) = Keeps-fail
  consumed-Keeps (normal (other_ok n)) = Keeps-fail
  consumed-Keeps missing = Keeps-fail
  consumed-Keeps (library_exception z) = Keeps-fail
  consumed-Keeps (server_exception m) = Keeps-fail

  consume_each :
      (args : Option ConsumeArgs)
      → OnArgs (λ a. IsTabled P R p a.arguments) args
      → OnArgs (λ a. Closes P R p (consume_work a)) args
  unfolding consume_work
  consume_each none t = tt
  consume_each (some a) tabled = named-Closes P R p a.queue _ (λ queue.
      named-Closes P R p a.consumer_tag _ (λ consumer_tag.
        with_table-Closes P R p a.channel a.arguments _ tabled (λ t.
          Ends-bind _ _ _ (bytes-Keeps P queue) (λ q.
            Ends-bind _ _ _ (bytes-Keeps P consumer_tag) (λ tag.
              synchronous-Closes P R p false a.channel _ "basic.consume" consumed
                consumed-Keeps)))))

  pub basic_consume_method-Closes :
      (args : Option ConsumeArgs)
      → OnArgs (λ a. IsTabled P R p a.arguments) args
      → Closes P R p (basic_consume_method args)
  unfolding basic_consume_method
  basic_consume_method-Closes args tabled = opened-Closes P R p args _ (consume_each args tabled)

  cancel_work-Closes : (a : CancelArgs) → Closes P R p (cancel_work a)
  unfolding cancel_work
  cancel_work-Closes a = named-Closes P R p a.consumer_tag _ (λ consumer_tag.
      Ends-bind _ _ _ (bytes-Keeps P consumer_tag) (λ tag.
        synchronous-Closes P R p true a.channel _ "basic.cancel" return_none (λ r. Keeps-pure _)))

  -- On a closed connection nothing is released, since nothing is held: `P0` holds at the start.
  pub basic_cancel_method-Closes :
      (P0 : World → Type 0) (args : Option CancelArgs)
      → IsStable P0
      → ((w : World) → P0 w → P w)
      → ((w : World) → P0 w → R w)
      → Ends P0 (λ r w. R w) (basic_cancel_method args)
  unfolding basic_cancel_method
  basic_cancel_method-Closes P0 none stable opens ends =
      Ends-bind _ _ _ (not_connected-Keeps P0 stable) (λ refused.
        Ends-if _ refused _ _ (record { at = ends })
          (Ends-then _ (raise type_error) (bail {A = Top}) (raise-Keeps P0 stable type_error)
            (record { at = λ w h. p.releasing w (opens w h) })))
  basic_cancel_method-Closes P0 (some a) stable opens ends =
      Ends-bind _ _ _ (not_connected-Keeps P0 stable) (λ refused.
        Ends-if _ refused _ _ (record { at = ends })
          (record { at = λ w h. (cancel_work-Closes a).at w (opens w h) }))
