-- ===== src/Publish/Keeps.antt =====
-- What `_basic_publish` keeps: every predicate on the connection object alone that closing the
-- connection keeps.
use librabbitmq.Base.{ℕ, Bool, true, false, Option, none, some, Top}
use librabbitmq.Base.Cmd.{◌>>◌}
use librabbitmq.Base.Keeps.{Keeps, Ends, Keeps-pure, Keeps-bind, Keeps-then, Ends-Keeps}
use librabbitmq.Py.{new_ref, xdecref}
use librabbitmq.Py.Held.{Object, maybe_unicode}
use librabbitmq.Amqp.{string_as_amqbytes}
use librabbitmq.World.{Connection, BasicProperties}
use librabbitmq.World.Calls.{lift}
use librabbitmq.World.Keeps.{IsStable, call-Keeps, next_status-Keeps}
use librabbitmq.World.OnSelf.{OnSelf, OnSelf-IsStable, lift-Keeps, releasing-Keeps}
use librabbitmq.Errors.{close}
use librabbitmq.Errors.Keeps.{handle_error-Keeps, revive_channel-Keeps}
use librabbitmq.Synchronous.{bail, release_held}
use librabbitmq.Synchronous.Keeps.{OnArgs, opened-Ends, named-Ends}
use librabbitmq.Publish.{
  PublishArgs, published, publish_send, publish_properties, publish_work, basic_publish_method,
}
use librabbitmq.Publish.Properties.{dict_to_basic_properties}

module _ (Q : Connection → Type 0) (closing : Keeps (OnSelf Q) close) where
  abbrev stable : IsStable (OnSelf Q)
  stable = OnSelf-IsStable Q

  bails : Keeps {A = Option Top} (OnSelf Q) bail
  bails = Keeps-then release_held _ (releasing-Keeps Q) (Keeps-pure none)

  published-Keeps : (ch : ℕ) (b : Bool) → Keeps (OnSelf Q) (published ch b)
  unfolding published
  published-Keeps ch true = Keeps-pure _
  published-Keeps ch false = Keeps-bind _ _ (revive_channel-Keeps _ stable closing ch) (λ u. bails)

  publish_send-Keeps :
      (a : PublishArgs) (e r : Object) (props : BasicProperties)
      → Keeps (OnSelf Q) (publish_send a e r props)
  unfolding publish_send
  publish_send-Keeps a e r props = Keeps-bind _ _ (lift-Keeps Q (string_as_amqbytes e)) (λ eb.
      Keeps-bind _ _ (lift-Keeps Q (string_as_amqbytes r)) (λ rb.
        Keeps-bind _ _ (call-Keeps _ stable _) (λ u.
          Keeps-bind _ _ (next_status-Keeps _ stable) (λ ret.
            Keeps-bind _ _ (call-Keeps _ stable _) (λ u'.
              Keeps-bind release_held _ (releasing-Keeps Q) (λ u2.
                Keeps-bind _ _ (handle_error-Keeps _ stable ret "basic.publish")
                  (published-Keeps a.channel)))))))

  publish_properties-Keeps :
      (a : PublishArgs) (e r : Object) → Keeps (OnSelf Q) (publish_properties a e r)
  unfolding publish_properties
  publish_properties-Keeps a e r = Keeps-bind _ _ (lift-Keeps Q new_ref) (λ i.
      Keeps-bind _ _ (call-Keeps _ stable _)
        (λ u. Keeps-bind _ _ (lift-Keeps Q (dict_to_basic_properties a.propdict)) (given i)))
    where
      given :
          (i : ℕ) (o : Option BasicProperties)
          → Keeps {A = Option Top}
              (OnSelf Q)
              (elim o [ none ↦ bail | some p ↦ (do lift (xdecref i); publish_send a e r p) ])
      given i none = bails
      given i (some p) = Keeps-bind _ _ (lift-Keeps Q (xdecref i)) (λ u. publish_send-Keeps a e r p)

  publish_each :
      (args : Option PublishArgs)
      → OnArgs (λ a. Ends (OnSelf Q) (λ t w. OnSelf Q w) (publish_work a)) args
  unfolding publish_work
  publish_each none = tt
  publish_each (some a) =
      named-Ends _ _ (Ends-Keeps _ bails) a.exchange _ (lift-Keeps Q (maybe_unicode a.exchange))
        (λ e.
          named-Ends _ _ (Ends-Keeps _ bails) a.routing_key _
            (lift-Keeps Q (maybe_unicode a.routing_key))
            (λ r. Ends-Keeps _ (publish_properties-Keeps a e r)))

  pub basic_publish_method-Keeps :
      (args : Option PublishArgs) → Keeps (OnSelf Q) (basic_publish_method args)
  unfolding basic_publish_method
  basic_publish_method-Keeps args = record {
    at = (opened-Ends _ _ (Ends-Keeps _ bails) args publish_work stable (publish_each args)).at;
  }
