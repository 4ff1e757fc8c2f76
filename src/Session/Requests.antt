-- ===== src/Session/Requests.antt =====
-- What a request keeps of the connection object, whatever its arguments and the library's answers.
use librabbitmq.Base.{ℕ, zero, suc, Option, none, some, List}
use librabbitmq.Base.Int.{ℤ, pos, negsuc}
use librabbitmq.Base.Cmd.{ok, Cmd, pure, ◌>>◌, Ensures}
use librabbitmq.Base.Keeps.{Keeps, Ends, Keeps-pure, Keeps-fail, Keeps-bind, Keeps-then}
use librabbitmq.Py.{PyVal, value_error, type_error}
use librabbitmq.Py.Held.{maybe_unicode}
use librabbitmq.Amqp.Build.{dict_to_table}
use librabbitmq.World.{World}
use librabbitmq.World.Calls.{lift, raise}
use librabbitmq.World.Keeps.{IsStable, raise-Keeps}
use librabbitmq.World.OnSelf.{OnSelf, OnSelf-IsStable, lift-Keeps}
use librabbitmq.Lifecycle.{InitArgs, copied, connection_type_init, fileno}
use librabbitmq.Lifecycle.Keeps.{channel_open_method-Keeps, channel_close_method-Keeps}
use librabbitmq.Receive.Keeps.{basic_recv-Keeps}
use librabbitmq.Receive.Get.Keeps.{basic_get_method-Keeps}
use librabbitmq.Basic.Keeps.{
  basic_ack_method-Keeps, basic_reject_method-Keeps, basic_qos_method-Keeps, flow_method-Keeps,
  basic_recover_method-Keeps,
}
use librabbitmq.Synchronous.Keeps.{Passes, OnArgs}
use librabbitmq.Queue.Keeps.{
  queue_bind_method-Closes, queue_unbind_method-Closes, queue_delete_method-Closes,
  queue_declare_method-Closes, queue_purge_method-Closes, exchange_declare_method-Closes,
  exchange_delete_method-Closes,
}
use librabbitmq.Consumer.Keeps.{basic_consume_method-Closes, basic_cancel_method-Closes}
use librabbitmq.Session.{
  Request, connecting, closing, asking_fileno, initialising, opening_channel, closing_channel,
  acknowledging, rejecting, setting_qos, setting_flow, recovering, receiving, getting, binding,
  unbinding, declaring_queue, deleting_queue, purging, declaring_exchange, deleting_exchange,
  consuming, cancelling, publishing, serve,
}
use librabbitmq.Publish.Keeps.{basic_publish_method-Keeps}
use librabbitmq.Session.Connect.{Holds, close-Holds, connect-Keeps}

abbrev stable : IsStable (OnSelf Holds)
stable = OnSelf-IsStable Holds

-- Releasing references does not touch the object, nor does converting arguments.
abbrev passes : Passes (OnSelf Holds) (OnSelf Holds)
passes = record {
  before = stable;
  after = stable;
  closing = close-Holds;
  releasing = λ w h. h;
  releasing_again = λ w h. h;
  naming = λ v. lift-Keeps Holds (maybe_unicode v);
}

copied-Keeps : (o : Option (List ℕ)) → Keeps (OnSelf Holds) (copied o)
copied-Keeps none = Keeps-fail
copied-Keeps (some cs) = Keeps-pure _

connection_type_init-Keeps : (a : Option InitArgs) → Keeps (OnSelf Holds) (connection_type_init a)
unfolding connection_type_init
connection_type_init-Keeps none = Keeps-then _ _ (raise-Keeps _ stable type_error) (Keeps-pure _)
connection_type_init-Keeps (some a) = Keeps-bind _ _ (copied-Keeps a.hostname) (λ host.
    Keeps-bind _ _ (copied-Keeps a.userid) (λ user.
      Keeps-bind _ _ (copied-Keeps a.password) (λ secret.
        Keeps-bind _ _ (copied-Keeps a.virtual_host) (λ vhost. record { at = λ w h. h }))))

fileno-Keeps : Keeps (OnSelf Holds) fileno
unfolding fileno
fileno-Keeps = record { at = λ w h. of_descriptor w.self.sockfd w h }
  where
    of_descriptor :
        (z : ℤ) (w : World)
        → OnSelf Holds w
        → Ensures {A = Option ℤ}
            (λ a w'. OnSelf Holds w')
            (elim z [
              | pos zero ↦ (raise value_error >> pure none) w
              | pos (suc n) ↦ ok (some (pos (suc n))) w
              | negsuc n ↦ (raise value_error >> pure none) w
            ])
    of_descriptor (pos zero) w h = h
    of_descriptor (pos (suc n)) w h = h
    of_descriptor (negsuc n) w h = h

-- The table of any value is converted without the object.
tabled :
    {A : Type 0} (f : A → PyVal) (args : Option A)
    → OnArgs (λ a. Keeps (OnSelf Holds) (lift (dict_to_table (f a)))) args
tabled f none = tt
tabled f (some a) = lift-Keeps Holds (dict_to_table (f a))

-- A method, without its result.
done : {A : Type 0} (m : Cmd World A) → Keeps (OnSelf Holds) m → Keeps (OnSelf Holds) (m >> pure tt)
done m km = Keeps-then m _ km (Keeps-pure tt)

ended :
    {A : Type 0} (m : Cmd World A)
    → Ends (OnSelf Holds) (λ a w. OnSelf Holds w) m
    → Keeps (OnSelf Holds) (m >> pure tt)
ended m em = done m (record { at = em.at })

pub serve-Keeps : (q : Request) → Keeps (OnSelf Holds) (serve q)
unfolding serve
serve-Keeps connecting = done _ connect-Keeps
serve-Keeps closing = done _ close-Holds
serve-Keeps asking_fileno = done _ fileno-Keeps
serve-Keeps (initialising a) = done _ (connection_type_init-Keeps a)
serve-Keeps (opening_channel a) = done _ (channel_open_method-Keeps _ stable close-Holds a)
serve-Keeps (closing_channel a) = done _ (channel_close_method-Keeps _ stable close-Holds a)
serve-Keeps (acknowledging a) = done _ (basic_ack_method-Keeps _ stable close-Holds a)
serve-Keeps (rejecting a) = done _ (basic_reject_method-Keeps _ stable close-Holds a)
serve-Keeps (setting_qos a) = done _ (basic_qos_method-Keeps _ stable close-Holds a)
serve-Keeps (setting_flow a) = done _ (flow_method-Keeps _ stable close-Holds a)
serve-Keeps (recovering a) = done _ (basic_recover_method-Keeps _ stable close-Holds a)
serve-Keeps (receiving a) = done _ (basic_recv-Keeps Holds close-Holds a)
serve-Keeps (getting a) = done _ (basic_get_method-Keeps Holds close-Holds a)
serve-Keeps (binding a) =
    ended _ (queue_bind_method-Closes _ _ passes a (tabled (λ b. b.arguments) a))
serve-Keeps (unbinding a) =
    ended _ (queue_unbind_method-Closes _ _ passes a (tabled (λ b. b.arguments) a))
serve-Keeps (declaring_queue a) =
    ended _ (queue_declare_method-Closes _ _ passes a (tabled (λ b. b.arguments) a))
serve-Keeps (deleting_queue a) = ended _ (queue_delete_method-Closes _ _ passes a)
serve-Keeps (purging a) = ended _ (queue_purge_method-Closes _ _ passes a)
serve-Keeps (declaring_exchange a) =
    ended _ (exchange_declare_method-Closes _ _ passes a (tabled (λ b. b.arguments) a))
serve-Keeps (deleting_exchange a) = ended _ (exchange_delete_method-Closes _ _ passes a)
serve-Keeps (consuming a) =
    ended _ (basic_consume_method-Closes _ _ passes a (tabled (λ b. b.arguments) a))
serve-Keeps (cancelling a) =
    ended _ (basic_cancel_method-Closes _ _ passes _ a stable (λ w h. h) (λ w h. h))
serve-Keeps (publishing a) = done _ (basic_publish_method-Keeps Holds close-Holds a)
