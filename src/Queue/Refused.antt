-- ===== src/Queue/Refused.antt =====
-- The methods for queues and exchanges on a closed connection.
use librabbitmq.Base.{◌≡◌, false, Option, none}
use librabbitmq.Base.Cmd.{ok}
use librabbitmq.World.{World}
use librabbitmq.Synchronous.Clean.{refused, opened_closed}
use librabbitmq.Queue.{
  BindArgs, queue_bind_method, queue_unbind_method, DeleteArgs, queue_delete_method, DeclareArgs,
  queue_declare_method, PurgeArgs, queue_purge_method, ExchangeArgs, exchange_declare_method,
  ExchangeDeleteArgs, exchange_delete_method,
}

-- On a closed connection each of them returns NULL with an exception, whatever its arguments are:
-- none is converted, no call is made, and the object does not change.
pub requests_unconnected :
    (bind : Option BindArgs) (delete : Option DeleteArgs) (declare : Option DeclareArgs)
    (purge : Option PurgeArgs) (exchange : Option ExchangeArgs)
    (exchange_delete : Option ExchangeDeleteArgs) (w : World)
    → w.self.connected ≡ false
    → (queue_bind_method bind w ≡ ok none (refused w))
      × (queue_unbind_method bind w ≡ ok none (refused w))
      × (queue_delete_method delete w ≡ ok none (refused w))
      × (queue_declare_method declare w ≡ ok none (refused w))
      × (queue_purge_method purge w ≡ ok none (refused w))
      × (exchange_declare_method exchange w ≡ ok none (refused w))
      × (exchange_delete_method exchange_delete w ≡ ok none (refused w))
unfolding queue_bind_method queue_unbind_method queue_delete_method queue_declare_method
    queue_purge_method exchange_declare_method exchange_delete_method
requests_unconnected bind delete declare purge exchange exchange_delete w e = (
  opened_closed bind _ w e,
  opened_closed bind _ w e,
  opened_closed delete _ w e,
  opened_closed declare _ w e,
  opened_closed purge _ w e,
  opened_closed exchange _ w e,
  opened_closed exchange_delete _ w e,
)
