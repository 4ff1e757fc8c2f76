-- ===== src/Session.antt =====
-- A session with the connection object of connection.c: any of its methods is called with any
-- arguments, one after another, and between the calls everything outside the object may change.
pub mod Connect
pub mod Requests
pub mod Reachable
use librabbitmq.Base.{ℕ, ◌≡◌, Option, Top, List, []}
use librabbitmq.Base.Cmd.{Run, ok, Cmd, pure, ◌>>◌}
use librabbitmq.Py.{Py, PyVal}
use librabbitmq.World.{World, Connection, Caller, Script, Call}
use librabbitmq.Errors.{close}
use librabbitmq.Lifecycle.{
  InitArgs, connection_type_new, connection_type_init, fileno, connect, channel_open_method,
  channel_close_method,
}
use librabbitmq.Receive.{basic_recv}
use librabbitmq.Receive.Waiting.{Timeout}
use librabbitmq.Receive.Get.{GetArgs, basic_get_method}
use librabbitmq.Basic.{
  AckArgs, QosArgs, FlagArgs, basic_ack_method, basic_reject_method, basic_qos_method, flow_method,
  basic_recover_method,
}
use librabbitmq.Queue.{
  BindArgs, DeleteArgs, DeclareArgs, PurgeArgs, ExchangeArgs, ExchangeDeleteArgs, queue_bind_method,
  queue_unbind_method, queue_delete_method, queue_declare_method, queue_purge_method,
  exchange_declare_method, exchange_delete_method,
}
use librabbitmq.Publish.{PublishArgs, basic_publish_method}
use librabbitmq.Consumer.{ConsumeArgs, CancelArgs, basic_consume_method, basic_cancel_method}

-- The methods that the type has, with their arguments; `none` stands for arguments that do not parse.
pub data Request : Type 0 where
  connecting closing asking_fileno : Request
  initialising : Option InitArgs → Request
  opening_channel closing_channel : Option ℕ → Request
  acknowledging rejecting : Option AckArgs → Request
  setting_qos : Option QosArgs → Request
  setting_flow recovering : Option FlagArgs → Request
  receiving : Option Timeout → Request
  getting : Option GetArgs → Request
  binding unbinding : Option BindArgs → Request
  declaring_queue : Option DeclareArgs → Request
  deleting_queue : Option DeleteArgs → Request
  purging : Option PurgeArgs → Request
  declaring_exchange : Option ExchangeArgs → Request
  deleting_exchange : Option ExchangeDeleteArgs → Request
  consuming : Option ConsumeArgs → Request
  cancelling : Option CancelArgs → Request
  publishing : Option PublishArgs → Request

-- The method that the type has for the request (`PyRabbitMQ_ConnectionType_methods`, `tp_init`).
unfoldable pub serve : Request → Cmd World Top
serve connecting = connect >> pure tt
serve closing = close >> pure tt
serve asking_fileno = fileno >> pure tt
serve (initialising a) = connection_type_init a >> pure tt
serve (opening_channel a) = channel_open_method a >> pure tt
serve (closing_channel a) = channel_close_method a >> pure tt
serve (acknowledging a) = basic_ack_method a >> pure tt
serve (rejecting a) = basic_reject_method a >> pure tt
serve (setting_qos a) = basic_qos_method a >> pure tt
serve (setting_flow a) = flow_method a >> pure tt
serve (recovering a) = basic_recover_method a >> pure tt
serve (receiving a) = basic_recv a >> pure tt
serve (getting a) = basic_get_method a >> pure tt
serve (binding a) = queue_bind_method a >> pure tt
serve (unbinding a) = queue_unbind_method a >> pure tt
serve (declaring_queue a) = queue_declare_method a >> pure tt
serve (deleting_queue a) = queue_delete_method a >> pure tt
serve (purging a) = queue_purge_method a >> pure tt
serve (declaring_exchange a) = exchange_declare_method a >> pure tt
serve (deleting_exchange a) = exchange_delete_method a >> pure tt
serve (consuming a) = basic_consume_method a >> pure tt
serve (cancelling a) = basic_cancel_method a >> pure tt
serve (publishing a) = basic_publish_method a >> pure tt

-- What a new object is, and everything around it.
abbrev pub created_in : Caller → Py → Script → World
created_in caller py lib = record {
  caller = caller;
  py = py;
  self = connection_type_new;
  lib = lib;
  trace = [];
}

-- All attributes of the object are read-only; what stands in the dict `callbacks` is not.
abbrev pub outside : Caller → Py → Script → Option PyVal → World → World
outside caller py lib callbacks w = record {
  caller = caller;
  py = py;
  self = record self { callbacks = callbacks };
  lib = lib;
  trace = trace;
}
  where
    open w use {self, trace}

-- A method that returns, or a change from outside.
pub data Step : World → World → Type 0 where
  served : {w w' : World} (q : Request) → serve q w ≡ ok tt w' → Step w w'
  changed :
      {w : World} (caller : Caller) (py : Py) (lib : Script) (callbacks : Option PyVal)
      → Step w (outside caller py lib callbacks w)

-- The states of a session.
pub data Reach : World → Type 0 where
  start : (caller : Caller) (py : Py) (lib : Script) → Reach (created_in caller py lib)
  step : {w w' : World} → Reach w → Step w w' → Reach w'
