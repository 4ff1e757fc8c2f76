-- ===== src/Tests/Sessions.antt =====
-- A session: a new object is initialised and connected.
use librabbitmq.Base.{refl, false, none, some, [], ◌∷◌, true}
use librabbitmq.Base.Int.{pos}
use librabbitmq.Base.Cmd.{NoCrash}
use librabbitmq.Py.{dict, nil}
use librabbitmq.World.{
  World, normal, other_ok, null, alive, login, get_sockfd, socket_open, tcp_socket_new,
  new_connection,
}
use librabbitmq.World.Open.{IsSound}
use librabbitmq.Errors.{close, handle_amq_status, handle_amq_error, handle_with}
use librabbitmq.Lifecycle.{
  InitArgs, connection_type_new, connection_type_init, open_socket, login_table, log_in,
  connect_new, connect,
}
use librabbitmq.Amqp.Read.{table_to_dict, dict_loop}
use librabbitmq.Py.Held.{xdecref_held, release_array, release_entries}
use librabbitmq.Session.{
  initialising, connecting, acknowledging, serve, created_in, Reach, start, step, served,
}
use librabbitmq.Session.Reachable.{Reach-IsSound, serve-Reach}
use librabbitmq.Tests.{calm, connection, open_world}

abbrev args : InitArgs
args = record {
  hostname = some (104 ∷ []);
  userid = some (117 ∷ []);
  password = some (112 ∷ []);
  virtual_host = some (47 ∷ []);
  port = none;
  channel_max = none;
  frame_max = none;
  heartbeat = none;
  client_properties = none;
  connect_timeout = none;
}

-- The broker accepts the login.
abbrev around : World
around = open_world (normal (other_ok 0) ∷ []) [] (pos 0 ∷ [])

abbrev fresh : World
fresh = created_in around.caller calm around.lib

-- What `__init__` makes of the object, and what `connect` adds.
abbrev initialised : World
initialised = record fresh {
  self = record (connection false null) {
    frame_max = pos 131_072;
    sockfd = pos 0;
    callbacks = some (dict nil);
  };
}

abbrev connected : World
connected = record fresh {
  self = record (connection true alive) {
    channel_max = pos 2047;
    heartbeat = pos 60;
    callbacks = some (dict nil);
    server_properties = some (dict nil);
  };
  lib = record lib { replies = []; statuses = [] };
  trace =
      login (47 ∷ []) (pos 0xffff) (pos 131_072) (pos 0) none (117 ∷ []) (112 ∷ [])
      ∷ get_sockfd
      ∷ socket_open (104 ∷ []) (pos 5672)
      ∷ tcp_socket_new
      ∷ new_connection
      ∷ [];
}
  where
    open around use {lib}

fresh-Reach : Reach fresh
fresh-Reach = start around.caller calm around.lib

initialised-Reach : Reach initialised
unfolding serve connection_type_new connection_type_init
initialised-Reach =
    step {w = fresh} {w' = initialised} fresh-Reach (served (initialising (some args)) refl)

connected-Reach : Reach connected
unfolding serve connection_type_new connection_type_init connect connect_new open_socket log_in
    login_table close handle_amq_status handle_amq_error handle_with table_to_dict dict_loop
    xdecref_held release_array release_entries
connected-Reach = step {w = initialised} {w' = connected} initialised-Reach (served connecting refl)

Reach-IsSound_example : IsSound connected
Reach-IsSound_example = Reach-IsSound connected connected-Reach

serve-Reach_example :
    NoCrash
      (λ a w'. Reach w')
      (serve
        (acknowledging (some (record { channel = 1; delivery_tag = pos 9; multiple = 0 })))
        connected)
serve-Reach_example =
    serve-Reach connected
      (acknowledging (some (record { channel = 1; delivery_tag = pos 9; multiple = 0 })))
      connected-Reach tt
