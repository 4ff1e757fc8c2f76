-- ===== src/Tests.antt =====
-- Concrete runs. The data that they share: an interpreter without an exception, a connection object
-- that is open and one that is not, and what the library has to say.
pub mod Tables
pub mod Channels
pub mod Messages
pub mod Methods
pub mod Sessions
pub mod Publishing
pub mod Ledgers
pub mod Deliveries
pub mod Waiting
pub mod Getting
pub mod Queues
pub mod Logins
use librabbitmq.Base.{ℕ, ◌≡◌, refl, Bool, true, false, none, some, List, [], ◌∷◌}
use librabbitmq.Base.Int.{pos}
use librabbitmq.Py.{Py}
use librabbitmq.Py.Objects.{empty_array}
use librabbitmq.Amqp.{no_entries}
use librabbitmq.World.{
  World, Connection, Script, Caller, Pointer, null, alive, RpcReply, Wait, BasicProperties,
}
use librabbitmq.World.Open.{IsSound, IsAlive}
use librabbitmq.Base.Int.{ℤ}

abbrev pub calm : Py
calm = record { err = none; owned = λ i. 0; fresh = 0; held = empty_array; excess = 0 }

abbrev pub connection : Bool → Pointer → Connection
connection connected conn = record {
  conn = conn;
  hostname = some (104 ∷ []);
  userid = some (117 ∷ []);
  password = some (112 ∷ []);
  virtual_host = some (47 ∷ []);
  port = pos 5672;
  frame_max = pos 131_072;
  channel_max = pos 0xffff;
  heartbeat = pos 0;
  connect_timeout = pos 0;
  sockfd = pos 7;
  connected = connected;
  client_properties = none;
  server_properties = none;
  callbacks = none;
}

-- The library answers with these replies, frames and statuses.
abbrev pub world : Connection → List RpcReply → List Wait → List ℤ → World
world c replies frames statuses = record {
  caller = record { channels = none; outcomes = []; delivered = [] };
  py = calm;
  self = c;
  lib = record {
    replies = replies;
    frames = frames;
    statuses = statuses;
    buffered = [];
    polls = [];
    has_socket = true;
    socket_fd = pos 7;
    tuned_channel_max = pos 2047;
    tuned_frame_max = pos 131_072;
    tuned_heartbeat = pos 60;
    broker_properties = no_entries;
  };
  trace = [];
}

abbrev pub open_world : List RpcReply → List Wait → List ℤ → World
open_world = world (connection true alive)

abbrev pub closed_world : List ℤ → World
closed_world statuses = world (connection false null) [] [] statuses

pub open_world-IsAlive :
    (rs : List RpcReply) (fs : List Wait) (zs : List ℤ) → IsAlive (open_world rs fs zs)
open_world-IsAlive rs fs zs = record { alive_ = refl }

pub open_world-IsSound :
    (rs : List RpcReply) (fs : List Wait) (zs : List ℤ) → IsSound (open_world rs fs zs)
open_world-IsSound rs fs zs = record { held = λ e. refl }
