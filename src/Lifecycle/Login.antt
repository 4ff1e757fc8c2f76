-- ===== src/Lifecycle/Login.antt =====
-- `PyRabbitMQ_Connection_connect` from the open socket on, where the broker accepts the login.
use librabbitmq.Base.{ℕ, ◌≡◌, ◌∙◌, refl, true, false, Option, none, some, List, ◌∷◌, Top}
use librabbitmq.Base.Cmd.{Returns, Returns-bind}
use librabbitmq.Py.{Py, PyVal, PyItems, dict}
use librabbitmq.Py.Held.{xdecref_held}
use librabbitmq.Py.Held.Laws.{xdecref_held-err}
use librabbitmq.Amqp.{Entries}
use librabbitmq.Amqp.Build.{dict_to_table}
use librabbitmq.Amqp.Encodes.{EncodesItems, IsCleanItems}
use librabbitmq.Amqp.Encodes.Total.{dict_to_table-Encodes}
use librabbitmq.Amqp.Read.RoundTrip.{IsPlainItems, table_to_dict_back}
use librabbitmq.World.{World, Call, Connection, alive, RpcReply, normal, Decoded, get_sockfd, login}
use librabbitmq.Errors.{handle_amq_error, handle_with}
use librabbitmq.Synchronous.Sent.{with_py_returns}
use librabbitmq.Lifecycle.{login_table, log_in}

-- The client properties of the object, and the table that is sent for them.
abbrev pub given : Option PyItems → Option PyVal
given none = none
given (some d) = some (dict d)

abbrev pub IsCleanOption : Option PyItems → Type 0
IsCleanOption none = Top
IsCleanOption (some d) = IsCleanItems d

abbrev pub Says : Option PyItems → Option Entries → Type 0
Says none o = o ≡ none
Says (some d) o = (t : Entries) × (o ≡ some t) × EncodesItems d t

login_table_ok :
    (client : Option PyItems) (w : World)
    → IsCleanOption client
    → w.py.err ≡ none
    → Returns
        (λ o v. (s : Py) × (v ≡ record w { py = s }) × (s.err ≡ none) × Says client o)
        (login_table (given client) w)
unfolding login_table
login_table_ok none w clean calm = (w.py, refl, calm, refl)
login_table_ok (some d) w clean calm =
    with_py_returns _ _ (dict_to_table (dict d) w.py) w _ (dict_to_table-Encodes d w.py clean)
      (λ t s p. (s, refl, p.1 ∙ calm, (t, refl, p.0)))

-- What an object says of the broker and of itself.
pub record Credentials : Type 0 where
  pub host : List ℕ
  pub vhost : List ℕ
  pub user : List ℕ
  pub secret : List ℕ
  pub client : Option PyItems

-- The object with these, not connected.
pub record HasCredentials (w : World) (c : Credentials) : Type 0 where
  pub unconnected : w.self.connected ≡ false
  pub hostname : w.self.hostname ≡ some c.host
  pub virtual_host : w.self.virtual_host ≡ some c.vhost
  pub userid : w.self.userid ≡ some c.user
  pub password : w.self.password ≡ some c.secret
  pub client_properties : w.self.client_properties ≡ given c.client

-- The object after a login, with what the handshake settled.
abbrev pub joined : PyItems → World → Connection
joined props w = record self {
  conn = alive;
  sockfd = lib.socket_fd;
  connected = true;
  channel_max = lib.tuned_channel_max;
  frame_max = lib.tuned_frame_max;
  heartbeat = lib.tuned_heartbeat;
  server_properties = some (dict props);
}
  where
    open w use {self, lib}

-- The calls of a login, behind those that were made before.
abbrev pub logged_in : Credentials → Option Entries → Connection → List Call → List Call
logged_in c o self calls =
    login c.vhost self.channel_max self.frame_max self.heartbeat o c.user c.secret
    ∷ get_sockfd
    ∷ calls

abbrev pub LoggedIn : Credentials → PyItems → List RpcReply → World → Option Top → World → Type 0
LoggedIn c props rs w r v =
    (o : Option Entries) × Says c.client o
    × (r ≡ some tt)
    × (v.self ≡ joined props w)
    × (v.py.err ≡ none)
    × (v.lib.replies ≡ rs)
    × (v.lib.statuses ≡ w.lib.statuses)
    × (v.trace ≡ logged_in c o w.self w.trace)

-- The world with the credentials and this answer.
abbrev pub at : Credentials → RpcReply → List RpcReply → World → World
at c reply rs w = record w {
  self = record self {
    conn = alive;
    connected = false;
    hostname = some c.host;
    virtual_host = some c.vhost;
    userid = some c.user;
    password = some c.secret;
    client_properties = given c.client;
  };
  lib = record lib { replies = reply ∷ rs };
}
  where
    open w use {self, lib}

module _ (c : Credentials) (props : PyItems) (answer : Decoded) (rs : List RpcReply)
    (clean : IsCleanOption c.client) (plain : IsPlainItems props) where
  pub log_in_at :
      (w : World)
      → w.py.err ≡ none
      → EncodesItems props w.lib.broker_properties
      → Returns
          (LoggedIn c props rs (at c (normal answer) rs w))
          (log_in (at c (normal answer) rs w))
  unfolding log_in handle_amq_error handle_with
  log_in_at w calm e =
      Returns-bind (λ o v. (s : Py) × (v ≡ record w' { py = s }) × (s.err ≡ none) × Says c.client o)
        _ (login_table (given c.client) w') _ (login_table_ok c.client w' clean calm)
        (λ o v p.
          rw (p.1, table_to_dict_back props w.lib.broker_properties (xdecref_held p.0) e plain)
            (o, p.3, refl, refl, xdecref_held-err p.0 ∙ p.2, refl, refl, refl))
    where
      w' : World
      w' = record at_ { self = record self { sockfd = lib.socket_fd }; trace = get_sockfd ∷ trace }
        where
          at_ : World
          at_ = at c (normal answer) rs w

          open at_ use {self, lib, trace}
