-- ===== src/Lifecycle/Connected.antt =====
-- `PyRabbitMQ_Connection_connect` where the broker accepts the login.
use librabbitmq.Base.{
  zero, suc, ◌≡◌, refl, sym, subst, true, false, Option, none, some, List, ◌∷◌, Top,
}
use librabbitmq.Base.Int.{ℤ, pos, negsuc}
use librabbitmq.Base.Cmd.{Returns, Returns-mono}
use librabbitmq.Py.{PyItems}
use librabbitmq.Amqp.{Entries}
use librabbitmq.Amqp.Encodes.{EncodesItems}
use librabbitmq.Amqp.Read.RoundTrip.{IsPlainItems}
use librabbitmq.World.{World, RpcReply, normal, Decoded, new_connection, tcp_socket_new}
use librabbitmq.Errors.{handle_amq_status}
use librabbitmq.Lifecycle.{log_in, connect}
use librabbitmq.Lifecycle.Connect.{opening}
use librabbitmq.Lifecycle.Login.{
  given, IsCleanOption, Says, Credentials, HasCredentials, joined, logged_in, LoggedIn, at,
  log_in_at,
}

-- None is returned with no exception set; the object is connected, with what the handshake settled and
-- the properties of the broker; the answer and the status have been taken, and these calls were made.
abbrev pub Connected :
    Credentials → PyItems → List RpcReply → List ℤ → World → Option Top → World → Type 0
Connected c props rs zs w r v =
    (o : Option Entries) × Says c.client o
    × (r ≡ some tt)
    × (v.self ≡ joined props w)
    × (v.py.err ≡ none)
    × (v.lib.replies ≡ rs)
    × (v.lib.statuses ≡ zs)
    × (v.trace
        ≡ logged_in c o w.self (
            opening c.host w.self.port w.self.connect_timeout
            ∷ tcp_socket_new
            ∷ new_connection
            ∷ w.trace))

-- The world before a login that is accepted.
abbrev before : ℤ → Credentials → RpcReply → List RpcReply → List ℤ → World → World
before limit c reply rs zs w = record w {
  self = record self {
    connected = false;
    hostname = some c.host;
    virtual_host = some c.vhost;
    userid = some c.user;
    password = some c.secret;
    client_properties = given c.client;
    connect_timeout = limit;
  };
  lib = record lib { replies = reply ∷ rs; statuses = pos 0 ∷ zs; has_socket = true };
}
  where
    open w use {self, lib}

abbrev opened_socket : ℤ → Credentials → List ℤ → World → World
opened_socket limit c zs w = record w {
  self = record self { connect_timeout = limit };
  lib = record lib { statuses = zs; has_socket = true };
  trace = opening c.host self.port limit ∷ tcp_socket_new ∷ new_connection ∷ trace;
}
  where
    open w use {self, lib, trace}

module _ (c : Credentials) (props : PyItems) (answer : Decoded) (rs : List RpcReply) (zs : List ℤ)
    (clean : IsCleanOption c.client) (plain : IsPlainItems props) where
  connect_logs_in :
      (limit : ℤ) (w : World)
      → connect (before limit c (normal answer) rs zs w)
        ≡ log_in (at c (normal answer) rs (opened_socket limit c zs w))
  unfolding connect handle_amq_status
  connect_logs_in (pos zero) w = refl
  connect_logs_in (pos (suc n)) w = refl
  connect_logs_in (negsuc n) w = refl

  connect_before :
      (limit : ℤ) (w : World)
      → w.py.err ≡ none
      → EncodesItems props w.lib.broker_properties
      → Returns
          (Connected c props rs zs (before limit c (normal answer) rs zs w))
          (connect (before limit c (normal answer) rs zs w))
  connect_before limit w calm e =
      subst (Returns (Connected c props rs zs (before limit c (normal answer) rs zs w)))
        (sym (connect_logs_in limit w))
        (Returns-mono (LoggedIn c props rs (at c (normal answer) rs (opened_socket limit c zs w))) _
          _ (log_in_at c props answer rs clean plain (opened_socket limit c zs w) calm e)
          (λ r v p. p))

-- On an object with credentials that is not connected and with no exception set, whose client
-- properties are none or a clean dict, where a socket can be made and opened, the broker accepts the
-- login, and its own properties encode a plain dict: `connect` returns None, and the object is
-- connected, with a library state, the descriptor, the limits that the handshake settled, and the
-- dict of the broker's properties. It makes exactly five calls: for the state, the socket, opening it
-- at the host and port with the time limit, its descriptor, and the login with the object's limits
-- and credentials, and with a table that encodes the client properties if there are any.
pub connect-Connected :
    (c : Credentials) (props : PyItems) (answer : Decoded) (rs : List RpcReply) (zs : List ℤ)
    (w : World)
    → HasCredentials w c
    → IsCleanOption c.client
    → w.py.err ≡ none
    → w.lib.has_socket ≡ true
    → w.lib.statuses ≡ pos 0 ∷ zs
    → w.lib.replies ≡ normal answer ∷ rs
    → EncodesItems props w.lib.broker_properties
    → IsPlainItems props
    → Returns (Connected c props rs zs w) (connect w)
connect-Connected c props answer rs zs w h clean calm s z r e plain =
    subst (λ v. Returns (Connected c props rs zs v) (connect v)) (sym same)
      (connect_before c props answer rs zs clean plain w.self.connect_timeout w calm e)
  where
    same : w ≡ before w.self.connect_timeout c (normal answer) rs zs w
    same = λ i. record w {
      self = record self {
        connected = h.unconnected i;
        hostname = h.hostname i;
        virtual_host = h.virtual_host i;
        userid = h.userid i;
        password = h.password i;
        client_properties = h.client_properties i;
      };
      lib = record lib { replies = r i; statuses = z i; has_socket = s i };
    }
      where
        open w use {self, lib}
