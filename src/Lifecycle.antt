-- ===== src/Lifecycle.antt =====
-- "Connection" of connection.c: `__new__`, `__init__`, `fileno`, `connect`, and opening and closing a
-- channel. A method that returns NULL returns `none` here.
pub mod Laws
pub mod Connect
pub mod Login
pub mod Connected
pub mod Keeps
use Prim.Native.String.{String}
use librabbitmq.Base.{
  ℕ, zero, suc, Bool, true, false, Option, none, some, List, Top, leb, if◌then◌else◌, ◌==◌,
}
use librabbitmq.Base.Int.{ℤ, pos, negsuc}
use librabbitmq.Base.Cmd.{Cmd, Run, ok, crash, pure, fail, ◌>>=◌, ◌>>◌}
use librabbitmq.Py.{
  Py, PyErr, PyVal, dict, nil, memory_error, type_error, value_error, connection_error, text,
}
use librabbitmq.Py.Held.{xdecref_held}
use librabbitmq.Amqp.{Entries}
use librabbitmq.Amqp.Build.{dict_to_table}
use librabbitmq.Amqp.Read.{table_to_dict}
use librabbitmq.World.{
  World, Connection, Pointer, null, alive, new_connection, tcp_socket_new, get_sockfd, login,
  socket_open, socket_open_noblock, channel_close_, release_on_channel,
}
use librabbitmq.World.Calls.{lift, raise, call, set_self, next_status, next_reply}
use librabbitmq.Errors.{
  Status, fine, connection_failed, channel_failed, failed_status, not_connected, handle_amq_status,
  close, handle_amq_error, create_channel,
}

-- `PyRabbitMQ_ConnectionType_new`. What it does not set is zero.
unfoldable pub connection_type_new : Connection
connection_type_new = record {
  conn = null;
  hostname = none;
  userid = none;
  password = none;
  virtual_host = none;
  port = pos 5672;
  frame_max = pos 0;
  channel_max = pos 0;
  heartbeat = pos 0;
  connect_timeout = pos 0;
  sockfd = pos 0;
  connected = false;
  client_properties = none;
  server_properties = none;
  callbacks = none;
}

-- The arguments of `__init__`, each of which may be left out.
pub record InitArgs : Type 0 where
  pub hostname : Option (List ℕ)
  pub userid : Option (List ℕ)
  pub password : Option (List ℕ)
  pub virtual_host : Option (List ℕ)
  pub port : Option ℤ
  pub channel_max : Option ℤ
  pub frame_max : Option ℤ
  pub heartbeat : Option ℤ
  pub client_properties : Option PyVal
  pub connect_timeout : Option ℤ

abbrev pub or_default : {A : Type 0} → Option A → A → A
or_default none d = d
or_default (some a) d = a

-- `strcpy` of a text that was given. Where it was left out the pointer is not initialised.
abbrev pub copied : Option (List ℕ) → Cmd World (Option (List ℕ))
copied none = fail
copied (some cs) = pure (some cs)

-- `PyRabbitMQ_ConnectionType_init`, whether it succeeds. `none` stands for arguments that do not
-- parse. Memory is had.
unfoldable pub connection_type_init : Option InitArgs → Cmd World Bool
connection_type_init none = raise type_error >> pure false
connection_type_init (some a) = do
  host ← copied a.hostname
  user ← copied a.userid
  secret ← copied a.password
  vhost ← copied a.virtual_host
  set_self (λ c. record c {
    hostname = host;
    userid = user;
    password = secret;
    virtual_host = vhost;
    port = or_default a.port (pos 5672);
    channel_max = or_default a.channel_max (pos 0xffff);
    frame_max = or_default a.frame_max (pos 131_072);
    heartbeat = or_default a.heartbeat (pos 0);
    connect_timeout = or_default a.connect_timeout (pos 0);
    callbacks = some (dict nil);
    client_properties = a.client_properties;
    server_properties = none;
  })
  pure true

-- `PyRabbitMQ_Connection_fileno`.
unfoldable pub fileno : Cmd World (Option ℤ)
fileno w = elim w.self.sockfd [
  | pos zero ↦ (raise value_error >> pure none) w
  | pos (suc n) ↦ ok (some (pos (suc n))) w
  | negsuc n ↦ (raise value_error >> pure none) w
]

-- A string of the object as the library reads it; NULL is followed.
abbrev pub string_of : Option (List ℕ) → Cmd World (List ℕ)
string_of none = fail
string_of (some cs) = pure cs

-- `self->conn = amqp_new_connection()`, over whatever stood there.
abbrev pub make_connection : Cmd World Top
make_connection = do set_self (λ c. record c { conn = alive }); call new_connection

-- `amqp_socket_open`, or with a time limit `amqp_socket_open_noblock`.
unfoldable pub open_socket : ℤ → Cmd World ℤ
open_socket (pos zero) w =
    (do host ← string_of w.self.hostname; call (socket_open host w.self.port); next_status) w
open_socket (negsuc n) w =
    (do host ← string_of w.self.hostname; call (socket_open host w.self.port); next_status) w
open_socket (pos (suc n)) w =
    (do
      host ← string_of w.self.hostname
      call (socket_open_noblock host w.self.port (pos (suc n)))
      next_status)
      w

-- The table that is sent at login: none, where there are no properties or they are no dict.
unfoldable pub login_table : Option PyVal → Cmd World (Option Entries)
login_table (some (dict d)) = do t ← lift (dict_to_table (dict d)); pure (some t)
login_table _ = pure none

abbrev pub send_login : Option Entries → Cmd World Top
send_login t w =
    (do
      vhost ← string_of w.self.virtual_host
      user ← string_of w.self.userid
      secret ← string_of w.self.password
      call (login vhost w.self.channel_max w.self.frame_max w.self.heartbeat t user secret))
      w

abbrev pub release_held : Cmd World Top
release_held w = ok tt (record w { py = xdecref_held w.py })

-- What is taken over after the handshake.
abbrev pub tuned : PyVal → World → World
tuned properties w = record w {
  self = record self {
    connected = true;
    channel_max = lib.tuned_channel_max;
    frame_max = lib.tuned_frame_max;
    heartbeat = lib.tuned_heartbeat;
    server_properties = some properties;
  };
}
  where
    open w use {self, lib}

-- From the open socket on.
unfoldable pub log_in : Cmd World (Option Top)
unfolding login_table close
log_in w =
    (do
      call get_sockfd
      set_self (λ c. record c { sockfd = w.lib.socket_fd })
      t ← login_table w.self.client_properties
      send_login t
      reply ← next_reply
      release_held
      z ← handle_amq_error 0 reply "Couldn't log in"
      if failed_status z then release_held >> pure none else (do
        d ← (λ v. lift (table_to_dict v.lib.broker_properties) v)
        (λ v. ok tt (tuned (dict d) v))
        pure (some tt)))
      w

-- The label `error` of `connect`, and `bail`.
abbrev pub connect_error : Cmd World (Option Top)
connect_error = close >> release_held >> pure none

-- `PyRabbitMQ_Connection_connect` on an object that is not connected.
unfoldable pub connect_new : Cmd World (Option Top)
unfolding open_socket log_in close
connect_new w =
    (do
      make_connection
      call tcp_socket_new
      if w.lib.has_socket
          then (do
            z ← open_socket w.self.connect_timeout
            s ← handle_amq_status z "Error opening socket"
            elim s [ pos zero ↦ log_in | pos (suc n) ↦ connect_error | negsuc n ↦ connect_error ])
          else raise memory_error >> connect_error)
      w

-- `PyRabbitMQ_Connection_connect`.
unfoldable pub connect : Cmd World (Option Top)
unfolding connect_new
connect w = elim w.self.connected [
  | true ↦ (raise (connection_error (text "Already connected")) >> release_held >> pure none) w
  | false ↦ connect_new w
]

-- `PyRabbitMQ_Connection_destroy_channel`.
unfoldable pub destroy_channel : ℕ → Cmd World Status
destroy_channel channel = do
  call (channel_close_ channel)
  reply ← next_reply
  call (release_on_channel channel)
  handle_amq_error channel reply "Couldn't close channel"

-- The work of a channel method, where its arguments parse.
unfoldable pub with_args : {A : Type 0} → Option A → (A → Cmd World Bool) → Cmd World (Option Top)
with_args none work = raise type_error >> pure none
with_args (some args) work = do failed ← work args; if failed then pure none else pure (some tt)

-- The shape of the channel methods: the connection is open, the arguments parse, the work goes well.
unfoldable pub guarded : {A : Type 0} → Option A → (A → Cmd World Bool) → Cmd World (Option Top)
unfolding not_connected with_args
guarded args work = do refused ← not_connected; if refused then pure none else with_args args work

-- `PyRabbitMQ_Connection_channel_open`.
unfoldable pub channel_open_method : Option ℕ → Cmd World (Option Top)
unfolding guarded
channel_open_method args = guarded args create_channel

-- `PyRabbitMQ_Connection_channel_close`.
unfoldable pub channel_close_method : Option ℕ → Cmd World (Option Top)
unfolding guarded destroy_channel
channel_close_method args =
    guarded args (λ channel. do z ← destroy_channel channel; pure (failed_status z))
