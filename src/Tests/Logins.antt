-- ===== src/Tests/Logins.antt =====
-- Connecting to a concrete broker.
use librabbitmq.Base.{refl, false, none, some, [], ◌∷◌, arith}
use librabbitmq.Base.Int.{pos}
use librabbitmq.Base.Cmd.{Returns}
use librabbitmq.Py.{PyItems, int, str, dict, nil, cons}
use librabbitmq.Amqp.{entry, no_entries, i32}
use librabbitmq.World.{World, null, normal, other_ok}
use librabbitmq.Lifecycle.{connect}
use librabbitmq.Lifecycle.Login.{Credentials, HasCredentials}
use librabbitmq.Lifecycle.Connected.{Connected, connect-Connected}
use librabbitmq.Tests.{world, connection}

-- `{"a": 1}`, which is sent to the broker, and `{"b": 2}`, which it sends.
abbrev ours : PyItems
ours = cons (str (97 ∷ [])) (int (pos 1)) nil

abbrev theirs : PyItems
theirs = cons (str (98 ∷ [])) (int (pos 2)) nil

abbrev credentials : Credentials
credentials = record {
  host = 104 ∷ [];
  vhost = 47 ∷ [];
  user = 117 ∷ [];
  secret = 112 ∷ [];
  client = some ours;
}

-- With a time limit of ten seconds.
abbrev unconnected : World
unconnected = record w {
  self = record self { client_properties = some (dict ours); connect_timeout = pos 10 };
  lib = record lib {
    broker_properties = entry (record { bytes = 98 ∷ []; owner = none }) (i32 (pos 2)) no_entries;
  };
}
  where
    w : World
    w = world (connection false null) (normal (other_ok 0) ∷ []) [] (pos 0 ∷ [])

    open w use {self, lib}

unconnected-HasCredentials : HasCredentials unconnected credentials
unconnected-HasCredentials = record {
  unconnected = refl;
  hostname = refl;
  virtual_host = refl;
  userid = refl;
  password = refl;
  client_properties = refl;
}

connect-Connected_example :
    Returns (Connected credentials theirs [] [] unconnected) (connect unconnected)
connect-Connected_example =
    connect-Connected credentials theirs (other_ok 0) [] [] unconnected unconnected-HasCredentials
      ((omega arith, tt), (omega arith, (λ e. cc)), tt) refl refl refl refl
      (((omega arith, tt), refl), refl, tt) (tt, tt, tt)
