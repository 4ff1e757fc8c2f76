-- ===== src/Session/Connect.antt =====
-- What `connect` leaves of the connection object, whatever the library answers.
use librabbitmq.Base.{ℕ, zero, suc, ◌≡◌, refl, Bool, true, false, Option, none, some, List, Top}
use librabbitmq.Base.Int.{ℤ, pos, negsuc}
use librabbitmq.Base.Cmd.{ok, Cmd, pure, ◌>>=◌, ◌>>◌, Ensures}
use librabbitmq.Base.Keeps.{
  Keeps, Ends, Keeps-pure, Keeps-fail, Keeps-bind, Keeps-then, Ends-bind, Ends-Keeps, Ends-mono,
  Ends-if, Ends-seq_then,
}
use librabbitmq.Py.{
  PyVal, null, none_, bool, int, float, str, bytes, dict, list, tuple, other, memory_error,
}
use librabbitmq.Amqp.{Entries}
use librabbitmq.Amqp.Build.{dict_to_table}
use librabbitmq.Amqp.Read.{table_to_dict}
use librabbitmq.World.{World, Connection, alive, new_connection, socket_open, socket_open_noblock}
use librabbitmq.World.Calls.{lift, call, set_self}
use librabbitmq.World.Keeps.{IsStable, raise-Keeps, call-Keeps, next_status-Keeps, next_reply-Keeps}
use librabbitmq.World.OnSelf.{OnSelf, OnSelf-IsStable, lift-Keeps, releasing-Keeps, set_self-Keeps}
use librabbitmq.Errors.{close, failed_status}
use librabbitmq.Errors.Keeps.{close-Keeps, handle_amq_status-Keeps, handle_amq_error-Keeps}
use librabbitmq.Lifecycle.{
  string_of, make_connection, open_socket, login_table, send_login, release_held, tuned, log_in,
  connect_error, connect_new, connect,
}

-- While the object says that it is connected, its pointer may be followed.
abbrev pub Holds : Connection → Type 0
Holds c = c.connected ≡ true → c.conn ≡ alive

pub close-Holds : Keeps (OnSelf Holds) close
close-Holds = close-Keeps Holds (λ c e h c'. cc)

-- A state has been made, and the handshake is not over.
abbrev Opening : Connection → Type 0
Opening c = (c.conn ≡ alive) × (c.connected ≡ false)

abbrev stable : IsStable (OnSelf Opening)
stable = OnSelf-IsStable Opening

close-Opening : Keeps (OnSelf Opening) close
close-Opening = close-Keeps Opening (λ c e h. absurd (contradiction c e h.1))
  where
    contradiction : (c : Connection) → c.connected ≡ true → c.connected ≡ false → ⊥
    contradiction c e f = cc

connect_error-Keeps : Keeps (OnSelf Opening) connect_error
connect_error-Keeps =
    Keeps-then _ _ (Keeps-then close release_held close-Opening (releasing-Keeps Opening))
      (Keeps-pure _)

Opening-Holds :
    {A : Type 0} (m : Cmd World A)
    → Keeps (OnSelf Opening) m
    → Ends (OnSelf Opening) (λ a w. Holds w.self) m
Opening-Holds m km = Ends-mono (λ a w. Opening w.self) _ m (λ a w h c. h.0) (Ends-Keeps m km)

string_of-Keeps : (o : Option (List ℕ)) → Keeps (OnSelf Opening) (string_of o)
string_of-Keeps none = Keeps-fail
string_of-Keeps (some cs) = Keeps-pure cs

login_table-Keeps : (o : Option PyVal) → Keeps (OnSelf Opening) (login_table o)
unfolding login_table
login_table-Keeps none = Keeps-pure _
login_table-Keeps (some (dict d)) =
    Keeps-bind _ _ (lift-Keeps Opening (dict_to_table (dict d))) (λ t. Keeps-pure _)
login_table-Keeps (some null) = Keeps-pure _
login_table-Keeps (some none_) = Keeps-pure _
login_table-Keeps (some (bool b)) = Keeps-pure _
login_table-Keeps (some (int z)) = Keeps-pure _
login_table-Keeps (some (float d)) = Keeps-pure _
login_table-Keeps (some (str cs)) = Keeps-pure _
login_table-Keeps (some (bytes bs)) = Keeps-pure _
login_table-Keeps (some (list d)) = Keeps-pure _
login_table-Keeps (some (tuple d)) = Keeps-pure _
login_table-Keeps (some other) = Keeps-pure _

send_login-Keeps : (t : Option Entries) → Keeps (OnSelf Opening) (send_login t)
send_login-Keeps t = record {
  at = λ w h.
      (Keeps-bind _ _ (string_of-Keeps w.self.virtual_host) (λ vhost.
          Keeps-bind _ _ (string_of-Keeps w.self.userid) (λ user.
            Keeps-bind _ _ (string_of-Keeps w.self.password) (λ secret. call-Keeps _ stable _)))).at
        w h;
}

finished :
    Ends
      (OnSelf Opening)
      (λ a w. Holds w.self)
      (do
        d ← (λ v. lift (table_to_dict v.lib.broker_properties) v)
        (λ v. ok tt (tuned (dict d) v))
        pure (some tt))
finished =
    Ends-bind _ _ _
      (record { at = λ w h. (lift-Keeps Opening (table_to_dict w.lib.broker_properties)).at w h })
      (λ d. record { at = λ w h c. h.0 })

log_in-Holds : Ends (OnSelf Opening) (λ a w. Holds w.self) log_in
unfolding log_in
log_in-Holds = record {
  at = λ w h.
      (Ends-bind _ _ _ (call-Keeps _ stable _) (λ u.
          Ends-bind _ _ _
            (set_self-Keeps Opening (λ c. record c { sockfd = w.lib.socket_fd }) (λ c o. o))
            (λ u'. Ends-bind _ _ _ (login_table-Keeps w.self.client_properties) (λ t.
              Ends-bind _ _ _ (send_login-Keeps t) (λ u2.
                Ends-bind _ _ _ (next_reply-Keeps _ stable) (λ reply.
                  Ends-bind _ release_held _ (releasing-Keeps Opening) (λ u3.
                    Ends-bind _ _ _
                      (handle_amq_error-Keeps _ stable close-Opening 0 reply "Couldn't log in")
                      (λ z.
                        Ends-if _ (failed_status z) _ _
                          (Opening-Holds _
                            (Keeps-then release_held _ (releasing-Keeps Opening) (Keeps-pure none)))
                          finished)))))))).at
        w h;
}

open_socket-Keeps : (z : ℤ) → Keeps (OnSelf Opening) (open_socket z)
unfolding open_socket
open_socket-Keeps (pos zero) = record {
  at = λ w h.
      (Keeps-bind _ _ (string_of-Keeps w.self.hostname) (λ host.
          Keeps-bind _ _ (call-Keeps _ stable (socket_open host w.self.port))
            (λ u. next_status-Keeps _ stable))).at
        w h;
}
open_socket-Keeps (negsuc n) = record {
  at = λ w h.
      (Keeps-bind _ _ (string_of-Keeps w.self.hostname) (λ host.
          Keeps-bind _ _ (call-Keeps _ stable (socket_open host w.self.port))
            (λ u. next_status-Keeps _ stable))).at
        w h;
}
open_socket-Keeps (pos (suc n)) = record {
  at = λ w h.
      (Keeps-bind _ _ (string_of-Keeps w.self.hostname) (λ host.
          Keeps-bind _ _ (call-Keeps _ stable (socket_open_noblock host w.self.port (pos (suc n))))
            (λ u. next_status-Keeps _ stable))).at
        w h;
}

on_status :
    (s : ℤ)
    → Ends {A = Option Top}
        (OnSelf Opening)
        (λ a w. Holds w.self)
        (elim s [ pos zero ↦ log_in | pos (suc n) ↦ connect_error | negsuc n ↦ connect_error ])
on_status (pos zero) = log_in-Holds
on_status (pos (suc n)) = Opening-Holds _ connect_error-Keeps
on_status (negsuc n) = Opening-Holds _ connect_error-Keeps

making : Ends (λ w. w.self.connected ≡ false) (λ a w. Opening w.self) make_connection
making =
    Ends-seq_then (λ w. Opening w.self) _ (set_self (λ c. record c { conn = alive }))
      (call new_connection) (record { at = λ w h. (refl, h) })
      (Ends-Keeps _ (call-Keeps _ stable new_connection))

connect_new-Holds : Ends (λ w. w.self.connected ≡ false) (λ a w. Holds w.self) connect_new
unfolding connect_new
connect_new-Holds = record {
  at = λ w h.
      (Ends-seq_then (OnSelf Opening) _ _ _ making (
          Ends-bind _ _ _ (call-Keeps _ stable _) (λ u.
            Ends-if _ w.lib.has_socket _ _
              (Ends-bind _ _ _ (open_socket-Keeps w.self.connect_timeout) (λ z.
                Ends-bind _ _ _ (handle_amq_status-Keeps _ stable z "Error opening socket")
                  on_status))
              (Opening-Holds _
                (Keeps-then _ _ (raise-Keeps _ stable memory_error) connect_error-Keeps))))).at
        w h;
}

connecting :
    (b : Bool) (w : World)
    → w.self.connected ≡ b
    → Holds w.self
    → Ensures (λ a w'. Holds w'.self) (connect w)
unfolding connect
connecting true w e h = rw (connect, e) (λ c. h e)
connecting false w e h = rw (connect, e) (connect_new-Holds.at w e)

-- Connecting keeps it, whether it succeeds or not.
pub connect-Keeps : Keeps (OnSelf Holds) connect
connect-Keeps = record { at = λ w h. connecting w.self.connected w refl h }
