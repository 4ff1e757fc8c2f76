-- ===== src/Lifecycle/Connect.antt =====
-- `PyRabbitMQ_Connection_connect` where the socket cannot be opened.
use librabbitmq.Base.{ℕ, zero, suc, ◌≡◌, refl, sym, subst, true, false, none, some, List, ◌∷◌}
use librabbitmq.Base.Int.{ℤ, pos, negsuc}
use librabbitmq.Base.Cmd.{ok}
use librabbitmq.Py.{connection_error, status, set_err}
use librabbitmq.Py.Held.{xdecref_held}
use librabbitmq.World.{
  World, Call, alive, new_connection, tcp_socket_new, socket_open, socket_open_noblock,
}
use librabbitmq.Errors.{handle_amq_status}
use librabbitmq.Lifecycle.{connect}

-- The call that opens the socket, by the time limit.
abbrev pub opening : List ℕ → ℤ → ℤ → Call
opening host port (pos (suc n)) = socket_open_noblock host port (pos (suc n))
opening host port (pos zero) = socket_open host port
opening host port (negsuc n) = socket_open host port

-- The world after a failed opening with status `z`.
abbrev pub unopened : List ℕ → ℤ → List ℤ → World → World
unopened host z zs w = record w {
  py = xdecref_held (set_err (connection_error (status "Error opening socket" z)) w.py);
  self = record self { conn = alive };
  lib = record lib { statuses = zs };
  trace = opening host self.port self.connect_timeout ∷ tcp_socket_new ∷ new_connection ∷ trace;
}
  where
    open w use {self, lib, trace}

abbrev at : World → ℤ → List ℕ → ℤ → List ℤ → World
at w limit host z zs = record w {
  self = record self { connected = false; hostname = some host; connect_timeout = limit };
  lib = record lib { has_socket = true; statuses = z ∷ zs };
}
  where
    open w use {self, lib}

connect-at :
    (limit : ℤ) (host : List ℕ) (n : ℕ) (zs : List ℤ) (w : World)
    → connect (at w limit host (negsuc n) zs)
      ≡ ok none (unopened host (negsuc n) zs (at w limit host (negsuc n) zs))
unfolding connect handle_amq_status
connect-at (pos zero) host n zs w = refl
connect-at (pos (suc k)) host n zs w = refl
connect-at (negsuc k) host n zs w = refl

-- Where the socket cannot be opened, `connect` returns NULL with the exception, and the state that
-- was allocated for the connection is never given back: no destroying call is made, and the object
-- is not connected, so that a later close does nothing.
pub connect-unopened :
    (host : List ℕ) (n : ℕ) (zs : List ℤ) (w : World)
    → w.self.connected ≡ false
    → w.self.hostname ≡ some host
    → w.lib.has_socket ≡ true
    → w.lib.statuses ≡ negsuc n ∷ zs
    → connect w ≡ ok none (unopened host (negsuc n) zs w)
connect-unopened host n zs w c h s z =
    subst (λ v. connect v ≡ ok none (unopened host (negsuc n) zs v)) (sym same)
      (connect-at w.self.connect_timeout host n zs w)
  where
    same : w ≡ at w w.self.connect_timeout host (negsuc n) zs
    same = λ i. record w {
      self = record self { connected = c i; hostname = h i };
      lib = record lib { has_socket = s i; statuses = z i };
    }
      where
        open w use {self, lib}
