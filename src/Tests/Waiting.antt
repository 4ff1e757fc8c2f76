-- ===== src/Tests/Waiting.antt =====
-- Waiting for the socket on concrete calls of `select`.
use librabbitmq.Base.{◌≡◌, refl, true, false, some, List, [], ◌∷◌, arith, ℕ}
use librabbitmq.Base.Int.{pos, negsuc}
use librabbitmq.Base.Double.{minus, on_scale, quotient}
use librabbitmq.Base.Cmd.{ok, crash}
use librabbitmq.World.{World, Selection, Timeval}
use librabbitmq.Receive.{basic_recv}
use librabbitmq.Receive.Waiting.{positive, minus_one, wait_ready, less}
use librabbitmq.Receive.Waiting.Laws.{asked, wait_ready-select}
use librabbitmq.Receive.Beyond.{basic_recv_beyond}
use librabbitmq.Tests.{open_world}

-- Microseconds of a moment in 2023.
abbrev at : ℕ → Timeval
at n = record { tv_sec = 1_700_000_000; tv_usec = n }

-- From 2.5 seconds, a microsecond is taken off as 1 / 2 ^ 20 of a second.
less_rounds :
    less (record { num = pos 5; exp = 1 }) (at 0) (at 1)
    ≡ minus (record { num = pos 5; exp = 1 }) (record { num = pos 1; exp = 20 })
unfolding less minus on_scale
less_rounds = refl

-- 0.1, and 0.3 - 0.1, which is not the number next to 0.2.
tenth : quotient 1 10 ≡ record { num = pos 7_205_759_403_792_794; exp = 56 }
unfolding on_scale
tenth = refl

tenths :
    minus (quotient 3 10) (quotient 1 10) ≡ record { num = pos 7_205_759_403_792_793; exp = 55 }
unfolding minus on_scale
tenths = refl

-- The socket is ready after two microseconds.
abbrev found : Selection
found = record { result = pos 1; is_set = true; before = at 0; after = at 2 }

-- The call was interrupted.
abbrev interrupted : Selection
interrupted = record { result = negsuc 0; is_set = false; before = at 0; after = at 2 }

abbrev selecting : List Selection → World
selecting ss = record w { lib = record lib { polls = ss } }
  where
    w : World
    w = open_world [] [] []

    open w use {lib}

wait_ready-select_example :
    wait_ready (pos 7) (positive 4 1) (selecting (found ∷ interrupted ∷ []))
    ≡ ok (pos 1) (asked (interrupted ∷ []) (selecting (found ∷ interrupted ∷ [])))
wait_ready-select_example =
    wait_ready-select 7 (positive 4 1) found (interrupted ∷ [])
      (selecting (found ∷ interrupted ∷ [])) (omega arith) refl refl

-- The descriptor 1024, and nothing in the buffers.
abbrev high : World
high = record w {
  self = record self { sockfd = pos 1024 };
  lib = record lib { buffered = false ∷ false ∷ [] };
}
  where
    w : World
    w = open_world [] [] []

    open w use {self, lib}

basic_recv_beyond_example : basic_recv (some minus_one) high ≡ crash
basic_recv_beyond_example =
    basic_recv_beyond 1024 minus_one [] high (record { alive_ = refl }) refl refl (omega arith) refl
      refl
