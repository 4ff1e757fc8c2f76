-- ===== src/Receive/Waiting.antt =====
-- Waiting for the socket: `RabbitMQ_wait_nb` and `RabbitMQ_wait_timeout` of connection.c, and the
-- macros of connection.h that choose between them. The whole seconds of a timeout are below 2 ^ 31.
pub mod Laws
pub mod Keeps
use librabbitmq.Base.{
  ℕ, zero, suc, ◌+◌, ◌-◌, ◌*◌, Bool, true, false, List, [], ◌∷◌, ltb, leb, if◌then◌else◌,
}
use librabbitmq.Base.Int.{ℤ, pos, negsuc}
use librabbitmq.Base.Double.{Double, quotient, minus, on_scale}
use librabbitmq.Base.Cmd.{Cmd, pure, fail, ◌>>=◌}
use librabbitmq.World.{World, Selection, Timeval}
use librabbitmq.World.Calls.{next_poll, waits}

-- A number of type `double`, as `PYRMQ_IS_TIMEOUT` and `PYRMQ_IS_NONBLOCK` tell it apart;
-- `positive n e` is (n + 1) / 2 ^ e seconds.
pub data Timeout : Type 0 where
  positive : ℕ → ℕ → Timeout
  minus_one other_timeout : Timeout

abbrev pub should_poll : Timeout → Bool
should_poll (positive n e) = true
should_poll minus_one = true
should_poll other_timeout = false

-- `FD_SET` writes to a set of `FD_SETSIZE` descriptors, and beyond it for another number.
abbrev pub has_slot : ℤ → Bool
has_slot (pos fd) = ltb fd 1024
has_slot (negsuc n) = false

-- What `RabbitMQ_wait_nb` makes of a call of `select`.
abbrev pub ready : Selection → ℤ
ready s = elim s.result [
  | negsuc n ↦ negsuc n
  | pos zero ↦ pos 0
  | pos (suc n) ↦ if s.is_set then pos 1 else pos 0
]

-- `RabbitMQ_wait_nb`.
unfoldable pub wait_nb : ℤ → Cmd World ℤ
wait_nb sockfd = if has_slot sockfd then (do s ← next_poll; pure (ready s)) else fail

-- `RabbitMQ_now_usec`.
abbrev pub now_usec : Timeval → ℕ
now_usec tv = tv.tv_sec * 1_000_000 + tv.tv_usec

-- `timeout -= (double)(t2 / 1e6) - (t1 / 1e6)`, each operation rounded.
unfoldable pub less : Double → Timeval → Timeval → Double
unfolding minus on_scale
less timeout t1 t2 =
    minus timeout (minus (quotient (now_usec t2) 1_000_000) (quotient (now_usec t1) 1_000_000))

-- `timeout > 0.0`.
abbrev pub is_timeout : Double → Bool
is_timeout d = elim d.num [ negsuc n ↦ false | pos zero ↦ false | pos (suc n) ↦ true ]

-- One round of the loop, over the next: `select` found nothing or failed, or the socket is ready, or
-- the time is taken down.
unfoldable pub wait_round : (Double → ℤ → Cmd World ℤ) → Double → Selection → Cmd World ℤ
unfolding less
wait_round again timeout s = elim s.result [
  | negsuc n ↦ pure (negsuc n)
  | pos zero ↦ pure (pos 0)
  | pos (suc n) ↦
      if s.is_set then pure (pos 1) else again (less timeout s.before s.after) (pos (suc n))
]

-- The loop on the calls of `select` that are to come; `result` is that of the last one.
unfoldable pub wait_on : List Selection → ℤ → Double → ℤ → Cmd World ℤ
unfolding wait_round
wait_on [] sockfd timeout result = elim (is_timeout timeout) [
  | false ↦ pure result
  | true ↦ (if has_slot sockfd then waits else fail)
]
wait_on (x ∷ xs) sockfd timeout result = elim (is_timeout timeout) [
  | false ↦ pure result
  | true ↦
      (if has_slot sockfd
        then (do s ← next_poll; wait_round (wait_on xs sockfd) timeout s)
        else fail)
]

-- `RabbitMQ_wait_timeout`.
unfoldable pub wait_timeout : ℤ → Double → Cmd World ℤ
unfolding wait_on
wait_timeout sockfd timeout w = wait_on w.lib.polls sockfd timeout (pos 0) w

-- `RabbitMQ_WAIT`.
unfoldable pub wait_ready : ℤ → Timeout → Cmd World ℤ
unfolding wait_nb wait_timeout
wait_ready sockfd (positive n e) = wait_timeout sockfd (record { num = pos (suc n); exp = e })
wait_ready sockfd minus_one = wait_nb sockfd
wait_ready sockfd other_timeout = wait_nb sockfd
