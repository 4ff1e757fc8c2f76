-- ===== src/Receive/Beyond.antt =====
-- `_basic_recv` on a socket whose descriptor does not fit the sets of `select`.
use librabbitmq.Base.{
  ℕ, suc, ◌≤◌, ◌≡◌, refl, subst, sym, Bool, true, false, some, List, [], ◌∷◌, arith,
}
use librabbitmq.Base.Int.{pos}
use librabbitmq.Base.Cmd.{crash}
use librabbitmq.World.{World, Selection, alive}
use librabbitmq.World.Open.{IsAlive}
use librabbitmq.Errors.{not_connected}
use librabbitmq.Receive.{basic_recv, active_buffers, polled}
use librabbitmq.Receive.Waiting.{
  Timeout, positive, minus_one, other_timeout, should_poll, has_slot, wait_ready, wait_timeout,
  wait_on, wait_nb,
}

module _ (fd : ℕ) (h : 1024 ≤ fd) where
  no_slot : has_slot (pos fd) ≡ false
  no_slot = ground (arith, h)

  wait_on_beyond :
      (ss : List Selection) (n e : ℕ) (w : World)
      → wait_on ss (pos fd) (record { num = pos (suc n); exp = e }) (pos 0) w ≡ crash
  unfolding wait_on
  wait_on_beyond [] n e w = rw no_slot refl
  wait_on_beyond (s ∷ ss) n e w = rw no_slot refl

  wait_ready_beyond : (t : Timeout) (w : World) → wait_ready (pos fd) t w ≡ crash
  unfolding wait_ready wait_nb wait_timeout
  wait_ready_beyond (positive n e) w = wait_on_beyond w.lib.polls n e w
  wait_ready_beyond minus_one w = rw no_slot refl
  wait_ready_beyond other_timeout w = rw no_slot refl

abbrev idle : ℕ → List Bool → World → World
idle fd bs w = record w {
  self = record self { conn = alive; connected = true; sockfd = pos fd };
  lib = record lib { buffered = false ∷ false ∷ bs };
}
  where
    open w use {self, lib}

idle_beyond :
    (fd : ℕ) (t : Timeout) (bs : List Bool) (w : World)
    → 1024 ≤ fd
    → should_poll t ≡ true
    → basic_recv (some t) (idle fd bs w) ≡ crash
unfolding basic_recv not_connected polled active_buffers
idle_beyond fd (positive n e) bs w h p =
    rw (basic_recv, polled, active_buffers, wait_ready_beyond fd h) refl
idle_beyond fd minus_one bs w h p =
    rw (basic_recv, polled, active_buffers, wait_ready_beyond fd h) refl
idle_beyond fd other_timeout bs w h p = absurd (ground (arith, p))

-- On an open connection with nothing in its buffers, where the descriptor of the socket is not below
-- `FD_SETSIZE`: `_basic_recv` with a time to wait, or with -1, has undefined behaviour, since the
-- descriptor is written behind the end of the set for `select`.
pub basic_recv_beyond :
    (fd : ℕ) (t : Timeout) (bs : List Bool) (w : World)
    → IsAlive w
    → w.self.connected ≡ true
    → w.self.sockfd ≡ pos fd
    → 1024 ≤ fd
    → should_poll t ≡ true
    → w.lib.buffered ≡ false ∷ false ∷ bs
    → basic_recv (some t) w ≡ crash
basic_recv_beyond fd t bs w o c s h p e =
    subst (λ v. basic_recv (some t) v ≡ crash) (sym same) (idle_beyond fd t bs w h p)
  where
    same : w ≡ idle fd bs w
    same = λ i. record w {
      self = record self { conn = o.alive_ i; connected = c i; sockfd = s i };
      lib = record lib { buffered = e i };
    }
      where
        open w use {self, lib}
