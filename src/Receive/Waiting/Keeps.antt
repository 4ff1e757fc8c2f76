-- ===== src/Receive/Waiting/Keeps.antt =====
-- What waiting for the socket keeps.
use librabbitmq.Base.{true, false, zero, suc, Bool, List, [], ◌∷◌}
use librabbitmq.Base.Int.{ℤ, pos, negsuc}
use librabbitmq.Base.Double.{Double}
use librabbitmq.Base.Cmd.{Cmd, pure}
use librabbitmq.Base.Keeps.{Keeps, Keeps-pure, Keeps-fail, Keeps-bind, Keeps-if}
use librabbitmq.World.{World, Selection, Timeval}
use librabbitmq.World.Keeps.{IsStable, next_poll-Keeps, waits-Keeps}
use librabbitmq.Receive.Waiting.{
  Timeout, positive, minus_one, other_timeout, has_slot, is_timeout, wait_nb, wait_round, wait_on,
  wait_timeout, wait_ready,
}

module _ (P : World → Type 0) (stable : IsStable P) where
  wait_nb-Keeps : (fd : ℤ) → Keeps P (wait_nb fd)
  unfolding wait_nb
  wait_nb-Keeps fd =
      Keeps-if (has_slot fd) _ _ (Keeps-bind _ _ (next_poll-Keeps _ stable) (λ s. Keeps-pure _))
        Keeps-fail

  round :
      (again : Double → ℤ → Cmd World ℤ) (t : Double) (z : ℤ) (b : Bool) (t1 t2 : Timeval)
      → ((t : Double) (r : ℤ) → Keeps P (again t r))
      → Keeps P (wait_round again t (record { result = z; is_set = b; before = t1; after = t2 }))
  unfolding wait_round
  round again t (negsuc m) b t1 t2 k = Keeps-pure _
  round again t (pos zero) b t1 t2 k = Keeps-pure _
  round again t (pos (suc m)) b t1 t2 k = Keeps-if b _ _ (Keeps-pure _) (k _ _)

  while :
      (b : Bool) (body : Cmd World ℤ) (r : ℤ)
      → Keeps P body
      → Keeps {A = ℤ} P (elim b [ false ↦ pure r | true ↦ body ])
  while false body r k = Keeps-pure _
  while true body r k = k

  wait_on-Keeps : (xs : List Selection) (fd : ℤ) (t : Double) (r : ℤ) → Keeps P (wait_on xs fd t r)
  unfolding wait_on
  wait_on-Keeps [] fd t r =
      while (is_timeout t) _ r (Keeps-if (has_slot fd) _ _ (waits-Keeps _ stable) Keeps-fail)
  wait_on-Keeps (x ∷ xs) fd t r = while (is_timeout t) _ r (
      Keeps-if (has_slot fd) _ _
        (Keeps-bind _ _ (next_poll-Keeps _ stable)
          (λ s. round (wait_on xs fd) t s.result s.is_set s.before s.after (wait_on-Keeps xs fd)))
        Keeps-fail)

  pub wait_ready-Keeps : (fd : ℤ) (t : Timeout) → Keeps P (wait_ready fd t)
  unfolding wait_ready wait_timeout
  wait_ready-Keeps fd (positive n e) = record {
    at = λ w h.
        Keeps.at (wait_on-Keeps w.lib.polls fd (record { num = pos (suc n); exp = e }) (pos 0)) w h;
  }
  wait_ready-Keeps fd minus_one = wait_nb-Keeps fd
  wait_ready-Keeps fd other_timeout = wait_nb-Keeps fd
