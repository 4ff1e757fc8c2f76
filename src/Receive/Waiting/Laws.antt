-- ===== src/Receive/Waiting/Laws.antt =====
-- What waiting for the socket comes to.
use librabbitmq.Base.{
  ℕ, zero, suc, ◌<◌, ◌≡◌, refl, Bool, true, List, ◌∷◌, Top, ltb, arith, subst, sym,
}
use librabbitmq.Base.Int.{ℤ, pos, negsuc}
use librabbitmq.Base.Double.{Double}
use librabbitmq.Base.Cmd.{Cmd, ok}
use librabbitmq.World.{World, Selection, Timeval}
use librabbitmq.Receive.Waiting.{
  Timeout, positive, minus_one, other_timeout, ready, wait_nb, wait_round, wait_on, wait_timeout,
  wait_ready,
}

-- `select` on one descriptor returns a number above 0 only where that descriptor is ready.
abbrev pub IsSelect : Selection → Type 0
IsSelect s = elim s.result [ negsuc n ↦ Top | pos zero ↦ Top | pos (suc n) ↦ s.is_set ≡ true ]

abbrev pub asked : List Selection → World → World
asked ss w = record w { lib = record lib { polls = ss } }
  where
    open w use {lib}

slot : (fd : ℕ) → fd < 1024 → ltb fd 1024 ≡ true
slot fd h = ground arith

selected :
    (again : Double → ℤ → Cmd World ℤ) (t : Double) (z : ℤ) (b : Bool) (t1 t2 : Timeval) (w : World)
    → IsSelect (record { result = z; is_set = b; before = t1; after = t2 })
    → wait_round again t (record { result = z; is_set = b; before = t1; after = t2 }) w
      ≡ ok (ready (record { result = z; is_set = b; before = t1; after = t2 })) w
unfolding wait_round
selected again t (negsuc m) b t1 t2 w i = refl
selected again t (pos zero) b t1 t2 w i = refl
selected again t (pos (suc m)) b t1 t2 w i = rw i refl

select_asked :
    (fd : ℕ) (t : Timeout) (s : Selection) (ss : List Selection) (w : World)
    → fd < 1024
    → IsSelect s
    → wait_ready (pos fd) t (asked (s ∷ ss) w) ≡ ok (ready s) (asked ss w)
unfolding wait_ready wait_nb wait_timeout wait_on
select_asked fd (positive n e) s ss w h i =
    rw (wait_ready, wait_timeout, wait_on, slot fd h)
      (selected (wait_on ss (pos fd)) (record { num = pos (suc n); exp = e }) s.result s.is_set
        s.before s.after (asked ss w) i)
select_asked fd minus_one s ss w h i = rw (wait_ready, wait_nb, slot fd h) refl
select_asked fd other_timeout s ss w h i = rw (wait_ready, wait_nb, slot fd h) refl

-- Where `select` keeps its promise for one descriptor, and the descriptor is below `FD_SETSIZE`,
-- waiting with and without a time limit come to the same: `select` is called once, and the result is
-- 1 where the socket is ready, 0 where the time has passed, and below 0 where the call failed.
pub wait_ready-select :
    (fd : ℕ) (t : Timeout) (s : Selection) (ss : List Selection) (w : World)
    → fd < 1024
    → IsSelect s
    → w.lib.polls ≡ s ∷ ss
    → wait_ready (pos fd) t w ≡ ok (ready s) (asked ss w)
wait_ready-select fd t s ss w h i e =
    subst (λ v. wait_ready (pos fd) t v ≡ ok (ready s) (asked ss v)) (sym same)
      (select_asked fd t s ss w h i)
  where
    same : w ≡ asked (s ∷ ss) w
    same = λ k. record w { lib = record lib { polls = e k } }
      where
        open w use {lib}
