-- ===== src/Session/Reachable.antt =====
-- The states of a session: what holds in all of them, and which requests cannot crash there.
use librabbitmq.Base.{zero, suc, ◌≡◌, refl, Option, none, some, Top, subst}
use librabbitmq.Base.Int.{ℤ, pos, negsuc}
use librabbitmq.Base.Cmd.{
  Run, ok, crash, blocked, Cmd, pure, ◌>>◌, Ensures, NoCrash, NoCrash-bind, Returns-NoCrash,
}
use librabbitmq.Py.{value_error}
use librabbitmq.World.{World}
use librabbitmq.World.Calls.{raise}
use librabbitmq.World.Open.{IsSound}
use librabbitmq.Errors.{close}
use librabbitmq.Errors.Close.{close-IsSound}
use librabbitmq.Lifecycle.{connection_type_new, fileno, channel_open_method, channel_close_method}
use librabbitmq.Lifecycle.Laws.{Answers, channel_methods_ok}
use librabbitmq.Basic.{
  basic_ack_method, basic_reject_method, basic_qos_method, flow_method, basic_recover_method,
}
use librabbitmq.Basic.Sound.{basic_methods_ok}
use librabbitmq.Session.{
  Request, connecting, closing, asking_fileno, initialising, opening_channel, closing_channel,
  acknowledging, rejecting, setting_qos, setting_flow, recovering, receiving, getting, binding,
  unbinding, declaring_queue, deleting_queue, purging, declaring_exchange, deleting_exchange,
  consuming, cancelling, publishing, serve, Step, served, changed, Reach, start, step,
}
use librabbitmq.Session.Connect.{Holds}
use librabbitmq.Session.Requests.{serve-Keeps}

step-Holds : {w w' : World} → Step w w' → Holds w.self → Holds w'.self
step-Holds {w} {w'} (served q e) h =
    subst (Ensures (λ a v. Holds v.self)) e ((serve-Keeps q).at w h)
step-Holds (changed caller py lib callbacks) h = h

holds : {w : World} → Reach w → Holds w.self
unfolding connection_type_new
holds (start caller py lib) = λ c. cc
holds (step r s) = step-Holds s (holds r)

-- In every state of a session, whatever methods were called with whatever arguments, and whatever
-- the library answered and changed outside of the object in between: while the object says that it
-- is connected, its pointer leads to a state that the library holds.
pub Reach-IsSound : (w : World) → Reach w → IsSound w
Reach-IsSound w r = record { held = holds r }

-- The requests whose arguments are numbers, or which have none, but for `connect`.
abbrev pub TakesNumbers : Request → Type 0
TakesNumbers closing = Top
TakesNumbers asking_fileno = Top
TakesNumbers (opening_channel a) = Top
TakesNumbers (closing_channel a) = Top
TakesNumbers (acknowledging a) = Top
TakesNumbers (rejecting a) = Top
TakesNumbers (setting_qos a) = Top
TakesNumbers (setting_flow a) = Top
TakesNumbers (recovering a) = Top
TakesNumbers _ = ⊥

-- Some result.
abbrev Any : {A : Type 0} → A → World → Type 0
Any a w = Top

done :
    {A : Type 0} (P : A → World → Type 0) (m : Cmd World A) (w : World)
    → NoCrash P (m w)
    → NoCrash Any ((m >> pure tt) w)
done P m w h = NoCrash-bind P Any (m w) _ h (λ a w' p. tt)

fileno_ok : (w : World) → NoCrash Any (fileno w)
unfolding fileno
fileno_ok w = of_descriptor w.self.sockfd
  where
    of_descriptor :
        (z : ℤ)
        → NoCrash {A = Option ℤ} Any (elim z [
          | pos zero ↦ (raise value_error >> pure none) w
          | pos (suc n) ↦ ok (some (pos (suc n))) w
          | negsuc n ↦ (raise value_error >> pure none) w
        ])
    of_descriptor (pos zero) = tt
    of_descriptor (pos (suc n)) = tt
    of_descriptor (negsuc n) = tt

serve_ok : (q : Request) (w : World) → TakesNumbers q → IsSound w → NoCrash Any (serve q w)
unfolding serve
serve_ok closing w n s =
    done Any close w (Returns-NoCrash _ Any (close w) (close-IsSound w s) (λ a w' p. tt))
serve_ok asking_fileno w n s = done Any fileno w (fileno_ok w)
serve_ok (opening_channel a) w n s =
    done (Answers w.self) (channel_open_method a) w (channel_methods_ok a w s).0
serve_ok (closing_channel a) w n s =
    done (Answers w.self) (channel_close_method a) w (channel_methods_ok a w s).1
serve_ok (acknowledging a) w n s =
    done (Answers w.self) (basic_ack_method a) w (basic_methods_ok a none none none none w s).0
serve_ok (rejecting a) w n s =
    done (Answers w.self) (basic_reject_method a) w (basic_methods_ok none a none none none w s).1
serve_ok (setting_qos a) w n s =
    done (Answers w.self) (basic_qos_method a) w (basic_methods_ok none none a none none w s).2
serve_ok (setting_flow a) w n s =
    done (Answers w.self) (flow_method a) w (basic_methods_ok none none none a none w s).3
serve_ok (recovering a) w n s =
    done (Answers w.self) (basic_recover_method a) w (basic_methods_ok none none none none a w s).4
serve_ok connecting w n s = absurd n
serve_ok (initialising a) w n s = absurd n
serve_ok (receiving a) w n s = absurd n
serve_ok (getting a) w n s = absurd n
serve_ok (binding a) w n s = absurd n
serve_ok (unbinding a) w n s = absurd n
serve_ok (declaring_queue a) w n s = absurd n
serve_ok (deleting_queue a) w n s = absurd n
serve_ok (purging a) w n s = absurd n
serve_ok (declaring_exchange a) w n s = absurd n
serve_ok (deleting_exchange a) w n s = absurd n
serve_ok (consuming a) w n s = absurd n
serve_ok (cancelling a) w n s = absurd n
serve_ok (publishing a) w n s = absurd n

goes_on :
    (r : Run World Top) (w : World)
    → Reach w
    → (q : Request) → serve q w ≡ r
    → NoCrash Any r
    → NoCrash (λ a w'. Reach w') r
goes_on (ok u w') w reached q e h = step reached (served q e)
goes_on crash w reached q e h = h
goes_on blocked w reached q e h = tt

-- In every state of a session, closing the connection, `fileno`, opening and closing a channel, and
-- the methods whose arguments are numbers do not crash, whatever the arguments and the answers: they
-- wait for an answer for good, or return and leave a state of the session.
pub serve-Reach :
    (w : World) (q : Request) → Reach w → TakesNumbers q → NoCrash (λ a w'. Reach w') (serve q w)
serve-Reach w q r n = goes_on (serve q w) w r q refl (serve_ok q w n (Reach-IsSound w r))
