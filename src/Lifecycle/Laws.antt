-- ===== src/Lifecycle/Laws.antt =====
-- `PyRabbitMQ_Connection_channel_open` and `PyRabbitMQ_Connection_channel_close`.
use librabbitmq.Base.{
  ℕ, ◌≡◌, ◌∙◌, refl, Bool, true, false, Option, none, some, arith, Bool-cases, inl, inr,
  if◌then◌else◌,
}
use librabbitmq.Base.Cmd.{Cmd, ok, pure, NoCrash, NoCrash-bind, NoCrash-mono}
use librabbitmq.Py.{Py, err_occurred, connection_error, text}
use librabbitmq.World.{World, Connection, channel_close_, release_on_channel}
use librabbitmq.World.Calls.{call, next_reply, raised}
use librabbitmq.World.Open.{IsSound, IsAlive, IsAlive-IsSound, Stays, call-Stays, next_reply-Stays}
use librabbitmq.Errors.{failed_status, create_channel}
use librabbitmq.Errors.Revive.{
  Reports, Handled, Handled-Reports, create_channel_ok, handle_amq_error_ok,
}
use librabbitmq.Lifecycle.{
  with_args, guarded, destroy_channel, channel_open_method, channel_close_method,
}

-- What a method leaves that was called on object `c`: NULL comes with an exception, None with the
-- object as it was, and the object is sound.
abbrev pub Answers : {B : Type 0} → Connection → Option B → World → Type 0
Answers c none w' = IsSound w' × (err_occurred w'.py ≡ true)
Answers c (some u) w' = IsSound w' × (w'.self ≡ c)

-- A closed connection is refused before anything is parsed or sent.
pub guarded-closed :
    {A : Type 0} (args : Option A) (work : A → Cmd World Bool) (w : World)
    → w.self.connected ≡ false
    → guarded args work w
      ≡ ok none (raised (connection_error (text "Operation on closed connection")) w)
unfolding guarded
guarded-closed args work w e = ground arith

guarded_open :
    {A : Type 0} (args : Option A) (work : A → Cmd World Bool) (w : World)
    → w.self.connected ≡ true
    → guarded args work w ≡ with_args args work w
unfolding guarded
guarded_open args work w e = ground arith

finish_ok :
    (c : Connection) (s : Py) (failed : Bool) (w : World)
    → Reports c s failed w
    → NoCrash (Answers c) ((if failed then pure none else pure (some tt)) w)
finish_ok c s true w h = (h.0, h.2 refl)
finish_ok c s false w h = (h.0, (h.1 refl).0)

-- The work of a channel method is safe.
abbrev pub IsSafe : {A : Type 0} → (A → Cmd World Bool) → Type 0
IsSafe {A} work = (a : A) (w : World) → IsAlive w → NoCrash (Reports w.self w.py) (work a w)

with_args_ok :
    {A : Type 0} (args : Option A) (work : A → Cmd World Bool) (w : World)
    → IsSafe work
    → IsAlive w
    → NoCrash (Answers w.self) (with_args args work w)
unfolding with_args
with_args_ok none work w safe o = (IsAlive-IsSound _ (record { alive_ = o.alive_ }), refl)
with_args_ok (some ch) work w safe o =
    NoCrash-bind (Reports w.self w.py) (Answers w.self) (work ch w) _ (safe ch w o)
      (λ failed w' h. finish_ok w.self w.py failed w' h)

pub guarded_ok :
    {A : Type 0} (args : Option A) (work : A → Cmd World Bool) (w : World)
    → IsSafe work
    → IsSound w
    → NoCrash (Answers w.self) (guarded args work w)
guarded_ok args work w safe s = elim (Bool-cases w.self.connected) [
  | inl e ↦
      rw (guarded_open args work w e) (with_args_ok args work w safe (record { alive_ = s.held e }))
  | inr e ↦ rw (guarded-closed args work w e) (record { held = λ c. cc }, refl)
]

destroy_channel_ok :
    (ch : ℕ) (w : World)
    → IsAlive w
    → NoCrash (λ z w'. Reports w.self w.py (failed_status z) w') (destroy_channel ch w)
unfolding destroy_channel
destroy_channel_ok ch w o =
    NoCrash-bind (Stays w) (λ z w'. Reports w.self w.py (failed_status z) w')
      (call (channel_close_ ch) w) _ (call-Stays (channel_close_ ch) w o)
      (λ u w1 p.
        NoCrash-bind (Stays w1) (λ z w'. Reports w.self w.py (failed_status z) w') (next_reply w1) _
          (next_reply-Stays w1 p.0)
          (λ reply w2 q.
            NoCrash-bind (Stays w2) (λ z w'. Reports w.self w.py (failed_status z) w')
              (call (release_on_channel ch) w2) _ (call-Stays (release_on_channel ch) w2 q.0)
              (λ u' w3 t.
                NoCrash-mono (Handled w3) (λ z w'. Reports w.self w.py (failed_status z) w') _
                  (handle_amq_error_ok ch reply "Couldn't close channel" w3 t.0)
                  (λ z w4 h.
                    Handled-Reports w.self w.py w3 z w4 t.0 (t.2 ∙ q.2 ∙ p.2) (t.1 ∙ q.1 ∙ p.1)
                      h))))

-- Opening and closing a channel never crash on a sound object, whatever the broker answers: NULL
-- comes with an exception, None with the object unchanged, and the object stays sound.
pub channel_methods_ok :
    (args : Option ℕ) (w : World)
    → IsSound w
    → NoCrash (Answers w.self) (channel_open_method args w)
      × NoCrash (Answers w.self) (channel_close_method args w)
unfolding channel_open_method channel_close_method
channel_methods_ok args w s = (
  guarded_ok args create_channel w create_channel_ok s,
  guarded_ok args _ w
      (λ ch v o.
        NoCrash-bind (λ z w'. Reports v.self v.py (failed_status z) w') (Reports v.self v.py)
          (destroy_channel ch v) _ (destroy_channel_ok ch v o) (λ z w' h. h))
      s,
)

-- On a closed connection both are refused with an exception, and no call is made.
pub channel_methods_closed :
    (args : Option ℕ) (w : World)
    → w.self.connected ≡ false
    → (channel_open_method args w
        ≡ ok none (raised (connection_error (text "Operation on closed connection")) w))
      × (channel_close_method args w
          ≡ ok none (raised (connection_error (text "Operation on closed connection")) w))
unfolding channel_open_method channel_close_method
channel_methods_closed args w e = (guarded-closed args _ w e, guarded-closed args _ w e)
