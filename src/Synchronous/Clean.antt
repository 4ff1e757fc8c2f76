-- ===== src/Synchronous/Clean.antt =====
-- The parts of the synchronous methods on arguments that the code converts: texts of ASCII characters
-- or bytes objects, and a clean dict.
use Prim.Native.String.{String}
use librabbitmq.Base.{
  ℕ, ◌≡◌, ◌∙◌, refl, ap, sym, subst, Bool, true, false, Option, none, some, List, arith, Bool-cases,
  inl, inr, if◌then◌else◌,
}
use librabbitmq.Base.Cmd.{
  Run, Cmd, ok, crash, blocked, pure, and_then, Returns, NoCrash, NoCrash-bind,
}
use librabbitmq.Py.{Py, PyErr, PyVal, PyItems, dict, err_occurred, set_err, connection_error, text}
use librabbitmq.Py.Held.{Object, maybe_unicode, xdecref_held}
use librabbitmq.Py.Held.Laws.{xdecref_held-err}
use librabbitmq.Amqp.{Entries}
use librabbitmq.Amqp.Build.{dict_to_table}
use librabbitmq.Amqp.Encodes.{IsKey, KeyEncodes, EncodesItems, IsCleanItems}
use librabbitmq.Amqp.Encodes.Stores.{key_object, key_ok}
use librabbitmq.Amqp.Encodes.Total.{dict_to_table-Encodes}
use librabbitmq.World.{
  as_channel, World, Connection, Call, RpcReply, channel_pool, get_rpc_reply, release_on_channel,
}
use librabbitmq.World.Calls.{with_py, call, next_reply}
use librabbitmq.World.Open.{IsSound, IsAlive, Stays, call-Stays, next_reply-Stays}
use librabbitmq.Errors.{not_connected, handle_amq_error, failed_status}
use librabbitmq.Errors.Revive.{Reports, Handled, Handled-Reports, handle_amq_error_ok}
use librabbitmq.Lifecycle.Laws.{Answers}
use librabbitmq.Synchronous.{
  bail, opened, named, unless_null, with_table, handled, synchronous, return_none,
}

-- The pointer may be followed, no exception is set, and the object is still `c`.
abbrev pub Ready : Connection → World → Type 0
Ready c w = IsAlive w × (w.py.err ≡ none) × (w.self ≡ c)

-- A step of the interpreter that returns, and what follows.
with_py_ok :
    {A B : Type 0} (P : A → Py → Type 0) (Q : B → World → Type 0) (r : Run Py A) (w : World)
    (k : A → Cmd World B)
    → Returns P r
    → ((a : A) (s : Py) → P a s → NoCrash Q (k a (record w { py = s })))
    → NoCrash Q (and_then (with_py w r) k)
with_py_ok P Q (ok a s) w k h next = next a s h
with_py_ok P Q crash w k h next = absurd h
with_py_ok P Q blocked w k h next = absurd h

module _ {B : Type 0} (c : Connection) (Q : Option B → World → Type 0) where
  pub named_ok :
      (v : PyVal) (next : Object → Cmd World (Option B)) (w : World)
      → IsKey v
      → Ready c w
      → ((bs : List ℕ) (r : Option ℕ) (w' : World)
          → KeyEncodes v bs
          → Ready c w'
          → NoCrash Q (next (key_object bs r) w'))
      → NoCrash Q (named v next w)
  unfolding named
  named_ok v next w key ready go =
      with_py_ok _ Q (maybe_unicode v w.py) w _ (key_ok v w.py key) (λ o s p.
        subst (λ o'. NoCrash Q (unless_null o'.value (next o') (record w { py = s }))) (sym p.2)
          (go p.0 p.1 (record w { py = s }) p.3
            (record { alive_ = ready.0.alive_ }, p.4 ∙ ready.1, ready.2)))

  go_on_table :
      (next : Entries → Cmd World (Option B)) (t : Entries) (w : World)
      → w.py.err ≡ none
      → NoCrash Q (next t w)
      → NoCrash Q (elim (err_occurred w.py) [ true ↦ bail w | false ↦ next t w ])
  go_on_table next t w calm h = rw calm h

  pub with_table_ok :
      (ch : ℕ) (d : PyItems) (next : Entries → Cmd World (Option B)) (w : World)
      → IsCleanItems d
      → Ready c w
      → ((t : Entries) (w' : World) → EncodesItems d t → Ready c w' → NoCrash Q (next t w'))
      → NoCrash Q (with_table ch (dict d) next w)
  unfolding with_table
  with_table_ok ch d next w clean ready go =
      NoCrash-bind (Stays w) Q (call (channel_pool (as_channel ch)) w) _
        (call-Stays (channel_pool (as_channel ch)) w ready.0)
        (λ u w1 p.
          with_py_ok _ Q (dict_to_table (dict d) w1.py) w1 _ (dict_to_table-Encodes d w1.py clean)
            (λ t s q.
              let calm = q.1 ∙ ap (λ y. y.err) p.1 ∙ ready.1 in
              go_on_table next t (record w1 { py = s }) calm
                (go t (record w1 { py = s }) q.0
                  (record { alive_ = p.0.alive_ }, calm, p.2 ∙ ready.2))))

-- The end of a method that returns None.
ended :
    (c : Connection) (s : Py) (failed : Bool) (reply : RpcReply) (w : World)
    → Reports c s failed w
    → NoCrash (Answers c) ((if failed then bail else return_none reply) w)
ended c s true reply w h = (
  record { held = h.0.held },
  ap (λ e. elim e [ none ↦ false | some _ ↦ true ]) (xdecref_held-err w.py) ∙ h.2 refl,
)
ended c s false reply w h = (h.0, (h.1 refl).0)

released :
    (b : Bool) (ch : ℕ) (w : World)
    → IsAlive w
    → NoCrash (Stays w) ((if b then call (release_on_channel ch) else pure tt) w)
released true ch w o = call-Stays (release_on_channel ch) w o
released false ch w o = (record { alive_ = o.alive_ }, refl, refl)

pub synchronous_ok :
    (c : Connection) (b : Bool) (ch : ℕ) (sent : Call) (context : String) (w : World)
    → Ready c w
    → NoCrash (Answers c) (synchronous b ch sent context return_none w)
unfolding synchronous handled
synchronous_ok c b ch sent context w ready =
    NoCrash-bind (Stays w) (Answers c) (call sent w) _ (call-Stays sent w ready.0) (λ u w1 p.
      NoCrash-bind (Stays w1) (Answers c) (call get_rpc_reply w1) _
        (call-Stays get_rpc_reply w1 p.0)
        (λ u' w2 q.
          NoCrash-bind (Stays w2) (Answers c) (next_reply w2) _ (next_reply-Stays w2 q.0)
            (λ reply w3 r.
              NoCrash-bind (Stays w3) (Answers c) _ _ (released b ch w3 r.0) (λ u'' w4 t.
                let w5 = record w4 { py = xdecref_held w4.py } in
                NoCrash-bind (Handled w5) (Answers c) (handle_amq_error ch reply context w5) _
                  (handle_amq_error_ok ch reply context w5 (record { alive_ = t.0.alive_ }))
                  (λ z w6 h. ended c w5.py (failed_status z) reply w6 (
                    Handled-Reports c w5.py w5 z w6 (record { alive_ = t.0.alive_ })
                      (t.2 ∙ r.2 ∙ q.2 ∙ p.2 ∙ ready.2) refl h))))))

abbrev pub closed_error : PyErr
closed_error = connection_error (text "Operation on closed connection")

-- The world after a method was refused on a closed connection.
abbrev pub refused : World → World
refused w = record w { py = xdecref_held (set_err closed_error w.py) }

opened_open :
    {A B : Type 0} (a : A) (work : A → Cmd World (Option B)) (w : World)
    → w.self.connected ≡ true
    → opened (some a) work w ≡ work a w
unfolding opened not_connected
opened_open a work w e = ground arith

pub opened_closed :
    {A B : Type 0} (args : Option A) (work : A → Cmd World (Option B)) (w : World)
    → w.self.connected ≡ false
    → opened args work w ≡ ok none (refused w)
unfolding opened not_connected
opened_closed args work w e = ground arith

-- The tests at the head of a method that is called on a sound object, then its work.
pub opened_ok :
    {A B : Type 0} (a : A) (work : A → Cmd World (Option B)) (w : World)
    → IsSound w
    → w.py.err ≡ none
    → (Ready w.self w → NoCrash (Answers w.self) (work a w))
    → NoCrash (Answers w.self) (opened (some a) work w)
opened_ok a work w s calm h = elim (Bool-cases w.self.connected) [
  | inl e ↦ rw (opened_open a work w e) (h (record { alive_ = s.held e }, calm, refl))
  | inr e ↦ rw (opened_closed (some a) work w e) (
    record { held = λ c. cc },
    ap (λ x. elim x [ none ↦ false | some _ ↦ true ])
        (xdecref_held-err (set_err closed_error w.py)),
  )
]
