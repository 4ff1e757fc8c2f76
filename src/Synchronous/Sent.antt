-- ===== src/Synchronous/Sent.antt =====
-- The parts of the synchronous methods with the calls that they make, where the broker accepts.
use Prim.Native.String.{String}
use librabbitmq.Base.{
  ℕ, ◌≡◌, ◌∙◌, refl, ap, sym, subst, true, false, Option, none, some, List, ◌∷◌, Top, arith,
}
use librabbitmq.Base.Cmd.{
  Run, Cmd, ok, crash, blocked, and_then, Returns, Returns-bind, Returns-mono,
}
use librabbitmq.Py.{Py, PyVal, PyItems, dict, err_occurred}
use librabbitmq.Py.Held.{Object, maybe_unicode}
use librabbitmq.Py.Held.Laws.{xdecref_held-err}
use librabbitmq.Amqp.{Entries}
use librabbitmq.Amqp.Build.{dict_to_table}
use librabbitmq.Amqp.Encodes.{KeyEncodes, IsKey, EncodesItems, IsCleanItems}
use librabbitmq.Amqp.Encodes.Stores.{key_object, key_ok}
use librabbitmq.Amqp.Encodes.Total.{dict_to_table-Encodes}
use librabbitmq.World.{
  as_channel, World, Call, alive, RpcReply, normal, Decoded, channel_pool, get_rpc_reply,
  release_on_channel,
}
use librabbitmq.World.Calls.{with_py, call}
use librabbitmq.World.Open.{IsAlive, call_alive}
use librabbitmq.Errors.{not_connected, handle_amq_error, handle_with}
use librabbitmq.Synchronous.{
  opened, named, unless_null, with_table, bail, handled, synchronous, return_none,
}

-- So far only `calls` were made: the pointer may be followed, no exception is set, and the object and
-- the script are those of `w0`.
abbrev pub Holds : World → List Call → World → Type 0
Holds w0 calls w =
    IsAlive w × (w.py.err ≡ none) × (w.self ≡ w0.self) × (w.lib ≡ w0.lib) × (w.trace ≡ calls)

pub with_py_returns :
    {A B : Type 0} (P : A → Py → Type 0) (Q : B → World → Type 0) (r : Run Py A) (w : World)
    (k : A → Cmd World B)
    → Returns P r
    → ((a : A) (s : Py) → P a s → Returns Q (k a (record w { py = s })))
    → Returns Q (and_then (with_py w r) k)
with_py_returns P Q (ok a s) w k h next = next a s h
with_py_returns P Q crash w k h next = absurd h
with_py_returns P Q blocked w k h next = absurd h

pub call-Holds :
    (w0 : World) (calls : List Call) (c : Call) (w : World)
    → Holds w0 calls w
    → Returns (λ u w1. Holds w0 (c ∷ calls) w1) (call c w)
call-Holds w0 calls c w h =
    rw (call_alive c w h.0) (record { alive_ = h.0.alive_ }, h.1, h.2, h.3, ap (λ x. c ∷ x) h.4)

pub opened_work :
    {A B : Type 0} (work : A → Cmd World (Option B)) (a : A) (w : World)
    → w.self.connected ≡ true
    → opened (some a) work w ≡ work a w
unfolding opened not_connected
opened_work work a w e = ground arith

module _ {B : Type 0} (w0 : World) (calls : List Call) (Q : Option B → World → Type 0) where
  pub named_sent :
      (v : PyVal) (next : Object → Cmd World (Option B)) (w : World)
      → IsKey v
      → Holds w0 calls w
      → ((bs : List ℕ) (r : Option ℕ) (w' : World)
          → KeyEncodes v bs
          → Holds w0 calls w'
          → Returns Q (next (key_object bs r) w'))
      → Returns Q (named v next w)
  unfolding named
  named_sent v next w key h go =
      with_py_returns _ Q (maybe_unicode v w.py) w _ (key_ok v w.py key) (λ o s p.
        subst (λ o'. Returns Q (unless_null o'.value (next o') (record w { py = s }))) (sym p.2)
          (go p.0 p.1 (record w { py = s }) p.3
            (record { alive_ = h.0.alive_ }, p.4 ∙ h.1, h.2, h.3, h.4)))

  table_goes_on :
      (next : Entries → Cmd World (Option B)) (t : Entries) (w : World)
      → w.py.err ≡ none
      → Returns Q (next t w)
      → Returns Q (elim (err_occurred w.py) [ true ↦ bail w | false ↦ next t w ])
  table_goes_on next t w calm h = rw calm h

  table_sent :
      (ch : ℕ) (d : PyItems) (next : Entries → Cmd World (Option B)) (w : World)
      → IsCleanItems d
      → Holds w0 calls w
      → ((t : Entries) (w' : World)
          → EncodesItems d t
          → Holds w0 (channel_pool (as_channel ch) ∷ calls) w'
          → Returns Q (next t w'))
      → Returns Q (with_table ch (dict d) next w)
  unfolding with_table
  table_sent ch d next w clean h go =
      Returns-bind (λ u w1. Holds w0 (channel_pool (as_channel ch) ∷ calls) w1) Q
        (call (channel_pool (as_channel ch)) w) _
        (call-Holds w0 calls (channel_pool (as_channel ch)) w h)
        (λ u w1 h1.
          with_py_returns _ Q (dict_to_table (dict d) w1.py) w1 _
            (dict_to_table-Encodes d w1.py clean)
            (λ t s q.
              table_goes_on next t (record w1 { py = s }) (q.1 ∙ h1.1)
                (go t (record w1 { py = s }) q.0
                  (record { alive_ = h1.0.alive_ }, q.1 ∙ h1.1, h1.2, h1.3, h1.4))))

  pub table_of :
      (ch : ℕ) (v : PyVal) (d : PyItems) (next : Entries → Cmd World (Option B)) (w : World)
      → v ≡ dict d
      → IsCleanItems d
      → Holds w0 calls w
      → ((t : Entries) (w' : World)
          → EncodesItems d t
          → Holds w0 (channel_pool (as_channel ch) ∷ calls) w'
          → Returns Q (next t w'))
      → Returns Q (with_table ch v next w)
  table_of ch v d next w e clean h go =
      subst (λ x. Returns Q (with_table ch x next w)) (sym e) (table_sent ch d next w clean h go)

-- The rest of the method, where the broker accepts it.
abbrev pub Accepted : World → List RpcReply → ℕ → Call → List Call → Option Top → World → Type 0
Accepted w0 rs ch c calls r v =
    (r ≡ some tt)
    × (v.trace ≡ release_on_channel ch ∷ get_rpc_reply ∷ c ∷ calls)
    × (v.lib.replies ≡ rs)
    × (v.py.err ≡ none)
    × (v.self ≡ w0.self)

abbrev at : World → List RpcReply → World
at w rs = record w { self = record self { conn = alive }; lib = record lib { replies = rs } }
  where
    open w use {self, lib}

accepted_at :
    (w : World) (d : Decoded) (rs : List RpcReply) (ch : ℕ) (c : Call) (context : String)
    → w.py.err ≡ none
    → Returns
        (Accepted (at w (normal d ∷ rs)) rs ch c w.trace)
        (synchronous true ch c context return_none (at w (normal d ∷ rs)))
unfolding synchronous handled handle_amq_error handle_with
accepted_at w d rs ch c context calm = (refl, refl, refl, xdecref_held-err w.py ∙ calm, refl)

pub accepted :
    (w0 : World) (d : Decoded) (rs : List RpcReply) (calls : List Call) (ch : ℕ) (c : Call)
    (context : String) (w : World)
    → w0.lib.replies ≡ normal d ∷ rs
    → Holds w0 calls w
    → Returns (Accepted w0 rs ch c calls) (synchronous true ch c context return_none w)
accepted w0 d rs calls ch c context w r h =
    Returns-mono (Accepted w rs ch c w.trace) (Accepted w0 rs ch c calls) _
      (subst
        (λ v. Returns (Accepted v rs ch c v.trace) (synchronous true ch c context return_none v))
        (sym same) (accepted_at w d rs ch c context h.1))
      (λ x v p. (
        p.0,
        p.1 ∙ ap (λ y. release_on_channel ch ∷ get_rpc_reply ∷ c ∷ y) h.4,
        p.2,
        p.3,
        p.4 ∙ h.2,
      ))
  where
    replies : w.lib.replies ≡ normal d ∷ rs
    replies = ap (λ l. l.replies) h.3 ∙ r

    same : w ≡ at w (normal d ∷ rs)
    same = λ i. record w {
      self = record self { conn = h.0.alive_ i };
      lib = record lib { replies = replies i };
    }
      where
        open w use {self, lib}
