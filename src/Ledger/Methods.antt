-- ===== src/Ledger/Methods.antt =====
-- The references of the methods for queues, exchanges and consumers, from the start of a call to its
-- end.
use librabbitmq.Base.{ℕ, ◌≡◌, ◌∙◌, refl, Bool, true, false, Option, none, some, arith}
use librabbitmq.Base.Cmd.{Run, ok, crash, blocked, Cmd, ◌>>◌, Ensures}
use librabbitmq.Base.Keeps.{Keeps}
use librabbitmq.Py.{Py, PyVal}
use librabbitmq.Py.Objects.{empty_array}
use librabbitmq.Py.Held.{xdecref_held}
use librabbitmq.Py.Held.Laws.{xdecref_held-restores}
use librabbitmq.Amqp.Build.{dict_to_table}
use librabbitmq.World.{World, Pointer, null, alive, dangling, connection_close_, destroy_connection}
use librabbitmq.World.Calls.{with_py, lift, call, set_self}
use librabbitmq.World.Keeps.{IsStable}
use librabbitmq.Errors.{close, closed}
use librabbitmq.Synchronous.Keeps.{Passes, OnArgs}
use librabbitmq.Queue.{
  BindArgs, DeleteArgs, DeclareArgs, PurgeArgs, ExchangeArgs, ExchangeDeleteArgs, queue_bind_method,
  queue_unbind_method, queue_delete_method, queue_declare_method, queue_purge_method,
  exchange_declare_method, exchange_delete_method,
}
use librabbitmq.Queue.Keeps.{
  queue_bind_method-Closes, queue_unbind_method-Closes, queue_delete_method-Closes,
  queue_declare_method-Closes, queue_purge_method-Closes, exchange_declare_method-Closes,
  exchange_delete_method-Closes,
}
use librabbitmq.Consumer.{ConsumeArgs, CancelArgs, basic_consume_method, basic_cancel_method}
use librabbitmq.Consumer.Keeps.{basic_consume_method-Closes, basic_cancel_method-Closes}
use librabbitmq.Ledger.{IsKept, IsRestored, HasNoList}
use librabbitmq.Ledger.Tables.{maybe_unicode-Keeps, dict_to_table-Keeps}

module _ (Q : Py → Type 0) where
  lifted :
      {A : Type 0} (r : Run Py A) (w : World)
      → Ensures (λ a s. Q s) r
      → Ensures (λ a w'. Q w'.py) (with_py w r)
  lifted (ok a s) w h = h
  lifted crash w h = tt
  lifted blocked w h = tt

  pub lift-Keeps : {A : Type 0} (m : Cmd Py A) → Keeps Q m → Keeps (λ w. Q w.py) (lift m)
  lift-Keeps m km = record { at = λ w h. lifted (m w.py) w (km.at w.py h) }

  destroying :
      (p : Pointer) (w : World)
      → w.self.conn ≡ p
      → Q w.py
      → Ensures
          (λ a w'. Q w'.py)
          ((call connection_close_ >> call destroy_connection >> set_self closed) w)
  destroying null w e h = rw e tt
  destroying dangling w e h = rw e tt
  destroying alive w e h = rw e h

  closing_on :
      (b : Bool) (w : World) → w.self.connected ≡ b → Q w.py → Ensures (λ a w'. Q w'.py) (close w)
  unfolding close
  closing_on true w e h = rw (close, e) (destroying w.self.conn w refl h)
  closing_on false w e h = rw (close, e) h

  pub close-Keeps : Keeps (λ w. Q w.py) close
  close-Keeps = record { at = λ w h. closing_on w.self.connected w refl h }

module _ (base : ℕ → ℕ) (excess : ℕ) where
  abbrev pub Kept : World → Type 0
  Kept w = IsKept base excess w.py

  abbrev pub Restored : World → Type 0
  Restored w = IsRestored base excess w.py

  -- References that have been restored are balanced.
  pub restored_kept : (s : Py) → IsRestored base excess s → IsKept base excess s
  restored_kept s h =
      (record { balance = λ i. rw h.2 (omega (arith, h.0 i)); packed = rw h.2 (omega arith) }, h.1)

  pub restoring : (s : Py) → IsKept base excess s → IsRestored base excess (xdecref_held s)
  restoring s h = let r = xdecref_held-restores base s h.0 in (r.0, r.1 ∙ h.1, r.2)

  pub kept-IsStable : IsStable Kept
  kept-IsStable = record {
    raising = λ e w h. (record { balance = h.0.balance; packed = h.0.packed }, h.1);
    calling = λ c w h. h;
    reading = λ l w h. h;
  }

  pub restored-IsStable : IsStable Restored
  restored-IsStable = record { raising = λ e w h. h; calling = λ c w h. h; reading = λ l w h. h }

  abbrev pub passes : Passes Kept Restored
  passes = record {
    before = kept-IsStable;
    after = restored-IsStable;
    closing = close-Keeps (IsRestored base excess);
    releasing = λ w h. restoring w.py h;
    releasing_again = λ w h. restoring w.py (restored_kept w.py h);
    naming = λ v. lift-Keeps (IsKept base excess) _ (maybe_unicode-Keeps base excess v);
  }

  tabled :
      {A : Type 0} (f : A → PyVal) (args : Option A)
      → OnArgs (λ a. HasNoList (f a)) args
      → OnArgs (λ a. Keeps Kept (lift (dict_to_table (f a)))) args
  tabled f none n = tt
  tabled f (some a) n = lift-Keeps (IsKept base excess) _ (dict_to_table-Keeps base excess (f a) n)

-- The references that the caller of `w` owned are owned in `w'`, no others are, none was given back
-- too often in between, and nothing is held.
abbrev pub IsClear : World → World → Type 0
IsClear w w' = IsRestored w.py.owned w.py.excess w'.py

abbrev pub starts : (w : World) → w.py.held ≡ empty_array → IsKept w.py.owned w.py.excess w.py
starts w e = restored_kept w.py.owned w.py.excess w.py (λ i. refl, refl, e)

module _ (w : World) (empty : w.py.held ≡ empty_array) where
  -- A call that begins with nothing held: wherever a method for queues returns, with any
  -- arguments in whose `arguments` there is no list or tuple, with None, a number or NULL, exactly the
  -- references are owned that were owned before, none was given back too often, and nothing is held.
  pub queue_methods_restored :
      (bind unbind : Option BindArgs) (declare : Option DeclareArgs) (delete : Option DeleteArgs)
      (purge : Option PurgeArgs)
      → OnArgs (λ a. HasNoList a.arguments) bind
      → OnArgs (λ a. HasNoList a.arguments) unbind
      → OnArgs (λ a. HasNoList a.arguments) declare
      → Ensures (λ r w'. IsClear w w') (queue_bind_method bind w)
        × Ensures (λ r w'. IsClear w w') (queue_unbind_method unbind w)
        × Ensures (λ r w'. IsClear w w') (queue_declare_method declare w)
        × Ensures (λ r w'. IsClear w w') (queue_delete_method delete w)
        × Ensures (λ r w'. IsClear w w') (queue_purge_method purge w)
  queue_methods_restored bind unbind declare delete purge nb nu nd =
      let base = w.py.owned in
      let ex = w.py.excess in
      (
        (queue_bind_method-Closes _ _ (passes base ex) bind (tabled base ex _ bind nb)).at w
            (starts w empty),
        (queue_unbind_method-Closes _ _ (passes base ex) unbind (tabled base ex _ unbind nu)).at w
            (starts w empty),
        (queue_declare_method-Closes _ _ (passes base ex) declare (tabled base ex _ declare nd)).at
            w (starts w empty),
        (queue_delete_method-Closes _ _ (passes base ex) delete).at w (starts w empty),
        (queue_purge_method-Closes _ _ (passes base ex) purge).at w (starts w empty),
      )

  -- A call that begins with nothing held: wherever a method for exchanges returns, with any
  -- arguments in whose `arguments` there is no list or tuple, with None or NULL, exactly the references
  -- are owned that were owned before, none was given back too often, and nothing is held.
  pub exchange_methods_restored :
      (declare : Option ExchangeArgs) (delete : Option ExchangeDeleteArgs)
      → OnArgs (λ a. HasNoList a.arguments) declare
      → Ensures (λ r w'. IsClear w w') (exchange_declare_method declare w)
        × Ensures (λ r w'. IsClear w w') (exchange_delete_method delete w)
  exchange_methods_restored declare delete nd =
      let base = w.py.owned in
      let ex = w.py.excess in
      (
        (exchange_declare_method-Closes _ _ (passes base ex) declare
              (tabled base ex _ declare nd)).at
            w (starts w empty),
        (exchange_delete_method-Closes _ _ (passes base ex) delete).at w (starts w empty),
      )

  -- A call that begins with nothing held: wherever `_basic_consume` or `_basic_cancel` returns, with
  -- any arguments in whose `arguments` there is no list or tuple, exactly the references are owned that
  -- were owned before, none was given back too often, and nothing is held.
  pub consumer_methods_restored :
      (consume : Option ConsumeArgs) (cancel : Option CancelArgs)
      → OnArgs (λ a. HasNoList a.arguments) consume
      → Ensures (λ r w'. IsClear w w') (basic_consume_method consume w)
        × Ensures (λ r w'. IsClear w w') (basic_cancel_method cancel w)
  consumer_methods_restored consume cancel nc =
      let base = w.py.owned in
      let ex = w.py.excess in
      (
        (basic_consume_method-Closes _ _ (passes base ex) consume (tabled base ex _ consume nc)).at
            w (starts w empty),
        (basic_cancel_method-Closes _ _ (passes base ex) (Restored base ex) cancel
              (restored-IsStable base ex) (λ v h. restored_kept base ex v.py h) (λ v h. h)).at
            w (λ i. refl, refl, empty),
      )
