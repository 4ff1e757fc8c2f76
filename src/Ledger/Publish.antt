-- ===== src/Ledger/Publish.antt =====
-- The references of `_basic_publish`, from the start of a call to its end.
use librabbitmq.Base.{
  ℕ, ◌≡◌, ◌+◌, ◌==◌, ◌⊎◌, inl, inr, refl, Bool, true, false, Option, none, some, Top, arith,
}
use librabbitmq.Base.Cmd.{◌>>◌, Ensures}
use librabbitmq.Base.Keeps.{
  Keeps, Ends, Keeps-bind, Keeps-pure, Ends-bind, Ends-Keeps, Ends-seq, Ends-seq_then, Ends-mono,
}
use librabbitmq.Py.{Py, update, take_ref, release, new_ref, xdecref}
use librabbitmq.Py.Objects.{empty_array}
use librabbitmq.Py.Held.{Object}
use librabbitmq.World.{World, BasicProperties}
use librabbitmq.World.Calls.{lift}
use librabbitmq.World.Keeps.{call-Keeps, next_status-Keeps}
use librabbitmq.Errors.Keeps.{handle_error-Keeps, revive_channel-Keeps}
use librabbitmq.Synchronous.{bail, release_held}
use librabbitmq.Synchronous.Keeps.{OnArgs, bytes-Keeps, bail-Keeps, opened-Ends, named-Ends}
use librabbitmq.Publish.{
  PublishArgs, published, publish_send, publish_properties, publish_work, basic_publish_method,
}
use librabbitmq.Ledger.{IsKept, IsRestored, HasNoList}
use librabbitmq.Ledger.Methods.{
  IsClear, Kept, Restored, passes, kept-IsStable, restored-IsStable, restoring, lift-Keeps, starts,
}
use librabbitmq.Ledger.Properties.{dict_to_basic_properties-Keeps}

-- One more reference with the number `i`.
abbrev pub and_one : (ℕ → ℕ) → ℕ → ℕ → ℕ
and_one base i = update base i (base i + 1)

taking :
    (base : ℕ → ℕ) (excess : ℕ) (s : Py)
    → IsKept base excess s
    → IsKept (and_one base s.fresh) excess (take_ref s)
taking base excess s h = (
  record { balance = λ j. ground (arith, h.0.balance j, h.0.balance s.fresh); packed = h.0.packed },
  h.1,
)

giving_back :
    (base : ℕ → ℕ) (excess : ℕ) (i : ℕ) (s : Py)
    → IsKept (and_one base i) excess s
    → IsKept base excess (release i s)
giving_back base excess i s h = owned_one (s.owned i == 0) refl
  where
    owned_one : (b : Bool) → (s.owned i == 0) ≡ b → IsKept base excess (release i s)
    owned_one true e = absurd (ground (arith, h.0.balance i, e))
    owned_one false e = rw e (
      record {
        balance = λ j. ground (arith, h.0.balance j, h.0.balance i, e);
        packed = h.0.packed;
      },
      h.1,
    )

module _ (base : ℕ → ℕ) (excess : ℕ) where
  -- Restored, or NULL was returned and one reference more is owned.
  abbrev pub Outcome : Option Top → World → Type 0
  Outcome r w =
      IsRestored base excess w.py
      ⊎ ((r ≡ none) × ((i : ℕ) × IsRestored (and_one base i) excess w.py))

  bailing : (i : ℕ) → Ends (Kept (and_one base i) excess) Outcome bail
  bailing i = record { at = λ w h. inr (refl, (i, restoring (and_one base i) excess w.py h)) }

  failing : Ends (Kept base excess) Outcome bail
  failing = record { at = λ w h. inl (restoring base excess w.py h) }

  published-Keeps : (ch : ℕ) (b : Bool) → Keeps (Restored base excess) (published ch b)
  unfolding published
  published-Keeps ch true = Keeps-pure _
  published-Keeps ch false =
      Keeps-bind _ _
        (revive_channel-Keeps _ (restored-IsStable base excess) (passes base excess).closing ch)
        (λ u. bail-Keeps _ _ (passes base excess))

  publish_send-Ends :
      (a : PublishArgs) (e r : Object) (props : BasicProperties)
      → Ends (Kept base excess) Outcome (publish_send a e r props)
  unfolding publish_send
  publish_send-Ends a e r props =
      Ends-mono (λ t w. Restored base excess w) Outcome _ (λ t w h. inl h)
        (Ends-bind _ _ _ (bytes-Keeps _ e) (λ eb. Ends-bind _ _ _ (bytes-Keeps _ r) (λ rb.
          Ends-bind _ _ _ (call-Keeps _ (kept-IsStable base excess) _) (λ u.
            Ends-bind _ _ _ (next_status-Keeps _ (kept-IsStable base excess)) (λ ret.
              Ends-bind _ _ _ (call-Keeps _ (kept-IsStable base excess) _) (λ u'.
                Ends-seq_then (Restored base excess) _ release_held _
                  (record { at = λ w h. restoring base excess w.py h })
                  (Ends-Keeps _ (
                    Keeps-bind _ _
                      (handle_error-Keeps _ (restored-IsStable base excess) ret "basic.publish")
                      (published-Keeps a.channel)))))))))

  publish_properties-Ends :
      (a : PublishArgs) (e r : Object)
      → HasNoList a.propdict
      → Ends (Kept base excess) Outcome (publish_properties a e r)
  unfolding publish_properties
  publish_properties-Ends a e r n =
      Ends-seq (λ i w. Kept (and_one base i) excess w) Outcome (lift new_ref) _
        (record { at = λ w h. taking base excess w.py h })
        (λ i. Ends-bind _ _ _ (call-Keeps _ (kept-IsStable (and_one base i) excess) _) (λ u.
          Ends-bind _ _ _
            (lift-Keeps (IsKept (and_one base i) excess) _
              (dict_to_basic_properties-Keeps (and_one base i) excess a.propdict n))
            (given i)))
    where
      given :
          (i : ℕ) (o : Option BasicProperties)
          → Ends {A = Option Top}
              (Kept (and_one base i) excess)
              Outcome
              (elim o [ none ↦ bail | some p ↦ (do lift (xdecref i); publish_send a e r p) ])
      given i none = bailing i
      given i (some p) =
          Ends-seq_then (Kept base excess) Outcome (lift (xdecref i)) _
            (record { at = λ w h. giving_back base excess i w.py h }) (publish_send-Ends a e r p)

  publish_work-Ends :
      (a : PublishArgs) → HasNoList a.propdict → Ends (Kept base excess) Outcome (publish_work a)
  unfolding publish_work
  publish_work-Ends a n =
      named-Ends _ Outcome failing a.exchange _ ((passes base excess).naming a.exchange) (λ e.
        named-Ends _ Outcome failing a.routing_key _ ((passes base excess).naming a.routing_key)
          (λ r. publish_properties-Ends a e r n))

  publish_each :
      (args : Option PublishArgs)
      → OnArgs (λ a. HasNoList a.propdict) args
      → OnArgs (λ a. Ends (Kept base excess) Outcome (publish_work a)) args
  publish_each none n = tt
  publish_each (some a) n = publish_work-Ends a n

  basic_publish_method-Ends :
      (args : Option PublishArgs)
      → OnArgs (λ a. HasNoList a.propdict) args
      → Ends (Kept base excess) Outcome (basic_publish_method args)
  unfolding basic_publish_method
  basic_publish_method-Ends args n =
      opened-Ends _ Outcome failing args _ (kept-IsStable base excess) (publish_each args n)

-- A call that begins with nothing held: wherever `_basic_publish` returns, with any arguments in whose
-- property dict there is no list or tuple, nothing is held, none of the references was given back too
-- often, and exactly those are owned that were owned before; or NULL was returned, and one more is
-- owned.
pub basic_publish_method-IsRestored :
    (args : Option PublishArgs) (w : World)
    → w.py.held ≡ empty_array
    → OnArgs (λ a. HasNoList a.propdict) args
    → Ensures
        (λ r w'.
          IsClear w w'
          ⊎ ((r ≡ none) × ((i : ℕ) × IsRestored (and_one w.py.owned i) w.py.excess w'.py)))
        (basic_publish_method args w)
basic_publish_method-IsRestored args w empty n =
    (basic_publish_method-Ends w.py.owned w.py.excess args n).at w (starts w empty)
