-- ===== src/Base/Cmd.antt =====
-- C code over a state: a run returns a value and the new state, or it crashes (a NULL pointer is
-- followed, a buffer is overrun), or it waits for the broker for good. A Python exception is no
-- crash; it is part of the state.
use mathlib.Core.Path.{◌≡◌, refl}

pub data Run (S A : Type 0) : Type 0 where
  ok : A → S → Run S A
  crash : Run S A
  blocked : Run S A

abbrev pub Cmd : Type 0 → Type 0 → Type 0
Cmd S A = S → Run S A

module _ {S A : Type 0} where
  abbrev pub pure : A → Cmd S A
  pure a s = ok a s

  abbrev pub fail : Cmd S A
  fail s = crash

  abbrev pub gets : (S → A) → Cmd S A
  gets f s = ok (f s) s

abbrev pub modify : {S : Type 0} → (S → S) → Cmd S (Unit {0})
modify f s = ok tt (f s)

module _ {S A B : Type 0} where
  abbrev pub and_then : Run S A → (A → Cmd S B) → Run S B
  and_then (ok a s) k = k a s
  and_then crash k = crash
  and_then blocked k = blocked

  infixl 5 ◌>>=◌ ◌>>◌
  abbrev pub ◌>>=◌ : Cmd S A → (A → Cmd S B) → Cmd S B
  (m >>= k) s = and_then (m s) k

  abbrev pub ◌>>◌ : Cmd S A → Cmd S B → Cmd S B
  (m >> k) s = and_then (m s) (λ _. k)

module _ {S A : Type 0} where
  -- Total correctness: the run does not crash, and its result satisfies `P`.
  abbrev pub Returns : (A → S → Type 0) → Run S A → Type 0
  Returns P (ok a s) = P a s
  Returns P crash = ⊥
  Returns P blocked = ⊥

  pub Returns-ok :
      (P : A → S → Type 0) (r : Run S A) → Returns P r → (a : A) × (s : S) × (r ≡ ok a s) × P a s
  Returns-ok P (ok a s) h = (a, s, refl, h)
  Returns-ok P crash h = absurd h
  Returns-ok P blocked h = absurd h

  pub Returns-mono :
      (P Q : A → S → Type 0) (r : Run S A)
      → Returns P r
      → ((a : A) (s : S) → P a s → Q a s)
      → Returns Q r
  Returns-mono P Q (ok a s) h weaken = weaken a s h
  Returns-mono P Q crash h weaken = absurd h
  Returns-mono P Q blocked h weaken = absurd h

module _ {S A B : Type 0} where
  -- The rule for a sequence.
  pub Returns-bind :
      (P : A → S → Type 0) (Q : B → S → Type 0) (r : Run S A) (k : A → Cmd S B)
      → Returns P r
      → ((a : A) (s : S) → P a s → Returns Q (k a s))
      → Returns Q (and_then r k)
  Returns-bind P Q (ok a s) k h next = next a s h
  Returns-bind P Q crash k h next = absurd h
  Returns-bind P Q blocked k h next = absurd h

  -- A run that is known to return goes on with what follows.
  pub and_then-ok :
      {r : Run S A} {a : A} {s : S} (k : A → Cmd S B) → r ≡ ok a s → and_then r k ≡ k a s
  and_then-ok k e = rw e

module _ {S A : Type 0} where
  -- Partial correctness: if the run returns, its result satisfies `P`.
  abbrev pub Ensures : (A → S → Type 0) → Run S A → Type 0
  Ensures P (ok a s) = P a s
  Ensures P crash = Unit
  Ensures P blocked = Unit

  -- The run does not crash; it may wait for good.
  abbrev pub NoCrash : (A → S → Type 0) → Run S A → Type 0
  NoCrash P (ok a s) = P a s
  NoCrash P crash = ⊥
  NoCrash P blocked = Unit

  pub NoCrash-mono :
      (P Q : A → S → Type 0) (r : Run S A)
      → NoCrash P r
      → ((a : A) (s : S) → P a s → Q a s)
      → NoCrash Q r
  NoCrash-mono P Q (ok a s) h weaken = weaken a s h
  NoCrash-mono P Q crash h weaken = absurd h
  NoCrash-mono P Q blocked h weaken = tt

  pub Returns-NoCrash :
      (P Q : A → S → Type 0) (r : Run S A)
      → Returns P r
      → ((a : A) (s : S) → P a s → Q a s)
      → NoCrash Q r
  Returns-NoCrash P Q (ok a s) h weaken = weaken a s h
  Returns-NoCrash P Q crash h weaken = absurd h
  Returns-NoCrash P Q blocked h weaken = tt

module _ {S A B : Type 0} where
  pub NoCrash-bind :
      (P : A → S → Type 0) (Q : B → S → Type 0) (r : Run S A) (k : A → Cmd S B)
      → NoCrash P r
      → ((a : A) (s : S) → P a s → NoCrash Q (k a s))
      → NoCrash Q (and_then r k)
  NoCrash-bind P Q (ok a s) k h next = next a s h
  NoCrash-bind P Q crash k h next = absurd h
  NoCrash-bind P Q blocked k h next = tt
