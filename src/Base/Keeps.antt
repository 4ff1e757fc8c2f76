-- ===== src/Base/Keeps.antt =====
-- Invariants of runs, one rule for each way to build a run. A run that crashes or waits for good
-- leaves no state.
use librabbitmq.Base.{Bool, true, false, if◌then◌else◌}
use librabbitmq.Base.Cmd.{Run, ok, crash, blocked, Cmd, pure, fail, ◌>>=◌, ◌>>◌, and_then, Ensures}

-- Where `m` returns from a state with `P`, it leaves one with `P`.
pub record Keeps {S A : Type 0} (P : S → Type 0) (m : Cmd S A) : Type 0 where
  pub at : (s : S) → P s → Ensures (λ a s'. P s') (m s)

-- Where `m` returns from a state with `P`, its result and the state it leaves have `Q`.
pub record Ends {S A : Type 0} (P : S → Type 0) (Q : A → S → Type 0) (m : Cmd S A) : Type 0 where
  pub at : (s : S) → P s → Ensures Q (m s)

module _ {S A : Type 0} {P : S → Type 0} where
  pub Keeps-pure : (a : A) → Keeps P (pure a)
  Keeps-pure a = record { at = λ s h. h }

  pub Keeps-fail : Keeps P (fail {S = S} {A = A})
  Keeps-fail = record { at = λ s h. tt }

  pub Keeps-if : (b : Bool) (m n : Cmd S A) → Keeps P m → Keeps P n → Keeps P (if b then m else n)
  Keeps-if true m n km kn = km
  Keeps-if false m n km kn = kn

module _ {S A B : Type 0} {P : S → Type 0} where
  ends_run :
      (Q : B → S → Type 0) (r : Run S A) (k : A → Cmd S B)
      → Ensures (λ a s. P s) r
      → ((a : A) → Ends P Q (k a))
      → Ensures Q (and_then r k)
  ends_run Q (ok a s) k h ek = (ek a).at s h
  ends_run Q crash k h ek = tt
  ends_run Q blocked k h ek = tt

  pub Ends-bind :
      (Q : B → S → Type 0) (m : Cmd S A) (k : A → Cmd S B)
      → Keeps P m
      → ((a : A) → Ends P Q (k a))
      → Ends P Q (m >>= k)
  Ends-bind Q m k km ek = record { at = λ s h. ends_run Q (m s) k (km.at s h) ek }

  pub Ends-then :
      (Q : B → S → Type 0) (m : Cmd S A) (n : Cmd S B) → Keeps P m → Ends P Q n → Ends P Q (m >> n)
  Ends-then Q m n km en = record { at = λ s h. ends_run Q (m s) (λ _. n) (km.at s h) (λ a. en) }

  keeps_run :
      (r : Run S A) (k : A → Cmd S B)
      → Ensures (λ a s. P s) r
      → ((a : A) → Keeps P (k a))
      → Ensures (λ b s. P s) (and_then r k)
  keeps_run (ok a s) k h kk = (kk a).at s h
  keeps_run crash k h kk = tt
  keeps_run blocked k h kk = tt

  pub Keeps-bind :
      (m : Cmd S A) (k : A → Cmd S B) → Keeps P m → ((a : A) → Keeps P (k a)) → Keeps P (m >>= k)
  Keeps-bind m k km kk = record { at = λ s h. keeps_run (m s) k (km.at s h) kk }

  pub Keeps-then : (m : Cmd S A) (n : Cmd S B) → Keeps P m → Keeps P n → Keeps P (m >> n)
  Keeps-then m n km kn = record { at = λ s h. keeps_run (m s) (λ _. n) (km.at s h) (λ a. kn) }

pub ruleset keeps_rules = (Keeps-pure, Keeps-fail, Keeps-if, Keeps-bind, Keeps-then)

module _ {S A : Type 0} {P : S → Type 0} where
  pub Ends-Keeps : (m : Cmd S A) → Keeps P m → Ends P (λ a s. P s) m
  Ends-Keeps m km = record { at = km.at }

  pub Ends-if :
      (Q : A → S → Type 0) (b : Bool) (m n : Cmd S A)
      → Ends P Q m
      → Ends P Q n
      → Ends P Q (if b then m else n)
  Ends-if Q true m n em en = em
  Ends-if Q false m n em en = en

module _ {S A B : Type 0} where
  after_run :
      (M : A → S → Type 0) (Q : B → S → Type 0) (r : Run S A) (k : A → Cmd S B)
      → Ensures M r
      → ((a : A) → Ends (M a) Q (k a))
      → Ensures Q (and_then r k)
  after_run M Q (ok a s) k h ek = (ek a).at s h
  after_run M Q crash k h ek = tt
  after_run M Q blocked k h ek = tt

module _ {S A B : Type 0} {P : S → Type 0} where
  -- The state between the two parts has a predicate of its own.
  pub Ends-seq :
      (M : A → S → Type 0) (Q : B → S → Type 0) (m : Cmd S A) (k : A → Cmd S B)
      → Ends P M m
      → ((a : A) → Ends (M a) Q (k a))
      → Ends P Q (m >>= k)
  Ends-seq M Q m k em ek = record { at = λ s h. after_run M Q (m s) k (em.at s h) ek }

  pub Ends-seq_then :
      (M : S → Type 0) (Q : B → S → Type 0) (m : Cmd S A) (n : Cmd S B)
      → Ends P (λ a s. M s) m
      → Ends M Q n
      → Ends P Q (m >> n)
  Ends-seq_then M Q m n em en = record {
    at = λ s h. after_run (λ a s'. M s') Q (m s) (λ _. n) (em.at s h) (λ a. en);
  }

module _ {S A : Type 0} where
  weaker :
      (M Q : A → S → Type 0) (r : Run S A)
      → ((a : A) (s : S) → M a s → Q a s)
      → Ensures M r
      → Ensures Q r
  weaker M Q (ok a s) weaken h = weaken a s h
  weaker M Q crash weaken h = tt
  weaker M Q blocked weaken h = tt

module _ {S A : Type 0} {P : S → Type 0} where
  pub Ends-mono :
      (M Q : A → S → Type 0) (m : Cmd S A)
      → ((a : A) (s : S) → M a s → Q a s)
      → Ends P M m
      → Ends P Q m
  Ends-mono M Q m weaken em = record { at = λ s h. weaker M Q (m s) weaken (em.at s h) }
