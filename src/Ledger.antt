-- ===== src/Ledger.antt =====
-- The references of an operation of connection.c from its start to its end: what the conversion of
-- names and tables keeps, and what a method leaves ("Keep track of increased reference counts").
pub mod Tables
pub mod Methods
pub mod Properties
pub mod Publish
use librabbitmq.Base.{ℕ, ◌≡◌, Top}
use librabbitmq.Py.{Py, PyVal, PyItems, dict, list, tuple, nil, cons}
use librabbitmq.Py.Held.Laws.{IsBalanced}
use librabbitmq.Py.Objects.{empty_array}

-- The references are balanced over `base`, and `excess` times one was given back that was not owned.
abbrev pub IsKept : (ℕ → ℕ) → ℕ → Py → Type 0
IsKept base excess s = IsBalanced base s × (s.excess ≡ excess)

-- Exactly the references of `base` are owned, nothing is held, and `excess` times one was given back
-- that was not owned.
abbrev pub IsRestored : (ℕ → ℕ) → ℕ → Py → Type 0
IsRestored base excess s =
    ((i : ℕ) → s.owned i ≡ base i) × (s.excess ≡ excess) × (s.held ≡ empty_array)

-- No list and no tuple stands in the value, however deep.
unfoldable mutual
  pub HasNoList : PyVal → Type 0
  HasNoList (dict d) = HaveNoList d
  HasNoList (list sq) = ⊥
  HasNoList (tuple sq) = ⊥
  HasNoList _ = Top

  pub HaveNoList : PyItems → Type 0
  HaveNoList nil = Top
  HaveNoList (cons k v rest) = HasNoList v × HaveNoList rest
