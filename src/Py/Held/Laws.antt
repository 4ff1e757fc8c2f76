-- ===== src/Py/Held/Laws.antt =====
-- The ledger of references: what an operation holds against what it owns beyond the references that
-- it began with (`PyObjectArray_AddEntry`, `PyObjectArray_XDECREF`).
use librabbitmq.Base.{ℕ, ◌+◌, ◌≤◌, ◌≡◌, refl, List, [], ◌∷◌, ◌++◌, arith, count, count-append, ◌∙◌}
use librabbitmq.Base.Cmd.{Returns}
use librabbitmq.Py.{Py, release}
use librabbitmq.Py.Objects.{ObjectArray, last, link, to_list, IsPacked, empty_array}
use librabbitmq.Py.Objects.Laws.{add_entry-IsPacked, count-add_entry}
use librabbitmq.Py.Held.{keep_bytes, release_entries, release_array, xdecref_held}

-- The references owned are those of `base`, and one for each entry of the array.
pub record IsBalanced (base : ℕ → ℕ) (s : Py) : Type 0 where
  pub balance : (i : ℕ) → s.owned i ≡ base i + count i (to_list s.held)
  pub packed : IsPacked s.held

pub release_entries-owned :
    (es : List ℕ) (s : Py)
    → ((i : ℕ) → count i es ≤ s.owned i)
    → (i : ℕ) → (release_entries es s).owned i + count i es ≡ s.owned i
unfolding release_entries
release_entries-owned [] s h i = omega arith
release_entries-owned (x ∷ xs) s h i =
    ground (arith, h i, h x, release_entries-owned xs (release x s) rest i)
  where
    rest : (j : ℕ) → count j xs ≤ (release x s).owned j
    rest j = ground (arith, h j, h x)

pub release_entries-excess :
    (es : List ℕ) (s : Py)
    → ((i : ℕ) → count i es ≤ s.owned i)
    → (release_entries es s).excess ≡ s.excess
unfolding release_entries
release_entries-excess [] s h = refl
release_entries-excess (x ∷ xs) s h =
    ground (arith, h x, release_entries-excess xs (release x s) rest)
  where
    rest : (j : ℕ) → count j xs ≤ (release x s).owned j
    rest j = ground (arith, h j, h x)

-- Where a chunk and its successors are covered by the counts, the successors are, and the chunk
-- still is once they have been released.
module _ (es : List ℕ) (next : ObjectArray) (s : Py)
    (h : (i : ℕ) → count i (es ++ to_list next) ≤ s.owned i) where
  below : (j : ℕ) → count j (to_list next) ≤ s.owned j
  below j = omega (arith, h j, count-append j es (to_list next))

  enough :
      (t : Py)
      → ((i : ℕ) → t.owned i + count i (to_list next) ≡ s.owned i)
      → (j : ℕ) → count j es ≤ t.owned j
  enough t released j = omega (arith, h j, count-append j es (to_list next), released j)

-- What `release_array` does, chunk by chunk, is to release the entries of the whole list.
release_array-owned :
    (a : ObjectArray) (s : Py)
    → ((i : ℕ) → count i (to_list a) ≤ s.owned i)
    → (i : ℕ) → (release_array a s).owned i + count i (to_list a) ≡ s.owned i
unfolding release_array
release_array-owned (last es) s h i = release_entries-owned es s h i
release_array-owned (link es next) s h i =
    let released = release_array-owned next s (below es next s h) in
    omega (
      arith,
      count-append i es (to_list next),
      released i,
      release_entries-owned es (release_array next s)
          (enough es next s h (release_array next s) released) i,
    )

release_array-excess :
    (a : ObjectArray) (s : Py)
    → ((i : ℕ) → count i (to_list a) ≤ s.owned i)
    → (release_array a s).excess ≡ s.excess
unfolding release_array
release_array-excess (last es) s h = release_entries-excess es s h
release_array-excess (link es next) s h =
    let released = release_array-owned next s (below es next s h) in
    release_entries-excess es (release_array next s)
      (enough es next s h (release_array next s) released)
    ∙ release_array-excess next s (below es next s h)

module _ (base : ℕ → ℕ) (s : Py) (b : IsBalanced base s) where
  covered : (i : ℕ) → count i (to_list s.held) ≤ s.owned i
  covered i = omega (arith, b.balance i)

  -- Where the references are balanced over `base`, giving the array back leaves exactly those of
  -- `base`, gives back none that was not owned, and empties the array.
  pub xdecref_held-restores :
      ((i : ℕ) → (xdecref_held s).owned i ≡ base i)
      × ((xdecref_held s).excess ≡ s.excess)
      × ((xdecref_held s).held ≡ empty_array)
  unfolding xdecref_held
  xdecref_held-restores = (
    λ i. omega (arith, release_array-owned s.held s covered i, b.balance i),
    release_array-excess s.held s covered,
    refl,
  )

-- A second `PyObjectArray_XDECREF` on the way out does nothing.
pub xdecref_held-xdecref_held : (s : Py) → xdecref_held (xdecref_held s) ≡ xdecref_held s
unfolding xdecref_held
xdecref_held-xdecref_held s = refl

-- A new bytes object that is kept until the end of the operation is owned once and stored once: the
-- references stay balanced, and neither the exception nor the count of excess releases changes.
pub keep_bytes-IsBalanced :
    (base : ℕ → ℕ) (s : Py) (bs : List ℕ)
    → IsBalanced base s
    → Returns
        (λ o s'. IsBalanced base s' × (s'.err ≡ s.err) × (s'.excess ≡ s.excess))
        (keep_bytes bs s)
keep_bytes-IsBalanced base s bs b = (
  record {
    balance = λ i. ground (arith, b.balance i, count-add_entry i s.fresh s.held);
    packed = add_entry-IsPacked s.held s.fresh b.packed;
  },
  refl,
  refl,
)

-- Releasing sets and clears no exception.
release_entries-err : (es : List ℕ) (s : Py) → (release_entries es s).err ≡ s.err
unfolding release_entries
release_entries-err [] s = refl
release_entries-err (x ∷ xs) s = ground (arith, release_entries-err xs (release x s))

release_array-err : (a : ObjectArray) (s : Py) → (release_array a s).err ≡ s.err
unfolding release_array
release_array-err (last es) s = release_entries-err es s
release_array-err (link es next) s =
    release_entries-err es (release_array next s) ∙ release_array-err next s

pub xdecref_held-err : (s : Py) → (xdecref_held s).err ≡ s.err
unfolding xdecref_held
xdecref_held-err s = release_array-err s.held s
