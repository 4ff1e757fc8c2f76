-- ===== src/Py/Objects/Laws.antt =====
-- `PyObjectArray_AddEntry` on the chunks of the array.
use librabbitmq.Base.{
  ℕ, ◌≡◌, ◌+◌, [], ◌∷◌, ◌++◌, length-append, count, count-append, arith, append_assoc,
}
use librabbitmq.Py.Objects.{ObjectArray, last, link, add_entry, to_list, IsPacked}

-- A packed array stays packed: no write goes beyond the five entries of a chunk.
pub add_entry-IsPacked : (a : ObjectArray) (obj : ℕ) → IsPacked a → IsPacked (add_entry a obj)
unfolding add_entry
add_entry-IsPacked (last es) obj h = ground (arith, length-append es (obj ∷ []))
add_entry-IsPacked (link es next) obj h = ground (arith, add_entry-IsPacked next obj h.1)

-- In a packed array the new reference comes last.
pub to_list-add_entry :
    (a : ObjectArray) (obj : ℕ) → IsPacked a → to_list (add_entry a obj) ≡ to_list a ++ (obj ∷ [])
unfolding add_entry
to_list-add_entry (last es) obj h = ground arith
to_list-add_entry (link es next) obj h =
    ground (arith, to_list-add_entry next obj h.1, append_assoc es (to_list next) (obj ∷ []))

-- Stored once more than before, wherever it went.
pub count-add_entry :
    (i obj : ℕ) (a : ObjectArray)
    → count i (to_list (add_entry a obj)) ≡ count i (to_list a) + count i (obj ∷ [])
unfolding add_entry
count-add_entry i obj (last es) = ground (arith, count-append i es (obj ∷ []))
count-add_entry i obj (link es next) = ground (
  arith,
  count-add_entry i obj next,
  count-append i es (to_list next),
  count-append i es (to_list (add_entry next obj)),
  count-append i (es ++ (obj ∷ [])) (to_list next),
  count-append i es (obj ∷ []),
)
