-- ===== src/Py/Objects.antt =====
-- `pyobject_array_t`, the list of chunks in which an operation keeps the new references that it
-- must give back when it ends (connection.c, "Keep track of increased reference counts").
pub mod Laws
use librabbitmq.Base.{ℕ, ◌≡◌, ◌≤◌, List, [], ◌∷◌, ◌++◌, length, ◌==◌, if◌then◌else◌}

-- A chunk whose `next` is NULL, or one that is followed by another. The list is `entries` up to
-- `num_entries`.
pub data ObjectArray : Type 0 where
  last : List ℕ → ObjectArray
  link : List ℕ → ObjectArray → ObjectArray

-- `PYOBJECT_ARRAY_MAX`.
abbrev pub array_max : ℕ
array_max = 5

-- `{0}`.
abbrev pub empty_array : ObjectArray
empty_array = last []

-- `array->entries[array->num_entries] = obj; array->num_entries++`.
abbrev pub store_entry : List ℕ → ℕ → List ℕ
store_entry es obj = es ++ (obj ∷ [])

-- `PyObjectArray_AddEntry` at a pointer that is not NULL. A full last chunk gets a successor, on
-- which the call goes on; that one is empty, so it stores at once.
unfoldable pub add_entry : ObjectArray → ℕ → ObjectArray
add_entry (last es) obj =
    if length es == array_max
    then link es (last (store_entry [] obj))
    else last (store_entry es obj)
add_entry (link es next) obj =
    let rest = add_entry next obj in
    if length es == array_max then link es rest else link (store_entry es obj) next

-- The references in the order in which they were stored.
abbrev pub to_list : ObjectArray → List ℕ
to_list (last es) = es
to_list (link es next) = es ++ to_list next

-- No chunk is overfull, and a chunk that has a successor is full.
abbrev pub IsPacked : ObjectArray → Type 0
IsPacked (last es) = length es ≤ array_max
IsPacked (link es next) = (length es ≡ array_max) × IsPacked next
