-- ===== src/Message/Items.antt =====
-- Looking up a text in a dict into which texts have been put (`PyDict_SetItemString`,
-- `PyDict_GetItemString`).
use librabbitmq.Base.{
  ℕ, ◌≡◌, ◌∙◌, refl, sym, ap, Bool, true, false, Option, none, some, List, [], ◌∷◌, list_eq,
  list_eq→eq, list_eq_refl, if◌then◌else◌, Bool-cases, inl, inr,
}
use librabbitmq.Py.{
  PyVal, PyItems, null, none_, bool, int, float, str, bytes, dict, list, tuple, other, nil, cons,
}
use librabbitmq.Amqp.Read.{is_key, set_item}
use librabbitmq.Receive.Callback.{get_item}

-- Two keys that are the same text answer the same.
same_key : (cs ds : List ℕ) (k : PyVal) → is_key cs k ≡ true → is_key ds k ≡ list_eq ds cs
unfolding is_key
same_key cs ds (str es) e = ap (list_eq ds) (sym (list_eq→eq cs es e))
same_key cs ds null e = cc
same_key cs ds none_ e = cc
same_key cs ds (bool b) e = cc
same_key cs ds (int z) e = cc
same_key cs ds (float d) e = cc
same_key cs ds (bytes bs) e = cc
same_key cs ds (dict d) e = cc
same_key cs ds (list d) e = cc
same_key cs ds (tuple d) e = cc
same_key cs ds other e = cc

other_key :
    (cs ds : List ℕ) (k : PyVal) → is_key cs k ≡ false → is_key ds k ≡ true → list_eq ds cs ≡ false
unfolding is_key
other_key cs ds k e f = elim (Bool-cases (list_eq ds cs)) [
  | inl g ↦
      absurd
        (contradiction (sym (same_key ds cs k f) ∙ e) (rw (list_eq→eq ds cs g) (list_eq_refl cs)))
  | inr g ↦ g
]
  where
    contradiction : {b : Bool} → b ≡ false → b ≡ true → ⊥
    contradiction e f = cc

skipped {ℓ} :
    {A : Type ℓ} (b : Bool) (x y z : A)
    → (if b then x else z) ≡ (if b then x else if b then y else z)
skipped true x y z = refl
skipped false x y z = refl

-- What was put in last is found, and everything else as before.
pub get_item-set_item :
    (d : PyItems) (cs ds : List ℕ) (v : PyVal)
    → get_item (set_item d cs v) ds ≡ (if list_eq ds cs then some v else get_item d ds)
unfolding get_item set_item is_key
get_item-set_item nil cs ds v = refl
get_item-set_item (cons k w rest) cs ds v = elim (Bool-cases (is_key cs k)) [
  | inl e ↦
      rw (e, same_key cs ds k e) (skipped (list_eq ds cs) (some v) (some w) (get_item rest ds))
  | inr e ↦ elim (Bool-cases (is_key ds k)) [
    | inl f ↦ rw (e, f, other_key cs ds k e f) refl
    | inr f ↦ rw (e, f) (get_item-set_item rest cs ds v)
  ]
]

-- A field that may be absent.
abbrev pub put_field : PyItems → List ℕ → Option PyVal → PyItems
put_field d name none = d
put_field d name (some v) = set_item d name v

abbrev pub Fields : Type 0
Fields = List (List ℕ × Option PyVal)

-- A dict into which fields are put, one after another.
abbrev pub filled : Fields → PyItems → PyItems
filled [] d = d
filled (f ∷ fs) d = filled fs (put_field d f.0 f.1)

abbrev pub or_else : Option PyVal → Option PyVal → Option PyVal
or_else none r = r
or_else (some v) r = some v

-- The last of the fields that are present under a name.
abbrev pub found : Fields → List ℕ → Option PyVal → Option PyVal
found [] name r = r
found (f ∷ fs) name r = found fs name (if list_eq name f.0 then or_else f.1 r else r)

get_item-put_field :
    (d : PyItems) (name ds : List ℕ) (o : Option PyVal)
    → get_item (put_field d name o) ds
      ≡ (if list_eq ds name then or_else o (get_item d ds) else get_item d ds)
get_item-put_field d name ds none = elim (Bool-cases (list_eq ds name)) [
  | inl e ↦ rw e refl
  | inr e ↦ rw e refl
]
get_item-put_field d name ds (some v) = get_item-set_item d name ds v

pub get_item-filled :
    (fs : Fields) (d : PyItems) (name : List ℕ)
    → get_item (filled fs d) name ≡ found fs name (get_item d name)
get_item-filled [] d name = refl
get_item-filled (f ∷ fs) d name =
    get_item-filled fs (put_field d f.0 f.1) name
    ∙ ap (found fs name) (get_item-put_field d f.0 name f.1)
