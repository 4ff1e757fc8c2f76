-- ===== src/Amqp/Read/RoundTrip.antt =====
-- Reading back what a table says of a dict.
use librabbitmq.Base.{
  ℕ, ◌≡◌, ◌≢◌, ◌∙◌, refl, sym, ap, Bool, true, false, some, List, Top, list_eq, list_eq→eq,
  Bool-cases, inl, inr,
}
use librabbitmq.Base.Cmd.{Run, ok, pure, and_then, Returns, Returns-bind, ◌>>=◌}
use librabbitmq.Py.{
  Py, PyVal, PyItems, PySeq, null, none_, bool, int, float, str, bytes, dict, list, tuple, nil,
  cons, end, item,
}
use librabbitmq.Py.Text.{IsAscii, utf8_encode}
use librabbitmq.Py.Text.Laws.{utf8_decode_ascii, utf8_decode-utf8_encode}
use librabbitmq.Amqp.{
  AmqpBytes, FieldValue, Entries, Values, no_entries, no_values, entry, value, void, boolean, i32,
  f64, utf8, table, array,
}
use librabbitmq.Amqp.Build.{truth, dict_to_table}
use librabbitmq.Amqp.Encodes.Total.{dict_to_table-Encodes}
use librabbitmq.Amqp.Encodes.{Encodes, EncodesItems, EncodesElement, EncodesSeq, IsCleanItems}
use librabbitmq.Amqp.Read.{
  string_from_amqbytes, set_item, set_pair, table_value, dict_loop, array_value, list_loop,
  table_to_dict,
}

-- The text is no key of the dict.
abbrev pub NotIn : List ℕ → PyItems → Type 0
NotIn cs nil = Top
NotIn cs (cons (str ds) v rest) = (cs ≢ ds) × NotIn cs rest
NotIn cs (cons k v rest) = ⊥

-- The dicts that come back as they were: ASCII texts for keys, none of them twice, no bytes and no
-- tuple anywhere, no bool in a list.
abbrev mutual
  pub IsPlain : PyVal → Type 0
  IsPlain none_ = Top
  IsPlain (bool b) = Top
  IsPlain (int z) = Top
  IsPlain (float d) = Top
  IsPlain (str cs) = Top
  IsPlain (dict d) = IsPlainItems d
  IsPlain (list sq) = IsPlainSeq sq
  IsPlain v = ⊥

  pub IsPlainItems : PyItems → Type 0
  IsPlainItems nil = Top
  IsPlainItems (cons (str cs) v rest) = NotIn cs rest × IsPlain v × IsPlainItems rest
  IsPlainItems (cons k v rest) = ⊥

  pub IsPlainElement : PyVal → Type 0
  IsPlainElement none_ = Top
  IsPlainElement (int z) = Top
  IsPlainElement (str cs) = Top
  IsPlainElement (dict d) = IsPlainItems d
  IsPlainElement (list sq) = IsPlainSeq sq
  IsPlainElement v = ⊥

  pub IsPlainSeq : PySeq → Type 0
  IsPlainSeq end = Top
  IsPlainSeq (item v rest) = IsPlainElement v × IsPlainSeq rest

abbrev pub append_items : PyItems → PyItems → PyItems
append_items nil e = e
append_items (cons k v d) e = cons k v (append_items d e)

append_items_nil : (d : PyItems) → append_items d nil ≡ d
append_items_nil nil = refl
append_items_nil (cons k v d) = ap (cons k v) (append_items_nil d)

append_items_one :
    (acc d : PyItems) (k v : PyVal)
    → append_items (append_items acc (cons k v nil)) d ≡ append_items acc (cons k v d)
append_items_one nil d k v = refl
append_items_one (cons j w acc) d k v = ap (cons j w) (append_items_one acc d k v)

-- No key of the second dict is one of the first.
abbrev Apart : PyItems → PyItems → Type 0
Apart acc nil = Top
Apart acc (cons (str cs) v rest) = NotIn cs acc × Apart acc rest
Apart acc (cons k v rest) = ⊥

Apart-nil : (d : PyItems) → IsPlainItems d → Apart nil d
Apart-nil nil p = tt
Apart-nil (cons (str cs) v d) p = (tt, Apart-nil d p.2)
Apart-nil (cons null v d) p = absurd p
Apart-nil (cons k v d) p = absurd p

NotIn-append :
    (cs ds : List ℕ) (v : PyVal) (acc : PyItems)
    → NotIn cs acc
    → cs ≢ ds
    → NotIn cs (append_items acc (cons (str ds) v nil))
NotIn-append cs ds v nil h ne = (ne, tt)
NotIn-append cs ds v (cons (str es) w acc) h ne = (h.0, NotIn-append cs ds v acc h.1 ne)
NotIn-append cs ds v (cons null w acc) h ne = absurd h
NotIn-append cs ds v (cons k w acc) h ne = absurd h

Apart-append :
    (ds : List ℕ) (v : PyVal) (acc d : PyItems)
    → Apart acc d
    → NotIn ds d
    → Apart (append_items acc (cons (str ds) v nil)) d
Apart-append ds v acc nil a n = tt
Apart-append ds v acc (cons (str cs) w d) a n =
    (NotIn-append cs ds v acc a.0 (λ e. n.0 (sym e)), Apart-append ds v acc d a.1 n.1)
Apart-append ds v acc (cons null w d) a n = absurd a
Apart-append ds v acc (cons k w d) a n = absurd a

-- A new key goes to the end.
set_item_new :
    (acc : PyItems) (cs : List ℕ) (v : PyVal)
    → NotIn cs acc
    → set_item acc cs v ≡ append_items acc (cons (str cs) v nil)
unfolding set_item
set_item_new nil cs v h = refl
set_item_new (cons (str ds) w acc) cs v h = elim (Bool-cases (list_eq cs ds)) [
  | inl e ↦ absurd (h.0 (list_eq→eq cs ds e))
  | inr e ↦ rw e (ap (cons (str ds) w) (set_item_new acc cs v h.1))
]
set_item_new (cons null w acc) cs v h = absurd h
set_item_new (cons k w acc) cs v h = absurd h

set_pair_new :
    (acc : PyItems) (cs : List ℕ) (v : PyVal) (s : Py)
    → NotIn cs acc
    → IsPlain v
    → set_pair acc (str cs) v s ≡ ok (append_items acc (cons (str cs) v nil)) s
unfolding set_pair
set_pair_new acc cs null s h p = absurd p
set_pair_new acc cs v s h p = rw (set_item_new acc cs v h)

text_back :
    (cs : List ℕ) (b : AmqpBytes) (s : Py)
    → utf8_encode cs ≡ some b.bytes
    → string_from_amqbytes b s ≡ ok (str cs) s
unfolding string_from_amqbytes
text_back cs b s e = rw (utf8_decode-utf8_encode cs b.bytes e, string_from_amqbytes)

ascii_back :
    (cs : List ℕ) (b : AmqpBytes) (s : Py)
    → IsAscii cs × (cs ≡ b.bytes)
    → string_from_amqbytes b s ≡ ok (str cs) s
unfolding string_from_amqbytes
ascii_back cs b s (a, e) = rw (← e, utf8_decode_ascii cs a, string_from_amqbytes)

bool_back : (b : Bool) (n : ℕ) (s : Py) → truth b ≡ n → table_value (boolean n) s ≡ ok (bool b) s
unfolding table_value
bool_back true n s e = rw (← e)
bool_back false n s e = rw (← e)

-- What a loop does before an entry is known does not matter to the rest of it.
after_ok :
    {A B : Type 0} {r : Run Py A} {a : A} {s : Py} (k : A → Py → Run Py B)
    → r ≡ ok a s
    → and_then r k ≡ k a s
after_ok k e = rw e

mutual
  unfolding table_value

  table_value_back :
      (v : PyVal) (f : FieldValue) (s : Py) → Encodes v f → IsPlain v → table_value f s ≡ ok v s
  table_value_back none_ void s e p = refl
  table_value_back (bool b) (boolean n) s e p = bool_back b n s e
  table_value_back (int z) (i32 w) s e p = rw e
  table_value_back (float d) (f64 w) s e p = rw e
  table_value_back (str cs) (utf8 b) s e p = text_back cs b s e
  table_value_back (dict d) (table t) s e p =
      after_ok (λ x. pure (dict x)) (dict_loop_back nil d t s e p (Apart-nil d p))
  table_value_back (list sq) (array a) s e p =
      after_ok (λ x. pure (list x)) (list_loop_back sq a s e p)
  table_value_back (bytes bs) f s e p = absurd p
  table_value_back (tuple sq) f s e p = absurd p
  table_value_back v f s e p = absurd e

  dict_loop_back :
      (acc d : PyItems) (t : Entries) (s : Py)
      → EncodesItems d t
      → IsPlainItems d
      → Apart acc d
      → dict_loop acc t s ≡ ok (append_items acc d) s
  dict_loop_back acc nil no_entries s e p a = ap (λ d. ok d s) (sym (append_items_nil acc))
  dict_loop_back acc (cons (str cs) v d) (entry key f t) s e p a =
      after_ok _ (table_value_back v f s e.1 p.1)
      ∙ after_ok _ (ascii_back cs key s e.0)
      ∙ after_ok _ (set_pair_new acc cs v s a.0 p.1)
      ∙ dict_loop_back (append_items acc (cons (str cs) v nil)) d t s e.2 p.2
          (Apart-append cs v acc d a.1 p.0)
      ∙ ap (λ x. ok x s) (append_items_one acc d (str cs) v)
  dict_loop_back acc (cons (str cs) v d) no_entries s e p a = absurd e
  dict_loop_back acc (cons k v d) t s e p a = absurd p
  dict_loop_back acc nil t s e p a = absurd e

  array_value_back :
      (v : PyVal) (f : FieldValue) (s : Py)
      → EncodesElement v f
      → IsPlainElement v
      → array_value f s ≡ ok v s
  array_value_back none_ void s e p = refl
  array_value_back (int z) (i32 w) s e p = rw e
  array_value_back (str cs) (utf8 b) s e p = ascii_back cs b s e
  array_value_back (dict d) (table t) s e p =
      after_ok (λ x. pure (dict x)) (dict_loop_back nil d t s e p (Apart-nil d p))
  array_value_back (list sq) (array a) s e p =
      after_ok (λ x. pure (list x)) (list_loop_back sq a s e p)
  array_value_back (bytes bs) f s e p = absurd p
  array_value_back (tuple sq) f s e p = absurd p
  array_value_back (bool b) f s e p = absurd p
  array_value_back v f s e p = absurd e

  list_loop_back :
      (sq : PySeq) (a : Values) (s : Py) → EncodesSeq sq a → IsPlainSeq sq → list_loop a s ≡ ok sq s
  list_loop_back end no_values s e p = refl
  list_loop_back (item v sq) (value f a) s e p =
      after_ok _ (array_value_back v f s e.0 p.0) ∙ after_ok _ (list_loop_back sq a s e.1 p.1)
  list_loop_back end a s e p = absurd e
  list_loop_back (item v sq) a s e p = absurd e

-- A table that encodes a plain dict is read as that dict.
pub table_to_dict_back :
    (d : PyItems) (t : Entries) (s : Py)
    → EncodesItems d t
    → IsPlainItems d
    → table_to_dict t s ≡ ok d s
unfolding table_to_dict
table_to_dict_back d t s e p = dict_loop_back nil d t s e p (Apart-nil d p)

-- A dict that is clean and plain comes back from its table as it was, and no exception is set on
-- either way.
pub table_to_dict-dict_to_table :
    (d : PyItems) (s : Py)
    → IsCleanItems d
    → IsPlainItems d
    → Returns
        (λ e s'. (e ≡ d) × (s'.err ≡ s.err))
        ((do t ← dict_to_table (dict d); table_to_dict t) s)
unfolding table_to_dict
table_to_dict-dict_to_table d s clean plain =
    Returns-bind (λ t s'. EncodesItems d t × (s'.err ≡ s.err)) (λ e s'. (e ≡ d) × (s'.err ≡ s.err))
      (dict_to_table (dict d) s) table_to_dict (dict_to_table-Encodes d s clean)
      (λ t s' p. rw (dict_loop_back nil d t s' p.0 plain (Apart-nil d plain)) (refl, p.1))
