-- ===== src/Amqp/Encodes/Total.antt =====
-- `PyDict_ToAMQTable` and `PyIter_ToAMQArray` on clean values, over both loops.
use librabbitmq.Base.{
  ℕ, ◌+◌, ◌≤◌, ◌<◌, ◌≡◌, ◌∙◌, refl, sym, subst, true, false, Option, none, List, arith,
}
use librabbitmq.Base.Int.{pos}
use librabbitmq.Base.Cmd.{Returns, Returns-bind, Returns-mono}
use librabbitmq.Py.{
  Py, PyVal, PyItems, PySeq, null, none_, bool, int, float, str, bytes, dict, list, tuple, other,
  nil, cons, end, item, take_ref,
}
use librabbitmq.Py.Held.{maybe_unicode}
use librabbitmq.Amqp.{
  Entries, Values, no_entries, no_values, entry, value, void, boolean, i32, f64, utf8, table, array,
  num_entries, num_values, append_entries, append_values,
}
use librabbitmq.Amqp.Build.{
  truth, dict_size, seq_size, table_item, table_loop, array_item, array_loop, dict_to_table,
  iter_to_array,
}
use librabbitmq.Amqp.Encodes.{
  EncodesItems, EncodesSeq, IsClean, IsCleanItems, IsCleanElement, IsCleanSeq,
}
use librabbitmq.Amqp.Encodes.Stores.{
  num_entries_one, append_entries_nil, Adds, AddsAll, key_object, key_bytes, table_int_step,
  table_float_step, store_ok, nested_ok, text_ok, KeyPost, key_ok, entry_then,
}
use librabbitmq.Amqp.Encodes.Elements.{
  num_values_one, append_values_nil, AddsElement, AddsSeq, element_int_ok, store_element_ok,
  array_text_ok, nested_element_ok, element_then,
}

mutual
  unfolding table_item

  pub table_item_ok :
      (room : ℕ) (dst : Entries) (kb : List ℕ) (r : Option ℕ) (v : PyVal) (s : Py)
      → num_entries dst < room
      → IsClean v
      → Returns (Adds s dst (key_bytes kb r) v) (table_item room dst (key_object kb r) v s)
  table_item_ok room dst kb r none_ s fits c = store_ok room dst kb r s fits none_ void s refl tt
  table_item_ok room dst kb r (bool b) s fits c =
      store_ok room dst kb r s fits (bool b) (boolean (truth b)) s refl refl
  table_item_ok room dst kb r (int z) s fits c =
      rw (table_int_step room dst kb r z s c.0 c.1)
        (store_ok room dst kb r s fits (int z) (i32 z) s refl refl)
  table_item_ok room dst kb r (float d) s fits c =
      rw (table_float_step room dst kb r d s c)
        (store_ok room dst kb r s fits (float d) (f64 d) s refl refl)
  table_item_ok room dst kb r (str cs) s fits c = text_ok room dst kb r s fits cs c.0 c.1
  table_item_ok room dst kb r (bytes bs) s fits c =
      store_ok room dst kb r s fits (bytes bs) (utf8 (key_bytes bs none)) s refl refl
  table_item_ok room dst kb r (dict d) s fits c =
      nested_ok room dst kb r s fits (dict d) table (AddsAll s no_entries d)
        (table_loop (dict_size d) no_entries d s)
        (table_loop_ok (dict_size d) no_entries d s (omega arith) c)
        (λ a t p. (p.3, subst (EncodesItems d) (sym p.1) p.2))
  table_item_ok room dst kb r (list sq) s fits c =
      nested_ok room dst kb r s fits (list sq) array (AddsSeq (take_ref s) no_values sq)
        (array_loop (seq_size sq) s.fresh none no_values sq (take_ref s))
        (array_loop_ok (seq_size sq) s.fresh none no_values sq (take_ref s) (omega arith) c)
        (λ a t p. (p.3, subst (EncodesSeq sq) (sym p.1) p.2))
  table_item_ok room dst kb r (tuple sq) s fits c =
      nested_ok room dst kb r s fits (tuple sq) array (AddsSeq (take_ref s) no_values sq)
        (array_loop (seq_size sq) s.fresh none no_values sq (take_ref s))
        (array_loop_ok (seq_size sq) s.fresh none no_values sq (take_ref s) (omega arith) c)
        (λ a t p. (p.3, subst (EncodesSeq sq) (sym p.1) p.2))
  table_item_ok room dst kb r other s fits c = absurd c
  table_item_ok room dst kb r null s fits c = absurd c

  pub table_loop_ok :
      (room : ℕ) (dst : Entries) (d : PyItems) (s : Py)
      → num_entries dst + dict_size d ≤ room
      → IsCleanItems d
      → Returns (AddsAll s dst d) (table_loop room dst d s)
  table_loop_ok room dst nil s fits c = (no_entries, sym (append_entries_nil dst), tt, refl)
  table_loop_ok room dst (cons k v rest) s fits (key, clean, more) =
      Returns-bind (KeyPost s k) (AddsAll s dst (cons k v rest)) (maybe_unicode k s) _
        (key_ok k s key)
        (λ o s1 p. rw p.2 (
          Returns-bind (Adds s1 dst (key_bytes p.0 p.1) v) (AddsAll s dst (cons k v rest))
            (table_item room dst (key_object p.0 p.1) v s1) _
            (table_item_ok room dst p.0 p.1 v s1 (omega arith) clean)
            (λ f s2 q. rw q.1 (
              entry_then room dst (key_bytes p.0 p.1) k v q.0 rest s s2 p.3 q.2 (q.3 ∙ p.4) (
                table_loop_ok room (append_entries dst (entry (key_bytes p.0 p.1) q.0 no_entries))
                  rest s2 (omega (arith, num_entries_one dst (key_bytes p.0 p.1) q.0)) more)))))

  pub array_item_ok :
      (room : ℕ) (dst : Values) (tmp : Option ℕ) (i : ℕ) (v : PyVal) (s : Py)
      → num_values dst < room
      → IsCleanElement v
      → Returns (AddsElement s dst v) (array_item room dst tmp i v s)
  array_item_ok room dst tmp i none_ s fits c =
      store_element_ok room dst none_ void _ _ s s fits refl tt
  array_item_ok room dst tmp i (bool true) s fits c =
      element_int_ok room dst (bool true) (pos 1) i tmp s fits (omega arith) refl
  array_item_ok room dst tmp i (bool false) s fits c =
      element_int_ok room dst (bool false) (pos 0) i tmp s fits (omega arith) refl
  array_item_ok room dst tmp i (int z) s fits c =
      element_int_ok room dst (int z) z i tmp s fits c refl
  array_item_ok room dst tmp i (float d) s fits c = absurd c
  array_item_ok room dst tmp i (str cs) s fits c = array_text_ok room dst i cs s fits c
  array_item_ok room dst tmp i (bytes bs) s fits c =
      store_element_ok room dst (bytes bs) (utf8 (key_bytes bs none)) _ _ s s fits refl refl
  array_item_ok room dst tmp i (dict d) s fits c =
      nested_element_ok room dst (dict d) table (AddsAll s no_entries d) i tmp s
        (table_loop (dict_size d) no_entries d s) fits
        (table_loop_ok (dict_size d) no_entries d s (omega arith) c)
        (λ a t p. (p.3, subst (EncodesItems d) (sym p.1) p.2))
  array_item_ok room dst tmp i (list sq) s fits c =
      nested_element_ok room dst (list sq) array (AddsSeq (take_ref s) no_values sq) i tmp s
        (array_loop (seq_size sq) s.fresh none no_values sq (take_ref s)) fits
        (array_loop_ok (seq_size sq) s.fresh none no_values sq (take_ref s) (omega arith) c)
        (λ a t p. (p.3, subst (EncodesSeq sq) (sym p.1) p.2))
  array_item_ok room dst tmp i (tuple sq) s fits c =
      nested_element_ok room dst (tuple sq) array (AddsSeq (take_ref s) no_values sq) i tmp s
        (array_loop (seq_size sq) s.fresh none no_values sq (take_ref s)) fits
        (array_loop_ok (seq_size sq) s.fresh none no_values sq (take_ref s) (omega arith) c)
        (λ a t p. (p.3, subst (EncodesSeq sq) (sym p.1) p.2))
  array_item_ok room dst tmp i other s fits c = absurd c
  array_item_ok room dst tmp i null s fits c = absurd c

  pub array_loop_ok :
      (room iterator : ℕ) (tmp : Option ℕ) (dst : Values) (sq : PySeq) (s : Py)
      → num_values dst + seq_size sq ≤ room
      → IsCleanSeq sq
      → Returns (AddsSeq s dst sq) (array_loop room iterator tmp dst sq s)
  array_loop_ok room iterator tmp dst end s fits c =
      (no_values, sym (append_values_nil dst), tt, refl)
  array_loop_ok room iterator tmp dst (item v rest) s fits (clean, more) =
      Returns-bind (AddsElement (take_ref s) dst v) (AddsSeq s dst (item v rest))
        (array_item room dst tmp s.fresh v (take_ref s)) _
        (array_item_ok room dst tmp s.fresh v (take_ref s) (omega arith) clean)
        (λ r s2 q. rw q.1 (
          element_then room iterator r.current r.item_tmp dst v q.0 rest s s2 q.2 q.3 (λ s3.
            array_loop_ok room iterator r.item_tmp (append_values dst (value q.0 no_values)) rest s3
              (omega (arith, num_values_one dst q.0)) more)))

-- A clean dict is converted without a crash, so within what was allocated, without an exception,
-- and into a table that says what the dict says.
pub dict_to_table-Encodes :
    (d : PyItems) (s : Py)
    → IsCleanItems d
    → Returns (λ t s'. EncodesItems d t × (s'.err ≡ s.err)) (dict_to_table (dict d) s)
unfolding dict_to_table
dict_to_table-Encodes d s clean =
    Returns-mono (AddsAll s no_entries d) (λ t s'. EncodesItems d t × (s'.err ≡ s.err)) _
      (table_loop_ok (dict_size d) no_entries d s (omega arith) clean)
      (λ t s' p. (subst (EncodesItems d) (sym p.1) p.2, p.3))

-- A clean list is converted without a crash, so within what was allocated, without an exception, and
-- into an array that says what the list says.
pub iter_to_array-Encodes :
    (sq : PySeq) (s : Py)
    → IsCleanSeq sq
    → Returns (λ a s'. EncodesSeq sq a × (s'.err ≡ s.err)) (iter_to_array sq s)
unfolding iter_to_array
iter_to_array-Encodes sq s clean =
    Returns-mono (AddsSeq (take_ref s) no_values sq) (λ a s'. EncodesSeq sq a × (s'.err ≡ s.err)) _
      (array_loop_ok (seq_size sq) s.fresh none no_values sq (take_ref s) (omega arith) clean)
      (λ a s' p. (subst (EncodesSeq sq) (sym p.1) p.2, p.3))
