-- ===== src/Amqp/Encodes/Elements.antt =====
-- The steps of one round of the array loop: an element is stored where there is room, and the
-- branches for numbers and texts go through.
use librabbitmq.Base.{ℕ, suc, ◌<◌, ◌≡◌, ◌∙◌, refl, ap, Option, none, some, List, arith}
use librabbitmq.Base.Int.{ℤ, pos, negsuc, IsInt32}
use librabbitmq.Base.Cmd.{Run, ok, crash, blocked, pure, and_then, Returns, Returns-mono, ◌>>◌}
use librabbitmq.Py.{Py, PyVal, PySeq, str, item, release, take_ref}
use librabbitmq.Py.Text.{IsAscii}
use librabbitmq.Py.Text.Laws.{ascii_encode_self}
use librabbitmq.Amqp.{FieldValue, Values, no_values, value, i32, utf8, num_values, append_values}
use librabbitmq.Amqp.Array
use librabbitmq.Amqp.Build.{
  next, Round, round, go_on, array_int, array_text, array_loop, xdecref_maybe,
}
use librabbitmq.Amqp.Encodes.{EncodesElement, EncodesSeq}
use librabbitmq.Amqp.Encodes.Stores.{key_bytes}

pub append_values_one :
    (dst vs : Values) (v : FieldValue)
    → append_values (append_values dst (value v no_values)) vs ≡ append_values dst (value v vs)
append_values_one no_values vs v = refl
append_values_one (value w dst) vs v = ap (value w) (append_values_one dst vs v)

pub num_values_one :
    (dst : Values) (v : FieldValue)
    → num_values (append_values dst (value v no_values)) ≡ suc (num_values dst)
num_values_one no_values v = refl
num_values_one (value w dst) v = ap suc (num_values_one dst v)

pub append_values_nil : (dst : Values) → append_values dst no_values ≡ dst
append_values_nil no_values = refl
append_values_nil (value w dst) = ap (value w) (append_values_nil dst)

pub add_value_room :
    (room : ℕ) (dst : Values) (v : FieldValue) (s : Py)
    → num_values dst < room
    → Array.add_entry room dst v s ≡ ok (append_values dst (value v no_values)) s
unfolding Array.add_entry
add_value_room room dst v s h = ground arith

abbrev pub AddsElement : Py → Values → PyVal → Round → Py → Type 0
AddsElement s dst v r s' =
    (w : FieldValue) × (r.flow ≡ next (append_values dst (value w no_values)))
    × EncodesElement v w
    × (s'.err ≡ s.err)

abbrev pub AddsSeq : Py → Values → PySeq → Values → Py → Type 0
AddsSeq s dst sq a s' =
    (vs : Values) × (a ≡ append_values dst vs) × EncodesSeq sq vs × (s'.err ≡ s.err)

pub array_int_step :
    (room : ℕ) (dst : Values) (z : ℤ) (s : Py)
    → IsInt32 z
    → array_int room dst z s ≡ go_on (Array.add_entry room dst (i32 z)) s
unfolding array_int
array_int_step room dst (pos n) s small = ground arith
array_int_step room dst (negsuc n) s small = ground arith

pub release-err : (i : ℕ) (s : Py) → (release i s).err ≡ s.err
release-err i s = ground arith

pub element_int_ok :
    (room : ℕ) (dst : Values) (v : PyVal) (z : ℤ) (i : ℕ) (tmp : Option ℕ) (s : Py)
    → num_values dst < room
    → IsInt32 z
    → EncodesElement v (i32 z)
    → Returns
        (AddsElement s dst v)
        (and_then (array_int room dst z s) (λ f. pure (round f tmp (some i))))
element_int_ok room dst v z i tmp s fits small e =
    rw (array_int_step room dst z s small, add_value_room room dst (i32 z) s fits)
      (i32 z, refl, e, refl)

-- A value is stored in the array.
pub store_element_ok :
    (room : ℕ) (dst : Values) (v : PyVal) (w : FieldValue) (i j : Option ℕ) (s t : Py)
    → num_values dst < room
    → t.err ≡ s.err
    → EncodesElement v w
    → Returns
        (AddsElement s dst v)
        (and_then (go_on (Array.add_entry room dst w) t) (λ f. pure (round f i j)))
store_element_ok room dst v w i j s t fits same e =
    rw (add_value_room room dst w t fits) (w, refl, e, same)

pub array_text_ok :
    (room : ℕ) (dst : Values) (i : ℕ) (cs : List ℕ) (s : Py)
    → num_values dst < room
    → IsAscii cs
    → Returns (AddsElement s dst (str cs)) (array_text room dst i cs s)
unfolding array_text
array_text_ok room dst i cs s fits h =
    rw (ascii_encode_self cs h, array_text)
      (store_element_ok room dst (str cs) (utf8 (key_bytes cs (some s.fresh))) (some i)
        (some s.fresh) s (release i (take_ref s)) fits (release-err i (take_ref s)) (h, refl))

pub nested_element_ok :
    {A : Type 0} (room : ℕ) (dst : Values) (v : PyVal) (w : A → FieldValue) (P : A → Py → Type 0)
    (i : ℕ) (tmp : Option ℕ) (s : Py) (m : Run Py A)
    → num_values dst < room
    → Returns P m
    → ((a : A) (t : Py) → P a t → (t.err ≡ s.err) × EncodesElement v (w a))
    → Returns (AddsElement s dst v) (
        and_then
          (and_then (and_then m (λ a. Array.add_entry room dst (w a))) (λ e. pure (next e)))
          (λ f. pure (round f tmp (some i))))
nested_element_ok room dst v w P i tmp s (ok a t) fits h built =
    let (same, e) = built a t h in store_element_ok room dst v (w a) tmp (some i) s t fits same e
nested_element_ok room dst v w P i tmp s crash fits h built = absurd h
nested_element_ok room dst v w P i tmp s blocked fits h built = absurd h

pub element_then :
    (room iterator : ℕ) (current tmp : Option ℕ) (dst : Values) (v : PyVal) (w : FieldValue)
    (rest : PySeq) (s s2 : Py)
    → EncodesElement v w
    → s2.err ≡ s.err
    → ((t : Py)
        → Returns
            (AddsSeq t (append_values dst (value w no_values)) rest)
            (array_loop room iterator tmp (append_values dst (value w no_values)) rest t))
    → Returns (AddsSeq s dst (item v rest)) (
        (xdecref_maybe current
            >> array_loop room iterator tmp (append_values dst (value w no_values)) rest)
          s2)
element_then room iterator none tmp dst v w rest s s2 ev same h =
    Returns-mono (AddsSeq s2 (append_values dst (value w no_values)) rest)
      (AddsSeq s dst (item v rest)) _ (h s2)
      (λ a s3 q. (value w q.0, q.1 ∙ append_values_one dst q.0 w, (ev, q.2), q.3 ∙ same))
element_then room iterator (some i) tmp dst v w rest s s2 ev same h =
    Returns-mono (AddsSeq (release i s2) (append_values dst (value w no_values)) rest)
      (AddsSeq s dst (item v rest)) _ (h (release i s2))
      (λ a s3 q.
        (value w q.0, q.1 ∙ append_values_one dst q.0 w, (ev, q.2), q.3 ∙ release-err i s2 ∙ same))
