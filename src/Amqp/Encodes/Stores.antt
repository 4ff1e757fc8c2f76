-- ===== src/Amqp/Encodes/Stores.antt =====
-- The steps of one round of the table loop: an entry is stored where there is room, a key becomes
-- bytes, and the branches for numbers and texts go through.
use librabbitmq.Base.{ℕ, suc, ◌<◌, ◌≡◌, ◌≢◌, ◌∙◌, refl, ap, Option, none, some, List, arith}
use librabbitmq.Base.Int.{ℤ, pos, negsuc, IsInt32}
use librabbitmq.Base.Cmd.{Run, ok, crash, blocked, pure, and_then, Returns, Returns-mono}
use librabbitmq.Py.{
  Py, PyVal, PyItems, null, none_, bool, int, float, str, bytes, dict, list, tuple, other, cons,
}
use librabbitmq.Py.Text.{utf8_encode}
use librabbitmq.Py.Text.Laws.{ascii_encode_self}
use librabbitmq.Py.Held.{Object, keep_ascii, maybe_unicode}
use librabbitmq.Amqp.{
  AmqpBytes, FieldValue, Entries, no_entries, entry, i32, f64, utf8, num_entries, append_entries,
}
use librabbitmq.Amqp.Table
use librabbitmq.Amqp.Build.{
  Flow, next, minus_one, go_on, table_int, table_float, table_text, table_loop,
}
use librabbitmq.Amqp.Encodes.{KeyEncodes, IsKey, Encodes, EncodesItems}

-- Appending one entry, then others.
pub append_entries_one :
    (dst es : Entries) (k : AmqpBytes) (v : FieldValue)
    → append_entries (append_entries dst (entry k v no_entries)) es
      ≡ append_entries dst (entry k v es)
append_entries_one no_entries es k v = refl
append_entries_one (entry j w dst) es k v = ap (entry j w) (append_entries_one dst es k v)

pub num_entries_one :
    (dst : Entries) (k : AmqpBytes) (v : FieldValue)
    → num_entries (append_entries dst (entry k v no_entries)) ≡ suc (num_entries dst)
num_entries_one no_entries k v = refl
num_entries_one (entry j w dst) k v = ap suc (num_entries_one dst k v)

pub append_entries_nil : (dst : Entries) → append_entries dst no_entries ≡ dst
append_entries_nil no_entries = refl
append_entries_nil (entry j w dst) = ap (entry j w) (append_entries_nil dst)

-- With room left, an entry is stored.
pub add_entry_room :
    (room : ℕ) (dst : Entries) (key : AmqpBytes) (v : FieldValue) (s : Py)
    → num_entries dst < room
    → Table.add_entry room dst key v s ≡ ok (append_entries dst (entry key v no_entries)) s
unfolding Table.add_entry
add_entry_room room dst key v s h = ground arith

-- What an item adds to the table, and that it sets no exception.
abbrev pub Adds : Py → Entries → AmqpBytes → PyVal → Flow Entries → Py → Type 0
Adds s dst key v f s' =
    (w : FieldValue) × (f ≡ next (append_entries dst (entry key w no_entries)))
    × Encodes v w
    × (s'.err ≡ s.err)

abbrev pub AddsAll : Py → Entries → PyItems → Entries → Py → Type 0
AddsAll s dst d t s' =
    (es : Entries) × (t ≡ append_entries dst es) × EncodesItems d es × (s'.err ≡ s.err)

-- The key as bytes.
abbrev pub key_object : List ℕ → Option ℕ → Object
key_object bs r = record { value = bytes bs; ref = r }

abbrev pub key_bytes : List ℕ → Option ℕ → AmqpBytes
key_bytes bs r = record { bytes = bs; owner = r }

-- The two exits of the branches for numbers are not taken.
pub table_int_step :
    (room : ℕ) (dst : Entries) (kb : List ℕ) (r : Option ℕ) (z : ℤ) (s : Py)
    → IsInt32 z
    → z ≢ negsuc 0
    → table_int room dst (key_object kb r) z s
      ≡ go_on (Table.add_entry room dst (key_bytes kb r) (i32 z)) s
unfolding table_int
table_int_step room dst kb r (pos n) s small ne = ground arith
table_int_step room dst kb r (negsuc n) s small ne = ground arith

pub table_float_step :
    (room : ℕ) (dst : Entries) (kb : List ℕ) (r : Option ℕ) (d : ℕ) (s : Py)
    → d ≢ minus_one
    → table_float room dst (key_object kb r) d s
      ≡ go_on (Table.add_entry room dst (key_bytes kb r) (f64 d)) s
unfolding table_float
table_float_step room dst kb r d s ne = ground arith

module _ (room : ℕ) (dst : Entries) (kb : List ℕ) (r : Option ℕ) (s : Py)
    (fits : num_entries dst < room) where
  pub store_ok :
      (v : PyVal) (w : FieldValue) (t : Py)
      → t.err ≡ s.err
      → Encodes v w
      → Returns
          (Adds s dst (key_bytes kb r) v)
          (go_on (Table.add_entry room dst (key_bytes kb r) w) t)
  store_ok v w t same e = rw (add_entry_room room dst (key_bytes kb r) w t fits) (w, refl, e, same)

  -- The same for a value that a nested call builds.
  pub nested_ok :
      {A : Type 0} (v : PyVal) (w : A → FieldValue) (P : A → Py → Type 0) (m : Run Py A)
      → Returns P m
      → ((a : A) (t : Py) → P a t → (t.err ≡ s.err) × Encodes v (w a))
      → Returns (Adds s dst (key_bytes kb r) v) (
          and_then
            (and_then m (λ a. Table.add_entry room dst (key_bytes kb r) (w a)))
            (λ e. pure (next e)))
  nested_ok v w P (ok a t) h built = let (same, e) = built a t h in store_ok v (w a) t same e
  nested_ok v w P crash h built = absurd h
  nested_ok v w P blocked h built = absurd h

  pub text_ok :
      (cs bs : List ℕ)
      → utf8_encode cs ≡ some bs
      → Returns (Adds s dst (key_bytes kb r) (str cs)) (table_text room dst (key_object kb r) cs s)
  unfolding table_text
  text_ok cs bs e =
      rw (e, table_text) (store_ok (str cs) (utf8 (key_bytes bs (some s.fresh))) _ refl e)

-- A key that is bytes or ASCII becomes a bytes object with the bytes that it stands for.
abbrev pub KeyPost : Py → PyVal → Object → Py → Type 0
KeyPost s k o s' =
    (bs : List ℕ) × (r : Option ℕ) × (o ≡ key_object bs r) × KeyEncodes k bs × (s'.err ≡ s.err)

pub key_ok : (k : PyVal) (s : Py) → IsKey k → Returns (KeyPost s k) (maybe_unicode k s)
unfolding maybe_unicode
key_ok (str cs) s h =
    rw (ascii_encode_self cs h, keep_ascii) (cs, some s.fresh, refl, (h, refl), refl)
key_ok (bytes bs) s h = (bs, none, refl, refl, refl)
key_ok null s h = absurd h
key_ok none_ s h = absurd h
key_ok (bool b) s h = absurd h
key_ok (int z) s h = absurd h
key_ok (float d) s h = absurd h
key_ok (dict d) s h = absurd h
key_ok (list d) s h = absurd h
key_ok (tuple d) s h = absurd h
key_ok other s h = absurd h

-- One entry stored, the rest of the loop done: together they add the whole.
pub entry_then :
    (room : ℕ) (dst : Entries) (key : AmqpBytes) (k v : PyVal) (w : FieldValue) (rest : PyItems)
    (s s2 : Py)
    → KeyEncodes k key.bytes
    → Encodes v w
    → s2.err ≡ s.err
    → Returns
        (AddsAll s2 (append_entries dst (entry key w no_entries)) rest)
        (table_loop room (append_entries dst (entry key w no_entries)) rest s2)
    → Returns
        (AddsAll s dst (cons k v rest))
        (table_loop room (append_entries dst (entry key w no_entries)) rest s2)
entry_then room dst key k v w rest s s2 ek ev same h =
    Returns-mono (AddsAll s2 (append_entries dst (entry key w no_entries)) rest)
      (AddsAll s dst (cons k v rest)) _ h
      (λ t s3 q.
        (entry key w q.0, q.1 ∙ append_entries_one dst q.0 key w, (ek, ev, q.2), q.3 ∙ same))
