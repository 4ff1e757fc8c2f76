-- ===== src/Amqp/Encodes/MinusOne.antt =====
-- The number -1 in a dict: the test for a failed conversion takes it for one.
use librabbitmq.Base.{ℕ, ◌+◌, ◌≤◌, ◌≡◌, ◌∙◌, refl, arith}
use librabbitmq.Base.Int.{negsuc}
use librabbitmq.Base.Cmd.{Returns, Returns-bind, Returns-mono}
use librabbitmq.Py.{Py, PyVal, PyItems, int, dict, nil, cons}
use librabbitmq.Py.Held.{maybe_unicode}
use librabbitmq.Amqp.{Entries, no_entries, entry, num_entries, append_entries}
use librabbitmq.Amqp.Build.{dict_size, table_item, table_loop, dict_to_table}
use librabbitmq.Amqp.Read.RoundTrip.{append_items}
use librabbitmq.Amqp.Encodes.{IsKey, IsCleanItems}
use librabbitmq.Amqp.Encodes.Stores.{KeyPost, key_ok, key_object, key_bytes, Adds, num_entries_one}
use librabbitmq.Amqp.Encodes.Total.{table_item_ok}

-- The table is empty and no exception is set.
abbrev Dropped : Py → Entries → Py → Type 0
Dropped s t s' = (t ≡ no_entries) × (s'.err ≡ s.err)

dict_size-append : (d e : PyItems) → 0 + dict_size d ≤ dict_size (append_items d e)
dict_size-append nil e = omega arith
dict_size-append (cons k v d) e = omega (arith, dict_size-append d e)

minus_one_stops :
    (room : ℕ) (dst : Entries) (k : PyVal) (rest : PyItems) (s : Py)
    → IsKey k
    → Returns (Dropped s) (table_loop room dst (cons k (int (negsuc 0)) rest) s)
unfolding table_loop
minus_one_stops room dst k rest s key =
    Returns-bind (KeyPost s k) (Dropped s) (maybe_unicode k s) _ (key_ok k s key)
      (λ o s1 p. (refl, p.4))

table_loop_minus_one :
    (room : ℕ) (dst : Entries) (d : PyItems) (k : PyVal) (rest : PyItems) (s : Py)
    → num_entries dst + dict_size d ≤ room
    → IsCleanItems d
    → IsKey k
    → Returns (Dropped s) (table_loop room dst (append_items d (cons k (int (negsuc 0)) rest)) s)
unfolding table_loop
table_loop_minus_one room dst nil k rest s fits clean key = minus_one_stops room dst k rest s key
table_loop_minus_one room dst (cons j v d) k rest s fits (jkey, vclean, clean) key =
    Returns-bind (KeyPost s j) (Dropped s) (maybe_unicode j s) _ (key_ok j s jkey) (λ o s1 p.
      rw p.2 (
        Returns-bind (Adds s1 dst (key_bytes p.0 p.1) v) (Dropped s)
          (table_item room dst (key_object p.0 p.1) v s1) _
          (table_item_ok room dst p.0 p.1 v s1 (omega arith) vclean)
          (λ f s2 q. rw q.1 (
            Returns-mono (Dropped s2) (Dropped s) _
              (table_loop_minus_one room
                (append_entries dst (entry (key_bytes p.0 p.1) q.0 no_entries)) d k rest s2
                (omega (arith, num_entries_one dst (key_bytes p.0 p.1) q.0)) clean key)
              (λ t s3 r. (r.0, r.1 ∙ q.3 ∙ p.4))))))

-- Where a dict holds the number -1 behind clean pairs, the whole table is empty, whatever follows,
-- and no exception tells the caller.
pub dict_to_table-minus_one :
    (d rest : PyItems) (k : PyVal) (s : Py)
    → IsCleanItems d
    → IsKey k
    → Returns
        (λ t s'. (t ≡ no_entries) × (s'.err ≡ s.err))
        (dict_to_table (dict (append_items d (cons k (int (negsuc 0)) rest))) s)
unfolding dict_to_table
dict_to_table-minus_one d rest k s clean key =
    table_loop_minus_one (dict_size (append_items d (cons k (int (negsuc 0)) rest))) no_entries d k
      rest s (dict_size-append d (cons k (int (negsuc 0)) rest)) clean key
