-- ===== src/Tests/Tables.antt =====
-- Dicts, lists and kept references on concrete data.
use librabbitmq.Base.{
  ap, List, ℕ, zero, suc, ◌+◌, count, ◌≡◌, refl, true, none, some, [], ◌∷◌, arith,
}
use librabbitmq.Base.Int.{pos, negsuc}
use librabbitmq.Base.Cmd.{Returns, ◌>>=◌}
use librabbitmq.Py.{Py, PyItems, PySeq, none_, bool, int, str, dict, list, nil, cons, end, item}
use librabbitmq.Py.Text.{utf8_encode, utf8_char}
use librabbitmq.Py.Objects.{ObjectArray, last, empty_array, add_entry, IsPacked}
use librabbitmq.Py.Objects.Laws.{add_entry-IsPacked}
use librabbitmq.Py.Held.{xdecref_held}
use librabbitmq.Py.Held.Laws.{IsBalanced, xdecref_held-restores}
use librabbitmq.Amqp.{no_entries}
use librabbitmq.Amqp.Build.{dict_to_table}
use librabbitmq.Amqp.Read.{table_to_dict}
use librabbitmq.Amqp.Encodes.{EncodesItems, IsCleanItems}
use librabbitmq.Amqp.Encodes.Total.{dict_to_table-Encodes}
use librabbitmq.Amqp.Encodes.MinusOne.{dict_to_table-minus_one}
use librabbitmq.Amqp.Read.RoundTrip.{IsPlainItems, append_items, table_to_dict-dict_to_table}
use librabbitmq.Tests.{calm}

-- `[1, "b"]`.
abbrev numbers : PySeq
numbers = item (int (pos 1)) (item (str (98 ∷ [])) end)

-- `{"a": [1, "b"], "c": "é", "d": True}`.
abbrev headers : PyItems
headers =
    cons (str (97 ∷ [])) (list numbers)
      (cons (str (99 ∷ [])) (str (233 ∷ [])) (cons (str (100 ∷ [])) (bool true) nil))

accent : utf8_encode (233 ∷ []) ≡ some (195 ∷ 169 ∷ [])
unfolding utf8_encode utf8_char
accent = refl

headers-IsClean : IsCleanItems headers
headers-IsClean = (
  (omega arith, tt),
  (omega arith, ((omega arith, tt), tt)),
  ((omega arith, tt), (195 ∷ 169 ∷ [], accent), ((omega arith, tt), tt, tt)),
)

abbrev first : List ℕ → ℕ
first [] = 0
first (c ∷ cs) = c

headers-IsPlain : IsPlainItems headers
headers-IsPlain = (
  ((λ e. omega (arith, ap first e)), ((λ e. omega (arith, ap first e)), tt)),
  (tt, (tt, tt)),
  (((λ e. omega (arith, ap first e)), tt), tt, (tt, tt, tt)),
)

table_to_dict-dict_to_table_example :
    Returns
      (λ e s'. (e ≡ headers) × (s'.err ≡ none))
      ((do t ← dict_to_table (dict headers); table_to_dict t) calm)
table_to_dict-dict_to_table_example =
    table_to_dict-dict_to_table headers calm headers-IsClean headers-IsPlain

dict_to_table-Encodes_example :
    Returns (λ t s'. EncodesItems headers t × (s'.err ≡ none)) (dict_to_table (dict headers) calm)
dict_to_table-Encodes_example = dict_to_table-Encodes headers calm headers-IsClean

-- `{"a": [1, "b"], "c": "é", "d": True, "n": -1, "z": None}` is sent as `{}`.
dict_to_table-minus_one_example :
    Returns
      (λ t s'. (t ≡ no_entries) × (s'.err ≡ none))
      (dict_to_table
        (dict (
          append_items headers
            (cons (str (110 ∷ [])) (int (negsuc 0)) (cons (str (122 ∷ [])) none_ nil))))
        calm)
dict_to_table-minus_one_example =
    dict_to_table-minus_one headers (cons (str (122 ∷ [])) none_ nil) (str (110 ∷ [])) calm
      headers-IsClean (omega arith, tt)

-- An operation that keeps one reference, beside the one that its caller owns.
abbrev keeping : Py
keeping = record calm { owned = λ i. 1; fresh = 1; held = last (0 ∷ []) }

abbrev others : ℕ → ℕ
others zero = 0
others (suc i) = 1

keeping-IsBalanced : IsBalanced others keeping
keeping-IsBalanced = record { balance = balance; packed = omega arith }
  where
    balance : (i : ℕ) → 1 ≡ others i + count i (0 ∷ [])
    balance zero = refl
    balance (suc i) = ground arith

xdecref_held-restores_example :
    ((i : ℕ) → (xdecref_held keeping).owned i ≡ others i)
    × ((xdecref_held keeping).excess ≡ 0)
    × ((xdecref_held keeping).held ≡ empty_array)
xdecref_held-restores_example = xdecref_held-restores others keeping keeping-IsBalanced

-- A full chunk gets a successor.
abbrev full : ObjectArray
full = last (1 ∷ 2 ∷ 3 ∷ 4 ∷ 5 ∷ [])

add_entry-IsPacked_example : IsPacked (add_entry full 6)
add_entry-IsPacked_example = add_entry-IsPacked full 6 (omega arith)
