-- ===== src/Py/Held.antt =====
-- The functions of "Keep track of increased reference counts" in connection.c on the state: what
-- they do to the reference counts and to the error indicator.
pub mod Laws
use librabbitmq.Base.{ℕ, Option, none, some, List, [], ◌∷◌, Top}
use librabbitmq.Base.Cmd.{Cmd, ok, pure, modify, ◌>>=◌, ◌>>◌}
use librabbitmq.Py.{
  Py, PyVal, null, none_, bool, int, float, str, bytes, dict, list, tuple, other,
  unicode_encode_error, set_err, new_ref, release,
}
use librabbitmq.Py.Objects.{ObjectArray, last, link, empty_array, add_entry}
use librabbitmq.Py.Text.{ascii_encode}

-- A `PyObject *`: the value, and the number of the reference if the code created the object.
pub record Object : Type 0 where
  pub value : PyVal
  pub ref : Option ℕ

abbrev pub borrowed : PyVal → Object
borrowed v = record { value = v; ref = none }

abbrev pub created : PyVal → ℕ → Object
created v i = record { value = v; ref = some i }

-- `PyObjectArray_AddEntry` of a new reference.
abbrev pub hold : ℕ → Py → Py
hold i s = record s { held = add_entry s.held i }

-- A new bytes object that the operation keeps until its end.
abbrev pub keep_bytes : List ℕ → Cmd Py Object
keep_bytes bs = do i ← new_ref; modify (hold i); pure (created (bytes bs) i)

-- `PyObjectArray_AddEntry(array, PyUnicode_AsASCIIString(s))`; a NULL goes through unstored.
unfoldable pub keep_ascii : List ℕ → Cmd Py Object
keep_ascii cs s = elim (ascii_encode cs) [
  | none ↦ ok (borrowed null) (set_err unicode_encode_error s)
  | some bs ↦ keep_bytes bs s
]

-- `PyObjectArray_Maybe_Unicode`.
unfoldable pub maybe_unicode : PyVal → Cmd Py Object
unfolding keep_ascii
maybe_unicode (str cs) = keep_ascii cs
maybe_unicode v = pure (borrowed v)

-- The loop over `entries`.
unfoldable pub release_entries : List ℕ → Py → Py
release_entries [] s = s
release_entries (i ∷ is) s = release_entries is (release i s)

-- The successor first, then the entries of the chunk itself.
unfoldable pub release_array : ObjectArray → Py → Py
unfolding release_entries
release_array (last es) s = release_entries es s
release_array (link es next) s = release_entries es (release_array next s)

-- `PyObjectArray_XDECREF(&pyobj_array)`: the array is empty again afterwards.
unfoldable pub xdecref_held : Py → Py
unfolding release_array
xdecref_held s = record (release_array s.held s) { held = empty_array }
