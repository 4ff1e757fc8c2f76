-- ===== src/Amqp/Encodes.antt =====
-- What a table says of a dict: an independent reading of the two conversions, item by item, and the
-- dicts that the code converts without an exception.
pub mod Stores
pub mod Elements
pub mod Total
pub mod MinusOne
use librabbitmq.Base.{ℕ, ◌≡◌, ◌≢◌, some, List, Top}
use librabbitmq.Base.Int.{ℤ, pos, negsuc, IsInt32}
use librabbitmq.Py.{
  PyVal, PyItems, PySeq, null, none_, bool, int, float, str, bytes, dict, list, tuple, other, nil,
  cons, end, item,
}
use librabbitmq.Py.Text.{IsAscii, utf8_encode}
use librabbitmq.Amqp.{
  FieldValue, Entries, Values, no_entries, no_values, entry, value, void, boolean, i32, f64, utf8,
  table, array,
}
use librabbitmq.Amqp.Build.{truth, minus_one}

-- A key: a bytes object stands for its bytes, an ASCII text for its characters.
abbrev pub KeyEncodes : PyVal → List ℕ → Type 0
KeyEncodes (str cs) bs = IsAscii cs × (cs ≡ bs)
KeyEncodes (bytes cs) bs = cs ≡ bs
KeyEncodes v bs = ⊥

abbrev pub IsKey : PyVal → Type 0
IsKey (str cs) = IsAscii cs
IsKey (bytes cs) = Top
IsKey v = ⊥

-- A field of a table stands for a value of a dict, an element of an array for one of a list. In a
-- list a bool is a number, and a text is ASCII.
abbrev mutual
  pub Encodes : PyVal → FieldValue → Type 0
  Encodes none_ void = Top
  Encodes (bool b) (boolean n) = truth b ≡ n
  Encodes (int z) (i32 w) = z ≡ w
  Encodes (float d) (f64 e) = d ≡ e
  Encodes (str cs) (utf8 b) = utf8_encode cs ≡ some b.bytes
  Encodes (bytes bs) (utf8 b) = bs ≡ b.bytes
  Encodes (dict d) (table t) = EncodesItems d t
  Encodes (list sq) (array a) = EncodesSeq sq a
  Encodes (tuple sq) (array a) = EncodesSeq sq a
  Encodes v f = ⊥

  pub EncodesItems : PyItems → Entries → Type 0
  EncodesItems nil no_entries = Top
  EncodesItems (cons k v rest) (entry key f es) =
      KeyEncodes k key.bytes × Encodes v f × EncodesItems rest es
  EncodesItems d t = ⊥

  pub EncodesElement : PyVal → FieldValue → Type 0
  EncodesElement none_ void = Top
  EncodesElement (bool b) (i32 w) = pos (truth b) ≡ w
  EncodesElement (int z) (i32 w) = z ≡ w
  EncodesElement (str cs) (utf8 b) = IsAscii cs × (cs ≡ b.bytes)
  EncodesElement (bytes bs) (utf8 b) = bs ≡ b.bytes
  EncodesElement (dict d) (table t) = EncodesItems d t
  EncodesElement (list sq) (array a) = EncodesSeq sq a
  EncodesElement (tuple sq) (array a) = EncodesSeq sq a
  EncodesElement v f = ⊥

  pub EncodesSeq : PySeq → Values → Type 0
  EncodesSeq end no_values = Top
  EncodesSeq (item v rest) (value f vs) = EncodesElement v f × EncodesSeq rest vs
  EncodesSeq sq a = ⊥

-- The values that the code converts: no -1 and no -1.0 in a dict, 32-bit numbers, texts that the
-- codec takes, no float in a list.
abbrev mutual
  pub IsClean : PyVal → Type 0
  IsClean none_ = Top
  IsClean (bool b) = Top
  IsClean (int z) = IsInt32 z × (z ≢ negsuc 0)
  IsClean (float d) = d ≢ minus_one
  IsClean (str cs) = (bs : List ℕ) × (utf8_encode cs ≡ some bs)
  IsClean (bytes bs) = Top
  IsClean (dict d) = IsCleanItems d
  IsClean (list sq) = IsCleanSeq sq
  IsClean (tuple sq) = IsCleanSeq sq
  IsClean v = ⊥

  pub IsCleanItems : PyItems → Type 0
  IsCleanItems nil = Top
  IsCleanItems (cons k v rest) = IsKey k × IsClean v × IsCleanItems rest

  pub IsCleanElement : PyVal → Type 0
  IsCleanElement none_ = Top
  IsCleanElement (bool b) = Top
  IsCleanElement (int z) = IsInt32 z
  IsCleanElement (str cs) = IsAscii cs
  IsCleanElement (bytes bs) = Top
  IsCleanElement (dict d) = IsCleanItems d
  IsCleanElement (list sq) = IsCleanSeq sq
  IsCleanElement (tuple sq) = IsCleanSeq sq
  IsCleanElement v = ⊥

  pub IsCleanSeq : PySeq → Type 0
  IsCleanSeq end = Top
  IsCleanSeq (item v rest) = IsCleanElement v × IsCleanSeq rest
