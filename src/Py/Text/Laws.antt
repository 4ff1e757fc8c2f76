-- ===== src/Py/Text/Laws.antt =====
-- The codecs on ASCII texts, and UTF-8 both ways.
use librabbitmq.Base.{
  ℕ, ◌+◌, ◌-◌, ◌*◌, ◌/◌, ◌%◌, ◌<◌, ◌≤◌, ◌≡◌, refl, some, List, [], ◌∷◌, ◌++◌, arith, true, false,
  ◌∙◌, Option-cases, inl, inr,
}
use librabbitmq.Py.Text.{
  IsAscii, ascii_encode, utf8_char, utf8_encode, utf8_from, utf8_decode, consing, is_scalar,
  is_surrogate,
}

pub ascii_encode_self : (cs : List ℕ) → IsAscii cs → ascii_encode cs ≡ some cs
unfolding ascii_encode
ascii_encode_self [] h = refl
ascii_encode_self (c ∷ cs) (low, h) = ground (arith, ascii_encode_self cs h)

utf8_one :
    (c : ℕ) (rest : List ℕ)
    → c < 0x80
    → utf8_from 0 0 0 (c ∷ rest) ≡ consing c (utf8_from 0 0 0 rest)
unfolding utf8_from
utf8_one c rest h = ground arith

utf8_two :
    (c : ℕ) (rest : List ℕ)
    → 0x80 ≤ c
    → c < 0x800
    → utf8_from 0 0 0 ((0xc0 + c / 64) ∷ (0x80 + c % 64) ∷ rest) ≡ consing c (utf8_from 0 0 0 rest)
unfolding utf8_from
utf8_two c rest l h = ground arith

utf8_three :
    (c : ℕ) (rest : List ℕ)
    → 0x800 ≤ c
    → c < 0x1_0000
    → is_surrogate c ≡ false
    → utf8_from 0 0 0 ((0xe0 + c / 4096) ∷ (0x80 + c / 64 % 64) ∷ (0x80 + c % 64) ∷ rest)
      ≡ consing c (utf8_from 0 0 0 rest)
unfolding utf8_from
utf8_three c rest l h n = ground arith

utf8_start_four :
    (x : ℕ) (bs : List ℕ) → x < 8 → utf8_from 0 0 0 ((0xf0 + x) ∷ bs) ≡ utf8_from 3 x 0x1_0000 bs
unfolding utf8_from
utf8_start_four x bs h = ground arith

-- A continuation byte that is not the last.
utf8_continue :
    (want acc least x : ℕ) (bs : List ℕ)
    → 1 < want
    → x < 64
    → utf8_from want acc least ((0x80 + x) ∷ bs) ≡ utf8_from (want - 1) (acc * 64 + x) least bs
unfolding utf8_from
utf8_continue want acc least x bs w h = ground arith

utf8_finish :
    (acc least x c : ℕ) (bs : List ℕ)
    → x < 64
    → acc * 64 + x ≡ c
    → is_scalar least c ≡ true
    → utf8_from 1 acc least ((0x80 + x) ∷ bs) ≡ consing c (utf8_from 0 0 0 bs)
unfolding utf8_from
utf8_finish acc least x c bs h e scalar = ground arith

utf8_four :
    (c : ℕ) (rest : List ℕ)
    → 0x1_0000 ≤ c
    → c < 0x11_0000
    → utf8_from 0 0 0 (
        (0xf0 + c / 262_144)
        ∷ (0x80 + c / 4096 % 64)
        ∷ (0x80 + c / 64 % 64)
        ∷ (0x80 + c % 64)
        ∷ rest)
      ≡ consing c (utf8_from 0 0 0 rest)
utf8_four c rest l h =
    utf8_start_four (c / 262_144) _ (omega arith)
    ∙ utf8_continue 3 (c / 262_144) 0x1_0000 (c / 4096 % 64) _ (omega arith) (omega arith)
    ∙ utf8_continue 2 _ 0x1_0000 (c / 64 % 64) _ (omega arith) (omega arith)
    ∙ utf8_finish _ 0x1_0000 (c % 64) c rest (omega arith) (omega arith) (ground arith)

-- One encoded character is read back, whatever follows it.
utf8_from-utf8_char :
    (c : ℕ) (b rest : List ℕ)
    → utf8_char c ≡ some b
    → utf8_from 0 0 0 (b ++ rest) ≡ consing c (utf8_from 0 0 0 rest)
unfolding utf8_char
utf8_from-utf8_char c b rest h =
    ground (arith, utf8_one c rest, utf8_two c rest, utf8_three c rest, utf8_four c rest)

-- Decoding undoes encoding.
pub utf8_decode-utf8_encode : (cs bs : List ℕ) → utf8_encode cs ≡ some bs → utf8_decode bs ≡ some cs
unfolding utf8_encode utf8_decode
utf8_decode-utf8_encode [] bs h = ground arith
utf8_decode-utf8_encode (c ∷ cs) bs h = elim (Option-cases (utf8_char c)) [
  | inl e ↦ ground arith
  | inr (b, e) ↦ elim (Option-cases (utf8_encode cs)) [
    | inl e' ↦ ground arith
    | inr (bs', e') ↦
        ground (arith, utf8_from-utf8_char c b bs' e, utf8_decode-utf8_encode cs bs' e')
  ]
]

-- An ASCII text is its own UTF-8 encoding.
pub utf8_encode_ascii : (cs : List ℕ) → IsAscii cs → utf8_encode cs ≡ some cs
unfolding utf8_encode utf8_char
utf8_encode_ascii [] h = refl
utf8_encode_ascii (c ∷ cs) (low, h) = ground (arith, utf8_encode_ascii cs h)

pub utf8_decode_ascii : (cs : List ℕ) → IsAscii cs → utf8_decode cs ≡ some cs
utf8_decode_ascii cs h = utf8_decode-utf8_encode cs cs (utf8_encode_ascii cs h)
