-- ===== src/Py/Text.antt =====
-- The codecs that the code calls: `PyUnicode_AsASCIIString`, `PyUnicode_AsEncodedString(…, "utf-8",
-- "strict")` and `PyUnicode_FromStringAndSize`, which decodes UTF-8. None is the codec's exception.
pub mod Laws
use Prim.Native.Char.{code}
use Prim.Native.String.{String}
use librabbitmq.Base.{
  ℕ, ◌+◌, ◌-◌, ◌*◌, ◌/◌, ◌%◌, ◌<◌, Bool, true, false, ◌&&◌, ◌||◌, Option, none, some, List, [], ◌∷◌,
  ◌++◌, ltb, leb, ◌==◌, if◌then◌else◌, Top,
}

-- Prefix a decoded character, or put bytes in front of an encoded text.
abbrev pub consing : ℕ → Option (List ℕ) → Option (List ℕ)
consing c none = none
consing c (some cs) = some (c ∷ cs)

abbrev pub putting : Option (List ℕ) → Option (List ℕ) → Option (List ℕ)
putting none r = none
putting (some b) none = none
putting (some b) (some bs) = some (b ++ bs)

unfoldable pub ascii_encode : List ℕ → Option (List ℕ)
ascii_encode [] = some []
ascii_encode (c ∷ cs) = let rest = ascii_encode cs in if ltb c 0x80 then consing c rest else none

abbrev pub is_surrogate : ℕ → Bool
is_surrogate c = leb 0xd800 c && ltb c 0xe000

-- The bytes of one character; a surrogate has none.
unfoldable pub utf8_char : ℕ → Option (List ℕ)
utf8_char c =
    if ltb c 0x80
    then some (c ∷ [])
    else if ltb c 0x800
    then some ((0xc0 + c / 64) ∷ (0x80 + c % 64) ∷ [])
    else if is_surrogate c
    then none
    else if ltb c 0x1_0000
    then some ((0xe0 + c / 4096) ∷ (0x80 + c / 64 % 64) ∷ (0x80 + c % 64) ∷ [])
    else if ltb c 0x11_0000
    then some (
        (0xf0 + c / 262_144) ∷ (0x80 + c / 4096 % 64) ∷ (0x80 + c / 64 % 64) ∷ (0x80 + c % 64) ∷ [])
    else none

unfoldable pub utf8_encode : List ℕ → Option (List ℕ)
utf8_encode [] = some []
utf8_encode (c ∷ cs) = putting (utf8_char c) (utf8_encode cs)

-- A finished character: shortest form, no surrogate, in range.
abbrev pub is_scalar : ℕ → ℕ → Bool
is_scalar least c = leb least c && not (is_surrogate c) && ltb c 0x11_0000
  where
    not : Bool → Bool
    not true = false
    not false = true

-- Byte by byte: how many bytes the character still wants, what it has, and the least character
-- that its length is for.
unfoldable pub utf8_from : ℕ → ℕ → ℕ → List ℕ → Option (List ℕ)
utf8_from want acc least [] = if want == 0 then some [] else none
utf8_from want acc least (b ∷ bs) =
    let ready = utf8_from 0 0 0 bs in
    let more = utf8_from (want - 1) (acc * 64 + b - 0x80) least bs in
    let two = utf8_from 1 (b - 0xc0) 0x80 bs in
    let three = utf8_from 2 (b - 0xe0) 0x800 bs in
    let four = utf8_from 3 (b - 0xf0) 0x1_0000 bs in
    if want == 0
    then (if ltb b 0x80
        then consing b ready
        else if ltb b 0xc0
        then none
        else if ltb b 0xe0
        then two
        else if ltb b 0xf0
        then three
        else if ltb b 0xf8
        then four
        else none)
    else if ltb b 0x80 || leb 0xc0 b
    then none
    else if want == 1
    then (if is_scalar least (acc * 64 + b - 0x80)
        then consing (acc * 64 + b - 0x80) ready
        else none)
    else more

unfoldable pub utf8_decode : List ℕ → Option (List ℕ)
unfolding utf8_from
utf8_decode bs = utf8_from 0 0 0 bs

-- All characters are ASCII.
abbrev pub IsAscii : List ℕ → Type 0
IsAscii [] = Top
IsAscii (c ∷ cs) = (c < 0x80) × IsAscii cs

-- The code points of a literal, all ASCII.
abbrev pub codes : String → List ℕ
codes String.[] = []
codes (String.◌∷◌ c s) = code c ∷ codes s
