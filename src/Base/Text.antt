-- ===== src/Base/Text.antt =====
-- What the program uses of Go's strings and encoding/hex packages, on UTF-8 bytes.
use Prim.Native.Nat.{ℕ, ◌+◌, ◌-◌, ◌*◌, ◌/◌, ◌%◌, ◌<◌}
use mathlib.Core.Path.{◌≡◌, refl, ap}
use mathlib.Core.Bool.{Bool, ◌&&◌, ◌||◌}
use mathlib.Core.Option.{Option, none, some}
use mathlib.Core.List.{[], ◌∷◌, reverse, map}
use native.Mathlib.Omega.{arith}
use yunpin_ime.Base.Tests.{◌==◌, leb, if◌then◌else◌}
use yunpin_ime.Base.Lists.{All, length}
use yunpin_ime.Base.Bytes.{Bytes, ascii}

-- The white space of one, two and three bytes: U+0009 to U+000D and U+0020; U+0085 and U+00A0;
-- U+1680, U+2000 to U+200A, U+2028, U+2029, U+202F, U+205F and U+3000.
abbrev one_byte_space : ℕ → Bool
one_byte_space a = leb 9 a && leb a 13 || a == 32

abbrev two_byte_space : ℕ → ℕ → Bool
two_byte_space a b = a == 0xc2 && (b == 0x85 || b == 0xa0)

abbrev three_byte_space : ℕ → ℕ → ℕ → Bool
three_byte_space a b c =
    a == 0xe1 && b == 0x9a && c == 0x80
    || a == 0xe2 && b == 0x80 && (leb 0x80 c && leb c 0x8a || c == 0xa8 || c == 0xa9 || c == 0xaf)
    || a == 0xe2 && b == 0x81 && c == 0x9f
    || a == 0xe3 && b == 0x80 && c == 0x80

-- Drop the white space in front, or behind where the bytes are reversed.
unfoldable pub skip_space : Bytes → Bytes
skip_space [] = []
skip_space (a ∷ []) = if one_byte_space a then [] else a ∷ []
skip_space (a ∷ b ∷ []) =
    let one = skip_space (b ∷ []) in
    if one_byte_space a then one else if two_byte_space a b then [] else a ∷ b ∷ []
skip_space (a ∷ b ∷ c ∷ r) =
    let one = skip_space (b ∷ c ∷ r) in
    let two = skip_space (c ∷ r) in
    let three = skip_space r in
    if one_byte_space a
    then one
    else if two_byte_space a b
    then two
    else if three_byte_space a b c
    then three
    else a ∷ b ∷ c ∷ r

unfoldable pub skip_space_back : Bytes → Bytes
skip_space_back [] = []
skip_space_back (a ∷ []) = if one_byte_space a then [] else a ∷ []
skip_space_back (a ∷ b ∷ []) =
    let one = skip_space_back (b ∷ []) in
    if one_byte_space a then one else if two_byte_space b a then [] else a ∷ b ∷ []
skip_space_back (a ∷ b ∷ c ∷ r) =
    let one = skip_space_back (b ∷ c ∷ r) in
    let two = skip_space_back (c ∷ r) in
    let three = skip_space_back r in
    if one_byte_space a
    then one
    else if two_byte_space b a
    then two
    else if three_byte_space c b a
    then three
    else a ∷ b ∷ c ∷ r

-- strings.TrimSpace
unfoldable pub trim_space : Bytes → Bytes
unfolding skip_space skip_space_back
trim_space s = reverse (skip_space_back (reverse (skip_space s)))

-- hex.EncodeToString
unfoldable pub hex_digit : ℕ → ℕ
hex_digit n = if leb n 9 then 48 + n else 87 + n

unfoldable pub hex_encode : Bytes → Bytes
unfolding hex_digit
hex_encode [] = []
hex_encode (b ∷ bs) = hex_digit (b / 16) ∷ hex_digit (b % 16) ∷ hex_encode bs

-- hex.DecodeString
unfoldable pub hex_value : ℕ → Option ℕ
hex_value c =
    if leb 48 c && leb c 57
    then some (c - 48)
    else if leb 97 c && leb c 102
    then some (c - 87)
    else if leb 65 c && leb c 70
    then some (c - 55)
    else none

unfoldable pub hex_decode : Bytes → Option Bytes
unfolding hex_value
hex_decode [] = some []
hex_decode (c ∷ []) = none
hex_decode (c ∷ d ∷ s) = elim (hex_value c) [
  | none ↦ none
  | some h ↦ elim (hex_value d) [
    | none ↦ none
    | some l ↦ elim (hex_decode s) [ none ↦ none | some bs ↦ some ((h * 16 + l) ∷ bs) ]
  ]
]

-- strings.ToLower on ASCII text
abbrev lower : ℕ → ℕ
lower c = if leb 65 c && leb c 90 then c + 32 else c

unfoldable pub to_lower : Bytes → Bytes
to_lower = map lower

trim_run : trim_space (ascii " a b ") ≡ ascii "a b"
unfolding trim_space
trim_run = refl

hex_value-digit : (n : ℕ) → n < 16 → hex_value (hex_digit n) ≡ some n
unfolding hex_value hex_digit
hex_value-digit n h = ground arith

-- Decoding gives back the encoded bytes.
pub hex_decode-encode : (bs : Bytes) → All (λ b. b < 256) bs → hex_decode (hex_encode bs) ≡ some bs
unfolding hex_decode hex_encode
hex_decode-encode [] h = refl
hex_decode-encode (b ∷ bs) h =
    rw
      (
        hex_value-digit (b / 16) (omega (arith, h.0)),
        hex_decode,
        hex_value-digit (b % 16) (omega arith),
        hex_decode,
        hex_decode-encode bs h.1,
        hex_decode,
      )
      (ap (λ x. some (x ∷ bs)) (omega arith))

pub length-hex_encode : (bs : Bytes) → length (hex_encode bs) ≡ 2 * length bs
unfolding hex_encode
length-hex_encode [] = refl
length-hex_encode (b ∷ bs) = omega (arith, length-hex_encode bs)

lower-digit : (n : ℕ) → n < 16 → lower (hex_digit n) ≡ hex_digit n
unfolding hex_digit
lower-digit n h = ground arith

-- The encoding has no letter to lower.
pub to_lower-hex_encode :
    (bs : Bytes) → All (λ b. b < 256) bs → to_lower (hex_encode bs) ≡ hex_encode bs
unfolding to_lower hex_encode
to_lower-hex_encode [] h = refl
to_lower-hex_encode (b ∷ bs) h =
    rw
      (
        lower-digit (b / 16) (omega (arith, h.0)),
        lower-digit (b % 16) (omega arith),
        to_lower-hex_encode bs h.1,
      )
      refl
