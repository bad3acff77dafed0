-- ===== src/Utf8.antt =====
-- What the tokenizer uses of Go's `unicode/utf8` and `unicode`: `DecodeRuneInString`, `IsSpace`,
-- and the tables behind `IsLetter` and `IsDigit`, which are a parameter.
use tipping.Base.{
  ℕ, ◌+◌, ◌-◌, ◌*◌, ◌≤◌, Bool, ◌&&◌, ◌||◌, [], ◌∷◌, arith, ltb, leb, ◌==◌, if◌then◌else◌, Bytes,
  length, suc,
}

-- `utf8.RuneSelf`: the bytes below it are ASCII characters.
abbrev pub rune_self : ℕ
rune_self = 128

abbrev pub rune_error : ℕ
rune_error = 65533

-- A rune and the number of bytes that it takes.
pub record Decoded : Type 0 where
  pub rune : ℕ
  pub size : ℕ

abbrev invalid : Decoded
invalid = record { rune = rune_error; size = 1 }

abbrev in_range : ℕ → ℕ → ℕ → Bool
in_range lo hi b = leb lo b && leb b hi

abbrev continues : ℕ → Bool
continues = in_range 0x80 0xBF

unfoldable pub decode_two : ℕ → Bytes → Decoded
decode_two b0 [] = invalid
decode_two b0 (b1 ∷ s) =
    if continues b1 then record { rune = (b0 - 0xC0) * 64 + (b1 - 0x80); size = 2 } else invalid

-- `lo` and `hi` bound the second byte.
unfoldable pub decode_three : ℕ → ℕ → ℕ → Bytes → Decoded
decode_three lo hi b0 [] = invalid
decode_three lo hi b0 (b1 ∷ []) = invalid
decode_three lo hi b0 (b1 ∷ b2 ∷ s) =
    if in_range lo hi b1 && continues b2
    then record { rune = ((b0 - 0xE0) * 64 + (b1 - 0x80)) * 64 + (b2 - 0x80); size = 3 }
    else invalid

unfoldable pub decode_four : ℕ → ℕ → ℕ → Bytes → Decoded
decode_four lo hi b0 [] = invalid
decode_four lo hi b0 (b1 ∷ []) = invalid
decode_four lo hi b0 (b1 ∷ b2 ∷ []) = invalid
decode_four lo hi b0 (b1 ∷ b2 ∷ b3 ∷ s) =
    if in_range lo hi b1 && (continues b2 && continues b3)
    then record {
      rune = (((b0 - 0xF0) * 64 + (b1 - 0x80)) * 64 + (b2 - 0x80)) * 64 + (b3 - 0x80);
      size = 4;
    }
    else invalid

-- A lead byte of a multi-byte rune, and what follows it.
unfoldable pub decode_long : ℕ → Bytes → Decoded
unfolding decode_two decode_three decode_four
decode_long b0 s =
    if in_range 0xC2 0xDF b0
    then decode_two b0 s
    else if b0 == 0xE0
    then decode_three 0xA0 0xBF b0 s
    else if b0 == 0xED
    then decode_three 0x80 0x9F b0 s
    else if in_range 0xE1 0xEF b0
    then decode_three 0x80 0xBF b0 s
    else if b0 == 0xF0
    then decode_four 0x90 0xBF b0 s
    else if b0 == 0xF4
    then decode_four 0x80 0x8F b0 s
    else if in_range 0xF1 0xF3 b0
    then decode_four 0x80 0xBF b0 s
    else invalid

-- `utf8.DecodeRuneInString`. Bytes that are no UTF-8 decode to `rune_error`, one at a time.
unfoldable pub decode_rune : Bytes → Decoded
unfolding decode_long
decode_rune [] = record { rune = rune_error; size = 0 }
decode_rune (b0 ∷ s) = if ltb b0 rune_self then record { rune = b0; size = 1 } else decode_long b0 s

-- A decoded rune is one byte or more, and never reaches past the end of the text.
decode_two-size :
    (b0 : ℕ) (s : Bytes) → (1 ≤ (decode_two b0 s).size) × ((decode_two b0 s).size ≤ length s + 1)
unfolding decode_two
decode_two-size b0 [] = ground arith
decode_two-size b0 (b1 ∷ s) = ground arith

decode_three-size :
    (lo hi b0 : ℕ) (s : Bytes)
    → (1 ≤ (decode_three lo hi b0 s).size) × ((decode_three lo hi b0 s).size ≤ length s + 1)
unfolding decode_three
decode_three-size lo hi b0 [] = ground arith
decode_three-size lo hi b0 (b1 ∷ []) = ground arith
decode_three-size lo hi b0 (b1 ∷ b2 ∷ s) = ground arith

decode_four-size :
    (lo hi b0 : ℕ) (s : Bytes)
    → (1 ≤ (decode_four lo hi b0 s).size) × ((decode_four lo hi b0 s).size ≤ length s + 1)
unfolding decode_four
decode_four-size lo hi b0 [] = ground arith
decode_four-size lo hi b0 (b1 ∷ []) = ground arith
decode_four-size lo hi b0 (b1 ∷ b2 ∷ []) = ground arith
decode_four-size lo hi b0 (b1 ∷ b2 ∷ b3 ∷ s) = ground arith

pub decode_rune-size :
    (b0 : ℕ) (s : Bytes)
    → (1 ≤ (decode_rune (b0 ∷ s)).size) × ((decode_rune (b0 ∷ s)).size ≤ suc (length s))
unfolding decode_rune
decode_rune-size b0 s = ground (
  arith,
  decode_two-size b0 s,
  decode_three-size 0xA0 0xBF b0 s,
  decode_three-size 0x80 0x9F b0 s,
  decode_three-size 0x80 0xBF b0 s,
  decode_four-size 0x90 0xBF b0 s,
  decode_four-size 0x80 0x8F b0 s,
  decode_four-size 0x80 0xBF b0 s,
)

-- `unicode.IsSpace`.
unfoldable pub is_space : ℕ → Bool
is_space r =
    in_range 0x09 0x0D r
    || r == 0x20
    || r == 0x85
    || r == 0xA0
    || r == 0x1680
    || in_range 0x2000 0x200A r
    || r == 0x2028
    || r == 0x2029
    || r == 0x202F
    || r == 0x205F
    || r == 0x3000

-- The tables of letters and decimal digits, which are data of Go's `unicode` package.
pub record Unicode : Type 0 where
  pub is_letter : ℕ → Bool
  pub is_digit : ℕ → Bool
