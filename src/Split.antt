-- ===== src/Split.antt =====
-- The scalar splitter of tokenizer.go: cutting a text at symbols and white space, and naming the
-- kind of what lies between. A segment `msg[start:i]` is the list of its bytes, and the text that
-- is not read yet, `msg[i:]`, is a list too.
pub mod Lossless
use tipping.Base.{
  ℕ, zero, suc, ◌+◌, Bool, true, false, ◌||◌, ◌&&◌, List, [], ◌∷◌, ◌++◌, Option, none, some, ltb,
  leb, ◌==◌, if◌then◌else◌, length, take, drop, bit_or, Bytes, bytes_eq,
}
use tipping.Utf8.{Decoded, decode_rune, rune_self, is_space, Unicode}
use tipping.Symbols.{Class, other, space, symbol, SymbolTable, class_of, is_symbol_rune}
use tipping.Token.{Token, TokenKind, alphabetic, numeric, symbolic, whitespace, impure}

-- `lower := b | 0x20; lower >= 'a' && lower <= 'z'`
unfoldable pub ascii_letter : ℕ → Bool
ascii_letter b = leb b'a' (bit_or b 0x20) && leb (bit_or b 0x20) b'z'

unfoldable pub ascii_digit : ℕ → Bool
ascii_digit b = leb b'0' b && leb b b'9'

-- `isAll`, behind its test for the empty text. Each rune takes a byte, so the length is enough fuel.
every_rune : (ℕ → Bool) → ℕ → Bytes → Bool
every_rune predicate fuel [] = true
every_rune predicate zero (b ∷ s) = true
every_rune predicate (suc fuel) (b ∷ s) =
    let d = decode_rune (b ∷ s) in
    let rest = every_rune predicate fuel (drop d.size (b ∷ s)) in
    if predicate d.rune then rest else false

unfoldable pub is_all : Bytes → (ℕ → Bool) → Bool
unfolding every_rune
is_all [] predicate = false
is_all (b ∷ s) predicate = every_rune predicate (length (b ∷ s)) (b ∷ s)

-- The last part of `tokenWithSlow`, on the first rune.
unfoldable pub lone_kind : SymbolTable → Decoded → Bytes → TokenKind
unfolding is_space is_symbol_rune
lone_kind t d slice =
    if d.size == length slice
    then (if is_space d.rune
        then whitespace
        else if is_symbol_rune t d.rune
        then symbolic
        else impure)
    else impure

unfoldable pub kind_with_slow : Unicode → SymbolTable → Bytes → TokenKind
unfolding is_all lone_kind
kind_with_slow u t slice =
    if is_all slice u.is_letter
    then alphabetic
    else if is_all slice u.is_digit
    then numeric
    else lone_kind t (decode_rune slice) slice

-- The loop of `tokenWith` with `allLetter` and `allDigit`; `none` when it meets a byte that is not
-- ASCII and leaves for `tokenWithSlow`.
unfoldable pub scan_ascii : Bytes → Bool → Bool → Option (Bool × Bool)
unfolding ascii_letter ascii_digit
scan_ascii [] all_letter all_digit = some (all_letter, all_digit)
scan_ascii (b ∷ s) all_letter all_digit =
    if leb rune_self b
    then none
    else scan_ascii s (if ascii_letter b then all_letter else false)
        (if ascii_digit b then all_digit else false)

-- `switch symbols.class[slice[0]]`
abbrev pub class_kind : Class → TokenKind
class_kind other = impure
class_kind space = whitespace
class_kind symbol = symbolic

abbrev pub single_kind : SymbolTable → Bytes → TokenKind
single_kind t [] = impure
single_kind t (b ∷ []) = class_kind (class_of t b)
single_kind t (b ∷ c ∷ s) = impure

abbrev pub ascii_kind : SymbolTable → Bytes → Bool → Bool → TokenKind
ascii_kind t [] all_letter all_digit = impure
ascii_kind t (b ∷ s) all_letter all_digit =
    if all_letter then alphabetic else if all_digit then numeric else single_kind t (b ∷ s)

unfoldable pub kind_with : Unicode → SymbolTable → Bytes → TokenKind
unfolding kind_with_slow scan_ascii
kind_with u t slice = elim (scan_ascii slice true true) [
  | none ↦ kind_with_slow u t slice
  | some p ↦ ascii_kind t slice p.0 p.1
]

unfoldable pub token_with : Unicode → SymbolTable → Bytes → Token
unfolding kind_with
token_with u t slice = record { kind = kind_with u t slice; slice = slice }

-- What stands at `msg[i]`: how many bytes it takes, and the kind of the token that it makes alone
-- where it ends a segment.
pub record Piece : Type 0 where
  pub size : ℕ
  pub boundary : Option TokenKind

abbrev pub ascii_boundary : Class → Option TokenKind
ascii_boundary other = none
ascii_boundary space = some whitespace
ascii_boundary symbol = some symbolic

unfoldable pub rune_boundary : SymbolTable → ℕ → Option TokenKind
unfolding is_space is_symbol_rune
rune_boundary t r =
    if is_space r then some whitespace else if is_symbol_rune t r then some symbolic else none

-- The tests that the loops of `appendSplitTokenScalar` and `splitTokenCount` begin with.
unfoldable pub piece_at : SymbolTable → Bytes → Piece
unfolding decode_rune rune_boundary
piece_at t [] = record { size = 0; boundary = none }
piece_at t (b ∷ s) =
    if ltb b rune_self
    then record { size = 1; boundary = ascii_boundary (class_of t b) }
    else record {
      size = (decode_rune (b ∷ s)).size;
      boundary = rune_boundary t (decode_rune (b ∷ s)).rune;
    }

-- `if start < i { tokens = append(tokens, tokenWith(msg[start:i], symbols)) }`
unfoldable pub flush : Unicode → SymbolTable → Bytes → List Token → List Token
unfolding token_with
flush u t [] tokens = tokens
flush u t (b ∷ cur) tokens = tokens ++ token_with u t (b ∷ cur) ∷ []

-- The loop of `appendSplitTokenScalar`: `cur` is `msg[start:i]`, and the third text is `msg[i:]`.
unfoldable pub split_loop : ℕ → Unicode → SymbolTable → Bytes → Bytes → List Token → List Token
split_loop fuel u t cur [] tokens = flush u t cur tokens
split_loop zero u t cur (b ∷ s) tokens = tokens
split_loop (suc fuel) u t cur (b ∷ s) tokens =
    let p = piece_at t (b ∷ s) in
    let piece = take p.size (b ∷ s) in
    let rest = drop p.size (b ∷ s) in
    elim p.boundary [
      | none ↦ split_loop fuel u t (cur ++ piece) rest tokens
      | some k ↦
          split_loop fuel u t [] rest
            (flush u t cur tokens ++ record { kind = k; slice = piece } ∷ [])
    ]

-- Each round reads a byte or more, so the length is enough fuel.
unfoldable pub append_split_token_scalar : Unicode → SymbolTable → List Token → Bytes → List Token
unfolding split_loop flush piece_at
append_split_token_scalar u t tokens msg = split_loop (length msg) u t [] msg tokens

abbrev pub count_flush : Bytes → ℕ → ℕ
count_flush [] count = count
count_flush (b ∷ cur) count = count + 1

unfoldable pub count_loop : ℕ → SymbolTable → Bytes → Bytes → ℕ → ℕ
count_loop fuel t cur [] count = count_flush cur count
count_loop zero t cur (b ∷ s) count = count
count_loop (suc fuel) t cur (b ∷ s) count =
    let p = piece_at t (b ∷ s) in
    let piece = take p.size (b ∷ s) in
    let rest = drop p.size (b ∷ s) in
    elim p.boundary [
      | none ↦ count_loop fuel t (cur ++ piece) rest count
      | some k ↦ count_loop fuel t [] rest (count_flush cur count + 1)
    ]

unfoldable pub split_token_count : SymbolTable → Bytes → ℕ
unfolding count_loop piece_at
split_token_count t msg = count_loop (length msg) t [] msg 0
