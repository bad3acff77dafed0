-- ===== src/Simd.antt =====
-- tokenize_simd.go: the splitter over a class byte for each byte of the text, and the choice
-- between it and the scalar one. `classify_bytes` is the portable `classifyBytesGo`, which the
-- vector kernels are documented to match byte for byte.
pub mod Classes
pub mod Segment
pub mod Equiv
use tipping.Base.{
  ℕ, zero, suc, ◌+◌, ◌/◌, ◌%◌, ◌^◌, Bool, true, false, ◌||◌, ◌&&◌, not, List, [], ◌∷◌, ◌++◌, Option,
  none, some, ltb, leb, ◌==◌, if◌then◌else◌, length, bit_and, bit_or, get_or, map, Bytes, has_bit,
}
use tipping.Utf8.{Unicode}
use tipping.Symbols.{SymbolTable}
use tipping.Token.{Token, TokenKind, alphabetic, numeric, symbolic, whitespace, impure}
use tipping.Split.{append_split_token_scalar, ascii_letter, ascii_digit}

-- The class bits: space 1, symbol 2, letter 4, digit 8, no ASCII 16.
abbrev pub class_boundary_bits : ℕ
class_boundary_bits = 19

abbrev pub simd_min_len : ℕ
simd_min_len = 32

abbrev pub simd_max_len : ℕ
simd_max_len = 1024

-- `if test { c |= bit }`
abbrev pub set_bit : Bool → ℕ → ℕ → ℕ
set_bit test bit c = if test then bit_or c bit else c

-- The body of the loop of `classifyBytesGo`, up to the test of the symbol bits.
unfoldable pub classify_with : Bool → ℕ → ℕ
unfolding ascii_letter ascii_digit
classify_with is_symbol b = set_bit is_symbol 2 (
    set_bit (leb 0x80 b) 16 (
      set_bit (ascii_digit b) 8
        (set_bit (ascii_letter b) 4 (set_bit (b == 0x20 || (leb 0x09 b && leb b 0x0D)) 1 0))))

-- `b < 0x80 && symLo[b&0xF]&(1<<(b>>4)) != 0`
unfoldable pub symbol_bit : List ℕ → ℕ → Bool
symbol_bit sym_lo b = ltb b 0x80 && has_bit (get_or sym_lo (b % 16) 0) (b / 16)

unfoldable pub classify_byte : List ℕ → ℕ → ℕ
classify_byte sym_lo b = classify_with (symbol_bit sym_lo b) b

unfoldable pub classify_bytes : List ℕ → Bytes → List ℕ
classify_bytes sym_lo msg = map (classify_byte sym_lo) msg

unfoldable pub segment_kind : ℕ → TokenKind
segment_kind acc =
    if not (bit_and acc 4 == 0)
    then alphabetic
    else if not (bit_and acc 8 == 0)
    then numeric
    else impure

unfoldable pub segment_token : Bytes → ℕ → Token
unfolding segment_kind
segment_token slice acc = record { kind = segment_kind acc; slice = slice }

-- `if start < i { tokens = append(tokens, segmentToken(msg[start:i], acc)) }`
unfoldable pub flush_segment : Bytes → ℕ → List Token → List Token
unfolding segment_token
flush_segment [] acc tokens = tokens
flush_segment (b ∷ cur) acc tokens = tokens ++ segment_token (b ∷ cur) acc ∷ []

-- The loop of `appendSplitTokenSIMD` over the class bytes and the text; `none` is `ok=false`.
unfoldable pub simd_loop : List ℕ → Bytes → Bytes → ℕ → List Token → Option (List Token)
simd_loop (c ∷ classes) (b ∷ s) cur acc tokens = elim (bit_and c class_boundary_bits == 0) [
  | true ↦ simd_loop classes s (cur ++ b ∷ []) (bit_and acc c) tokens
  | false ↦ elim (bit_and c 16 == 0) [
    | false ↦ none
    | true ↦ simd_loop classes s [] 0xFF (
        flush_segment cur acc tokens
        ++ record { kind = if not (bit_and c 1 == 0) then whitespace else symbolic; slice = b ∷ [] }
          ∷ [])
  ]
]
simd_loop classes s cur acc tokens = some (flush_segment cur acc tokens)

-- The class buffer of the source holds 1024 bytes; `append_split_token` passes no longer text, so
-- the list of classes needs no bound here.
unfoldable pub append_split_token_simd : SymbolTable → List Token → Bytes → Option (List Token)
unfolding classify_bytes classify_byte simd_loop flush_segment
append_split_token_simd t tokens msg = simd_loop (classify_bytes t.sym_lo msg) msg [] 0xFF tokens

abbrev pub or_else : List Token → Option (List Token) → List Token
or_else d none = d
or_else d (some x) = x

-- `simd_tokenize` tells whether the processor has the vector kernel.
unfoldable pub append_split_token : Bool → Unicode → SymbolTable → List Token → Bytes → List Token
append_split_token simd_tokenize u t tokens msg =
    if simd_tokenize && (leb simd_min_len (length msg) && leb (length msg) simd_max_len)
    then or_else (append_split_token_scalar u t tokens msg) (append_split_token_simd t tokens msg)
    else append_split_token_scalar u t tokens msg
