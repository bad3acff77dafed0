-- ===== src/Retokenize.antt =====
-- `retokenizeTokensWithSymbolsInto` of parser.go: the impure tokens of a row, split again with more
-- symbols.
pub mod Size
use tipping.Base.{
  ℕ, zero, suc, ◌+◌, ◌-◌, Bool, true, false, ◌||◌, List, [], ◌∷◌, ◌++◌, Option, none, some, length,
  take, drop, Bytes, ltb, if◌then◌else◌,
}
use tipping.Utf8.{decode_rune, rune_self, Unicode}
use tipping.Symbols.{SymbolTable, class_of, is_symbol, is_symbol_rune}
use tipping.Token.{
  Token, TokenKind, alphabetic, numeric, symbolic, whitespace, impure, special_white, special_black,
}
use tipping.Split.{split_token_count}
use tipping.Simd.{append_split_token}

-- `tokenNeedsSplit`. Each rune takes a byte or more, so the length is enough fuel.
needs_split_loop : ℕ → SymbolTable → Bytes → Bool
needs_split_loop fuel t [] = false
needs_split_loop zero t (b ∷ s) = false
needs_split_loop (suc fuel) t (b ∷ s) =
    let d = decode_rune (b ∷ s) in
    let next = needs_split_loop fuel t s in
    let rest = needs_split_loop fuel t (drop d.size (b ∷ s)) in
    if ltb b rune_self
    then (if is_symbol (class_of t b) then true else next)
    else if is_symbol_rune t d.rune
    then true
    else rest

unfoldable pub token_needs_split : SymbolTable → Bytes → Bool
unfolding needs_split_loop
token_needs_split t slice = needs_split_loop (length slice) t slice

abbrev pub is_impure : TokenKind → Bool
is_impure impure = true
is_impure alphabetic = false
is_impure numeric = false
is_impure symbolic = false
is_impure whitespace = false
is_impure special_white = false
is_impure special_black = false

-- The first loop: where the first token stands that must be split, from `i` on.
unfoldable pub find_start : SymbolTable → ℕ → List Token → Option ℕ
find_start t i [] = none
find_start t i (tok ∷ tokens) =
    if is_impure tok.kind
    then (if token_needs_split t tok.slice then some i else find_start t (i + 1) tokens)
    else find_start t (i + 1) tokens

-- The second loop.
unfoldable pub needed_for : SymbolTable → List Token → ℕ → ℕ
needed_for t [] needed = needed
needed_for t (tok ∷ tokens) needed = needed_for t tokens (
    if is_impure tok.kind
    then (if ltb 1 (split_token_count t tok.slice)
        then needed + (split_token_count t tok.slice - 1)
        else needed)
    else needed)

-- The third loop. `simd` says whether the vector kernel is there.
unfoldable pub split_tokens : Bool → Unicode → SymbolTable → List Token → List Token → List Token
split_tokens simd u t [] out = out
split_tokens simd u t (tok ∷ tokens) out =
    split_tokens simd u t tokens
      (if is_impure tok.kind then append_split_token simd u t out tok.slice else out ++ tok ∷ [])

unfoldable pub retokenize_tokens : Bool → Unicode → SymbolTable → List Token → List Token
retokenize_tokens simd u t tokens = elim (find_start t 0 tokens) [
  | none ↦ tokens
  | some start ↦ split_tokens simd u t (drop start tokens) (take start tokens)
]

-- The capacity that it asks for, where it makes a new row.
unfoldable pub needed_capacity : SymbolTable → List Token → Option ℕ
needed_capacity t tokens = elim (find_start t 0 tokens) [
  | none ↦ none
  | some start ↦ some (needed_for t (drop start tokens) (length tokens))
]
