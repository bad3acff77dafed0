-- ===== src/Tokenizer.antt =====
-- The tokenizer of tokenizer.go: a text is cut at the matches of the special patterns, and what is
-- left is given to the splitter.
pub mod Steps
pub mod Literal
pub mod Regex
pub mod Lossless
pub mod Cut
use tipping.Base.{
  ℕ, zero, suc, ◌+◌, ◌-◌, Bool, true, false, ◌||◌, List, [], ◌∷◌, ◌++◌, Option, none, some, ltb,
  leb, ◌==◌, if◌then◌else◌, length, take, drop, Bytes, bytes_eq, codes,
}
use tipping.Utf8.{decode_rune, Unicode}
use tipping.Strings.{index}
use tipping.Symbols
use tipping.Symbols.{SymbolSet, SymbolTable, new_symbol_table}
use tipping.Token.{
  Token, special_white, special_black, PreToken, PreTokenKind, unrefined, pre_white, pre_black,
}
use tipping.Simd.{append_split_token}

-- `*regexp.Regexp`: its source text, and `FindStringIndex`.
pub record Regexp : Type 0 where
  pub source : Bytes
  pub find : Bytes → Option (ℕ × ℕ)

-- A matcher with a literal that is not empty, or with a regular expression.
pub record SpecialMatcher : Type 0 where
  pub literal : Bytes
  pub re : Option Regexp

-- `regexp.QuoteMeta` puts a backslash before each of these bytes.
abbrev pub meta_bytes : Bytes
meta_bytes = codes "\\.+*?()|[]{}^$"

unfoldable pub quote_meta : Bytes → Bytes
quote_meta [] = []
quote_meta (b ∷ s) =
    if Symbols.contains meta_bytes b then b'\\' ∷ b ∷ quote_meta s else b ∷ quote_meta s

unfoldable pub literal_pattern : Bytes → Option Bytes
unfolding quote_meta
literal_pattern [] = none
literal_pattern (b ∷ pattern) =
    if bytes_eq (quote_meta (b ∷ pattern)) (b ∷ pattern) then some (b ∷ pattern) else none

unfoldable pub compile_special_matcher : Regexp → SpecialMatcher
unfolding literal_pattern
compile_special_matcher re = elim (literal_pattern re.source) [
  | some literal ↦ record { literal = literal; re = none }
  | none ↦ record { literal = []; re = some re }
]

unfoldable pub compile_special_matchers : List Regexp → List SpecialMatcher
unfolding compile_special_matcher
compile_special_matchers [] = []
compile_special_matchers (re ∷ rest) = compile_special_matcher re ∷ compile_special_matchers rest

abbrev pub raw : Bytes → PreToken
raw s = record { kind = unrefined; slice = s }

-- `if start > last { dst = append(dst, preToken{preTokenUnrefined, msg[last:start]}) }`, and the
-- same for the rest of the text at the end.
abbrev pub append_raw : Bytes → List PreToken → List PreToken
append_raw [] dst = dst
append_raw (b ∷ s) dst = dst ++ raw (b ∷ s) ∷ []

-- `strings.Count` of a text that is not empty: its occurrences that do not overlap.
unfoldable pub count_loop : ℕ → Bytes → Bytes → ℕ
count_loop zero s needle = 0
count_loop (suc fuel) s needle = elim (index s needle) [
  | none ↦ 0
  | some i ↦ suc (count_loop fuel (drop (i + length needle) s) needle)
]

-- The loop of `appendSplitSpecialLiteral`; `rest` is `msg[last:]`.
unfoldable pub literal_loop : ℕ → Bytes → Bytes → PreTokenKind → List PreToken → List PreToken
literal_loop zero rest literal kind dst = append_raw rest dst
literal_loop (suc fuel) rest literal kind dst = elim (index rest literal) [
  | none ↦ append_raw rest dst
  | some i ↦ literal_loop fuel (drop (i + length literal) rest) literal kind (
      append_raw (take i rest) dst
      ++ record { kind = kind; slice = take (length literal) (drop i rest) } ∷ [])
]

-- Each round passes a match, so the length of the text is enough fuel for both loops.
unfoldable pub append_split_special_literal :
    List PreToken → Bytes → Bytes → PreTokenKind → List PreToken
append_split_special_literal dst msg [] kind = dst ++ raw msg ∷ []
append_split_special_literal dst msg (l ∷ literal) kind =
    if count_loop (length msg) msg (l ∷ literal) == 0
    then dst ++ raw msg ∷ []
    else literal_loop (length msg) msg (l ∷ literal) kind dst

-- The variables of the loop of `appendSplitSpecialRegex`; `rest` is `msg[last:]`.
pub record RegexState : Type 0 where
  pub dst : List PreToken
  pub rest : Bytes
  pub matched : Bool

-- `_, size := utf8.DecodeRuneInString(msg[start:]); if size <= 0 { size = 1 }`
abbrev pub skip_size : Bytes → ℕ
skip_size s = if (decode_rune s).size == 0 then 1 else (decode_rune s).size

unfoldable pub regex_loop : ℕ → Regexp → PreTokenKind → RegexState → RegexState
regex_loop zero re kind st = st
regex_loop (suc fuel) re kind st = elim (re.find st.rest) [
  | none ↦ st
  | some (start, end) ↦ elim (leb end start) [
    | true ↦ elim (leb (length st.rest) start) [
      | true ↦ st
      | false ↦
          regex_loop fuel re kind
            (record st { rest = drop (start + skip_size (drop start st.rest)) st.rest })
    ]
    | false ↦ regex_loop fuel re kind (record {
      dst =
          append_raw (take start st.rest) st.dst
          ++ record { kind = kind; slice = take (end - start) (drop start st.rest) } ∷ [];
      rest = drop end st.rest;
      matched = true;
    })
  ]
]

abbrev pub finish_regex : List PreToken → Bytes → RegexState → List PreToken
finish_regex dst msg st = if st.matched then append_raw st.rest st.dst else dst ++ raw msg ∷ []

-- The loop also runs at the end of the text, so it has one round more than there are bytes.
unfoldable pub append_split_special_regex :
    List PreToken → Bytes → Option Regexp → PreTokenKind → List PreToken
append_split_special_regex dst msg none kind = dst ++ raw msg ∷ []
append_split_special_regex dst msg (some re) kind =
    finish_regex dst msg
      (regex_loop (suc (length msg)) re kind (record { dst = dst; rest = msg; matched = false }))

unfoldable pub append_split_special :
    List PreToken → Bytes → SpecialMatcher → PreTokenKind → List PreToken
append_split_special dst msg matcher kind =
    if bytes_eq matcher.literal []
    then append_split_special_regex dst msg matcher.re kind
    else append_split_special_literal dst msg matcher.literal kind

-- The `switch` on the kind of a pre-token; a special one is passed on as it is.
unfoldable pub refine_one :
    SpecialMatcher → PreTokenKind → List PreToken → PreTokenKind → Bytes → List PreToken
refine_one matcher kind next unrefined slice = append_split_special next slice matcher kind
refine_one matcher kind next pre_white slice =
    next ++ record { kind = pre_white; slice = slice } ∷ []
refine_one matcher kind next pre_black slice =
    next ++ record { kind = pre_black; slice = slice } ∷ []

-- One round of the loops over the matchers, over the pre-tokens so far.
unfoldable pub refine :
    SpecialMatcher → PreTokenKind → List PreToken → List PreToken → List PreToken
refine matcher kind next [] = next
refine matcher kind next (p ∷ ps) =
    refine matcher kind (refine_one matcher kind next p.kind p.slice) ps

unfoldable pub refine_all : List SpecialMatcher → PreTokenKind → List PreToken → List PreToken
refine_all [] kind pre = pre
refine_all (m ∷ ms) kind pre = refine_all ms kind (refine m kind [] pre)

pub record Tokenizer : Type 0 where
  pub special_whites : List SpecialMatcher
  pub special_blacks : List SpecialMatcher
  pub symbols : SymbolTable

unfoldable pub new_tokenizer : List Regexp → List Regexp → SymbolSet → Tokenizer
new_tokenizer special_whites special_blacks symbols = record {
  special_whites = compile_special_matchers special_whites;
  special_blacks = compile_special_matchers special_blacks;
  symbols = new_symbol_table symbols;
}

-- `cloneWithSymbols`
unfoldable pub clone_with_symbols : Tokenizer → SymbolTable → Tokenizer
clone_with_symbols t symbols = record t { symbols = symbols }

unfoldable pub pre_tokenize : Tokenizer → Bytes → List PreToken
pre_tokenize t msg =
    refine_all t.special_blacks pre_black (refine_all t.special_whites pre_white (raw msg ∷ []))

-- The cases of the loop of `TokenizeInto`, and of its shortcut for a single pre-token.
unfoldable pub append_pre_token :
    Bool → Unicode → SymbolTable → List Token → PreTokenKind → Bytes → List Token
append_pre_token simd u t out pre_white slice =
    out ++ record { kind = special_white; slice = slice } ∷ []
append_pre_token simd u t out pre_black slice =
    out ++ record { kind = special_black; slice = slice } ∷ []
append_pre_token simd u t out unrefined slice = append_split_token simd u t out slice

unfoldable pub append_pre_tokens :
    Bool → Unicode → SymbolTable → List Token → List PreToken → List Token
append_pre_tokens simd u t out [] = out
append_pre_tokens simd u t out (p ∷ ps) =
    append_pre_tokens simd u t (append_pre_token simd u t out p.kind p.slice) ps

unfoldable pub tokenize : Bool → Unicode → Tokenizer → Bytes → List Token
tokenize simd u t msg = append_pre_tokens simd u t.symbols [] (pre_tokenize t msg)
