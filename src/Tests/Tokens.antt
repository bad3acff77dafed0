-- ===== src/Tests/Tokens.antt =====
-- The tokenizer on small texts.
use tipping.Base.{
  ℕ, ◌+◌, ◌<◌, ◌%◌, ◌/◌, ◌≡◌, ◌↔◌, refl, true, false, [], ◌∷◌, none, some, ltb, if◌then◌else◌,
  length, Bytes, codes, arith, AreBytes, get_or, has_bit,
}
use tipping.Utf8.{decode_rune}
use tipping.Strings.{index, has_prefix}
use tipping.Symbols.{
  symbol_set_equal, new_symbol_set, add_symbols, empty_table, ascii_space, class_of, contains,
  is_symbol_rune, new_symbol_table, space, symbol, other,
}
use tipping.Symbols.Sets.{symbol_set_equal-members, new_symbol_set-IsSymbolSet}
use tipping.Symbols.Lookup.{
  class_of-new_symbol_table, has_bit-new_symbol_table, is_symbol_rune-new_symbol_table,
}
use tipping.Split.{append_split_token_scalar, split_token_count}
use tipping.Split.Lossless.{
  text_of, append_split_token_scalar-lossless, length-append_split_token_scalar,
}
use tipping.Simd.{append_split_token, append_split_token_simd}
use tipping.Simd.Equiv.{
  has_non_ascii, append_split_token_simd-scalar, append_split_token-same_everywhere,
}
use tipping.Token.{pre_black, special_black, alphabetic, numeric, symbolic}
use tipping.Tokenizer.{
  regex_loop, RegexState, append_split_special_regex, append_split_special_literal,
  append_split_special, literal_loop, count_loop, append_pre_tokens, append_pre_token, pre_tokenize,
  refine, refine_one, refine_all, compile_special_matchers, new_tokenizer, tokenize,
}
use tipping.Tokenizer.Steps.{pre_text}
use tipping.Tokenizer.Cut.{IsCut, append_split_special_literal-IsCut}
use tipping.Tokenizer.Regex.{stops, regex_loop-ends, append_split_special_regex-loses}
use tipping.Tokenizer.Lossless.{text_of-tokenize}
use tipping.Tests.Samples.{
  bang-KeepsText, digit-KeepsText, ascii_tables, punctuation, bang, digit, star_x, star_x-IsRegexp,
}

abbrev line : Bytes
line = codes "id=42!"

line-AreBytes : AreBytes line
line-AreBytes =
    (omega arith, (omega arith, (omega arith, (omega arith, (omega arith, (omega arith, tt))))))

-- A run of `Tokenize` with a special pattern.
tokenize_run :
    tokenize false ascii_tables (new_tokenizer [] (bang ∷ []) punctuation) line
    ≡ record { kind = alphabetic; slice = codes "id" }
      ∷ record { kind = symbolic; slice = codes "=" }
      ∷ record { kind = numeric; slice = codes "42" }
      ∷ record { kind = special_black; slice = codes "!" }
      ∷ []
unfolding tokenize new_tokenizer compile_special_matchers pre_tokenize refine_all refine refine_one
    append_split_special append_split_special_literal literal_loop count_loop index has_prefix
    append_pre_tokens append_pre_token append_split_token append_split_token_scalar new_symbol_table
    add_symbols empty_table
tokenize_run = refl

text_of-tokenize_example :
    text_of (tokenize true ascii_tables (new_tokenizer (digit ∷ []) (bang ∷ []) punctuation) line)
    ≡ line
text_of-tokenize_example =
    text_of-tokenize true ascii_tables (digit ∷ []) (bang ∷ []) punctuation line digit-KeepsText
      bang-KeepsText line-AreBytes

append_split_token-same_everywhere_example :
    append_split_token true ascii_tables (new_symbol_table punctuation) [] line
    ≡ append_split_token_scalar ascii_tables (new_symbol_table punctuation) [] line
append_split_token-same_everywhere_example =
    append_split_token-same_everywhere true ascii_tables punctuation [] line line-AreBytes

append_split_token_simd-scalar_example :
    append_split_token_simd (new_symbol_table punctuation) [] line ≡ (
      if has_non_ascii line
      then none
      else some (append_split_token_scalar ascii_tables (new_symbol_table punctuation) [] line))
append_split_token_simd-scalar_example =
    append_split_token_simd-scalar ascii_tables punctuation [] line line-AreBytes

append_split_token_scalar-lossless_example :
    text_of (append_split_token_scalar ascii_tables (new_symbol_table punctuation) [] line) ≡ line
append_split_token_scalar-lossless_example =
    append_split_token_scalar-lossless ascii_tables (new_symbol_table punctuation) [] line

length-append_split_token_scalar_example :
    length (append_split_token_scalar ascii_tables (new_symbol_table punctuation) [] line)
    ≡ 0 + split_token_count (new_symbol_table punctuation) line
length-append_split_token_scalar_example =
    length-append_split_token_scalar ascii_tables (new_symbol_table punctuation) [] line

append_split_special_literal-IsCut_example :
    IsCut pre_black (codes "=4") line (append_split_special_literal [] line (codes "=4") pre_black)
append_split_special_literal-IsCut_example =
    append_split_special_literal-IsCut line b'=' (codes "4") pre_black

abbrev begin : RegexState
begin = record { dst = []; rest = codes "axx"; matched = false }

regex_loop-ends_example :
    (stops star_x (regex_loop 9 star_x pre_black begin).rest ≡ true)
    × (regex_loop (9 + 5) star_x pre_black begin ≡ regex_loop 9 star_x pre_black begin)
regex_loop-ends_example = regex_loop-ends star_x pre_black 9 5 begin star_x-IsRegexp (omega arith)

append_split_special_regex-loses_example :
    length (pre_text (append_split_special_regex [] (codes "axx") (some star_x) pre_black))
    < length (codes "axx")
append_split_special_regex-loses_example =
    append_split_special_regex-loses star_x pre_black (codes "axx") 0 0 2 star_x-IsRegexp refl
      (omega arith) (unfold decode_rune in refl) (omega arith)

-- The text that is lost is the one before the match.
lost_run :
    append_split_special_regex [] (codes "axx") (some star_x) pre_black
    ≡ record { kind = pre_black; slice = codes "xx" } ∷ []
unfolding append_split_special_regex regex_loop decode_rune
lost_run = refl

class_of-new_symbol_table_example :
    class_of (new_symbol_table punctuation) b'='
    ≡ (if ascii_space b'=' then space else if contains punctuation b'=' then symbol else other)
class_of-new_symbol_table_example = class_of-new_symbol_table punctuation b'=' (omega arith)

has_bit-new_symbol_table_example :
    has_bit (get_or (new_symbol_table punctuation).sym_lo (b'=' % 16) 0) (b'=' / 16)
    ≡ contains punctuation b'='
has_bit-new_symbol_table_example = has_bit-new_symbol_table punctuation b'=' (omega arith)

is_symbol_rune-new_symbol_table_example : is_symbol_rune (new_symbol_table punctuation) b'=' ≡ (
    if ltb b'=' 128
    then (if ascii_space b'=' then false else contains punctuation b'=')
    else contains punctuation b'=')
is_symbol_rune-new_symbol_table_example = is_symbol_rune-new_symbol_table punctuation b'='

symbol_set_equal-members_example :
    (symbol_set_equal (new_symbol_set (codes ":==")) (new_symbol_set (codes "=:")) ≡ true) ↔ (
      (x : ℕ)
      → contains (new_symbol_set (codes ":==")) x ≡ contains (new_symbol_set (codes "=:")) x)
symbol_set_equal-members_example =
    symbol_set_equal-members (new_symbol_set (codes ":==")) (new_symbol_set (codes "=:"))
      (new_symbol_set-IsSymbolSet (codes ":==")) (new_symbol_set-IsSymbolSet (codes "=:"))
