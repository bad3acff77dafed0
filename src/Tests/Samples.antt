-- ===== src/Tests/Samples.antt =====
-- The regular expressions, texts and tables that the tests share.
use tipping.Base.{
  refl, All, inl, inr, subst, ℕ, zero, suc, ◌≤◌, ◌≡◌, ◌&&◌, [], ◌∷◌, Option, none, some, ◌==◌, leb,
  if◌then◌else◌, length, Bytes, codes, arith,
}
use tipping.Strings.{index}
use tipping.Strings.Index.{index-none}
use tipping.Strings.Lacks.{Lacks}
use tipping.Template.{placeholder}
use tipping.Utf8.{Unicode}
use tipping.Symbols.{SymbolSet}
use tipping.Tokenizer.{Regexp, compile_special_matchers}
use tipping.Tokenizer.Regex.{IsRegexp}
use tipping.Tokenizer.Lossless.{NeverEmpty, KeepsText}

-- The ASCII part of the tables.
abbrev pub ascii_tables : Unicode
ascii_tables = record {
  is_letter = λ r. leb b'a' r && leb r b'z';
  is_digit = λ r. leb b'0' r && leb r b'9';
}

abbrev pub punctuation : SymbolSet
punctuation = codes ":=,"

-- `!`
abbrev pub bang : Regexp
bang = record { source = codes "!"; find = λ s. none }

abbrev pub step : Option (ℕ × ℕ) → Option (ℕ × ℕ)
step none = none
step (some (i, j)) = some (suc i, suc j)

abbrev pub find_digit : Bytes → Option (ℕ × ℕ)
find_digit [] = none
find_digit (b ∷ s) = if leb b'0' b && leb b b'9' then some (0, 1) else step (find_digit s)

-- `[0-9]`
abbrev pub digit : Regexp
digit = record { source = codes "[0-9]"; find = find_digit }

pub digit-NeverEmpty : NeverEmpty digit
digit-NeverEmpty [] i j h = absurd (cc)
digit-NeverEmpty (b ∷ s) zero zero h = ground (arith)
digit-NeverEmpty (b ∷ s) (suc i) zero h = ground (arith)
digit-NeverEmpty (b ∷ s) zero (suc j) h = omega arith
digit-NeverEmpty (b ∷ s) (suc i) (suc j) h = ground (arith, digit-NeverEmpty s i j)

abbrev pub run : Bytes → ℕ
run [] = 0
run (b ∷ s) = if b == b'x' then suc (run s) else 0

run-le : (s : Bytes) → run s ≤ length s
run-le [] = omega arith
run-le (b ∷ s) = ground (arith, run-le s)

-- `x*`
abbrev pub star_x : Regexp
star_x = record { source = codes "x*"; find = λ s. some (0, run s) }

pub star_x-IsRegexp : IsRegexp star_x
star_x-IsRegexp = record {
  ordered = λ s i j h. ground arith;
  within = λ s i j h. ground (arith, run-le s);
}

pub bang-KeepsText : All KeepsText (compile_special_matchers (bang ∷ []))
unfolding compile_special_matchers
bang-KeepsText = (inl refl, tt)

pub digit-KeepsText : All KeepsText (compile_special_matchers (digit ∷ []))
unfolding compile_special_matchers
digit-KeepsText =
    (inr (λ re e. let same : digit ≡ re = cc in subst NeverEmpty same digit-NeverEmpty), tt)

-- A text in which `index` finds no placeholder.
pub Lacks-index-none : (s : Bytes) → index s placeholder ≡ none → Lacks placeholder s
Lacks-index-none s h j = index-none s placeholder j h
