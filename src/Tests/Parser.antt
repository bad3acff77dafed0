-- ===== src/Tests/Parser.antt =====
-- Counts, anchors, groups and clusters of small corpora.
use tipping.Base.{
  ◌≤◌, Bool, ℕ, ◌*◌, ◌≡◌, refl, true, List, [], ◌∷◌, none, some, length, get_or, map, Bytes, codes,
  arith, All, AreBytes, ltb, if◌then◌else◌,
}
use tipping.Token.{Token, alphabetic, numeric, impure}
use tipping.Filter.{StaticFilter}
use tipping.Dict.{lookup}
use tipping.Split.Lossless.{text_of}
use tipping.Symbols.{new_symbol_table}
use tipping.Dedup.{dedup, add_lines, add_line}
use tipping.Dedup.Rows.{IsDedup, dedup-IsDedup}
use tipping.Intern.{intern_rows, intern_row, intern_slice}
use tipping.Template.{u32_mod}
use tipping.Intern.Ids.{AllHaveIds, Keeps, IsInterner, no_ids-IsInterner, intern_rows-AllHaveIds}
use tipping.Shards.{Schedule, write_rows, shard_ranges, shard_loop, rows_in, rows_from}
use tipping.Shards.Schedules.{write_rows-Schedule}
use tipping.TokenRecord.{new_token_pair_id}
use tipping.TokenRecord.Weights.{by_line, by_message, occ-by_line, co-by_line}
use tipping.Retokenize.{retokenize_tokens}
use tipping.Retokenize.Size.{text_of-retokenize_tokens}
use tipping.Clusters.{Clustering}
use tipping.Clusters.Masks.{is_some}
use tipping.Parse.{Parser, parse}
use tipping.Parse.Lengths.{length-parse}
use tipping.Tests.Samples.{ascii_tables, punctuation, bang, digit, bang-KeepsText, digit-KeepsText}

abbrev word : Bytes → Token
word s = record { kind = alphabetic; slice = s }

-- "go 7", "no", and "go 7" again.
abbrev three_lines : List Bytes
three_lines = codes "go 7" ∷ codes "no" ∷ codes "go 7" ∷ []

three_lines-AreBytes : All AreBytes three_lines
three_lines-AreBytes =
    let go_seven : AreBytes (codes "go 7") =
      (omega arith, (omega arith, (omega arith, (omega arith, tt)))) in
    (go_seven, ((omega arith, (omega arith, tt)), (go_seven, tt)))

abbrev all_words : StaticFilter
all_words = record { alphabetic_in = true; numeric_in = true; impure_in = true }

abbrev half : ℕ → ℕ → Bool
half co occ = ltb occ (co * 2)

abbrev simple_parser : Parser
simple_parser = record {
  simd = true;
  unicode = ascii_tables;
  exceeds = half;
  whole_sample = true;
  ceiling = λ n. n;
  nearest = λ n i. i;
  special_whites = digit ∷ [];
  special_blacks = bang ∷ [];
  symbols = punctuation;
  filter = all_words;
}

length-parse_example :
    (out : Clustering) × (parse simple_parser three_lines ≡ some out)
    × (length (get_or out.masks 2 []) ≡ (if is_some (get_or out.clusters 2 none) then 4 else 0))
length-parse_example =
    length-parse simple_parser three_lines 2 digit-KeepsText bang-KeepsText three_lines-AreBytes
      (omega arith) (omega arith)

dedup-IsDedup_example : IsDedup three_lines (dedup three_lines)
dedup-IsDedup_example = dedup-IsDedup three_lines (omega arith)

abbrev two_tokens : List Token
two_tokens = word (codes "go") ∷ record { kind = numeric; slice = codes "7" } ∷ []

two_rows-fit : length (intern_rows (two_tokens ∷ two_tokens ∷ []) []).1 ≤ u32_mod
unfolding intern_rows intern_row intern_slice lookup
two_rows-fit = omega arith

intern_rows-AllHaveIds_example :
    AllHaveIds
      (intern_rows (two_tokens ∷ two_tokens ∷ []) []).1
      (two_tokens ∷ two_tokens ∷ [])
      (intern_rows (two_tokens ∷ two_tokens ∷ []) []).0
    × Keeps [] (intern_rows (two_tokens ∷ two_tokens ∷ []) []).1
    × IsInterner (intern_rows (two_tokens ∷ two_tokens ∷ []) []).1
intern_rows-AllHaveIds_example =
    intern_rows-AllHaveIds (two_tokens ∷ two_tokens ∷ []) [] no_ids-IsInterner two_rows-fit

-- The second worker writes first.
second_first : Schedule (map rows_in (shard_ranges 2 2)) (1 ∷ 0 ∷ [])
unfolding shard_ranges shard_loop
second_first =
    Schedule.write ((0 ∷ []) ∷ []) 1 [] [] refl
      (Schedule.write [] 0 [] ([] ∷ []) refl (Schedule.done (refl, (refl, tt))))

write_rows-Schedule_example :
    write_rows (λ row. row * 10) (1 ∷ 0 ∷ []) (5 ∷ 5 ∷ []) ≡ map (λ row. row * 10) (rows_from 0 2)
write_rows-Schedule_example =
    write_rows-Schedule (λ row. row * 10) 2 2 (1 ∷ 0 ∷ []) (5 ∷ 5 ∷ []) (omega arith) refl
      second_first

abbrev both_ids : Bytes → List ℕ
both_ids m = 0 ∷ 1 ∷ []

occ-by_line_example :
    get_or (by_line all_words (λ m. two_tokens) both_ids 2 three_lines).occ 1 0
    ≡ get_or (by_message all_words (λ m. two_tokens) both_ids 2 three_lines).occ 1 0
unfolding dedup add_lines add_line lookup
occ-by_line_example =
    occ-by_line all_words (λ m. two_tokens) both_ids 2 1 three_lines (omega arith) (omega arith)
      ((omega arith, (omega arith, tt)), ((omega arith, (omega arith, tt)), tt))

co-by_line_example :
    (by_line all_words (λ m. two_tokens) both_ids 2 three_lines).co (new_token_pair_id 0 1)
    ≡ (by_message all_words (λ m. two_tokens) both_ids 2 three_lines).co (new_token_pair_id 0 1)
unfolding dedup add_lines add_line lookup
co-by_line_example =
    co-by_line all_words (λ m. two_tokens) both_ids 2 0 1 three_lines (omega arith) (omega arith)
      ((omega arith, (omega arith, tt)), ((omega arith, (omega arith, tt)), tt)) (omega arith)
      (omega arith) (λ e. omega arith)

text_of-retokenize_tokens_example :
    text_of (
      retokenize_tokens true ascii_tables
        (new_symbol_table punctuation)
        (word (codes "a") ∷ record { kind = impure; slice = codes "b=1" } ∷ []))
    ≡ codes "ab=1"
text_of-retokenize_tokens_example =
    text_of-retokenize_tokens true ascii_tables punctuation
      (word (codes "a") ∷ record { kind = impure; slice = codes "b=1" } ∷ [])
      ((omega arith, tt), ((omega arith, (omega arith, (omega arith, tt))), tt))
