-- ===== src/Parse.antt =====
-- `parse` of parser.go from end to end, with new buffers and one worker, where templates and masks
-- are wanted.
pub mod Inputs
pub mod Lengths
use tipping.Base.{
  ℕ, zero, suc, ◌+◌, ◌-◌, ◌^◌, Bool, true, false, List, [], ◌∷◌, ◌++◌, Option, none, some, length,
  get_or, map, replicate, Bytes, codes, ltb, if◌then◌else◌,
}
use tipping.Utf8.{Unicode}
use tipping.Symbols.{
  SymbolSet, SymbolTable, new_symbol_set, new_symbol_table, symbol_set_subset, symbol_set_equal,
}
use tipping.Token.{Token}
use tipping.Tokenizer.{Regexp, Tokenizer, new_tokenizer, clone_with_symbols, tokenize}
use tipping.Filter.{StaticFilter}
use tipping.Dict.{Dict}
use tipping.Dedup.{Lines, dedup}
use tipping.Intern.{intern_rows}
use tipping.TokenRecord.{TokenRecord, new_token_record}
use tipping.Graph.{AnchorScratch, new_anchor_scratch, anchor_tokens}
use tipping.Anchors.{canonical_anchor_key}
use tipping.Groups.{KeyedRow, group_rows}
use tipping.Template.{CommonScratch}
use tipping.Retokenize.{retokenize_tokens}
use tipping.Clusters.{Corpus, Clustering, add_clusters, start_clusters, sample_positions}

-- The fields of `Parser`, with what the code takes from the machine and from floating-point numbers:
-- whether the vector kernel is there, the tests `float64(co) > float64(occ) * threshold` and
-- `sample >= 1`, and the numbers `math.Ceil` and `math.Round` of `samplePositions`.
pub record Parser : Type 0 where
  pub simd : Bool
  pub unicode : Unicode
  pub exceeds : ℕ → ℕ → Bool
  pub whole_sample : Bool
  pub ceiling : ℕ → ℕ
  pub nearest : ℕ → ℕ → ℕ
  pub special_whites : List Regexp
  pub special_blacks : List Regexp
  pub symbols : SymbolSet
  pub filter : StaticFilter

-- The loop of the serial path of `groupByAnchorTokens`, up to `addRow`.
unfoldable pub keyed_rows :
    (ℕ → ℕ → Bool) → TokenRecord → List (List Token) → List (List ℕ) → AnchorScratch → List KeyedRow
keyed_rows exceeds idep (toks ∷ tokenized) (ids ∷ row_ids) scratch =
    let a = anchor_tokens exceeds idep toks ids scratch in
    canonical_anchor_key a.0 ∷ keyed_rows exceeds idep tokenized row_ids a.1
keyed_rows exceeds idep tokenized row_ids scratch = []

unfoldable pub all_punctuation : SymbolSet
all_punctuation = new_symbol_set (codes "!\"#$%&'()*+,-./:;<=>?@[\\]^_`{|}~")

-- `richTokenized`, where the symbols are not those of all punctuation.
unfoldable pub rich_rows : Parser → List Bytes → List (List Token) → List (List Token)
rich_rows p unique_msgs tokenized =
    if symbol_set_subset p.symbols all_punctuation
    then map (retokenize_tokens p.simd p.unicode (new_symbol_table all_punctuation)) tokenized
    else map
        (tokenize p.simd p.unicode (
          clone_with_symbols (new_tokenizer p.special_whites p.special_blacks p.symbols)
            (new_symbol_table all_punctuation)))
        unique_msgs

-- `canReuse && symbolSetEqual(…)`
abbrev pub same_symbols : Parser → Bool
same_symbols p =
    if symbol_set_subset p.symbols all_punctuation
    then symbol_set_equal p.symbols all_punctuation
    else false

-- `richTokenized`, `richRowIDs` and `interner` after them.
abbrev pub rich :
    Parser
    → List Bytes
    → List (List Token)
    → List (List ℕ) × Dict ℕ
    → List (List Token) × List (List ℕ) × Dict ℕ
rich p unique_msgs tokenized primary =
    let again = rich_rows p unique_msgs tokenized in
    let interned = intern_rows again primary.1 in
    if same_symbols p then (tokenized, primary.0, primary.1) else (again, interned.0, interned.1)

abbrev pub primary_rows : Parser → List Bytes → List (List Token)
primary_rows p unique_msgs =
    map (tokenize p.simd p.unicode (new_tokenizer p.special_whites p.special_blacks p.symbols))
      unique_msgs

-- What the loop over the groups reads.
unfoldable pub corpus_of : Parser → List Bytes → Corpus
corpus_of p messages =
    let l = dedup messages in
    let tokenized = primary_rows p l.unique_msgs in
    let r = rich p l.unique_msgs tokenized (intern_rows tokenized []) in
    record {
      rich_tokenized = r.0;
      rich_row_ids = r.1;
      row_of = l.row_of;
      filter = p.filter;
      num_ids = length r.2;
      sampling = if p.whole_sample then false else true;
      positions = λ n. sample_positions p.whole_sample (p.ceiling n) (p.nearest n) n;
    }

-- The key and the anchors of each distinct line.
unfoldable pub keyed_lines : Parser → List Bytes → List KeyedRow
unfolding keyed_rows
keyed_lines p messages =
    let l = dedup messages in
    let tokenized = primary_rows p l.unique_msgs in
    let interned = intern_rows tokenized [] in
    let n = length interned.1 in
    keyed_rows p.exceeds (new_token_record p.filter l.counts tokenized interned.0 n) tokenized
      interned.0 (new_anchor_scratch n)

abbrev pub new_common_scratch : CommonScratch
new_common_scratch = record { mark = []; spare = []; base = 0 }

abbrev pub max_messages : ℕ
max_messages = 2 ^ 31 - 1

unfoldable pub parse_lines : Parser → List Bytes → Clustering
parse_lines p messages =
    let l = dedup messages in
    add_clusters (corpus_of p messages) (group_rows (keyed_lines p messages) l.row_of)
      (start_clusters (length messages) (replicate (length l.unique_msgs) 0) new_common_scratch)

-- `none` is the panic on more messages than there are line ids.
unfoldable pub parse : Parser → List Bytes → Option Clustering
parse p [] = some (start_clusters 0 [] new_common_scratch)
parse p (msg ∷ messages) =
    let out = parse_lines p (msg ∷ messages) in
    if ltb max_messages (length (msg ∷ messages)) then none else some out
