-- ===== src/Parse/Lengths.antt =====
-- The masks of `parse` (parser.go) beside the messages.
use tipping.Base.{
  subst, ℕ, ◌≤◌, ◌<◌, ◌≡◌, refl, sym, ap, ap₂, ◌∙◌, false, List, [], ◌∷◌, none, some, length,
  length-map, length-replicate, replicate, get_or, get_elem?, Bytes, ltb, if◌then◌else◌, arith, inl,
  inr, Bool-cases, All, AreBytes,
}
use tipping.Dict.{Dict}
use tipping.Symbols.{symbol_set_subset, new_symbol_table}
use tipping.Split.Lossless.{text_of}
use tipping.Tokenizer.{new_tokenizer, clone_with_symbols, tokenize, compile_special_matchers}
use tipping.Tokenizer.Lossless.{KeepsText, text_of-tokenize}
use tipping.Dedup.{dedup}
use tipping.Dedup.Rows.{length-LeadTo, dedup-IsDedup}
use tipping.Intern.{intern_rows}
use tipping.Intern.Ids.{AllHaveIds, intern_rows-HasIds}
use tipping.Groups.{group_rows}
use tipping.Groups.Join.{keys_of}
use tipping.Retokenize.{retokenize_tokens}
use tipping.Retokenize.Size.{text_of-retokenize_tokens}
use tipping.Clusters.{add_clusters, Clustering, start_clusters}
use tipping.Clusters.Numbers.{cluster_ids-rank}
use tipping.Clusters.Masks.{is_some, length-masks}
use tipping.Parse.{
  Parser, all_punctuation, rich_rows, same_symbols, rich, primary_rows, corpus_of, keyed_lines,
  new_common_scratch, max_messages, parse_lines, parse,
}
use tipping.Parse.Inputs.{
  LeadTo-below, LeadTo-at, All-at, get_or-mapped, get_elem?-mapped, AllHaveIds-aligned,
  length-keyed_rows, HasBytes-text_of,
}

module _ (p : Parser) (unique : List Bytes) (r : ℕ) (m : Bytes) (at : get_elem? unique r ≡ some m)
    (hw : All KeepsText (compile_special_matchers p.special_whites))
    (hb : All KeepsText (compile_special_matchers p.special_blacks)) (hm : AreBytes m) where
  primary_text : text_of (get_or (primary_rows p unique) r []) ≡ m
  primary_text =
      ap text_of (
        get_or-mapped
          (tokenize p.simd p.unicode (new_tokenizer p.special_whites p.special_blacks p.symbols))
          unique r m at)
      ∙ text_of-tokenize p.simd p.unicode p.special_whites p.special_blacks p.symbols m hw hb hm

  again_text : text_of (get_or (rich_rows p unique (primary_rows p unique)) r []) ≡ m
  unfolding rich_rows clone_with_symbols new_tokenizer
  again_text = elim (Bool-cases (symbol_set_subset p.symbols all_punctuation)) [
    | inl e ↦
        let row =
          tokenize p.simd p.unicode (new_tokenizer p.special_whites p.special_blacks p.symbols) m in
        let spelled : text_of row ≡ m =
          text_of-tokenize p.simd p.unicode p.special_whites p.special_blacks p.symbols m hw hb
            hm in
        let bytes = HasBytes-text_of row (subst AreBytes (sym spelled) hm) in
        rw e (
          ap text_of (
            get_or-mapped (retokenize_tokens p.simd p.unicode (new_symbol_table all_punctuation))
              (primary_rows p unique) r row
              (get_elem?-mapped
                (tokenize p.simd p.unicode
                  (new_tokenizer p.special_whites p.special_blacks p.symbols))
                unique r m at))
          ∙ text_of-retokenize_tokens p.simd p.unicode all_punctuation row bytes
          ∙ spelled)
    | inr e ↦ rw e (
        ap text_of (
          get_or-mapped
            (tokenize p.simd p.unicode
              (new_tokenizer p.special_whites p.special_blacks all_punctuation))
            unique r m at)
        ∙ text_of-tokenize p.simd p.unicode p.special_whites p.special_blacks all_punctuation m hw
            hb hm)
  ]

  rich_text :
      (primary : List (List ℕ) × Dict ℕ)
      → text_of (get_or (rich p unique (primary_rows p unique) primary).0 r []) ≡ m
  rich_text primary = elim (Bool-cases (same_symbols p)) [
    | inl e ↦ rw e primary_text
    | inr e ↦ rw e again_text
  ]

-- The rows of the lines, with ids for each token.
module _ (p : Parser) (messages : List Bytes) where
  primary_ids :
      AllHaveIds
        (intern_rows (primary_rows p (dedup messages).unique_msgs) []).1
        (primary_rows p (dedup messages).unique_msgs)
        (intern_rows (primary_rows p (dedup messages).unique_msgs) []).0
  primary_ids = (intern_rows-HasIds (primary_rows p (dedup messages).unique_msgs) []).0

  rich_aligned :
      (r : ℕ)
      → length (get_or (corpus_of p messages).rich_row_ids r [])
        ≡ length (get_or (corpus_of p messages).rich_tokenized r [])
  unfolding corpus_of
  rich_aligned r =
      let unique = (dedup messages).unique_msgs in
      let tokenized = primary_rows p unique in
      let first = intern_rows-HasIds tokenized [] in
      let again = rich_rows p unique tokenized in
      let second = intern_rows-HasIds again (intern_rows tokenized []).1 in
      elim (Bool-cases (same_symbols p)) [
        | inl e ↦ rw e (AllHaveIds-aligned _ tokenized (intern_rows tokenized []).0 r first.0)
        | inr e ↦ rw e (
            AllHaveIds-aligned _ again (intern_rows again (intern_rows tokenized []).1).0 r
              second.0)
      ]

  length-keyed_lines :
      length (keys_of (keyed_lines p messages)) ≡ length (dedup messages).unique_msgs
  unfolding keyed_lines
  length-keyed_lines =
      let unique = (dedup messages).unique_msgs in
      length-map (keyed_lines p messages) (λ keyed. keyed.0)
      ∙ length-keyed_rows p.exceeds _ _ (primary_rows p unique) _ _ primary_ids
      ∙ length-map unique
          (tokenize p.simd p.unicode (new_tokenizer p.special_whites p.special_blacks p.symbols))

length-parse_lines :
    (p : Parser) (messages : List Bytes) (j : ℕ)
    → All KeepsText (compile_special_matchers p.special_whites)
    → All KeepsText (compile_special_matchers p.special_blacks)
    → All AreBytes messages
    → length messages ≤ max_messages
    → j < length messages
    → length (get_or (parse_lines p messages).masks j []) ≡ (
        if is_some (get_or (parse_lines p messages).clusters j none)
        then length (get_or messages j [])
        else 0)
unfolding parse_lines corpus_of
length-parse_lines p messages j hw hb hm small lt =
    let l = dedup messages in
    let c = corpus_of p messages in
    let rows = keyed_lines p messages in
    let d = dedup-IsDedup messages (omega arith) in
    let size = length-LeadTo l.unique_msgs l.row_of messages d.leads in
    let row_pos : List ℕ = replicate (length l.unique_msgs) 0 in
    let same = length-keyed_lines p messages in
    let below : All (λ r. r < length (keys_of rows)) l.row_of =
      subst (λ n. All (λ r. r < n) l.row_of) (sym same)
        (LeadTo-below l.unique_msgs l.row_of messages d.leads) in
    let inside : j < length l.row_of = omega (arith, size) in
    let at = LeadTo-at l.unique_msgs l.row_of messages j d.leads lt in
    let spelled =
      rich_text p l.unique_msgs (get_or l.row_of j 0) (get_or messages j []) at hw hb
        (All-at messages j hm lt) (intern_rows (primary_rows p l.unique_msgs) []) in
    let masks =
      length-masks c rows row_pos new_common_scratch j below inside
        (length-replicate (length l.unique_msgs) 0 ∙ sym same) (rich_aligned p messages) in
    let ids = cluster_ids-rank c rows row_pos new_common_scratch j below inside in
    subst
      (λ n.
        length (
          get_or
            (add_clusters c (group_rows rows l.row_of)
              (start_clusters n row_pos new_common_scratch)).masks
            j [])
        ≡ (if is_some (
              get_or
                (add_clusters c (group_rows rows l.row_of)
                  (start_clusters n row_pos new_common_scratch)).clusters
                j none)
            then length (get_or messages j [])
            else 0))
      size (masks ∙ ap₂ (λ o n. if is_some o then n else 0) (sym ids) (ap length spelled))

-- parse returns on at most 2^31 - 1 messages of bytes, and the mask of each message is as long as
-- the message where the message has a cluster, and empty where it has none, if no special pattern
-- that is a regular expression has an empty match.
pub length-parse :
    (p : Parser) (messages : List Bytes) (j : ℕ)
    → All KeepsText (compile_special_matchers p.special_whites)
    → All KeepsText (compile_special_matchers p.special_blacks)
    → All AreBytes messages
    → length messages ≤ max_messages
    → j < length messages
    → (out : Clustering) × (parse p messages ≡ some out)
      × (length (get_or out.masks j [])
          ≡ (if is_some (get_or out.clusters j none) then length (get_or messages j []) else 0))
unfolding parse
length-parse p [] j hw hb hm small lt = absurd (omega arith)
length-parse p (m ∷ messages) j hw hb hm small lt =
    let fits : ltb max_messages (length (m ∷ messages)) ≡ false = ground arith in
    (
      parse_lines p (m ∷ messages),
      rw fits refl,
      length-parse_lines p (m ∷ messages) j hw hb hm small lt,
    )
