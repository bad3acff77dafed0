-- ===== src/TokenRecord/Counts.antt =====
-- The counts of `newTokenRecord` (token_record.go), over all rows.
use tipping.Base.{
  ℕ, ◌+◌, ◌%◌, ◌^◌, ◌≤◌, ◌<◌, ◌≡◌, ◌≢◌, refl, sym, ◌∙◌, Bool, false, ◌&&◌, ◌||◌, List, [], ◌∷◌,
  length, get_or, ◌==◌, if◌then◌else◌, arith, Bool-cases, inl, inr, All, fun_ext, subst, replicate,
  get_or-zeros, length-replicate,
}
use tipping.Token.{Token}
use tipping.Filter.{StaticFilter, keep}
use tipping.Template.{add32, u32_mod}
use tipping.Template.Rows.{Below}
use tipping.Template.Shared.{AllBelow}
use tipping.Shards.Schedules.{is_in}
use tipping.TokenRecord.{
  TokenRecord, RowState, count_token, count_row, new_token_pair_id, add_co, pair_with, pair_ids,
  record_rows, new_token_record,
}
use tipping.TokenRecord.Pairs.{new_token_pair_id-eq}
use tipping.TokenRecord.Row.{kept_in, IsDistinct, IsRow, count_token-IsRow}

count_row-IsRow :
    (n epoch w : ℕ) (occ : List ℕ) (filter : StaticFilter) (toks : List Token) (rids : List ℕ)
    (met : ℕ → Bool) (st : RowState)
    → Below n rids
    → IsRow n epoch w occ met st
    → IsRow n epoch w occ
        (λ id. met id || kept_in filter toks rids id)
        (count_row filter epoch w toks rids st)
unfolding count_row
count_row-IsRow n epoch w occ filter [] rids met st lt h =
    subst (λ m. IsRow n epoch w occ m st) (fun_ext (λ id. ground arith)) h
count_row-IsRow n epoch w occ filter (tok ∷ toks) [] met st lt h =
    subst (λ m. IsRow n epoch w occ m st) (fun_ext (λ id. ground arith)) h
count_row-IsRow n epoch w occ filter (tok ∷ toks) (i ∷ rids) met st (hi, lt) h =
    elim (Bool-cases (keep filter tok.kind)) [
      | inl e ↦
          let st' = count_token epoch w i st in
          rw e (
            subst (λ m. IsRow n epoch w occ m (count_row filter epoch w toks rids st'))
              (fun_ext (λ id. ground arith))
              (count_row-IsRow n epoch w occ filter toks rids (λ id. met id || i == id) st' lt
                (count_token-IsRow n epoch w occ met st i hi h)))
      | inr e ↦ rw e (count_row-IsRow n epoch w occ filter toks rids met st lt h)
    ]

-- Both ids are in the list, and stand in it apart.
abbrev both_in : ℕ → ℕ → List ℕ → Bool
both_in a b ids = is_in a ids && is_in b ids

module _ (w a b : ℕ) (ha : a < 2 ^ 32) (hb : b < 2 ^ 32) (apart : a ≢ b) where
  pair_with-at :
      (i : ℕ) (ids : List ℕ) (co : ℕ → ℕ)
      → i < 2 ^ 32
      → All (λ j. j < 2 ^ 32) ids
      → IsDistinct ids
      → is_in i ids ≡ false
      → pair_with w i ids co (new_token_pair_id a b) ≡ (
          if i == a && is_in b ids || i == b && is_in a ids
          then add32 (co (new_token_pair_id a b)) w
          else co (new_token_pair_id a b))
  unfolding pair_with
  pair_with-at i [] co hi h d n = ground arith
  pair_with-at i (j ∷ ids) co hi (hj, h) (dj, d) n =
      pair_with-at i ids (add_co (new_token_pair_id i j) w co) hi h d (ground arith)
      ∙ ground (arith, new_token_pair_id-eq a b i j ha hb hi hj, index a dj, index b dj)
    where
      index : (x : ℕ) → is_in j ids ≡ false → j ≡ x → is_in x ids ≡ false
      index x e q = subst (λ y. is_in y ids ≡ false) q e

  pair_ids-at :
      (ids : List ℕ) (co : ℕ → ℕ)
      → All (λ j. j < 2 ^ 32) ids
      → IsDistinct ids
      → pair_ids w ids co (new_token_pair_id a b) ≡ (
          if both_in a b ids
          then add32 (co (new_token_pair_id a b)) w
          else co (new_token_pair_id a b))
  unfolding pair_ids
  pair_ids-at [] co h d = refl
  pair_ids-at (i ∷ ids) co (hi, h) (di, d) =
      pair_ids-at ids (pair_with w i ids co) h d
      ∙ ground (arith, pair_with-at i ids co hi h d di, index a, index b)
    where
      index : (x : ℕ) → i ≡ x → is_in x ids ≡ false
      index x q = subst (λ y. is_in y ids ≡ false) q di

-- The sum of the weights of the rows that pass a test.
abbrev pub weigh : (List Token → List ℕ → Bool) → List ℕ → List (List Token) → List (List ℕ) → ℕ
weigh test (w ∷ weights) (toks ∷ tokenized) (rids ∷ row_ids) =
    (if test toks rids then w else 0) + weigh test weights tokenized row_ids
weigh test weights tokenized row_ids = 0

-- A row that has both ids.
abbrev pub kept_both : StaticFilter → ℕ → ℕ → List Token → List ℕ → Bool
kept_both filter a b toks rids = kept_in filter toks rids a && kept_in filter toks rids b

-- What the loop over the rows has counted, from the counts before.
record IsCounted (filter : StaticFilter) (weights : List ℕ) (tokenized : List (List Token))
    (row_ids : List (List ℕ)) (r r' : TokenRecord) : Type 0 where
  occ_size : length r'.occ ≡ length r.occ
  occurrences :
      (id : ℕ)
      → get_or r.occ id 0 < u32_mod
      → get_or r'.occ id 0
        ≡ (get_or r.occ id 0
            + weigh (λ toks rids. kept_in filter toks rids id) weights tokenized row_ids)
          % u32_mod
  pairs :
      (a b : ℕ)
      → a < 2 ^ 32
      → b < 2 ^ 32
      → a ≢ b
      → r.co (new_token_pair_id a b) < u32_mod
      → r'.co (new_token_pair_id a b)
        ≡ (r.co (new_token_pair_id a b) + weigh (kept_both filter a b) weights tokenized row_ids)
          % u32_mod

nothing-IsCounted :
    (filter : StaticFilter) (weights : List ℕ) (tokenized : List (List Token))
    (row_ids : List (List ℕ)) (r : TokenRecord)
    → ((test : List Token → List ℕ → Bool) → weigh test weights tokenized row_ids ≡ 0)
    → IsCounted filter weights tokenized row_ids r r
nothing-IsCounted filter weights tokenized row_ids r e = record {
  occ_size = refl;
  occurrences = λ id h. omega (arith, e (λ toks rids. kept_in filter toks rids id));
  pairs = λ a b ha hb apart h. omega (arith, e (kept_both filter a b));
}

start-IsRow :
    (n epoch w : ℕ) (seen_epoch occ : List ℕ)
    → length seen_epoch ≡ n
    → length occ ≡ n
    → ((id : ℕ) → get_or seen_epoch id 0 ≤ epoch)
    → IsRow n
        (epoch + 1)
        w
        occ
        (λ id. false)
        (record { seen_epoch = seen_epoch; ids = []; occ = occ })
start-IsRow n epoch w seen_epoch occ e f h = record {
  seen_size = e;
  occ_size = f;
  below = λ id. omega (arith, h id);
  seen = λ id. ground (arith, h id);
  held = λ id. refl;
  distinct = tt;
  small = tt;
  counted = λ id. refl;
}

Below-32 : (n : ℕ) (ids : List ℕ) → n ≤ u32_mod → Below n ids → All (λ j. j < 2 ^ 32) ids
Below-32 n [] le h = tt
Below-32 n (i ∷ ids) le (hi, h) = (omega arith, Below-32 n ids le h)

-- One row, and then the others.
row-IsCounted :
    (filter : StaticFilter) (n epoch w : ℕ) (weights : List ℕ) (toks : List Token) (rids : List ℕ)
    (tokenized : List (List Token)) (row_ids : List (List ℕ)) (r r' : TokenRecord) (st : RowState)
    → n ≤ u32_mod
    → length r.occ ≡ n
    → IsRow n epoch w r.occ (λ id. false || kept_in filter toks rids id) st
    → IsCounted filter weights tokenized row_ids
        (record { occ = st.occ; co = pair_ids w st.ids r.co })
        r'
    → IsCounted filter (w ∷ weights) (toks ∷ tokenized) (rids ∷ row_ids) r r'
row-IsCounted filter n epoch w weights toks rids tokenized row_ids r r' st le size h c = record {
  occ_size = c.occ_size ∙ h.occ_size ∙ sym size;
  occurrences = λ id small. ground (arith, h.counted id, c.occurrences id);
  pairs = λ a b ha hb apart small. ground (
    arith,
    pair_ids-at w a b ha hb apart st.ids r.co (Below-32 n st.ids le h.small) h.distinct,
    h.held a,
    h.held b,
    c.pairs a b ha hb apart,
  );
}

record_rows-IsCounted :
    (filter : StaticFilter) (n epoch : ℕ) (weights : List ℕ) (tokenized : List (List Token))
    (row_ids : List (List ℕ)) (seen_epoch : List ℕ) (r : TokenRecord)
    → n ≤ u32_mod
    → length r.occ ≡ n
    → length seen_epoch ≡ n
    → ((id : ℕ) → get_or seen_epoch id 0 ≤ epoch)
    → epoch + length tokenized < u32_mod
    → AllBelow n row_ids
    → IsCounted filter weights tokenized row_ids r
        (record_rows filter epoch weights tokenized row_ids seen_epoch r)
unfolding record_rows
record_rows-IsCounted filter n epoch [] tokenized row_ids seen r le e f k fits h =
    nothing-IsCounted filter [] tokenized row_ids r (λ test. refl)
record_rows-IsCounted filter n epoch (w ∷ weights) [] row_ids seen r le e f k fits h =
    nothing-IsCounted filter (w ∷ weights) [] row_ids r (λ test. refl)
record_rows-IsCounted filter n epoch (w ∷ weights) (toks ∷ tokenized) [] seen r le e f k fits h =
    nothing-IsCounted filter (w ∷ weights) (toks ∷ tokenized) [] r (λ test. refl)
record_rows-IsCounted filter n epoch (w ∷ weights) (toks ∷ tokenized) (rids ∷ row_ids) seen r le e f
      k fits (hi, h) =
    let next : add32 epoch 1 ≡ epoch + 1 = omega arith in
    let begin : RowState = record { seen_epoch = seen; ids = []; occ = r.occ } in
    let st = count_row filter (epoch + 1) w toks rids begin in
    let row =
      count_row-IsRow n (epoch + 1) w r.occ filter toks rids (λ id. false) begin hi
        (start-IsRow n epoch w seen r.occ f e k) in
    rw next (
      row-IsCounted filter n (epoch + 1) w weights toks rids tokenized row_ids r _ st le e row (
        record_rows-IsCounted filter n (epoch + 1) weights tokenized row_ids st.seen_epoch
          (record { occ = st.occ; co = pair_ids w st.ids r.co }) le row.occ_size row.seen_size
          row.below (omega arith) h))

new_token_record-weigh :
    (filter : StaticFilter) (weights : List ℕ) (tokenized : List (List Token))
    (row_ids : List (List ℕ)) (num_ids : ℕ)
    → num_ids ≤ u32_mod
    → length tokenized < u32_mod
    → AllBelow num_ids row_ids
    → ((id : ℕ)
        → get_or (new_token_record filter weights tokenized row_ids num_ids).occ id 0
          ≡ weigh (λ toks rids. kept_in filter toks rids id) weights tokenized row_ids % u32_mod)
      × ((a b : ℕ)
          → a < 2 ^ 32
          → b < 2 ^ 32
          → a ≢ b
          → (new_token_record filter weights tokenized row_ids num_ids).co (new_token_pair_id a b)
            ≡ weigh (kept_both filter a b) weights tokenized row_ids % u32_mod)
unfolding new_token_record
new_token_record-weigh filter weights tokenized row_ids num_ids le fits h =
    let zeros : List ℕ = replicate num_ids 0 in
    let start : TokenRecord = record { occ = zeros; co = λ k. 0 } in
    let zero_at = get_or-zeros num_ids in
    let c =
      record_rows-IsCounted filter num_ids 0 weights tokenized row_ids zeros start le
        (length-replicate num_ids 0) (length-replicate num_ids 0) (λ id. omega (arith, zero_at id))
        (omega arith) h in
    (
      (λ id. omega (arith, zero_at id, c.occurrences id (omega (arith, zero_at id)))),
      (λ a b ha hb apart. omega (arith, c.pairs a b ha hb apart (omega arith))),
    )

pub occ-new_token_record :
    (filter : StaticFilter) (weights : List ℕ) (tokenized : List (List Token))
    (row_ids : List (List ℕ)) (num_ids id : ℕ)
    → num_ids ≤ u32_mod
    → length tokenized < u32_mod
    → AllBelow num_ids row_ids
    → get_or (new_token_record filter weights tokenized row_ids num_ids).occ id 0
      ≡ weigh (λ toks rids. kept_in filter toks rids id) weights tokenized row_ids % u32_mod
occ-new_token_record filter weights tokenized row_ids num_ids id le fits below =
    (new_token_record-weigh filter weights tokenized row_ids num_ids le fits below).0 id

pub co-new_token_record :
    (filter : StaticFilter) (weights : List ℕ) (tokenized : List (List Token))
    (row_ids : List (List ℕ)) (num_ids a b : ℕ)
    → num_ids ≤ u32_mod
    → length tokenized < u32_mod
    → AllBelow num_ids row_ids
    → a < 2 ^ 32
    → b < 2 ^ 32
    → a ≢ b
    → (new_token_record filter weights tokenized row_ids num_ids).co (new_token_pair_id a b)
      ≡ weigh (kept_both filter a b) weights tokenized row_ids % u32_mod
co-new_token_record filter weights tokenized row_ids num_ids a b le fits below =
    (new_token_record-weigh filter weights tokenized row_ids num_ids le fits below).1 a b
