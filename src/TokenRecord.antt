-- ===== src/TokenRecord.antt =====
-- token_record.go: how many lines hold a token, and a pair of tokens.
pub mod Pairs
pub mod Row
pub mod Counts
pub mod Weights
use tipping.Base.{
  ℕ, zero, suc, ◌+◌, ◌*◌, ◌%◌, ◌^◌, Bool, List, [], ◌∷◌, ◌++◌, length, get_or, set, replicate, ltb,
  ◌==◌, if◌then◌else◌, bit_or,
}
use tipping.Token.{Token}
use tipping.Filter.{StaticFilter, keep}
use tipping.Template.{add32}

-- `uint64(t1)<<32 | uint64(t2)`, the larger id first.
unfoldable pub new_token_pair_id : ℕ → ℕ → ℕ
new_token_pair_id t1 t2 =
    if ltb t1 t2 then bit_or (t2 * 2 ^ 32 % 2 ^ 64) t1 else bit_or (t1 * 2 ^ 32 % 2 ^ 64) t2

-- `co` is a Go map from numbers to numbers, which reads 0 where it has no key.
pub record TokenRecord : Type 0 where
  pub occ : List ℕ
  pub co : ℕ → ℕ

-- `record.co[key] += w`
abbrev pub add_co : ℕ → ℕ → (ℕ → ℕ) → ℕ → ℕ
add_co key w co k = if k == key then add32 (co k) w else co k

-- The variables of the loop over the tokens of a row.
pub record RowState : Type 0 where
  pub seen_epoch : List ℕ
  pub ids : List ℕ
  pub occ : List ℕ

-- The body of that loop, for a token that the filter keeps.
unfoldable pub count_token : ℕ → ℕ → ℕ → RowState → RowState
count_token epoch w id st = if get_or st.seen_epoch id 0 == epoch then st else record {
  seen_epoch = set st.seen_epoch id epoch;
  ids = st.ids ++ id ∷ [];
  occ = set st.occ id (add32 (get_or st.occ id 0) w);
}

unfoldable pub count_row : StaticFilter → ℕ → ℕ → List Token → List ℕ → RowState → RowState
count_row filter epoch w (tok ∷ toks) (id ∷ rids) st =
    count_row filter epoch w toks rids
      (if keep filter tok.kind then count_token epoch w id st else st)
count_row filter epoch w toks rids st = st

-- The inner loop over `j`, for one `i`, and the loop over `i`.
unfoldable pub pair_with : ℕ → ℕ → List ℕ → (ℕ → ℕ) → ℕ → ℕ
pair_with w i [] co = co
pair_with w i (j ∷ ids) co = pair_with w i ids (add_co (new_token_pair_id i j) w co)

unfoldable pub pair_ids : ℕ → List ℕ → (ℕ → ℕ) → ℕ → ℕ
pair_ids w [] co = co
pair_ids w (i ∷ ids) co = pair_ids w ids (pair_with w i ids co)

-- The loop over the rows. `weights` holds `counts[idx]`, or 1 where `counts` is nil.
unfoldable pub record_rows :
    StaticFilter
    → ℕ
    → List ℕ
    → List (List Token)
    → List (List ℕ)
    → List ℕ
    → TokenRecord
    → TokenRecord
record_rows filter epoch (w ∷ weights) (toks ∷ tokenized) (rids ∷ row_ids) seen_epoch r =
    let st =
      count_row filter (add32 epoch 1) w toks rids
        (record { seen_epoch = seen_epoch; ids = []; occ = r.occ }) in
    record_rows filter (add32 epoch 1) weights tokenized row_ids st.seen_epoch
      (record { occ = st.occ; co = pair_ids w st.ids r.co })
record_rows filter epoch weights tokenized row_ids seen_epoch r = r

-- `newTokenRecord`
unfoldable pub new_token_record :
    StaticFilter → List ℕ → List (List Token) → List (List ℕ) → ℕ → TokenRecord
new_token_record filter weights tokenized row_ids num_ids =
    record_rows filter 0 weights tokenized row_ids (replicate num_ids 0)
      (record { occ = replicate num_ids 0; co = λ k. 0 })
