-- ===== src/TokenRecord/Row.antt =====
-- The loop of `newTokenRecord` (token_record.go) over the tokens of one row, and over its pairs.
use tipping.Base.{
  ℕ, ◌≤◌, ◌<◌, ◌≡◌, refl, sym, ap, ◌∙◌, Bool, true, false, ◌&&◌, ◌||◌, List, [], ◌∷◌, ◌++◌, length,
  get_or, ◌==◌, if◌then◌else◌, arith, Bool-cases, inl, inr, All, All-append, length-set, get_or-set,
}
use tipping.Token.{Token}
use tipping.Filter.{StaticFilter, keep}
use tipping.Template.{add32}
use tipping.Shards.Schedules.{is_in}
use tipping.TokenRecord.{RowState, count_token}

-- The row has a token with this id that the filter keeps.
abbrev pub kept_in : StaticFilter → List Token → List ℕ → ℕ → Bool
kept_in filter (tok ∷ toks) (i ∷ rids) id =
    keep filter tok.kind && i == id || kept_in filter toks rids id
kept_in filter toks rids id = false

abbrev pub IsDistinct : List ℕ → Type 0
IsDistinct [] = Unit {0}
IsDistinct (x ∷ xs) = (is_in x xs ≡ false) × IsDistinct xs

is_in-snoc : (i : ℕ) (xs : List ℕ) (y : ℕ) → is_in i (xs ++ y ∷ []) ≡ (is_in i xs || y == i)
is_in-snoc i [] y = ground arith
is_in-snoc i (x ∷ xs) y = ground (arith, is_in-snoc i xs y)

IsDistinct-snoc :
    (xs : List ℕ) (y : ℕ) → IsDistinct xs → is_in y xs ≡ false → IsDistinct (xs ++ y ∷ [])
IsDistinct-snoc [] y h k = (refl, tt)
IsDistinct-snoc (x ∷ xs) y (n, h) k =
    (is_in-snoc x xs y ∙ ground arith, IsDistinct-snoc xs y h (ground arith))

-- What holds within a row, for the ids met so far, and the counts before the row.
pub record IsRow (n epoch w : ℕ) (occ : List ℕ) (met : ℕ → Bool) (st : RowState) : Type 0 where
  pub seen_size : length st.seen_epoch ≡ n
  pub occ_size : length st.occ ≡ n
  pub below : (id : ℕ) → get_or st.seen_epoch id 0 ≤ epoch
  pub seen : (id : ℕ) → (get_or st.seen_epoch id 0 == epoch) ≡ met id
  pub held : (id : ℕ) → is_in id st.ids ≡ met id
  pub distinct : IsDistinct st.ids
  pub small : All (λ i. i < n) st.ids
  pub counted :
      (id : ℕ)
      → get_or st.occ id 0 ≡ (if met id then add32 (get_or occ id 0) w else get_or occ id 0)

module _ (n epoch w : ℕ) (occ : List ℕ) where
  pub count_token-IsRow :
      (met : ℕ → Bool) (st : RowState) (i : ℕ)
      → i < n
      → IsRow n epoch w occ met st
      → IsRow n epoch w occ (λ id. met id || i == id) (count_token epoch w i st)
  unfolding count_token
  count_token-IsRow met st i lt h = elim (Bool-cases (get_or st.seen_epoch i 0 == epoch)) [
    | inl e ↦ rw e (record {
      seen_size = h.seen_size;
      occ_size = h.occ_size;
      below = h.below;
      seen = λ id. h.seen id ∙ same e id;
      held = λ id. h.held id ∙ same e id;
      distinct = h.distinct;
      small = h.small;
      counted = λ id. ground (arith, h.counted id, same e id);
    })
    | inr e ↦ rw e (record {
      seen_size = length-set st.seen_epoch i epoch ∙ h.seen_size;
      occ_size = length-set st.occ i _ ∙ h.occ_size;
      below = λ id.
          ground
            (arith, h.below id, get_or-set st.seen_epoch i id epoch 0 (omega (arith, h.seen_size)));
      seen = λ id.
          ground
            (arith, h.seen id, get_or-set st.seen_epoch i id epoch 0 (omega (arith, h.seen_size)));
      held = λ id. is_in-snoc id st.ids i ∙ ground (arith, h.held id);
      distinct = IsDistinct-snoc st.ids i h.distinct (h.held i ∙ sym (h.seen i) ∙ e);
      small = All-append _ st.ids (i ∷ []) h.small (lt, tt);
      counted = λ id. ground (
        arith,
        h.counted id,
        h.counted i,
        h.seen i,
        get_or-set st.occ i id (add32 (get_or st.occ i 0) w) 0 (omega (arith, h.occ_size)),
      );
    })
  ]
    where
      same : (get_or st.seen_epoch i 0 == epoch) ≡ true → (id : ℕ) → met id ≡ (met id || i == id)
      same e id = ground (arith, h.seen i, index)
        where
          index : i ≡ id → met i ≡ met id
          index q = ap met q
