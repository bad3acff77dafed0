-- ===== src/Clusters/Numbers.antt =====
-- The cluster ids that `parse` (parser.go) gives to the messages of each group.
use tipping.Base.{
  subst, ℕ, zero, suc, ◌+◌, ◌≤◌, ◌<◌, ◌≡◌, refl, sym, ap, ◌∙◌, true, false, List, [], ◌∷◌, Option,
  none, some, length, length-set, length-map, length-replicate, replicate, get_or, set, Bytes, ◌==◌,
  if◌then◌else◌, arith, inl, inr, Bool-cases, All, bytes_eq, bytes_eq→eq, bytes_eq_refl,
}
use tipping.Token.{Token}
use tipping.Shards.Schedules.{is_in}
use tipping.Template.{CommonScratch}
use tipping.Groups.{AnchorGroup, KeyedRow, bytes_ltb, group_rows}
use tipping.Groups.Order.{has_key, HasDistinctKeys, IsAscending, bytes_ltb-asym, bytes_eq-sym}
use tipping.Groups.Rows.{positions}
use tipping.Groups.Join.{keys_of}
use tipping.Groups.Partition.{message_keys, group_rows-IsPartition}
use tipping.Graph.Anchored.{is_nil}
use tipping.Clusters.{
  Corpus, Clustering, set_clusters, add_cluster, add_anchored, add_clusters, start_clusters,
}

-- The number of the group of a key, among the groups with anchors.
abbrev pub rank : Bytes → ℕ → List AnchorGroup → Option ℕ
rank k cid [] = none
rank k cid (g ∷ groups) =
    let rest = rank k (if is_nil g.anchors then cid else cid + 1) groups in
    if bytes_eq g.key k then (if is_nil g.anchors then none else some cid) else rest

pub get_or-set_at :
    {A : Type 0} (xs : List A) (i j : ℕ) (v d : A)
    → j < length xs
    → get_or (set xs i v) j d ≡ (if i == j then v else get_or xs j d)
get_or-set_at [] i j v d h = absurd (omega arith)
get_or-set_at (x ∷ xs) zero zero v d h = ground arith
get_or-set_at (x ∷ xs) zero (suc j) v d h = ground arith
get_or-set_at (x ∷ xs) (suc i) zero v d h = ground arith
get_or-set_at (x ∷ xs) (suc i) (suc j) v d h =
    ground (arith, get_or-set_at xs i j v d (omega arith))

pub length-set_clusters :
    (cid : ℕ) (indices : List ℕ) (clusters : List (Option ℕ))
    → length (set_clusters cid indices clusters) ≡ length clusters
unfolding set_clusters
length-set_clusters cid [] clusters = refl
length-set_clusters cid (idx ∷ indices) clusters =
    length-set_clusters cid indices (set clusters idx (some cid))
    ∙ length-set clusters idx (some cid)

set_clusters-at :
    (cid j : ℕ) (indices : List ℕ) (clusters : List (Option ℕ))
    → j < length clusters
    → get_or (set_clusters cid indices clusters) j none
      ≡ (if is_in j indices then some cid else get_or clusters j none)
unfolding set_clusters
set_clusters-at cid j [] clusters h = refl
set_clusters-at cid j (idx ∷ indices) clusters h = ground (
  arith,
  set_clusters-at cid j indices (set clusters idx (some cid)),
  length-set clusters idx (some cid),
  get_or-set_at clusters idx j (some cid) none h,
)

is_in-before :
    (k : Bytes) (x s : ℕ) (keys : List Bytes) → x < s → is_in x (positions k s keys) ≡ false
is_in-before k x s [] h = refl
is_in-before k x s (y ∷ keys) h = ground (arith, is_in-before k x (s + 1) keys (omega arith))

pub is_in-positions :
    (k : Bytes) (s j : ℕ) (keys : List Bytes)
    → j < length keys
    → is_in (s + j) (positions k s keys) ≡ bytes_eq (get_or keys j []) k
is_in-positions k s j [] h = absurd (omega arith)
is_in-positions k s zero (y ∷ keys) h =
    ground (arith, is_in-before k (s + 0) (s + 1) keys (omega arith))
is_in-positions k s (suc j) (y ∷ keys) h =
    let e : s + suc j ≡ s + 1 + j = omega arith in
    let ih = is_in-positions k (s + 1) j keys (omega arith) in
    ap (λ x. is_in x (positions k s (y ∷ keys))) e ∙ ground (arith, ih)

module _ (c : Corpus) (keys : List Bytes) (j : ℕ) (lt : j < length keys) where
  here : Bytes
  here = get_or keys j []

  pub at_group :
      (g : AnchorGroup)
      → g.indices ≡ positions g.key 0 keys
      → is_in j g.indices ≡ bytes_eq (get_or keys j []) g.key
  at_group g e =
      let zero_first : 0 + j ≡ j = omega arith in
      ap (is_in j) e
      ∙ ap (λ x. is_in x (positions g.key 0 keys)) (sym zero_first)
      ∙ is_in-positions g.key 0 j keys lt

  length-add_anchored :
      (g : AnchorGroup) (anchors : List Token) (st : Clustering)
      → length (add_anchored c g anchors st).clusters ≡ length st.clusters
  unfolding add_cluster
  length-add_anchored g [] st = refl
  length-add_anchored g (tok ∷ anchors) st = length-set_clusters st.cid g.indices st.clusters

  cid-add_anchored :
      (g : AnchorGroup) (anchors : List Token) (st : Clustering)
      → (add_anchored c g anchors st).cid ≡ (if is_nil anchors then st.cid else st.cid + 1)
  unfolding add_cluster
  cid-add_anchored g [] st = refl
  cid-add_anchored g (tok ∷ anchors) st = refl

  add_anchored-at :
      (g : AnchorGroup) (anchors : List Token) (st : Clustering)
      → length st.clusters ≡ length keys
      → g.indices ≡ positions g.key 0 keys
      → get_or (add_anchored c g anchors st).clusters j none ≡ (
          if is_nil anchors
          then get_or st.clusters j none
          else if bytes_eq (get_or keys j []) g.key
          then some st.cid
          else get_or st.clusters j none)
  unfolding add_cluster
  add_anchored-at g [] st size e = refl
  add_anchored-at g (tok ∷ anchors) st size e =
      set_clusters-at st.cid j g.indices st.clusters (omega (arith, size))
      ∙ ap (λ b. if b then some st.cid else get_or st.clusters j none) (at_group g e)

  -- No group of the key is left.
  add_clusters-other :
      (groups : List AnchorGroup) (st : Clustering)
      → length st.clusters ≡ length keys
      → All (λ g. g.indices ≡ positions g.key 0 keys) groups
      → has_key (get_or keys j []) groups ≡ false
      → get_or (add_clusters c groups st).clusters j none ≡ get_or st.clusters j none
  unfolding add_clusters
  add_clusters-other [] st size h n = refl
  add_clusters-other (g ∷ groups) st size (e, h) n =
      let apart : bytes_eq (get_or keys j []) g.key ≡ false =
        bytes_eq-sym g.key (get_or keys j []) (ground arith) in
      add_clusters-other groups (add_anchored c g g.anchors st)
        (length-add_anchored g g.anchors st ∙ size) h (ground arith)
      ∙ add_anchored-at g g.anchors st size e
      ∙ ground arith

  add_clusters-rank :
      (groups : List AnchorGroup) (st : Clustering)
      → length st.clusters ≡ length keys
      → All (λ g. g.indices ≡ positions g.key 0 keys) groups
      → HasDistinctKeys groups
      → get_or st.clusters j none ≡ none
      → get_or (add_clusters c groups st).clusters j none ≡ rank (get_or keys j []) st.cid groups
  unfolding add_clusters
  add_clusters-rank [] st size h d n = n
  add_clusters-rank (g ∷ groups) st size (e, h) (dg, d) n =
      let next = add_anchored c g g.anchors st in
      let grown = length-add_anchored g g.anchors st ∙ size in
      let at = add_anchored-at g g.anchors st size e in
      elim (Bool-cases (bytes_eq g.key (get_or keys j []))) [
        | inl same ↦
            let text = bytes_eq→eq g.key (get_or keys j []) same in
            let own : bytes_eq (get_or keys j []) g.key ≡ true =
              subst (λ x. bytes_eq x g.key ≡ true) text (bytes_eq_refl g.key) in
            let rest = subst (λ x. has_key x groups ≡ false) text dg in
            add_clusters-other groups next grown h rest ∙ at ∙ ground arith
        | inr other ↦
            let apart = bytes_eq-sym g.key (get_or keys j []) other in
            let still : get_or next.clusters j none ≡ none = at ∙ ground arith in
            add_clusters-rank groups next grown h d still
            ∙ ap (λ n. rank (get_or keys j []) n groups) (cid-add_anchored g g.anchors st)
            ∙ ground arith
      ]

-- Each key once.
apart_above :
    (k : Bytes) (groups : List AnchorGroup)
    → All (λ x. bytes_ltb k x.key ≡ true) groups
    → has_key k groups ≡ false
apart_above k [] h = refl
apart_above k (x ∷ groups) (hx, h) = elim (Bool-cases (bytes_eq x.key k)) [
  | inl same ↦
      let self : bytes_ltb k k ≡ true =
        subst (λ y. bytes_ltb k y ≡ true) (bytes_eq→eq x.key k same) hx in
      absurd (ground (arith, bytes_ltb-asym k k self))
  | inr other ↦ ground (arith, apart_above k groups h)
]

pub IsAscending-DistinctKeys :
    (groups : List AnchorGroup) → IsAscending groups → HasDistinctKeys groups
IsAscending-DistinctKeys [] h = tt
IsAscending-DistinctKeys (g ∷ groups) (hg, h) =
    (apart_above g.key groups hg, IsAscending-DistinctKeys groups h)

rank-ge : (k : Bytes) (cid n : ℕ) (groups : List AnchorGroup) → rank k cid groups ≡ some n → cid ≤ n
rank-ge k cid n [] e = absurd (cc)
rank-ge k cid n (g ∷ groups) e =
    ground (arith, rank-ge k cid n groups, rank-ge k (cid + 1) n groups)

rank-injective :
    (j k : Bytes) (cid n : ℕ) (groups : List AnchorGroup)
    → rank j cid groups ≡ some n
    → rank k cid groups ≡ some n
    → j ≡ k
rank-injective j k cid n [] e f = absurd (cc)
rank-injective j k cid n (g ∷ groups) e f = ground (
  arith,
  rank-injective j k cid n groups,
  rank-injective j k (cid + 1) n groups,
  rank-ge j (cid + 1) n groups,
  rank-ge k (cid + 1) n groups,
  bytes_eq→eq g.key j,
  bytes_eq→eq g.key k,
)

get_or-nones : (n j : ℕ) → get_or {A = Option ℕ} (replicate n none) j none ≡ none
get_or-nones zero j = refl
get_or-nones (suc n) zero = refl
get_or-nones (suc n) (suc j) = get_or-nones n j

-- The cluster ids of the messages.
abbrev pub cluster_ids : Corpus → List KeyedRow → List ℕ → CommonScratch → List (Option ℕ)
cluster_ids c rows row_pos common_scr =
    (add_clusters c (group_rows rows c.row_of)
      (start_clusters (length c.row_of) row_pos common_scr)).clusters

-- The cluster id of a message is the number of its key's group among the groups with anchors, and
-- -1 where that group has no anchors, when the row of each message is one of the rows.
pub cluster_ids-rank :
    (c : Corpus) (rows : List KeyedRow) (row_pos : List ℕ) (common_scr : CommonScratch) (j : ℕ)
    → All (λ r. r < length (keys_of rows)) c.row_of
    → j < length c.row_of
    → get_or (cluster_ids c rows row_pos common_scr) j none
      ≡ rank (get_or (message_keys (keys_of rows) c.row_of) j []) 0 (group_rows rows c.row_of)
cluster_ids-rank c rows row_pos common_scr j below lt =
    let keys = message_keys (keys_of rows) c.row_of in
    let p = group_rows-IsPartition rows c.row_of below in
    let n = length c.row_of in
    let size : length keys ≡ n = length-map c.row_of _ in
    add_clusters-rank c keys j (omega (arith, size)) (group_rows rows c.row_of)
      (start_clusters n row_pos common_scr) (length-replicate n none ∙ sym size) p.indices
      (IsAscending-DistinctKeys _ p.ascending) (get_or-nones n j)

-- Two messages with one cluster id, not -1, have the same anchor key, when the row of each message
-- is one of the rows.
pub cluster_ids-key :
    (c : Corpus) (rows : List KeyedRow) (row_pos : List ℕ) (common_scr : CommonScratch) (i j n : ℕ)
    → All (λ r. r < length (keys_of rows)) c.row_of
    → i < length c.row_of
    → j < length c.row_of
    → get_or (cluster_ids c rows row_pos common_scr) i none ≡ some n
    → get_or (cluster_ids c rows row_pos common_scr) j none ≡ some n
    → get_or (message_keys (keys_of rows) c.row_of) i []
      ≡ get_or (message_keys (keys_of rows) c.row_of) j []
cluster_ids-key c rows row_pos common_scr i j n below hi hj e f =
    rank-injective _ _ 0 n (group_rows rows c.row_of)
      (sym (cluster_ids-rank c rows row_pos common_scr i below hi) ∙ e)
      (sym (cluster_ids-rank c rows row_pos common_scr j below hj) ∙ f)
