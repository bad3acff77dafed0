-- ===== src/Clusters.antt =====
-- The loop of `parse` (parser.go) over the groups: cluster ids, templates and masks.
pub mod Numbers
pub mod Positions
pub mod Masks
pub mod Samples
use tipping.Base.{
  ℕ, zero, suc, ◌+◌, ◌-◌, Bool, true, false, List, [], ◌∷◌, ◌++◌, Option, none, some, length,
  get_or, set, map, replicate, Bytes, ltb, leb, ◌==◌, if◌then◌else◌,
}
use tipping.Token.{Token}
use tipping.Filter.{StaticFilter}
use tipping.Template.{
  CommonScratch, CommonSet, shared_slices, templates_for_cluster, parameter_masks,
}
use tipping.Groups.{AnchorGroup}

-- What the loop reads: the split rows with their ids, the row of each message, the filter and the
-- number of ids. `sampling` is `p.patternSample < 1`, and `positions` is `samplePositions` at that
-- sample.
pub record Corpus : Type 0 where
  pub rich_tokenized : List (List Token)
  pub rich_row_ids : List (List ℕ)
  pub row_of : List ℕ
  pub filter : StaticFilter
  pub num_ids : ℕ
  pub sampling : Bool
  pub positions : ℕ → Option (List ℕ)

-- What it writes; `none` is the cluster -1.
pub record Clustering : Type 0 where
  pub clusters : List (Option ℕ)
  pub templates : List (List Bytes)
  pub masks : List Bytes
  pub row_pos : List ℕ
  pub common_scr : CommonScratch
  pub cid : ℕ

abbrev pub pick {ℓ} : {A : Type ℓ} → List (List A) → List ℕ → List (List A)
pick lists = map (λ i. get_or lists i [])

-- The rows that a group's pattern is made from, before the sample is taken.
abbrev pub source_rows : Corpus → AnchorGroup → List ℕ
source_rows c g =
    if c.sampling
    then (if ltb (length g.rows) (length g.indices)
        then map (λ idx. get_or c.row_of idx 0) g.indices
        else g.rows)
    else g.rows

abbrev pub take_sample : Option (List ℕ) → List ℕ → List ℕ
take_sample none rows = rows
take_sample (some pos) rows = map (λ p. get_or rows p 0) pos

unfoldable pub pattern_rows : Corpus → AnchorGroup → List ℕ
pattern_rows c g =
    let rows = source_rows c g in
    if c.sampling then take_sample (c.positions (length rows)) rows else rows

-- `rowPos[row] = int32(k)`, from `k` on.
unfoldable pub set_positions : ℕ → List ℕ → List ℕ → List ℕ
set_positions k [] row_pos = row_pos
set_positions k (row ∷ rows) row_pos = set_positions (k + 1) rows (set row_pos row k)

-- `masks[idx] = rowMasks[rowPos[rowOf[idx]]]`
unfoldable pub set_masks : List Bytes → List ℕ → List ℕ → List ℕ → List Bytes → List Bytes
set_masks row_masks row_pos row_of [] masks = masks
set_masks row_masks row_pos row_of (idx ∷ indices) masks =
    set_masks row_masks row_pos row_of indices
      (set masks idx (get_or row_masks (get_or row_pos (get_or row_of idx 0) 0) []))

-- `clusters[idx] = cid`
unfoldable pub set_clusters : ℕ → List ℕ → List (Option ℕ) → List (Option ℕ)
set_clusters cid [] clusters = clusters
set_clusters cid (idx ∷ indices) clusters = set_clusters cid indices (set clusters idx (some cid))

-- The body of the loop for a group with anchors, where templates and masks are wanted.
unfoldable pub add_cluster : Corpus → AnchorGroup → Clustering → Clustering
unfolding pattern_rows set_positions set_masks set_clusters
add_cluster c g st =
    let pattern = pattern_rows c g in
    let pattern_tokens = pick c.rich_tokenized pattern in
    let pattern_ids = pick c.rich_row_ids pattern in
    let shared = shared_slices pattern_tokens pattern_ids c.filter st.common_scr c.num_ids in
    let row_masks =
      parameter_masks (pick c.rich_tokenized g.rows) (pick c.rich_row_ids g.rows) shared.0 in
    let row_pos = set_positions 0 g.rows st.row_pos in
    record {
      clusters = set_clusters st.cid g.indices st.clusters;
      templates = st.templates ++ templates_for_cluster pattern_tokens pattern_ids shared.0 ∷ [];
      masks = set_masks row_masks row_pos c.row_of g.indices st.masks;
      row_pos = row_pos;
      common_scr = shared.1;
      cid = st.cid + 1;
    }

-- `len(group.anchors) == 0`
abbrev pub add_anchored : Corpus → AnchorGroup → List Token → Clustering → Clustering
add_anchored c g [] st = st
add_anchored c g (tok ∷ anchors) st = add_cluster c g st

unfoldable pub add_clusters : Corpus → List AnchorGroup → Clustering → Clustering
add_clusters c [] st = st
add_clusters c (g ∷ groups) st = add_clusters c groups (add_anchored c g g.anchors st)

-- The buffers as the loop begins, for `n` messages and `rows` distinct lines.
abbrev pub start_clusters : ℕ → List ℕ → CommonScratch → Clustering
start_clusters n row_pos common_scr = record {
  clusters = replicate n none;
  templates = [];
  masks = replicate n [];
  row_pos = row_pos;
  common_scr = common_scr;
  cid = 0;
}

-- The loop of `samplePositions` over `i`, for `left` indices; `low` is `prev + 1`, and `nearest i`
-- is `int(math.Round(float64(i) * step))`.
unfoldable pub sample_loop : (ℕ → ℕ) → ℕ → ℕ → ℕ → ℕ → List ℕ
sample_loop nearest n zero i low = []
sample_loop nearest n (suc left) i low =
    let raised = if ltb (nearest i) low then low else nearest i in
    let idx = if leb n raised then n - 1 else raised in
    idx ∷ sample_loop nearest n left (i + 1) (idx + 1)

-- `whole` is `sample >= 1`, and `ceiling` is `int(math.Ceil(float64(n) * sample))`.
unfoldable pub sample_positions : Bool → ℕ → (ℕ → ℕ) → ℕ → Option (List ℕ)
unfolding sample_loop
sample_positions whole ceiling nearest n =
    let count = if ltb ceiling 1 then 1 else ceiling in
    let chosen = if count == 1 then 0 ∷ [] else sample_loop nearest n count 0 0 in
    if leb n 1 then none else if whole then none else if leb n count then none else some chosen
