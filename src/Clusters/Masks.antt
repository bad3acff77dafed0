-- ===== src/Clusters/Masks.antt =====
-- The masks that `parse` (parser.go) gives to the messages of each group.
use tipping.Base.{
  subst, ℕ, zero, suc, ◌+◌, ◌<◌, ◌≡◌, refl, sym, ap, ◌∙◌, Bool, true, false, List, [], ◌∷◌, Option,
  none, some, length, length-map, length-replicate, replicate, get_or, Bytes, if◌then◌else◌, arith,
  inl, inr, Bool-cases, All, bytes_eq, bytes_eq→eq, bytes_eq_refl,
}
use tipping.Token.{Token}
use tipping.Split.Lossless.{text_of}
use tipping.Shards.Schedules.{is_in}
use tipping.Template.{CommonScratch, CommonSet, parameter_masks, shared_slices}
use tipping.Template.Masks.{length-row_mask}
use tipping.Groups.{AnchorGroup, KeyedRow, group_rows}
use tipping.Groups.Order.{has_key, HasDistinctKeys, bytes_eq-sym}
use tipping.Groups.Rows.{positions}
use tipping.Groups.Join.{keys_of}
use tipping.Groups.Partition.{message_keys, group_rows-IsPartition}
use tipping.Graph.Anchored.{is_nil}
use tipping.Clusters.{
  Corpus, Clustering, pick, pattern_rows, set_positions, add_cluster, add_anchored, add_clusters,
  start_clusters,
}
use tipping.Clusters.Numbers.{rank, is_in-positions, at_group, IsAscending-DistinctKeys}
use tipping.Clusters.Positions.{
  length-set_positions, set_positions-at, get_or-parameter_masks, length-set_masks, set_masks-at,
  get_or-map, All-below,
}

abbrev pub is_some : Option ℕ → Bool
is_some none = false
is_some (some n) = true

-- What the rows of a group have in common, from its pattern, and the masks of its rows.
abbrev group_shared : Corpus → AnchorGroup → Clustering → CommonSet
group_shared c g st =
    (shared_slices (pick c.rich_tokenized (pattern_rows c g))
      (pick c.rich_row_ids (pattern_rows c g)) c.filter st.common_scr c.num_ids).0

abbrev group_masks : Corpus → AnchorGroup → Clustering → List Bytes
group_masks c g st =
    parameter_masks (pick c.rich_tokenized g.rows) (pick c.rich_row_ids g.rows)
      (group_shared c g st)

-- What holds of the buffers before each group.
record IsMasking (rows messages : ℕ) (st : Clustering) : Type 0 where
  masks_size : length st.masks ≡ messages
  row_pos_size : length st.row_pos ≡ rows

module _ (c : Corpus) (rows : List Bytes) (j : ℕ) (lt : j < length c.row_of)
    (below : All (λ r. r < length rows) c.row_of)
    (aligned : (r : ℕ)
      → length (get_or c.rich_row_ids r []) ≡ length (get_or c.rich_tokenized r [])) where
  here : Bytes
  here = get_or (message_keys rows c.row_of) j []

  -- The text of the message, as its tokens spell it.
  text : Bytes
  text = text_of (get_or c.rich_tokenized (get_or c.row_of j 0) [])

  add_anchored-IsMasking :
      (g : AnchorGroup) (anchors : List Token) (st : Clustering)
      → IsMasking (length rows) (length c.row_of) st
      → IsMasking (length rows) (length c.row_of) (add_anchored c g anchors st)
  unfolding add_cluster
  add_anchored-IsMasking g [] st h = h
  add_anchored-IsMasking g (tok ∷ anchors) st h = record {
    masks_size =
        length-set_masks (group_masks c g st) (set_positions 0 g.rows st.row_pos) c.row_of g.indices
          st.masks
        ∙ h.masks_size;
    row_pos_size = length-set_positions 0 g.rows st.row_pos ∙ h.row_pos_size;
  }

  cid-add_anchored :
      (g : AnchorGroup) (anchors : List Token) (st : Clustering)
      → (add_anchored c g anchors st).cid ≡ (if is_nil anchors then st.cid else st.cid + 1)
  unfolding add_cluster
  cid-add_anchored g [] st = refl
  cid-add_anchored g (tok ∷ anchors) st = refl

  row_in_group :
      (g : AnchorGroup)
      → g.rows ≡ positions g.key 0 rows
      → bytes_eq here g.key ≡ true
      → is_in (get_or c.row_of j 0) g.rows ≡ true
  unfolding here
  row_in_group g e h =
      let r = get_or c.row_of j 0 in
      let zero_first : 0 + r ≡ r = omega arith in
      ap (is_in r) e
      ∙ ap (λ x. is_in x (positions g.key 0 rows)) (sym zero_first)
      ∙ is_in-positions g.key 0 r rows (All-below (length rows) c.row_of j below lt)
      ∙ ap (λ k. bytes_eq k g.key) (sym (get_or-map rows c.row_of j lt))
      ∙ h

  mask_at :
      (g : AnchorGroup) (common : CommonSet) (row_pos : List ℕ)
      → length row_pos ≡ length rows
      → is_in (get_or c.row_of j 0) g.rows ≡ true
      → length (
          get_or
            (parameter_masks (pick c.rich_tokenized g.rows) (pick c.rich_row_ids g.rows) common)
            (get_or (set_positions 0 g.rows row_pos) (get_or c.row_of j 0) 0)
            [])
        ≡ length text
  unfolding text
  mask_at g common row_pos size h =
      let r = get_or c.row_of j 0 in
      let room : r < length row_pos =
        omega (arith, size, All-below (length rows) c.row_of j below lt) in
      let (i, e, at) = set_positions-at 0 r g.rows row_pos room h in
      let zero_first : get_or (set_positions 0 g.rows row_pos) r 0 ≡ i = omega (arith, e) in
      ap
        (λ k. length (
          get_or
            (parameter_masks (pick c.rich_tokenized g.rows) (pick c.rich_row_ids g.rows) common) k
            []))
        zero_first
      ∙ ap length (get_or-parameter_masks c.rich_tokenized c.rich_row_ids common g.rows i r at)
      ∙ length-row_mask common (get_or c.rich_tokenized r []) (get_or c.rich_row_ids r [])
          (aligned r)

  add_anchored-mask :
      (g : AnchorGroup) (anchors : List Token) (st : Clustering)
      → IsMasking (length rows) (length c.row_of) st
      → g.rows ≡ positions g.key 0 rows
      → g.indices ≡ positions g.key 0 (message_keys rows c.row_of)
      → length (get_or (add_anchored c g anchors st).masks j []) ≡ (
          if is_nil anchors
          then length (get_or st.masks j [])
          else if bytes_eq here g.key
          then length text
          else length (get_or st.masks j []))
  unfolding add_cluster here
  add_anchored-mask g [] st h e f = refl
  add_anchored-mask g (tok ∷ anchors) st h e f =
      let keys_lt : j < length (message_keys rows c.row_of) =
        omega (arith, length-map c.row_of (λ r. get_or rows r [])) in
      let row_pos = set_positions 0 g.rows st.row_pos in
      let written = get_or (group_masks c g st) (get_or row_pos (get_or c.row_of j 0) 0) [] in
      ap length (
        set_masks-at (group_masks c g st) row_pos c.row_of g.indices st.masks j
          (omega (arith, h.masks_size)))
      ∙ ap (λ b. length (if b then written else get_or st.masks j []))
          (at_group c (message_keys rows c.row_of) j keys_lt g f)
      ∙ elim (Bool-cases (bytes_eq (get_or (message_keys rows c.row_of) j []) g.key)) [
        | inl own ↦
            rw own
              (mask_at g (group_shared c g st) st.row_pos h.row_pos_size (row_in_group g e own))
        | inr other ↦ rw other refl
      ]

  add_clusters-other :
      (groups : List AnchorGroup) (st : Clustering)
      → IsMasking (length rows) (length c.row_of) st
      → All (λ g. g.rows ≡ positions g.key 0 rows) groups
      → All (λ g. g.indices ≡ positions g.key 0 (message_keys rows c.row_of)) groups
      → has_key here groups ≡ false
      → length (get_or (add_clusters c groups st).masks j []) ≡ length (get_or st.masks j [])
  unfolding add_clusters
  add_clusters-other [] st m hr hi n = refl
  add_clusters-other (g ∷ groups) st m (er, hr) (ei, hi) n =
      let apart : bytes_eq here g.key ≡ false = bytes_eq-sym g.key here (ground arith) in
      add_clusters-other groups (add_anchored c g g.anchors st)
        (add_anchored-IsMasking g g.anchors st m) hr hi (ground arith)
      ∙ add_anchored-mask g g.anchors st m er ei
      ∙ ground arith

  add_clusters-mask :
      (groups : List AnchorGroup) (st : Clustering)
      → IsMasking (length rows) (length c.row_of) st
      → All (λ g. g.rows ≡ positions g.key 0 rows) groups
      → All (λ g. g.indices ≡ positions g.key 0 (message_keys rows c.row_of)) groups
      → HasDistinctKeys groups
      → length (get_or st.masks j []) ≡ 0
      → length (get_or (add_clusters c groups st).masks j [])
        ≡ (if is_some (rank here st.cid groups) then length text else 0)
  unfolding add_clusters
  add_clusters-mask [] st m hr hi d n = n
  add_clusters-mask (g ∷ groups) st m (er, hr) (ei, hi) (dg, d) n =
      let next = add_anchored c g g.anchors st in
      let grown = add_anchored-IsMasking g g.anchors st m in
      let at = add_anchored-mask g g.anchors st m er ei in
      elim (Bool-cases (bytes_eq g.key here)) [
        | inl same ↦
            let name = bytes_eq→eq g.key here same in
            let own : bytes_eq here g.key ≡ true =
              subst (λ x. bytes_eq x g.key ≡ true) name (bytes_eq_refl g.key) in
            let rest = subst (λ x. has_key x groups ≡ false) name dg in
            add_clusters-other groups next grown hr hi rest ∙ at ∙ ground arith
        | inr other ↦
            let apart = bytes_eq-sym g.key here other in
            let still : length (get_or next.masks j []) ≡ 0 = at ∙ ground arith in
            add_clusters-mask groups next grown hr hi d still
            ∙ ap (λ k. if is_some (rank here k groups) then length text else 0)
                (cid-add_anchored g g.anchors st)
            ∙ ground arith
      ]

get_or-empties : (n j : ℕ) → length (get_or {A = Bytes} (replicate n []) j []) ≡ 0
get_or-empties zero j = refl
get_or-empties (suc n) zero = refl
get_or-empties (suc n) (suc j) = get_or-empties n j

-- The length of a mask, from the group of the message.
pub length-masks :
    (c : Corpus) (rows : List KeyedRow) (row_pos : List ℕ) (common_scr : CommonScratch) (j : ℕ)
    → All (λ r. r < length (keys_of rows)) c.row_of
    → j < length c.row_of
    → length row_pos ≡ length (keys_of rows)
    → ((r : ℕ) → length (get_or c.rich_row_ids r []) ≡ length (get_or c.rich_tokenized r []))
    → length (
        get_or
          (add_clusters c
            (group_rows rows c.row_of)
            (start_clusters (length c.row_of) row_pos common_scr)).masks
          j
          [])
      ≡ (if is_some
            (rank (get_or (message_keys (keys_of rows) c.row_of) j []) 0 (group_rows rows c.row_of))
          then length (text_of (get_or c.rich_tokenized (get_or c.row_of j 0) []))
          else 0)
unfolding here text
length-masks c rows row_pos common_scr j below lt size aligned =
    let p = group_rows-IsPartition rows c.row_of below in
    let n = length c.row_of in
    add_clusters-mask c (keys_of rows) j lt below aligned (group_rows rows c.row_of)
      (start_clusters n row_pos common_scr)
      (record { masks_size = length-replicate n []; row_pos_size = size }) p.rows p.indices
      (IsAscending-DistinctKeys _ p.ascending) (get_or-empties n j)
