-- ===== src/Tests/Groups.antt =====
-- Anchors, groups and clusters on small inputs.
use tipping.Base.{
  ap, Bool, ℕ, ◌*◌, ◌<◌, ◌≡◌, ◌≢◌, refl, true, false, ◌&&◌, not, List, [], ◌∷◌, none, some, length,
  get_or, Bytes, codes, arith, All, ltb, if◌then◌else◌,
}
use mathlib.Core.List.Perm
use tipping.Token.{impure, Token, alphabetic, numeric, special_black}
use tipping.Dict.{lookup}
use tipping.Dedup.Rows.{count_of}
use tipping.TokenRecord.{TokenRecord, new_token_pair_id}
use tipping.Anchors.{
  key_bytes, delete_anchor, put_anchor, put_anchors, add_specials, canonical_anchor_key,
}
use tipping.Anchors.Key.{canonical_anchor_key-injective}
use tipping.Graph.{
  gather_loop, second_pass, walk_loop, first_pass, largest_component, add_edge, join_nodes,
  edges_from, add_node, collect_nodes, new_anchor_scratch, anchor_tokens, build_edges, no_edges,
  walk_order, component_tokens,
}
use tipping.Graph.Anchored.{is_nil, row_nodes, holds-anchor_tokens, anchor_tokens-holds}
use tipping.Anchors.Holds.{holds, with_special}
use tipping.Graph.Built.{walk_order-build_edges}
use tipping.Groups.{
  add_indices, add_row, add_rows, groups_of, AnchorGroup, KeyedRow, group_by_keys, group_rows,
  sort_groups,
}
use tipping.Groups.Join.{keys_of}
use tipping.Groups.Merge.{group_by_keys-serial}
use tipping.Groups.Partition.{IsPartition, message_keys, group_rows-IsPartition}
use tipping.Groups.Unordered.{sort_groups-Perm}
use tipping.Clusters.{
  set_clusters, add_cluster, add_clusters, sample_loop, Corpus, sample_positions,
}
use tipping.Clusters.Numbers.{rank, cluster_ids, cluster_ids-rank, cluster_ids-key}
use tipping.Clusters.Samples.{IsClimbing, sample_positions-IsClimbing}
use tipping.Parse.{new_common_scratch}

abbrev word : Bytes → Token
word s = record { kind = alphabetic; slice = s }

abbrev go_token : Token
go_token = record { kind = alphabetic; slice = codes "go" }

abbrev seven : Token
seven = record { kind = numeric; slice = codes "7" }

-- One impure token with a zero byte inside has the key of two tokens.
key_collision :
    (canonical_anchor_key
      (record { kind = impure; slice = 0x61 ∷ 0 ∷ 4 ∷ 0x1F ∷ 0x62 ∷ [] } ∷ [])).0
    ≡ (canonical_anchor_key (
        record { kind = impure; slice = codes "a" }
        ∷ record { kind = impure; slice = codes "b" }
        ∷ [])).0
unfolding canonical_anchor_key key_bytes
key_collision = refl

-- Two tokens that stand in one row, once each.
abbrev one_row : TokenRecord
one_row = record { occ = 1 ∷ 1 ∷ []; co = λ k. 1 }

abbrev half : ℕ → ℕ → Bool
half co occ = ltb occ (co * 2)

holds-seven :
    holds seven
      (anchor_tokens half one_row (go_token ∷ seven ∷ []) (0 ∷ 1 ∷ []) (new_anchor_scratch 2)).0
    ≡ true
unfolding anchor_tokens collect_nodes add_node component_tokens build_edges edges_from join_nodes
    add_edge largest_component walk_order first_pass walk_loop second_pass gather_loop
    new_anchor_scratch add_specials put_anchors put_anchor delete_anchor new_token_pair_id
holds-seven = refl

anchor_tokens-holds_example :
    (holds seven (go_token ∷ seven ∷ []) ≡ true) × (seven.kind ≢ special_black)
anchor_tokens-holds_example =
    anchor_tokens-holds half one_row (go_token ∷ seven ∷ []) (0 ∷ 1 ∷ []) (new_anchor_scratch 2)
      seven holds-seven

holds-anchor_tokens_example :
    holds seven
      (anchor_tokens half one_row (go_token ∷ seven ∷ []) (0 ∷ 1 ∷ []) (new_anchor_scratch 2)).0
    ≡ not (
        is_nil
          (row_nodes one_row (go_token ∷ seven ∷ []) (0 ∷ 1 ∷ []) (new_anchor_scratch 2)).nodes)
      && with_special numeric
          (holds seven (
            component_tokens half one_row
              (row_nodes one_row (go_token ∷ seven ∷ []) (0 ∷ 1 ∷ []) (new_anchor_scratch 2)).nodes
              (row_nodes one_row (go_token ∷ seven ∷ []) (0 ∷ 1 ∷ []) (new_anchor_scratch 2)).ids))
          (holds seven (go_token ∷ seven ∷ []))
holds-anchor_tokens_example =
    holds-anchor_tokens half one_row (go_token ∷ seven ∷ []) (0 ∷ 1 ∷ []) (new_anchor_scratch 2)
      seven

walk_order-build_edges_example :
    count_of 1 (walk_order (build_edges half one_row 0 (0 ∷ 1 ∷ []) (no_edges 2)).adj 2) ≡ 1
walk_order-build_edges_example = walk_order-build_edges half one_row (0 ∷ 1 ∷ []) 1

canonical_anchor_key-injective_example :
    (canonical_anchor_key (go_token ∷ seven ∷ [])).1
    ≡ (canonical_anchor_key (seven ∷ go_token ∷ [])).1
unfolding canonical_anchor_key
canonical_anchor_key-injective_example =
    canonical_anchor_key-injective (go_token ∷ seven ∷ []) (seven ∷ go_token ∷ [])
      (((λ e. omega arith), ((λ e. omega arith), tt)), (((λ e. omega arith), tt), tt))
      (((λ e. omega arith), tt), (((λ e. omega arith), ((λ e. omega arith), tt)), tt)) refl

abbrev two_keys : List KeyedRow
two_keys = (codes "k", go_token ∷ []) ∷ (codes "b", seven ∷ []) ∷ []

two_keys-below : All (λ r. r < length (keys_of two_keys)) (0 ∷ 1 ∷ 0 ∷ [])
two_keys-below = (omega arith, (omega arith, (omega arith, tt)))

group_rows-IsPartition_example :
    IsPartition
      (keys_of two_keys)
      (message_keys (keys_of two_keys) (0 ∷ 1 ∷ 0 ∷ []))
      (group_rows two_keys (0 ∷ 1 ∷ 0 ∷ []))
group_rows-IsPartition_example = group_rows-IsPartition two_keys (0 ∷ 1 ∷ 0 ∷ []) two_keys-below

group_by_keys-serial_example :
    group_by_keys 2 two_keys (0 ∷ 1 ∷ 0 ∷ []) ≡ group_rows two_keys (0 ∷ 1 ∷ 0 ∷ [])
group_by_keys-serial_example = group_by_keys-serial 2 two_keys (0 ∷ 1 ∷ 0 ∷ [])

abbrev group_named : Bytes → AnchorGroup
group_named k = record { key = k; anchors = []; rows = []; indices = [] }

sort_groups-Perm_example :
    sort_groups (group_named (codes "k") ∷ group_named (codes "b") ∷ [])
    ≡ sort_groups (group_named (codes "b") ∷ group_named (codes "k") ∷ [])
sort_groups-Perm_example =
    sort_groups-Perm (group_named (codes "k") ∷ group_named (codes "b") ∷ [])
      (group_named (codes "b") ∷ group_named (codes "k") ∷ []) (refl, (refl, tt))
      (Perm.swap (group_named (codes "b")) (group_named (codes "k")) [])

abbrev small_corpus : Corpus
small_corpus = record {
  rich_tokenized = (go_token ∷ []) ∷ (seven ∷ []) ∷ [];
  rich_row_ids = (0 ∷ []) ∷ (1 ∷ []) ∷ [];
  row_of = 0 ∷ 1 ∷ 0 ∷ [];
  filter = record { alphabetic_in = true; numeric_in = true; impure_in = true };
  num_ids = 2;
  sampling = false;
  positions = λ n. none;
}

cluster_ids-rank_example :
    get_or (cluster_ids small_corpus two_keys (0 ∷ 0 ∷ []) new_common_scratch) 2 none
    ≡ rank (codes "k") 0 (group_rows two_keys (0 ∷ 1 ∷ 0 ∷ []))
cluster_ids-rank_example =
    cluster_ids-rank small_corpus two_keys (0 ∷ 0 ∷ []) new_common_scratch 2 two_keys-below
      (omega arith)

clusters_run :
    cluster_ids small_corpus two_keys (0 ∷ 0 ∷ []) new_common_scratch
    ≡ some 1 ∷ some 0 ∷ some 1 ∷ []
unfolding add_clusters add_cluster set_clusters group_rows groups_of add_rows add_row add_indices
    lookup
clusters_run = refl

cluster_ids-key_example :
    get_or (message_keys (keys_of two_keys) (0 ∷ 1 ∷ 0 ∷ [])) 0 []
    ≡ get_or (message_keys (keys_of two_keys) (0 ∷ 1 ∷ 0 ∷ [])) 2 []
cluster_ids-key_example =
    cluster_ids-key small_corpus two_keys (0 ∷ 0 ∷ []) new_common_scratch 0 2 1 two_keys-below
      (omega arith) (omega arith) (ap (λ l. get_or l 0 none) clusters_run)
      (ap (λ l. get_or l 2 none) clusters_run)

sample_positions-IsClimbing_example :
    (length {A = ℕ} (0 ∷ 4 ∷ []) ≡ (if ltb 2 1 then 1 else 2))
    × All (λ p. p < 5) (0 ∷ 4 ∷ [])
    × IsClimbing 0 (0 ∷ 4 ∷ [])
unfolding sample_positions sample_loop
sample_positions-IsClimbing_example =
    sample_positions-IsClimbing false 2 (λ i. i * 4) 5 (0 ∷ 4 ∷ []) (λ k lt. omega arith) refl
