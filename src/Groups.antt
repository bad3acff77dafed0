-- ===== src/Groups.antt =====
-- `groupByAnchorTokens` of parser.go, from the key and the anchors of each row on: a row joins the
-- group of its key. A group stands behind a pointer there; here it is a place in a list, and a
-- pointer is the place's number.
pub mod Order
pub mod Unordered
pub mod Rows
pub mod Join
pub mod Partition
pub mod Arena
pub mod Merge
use tipping.Base.{
  ℕ, zero, suc, ◌+◌, ◌-◌, Bool, true, false, List, [], ◌∷◌, ◌++◌, Option, none, some, length, take,
  drop, get_or, get_elem?, Bytes, ltb, ◌==◌, if◌then◌else◌, map,
}
use tipping.Dict.{Dict, lookup}
use tipping.Shards.{Range, shard_ranges}
use tipping.Token.{Token}

pub record AnchorGroup : Type 0 where
  pub key : Bytes
  pub anchors : List Token
  pub rows : List ℕ
  pub indices : List ℕ

-- `merged` and `rowGroup`, and the groups that they point to, in the order in which they are made.
pub record Grouping : Type 0 where
  pub groups : List AnchorGroup
  pub merged : Dict ℕ
  pub row_group : List ℕ

-- A row's key and its anchors in the key's order, as `canonicalAnchorKey` returns them.
abbrev pub KeyedRow : Type 0
KeyedRow = Bytes × List Token

-- A write through a pointer.
abbrev pub modify : List AnchorGroup → ℕ → (AnchorGroup → AnchorGroup) → List AnchorGroup
modify [] p f = []
modify (g ∷ groups) zero f = f g ∷ groups
modify (g ∷ groups) (suc p) f = g ∷ modify groups p f

abbrev pub push_row : ℕ → AnchorGroup → AnchorGroup
push_row row g = record g { rows = g.rows ++ row ∷ [] }

abbrev pub push_index : ℕ → AnchorGroup → AnchorGroup
push_index idx g = record g { indices = g.indices ++ idx ∷ [] }

-- `addRow`
unfoldable pub add_row : ℕ → Bytes → List Token → Grouping → Grouping
add_row row key ordered st = elim (lookup key st.merged) [
  | some p ↦ record st {
    groups = modify st.groups p (push_row row);
    row_group = st.row_group ++ p ∷ [];
  }
  | none ↦ record {
    groups =
        st.groups ++ record { key = key; anchors = ordered; rows = row ∷ []; indices = [] } ∷ [];
    merged = (key, length st.groups) ∷ st.merged;
    row_group = st.row_group ++ length st.groups ∷ [];
  }
]

-- The loop of the serial path, from `row` on.
unfoldable pub add_rows : ℕ → List KeyedRow → Grouping → Grouping
add_rows row [] st = st
add_rows row (keyed ∷ rows) st = add_rows (row + 1) rows (add_row row keyed.0 keyed.1 st)

-- The loop over `rowOf`, from `idx` on.
unfoldable pub add_indices : ℕ → List ℕ → List ℕ → List AnchorGroup → List AnchorGroup
add_indices idx row_group [] groups = groups
add_indices idx row_group (row ∷ row_of) groups =
    add_indices (idx + 1) row_group row_of (modify groups (get_or row_group row 0) (push_index idx))

-- Go's `<` on strings.
abbrev pub bytes_ltb : Bytes → Bytes → Bool
bytes_ltb [] [] = false
bytes_ltb [] (c ∷ t) = true
bytes_ltb (b ∷ s) [] = false
bytes_ltb (b ∷ s) (c ∷ t) =
    let rest = bytes_ltb s t in if ltb b c then true else if ltb c b then false else rest

-- `sort.Slice`, by the groups' keys.
abbrev pub insert_group : AnchorGroup → List AnchorGroup → List AnchorGroup
insert_group g [] = g ∷ []
insert_group g (x ∷ groups) =
    let rest = insert_group g groups in if bytes_ltb g.key x.key then g ∷ x ∷ groups else x ∷ rest

abbrev pub sort_groups : List AnchorGroup → List AnchorGroup
sort_groups [] = []
sort_groups (g ∷ groups) = insert_group g (sort_groups groups)

abbrev pub no_groups : Grouping
no_groups = record { groups = []; merged = []; row_group = [] }

unfoldable pub groups_of : Grouping → List ℕ → List AnchorGroup
groups_of st row_of = sort_groups (add_indices 0 st.row_group row_of st.groups)

unfoldable pub group_rows : List KeyedRow → List ℕ → List AnchorGroup
group_rows rows row_of = groups_of (add_rows 0 rows no_groups) row_of

-- The rows of one worker, in arenas with tables of offsets.
pub record AnchorShard : Type 0 where
  pub keys : Bytes
  pub key_off : List ℕ
  pub ancs : List Token
  pub anc_off : List ℕ

unfoldable pub fill_shard : List KeyedRow → AnchorShard → AnchorShard
fill_shard [] s = s
fill_shard (keyed ∷ rows) s = fill_shard rows (record {
  keys = s.keys ++ keyed.0;
  key_off = s.key_off ++ length (s.keys ++ keyed.0) ∷ [];
  ancs = s.ancs ++ keyed.1;
  anc_off = s.anc_off ++ length (s.ancs ++ keyed.1) ∷ [];
})

abbrev pub empty_shard : AnchorShard
empty_shard = record { keys = []; key_off = 0 ∷ []; ancs = []; anc_off = 0 ∷ [] }

-- `arena[off[j]:off[j+1]]`
abbrev pub arena_at {ℓ} : {A : Type ℓ} → List A → List ℕ → ℕ → List A
arena_at arena off j = take (get_or off (j + 1) 0 - get_or off j 0) (drop (get_or off j 0) arena)

-- The loop over the rows of a shard: `left` of them, from the `j`-th on.
unfoldable pub merge_shard : ℕ → ℕ → ℕ → AnchorShard → Grouping → Grouping
merge_shard zero row j s st = st
merge_shard (suc left) row j s st =
    merge_shard left (row + 1) (j + 1) s
      (add_row row (arena_at s.keys s.key_off j) (arena_at s.ancs s.anc_off j) st)

-- The path with several workers: the shard from `lo` to `hi` holds `rows[lo:hi]`.
unfoldable pub merge_shards : List Range → List KeyedRow → Grouping → Grouping
merge_shards [] rows st = st
merge_shards (r ∷ ranges) rows st = merge_shards ranges rows (
    merge_shard (r.hi - r.lo) r.lo 0 (fill_shard (take (r.hi - r.lo) (drop r.lo rows)) empty_shard)
      st)

-- Both paths: with several workers, and with one.
unfoldable pub group_by_keys : ℕ → List KeyedRow → List ℕ → List AnchorGroup
group_by_keys workers rows row_of =
    groups_of
      (if ltb 1 workers
        then merge_shards (shard_ranges (length rows) workers) rows no_groups
        else add_rows 0 rows no_groups)
      row_of
