-- ===== src/Groups/Partition.antt =====
-- The rows and the messages of each group (parser.go).
use tipping.Base.{
  subst, append-nil, ℕ, zero, suc, ◌+◌, ◌<◌, ◌≡◌, ◌≢◌, refl, sym, ap, ◌∙◌, true, false, List, [],
  ◌∷◌, ◌++◌, some, length, get_or, get_elem?, Bytes, if◌then◌else◌, map, arith, Option-cases,
  Bool-cases, inl, inr, ◌⊎◌, append_assoc, bytes_eq, bytes_eq→eq, bytes_eq_refl, All, length-append,
}
use mathlib.Core.Option.{none-ne-some, some-injective}
use tipping.Dict.{Dict, lookup}
use tipping.Groups.{
  AnchorGroup, Grouping, KeyedRow, modify, push_index, add_rows, add_indices, no_groups, groups_of,
  group_rows,
}
use tipping.Groups.Order.{
  has_key, HasDistinctKeys, IsAscending, has_key-sort_groups, All-sort_groups,
  sort_groups-IsAscending,
}
use tipping.Groups.Rows.{
  text_in, positions, positions-snoc, PointTo, IsGrouping, get_elem?-modify, modify-found,
}
use tipping.Groups.Join.{keys_of, add_rows-start}

-- The key of each message, through the message's row.
abbrev pub message_keys : List Bytes → List ℕ → List Bytes
message_keys keys = map (λ r. get_or keys r [])

-- Groups by key: each group has just the rows and just the messages of its key, in order, no key is
-- without a group, and the groups stand in the order of their keys.
pub record IsPartition (keys messages : List Bytes) (groups : List AnchorGroup) : Type 0 where
  pub rows : All (λ g. g.rows ≡ positions g.key 0 keys) groups
  pub indices : All (λ g. g.indices ≡ positions g.key 0 messages) groups
  pub every_key : (k : Bytes) → has_key k groups ≡ text_in k keys
  pub ascending : IsAscending groups

-- The groups behind the pointers of a map.
record HasGroups (merged : Dict ℕ) (keys messages : List Bytes) (groups : List AnchorGroup)
    : Type 0 where
  indexed : (p : ℕ) (g : AnchorGroup) → get_elem? groups p ≡ some g → lookup g.key merged ≡ some p
  found :
      (k : Bytes) (p : ℕ)
      → lookup k merged ≡ some p
      → (g : AnchorGroup) × (get_elem? groups p ≡ some g) × (g.key ≡ k)
  held :
      (p : ℕ) (g : AnchorGroup)
      → get_elem? groups p ≡ some g
      → (g.rows ≡ positions g.key 0 keys) × (g.indices ≡ positions g.key 0 messages)

module _ (merged : Dict ℕ) (keys messages : List Bytes) (groups : List AnchorGroup)
    (h : HasGroups merged keys messages groups) (k : Bytes) (p : ℕ)
    (e : lookup k merged ≡ some p) where
  push_index-held :
      (q : ℕ) (g x : AnchorGroup)
      → get_elem? groups q ≡ some x
      → ((q ≡ p) × (g ≡ push_index (length messages) x)) ⊎ ((q ≢ p) × (g ≡ x))
      → (g.rows ≡ positions g.key 0 keys) × (g.indices ≡ positions g.key 0 (messages ++ k ∷ []))
  push_index-held q g x old (inl (same, v)) =
      let (y, at, named) = h.found k p e in
      let there : x ≡ y = cc in
      let name : x.key ≡ k = ap (λ z. z.key) there ∙ named in
      let (rows, indices) = h.held q x old in
      let zero_first : 0 + length messages ≡ length messages = omega arith in
      let eq = subst (λ z. bytes_eq k z ≡ true) (sym name) (bytes_eq_refl k) in
      subst
        (λ z.
          (z.rows ≡ positions z.key 0 keys) × (z.indices ≡ positions z.key 0 (messages ++ k ∷ [])))
        (sym v)
        (
          rows,
          ap (λ l. l ++ length messages ∷ []) indices
              ∙ sym (positions-snoc x.key 0 messages k ∙ rw (eq, zero_first) refl),
        )
  push_index-held q g x old (inr (apart, v)) =
      let (rows, indices) = h.held q x old in
      let own = h.indexed q x old in
      let other : bytes_eq k x.key ≡ false = elim (Bool-cases (bytes_eq k x.key)) [
        | inl same ↦
            let text = bytes_eq→eq k x.key same in
            absurd (apart (cc (ap (λ z. lookup z merged) text)))
        | inr f ↦ f
      ] in
      subst
        (λ z.
          (z.rows ≡ positions z.key 0 keys) × (z.indices ≡ positions z.key 0 (messages ++ k ∷ [])))
        (sym v) (rows, indices ∙ sym (positions-snoc x.key 0 messages k ∙ rw other (append-nil _)))

  push_index-HasGroups :
      HasGroups merged keys (messages ++ k ∷ []) (modify groups p (push_index (length messages)))
  push_index-HasGroups = record {
    indexed = λ q g at.
        let (x, old, c) = get_elem?-modify groups p q (push_index (length messages)) g at in
        elim c [
          | inl (same, v) ↦ subst (λ y. lookup y.key merged ≡ some q) (sym v) (h.indexed q x old)
          | inr (apart, v) ↦ subst (λ y. lookup y.key merged ≡ some q) (sym v) (h.indexed q x old)
        ];
    found = λ j q f.
        modify-found groups p q (push_index (length messages)) j (λ g. refl) (h.found j q f);
    held = λ q g at.
        let (x, old, c) = get_elem?-modify groups p q (push_index (length messages)) g at in
        push_index-held q g x old c;
  }

PointTo-get_or :
    (merged : Dict ℕ) (row_group : List ℕ) (keys : List Bytes) (r : ℕ)
    → PointTo merged row_group keys
    → r < length keys
    → lookup (get_or keys r []) merged ≡ some (get_or row_group r 0)
PointTo-get_or merged [] [] r h lt = absurd (omega arith)
PointTo-get_or merged [] (k ∷ keys) r h lt = absurd h
PointTo-get_or merged (p ∷ row_group) [] r h lt = absurd h
PointTo-get_or merged (p ∷ row_group) (k ∷ keys) zero (e, h) lt = e
PointTo-get_or merged (p ∷ row_group) (k ∷ keys) (suc r) (e, h) lt =
    PointTo-get_or merged row_group keys r h (omega arith)

add_indices-HasGroups :
    (merged : Dict ℕ) (keys messages : List Bytes) (row_group row_of : List ℕ)
    (groups : List AnchorGroup)
    → PointTo merged row_group keys
    → All (λ r. r < length keys) row_of
    → HasGroups merged keys messages groups
    → HasGroups merged keys
        (messages ++ message_keys keys row_of)
        (add_indices (length messages) row_group row_of groups)
unfolding add_indices
add_indices-HasGroups merged keys messages row_group [] groups points lt h = rw append-nil h
add_indices-HasGroups merged keys messages row_group (r ∷ row_of) groups points (hr, lt) h =
    let k = get_or keys r [] in
    let p = get_or row_group r 0 in
    let next : length (messages ++ k ∷ []) ≡ length messages + 1 =
      length-append messages (k ∷ []) in
    let grown = modify groups p (push_index (length messages)) in
    subst (λ m. HasGroups merged keys m (add_indices (length messages + 1) row_group row_of grown))
      (append_assoc messages (k ∷ []) (message_keys keys row_of))
      (subst
        (λ n.
          HasGroups merged keys ((messages ++ k ∷ []) ++ message_keys keys row_of)
            (add_indices n row_group row_of grown))
        next
        (add_indices-HasGroups merged keys (messages ++ k ∷ []) row_group row_of grown points lt (
          push_index-HasGroups merged keys messages groups h k p
            (PointTo-get_or merged row_group keys r points hr))))

All-get_elem? :
    (P : AnchorGroup → Type 0) (groups : List AnchorGroup)
    → ((p : ℕ) (g : AnchorGroup) → get_elem? groups p ≡ some g → P g)
    → All P groups
All-get_elem? P [] h = tt
All-get_elem? P (g ∷ groups) h = (h 0 g refl, All-get_elem? P groups (λ p. h (suc p)))

has_key-get_elem? :
    (k : Bytes) (groups : List AnchorGroup)
    → has_key k groups ≡ true
    → (p : ℕ) × (g : AnchorGroup) × (get_elem? groups p ≡ some g) × (g.key ≡ k)
has_key-get_elem? k [] h = absurd (cc)
has_key-get_elem? k (x ∷ groups) h = elim (Bool-cases (bytes_eq x.key k)) [
  | inl e ↦ (0, x, refl, bytes_eq→eq x.key k e)
  | inr e ↦ let (p, g, at, v) = has_key-get_elem? k groups (ground arith) in (suc p, g, at, v)
]

get_elem?-has_key :
    (k : Bytes) (groups : List AnchorGroup) (p : ℕ) (g : AnchorGroup)
    → get_elem? groups p ≡ some g
    → g.key ≡ k
    → has_key k groups ≡ true
get_elem?-has_key k [] p g e v = absurd (cc)
get_elem?-has_key k (x ∷ groups) zero g e v =
    let there : x ≡ g = cc in
    let same : x.key ≡ k = ap (λ o. o.key) there ∙ v in
    let here = subst (λ z. bytes_eq x.key z ≡ true) same (bytes_eq_refl x.key) in ground arith
get_elem?-has_key k (x ∷ groups) (suc p) g e v = ground (arith, get_elem?-has_key k groups p g e v)

DistinctKeys-index :
    (merged : Dict ℕ) (s : ℕ) (groups : List AnchorGroup)
    → ((p : ℕ) (g : AnchorGroup) → get_elem? groups p ≡ some g → lookup g.key merged ≡ some (s + p))
    → HasDistinctKeys groups
DistinctKeys-index merged s [] h = tt
DistinctKeys-index merged s (x ∷ groups) h = (
  elim (Bool-cases (has_key x.key groups)) [
    | inl e ↦
        let (p, g, at, v) = has_key-get_elem? x.key groups e in
        let here = h 0 x refl in
        let there : lookup x.key merged ≡ some (s + suc p) =
          subst (λ k. lookup k merged ≡ some (s + suc p)) v (h (suc p) g at) in
        let same : s + 0 ≡ s + suc p = some-injective _ _ (sym here ∙ there) in
        absurd (omega (arith, same))
    | inr e ↦ e
  ],
  DistinctKeys-index merged (s + 1) groups (λ p g at. h (suc p) g at ∙ ap some (shift p)),
)
  where
    shift : (p : ℕ) → s + suc p ≡ s + 1 + p
    shift p = omega arith

positions-nil :
    (k : Bytes) (s : ℕ) (keys : List Bytes) → positions k s keys ≡ [] → text_in k keys ≡ false
positions-nil k s [] e = refl
positions-nil k s (x ∷ keys) e = elim (Bool-cases (bytes_eq x k)) [
  | inl same ↦ absurd (ground arith)
  | inr other ↦
      let rest : positions k (s + 1) keys ≡ [] =
        ap (λ b. (if b then s ∷ [] else []) ++ positions k (s + 1) keys) (sym other) ∙ e in
      ground (arith, positions-nil k (s + 1) keys rest)
]

every_key-text_in :
    (keys messages : List Bytes) (st : Grouping) (groups : List AnchorGroup) (k : Bytes)
    → IsGrouping keys st
    → HasGroups st.merged keys messages groups
    → has_key k groups ≡ text_in k keys
every_key-text_in keys messages st groups k i h = elim (Option-cases (lookup k st.merged)) [
  | inl e ↦
      let absent : has_key k groups ≡ false = elim (Bool-cases (has_key k groups)) [
        | inl yes_key ↦
            let (p, g, at, v) = has_key-get_elem? k groups yes_key in
            let own = subst (λ z. lookup z st.merged ≡ some p) v (h.indexed p g at) in
            absurd (none-ne-some p (sym e ∙ own))
        | inr f ↦ f
      ] in
      absent ∙ sym (positions-nil k 0 keys (i.nothing_else k e))
  | inr (p, e) ↦
      let (g, at, v) = h.found k p e in get_elem?-has_key k groups p g at v ∙ sym (i.from_row k p e)
]

-- The groups are a partition by key: each holds just the rows and just the messages of its key, in
-- ascending order, each key of a row has a group and no other key has one, and the groups ascend
-- strictly by their keys, when the row of each message is one of the rows.
pub group_rows-IsPartition :
    (rows : List KeyedRow) (row_of : List ℕ)
    → All (λ r. r < length (keys_of rows)) row_of
    → IsPartition (keys_of rows) (message_keys (keys_of rows) row_of) (group_rows rows row_of)
unfolding group_rows groups_of
group_rows-IsPartition rows row_of lt =
    let keys = keys_of rows in
    let st = add_rows 0 rows no_groups in
    let i = add_rows-start rows in
    let groups = add_indices 0 st.row_group row_of st.groups in
    let h : HasGroups st.merged keys (message_keys keys row_of) groups =
      add_indices-HasGroups st.merged keys [] st.row_group row_of st.groups i.points lt
        (record { indexed = i.indexed; found = i.found; held = i.held }) in
    let zero_first : (p : ℕ) → p ≡ 0 + p = λ p. omega arith in
    record {
      rows =
          All-sort_groups (λ g. g.rows ≡ positions g.key 0 keys) groups
            (All-get_elem? (λ g. g.rows ≡ positions g.key 0 keys) groups
              (λ p g at. (h.held p g at).0));
      indices =
          All-sort_groups (λ g. g.indices ≡ positions g.key 0 (message_keys keys row_of)) groups
            (All-get_elem? (λ g. g.indices ≡ positions g.key 0 (message_keys keys row_of)) groups
              (λ p g at. (h.held p g at).1));
      every_key = λ k.
          has_key-sort_groups k groups
          ∙ every_key-text_in keys (message_keys keys row_of) st groups k i h;
      ascending = sort_groups-IsAscending groups (
          DistinctKeys-index st.merged 0 groups
            (λ p g at. h.indexed p g at ∙ ap some (zero_first p)));
    }
