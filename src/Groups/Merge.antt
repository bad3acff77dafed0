-- ===== src/Groups/Merge.antt =====
-- The shards of several workers, merged in the order of the rows (parser.go).
use tipping.Base.{
  subst, ℕ, zero, suc, ◌+◌, ◌-◌, ◌/◌, ◌≤◌, ◌<◌, ◌≡◌, refl, sym, ap, ap₂, ◌∙◌, List, [], ◌∷◌, ◌++◌,
  length, get_or, take, drop, drop-nil, ltb, map, arith, append_assoc, length-append, length-take,
  length-drop, length-map, take-append-drop, drop-add, Bool-cases, inl, inr,
}
use tipping.Groups.{
  KeyedRow, AnchorShard, Grouping, fill_shard, empty_shard, arena_at, merge_shard, merge_shards,
  add_row, add_rows, no_groups, groups_of, group_by_keys, group_rows,
}
use tipping.Groups.Arena.{IsShard, start-IsArena, fill_shard-IsShard}
use tipping.Shards.{shard_loop, shard_ranges}
use tipping.Shards.Cover.{chunk_pos}

map-split :
    {A : Type 0} (f : KeyedRow → List A) (before : List KeyedRow) (keyed : KeyedRow)
    (rows : List KeyedRow)
    → get_or (map f (before ++ keyed ∷ rows)) (length before) [] ≡ f keyed
map-split f [] keyed rows = refl
map-split f (k ∷ before) keyed rows = map-split f before keyed rows

merge_shard-add_rows :
    (before rows : List KeyedRow) (row : ℕ) (s : AnchorShard) (st : Grouping)
    → IsShard (before ++ rows) s
    → merge_shard (length rows) row (length before) s st ≡ add_rows row rows st
unfolding merge_shard add_rows
merge_shard-add_rows before [] row s st h = refl
merge_shard-add_rows before (keyed ∷ rows) row s st h =
    let all_in = before ++ keyed ∷ rows in
    let here : (n : ℕ) → n ≡ length all_in → length before < n =
      λ n e. omega (arith, e, length-append before (keyed ∷ rows)) in
    let key : arena_at s.keys s.key_off (length before) ≡ keyed.0 =
      h.keys.reads (length before) (here _ (length-map all_in (λ k. k.0)))
      ∙ map-split (λ k. k.0) before keyed rows in
    let anchors : arena_at s.ancs s.anc_off (length before) ≡ keyed.1 =
      h.ancs.reads (length before) (here _ (length-map all_in (λ k. k.1)))
      ∙ map-split (λ k. k.1) before keyed rows in
    let step = add_row row keyed.0 keyed.1 st in
    let next : length (before ++ keyed ∷ []) ≡ length before + 1 =
      length-append before (keyed ∷ []) in
    ap₂ (λ k o. merge_shard (length rows) (row + 1) (length before + 1) s (add_row row k o st)) key
      anchors
    ∙ (subst (λ n. merge_shard (length rows) (row + 1) n s step ≡ add_rows (row + 1) rows step) next
        (merge_shard-add_rows (before ++ keyed ∷ []) rows (row + 1) s step
          (subst (λ l. IsShard l s) (sym (append_assoc before (keyed ∷ []) rows)) h)))

shard-add_rows :
    (rows : List KeyedRow) (n row : ℕ) (st : Grouping)
    → n ≡ length rows
    → merge_shard n row 0 (fill_shard rows empty_shard) st ≡ add_rows row rows st
shard-add_rows rows n row st e =
    ap (λ k. merge_shard k row 0 (fill_shard rows empty_shard) st) e
    ∙ merge_shard-add_rows [] rows row (fill_shard rows empty_shard) st (
        fill_shard-IsShard [] rows empty_shard
          (record { keys = start-IsArena; ancs = start-IsArena }))

add_rows-append :
    (row : ℕ) (xs ys : List KeyedRow) (st : Grouping)
    → add_rows row (xs ++ ys) st ≡ add_rows (row + length xs) ys (add_rows row xs st)
unfolding add_rows
add_rows-append row [] ys st = let e : row + 0 ≡ row = omega arith in rw e refl
add_rows-append row (x ∷ xs) ys st =
    let e : row + suc (length xs) ≡ row + 1 + length xs = omega arith in
    rw e (add_rows-append (row + 1) xs ys (add_row row x.0 x.1 st))

-- A range from the rows on, and then the rest.
range-add_rows :
    (lo n : ℕ) (rows : List KeyedRow) (st : Grouping)
    → n ≤ length (drop lo rows)
    → add_rows
        (lo + n)
        (drop (lo + n) rows)
        (merge_shard n lo 0 (fill_shard (take n (drop lo rows)) empty_shard) st)
      ≡ add_rows lo (drop lo rows) st
range-add_rows lo n rows st h =
    let size : length (take n (drop lo rows)) ≡ n = omega (arith, length-take n (drop lo rows)) in
    ap (add_rows (lo + n) (drop (lo + n) rows))
      (shard-add_rows (take n (drop lo rows)) n lo st (sym size))
    ∙ ap₂ (λ k l. add_rows (lo + k) l (add_rows lo (take n (drop lo rows)) st)) (sym size)
        (drop-add lo n rows)
    ∙ sym (add_rows-append lo (take n (drop lo rows)) (drop n (drop lo rows)) st)
    ∙ ap (λ l. add_rows lo l st) (take-append-drop n (drop lo rows))

drop-all : (n : ℕ) (rows : List KeyedRow) → length rows ≤ n → drop n rows ≡ []
drop-all n [] h = drop-nil n
drop-all zero (x ∷ rows) h = absurd (omega arith)
drop-all (suc n) (x ∷ rows) h = drop-all n rows (omega arith)

nothing_left :
    (i j : ℕ) (rows : List KeyedRow) (st : Grouping)
    → length rows ≤ i
    → length rows ≤ j
    → add_rows i (drop i rows) st ≡ add_rows j (drop j rows) st
unfolding add_rows
nothing_left i j rows st h k = rw (drop-all i rows h, drop-all j rows k) refl

shard_loop-add_rows :
    (fuel lo chunk : ℕ) (rows : List KeyedRow) (st : Grouping)
    → length rows ≤ lo + fuel
    → 0 < chunk
    → merge_shards (shard_loop fuel lo (length rows) chunk) rows st ≡ add_rows lo (drop lo rows) st
unfolding shard_loop merge_shards
shard_loop-add_rows zero lo chunk rows st h pos =
    let e = drop-all lo rows (omega arith) in rw e (unfold add_rows in refl)
shard_loop-add_rows (suc fuel) lo chunk rows st h pos = elim (Bool-cases (ltb lo (length rows))) [
  | inr e ↦
      let f = drop-all lo rows (ground arith) in
      rw e (sym (ap (λ l. add_rows lo l st) f ∙ (unfold add_rows in refl)))
  | inl e ↦ elim (Bool-cases (ltb (length rows) (lo + chunk))) [
    | inl last ↦
        let n = length rows - lo in
        let st' = merge_shard n lo 0 (fill_shard (take n (drop lo rows)) empty_shard) st in
        rw (e, last)
          (shard_loop-add_rows fuel (lo + chunk) chunk rows st' (omega arith) pos
            ∙ nothing_left (lo + chunk) (lo + n) rows st' (ground arith) (ground arith)
            ∙ range-add_rows lo n rows st (ground (arith, length-drop lo rows)))
    | inr more ↦
        let whole : lo + chunk - lo ≡ chunk = omega arith in
        let st' = merge_shard chunk lo 0 (fill_shard (take chunk (drop lo rows)) empty_shard) st in
        rw (e, more, whole)
          (shard_loop-add_rows fuel (lo + chunk) chunk rows st' (omega arith) pos
            ∙ range-add_rows lo chunk rows st (ground (arith, length-drop lo rows)))
  ]
]

shard_ranges-add_rows :
    (workers : ℕ) (rows : List KeyedRow)
    → 0 < workers
    → merge_shards (shard_ranges (length rows) workers) rows no_groups ≡ add_rows 0 rows no_groups
unfolding shard_ranges
shard_ranges-add_rows workers [] h =
    unfold shard_loop in unfold merge_shards in unfold add_rows in refl
shard_ranges-add_rows workers (x ∷ rows) h =
    let n = length (x ∷ rows) in
    shard_loop-add_rows n 0 ((n + workers - 1) / workers) (x ∷ rows) no_groups (omega arith)
      (chunk_pos n workers h (omega arith))

-- Grouping by shards, whose keys and anchors are read back from arenas, gives what the serial path
-- gives, for any number of workers.
pub group_by_keys-serial :
    (workers : ℕ) (rows : List KeyedRow) (row_of : List ℕ)
    → group_by_keys workers rows row_of ≡ group_rows rows row_of
unfolding group_by_keys group_rows
group_by_keys-serial workers rows row_of = elim (Bool-cases (ltb 1 workers)) [
  | inr e ↦ rw e refl
  | inl e ↦
      rw e (ap (λ st. groups_of st row_of) (shard_ranges-add_rows workers rows (ground arith)))
]
