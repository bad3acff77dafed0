-- ===== src/Groups/Join.antt =====
-- One row more in the groups of parser.go, with a key that is there and with a new one.
use tipping.Base.{
  subst, append-nil, ℕ, ◌+◌, ◌≡◌, ◌≢◌, refl, sym, ap, ◌∙◌, true, false, List, [], ◌∷◌, ◌++◌, none,
  some, length, get_elem?, Bytes, map, arith, Option-cases, Bool-cases, inl, inr, ◌⊎◌,
  get_elem?-append_left, get_elem?-append_length, get_elem?-snoc, length-append, append_assoc,
  bytes_eq, bytes_eq→eq, bytes_eq_refl,
}
use mathlib.Core.Option.{none-ne-some}
use tipping.Dict.{lookup, lookup_self, lookup_other, lookup_new}
use tipping.Token.{Token}
use tipping.Groups.{AnchorGroup, Grouping, KeyedRow, modify, push_row, add_row, add_rows, no_groups}
use tipping.Groups.Rows.{
  text_in, text_in-snoc, positions, positions-snoc, IsGrouping, PointTo-snoc, PointTo-new,
  get_elem?-modify, modify-found,
}

zero_start : (n : ℕ) → 0 + n ≡ n
zero_start n = omega arith

-- A row whose key is there, and one whose key is new.
known_key : ℕ → ℕ → Grouping → Grouping
known_key row p st = record st {
  groups = modify st.groups p (push_row row);
  row_group = st.row_group ++ p ∷ [];
}

new_key : ℕ → Bytes → List Token → Grouping → Grouping
new_key row key ordered st = record {
  groups = st.groups ++ record { key = key; anchors = ordered; rows = row ∷ []; indices = [] } ∷ [];
  merged = (key, length st.groups) ∷ st.merged;
  row_group = st.row_group ++ length st.groups ∷ [];
}

module _ (keys : List Bytes) (key : Bytes) (st : Grouping) (h : IsGrouping keys st) where
  positions-same : positions key 0 (keys ++ key ∷ []) ≡ positions key 0 keys ++ length keys ∷ []
  positions-same =
      let e = bytes_eq_refl key in
      positions-snoc key 0 keys key ∙ rw (e, zero_start (length keys)) refl

  positions-apart :
      (k : Bytes) → bytes_eq key k ≡ false → positions k 0 (keys ++ key ∷ []) ≡ positions k 0 keys
  positions-apart k e = positions-snoc k 0 keys key ∙ rw e (append-nil _)

  other_key : (k : Bytes) → lookup k st.merged ≢ lookup key st.merged → bytes_eq key k ≡ false
  other_key k apart = elim (Bool-cases (bytes_eq key k)) [
    | inl same ↦ absurd (apart (ap (λ x. lookup x st.merged) (sym (bytes_eq→eq key k same))))
    | inr e ↦ e
  ]

  known_key-held :
      (p q : ℕ) (g x : AnchorGroup)
      → lookup key st.merged ≡ some p
      → get_elem? st.groups q ≡ some x
      → ((q ≡ p) × (g ≡ push_row (length keys) x)) ⊎ ((q ≢ p) × (g ≡ x))
      → (g.rows ≡ positions g.key 0 (keys ++ key ∷ [])) × (g.indices ≡ [])
  known_key-held p q g x e old (inl (same, v)) =
      let (y, at, named) = h.found key p e in
      let there : x ≡ y = cc in
      let name : x.key ≡ key = ap (λ z. z.key) there ∙ named in
      let (rows, none_yet) = h.held q x old in
      subst (λ z. (z.rows ≡ positions z.key 0 (keys ++ key ∷ [])) × (z.indices ≡ [])) (sym v)
        (
          ap (λ l. l ++ length keys ∷ []) rows
              ∙ subst
                  (λ k. positions k 0 keys ++ length keys ∷ [] ≡ positions k 0 (keys ++ key ∷ []))
                  (sym name) (sym positions-same),
          none_yet,
        )
  known_key-held p q g x e old (inr (apart, v)) =
      let (rows, none_yet) = h.held q x old in
      let own = h.indexed q x old in
      let far : lookup x.key st.merged ≢ lookup key st.merged = λ f. apart (cc) in
      subst (λ z. (z.rows ≡ positions z.key 0 (keys ++ key ∷ [])) × (z.indices ≡ [])) (sym v)
        (rows ∙ sym (positions-apart x.key (other_key x.key far)), none_yet)

  known_key-IsGrouping :
      (p : ℕ)
      → lookup key st.merged ≡ some p
      → IsGrouping (keys ++ key ∷ []) (known_key (length keys) p st)
  unfolding known_key
  known_key-IsGrouping p e = record {
    indexed = λ q g at.
        let (x, old, c) = get_elem?-modify st.groups p q (push_row (length keys)) g at in
        elim c [
          | inl (same, v) ↦ subst (λ y. lookup y.key st.merged ≡ some q) (sym v) (h.indexed q x old)
          | inr (apart, v) ↦
              subst (λ y. lookup y.key st.merged ≡ some q) (sym v) (h.indexed q x old)
        ];
    found =
        λ k q f. modify-found st.groups p q (push_row (length keys)) k (λ g. refl) (h.found k q f);
    held = λ q g at.
        let (x, old, c) = get_elem?-modify st.groups p q (push_row (length keys)) g at in
        known_key-held p q g x e old c;
    from_row = λ k q f. ground (arith, text_in-snoc k keys key, h.from_row k q f);
    points = PointTo-snoc st.merged st.row_group keys p key e h.points;
    nothing_else = λ k f.
        positions-apart k (other_key k (λ g. none-ne-some p (sym f ∙ g ∙ e))) ∙ h.nothing_else k f;
  }

  new_key-held :
      (q : ℕ) (g made : AnchorGroup)
      → lookup key st.merged ≡ none
      → made.key ≡ key
      → made.rows ≡ length keys ∷ []
      → made.indices ≡ []
      → (get_elem? st.groups q ≡ some g) ⊎ ((q ≡ length st.groups) × (g ≡ made))
      → (g.rows ≡ positions g.key 0 (keys ++ key ∷ [])) × (g.indices ≡ [])
  new_key-held q g made e name row none_yet (inl old) =
      let (rows, empty) = h.held q g old in
      let own = h.indexed q g old in
      let far : lookup g.key st.merged ≢ lookup key st.merged =
        λ f. none-ne-some q (sym e ∙ sym f ∙ own) in
      (rows ∙ sym (positions-apart g.key (other_key g.key far)), empty)
  new_key-held q g made e name row none_yet (inr (at_end, v)) =
      subst (λ z. (z.rows ≡ positions z.key 0 (keys ++ key ∷ [])) × (z.indices ≡ [])) (sym v)
        (
          row
              ∙ sym (ap (λ l. l ++ length keys ∷ []) (h.nothing_else key e))
              ∙ sym positions-same
              ∙ ap (λ k. positions k 0 (keys ++ key ∷ [])) (sym name),
          none_yet,
        )

  new_key-found :
      (made : AnchorGroup) (k : Bytes) (q : ℕ)
      → made.key ≡ key
      → lookup key st.merged ≡ none
      → lookup k ((key, length st.groups) ∷ st.merged) ≡ some q
      → (g : AnchorGroup) × (get_elem? (st.groups ++ made ∷ []) q ≡ some g) × (g.key ≡ k)
  new_key-found made k q name e f = elim (Bool-cases (bytes_eq key k)) [
    | inl same ↦
        let text : key ≡ k = bytes_eq→eq key k same in
        let here : lookup k ((key, length st.groups) ∷ st.merged) ≡ some (length st.groups) =
          subst (λ x. lookup x ((key, length st.groups) ∷ st.merged) ≡ some (length st.groups)) text
            (lookup_self key (length st.groups) st.merged) in
        let at_end : length st.groups ≡ q = cc in
        (
          made,
          subst (λ n. get_elem? (st.groups ++ made ∷ []) n ≡ some made) at_end
              (get_elem?-append_length st.groups made []),
          name ∙ text,
        )
    | inr other ↦
        let (g, at, v) =
          h.found k q (sym (lookup_other key k (length st.groups) st.merged other) ∙ f) in
        (g, get_elem?-append_left st.groups (made ∷ []) q at, v)
  ]

  new_key-indexed :
      (q : ℕ) (g made : AnchorGroup)
      → made.key ≡ key
      → lookup key st.merged ≡ none
      → (get_elem? st.groups q ≡ some g) ⊎ ((q ≡ length st.groups) × (g ≡ made))
      → lookup g.key ((key, length st.groups) ∷ st.merged) ≡ some q
  new_key-indexed q g made name e (inl old) =
      lookup_new key g.key (length st.groups) st.merged e (h.indexed q g old)
  new_key-indexed q g made name e (inr (at_end, v)) =
      subst (λ k. lookup k ((key, length st.groups) ∷ st.merged) ≡ some q)
        (sym (ap (λ z. z.key) v ∙ name))
        (lookup_self key (length st.groups) st.merged ∙ ap some (sym at_end))

  new_key-nothing :
      (k : Bytes)
      → lookup k ((key, length st.groups) ∷ st.merged) ≡ none
      → positions k 0 (keys ++ key ∷ []) ≡ []
  new_key-nothing k f = elim (Bool-cases (bytes_eq key k)) [
    | inl same ↦
        let text : key ≡ k = bytes_eq→eq key k same in
        absurd (
          none-ne-some (length st.groups) (
            sym f
            ∙ ap (λ x. lookup x ((key, length st.groups) ∷ st.merged)) (sym text)
            ∙ lookup_self key (length st.groups) st.merged))
    | inr other ↦
        positions-apart k other
        ∙ h.nothing_else k (sym (lookup_other key k (length st.groups) st.merged other) ∙ f)
  ]

  new_key-from_row :
      (k : Bytes) (q : ℕ)
      → lookup k ((key, length st.groups) ∷ st.merged) ≡ some q
      → text_in k (keys ++ key ∷ []) ≡ true
  new_key-from_row k q f = elim (Bool-cases (bytes_eq key k)) [
    | inl same ↦ ground (arith, text_in-snoc k keys key)
    | inr other ↦
        let old =
          h.from_row k q (sym (lookup_other key k (length st.groups) st.merged other) ∙ f) in
        ground (arith, text_in-snoc k keys key)
  ]

  new_key-IsGrouping :
      (ordered : List Token)
      → lookup key st.merged ≡ none
      → IsGrouping (keys ++ key ∷ []) (new_key (length keys) key ordered st)
  unfolding new_key
  new_key-IsGrouping ordered e =
      let made : AnchorGroup = record {
        key = key;
        anchors = ordered;
        rows = length keys ∷ [];
        indices = [];
      } in
      record {
        indexed = λ q g at. new_key-indexed q g made refl e (get_elem?-snoc st.groups made q at);
        found = λ k q f. new_key-found made k q refl e f;
        held =
            λ q g at. new_key-held q g made e refl refl refl (get_elem?-snoc st.groups made q at);
        from_row = new_key-from_row;
        points =
            PointTo-snoc ((key, length st.groups) ∷ st.merged) st.row_group keys (length st.groups)
              key (lookup_self key (length st.groups) st.merged)
              (PointTo-new key (length st.groups) st.merged st.row_group keys e h.points);
        nothing_else = new_key-nothing;
      }

  add_row-IsGrouping :
      (ordered : List Token) → IsGrouping (keys ++ key ∷ []) (add_row (length keys) key ordered st)
  unfolding add_row
  add_row-IsGrouping ordered = elim (Option-cases (lookup key st.merged)) [
    | inl e ↦ rw (e, add_row) (unfold new_key in new_key-IsGrouping ordered e)
    | inr (p, e) ↦ rw (e, add_row) (unfold known_key in known_key-IsGrouping p e)
  ]

-- The keys of rows.
abbrev pub keys_of : List KeyedRow → List Bytes
keys_of = map (λ keyed. keyed.0)

add_rows-IsGrouping :
    (before : List Bytes) (rows : List KeyedRow) (st : Grouping)
    → IsGrouping before st
    → IsGrouping (before ++ keys_of rows) (add_rows (length before) rows st)
unfolding add_rows
add_rows-IsGrouping before [] st h = rw append-nil h
add_rows-IsGrouping before (keyed ∷ rows) st h =
    let next : length (before ++ keyed.0 ∷ []) ≡ length before + 1 =
      length-append before (keyed.0 ∷ []) in
    subst
      (λ keys.
        IsGrouping keys
          (add_rows (length before + 1) rows (add_row (length before) keyed.0 keyed.1 st)))
      (append_assoc before (keyed.0 ∷ []) (keys_of rows))
      (subst
        (λ n.
          IsGrouping ((before ++ keyed.0 ∷ []) ++ keys_of rows)
            (add_rows n rows (add_row (length before) keyed.0 keyed.1 st)))
        next
        (add_rows-IsGrouping (before ++ keyed.0 ∷ []) rows
          (add_row (length before) keyed.0 keyed.1 st)
          (add_row-IsGrouping before keyed.0 st h keyed.1)))

pub add_rows-start : (rows : List KeyedRow) → IsGrouping (keys_of rows) (add_rows 0 rows no_groups)
add_rows-start rows = add_rows-IsGrouping [] rows no_groups (record {
  indexed = λ p g at. absurd (cc);
  found = λ k p f. absurd (unfold lookup in cc);
  held = λ p g at. absurd (cc);
  from_row = λ k p f. absurd (unfold lookup in cc);
  points = tt;
  nothing_else = λ k e. refl;
})
