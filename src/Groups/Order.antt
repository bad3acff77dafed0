-- ===== src/Groups/Order.antt =====
-- The order of texts, and the groups of parser.go sorted by it.
use tipping.Base.{
  ◌≡◌, refl, ap, ◌∙◌, Bool, true, false, ◌||◌, List, [], ◌∷◌, Bytes, arith, inl, inr, Bool-cases,
  bytes_eq, All,
}
use tipping.Groups.{AnchorGroup, bytes_ltb, insert_group, sort_groups}

pub bytes_ltb-asym : (a b : Bytes) → bytes_ltb a b ≡ true → bytes_ltb b a ≡ false
bytes_ltb-asym [] [] h = refl
bytes_ltb-asym [] (c ∷ t) h = refl
bytes_ltb-asym (b ∷ s) [] h = absurd (cc)
bytes_ltb-asym (b ∷ s) (c ∷ t) h = ground (arith, bytes_ltb-asym s t)

pub bytes_ltb-total :
    (a b : Bytes) → bytes_eq a b ≡ false → bytes_ltb a b ≡ false → bytes_ltb b a ≡ true
bytes_ltb-total [] [] h k = absurd (cc)
bytes_ltb-total [] (c ∷ t) h k = absurd (cc)
bytes_ltb-total (b ∷ s) [] h k = refl
bytes_ltb-total (b ∷ s) (c ∷ t) h k = ground (arith, bytes_ltb-total s t)

pub bytes_ltb_trans :
    (a b c : Bytes) → bytes_ltb a b ≡ true → bytes_ltb b c ≡ true → bytes_ltb a c ≡ true
bytes_ltb_trans [] [] c h k = absurd (cc)
bytes_ltb_trans a (y ∷ b) [] h k = absurd (cc)
bytes_ltb_trans [] (y ∷ b) (z ∷ c) h k = refl
bytes_ltb_trans (x ∷ a) [] c h k = absurd (cc)
bytes_ltb_trans (x ∷ a) (y ∷ b) (z ∷ c) h k = ground (arith, bytes_ltb_trans a b c)

-- A group of the list has the key.
abbrev pub has_key : Bytes → List AnchorGroup → Bool
has_key k [] = false
has_key k (g ∷ groups) = bytes_eq g.key k || has_key k groups

-- No key twice.
abbrev pub HasDistinctKeys : List AnchorGroup → Type 0
HasDistinctKeys [] = Unit {0}
HasDistinctKeys (g ∷ groups) = (has_key g.key groups ≡ false) × HasDistinctKeys groups

-- Each key is less than all that follow.
abbrev pub IsAscending : List AnchorGroup → Type 0
IsAscending [] = Unit {0}
IsAscending (g ∷ groups) = All (λ x. bytes_ltb g.key x.key ≡ true) groups × IsAscending groups

pub has_key-insert_group :
    (k : Bytes) (g : AnchorGroup) (groups : List AnchorGroup)
    → has_key k (insert_group g groups) ≡ bytes_eq g.key k || has_key k groups
has_key-insert_group k g [] = refl
has_key-insert_group k g (x ∷ groups) = ground (arith, has_key-insert_group k g groups)

pub has_key-sort_groups :
    (k : Bytes) (groups : List AnchorGroup) → has_key k (sort_groups groups) ≡ has_key k groups
has_key-sort_groups k [] = refl
has_key-sort_groups k (g ∷ groups) =
    has_key-insert_group k g (sort_groups groups)
    ∙ ap (λ b. bytes_eq g.key k || b) (has_key-sort_groups k groups)

module _ (P : AnchorGroup → Type 0) where
  All-insert_group :
      (g : AnchorGroup) (groups : List AnchorGroup)
      → P g
      → All P groups
      → All P (insert_group g groups)
  All-insert_group g [] h hs = (h, tt)
  All-insert_group g (x ∷ groups) h (hx, hs) = elim (Bool-cases (bytes_ltb g.key x.key)) [
    | inl e ↦ rw e (h, (hx, hs))
    | inr e ↦ rw e (hx, All-insert_group g groups h hs)
  ]

  pub All-sort_groups : (groups : List AnchorGroup) → All P groups → All P (sort_groups groups)
  All-sort_groups [] h = tt
  All-sort_groups (g ∷ groups) (h, hs) =
      All-insert_group g (sort_groups groups) h (All-sort_groups groups hs)

All-above :
    (k x : Bytes) (groups : List AnchorGroup)
    → bytes_ltb k x ≡ true
    → All (λ y. bytes_ltb x y.key ≡ true) groups
    → All (λ y. bytes_ltb k y.key ≡ true) groups
All-above k x [] h hs = tt
All-above k x (y ∷ groups) h (hy, hs) = (bytes_ltb_trans k x y.key h hy, All-above k x groups h hs)

pub bytes_eq-sym : (a b : Bytes) → bytes_eq a b ≡ false → bytes_eq b a ≡ false
bytes_eq-sym [] [] h = h
bytes_eq-sym [] (c ∷ t) h = refl
bytes_eq-sym (b ∷ s) [] h = refl
bytes_eq-sym (b ∷ s) (c ∷ t) h = ground (arith, bytes_eq-sym s t)

insert_group-IsAscending :
    (g : AnchorGroup) (groups : List AnchorGroup)
    → has_key g.key groups ≡ false
    → IsAscending groups
    → IsAscending (insert_group g groups)
insert_group-IsAscending g [] h a = (tt, tt)
insert_group-IsAscending g (x ∷ groups) h (ax, a) = elim (Bool-cases (bytes_ltb g.key x.key)) [
  | inl e ↦ rw e ((e, All-above g.key x.key groups e ax), (ax, a))
  | inr e ↦
      let apart : bytes_eq x.key g.key ≡ false = ground arith in
      rw e (
        All-insert_group (λ y. bytes_ltb x.key y.key ≡ true) g groups
            (bytes_ltb-total g.key x.key (bytes_eq-sym x.key g.key apart) e) ax,
        insert_group-IsAscending g groups (ground arith) a,
      )
]

pub sort_groups-IsAscending :
    (groups : List AnchorGroup) → HasDistinctKeys groups → IsAscending (sort_groups groups)
sort_groups-IsAscending [] h = tt
sort_groups-IsAscending (g ∷ groups) (h, hs) =
    insert_group-IsAscending g (sort_groups groups) (has_key-sort_groups g.key groups ∙ h)
      (sort_groups-IsAscending groups hs)

pub insert_group_comm :
    (a b : AnchorGroup) (groups : List AnchorGroup)
    → bytes_eq a.key b.key ≡ false
    → insert_group a (insert_group b groups) ≡ insert_group b (insert_group a groups)
insert_group_comm a b [] h =
    ground (arith, bytes_ltb-total a.key b.key h, bytes_ltb-asym a.key b.key)
insert_group_comm a b (x ∷ groups) h = ground (
  arith,
  insert_group_comm a b groups h,
  bytes_ltb-total a.key b.key h,
  bytes_ltb-asym a.key b.key,
  bytes_ltb_trans a.key b.key x.key,
  bytes_ltb_trans b.key a.key x.key,
)
