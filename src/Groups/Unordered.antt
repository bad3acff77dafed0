-- ===== src/Groups/Unordered.antt =====
-- The groups of parser.go, read from a Go map in any order, and then sorted.
use tipping.Base.{
  subst, ◌≡◌, refl, sym, ap, ap₂, ◌∙◌, false, ◌||◌, List, ◌∷◌, Bytes, arith, bytes_eq,
}
use mathlib.Core.List.{Perm, Permᴰ}
use mathlib.Core.Logic.{∥∥₁_elim}
use tipping.Groups.{AnchorGroup, insert_group, sort_groups}
use tipping.Groups.Order.{has_key, HasDistinctKeys, insert_group_comm, bytes_eq-sym}

has_key-Permᴰ : (k : Bytes) {xs ys : List AnchorGroup} → Permᴰ xs ys → has_key k xs ≡ has_key k ys
has_key-Permᴰ k Permᴰ.nil = refl
has_key-Permᴰ k (Permᴰ.cons e d) = ap₂ (λ g b. bytes_eq g.key k || b) e (has_key-Permᴰ k d)
has_key-Permᴰ k (Permᴰ.swap {a} {b} {a'} {b'} {l} e f) =
    let first : bytes_eq a.key k ≡ bytes_eq b'.key k = ap (λ g. bytes_eq g.key k) e in
    let second : bytes_eq b.key k ≡ bytes_eq a'.key k = ap (λ g. bytes_eq g.key k) f in
    ground (arith)
has_key-Permᴰ k (Permᴰ.trans c d) = has_key-Permᴰ k c ∙ has_key-Permᴰ k d

swap-HasDistinctKeys :
    (a b : AnchorGroup) (l : List AnchorGroup)
    → HasDistinctKeys (a ∷ b ∷ l)
    → HasDistinctKeys (b ∷ a ∷ l)
swap-HasDistinctKeys a b l (h, (k, hs)) =
    let apart : bytes_eq b.key a.key ≡ false = ground arith in
    (ground (arith, bytes_eq-sym b.key a.key apart), (ground arith, hs))

HasDistinctKeys-Permᴰ :
    {xs ys : List AnchorGroup} → Permᴰ xs ys → HasDistinctKeys xs → HasDistinctKeys ys
HasDistinctKeys-Permᴰ Permᴰ.nil h = tt
HasDistinctKeys-Permᴰ (Permᴰ.cons {a} {b} {l₁} {l₂} e d) (h, hs) = (
  (subst (λ g. has_key g.key l₂ ≡ false) e (sym (has_key-Permᴰ a.key d) ∙ h)),
  HasDistinctKeys-Permᴰ d hs,
)
HasDistinctKeys-Permᴰ (Permᴰ.swap {a} {b} {a'} {b'} {l} e f) h =
    subst (λ x. HasDistinctKeys (x ∷ b' ∷ l)) f
      (subst (λ y. HasDistinctKeys (b ∷ y ∷ l)) e (swap-HasDistinctKeys a b l h))
HasDistinctKeys-Permᴰ (Permᴰ.trans c d) h = HasDistinctKeys-Permᴰ d (HasDistinctKeys-Permᴰ c h)

sort_groups-Permᴰ :
    {xs ys : List AnchorGroup} → Permᴰ xs ys → HasDistinctKeys xs → sort_groups xs ≡ sort_groups ys
sort_groups-Permᴰ Permᴰ.nil h = refl
sort_groups-Permᴰ (Permᴰ.cons e d) (h, hs) = ap₂ insert_group e (sort_groups-Permᴰ d hs)
sort_groups-Permᴰ (Permᴰ.swap {a} {b} {a'} {b'} {l} e f) (h, hs) =
    let apart : bytes_eq b.key a.key ≡ false = ground arith in
    insert_group_comm a b (sort_groups l) (bytes_eq-sym b.key a.key apart)
    ∙ ap₂ (λ x y. insert_group x (insert_group y (sort_groups l))) f e
sort_groups-Permᴰ (Permᴰ.trans c d) h =
    sort_groups-Permᴰ c h ∙ sort_groups-Permᴰ d (HasDistinctKeys-Permᴰ c h)

-- Groups of different keys come out of the sort in one order, whatever the order of the map's
-- iteration.
pub sort_groups-Perm :
    (xs ys : List AnchorGroup) → HasDistinctKeys xs → Perm xs ys → sort_groups xs ≡ sort_groups ys
sort_groups-Perm xs ys h p = ∥∥₁_elim p (hlevel) (λ d. sort_groups-Permᴰ d h)
