-- ===== src/Groups/Rows.antt =====
-- Rows joining groups (`addRow` of parser.go).
use tipping.Base.{
  ℕ_discrete, subst, append-nil, ℕ, zero, suc, ◌+◌, ◌≡◌, ◌≢◌, refl, sym, ap, ◌∙◌, Bool, true, false,
  ◌||◌, List, [], ◌∷◌, ◌++◌, none, some, length, get_elem?, Bytes, if◌then◌else◌, arith, inl, inr,
  ◌⊎◌, append_assoc, bytes_eq,
}
use tipping.Dict.{Dict, lookup, lookup_new}
use tipping.Groups.{AnchorGroup, Grouping, modify}

-- Where a key stands in a list, counted from `s` on.
abbrev pub positions : Bytes → ℕ → List Bytes → List ℕ
positions k s [] = []
positions k s (x ∷ keys) = (if bytes_eq x k then s ∷ [] else []) ++ positions k (s + 1) keys

-- The key is in the list.
abbrev pub text_in : Bytes → List Bytes → Bool
text_in k [] = false
text_in k (x ∷ keys) = bytes_eq x k || text_in k keys

pub text_in-snoc :
    (k : Bytes) (keys : List Bytes) (x : Bytes)
    → text_in k (keys ++ x ∷ []) ≡ text_in k keys || bytes_eq x k
text_in-snoc k [] x = ground arith
text_in-snoc k (y ∷ keys) x = ground (arith, text_in-snoc k keys x)

pub positions-snoc :
    (k : Bytes) (s : ℕ) (keys : List Bytes) (x : Bytes)
    → positions k s (keys ++ x ∷ [])
      ≡ positions k s keys ++ (if bytes_eq x k then (s + length keys) ∷ [] else [])
positions-snoc k s [] x = let e : s + 0 ≡ s = omega arith in rw e (append-nil _)
positions-snoc k s (y ∷ keys) x =
    let e : s + suc (length keys) ≡ s + 1 + length keys = omega arith in
    rw (e, positions-snoc k (s + 1) keys x)
      (sym (
        append_assoc (if bytes_eq y k then s ∷ [] else []) (positions k (s + 1) keys)
          (if bytes_eq x k then (s + 1 + length keys) ∷ [] else [])))

-- A pointer for each key, the one that the map holds.
abbrev pub PointTo : Dict ℕ → List ℕ → List Bytes → Type 0
PointTo merged [] [] = Unit {0}
PointTo merged (p ∷ row_group) (k ∷ keys) =
    (lookup k merged ≡ some p) × PointTo merged row_group keys
PointTo merged row_group keys = ⊥

-- What holds of the groups when the rows with these keys have joined.
pub record IsGrouping (keys : List Bytes) (st : Grouping) : Type 0 where
  pub indexed :
      (p : ℕ) (g : AnchorGroup) → get_elem? st.groups p ≡ some g → lookup g.key st.merged ≡ some p
  pub found :
      (k : Bytes) (p : ℕ)
      → lookup k st.merged ≡ some p
      → (g : AnchorGroup) × (get_elem? st.groups p ≡ some g) × (g.key ≡ k)
  pub held :
      (p : ℕ) (g : AnchorGroup)
      → get_elem? st.groups p ≡ some g
      → (g.rows ≡ positions g.key 0 keys) × (g.indices ≡ [])
  pub points : PointTo st.merged st.row_group keys
  pub from_row : (k : Bytes) (p : ℕ) → lookup k st.merged ≡ some p → text_in k keys ≡ true
  pub nothing_else : (k : Bytes) → lookup k st.merged ≡ none → positions k 0 keys ≡ []

pub length-modify :
    (groups : List AnchorGroup) (p : ℕ) (f : AnchorGroup → AnchorGroup)
    → length (modify groups p f) ≡ length groups
length-modify [] p f = refl
length-modify (g ∷ groups) zero f = refl
length-modify (g ∷ groups) (suc p) f = ap suc (length-modify groups p f)

-- Reading after a write through a pointer.
pub get_elem?-modify :
    (groups : List AnchorGroup) (p q : ℕ) (f : AnchorGroup → AnchorGroup) (g : AnchorGroup)
    → get_elem? (modify groups p f) q ≡ some g
    → (h : AnchorGroup) × (get_elem? groups q ≡ some h)
      × (((q ≡ p) × (g ≡ f h)) ⊎ ((q ≢ p) × (g ≡ h)))
get_elem?-modify [] p q f g e = absurd (cc)
get_elem?-modify (x ∷ groups) zero zero f g e = (x, refl, inl (refl, cc))
get_elem?-modify (x ∷ groups) zero (suc q) f g e = (g, e, inr ((λ h. omega arith), refl))
get_elem?-modify (x ∷ groups) (suc p) zero f g e = (x, refl, inr ((λ h. omega arith), cc))
get_elem?-modify (x ∷ groups) (suc p) (suc q) f g e =
    let (h, at, c) = get_elem?-modify groups p q f g e in
    (
      h,
      at,
      elim c [
        | inl (same, v) ↦ inl (ap suc same, v)
        | inr (apart, v) ↦ inr ((λ same. apart (omega arith)), v)
      ],
    )

pub modify_self :
    (groups : List AnchorGroup) (p : ℕ) (f : AnchorGroup → AnchorGroup) (h : AnchorGroup)
    → get_elem? groups p ≡ some h
    → get_elem? (modify groups p f) p ≡ some (f h)
modify_self [] p f h e = absurd (cc)
modify_self (x ∷ groups) zero f h e = cc
modify_self (x ∷ groups) (suc p) f h e = modify_self groups p f h e

pub modify-other :
    (groups : List AnchorGroup) (p q : ℕ) (f : AnchorGroup → AnchorGroup)
    → q ≢ p
    → get_elem? (modify groups p f) q ≡ get_elem? groups q
modify-other [] p q f h = refl
modify-other (x ∷ groups) zero zero f h = absurd (h refl)
modify-other (x ∷ groups) zero (suc q) f h = refl
modify-other (x ∷ groups) (suc p) zero f h = refl
modify-other (x ∷ groups) (suc p) (suc q) f h = modify-other groups p q f (λ e. h (ap suc e))

-- A pointer still leads to a group of the same key.
pub modify-found :
    (groups : List AnchorGroup) (p q : ℕ) (f : AnchorGroup → AnchorGroup) (k : Bytes)
    → ((g : AnchorGroup) → (f g).key ≡ g.key)
    → ((g : AnchorGroup) × (get_elem? groups q ≡ some g) × (g.key ≡ k))
    → (g : AnchorGroup) × (get_elem? (modify groups p f) q ≡ some g) × (g.key ≡ k)
modify-found groups p q f k keeps (g, e, v) = elim (ℕ_discrete q p) [
  | yes same ↦ (
    f g,
    subst (λ r. get_elem? (modify groups p f) r ≡ some (f g)) (sym same)
        (modify_self groups p f g (subst (λ r. get_elem? groups r ≡ some g) same e)),
    keeps g ∙ v,
  )
  | no apart ↦ (g, modify-other groups p q f apart ∙ e, v)
]

pub PointTo-snoc :
    (merged : Dict ℕ) (row_group : List ℕ) (keys : List Bytes) (p : ℕ) (k : Bytes)
    → lookup k merged ≡ some p
    → PointTo merged row_group keys
    → PointTo merged (row_group ++ p ∷ []) (keys ++ k ∷ [])
PointTo-snoc merged [] [] p k e h = (e, tt)
PointTo-snoc merged [] (x ∷ keys) p k e h = absurd h
PointTo-snoc merged (q ∷ row_group) [] p k e h = absurd h
PointTo-snoc merged (q ∷ row_group) (x ∷ keys) p k e (g, h) =
    (g, PointTo-snoc merged row_group keys p k e h)

pub PointTo-new :
    (k : Bytes) (p : ℕ) (merged : Dict ℕ) (row_group : List ℕ) (keys : List Bytes)
    → lookup k merged ≡ none
    → PointTo merged row_group keys
    → PointTo ((k, p) ∷ merged) row_group keys
PointTo-new k p merged [] [] e h = tt
PointTo-new k p merged [] (x ∷ keys) e h = absurd h
PointTo-new k p merged (q ∷ row_group) [] e h = absurd h
PointTo-new k p merged (q ∷ row_group) (x ∷ keys) e (g, h) =
    (lookup_new k x p merged e g, PointTo-new k p merged row_group keys e h)
