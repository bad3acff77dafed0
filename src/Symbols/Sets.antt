-- ===== src/Symbols/Sets.antt =====
-- `symbolSetEqual` and `symbolSetSubset` (parser.go), on sets made by `newSymbolSet`.
use tipping.Base.{
  ℕ, zero, suc, ◌≤◌, ◌≡◌, ◌↔◌, refl, true, false, ◌&&◌, not, [], ◌∷◌, ◌==◌, if◌then◌else◌, length,
  drop, Bytes, arith, Bool-cases, inl, inr,
}
use tipping.Utf8.{decode_rune}
use tipping.Symbols.{
  SymbolSet, contains, insert, insert_runes, new_symbol_set, symbol_set_subset, symbol_set_equal,
}

-- Each member stands once in the list, as in a map.
abbrev pub IsSymbolSet : SymbolSet → Type 0
IsSymbolSet [] = Unit {0}
IsSymbolSet (r ∷ s) = (contains s r ≡ false) × IsSymbolSet s

remove : ℕ → SymbolSet → SymbolSet
remove r [] = []
remove r (x ∷ s) = if x == r then s else x ∷ remove r s

contains-remove :
    (r : ℕ) (s : SymbolSet) (x : ℕ)
    → IsSymbolSet s
    → contains (remove r s) x ≡ (contains s x && not (x == r))
unfolding remove
contains-remove r [] x h = refl
contains-remove r (y ∷ s) x (n, h) = ground (arith, contains-remove r s x h, same)
  where
    same : y ≡ x → contains s x ≡ false
    same e = ground arith

length-remove : (r : ℕ) (s : SymbolSet) → contains s r ≡ true → suc (length (remove r s)) ≡ length s
unfolding remove
length-remove r [] h = absurd (cc)
length-remove r (y ∷ s) h = ground (arith, length-remove r s)

remove-IsSymbolSet : (r : ℕ) (s : SymbolSet) → IsSymbolSet s → IsSymbolSet (remove r s)
unfolding remove
remove-IsSymbolSet r [] h = tt
remove-IsSymbolSet r (y ∷ s) (n, h) = elim (Bool-cases (y == r)) [
  | inl e ↦ rw e h
  | inr e ↦ rw e (ground (arith, contains-remove r s y h), remove-IsSymbolSet r s h)
]

-- The subset test answers membership.
abbrev Covers : SymbolSet → SymbolSet → Type 0
Covers sub sup = (x : ℕ) → contains sub x ≡ true → contains sup x ≡ true

subset-Covers : (sub sup : SymbolSet) → symbol_set_subset sub sup ≡ true → Covers sub sup
unfolding symbol_set_subset
subset-Covers [] sup h x k = absurd (cc)
subset-Covers (r ∷ sub) sup h x k =
    ground (arith, subset-Covers sub sup, λ (q : _). subset-Covers sub sup q x)

Covers-subset : (sub sup : SymbolSet) → Covers sub sup → symbol_set_subset sub sup ≡ true
unfolding symbol_set_subset
Covers-subset [] sup h = refl
Covers-subset (r ∷ sub) sup h =
    let first : contains sup r ≡ true = h r (ground arith) in
    rw first (Covers-subset sub sup (λ x k. h x (ground arith)))

other_member :
    (r : ℕ) (a : SymbolSet) (y : ℕ) → contains a r ≡ false → contains a y ≡ true → (y == r) ≡ false
other_member r a y n m = ground arith

length-Covers : (a b : SymbolSet) → IsSymbolSet a → IsSymbolSet b → Covers a b → length a ≤ length b
length-Covers [] b ha hb h = omega arith
length-Covers (r ∷ a) b (n, ha) hb h =
    let first : contains b r ≡ true = h r (ground arith) in
    let others : Covers a (remove r b) = λ y m.
      let in_b : contains b y ≡ true = h y (ground arith) in
      let differs : (y == r) ≡ false = other_member r a y n m in
      ground (arith, contains-remove r b y hb) in
    omega (
      arith,
      length-remove r b first,
      length-Covers a (remove r b) ha (remove-IsSymbolSet r b hb) others,
    )

-- A set that covers another and is no longer has no other members.
Covers-back :
    (a b : SymbolSet)
    → IsSymbolSet a
    → IsSymbolSet b
    → length b ≤ length a
    → Covers a b
    → Covers b a
Covers-back [] [] ha hb le h x k = k
Covers-back [] (y ∷ b) ha hb le h x k = absurd (omega arith)
Covers-back (r ∷ a) b (n, ha) hb le h x k =
    let first : contains b r ≡ true = h r (ground arith) in
    let others : Covers a (remove r b) = λ y m.
      let in_b : contains b y ≡ true = h y (ground arith) in
      let differs : (y == r) ≡ false = other_member r a y n m in
      ground (arith, contains-remove r b y hb) in
    let back =
      Covers-back a (remove r b) ha (remove-IsSymbolSet r b hb)
        (omega (arith, length-remove r b first)) others x in
    ground (arith, contains-remove r b x hb, back)

module _ (a b : SymbolSet) (ha : IsSymbolSet a) (hb : IsSymbolSet b) where
  equal-members : symbol_set_equal a b ≡ true → (x : ℕ) → contains a x ≡ contains b x
  unfolding symbol_set_equal
  equal-members h x =
      let le : length b ≤ length a = ground arith in
      let to : Covers a b = subset-Covers a b (ground arith) in
      let back = Covers-back a b ha hb le to x in let there = to x in ground (arith, back, there)

  members-equal : ((x : ℕ) → contains a x ≡ contains b x) → symbol_set_equal a b ≡ true
  unfolding symbol_set_equal
  members-equal h =
      let to : Covers a b = λ x k. ground (arith, h x) in
      let from : Covers b a = λ x k. ground (arith, h x) in
      ground (arith, Covers-subset a b to, length-Covers a b ha hb to, length-Covers b a hb ha from)

-- For two symbol sets whose members stand once each, symbolSetEqual says yes exactly when they
-- have the same members.
pub symbol_set_equal-members :
    (a b : SymbolSet)
    → IsSymbolSet a
    → IsSymbolSet b
    → (symbol_set_equal a b ≡ true) ↔ ((x : ℕ) → contains a x ≡ contains b x)
symbol_set_equal-members a b ha hb = (equal-members a b ha hb, members-equal a b ha hb)

insert_runes-IsSymbolSet :
    (fuel : ℕ) (s : Bytes) (out : SymbolSet)
    → IsSymbolSet out
    → IsSymbolSet (insert_runes fuel s out)
unfolding insert_runes
insert_runes-IsSymbolSet fuel [] out h = h
insert_runes-IsSymbolSet zero (b ∷ s) out h = h
insert_runes-IsSymbolSet (suc fuel) (b ∷ s) out h =
    let d = decode_rune (b ∷ s) in
    insert_runes-IsSymbolSet fuel (drop d.size (b ∷ s)) (insert d.rune out) (added d.rune)
  where
    added : (r : ℕ) → IsSymbolSet (insert r out)
    added r = elim (Bool-cases (contains out r)) [ inl e ↦ rw e h | inr e ↦ rw e (e, h) ]

-- What `newSymbolSet` makes of a text is such a set.
pub new_symbol_set-IsSymbolSet : (symbols : Bytes) → IsSymbolSet (new_symbol_set symbols)
unfolding new_symbol_set
new_symbol_set-IsSymbolSet symbols = insert_runes-IsSymbolSet (length symbols) symbols [] tt
