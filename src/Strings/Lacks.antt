-- ===== src/Strings/Lacks.antt =====
-- Texts in which another text stands nowhere.
use tipping.Base.{
  ℕ, zero, suc, ◌≤◌, ◌≡◌, refl, false, List, [], ◌∷◌, ◌++◌, some, take, drop, Bytes, arith,
  drop-nil, take-append-drop, dec_lt,
}
use tipping.Strings.{has_prefix, index}
use tipping.Strings.Index.{index-first}

-- A text in which the literal stands nowhere.
abbrev pub Lacks : Bytes → Bytes → Type 0
Lacks literal s = (j : ℕ) → has_prefix (drop j s) literal ≡ false

pub has_prefix-append_false :
    (s r p : Bytes) → has_prefix (s ++ r) p ≡ false → has_prefix s p ≡ false
unfolding has_prefix
has_prefix-append_false s r [] h = h
has_prefix-append_false [] r (c ∷ p) h = refl
has_prefix-append_false (b ∷ s) r (c ∷ p) h = ground (arith, has_prefix-append_false s r p)

drop-take-append {ℓ} :
    {A : Type ℓ} (j i : ℕ) (s : List A) → j ≤ i → drop j (take i s) ++ drop i s ≡ drop j s
drop-take-append zero i s h = take-append-drop i s
drop-take-append (suc j) zero s h = absurd (omega arith)
drop-take-append (suc j) (suc i) [] h = refl
drop-take-append (suc j) (suc i) (b ∷ s) h = drop-take-append j i s (omega arith)

drop-take-nil {ℓ} : {A : Type ℓ} (j i : ℕ) (s : List A) → i ≤ j → drop j (take i s) ≡ []
drop-take-nil j zero s h = drop-nil j
drop-take-nil zero (suc i) s h = absurd (omega arith)
drop-take-nil (suc j) (suc i) [] h = refl
drop-take-nil (suc j) (suc i) (b ∷ s) h = drop-take-nil j i s (omega arith)

-- The text before the first occurrence holds none.
pub take-Lacks :
    (s : Bytes) (l : ℕ) (literal : Bytes) (i : ℕ)
    → index s (l ∷ literal) ≡ some i
    → Lacks (l ∷ literal) (take i s)
take-Lacks s l literal i h j = elim (dec_lt j i) [
  | yes lt ↦
      has_prefix-append_false (drop j (take i s)) (drop i s) (l ∷ literal)
        (rw (drop-take-append j i s (omega arith)) (index-first s (l ∷ literal) i j h lt))
  | no ge ↦ rw (drop-take-nil j i s (omega arith)) (unfold has_prefix in refl)
]

-- A part of a text that lacks the literal lacks it.
pub Lacks-append_left :
    (l : ℕ) (literal s r : Bytes) → Lacks (l ∷ literal) (s ++ r) → Lacks (l ∷ literal) s
Lacks-append_left l literal [] r h j = rw drop-nil (unfold has_prefix in refl)
Lacks-append_left l literal (b ∷ s) r h zero = has_prefix-append_false (b ∷ s) r _ (h 0)
Lacks-append_left l literal (b ∷ s) r h (suc j) = Lacks-append_left l literal s r (λ i. h (suc i)) j

pub Lacks-append_right : (literal s r : Bytes) → Lacks literal (s ++ r) → Lacks literal r
Lacks-append_right literal [] r h = h
Lacks-append_right literal (b ∷ s) r h = Lacks-append_right literal s r (λ j. h (suc j))
