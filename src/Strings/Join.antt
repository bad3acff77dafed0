-- ===== src/Strings/Join.antt =====
-- Splitting and joining.
use tipping.Base.{
  ℕ, zero, suc, ◌+◌, ◌≡◌, refl, sym, ◌≢◌, List, [], ◌∷◌, ◌++◌, none, some, length, take, drop,
  Bytes, arith, Option-cases, inl, inr,
}
use tipping.Strings.{index, split_on, split, join}
use tipping.Strings.Index.{index→eq}

module _ (fuel : ℕ) (s sep : Bytes) where
  pub split_on-last : index s sep ≡ none → split_on (suc fuel) s sep ≡ s ∷ []
  unfolding split_on
  split_on-last e = rw (e, split_on)

  pub split_on-cut :
      {i : ℕ}
      → index s sep ≡ some i
      → split_on (suc fuel) s sep ≡ take i s ∷ split_on fuel (drop (i + length sep) s) sep
  unfolding split_on
  split_on-cut e = rw (e, split_on)

pub split_on-ne-nil : (fuel : ℕ) (s sep : Bytes) → split_on fuel s sep ≢ []
unfolding split_on
split_on-ne-nil zero s sep = cc
split_on-ne-nil (suc fuel) s sep = ground arith

join-cons :
    (p : Bytes) (ps : List Bytes) (sep : Bytes)
    → ps ≢ []
    → join (p ∷ ps) sep ≡ p ++ (sep ++ join ps sep)
unfolding join
join-cons p [] sep h = absurd (h refl)
join-cons p (q ∷ ps) sep h = refl

join-split_on : (fuel : ℕ) (s sep : Bytes) → join (split_on fuel s sep) sep ≡ s
join-split_on zero s sep = unfold split_on join in refl
join-split_on (suc fuel) s sep = elim (Option-cases (index s sep)) [
  | inl e ↦ rw (split_on-last fuel s sep e) (unfold join in refl)
  | inr (i, e) ↦
      rw
        (
          split_on-cut fuel s sep e,
          join-cons (take i s) _ sep (split_on-ne-nil fuel (drop (i + length sep) s) sep),
          join-split_on fuel (drop (i + length sep) s) sep,
        )
        (sym (index→eq s sep i e))
]

-- Joining what `strings.Split` gives back is the text.
pub join-split : (s sep : Bytes) → join (split s sep) sep ≡ s
unfolding split
join-split s sep = join-split_on (length s) s sep
