-- ===== src/Dict.antt =====
-- Go maps with text keys.
use tipping.Base.{
  ◌≡◌, ap, ◌∙◌, false, List, [], ◌∷◌, Option, none, some, Bytes, if◌then◌else◌, Bool-cases, inl,
  inr, bytes_eq, bytes_eq_refl, bytes_eq→eq,
}

-- A Go map with text keys: the first pair of a key is its value.
abbrev pub Dict : Type 0 → Type 0
Dict V = List (Bytes × V)

unfoldable pub lookup : {V : Type 0} → Bytes → Dict V → Option V
lookup k [] = none
lookup k ((j, v) ∷ d) = if bytes_eq j k then some v else lookup k d

pub lookup_self : {V : Type 0} (k : Bytes) (v : V) (d : Dict V) → lookup k ((k, v) ∷ d) ≡ some v
unfolding lookup
lookup_self k v d = rw (bytes_eq_refl k)

pub lookup_other :
    {V : Type 0} (j k : Bytes) (v : V) (d : Dict V)
    → bytes_eq j k ≡ false
    → lookup k ((j, v) ∷ d) ≡ lookup k d
unfolding lookup
lookup_other j k v d e = rw e

-- A key that is found stays found behind another key.
pub lookup_new :
    {V : Type 0} (j k : Bytes) (v : V) {w : V} (d : Dict V)
    → lookup j d ≡ none
    → lookup k d ≡ some w
    → lookup k ((j, v) ∷ d) ≡ some w
lookup_new j k v d h e = elim (Bool-cases (bytes_eq j k)) [
  | inl s ↦ let same_key = bytes_eq→eq j k s in cc (ap (λ x. lookup x d) same_key)
  | inr s ↦ lookup_other j k v d s ∙ e
]
