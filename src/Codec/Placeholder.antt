-- ===== src/Codec/Placeholder.antt =====
-- Splitting a template at its placeholders, as `Decode` (corpus_codec.go) does.
use tipping.Base.{
  ℕ, zero, suc, ◌+◌, ◌≤◌, ◌≡◌, refl, ap, ◌∙◌, false, List, [], ◌∷◌, ◌++◌, none, some, length, take,
  drop, Bytes, arith, All, length-append, Option-cases, inl, inr,
}
use tipping.Strings.{has_prefix, index, split_on, split}
use tipping.Strings.Index.{index-has_prefix}
use tipping.Strings.Lacks.{Lacks}
use tipping.Strings.Join.{split_on-last, split_on-cut}
use tipping.Template.{placeholder}

-- No match begins before the placeholder.
no_prefix :
    (b : ℕ) (p r : Bytes)
    → has_prefix (b ∷ p) placeholder ≡ false
    → has_prefix (b ∷ (p ++ (placeholder ++ r))) placeholder ≡ false
unfolding has_prefix
no_prefix b [] r h = ground arith
no_prefix b (c ∷ []) r h = ground arith
no_prefix b (c ∷ d ∷ p) r h = ground arith

index-append_placeholder :
    (p r : Bytes)
    → Lacks placeholder p
    → index (p ++ (placeholder ++ r)) placeholder ≡ some (length p)
unfolding index
index-append_placeholder [] r h = unfold has_prefix in refl
index-append_placeholder (b ∷ p) r h =
    rw (no_prefix b p r (h 0), index-append_placeholder p r (λ j. h (suc j)))

Lacks→index : (s : Bytes) → Lacks placeholder s → index s placeholder ≡ none
Lacks→index s h = elim (Option-cases (index s placeholder)) [
  | inl e ↦ e
  | inr (i, e) ↦ absurd (ground (arith, h i, index-has_prefix s placeholder i e))
]

take-length-append : (p r : Bytes) → take (length p) (p ++ r) ≡ p
take-length-append [] r = refl
take-length-append (b ∷ p) r = ap (λ s. b ∷ s) (take-length-append p r)

drop-length-append : (p : Bytes) (n : ℕ) (r : Bytes) → drop (length p + n) (p ++ r) ≡ drop n r
drop-length-append [] n r = let e : 0 + n ≡ n = omega arith in rw e
drop-length-append (b ∷ p) n r =
    let e : suc (length p) + n ≡ suc (length p + n) = omega arith in rw e (drop-length-append p n r)

-- The template with these parts.
unfoldable pub with_placeholders : Bytes → List Bytes → Bytes
with_placeholders p [] = p
with_placeholders p (q ∷ qs) = p ++ (placeholder ++ with_placeholders q qs)

split_on-with_placeholders :
    (fuel : ℕ) (p : Bytes) (qs : List Bytes)
    → length qs ≤ fuel
    → Lacks placeholder p
    → All (Lacks placeholder) qs
    → split_on fuel (with_placeholders p qs) placeholder ≡ p ∷ qs
unfolding with_placeholders
split_on-with_placeholders zero p [] h hp hq = unfold split_on in refl
split_on-with_placeholders (suc fuel) p [] h hp hq =
    split_on-last fuel p placeholder (Lacks→index p hp)
split_on-with_placeholders zero p (q ∷ qs) h hp hq = absurd (omega arith)
split_on-with_placeholders (suc fuel) p (q ∷ qs) h hp (hq, hqs) =
    let tail = with_placeholders q qs in
    split_on-cut fuel (p ++ (placeholder ++ tail)) placeholder (index-append_placeholder p tail hp)
    ∙ rw (
      take-length-append p (placeholder ++ tail),
      drop-length-append p 3 (placeholder ++ tail),
      split_on-with_placeholders fuel q qs (omega arith) hq hqs,
    )

length-with_placeholders :
    (p : Bytes) (qs : List Bytes) → length qs ≤ length (with_placeholders p qs)
unfolding with_placeholders
length-with_placeholders p [] = omega arith
length-with_placeholders p (q ∷ qs) =
    omega (arith, length-append {0}, length-with_placeholders q qs)

-- A template splits into the parts that it is made of.
pub split-with_placeholders :
    (p : Bytes) (qs : List Bytes)
    → Lacks placeholder p
    → All (Lacks placeholder) qs
    → split (with_placeholders p qs) placeholder ≡ p ∷ qs
unfolding split
split-with_placeholders p qs hp hq =
    split_on-with_placeholders _ p qs (length-with_placeholders p qs) hp hq
