-- ===== src/Clusters/Samples.antt =====
-- The rows that `samplePositions` (parser.go) takes.
use tipping.Base.{
  subst, ℕ, zero, suc, ◌+◌, ◌-◌, ◌≤◌, ◌<◌, ◌≡◌, refl, ap, Bool, false, List, [], ◌∷◌, some, length,
  ltb, ◌==◌, if◌then◌else◌, arith, inl, inr, Bool-cases, All,
}
use tipping.Clusters.{sample_loop, sample_positions}

-- Each number is at least `low`, and less than those after it.
abbrev pub IsClimbing : ℕ → List ℕ → Type 0
IsClimbing low [] = Unit {0}
IsClimbing low (p ∷ pos) = (low ≤ p) × IsClimbing (p + 1) pos

module _ (nearest : ℕ → ℕ) (n : ℕ) (pos : 0 < n) where
  sample_loop-below : (left i low : ℕ) → All (λ p. p < n) (sample_loop nearest n left i low)
  unfolding sample_loop
  sample_loop-below zero i low = tt
  sample_loop-below (suc left) i low = (ground arith, sample_loop-below left (i + 1) _)

  length-sample_loop : (left i low : ℕ) → length (sample_loop nearest n left i low) ≡ left
  unfolding sample_loop
  length-sample_loop zero i low = refl
  length-sample_loop (suc left) i low = ap suc (length-sample_loop left (i + 1) _)

  sample_loop-IsClimbing :
      (left i low : ℕ)
      → low + left ≤ n
      → ((k : ℕ) → k < i + left → nearest k + (i + left - k) ≤ n)
      → IsClimbing low (sample_loop nearest n left i low)
  unfolding sample_loop
  sample_loop-IsClimbing zero i low fits h = tt
  sample_loop-IsClimbing (suc left) i low fits h =
      let here = h i (omega arith) in
      (
        ground arith,
        sample_loop-IsClimbing left (i + 1) _ (ground arith)
            (λ k lt. omega (arith, h k (omega arith))),
      )

-- Where the rounded positions leave room for those after them, the sampled positions are as many
-- as asked for, within the rows and strictly ascending.
pub sample_positions-IsClimbing :
    (whole : Bool) (ceiling : ℕ) (nearest : ℕ → ℕ) (n : ℕ) (pos : List ℕ)
    → ((k : ℕ) → k < ceiling → nearest k + (ceiling - k) ≤ n)
    → sample_positions whole ceiling nearest n ≡ some pos
    → (length pos ≡ (if ltb ceiling 1 then 1 else ceiling))
      × All (λ p. p < n) pos
      × IsClimbing 0 pos
unfolding sample_positions
sample_positions-IsClimbing whole ceiling nearest n pos room e =
    let count = if ltb ceiling 1 then 1 else ceiling in
    let big : 1 < n = ground arith in
    let fits : count < n = ground arith in
    let value : (if count == 1 then 0 ∷ [] else sample_loop nearest n count 0 0) ≡ pos =
      ground arith in
    subst (λ l. (length l ≡ count) × All (λ p. p < n) l × IsClimbing 0 l) value
      (chosen count big fits (λ other k lt. ground (arith, room k)))
  where
    chosen :
        (count : ℕ)
        → 1 < n
        → count < n
        → ((count == 1) ≡ false → (k : ℕ) → k < 0 + count → nearest k + (0 + count - k) ≤ n)
        → (length (if count == 1 then 0 ∷ [] else sample_loop nearest n count 0 0) ≡ count)
          × All (λ p. p < n) (if count == 1 then 0 ∷ [] else sample_loop nearest n count 0 0)
          × IsClimbing 0 (if count == 1 then 0 ∷ [] else sample_loop nearest n count 0 0)
    chosen count big fits h = elim (Bool-cases (count == 1)) [
      | inl one ↦ rw one (ground arith, (omega arith, tt), (omega arith, tt))
      | inr other ↦
          let positive : 0 < n = omega arith in
          rw other (
            length-sample_loop nearest n positive count 0 0,
            sample_loop-below nearest n positive count 0 0,
            sample_loop-IsClimbing nearest n positive count 0 0 (omega arith) (h other),
          )
    ]
