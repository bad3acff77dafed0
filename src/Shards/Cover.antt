-- ===== src/Shards/Cover.antt =====
-- The ranges of `shardRanges` (parser.go), one after the other.
use native.Mathlib.Nat.{lt-div-mul-add}
use tipping.Base.{
  ◌⊎◌, append-nil, ℕ, zero, suc, ◌+◌, ◌-◌, ◌*◌, ◌/◌, ◌≤◌, ◌<◌, ◌≡◌, refl, ap, ◌∙◌, List, [], ◌∷◌,
  ◌++◌, length, ltb, Bool-cases, inl, inr, arith,
}
use tipping.Shards.{Range, shard_loop, shard_ranges, rows_from, rows_in}

-- The rows of all ranges, in order.
abbrev pub all_rows : List Range → List ℕ
all_rows [] = []
all_rows (r ∷ ranges) = rows_in r ++ all_rows ranges

rows_from-append : (lo a b : ℕ) → rows_from lo a ++ rows_from (lo + a) b ≡ rows_from lo (a + b)
rows_from-append lo zero b =
    let e : lo + 0 ≡ lo = omega arith in let f : 0 + b ≡ b = omega arith in rw (e, f)
rows_from-append lo (suc a) b =
    let e : lo + suc a ≡ lo + 1 + a = omega arith in
    let f : suc a + b ≡ suc (a + b) = omega arith in
    rw (e, f) (ap (λ r. lo ∷ r) (rows_from-append (lo + 1) a b))

all_rows-shard_loop :
    (fuel lo n chunk : ℕ)
    → n ≤ lo + fuel
    → 0 < chunk
    → all_rows (shard_loop fuel lo n chunk) ≡ rows_from lo (n - lo)
unfolding shard_loop
all_rows-shard_loop zero lo n chunk h pos = let e : n - lo ≡ 0 = omega arith in rw e
all_rows-shard_loop (suc fuel) lo n chunk h pos = elim (Bool-cases (ltb lo n)) [
  | inr e ↦ let f : n - lo ≡ 0 = ground arith in rw (e, f)
  | inl e ↦
      let rest = all_rows-shard_loop fuel (lo + chunk) n chunk (omega arith) pos in
      elim (Bool-cases (ltb n (lo + chunk))) [
        | inl last ↦
            let none_left : n - (lo + chunk) ≡ 0 = ground arith in
            rw (e, last, rest, none_left) (append-nil (rows_from lo (n - lo)))
        | inr more ↦
            let whole : lo + chunk - lo ≡ chunk = omega arith in
            let left : n - lo ≡ chunk + (n - (lo + chunk)) = ground arith in
            rw (e, more, rest, whole, left) (rows_from-append lo chunk (n - (lo + chunk)))
      ]
]

length-shard_loop :
    (fuel lo n chunk workers : ℕ)
    → n ≤ lo + chunk * workers
    → length (shard_loop fuel lo n chunk) ≤ workers
unfolding shard_loop
length-shard_loop zero lo n chunk workers h = omega arith
length-shard_loop (suc fuel) lo n chunk zero h = ground arith
length-shard_loop (suc fuel) lo n chunk (suc workers) h =
    let room : n ≤ lo + chunk + chunk * workers = grind arith in
    ground (arith, length-shard_loop fuel (lo + chunk) n chunk workers room)

chunks_enough : (n workers : ℕ) → 0 < workers → n ≤ (n + workers - 1) / workers * workers
chunks_enough n workers h = omega (arith, lt-div-mul-add {a = n + workers - 1} {b = workers} h)

pub chunk_pos : (n workers : ℕ) → 0 < workers → 0 < n → 0 < (n + workers - 1) / workers
chunk_pos n workers h k = elim (ℕ-cases ((n + workers - 1) / workers)) [
  | inl e ↦ absurd (omega (arith, ap (λ (c : ℕ). c * workers) e, chunks_enough n workers h))
  | inr (c, e) ↦ omega (arith)
]
  where
    ℕ-cases : (a : ℕ) → (a ≡ 0) ⊎ ((c : ℕ) × (a ≡ suc c))
    ℕ-cases zero = inl refl
    ℕ-cases (suc c) = inr (c, refl)

-- The ranges give all rows in order, and there are no more of them than workers.
pub shard_ranges-cover :
    (n workers : ℕ)
    → 0 < workers
    → (all_rows (shard_ranges n workers) ≡ rows_from 0 n)
      × (length (shard_ranges n workers) ≤ workers)
unfolding shard_ranges
shard_ranges-cover zero workers h = (unfold shard_loop in refl, unfold shard_loop in omega arith)
shard_ranges-cover (suc n) workers h =
    let chunk = (suc n + workers - 1) / workers in
    let all_left : suc n - 0 ≡ suc n = omega arith in
    (
      all_rows-shard_loop (suc n) 0 (suc n) chunk (omega arith)
            (chunk_pos (suc n) workers h (omega arith))
          ∙ ap (rows_from 0) all_left,
      length-shard_loop (suc n) 0 (suc n) chunk workers
          (grind (arith, chunks_enough (suc n) workers h)),
    )
