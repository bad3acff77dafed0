-- ===== src/Shards.antt =====
-- The worker pools of parser.go: `shardRanges`, and rows that workers write to slots of their own.
pub mod Cover
pub mod Schedules
use tipping.Base.{
  ℕ, zero, suc, ◌+◌, ◌-◌, ◌/◌, ◌≤◌, ◌≡◌, Bool, List, [], ◌∷◌, ◌++◌, Option, none, some, length, set,
  map, replicate, ltb, leb, if◌then◌else◌, All,
}

-- `[2]int{lo, hi}`
pub record Range : Type 0 where
  pub lo : ℕ
  pub hi : ℕ

-- The loop of `shardRanges`, over `lo`.
unfoldable pub shard_loop : ℕ → ℕ → ℕ → ℕ → List Range
shard_loop zero lo n chunk = []
shard_loop (suc fuel) lo n chunk =
    let rest =
      record { lo = lo; hi = if ltb n (lo + chunk) then n else lo + chunk }
      ∷ shard_loop fuel (lo + chunk) n chunk in
    if ltb lo n then rest else []

-- A chunk is not empty where there are rows and workers, so `n` rounds are enough.
unfoldable pub shard_ranges : ℕ → ℕ → List Range
shard_ranges n workers = shard_loop n 0 n ((n + workers - 1) / workers)

-- `for i := lo; i < hi; i++`, as the rows that it reads: `count` of them.
abbrev pub rows_from : ℕ → ℕ → List ℕ
rows_from lo zero = []
rows_from lo (suc count) = lo ∷ rows_from (lo + 1) count

abbrev pub rows_in : Range → List ℕ
rows_in r = rows_from r.lo (r.hi - r.lo)

-- `p.workersFor`, with the limit that `WithParallelism` or `GOMAXPROCS` gives.
unfoldable pub workers_for : ℕ → ℕ → ℕ
workers_for limit rows =
    let by_work = rows / 512 in
    let bounded = if ltb by_work limit then by_work else limit in
    if ltb bounded 2 then 1 else bounded

-- The order in which the workers write: at each step one worker that has rows left writes its next
-- row. `left` is what each has left.
pub data Schedule : List (List ℕ) → List ℕ → Type 0 where
  done : {left : List (List ℕ)} → All (λ rows. rows ≡ []) left → Schedule left []
  write :
      {left : List (List ℕ)} {order : List ℕ} (before : List (List ℕ)) (row : ℕ) (rest : List ℕ)
      (after : List (List ℕ))
      → left ≡ before ++ (row ∷ rest) ∷ after
      → Schedule (before ++ rest ∷ after) order
      → Schedule left (row ∷ order)

-- `tokenized[i] = …` for each row in turn.
unfoldable pub write_rows {ℓ} : {A : Type ℓ} → (ℕ → A) → List ℕ → List A → List A
write_rows f [] out = out
write_rows f (row ∷ order) out = write_rows f order (set out row (f row))
