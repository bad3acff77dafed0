-- ===== src/Shards/Schedules.antt =====
-- What the workers leave, in whatever order they write.
use tipping.Base.{
  length-set, ltb, leb, ◌&&◌, ℕ, zero, suc, ◌+◌, ◌≤◌, ◌<◌, ◌≡◌, refl, sym, ap, ◌∙◌, Bool, true,
  false, List, [], ◌∷◌, ◌++◌, none, some, length, map, set, get_elem?, ◌==◌, if◌then◌else◌, arith,
  ◌||◌, All,
}
use tipping.Shards.{Schedule, done, write, write_rows, Range, shard_ranges, rows_from, rows_in}
use tipping.Shards.Cover.{all_rows, shard_ranges-cover}

abbrev pub is_in : ℕ → List ℕ → Bool
is_in i [] = false
is_in i (x ∷ xs) = x == i || is_in i xs

abbrev any_in : ℕ → List (List ℕ) → Bool
any_in i [] = false
any_in i (rows ∷ left) = is_in i rows || any_in i left

any_in-append : (i : ℕ) (xs ys : List (List ℕ)) → any_in i (xs ++ ys) ≡ (any_in i xs || any_in i ys)
any_in-append i [] ys = refl
any_in-append i (x ∷ xs) ys = ground (arith, any_in-append i xs ys)

any_in-nil : (i : ℕ) (left : List (List ℕ)) → All (λ rows. rows ≡ []) left → any_in i left ≡ false
any_in-nil i [] h = refl
any_in-nil i (rows ∷ left) (e, h) = rw e (any_in-nil i left h)

-- A schedule writes the rows that the workers have, and no others.
is_in-Schedule :
    (i : ℕ) {left : List (List ℕ)} {order : List ℕ}
    → Schedule left order
    → is_in i order ≡ any_in i left
is_in-Schedule i (done {left} h) = sym (any_in-nil i left h)
is_in-Schedule i (write before row rest after e s) = rw e (
    ground (
      arith,
      any_in-append i before ((row ∷ rest) ∷ after),
      any_in-append i before (rest ∷ after),
      is_in-Schedule i s,
    ))

get_elem?-past {ℓ} : {A : Type ℓ} (xs : List A) (i : ℕ) → length xs ≤ i → get_elem? xs i ≡ none
get_elem?-past [] i h = refl
get_elem?-past (x ∷ xs) zero h = absurd (omega arith)
get_elem?-past (x ∷ xs) (suc i) h = get_elem?-past xs i (omega arith)

get_elem?-ext {ℓ} :
    {A : Type ℓ} (xs ys : List A) → ((i : ℕ) → get_elem? xs i ≡ get_elem? ys i) → xs ≡ ys
get_elem?-ext [] [] h = refl
get_elem?-ext [] (y ∷ ys) h = absurd (cc (h 0))
get_elem?-ext (x ∷ xs) [] h = absurd (cc (h 0))
get_elem?-ext (x ∷ xs) (y ∷ ys) h =
    let heads : x ≡ y = cc (h 0) in rw (heads, get_elem?-ext xs ys (λ i. h (suc i)))

get_elem?-set {ℓ} :
    {A : Type ℓ} (xs : List A) (i j : ℕ) (v : A)
    → get_elem? (set xs i v) j ≡ (if i == j && ltb i (length xs) then some v else get_elem? xs j)
get_elem?-set [] i j v = ground arith
get_elem?-set (x ∷ xs) zero zero v = ground arith
get_elem?-set (x ∷ xs) zero (suc j) v = ground arith
get_elem?-set (x ∷ xs) (suc i) zero v = ground arith
get_elem?-set (x ∷ xs) (suc i) (suc j) v = ground (arith, get_elem?-set xs i j v)

get_elem?-write_rows {ℓ} :
    {A : Type ℓ} (f : ℕ → A) (order : List ℕ) (out : List A) (j : ℕ)
    → get_elem? (write_rows f order out) j
      ≡ (if is_in j order && ltb j (length out) then some (f j) else get_elem? out j)
unfolding write_rows
get_elem?-write_rows f [] out j = refl
get_elem?-write_rows f (row ∷ order) out j =
    get_elem?-write_rows f order (set out row (f row)) j
    ∙ ground (arith, length-set out row (f row), get_elem?-set out row j (f row), ==→ap)
  where
    ==→ap : (row == j) ≡ true → f row ≡ f j
    ==→ap e = ap f (ground arith)

get_elem?-map_rows {ℓ} :
    {A : Type ℓ} (f : ℕ → A) (lo n i : ℕ)
    → get_elem? (map f (rows_from lo n)) i ≡ (if ltb i n then some (f (lo + i)) else none)
get_elem?-map_rows f lo zero i = ground arith
get_elem?-map_rows f lo (suc n) zero = let e : lo + 0 ≡ lo = omega arith in rw e (ground arith)
get_elem?-map_rows f lo (suc n) (suc i) =
    let e : lo + suc i ≡ lo + 1 + i = omega arith in
    rw e (ground (arith, get_elem?-map_rows f (lo + 1) n i))

is_in-rows_from : (i lo n : ℕ) → is_in i (rows_from lo n) ≡ (leb lo i && ltb i (lo + n))
is_in-rows_from i lo zero = ground arith
is_in-rows_from i lo (suc n) = ground (arith, is_in-rows_from i (lo + 1) n)

is_in-append : (i : ℕ) (xs ys : List ℕ) → is_in i (xs ++ ys) ≡ (is_in i xs || is_in i ys)
is_in-append i [] ys = refl
is_in-append i (x ∷ xs) ys = ground (arith, is_in-append i xs ys)

any_in-map :
    (i : ℕ) (ranges : List Range) → any_in i (map rows_in ranges) ≡ is_in i (all_rows ranges)
any_in-map i [] = refl
any_in-map i (r ∷ ranges) =
    ground (arith, is_in-append i (rows_in r) (all_rows ranges), any_in-map i ranges)

-- Whatever the order in which the workers of the shards write their rows, the slots hold in the
-- end what the serial loop puts there, with at least one worker and a slot for each row.
pub write_rows-Schedule :
    {A : Type 0} (f : ℕ → A) (n workers : ℕ) (order : List ℕ) (out : List A)
    → 0 < workers
    → length out ≡ n
    → Schedule (map rows_in (shard_ranges n workers)) order
    → write_rows f order out ≡ map f (rows_from 0 n)
write_rows-Schedule f n workers order out h len s = get_elem?-ext _ _ (λ i.
    get_elem?-write_rows f order out i
    ∙ ground (
      arith,
      get_elem?-map_rows f 0 n i,
      is_in-Schedule i s,
      any_in-map i (shard_ranges n workers),
      ap (is_in i) (shard_ranges-cover n workers h).0,
      is_in-rows_from i 0 n,
      get_elem?-past out i,
      zero_add i,
    ))
  where
    zero_add : (i : ℕ) → f (0 + i) ≡ f i
    zero_add i = ap f (omega arith)
