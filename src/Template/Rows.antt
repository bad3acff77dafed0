-- ===== src/Template/Rows.antt =====
-- The loops of `sharedSlices` over the tokens of one row: which marks they write, and when their
-- count stays at 0.
use tipping.Base.{
  ℕ, ◌≤◌, ◌<◌, ◌≡◌, refl, Bool, true, false, ◌&&◌, ◌||◌, List, [], ◌∷◌, ◌==◌, if◌then◌else◌, length,
  get_or, length-set, arith, All, get_or-set,
}
use tipping.Token.{Token}
use tipping.Filter.{StaticFilter, common_candidate}
use tipping.Template.{Marks, mark_new, mark_again, row_loop}

-- The row has a candidate token with this id.
abbrev pub occurs : StaticFilter → List Token → List ℕ → ℕ → Bool
occurs filter (tok ∷ toks) (i ∷ ids) id =
    common_candidate tok.kind filter && i == id || occurs filter toks ids id
occurs filter toks ids id = false

-- Every row has one.
abbrev pub all_occur : StaticFilter → List (List Token) → List (List ℕ) → ℕ → Bool
all_occur filter (toks ∷ rows) (ids ∷ rids) id =
    occurs filter toks ids id && all_occur filter rows rids id
all_occur filter rows rids id = true

-- The ids of a row are below the number of ids.
abbrev pub Below : ℕ → List ℕ → Type 0
Below n = All (λ i. i < n)

abbrev pub marked : Marks → ℕ → ℕ
marked m id = get_or m.mark id 0

-- One write.
module _ (n : ℕ) (i : ℕ) (m : Marks) (len : length m.mark ≡ n) (hi : i < n) where
  mark_new-marked :
      (value id : ℕ) → marked (mark_new value i m) id ≡ (if i == id then value else marked m id)
  unfolding mark_new
  mark_new-marked value id = ground (arith, get_or-set m.mark i id value 0 (omega arith))

  mark_new-length : (value : ℕ) → length (mark_new value i m).mark ≡ n
  unfolding mark_new
  mark_new-length value = ground (arith, length-set m.mark i value)

  mark_again-marked :
      (epoch value id : ℕ)
      → marked (mark_again epoch value i m) id
        ≡ (if i == id && marked m id == epoch then value else marked m id)
  unfolding mark_again
  mark_again-marked epoch value id = ground (arith, get_or-set m.mark i id value 0 (omega arith))

  mark_again-length : (epoch value : ℕ) → length (mark_again epoch value i m).mark ≡ n
  unfolding mark_again
  mark_again-length epoch value = ground (arith, length-set m.mark i value)

  mark_again-grows : (epoch value : ℕ) → m.count ≤ (mark_again epoch value i m).count
  unfolding mark_again
  mark_again-grows epoch value = ground arith

  mark_again-none :
      (epoch value : ℕ) → (mark_again epoch value i m).count ≡ 0 → (marked m i == epoch) ≡ false
  unfolding mark_again
  mark_again-none epoch value h = ground arith

  mark_new-none : (value : ℕ) → (mark_new value i m).count ≡ 0 → (marked m i == value) ≡ true
  unfolding mark_new
  mark_new-none value h = ground arith

-- The loop over the tokens of the first row.
module _ (filter : StaticFilter) (n value : ℕ) where
  pub first_row-size :
      (toks : List Token) (ids : List ℕ) (m : Marks)
      → length m.mark ≡ n
      → Below n ids
      → length (row_loop filter (mark_new value) toks ids m).mark ≡ n
  unfolding row_loop
  first_row-size [] ids m len h = len
  first_row-size (tok ∷ toks) [] m len h = len
  first_row-size (tok ∷ toks) (i ∷ ids) m len (hi, h) =
      first_row-size toks ids (if common_candidate tok.kind filter then mark_new value i m else m)
        (ground (arith, mark_new-length n i m len hi value)) h

  pub first_row-marked :
      (toks : List Token) (ids : List ℕ) (m : Marks) (id : ℕ)
      → length m.mark ≡ n
      → Below n ids
      → marked (row_loop filter (mark_new value) toks ids m) id
        ≡ (if occurs filter toks ids id then value else marked m id)
  unfolding row_loop
  first_row-marked [] ids m id len h = refl
  first_row-marked (tok ∷ toks) [] m id len h = refl
  first_row-marked (tok ∷ toks) (i ∷ ids) m id len (hi, h) =
      let m' = if common_candidate tok.kind filter then mark_new value i m else m in
      ground (
        arith,
        first_row-marked toks ids m' id (ground (arith, mark_new-length n i m len hi value)) h,
        mark_new-marked n i m len hi value id,
      )

  mark_new_grows : (i : ℕ) (m : Marks) → m.count ≤ (mark_new value i m).count
  unfolding mark_new
  mark_new_grows i m = ground arith

  first_row-grows :
      (toks : List Token) (ids : List ℕ) (m : Marks)
      → m.count ≤ (row_loop filter (mark_new value) toks ids m).count
  unfolding row_loop
  first_row-grows [] ids m = omega arith
  first_row-grows (tok ∷ toks) [] m = omega arith
  first_row-grows (tok ∷ toks) (i ∷ ids) m =
      let m' = if common_candidate tok.kind filter then mark_new value i m else m in
      ground (arith, first_row-grows toks ids m', mark_new_grows i m)

  -- The count stays at 0 only where the row has no candidate with a mark of its own.
  pub first_row-none :
      (toks : List Token) (ids : List ℕ) (m : Marks) (id : ℕ)
      → length m.mark ≡ n
      → Below n ids
      → (row_loop filter (mark_new value) toks ids m).count ≡ 0
      → (marked m id == value) ≡ false
      → occurs filter toks ids id ≡ false
  unfolding row_loop
  first_row-none [] ids m id len h z e = refl
  first_row-none (tok ∷ toks) [] m id len h z e = refl
  first_row-none (tok ∷ toks) (i ∷ ids) m id len (hi, h) z e =
      let m' = if common_candidate tok.kind filter then mark_new value i m else m in
      ground (
        arith,
        first_row-grows toks ids m',
        first_row-none toks ids m' id (ground (arith, mark_new-length n i m len hi value)) h z,
        mark_new-marked n i m len hi value id,
        mark_new-none n i m len hi value,
      )

-- The loop over the tokens of a later row.
module _ (filter : StaticFilter) (n epoch value : ℕ) (lt : epoch < value) where
  pub next_row-size :
      (toks : List Token) (ids : List ℕ) (m : Marks)
      → length m.mark ≡ n
      → Below n ids
      → length (row_loop filter (mark_again epoch value) toks ids m).mark ≡ n
  unfolding row_loop
  next_row-size [] ids m len h = len
  next_row-size (tok ∷ toks) [] m len h = len
  next_row-size (tok ∷ toks) (i ∷ ids) m len (hi, h) =
      next_row-size toks ids
        (if common_candidate tok.kind filter then mark_again epoch value i m else m)
        (ground (arith, mark_again-length n i m len hi epoch value)) h

  pub next_row-marked :
      (toks : List Token) (ids : List ℕ) (m : Marks) (id : ℕ)
      → length m.mark ≡ n
      → Below n ids
      → marked (row_loop filter (mark_again epoch value) toks ids m) id
        ≡ (if occurs filter toks ids id && marked m id == epoch then value else marked m id)
  unfolding row_loop
  next_row-marked [] ids m id len h = refl
  next_row-marked (tok ∷ toks) [] m id len h = refl
  next_row-marked (tok ∷ toks) (i ∷ ids) m id len (hi, h) =
      let m' = if common_candidate tok.kind filter then mark_again epoch value i m else m in
      ground (
        arith,
        next_row-marked toks ids m' id (ground (arith, mark_again-length n i m len hi epoch value))
            h,
        mark_again-marked n i m len hi epoch value id,
      )

  mark_again_grows : (i : ℕ) (m : Marks) → m.count ≤ (mark_again epoch value i m).count
  unfolding mark_again
  mark_again_grows i m = ground arith

  next_row-grows :
      (toks : List Token) (ids : List ℕ) (m : Marks)
      → m.count ≤ (row_loop filter (mark_again epoch value) toks ids m).count
  unfolding row_loop
  next_row-grows [] ids m = omega arith
  next_row-grows (tok ∷ toks) [] m = omega arith
  next_row-grows (tok ∷ toks) (i ∷ ids) m =
      let m' = if common_candidate tok.kind filter then mark_again epoch value i m else m in
      ground (arith, next_row-grows toks ids m', mark_again_grows i m)

  -- The count stays at 0 only where the row has no candidate that was marked with the epoch.
  pub next_row-none :
      (toks : List Token) (ids : List ℕ) (m : Marks) (id : ℕ)
      → length m.mark ≡ n
      → Below n ids
      → (row_loop filter (mark_again epoch value) toks ids m).count ≡ 0
      → (occurs filter toks ids id && marked m id == epoch) ≡ false
  unfolding row_loop
  next_row-none [] ids m id len h z = refl
  next_row-none (tok ∷ toks) [] m id len h z = refl
  next_row-none (tok ∷ toks) (i ∷ ids) m id len (hi, h) z =
      let m' = if common_candidate tok.kind filter then mark_again epoch value i m else m in
      ground (
        arith,
        next_row-grows toks ids m',
        next_row-none toks ids m' id (ground (arith, mark_again-length n i m len hi epoch value)) h
            z,
        mark_again-marked n i m len hi epoch value id,
        mark_again-none n i m len hi epoch value,
      )
