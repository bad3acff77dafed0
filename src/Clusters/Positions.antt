-- ===== src/Clusters/Positions.antt =====
-- The loops of `parse` (parser.go) over the rows and the messages of a group with anchors.
use tipping.Base.{
  ℕ, zero, suc, ◌+◌, ◌<◌, ◌≡◌, refl, ap, ◌∙◌, Bool, true, false, ◌||◌, List, [], ◌∷◌, some, length,
  length-set, get_or, get_elem?, set, Bytes, ◌==◌, if◌then◌else◌, arith, inl, inr, Bool-cases, All,
}
use tipping.Token.{Token}
use tipping.Shards.Schedules.{is_in}
use tipping.Template.{CommonSet, parameter_masks, row_mask}
use tipping.Groups.Partition.{message_keys}
use tipping.Clusters.{pick, set_positions, set_masks}
use tipping.Clusters.Numbers.{get_or-set_at}

pub length-set_positions :
    (k : ℕ) (rows row_pos : List ℕ) → length (set_positions k rows row_pos) ≡ length row_pos
unfolding set_positions
length-set_positions k [] row_pos = refl
length-set_positions k (row ∷ rows) row_pos =
    length-set_positions (k + 1) rows (set row_pos row k) ∙ length-set row_pos row k

set_positions-other :
    (k row : ℕ) (rows row_pos : List ℕ)
    → row < length row_pos
    → is_in row rows ≡ false
    → get_or (set_positions k rows row_pos) row 0 ≡ get_or row_pos row 0
unfolding set_positions
set_positions-other k row [] row_pos lt h = refl
set_positions-other k row (r ∷ rows) row_pos lt h =
    set_positions-other (k + 1) row rows (set row_pos r k) (omega (arith, length-set row_pos r k))
      (ground arith)
    ∙ ground (arith, get_or-set_at row_pos r row k 0 lt)

-- The position of a row leads to the row.
pub set_positions-at :
    (k row : ℕ) (rows row_pos : List ℕ)
    → row < length row_pos
    → is_in row rows ≡ true
    → (i : ℕ) × (get_or (set_positions k rows row_pos) row 0 ≡ k + i)
      × (get_elem? rows i ≡ some row)
unfolding set_positions
set_positions-at k row [] row_pos lt h = absurd (cc)
set_positions-at k row (r ∷ rows) row_pos lt h =
    let next = set row_pos r k in
    let room : row < length next = omega (arith, length-set row_pos r k) in
    elim (Bool-cases (is_in row rows)) [
      | inl later ↦
          let (i, e, at) = set_positions-at (k + 1) row rows next room later in
          (suc i, omega (arith, e), at)
      | inr last ↦
          let same : r ≡ row = ground arith in
          (
            0,
            set_positions-other (k + 1) row rows next room last
                ∙ ground (arith, get_or-set_at row_pos r row k 0 lt),
            ap some same,
          )
    ]

pub get_or-parameter_masks :
    (tokenized : List (List Token)) (row_ids : List (List ℕ)) (common : CommonSet) (rows : List ℕ)
    (i row : ℕ)
    → get_elem? rows i ≡ some row
    → get_or (parameter_masks (pick tokenized rows) (pick row_ids rows) common) i []
      ≡ row_mask common (get_or tokenized row []) (get_or row_ids row [])
unfolding parameter_masks
get_or-parameter_masks tokenized row_ids common [] i row e = absurd (cc)
get_or-parameter_masks tokenized row_ids common (r ∷ rows) zero row e =
    let same : r ≡ row = cc in
    ap (λ x. row_mask common (get_or tokenized x []) (get_or row_ids x [])) same
get_or-parameter_masks tokenized row_ids common (r ∷ rows) (suc i) row e =
    get_or-parameter_masks tokenized row_ids common rows i row e

pub length-set_masks :
    (row_masks : List Bytes) (row_pos row_of indices : List ℕ) (masks : List Bytes)
    → length (set_masks row_masks row_pos row_of indices masks) ≡ length masks
unfolding set_masks
length-set_masks row_masks row_pos row_of [] masks = refl
length-set_masks row_masks row_pos row_of (idx ∷ indices) masks =
    length-set_masks row_masks row_pos row_of indices (set masks idx _) ∙ length-set masks idx _

pub set_masks-at :
    (row_masks : List Bytes) (row_pos row_of indices : List ℕ) (masks : List Bytes) (j : ℕ)
    → j < length masks
    → get_or (set_masks row_masks row_pos row_of indices masks) j [] ≡ (
        if is_in j indices
        then get_or row_masks (get_or row_pos (get_or row_of j 0) 0) []
        else get_or masks j [])
unfolding set_masks
set_masks-at row_masks row_pos row_of [] masks j h = refl
set_masks-at row_masks row_pos row_of (idx ∷ indices) masks j h =
    let v = get_or row_masks (get_or row_pos (get_or row_of idx 0) 0) [] in
    let ih =
      set_masks-at row_masks row_pos row_of indices (set masks idx v) j
        (omega (arith, length-set masks idx v)) in
    elim (Bool-cases (idx == j)) [
      | inl e ↦
          let same : idx ≡ j = ground arith in
          let written : get_or (set masks idx v) j []
              ≡ get_or row_masks (get_or row_pos (get_or row_of j 0) 0) [] =
            get_or-set_at masks idx j v [] h
            ∙ ap (λ b. if b then v else get_or masks j []) e
            ∙ ap (λ x. get_or row_masks (get_or row_pos (get_or row_of x 0) 0) []) same in
          ih ∙ either (is_in j indices) (idx == j) _ _ (get_or masks j []) e written
      | inr e ↦
          let kept : get_or (set masks idx v) j [] ≡ get_or masks j [] =
            get_or-set_at masks idx j v [] h ∙ ap (λ b. if b then v else get_or masks j []) e in
          ih ∙ neither (is_in j indices) (idx == j) _ _ (get_or masks j []) e kept
    ]
  where
    either :
        (b d : Bool) (x y z : Bytes)
        → d ≡ true
        → y ≡ x
        → (if b then x else y) ≡ (if d || b then x else z)
    either true true x y z e q = refl
    either false true x y z e q = q
    either b false x y z e q = absurd (cc)

    neither :
        (b d : Bool) (x y z : Bytes)
        → d ≡ false
        → y ≡ z
        → (if b then x else y) ≡ (if d || b then x else z)
    neither true false x y z e q = refl
    neither false false x y z e q = q
    neither b true x y z e q = absurd (cc)

pub get_or-map :
    (keys : List Bytes) (row_of : List ℕ) (j : ℕ)
    → j < length row_of
    → get_or (message_keys keys row_of) j [] ≡ get_or keys (get_or row_of j 0) []
get_or-map keys [] j h = absurd (omega arith)
get_or-map keys (r ∷ row_of) zero h = refl
get_or-map keys (r ∷ row_of) (suc j) h = get_or-map keys row_of j (omega arith)

pub All-below :
    (n : ℕ) (row_of : List ℕ) (j : ℕ)
    → All (λ r. r < n) row_of
    → j < length row_of
    → get_or row_of j 0 < n
All-below n [] j h lt = absurd (omega arith)
All-below n (r ∷ row_of) zero (h, hs) lt = h
All-below n (r ∷ row_of) (suc j) (h, hs) lt = All-below n row_of j hs (omega arith)
