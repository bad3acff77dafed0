-- ===== src/Template.antt =====
-- template.go: the token ids that all rows of a cluster share, the templates of the rows, and
-- their parameter masks.
pub mod Rows
pub mod Scratch
pub mod Shared
pub mod Masks
use tipping.Base.{
  ℕ, zero, suc, ◌+◌, ◌-◌, ◌*◌, ◌%◌, ◌^◌, Bool, true, false, not, List, [], ◌∷◌, ◌++◌, ltb, leb,
  ◌==◌, if◌then◌else◌, length, take, drop, get_or, set, replicate, Bytes, bytes_eq, codes,
}
use tipping.Token.{Token}
use tipping.Filter.{StaticFilter, common_candidate}

-- Arithmetic on `uint32`.
abbrev pub u32_mod : ℕ
u32_mod = 2 ^ 32

abbrev pub add32 : ℕ → ℕ → ℕ
add32 a b = (a + b) % u32_mod

abbrev pub sub32 : ℕ → ℕ → ℕ
sub32 a b = (a + u32_mod - b) % u32_mod

pub record CommonSet : Type 0 where
  pub mark : List ℕ
  pub final : ℕ

-- `commonSet.contains`
unfoldable pub contains : CommonSet → ℕ → Bool
contains c id = get_or c.mark id 0 == c.final

-- `spare` is what lies between the length of the slice `mark` and its capacity.
pub record CommonScratch : Type 0 where
  pub mark : List ℕ
  pub spare : List ℕ
  pub base : ℕ

-- `mark`, and `count` or `hits`.
pub record Marks : Type 0 where
  pub mark : List ℕ
  pub count : ℕ

-- `if mark[id] != value { mark[id] = value; count++ }`
unfoldable pub mark_new : ℕ → ℕ → Marks → Marks
mark_new value id m =
    if get_or m.mark id 0 == value
    then m
    else record { mark = set m.mark id value; count = m.count + 1 }

-- `if mark[id] == epoch { mark[id] = value; hits++ }`
unfoldable pub mark_again : ℕ → ℕ → ℕ → Marks → Marks
mark_again epoch value id m =
    if get_or m.mark id 0 == epoch
    then record { mark = set m.mark id value; count = m.count + 1 }
    else m

-- A loop over the tokens of a row and their ids: `update` is made for each candidate.
unfoldable pub row_loop : StaticFilter → (ℕ → Marks → Marks) → List Token → List ℕ → Marks → Marks
row_loop filter update (tok ∷ toks) (id ∷ ids) m =
    row_loop filter update toks ids (if common_candidate tok.kind filter then update id m else m)
row_loop filter update toks ids m = m

-- The variables of the loop over the later rows.
pub record Progress : Type 0 where
  pub mark : List ℕ
  pub count : ℕ
  pub final : ℕ

-- The loop `for i := 1; i < len(tokenized); i++`, with its `break`.
unfoldable pub rows_loop :
    StaticFilter → ℕ → ℕ → List (List Token) → List (List ℕ) → Progress → Progress
rows_loop filter base i (toks ∷ rows) (ids ∷ rids) p =
    let epoch = add32 base i in
    let m =
      row_loop filter (mark_again epoch (add32 epoch 1)) toks ids
        (record { mark = p.mark; count = 0 }) in
    let rest =
      rows_loop filter base (i + 1) rows rids
        (record { mark = m.mark; count = m.count; final = add32 epoch 1 }) in
    if p.count == 0 then p else rest
rows_loop filter base i rows rids p = p

-- `if cap(scratch.mark) < numIDs`, and the `else` that cuts the slice to its new length.
unfoldable pub ensure_marks : CommonScratch → ℕ → CommonScratch
ensure_marks scratch num_ids =
    let all_marks = scratch.mark ++ scratch.spare in
    if ltb (length all_marks) num_ids
    then record { mark = replicate num_ids 0; spare = []; base = 0 }
    else record {
      mark = take num_ids all_marks;
      spare = drop num_ids all_marks;
      base = scratch.base;
    }

-- `if scratch.base > ^uint32(0)-uint32(len(tokenized))-1 { clear(scratch.mark); scratch.base = 0 }`
unfoldable pub reset_marks : CommonScratch → ℕ → CommonScratch
reset_marks scratch rows =
    if ltb (sub32 (sub32 (u32_mod - 1) (rows % u32_mod)) 1) scratch.base
    then record { mark = replicate (length scratch.mark) 0; spare = scratch.spare; base = 0 }
    else scratch

-- The part of `sharedSlices` behind the two guards, for a first row and the rows after it.
unfoldable pub intersect :
    StaticFilter
    → List Token
    → List ℕ
    → List (List Token)
    → List (List ℕ)
    → CommonScratch
    → CommonSet × CommonScratch
intersect filter toks ids rows rids scratch =
    let base = scratch.base in
    let first =
      row_loop filter (mark_new (add32 base 1)) toks ids
        (record { mark = scratch.mark; count = 0 }) in
    let p =
      rows_loop filter base 1 rows rids
        (record { mark = first.mark; count = first.count; final = add32 base 1 }) in
    let base' = add32 (add32 base ((length rows + 1) % u32_mod)) 1 in
    (
      record { mark = p.mark; final = if p.count == 0 then base' else p.final },
      record { mark = p.mark; spare = scratch.spare; base = base' },
    )

unfoldable pub shared_slices :
    List (List Token) → List (List ℕ) → StaticFilter → CommonScratch → ℕ → CommonSet × CommonScratch
shared_slices (toks ∷ rows) (ids ∷ rids) filter scratch num_ids =
    intersect filter toks ids rows rids
      (reset_marks (ensure_marks scratch num_ids) (length rows + 1))
shared_slices rows rids filter scratch num_ids =
    let s = ensure_marks scratch num_ids in (record { mark = s.mark; final = 0 }, s)

abbrev pub placeholder : Bytes
placeholder = codes "<*>"

-- The loop of `templatesForCluster` over a row; `shared` is `common.contains`.
unfoldable pub template_loop : (ℕ → Bool) → List Token → List ℕ → Bytes → Bool → Bytes
template_loop shared (tok ∷ toks) (id ∷ ids) buf last_placeholder =
    template_loop shared toks ids
      (if shared id then buf ++ tok.slice else if last_placeholder then buf else buf ++ placeholder)
      (not (shared id))
template_loop shared toks ids buf last_placeholder = buf

unfoldable pub row_template : CommonSet → List Token → List ℕ → Bytes
row_template common toks ids = template_loop (contains common) toks ids [] false

-- `sort.Strings`, by the bytes.
unfoldable pub bytes_le : Bytes → Bytes → Bool
bytes_le [] ys = true
bytes_le (x ∷ xs) [] = false
bytes_le (x ∷ xs) (y ∷ ys) = if x == y then bytes_le xs ys else leb x y

-- `set[string(buf)] = struct{}{}`, with the keys in order.
unfoldable pub insert_template : Bytes → List Bytes → List Bytes
unfolding bytes_le
insert_template t [] = t ∷ []
insert_template t (u ∷ us) =
    if bytes_eq t u then u ∷ us else if bytes_le t u then t ∷ u ∷ us else u ∷ insert_template t us

unfoldable pub templates_for_cluster : List (List Token) → List (List ℕ) → CommonSet → List Bytes
templates_for_cluster (toks ∷ rows) (ids ∷ rids) common =
    insert_template (row_template common toks ids) (templates_for_cluster rows rids common)
templates_for_cluster rows rids common = []

-- The fill of `parameterMasks`: a digit for each byte of the token.
abbrev pub mask_digit : Bool → ℕ
mask_digit true = b'0'
mask_digit false = b'1'

unfoldable pub mask_loop : (ℕ → Bool) → List Token → List ℕ → Bytes
mask_loop shared (tok ∷ toks) (id ∷ ids) =
    replicate (length tok.slice) (mask_digit (shared id)) ++ mask_loop shared toks ids
mask_loop shared toks ids = []

unfoldable pub row_mask : CommonSet → List Token → List ℕ → Bytes
row_mask common toks ids = mask_loop (contains common) toks ids

unfoldable pub parameter_masks : List (List Token) → List (List ℕ) → CommonSet → List Bytes
parameter_masks (toks ∷ rows) (ids ∷ rids) common =
    row_mask common toks ids ∷ parameter_masks rows rids common
parameter_masks rows rids common = []
