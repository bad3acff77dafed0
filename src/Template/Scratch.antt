-- ===== src/Template/Scratch.antt =====
-- The scratch of `sharedSlices`: what its two guards leave of the marks of earlier calls.
use tipping.Base.{
  ℕ, ◌+◌, ◌-◌, ◌≤◌, ◌<◌, ◌%◌, ◌≡◌, refl, List, [], ltb, length, get_or, replicate, length-replicate,
  length-take, ◌++◌, get_or-take, arith, Bool-cases, get_or-zeros, inl, inr,
}
use tipping.Template.{u32_mod, sub32, CommonScratch, ensure_marks, reset_marks}

-- The marks behind the two guards: none lies above the base.
pub record IsMarked (s : CommonScratch) : Type 0 where
  pub below : (id : ℕ) → get_or s.mark id 0 ≤ s.base
  pub small : s.base < u32_mod

-- A scratch that is kept from call to call is fit for ids below `num_ids`: no mark of theirs lies
-- above the base.
pub record IsScratch (num_ids : ℕ) (s : CommonScratch) : Type 0 where
  pub below : (id : ℕ) → id < num_ids → get_or (s.mark ++ s.spare) id 0 ≤ s.base
  pub small : s.base < u32_mod

zeros-IsMarked :
    (n : ℕ) (spare : List ℕ) → IsMarked (record { mark = replicate n 0; spare = spare; base = 0 })
zeros-IsMarked n spare = record {
  below = λ id. omega (arith, get_or-zeros n id);
  small = omega arith;
}

pub ensure_marks-IsMarked :
    (s : CommonScratch) (num_ids : ℕ)
    → IsScratch num_ids s
    → IsMarked (ensure_marks s num_ids) × (length (ensure_marks s num_ids).mark ≡ num_ids)
unfolding ensure_marks
ensure_marks-IsMarked s num_ids h =
    let all_marks = s.mark ++ s.spare in
    elim (Bool-cases (ltb (length all_marks) num_ids)) [
      | inl e ↦ rw e (zeros-IsMarked num_ids [], length-replicate num_ids 0)
      | inr e ↦ rw e (
        record {
          below = λ id. ground (arith, get_or-take num_ids all_marks id, λ (k : _). h.below id k);
          small = h.small;
        },
        ground (arith, length-take num_ids all_marks),
      )
    ]

-- The second guard leaves room for one epoch more than there are rows.
pub reset_marks-IsMarked :
    (s : CommonScratch) (rows : ℕ)
    → rows + 1 < u32_mod
    → IsMarked s
    → IsMarked (reset_marks s rows)
      × (length (reset_marks s rows).mark ≡ length s.mark)
      × ((reset_marks s rows).base + rows + 1 < u32_mod)
unfolding reset_marks
reset_marks-IsMarked s rows fits h =
    elim (Bool-cases (ltb (sub32 (sub32 (u32_mod - 1) (rows % u32_mod)) 1) s.base)) [
      | inl e ↦
          rw e (
            zeros-IsMarked (length s.mark) s.spare,
            length-replicate (length s.mark) 0,
            omega arith,
          )
      | inr e ↦
          let le : s.base ≤ sub32 (sub32 (u32_mod - 1) (rows % u32_mod)) 1 = ground arith in
          rw e (h, refl, omega arith)
    ]
