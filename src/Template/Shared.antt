-- ===== src/Template/Shared.antt =====
-- `sharedSlices` (template.go): its loops over the rows, and its result.
use tipping.Base.{
  ℕ, ◌+◌, ◌≤◌, ◌<◌, ◌≡◌, ◌≢◌, refl, Bool, false, ◌&&◌, List, [], ◌∷◌, ◌==◌, length, get_or, ◌∙◌,
  subst, sym, get_or-append, arith, Bool-cases, All, inl, inr,
}
use tipping.Token.{Token}
use tipping.Filter.{StaticFilter}
use tipping.Template.{
  u32_mod, add32, contains, CommonScratch, Marks, mark_new, mark_again, row_loop, Progress,
  rows_loop, ensure_marks, reset_marks, intersect, shared_slices,
}
use tipping.Template.Rows.{
  occurs, all_occur, Below, first_row-size, first_row-marked, first_row-none, next_row-size,
  next_row-marked, next_row-none,
}
use tipping.Template.Scratch.{IsMarked, IsScratch, ensure_marks-IsMarked, reset_marks-IsMarked}

-- What holds before a round: the ids that all rows so far share are those marked with the epoch.
record IsProgress (S : ℕ → Bool) (n epoch : ℕ) (p : Progress) : Type 0 where
  size : length p.mark ≡ n
  current : p.final ≡ epoch
  below : (id : ℕ) → get_or p.mark id 0 ≤ epoch
  exact : (id : ℕ) → (get_or p.mark id 0 == epoch) ≡ S id
  none_left : p.count ≡ 0 → (id : ℕ) → S id ≡ false

-- What holds behind the loop, for the ids that all rows share.
record IsOutcome (A : ℕ → Bool) (n bound : ℕ) (p : Progress) : Type 0 where
  size : length p.mark ≡ n
  below : (id : ℕ) → get_or p.mark id 0 ≤ bound
  none_left : p.count ≡ 0 → (id : ℕ) → A id ≡ false
  exact : p.count ≢ 0 → (id : ℕ) → (get_or p.mark id 0 == p.final) ≡ A id

abbrev pub AllBelow : ℕ → List (List ℕ) → Type 0
AllBelow n = All (Below n)

module _ (filter : StaticFilter) (n base : ℕ) where
  next-IsProgress :
      (S : ℕ → Bool) (epoch value : ℕ) (toks : List Token) (ids : List ℕ) (p : Progress)
      → value ≡ epoch + 1
      → Below n ids
      → IsProgress S n epoch p
      → IsProgress
          (λ id. S id && occurs filter toks ids id)
          n
          value
          (let m =
              row_loop filter
                (mark_again epoch value)
                toks
                ids
                (record { mark = p.mark; count = 0 }) in
            record { mark = m.mark; count = m.count; final = value })
  next-IsProgress S epoch value toks ids p e h i =
      let m : Marks = record { mark = p.mark; count = 0 } in
      let lt : epoch < value = omega arith in
      let marks = λ (id : ℕ). next_row-marked filter n epoch value lt toks ids m id i.size h in
      record {
        size = next_row-size filter n epoch value lt toks ids m i.size h;
        current = refl;
        below = λ id. ground (arith, marks id, i.below id);
        exact = λ id. ground (arith, marks id, i.below id, i.exact id);
        none_left = λ z id.
            ground
              (arith, next_row-none filter n epoch value lt toks ids m id i.size h z, i.exact id);
      }

  stop-IsOutcome :
      (S A : ℕ → Bool) (epoch bound : ℕ) (p : Progress)
      → epoch ≤ bound
      → ((id : ℕ) → S id ≡ false → A id ≡ false)
      → p.count ≡ 0
      → IsProgress S n epoch p
      → IsOutcome A n bound p
  stop-IsOutcome S A epoch bound p le e z k = record {
    size = k.size;
    below = λ id. omega (arith, k.below id);
    none_left = λ _ id. e id (k.none_left z id);
    exact = λ more id. absurd (more z);
  }

  end-IsOutcome :
      (S A : ℕ → Bool) (epoch bound : ℕ) (p : Progress)
      → epoch ≤ bound
      → ((id : ℕ) → S id ≡ A id)
      → IsProgress S n epoch p
      → IsOutcome A n bound p
  end-IsOutcome S A epoch bound p le e k = record {
    size = k.size;
    below = λ id. omega (arith, k.below id);
    none_left = λ z id. cc (e id, k.none_left z id);
    exact = λ more id. rw k.current (cc (k.exact id, e id));
  }

  IsOutcome-cong :
      (A B : ℕ → Bool) (bound : ℕ) (p : Progress)
      → ((id : ℕ) → A id ≡ B id)
      → IsOutcome A n bound p
      → IsOutcome B n bound p
  IsOutcome-cong A B bound p e o = record {
    size = o.size;
    below = o.below;
    none_left = λ z id. cc (e id, o.none_left z id);
    exact = λ more id. cc (e id, o.exact more id);
  }

  rows_loop-IsOutcome :
      (S : ℕ → Bool) (epoch bound i : ℕ) (rows : List (List Token)) (rids : List (List ℕ))
      (p : Progress)
      → epoch ≡ base + i
      → epoch + length rows ≤ bound
      → bound < u32_mod
      → AllBelow n rids
      → IsProgress S n epoch p
      → IsOutcome
          (λ id. S id && all_occur filter rows rids id)
          n
          bound
          (rows_loop filter base i rows rids p)
  unfolding rows_loop
  rows_loop-IsOutcome S epoch bound i [] rids p e fits small h k =
      end-IsOutcome S _ epoch bound p (omega arith) (λ id. ground arith) k
  rows_loop-IsOutcome S epoch bound i (toks ∷ rows) [] p e fits small h k =
      end-IsOutcome S _ epoch bound p (omega arith) (λ id. ground arith) k
  rows_loop-IsOutcome S epoch bound i (toks ∷ rows) (ids ∷ rids) p e fits small (hi, h) k =
      elim (Bool-cases (p.count == 0)) [
        | inl z ↦
            rw z (stop-IsOutcome S _ epoch bound p (omega arith) (λ id. λ f. rw f) (ground arith) k)
        | inr more ↦
            let e' : epoch ≡ add32 base i = omega arith in
            let value = add32 (add32 base i) 1 in
            let k' : IsProgress S n (add32 base i) p = rw (← e') k in
            rw more (
              IsOutcome-cong
                (λ id. (S id && occurs filter toks ids id) && all_occur filter rows rids id)
                (λ id. S id && (occurs filter toks ids id && all_occur filter rows rids id)) bound _
                (λ id. ground arith)
                (rows_loop-IsOutcome (λ id. S id && occurs filter toks ids id) value bound (i + 1)
                  rows rids _ (omega arith) (omega arith) small h
                  (next-IsProgress S (add32 base i) value toks ids p (omega arith) hi k')))
      ]

module _ (filter : StaticFilter) (s : CommonScratch) (ok : IsMarked s) where
  first-IsProgress :
      (toks : List Token) (ids : List ℕ) (value : ℕ)
      → value ≡ s.base + 1
      → Below (length s.mark) ids
      → IsProgress (occurs filter toks ids) (length s.mark) value (
          let m = row_loop filter (mark_new value) toks ids (record { mark = s.mark; count = 0 }) in
          record { mark = m.mark; count = m.count; final = value })
  first-IsProgress toks ids value e h =
      let m : Marks = record { mark = s.mark; count = 0 } in
      let n = length s.mark in
      let marks = λ (id : ℕ). first_row-marked filter n value toks ids m id refl h in
      record {
        size = first_row-size filter n value toks ids m refl h;
        current = refl;
        below = λ id. ground (arith, marks id, ok.below id);
        exact = λ id. ground (arith, marks id, ok.below id);
        none_left = λ z id.
            first_row-none filter n value toks ids m id refl h z (ground (arith, ok.below id));
      }

  intersect-lem :
      (toks : List Token) (ids : List ℕ) (rows : List (List Token)) (rids : List (List ℕ))
      → s.base + (length rows + 1) + 1 < u32_mod
      → AllBelow (length s.mark) (ids ∷ rids)
      → ((id : ℕ)
          → contains (intersect filter toks ids rows rids s).0 id
            ≡ all_occur filter (toks ∷ rows) (ids ∷ rids) id)
        × IsScratch (length s.mark) (intersect filter toks ids rows rids s).1
  unfolding intersect contains
  intersect-lem toks ids rows rids fits (hi, h) =
      let value = add32 s.base 1 in
      let first = first-IsProgress toks ids value (omega arith) hi in
      let m = row_loop filter (mark_new value) toks ids (record { mark = s.mark; count = 0 }) in
      let p =
        rows_loop filter s.base 1 rows rids
          (record { mark = m.mark; count = m.count; final = value }) in
      let out =
        rows_loop-IsOutcome filter (length s.mark) s.base (occurs filter toks ids) value
          (s.base + (length rows + 1)) 1 rows rids _ (omega arith) (omega arith) (omega arith) h
          first in
      (
        λ id.
            ground (arith, out.below id, λ (z : _). out.none_left z id, λ (z : _). out.exact z id),
        record {
          below = λ id k.
              let inside : id < length p.mark = omega (arith, out.size) in
              omega (arith, out.below id, get_or-append p.mark s.spare id inside);
          small = omega arith;
        },
      )

-- For one to 2 ^ 32 - 2 rows with ids below numIDs, and a scratch with no mark below numIDs above
-- its base, sharedSlices returns exactly the ids that occur as a candidate in every row, and
-- leaves such a scratch.
pub shared_slices-intersection :
    (rows : List (List Token)) (rids : List (List ℕ)) (filter : StaticFilter)
    (scratch : CommonScratch) (num_ids : ℕ)
    → 0 < length rows
    → length rids ≡ length rows
    → length rows + 1 < u32_mod
    → AllBelow num_ids rids
    → IsScratch num_ids scratch
    → ((id : ℕ)
        → contains (shared_slices rows rids filter scratch num_ids).0 id
          ≡ all_occur filter rows rids id)
      × IsScratch num_ids (shared_slices rows rids filter scratch num_ids).1
unfolding shared_slices
shared_slices-intersection [] rids filter scratch num_ids pos len fits h ok = absurd (omega arith)
shared_slices-intersection (toks ∷ rows) [] filter scratch num_ids pos len fits h ok =
    absurd (omega arith)
shared_slices-intersection (toks ∷ rows) (ids ∷ rids) filter scratch num_ids pos len fits h ok =
    let s = ensure_marks scratch num_ids in
    let (ok1, size1) = ensure_marks-IsMarked scratch num_ids ok in
    let (ok2, size2, room) = reset_marks-IsMarked s (length rows + 1) (omega arith) ok1 in
    let size : length (reset_marks s (length rows + 1)).mark ≡ num_ids = size2 ∙ size1 in
    subst
      (λ n.
        ((id : ℕ)
          → contains (intersect filter toks ids rows rids (reset_marks s (length rows + 1))).0 id
            ≡ all_occur filter (toks ∷ rows) (ids ∷ rids) id)
        × IsScratch n (intersect filter toks ids rows rids (reset_marks s (length rows + 1))).1)
      size
      (intersect-lem filter (reset_marks s (length rows + 1)) ok2 toks ids rows rids (omega arith)
        (subst (λ n. AllBelow n (ids ∷ rids)) (sym size) h))
