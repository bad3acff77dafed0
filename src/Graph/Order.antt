-- ===== src/Graph/Order.antt =====
-- The order of the nodes after the first pass of graph.go.
use tipping.Base.{
  subst, ℕ, zero, suc, ◌+◌, ◌≤◌, ◌<◌, ◌≡◌, refl, sym, ap, ◌∙◌, Bool, true, false, List, [], ◌∷◌,
  length, get_or, set, get_or-set, length-set, length-replicate, replicate, ◌==◌, if◌then◌else◌,
  ltb, arith, inl, inr, Bool-cases,
}
use tipping.Dedup.Rows.{count_of}
use tipping.Graph.{Walk, walk_loop, total, first_pass, walk_order}
use tipping.Graph.Rounds.{
  frames_of, open_rounds, waiting, IsGraph, IsWalk, waiting-set, walk_loop-IsWalked,
}

module _ (n : ℕ) (adj : List (List ℕ)) (g : IsGraph n adj) where
  waiting-le : (lists : List (List ℕ)) (visited : List Bool) → waiting lists visited ≤ total lists
  waiting-le [] visited = omega arith
  waiting-le (tos ∷ lists) [] = omega arith
  waiting-le (tos ∷ lists) (b ∷ visited) = ground (arith, waiting-le lists visited)

  -- The nodes before `v0` have been visited.
  record IsPass (v0 : ℕ) (w : Walk) : Type 0 where
    walk : IsWalk n w
    closed : w.frames ≡ []
    all_before : (v : ℕ) → v < v0 → get_or w.visited v false ≡ true

  root-IsPass :
      (v0 : ℕ) (w : Walk)
      → v0 < n
      → get_or w.visited v0 false ≡ false
      → IsPass v0 w
      → IsPass (v0 + 1) (
          walk_loop (total adj) adj (record w {
            visited = set w.visited v0 true;
            frames = record { v = v0; i = 0 } ∷ w.frames;
          }))
  root-IsPass v0 w lt new h =
      let begin : Walk = record w {
        visited = set w.visited v0 true;
        frames = record { v = v0; i = 0 } ∷ w.frames;
      } in
      let room : v0 < length w.visited = omega (arith, h.walk.size) in
      let not_yet : (v : ℕ) → v0 ≡ v → get_or w.visited v false ≡ false =
        λ v q. subst (λ x. get_or w.visited x false ≡ false) q new in
      let at : (v : ℕ)
          → get_or begin.visited v false ≡ (if v0 == v then true else get_or w.visited v false) =
        λ v. get_or-set w.visited v0 v true false room in
      let r =
        walk_loop-IsWalked n adj g (total adj) begin
          (record {
            size = length-set w.visited v0 true ∙ h.walk.size;
            once = λ v. ground (arith, at v, h.walk.once v, not_yet v);
          })
          (omega (
            arith,
            waiting-set adj w.visited v0 (omega (arith, g.0, h.walk.size)) room new,
            waiting-le adj w.visited,
            ap (open_rounds adj) h.closed,
          )) in
      record {
        walk = r.walk;
        closed = r.closed;
        all_before = λ v k. r.keeps v (ground (arith, at v, h.all_before v));
      }

  first_pass-IsPass :
      (count v0 : ℕ) (w : Walk)
      → v0 + count ≡ n
      → IsPass v0 w
      → IsPass n (first_pass adj count v0 w)
  unfolding first_pass
  first_pass-IsPass zero v0 w e h = subst (λ k. IsPass k w) (omega arith) h
  first_pass-IsPass (suc count) v0 w e h = elim (Bool-cases (get_or w.visited v0 false)) [
    | inl seen ↦
        let same : (v : ℕ) → v0 ≡ v → get_or w.visited v false ≡ true =
          λ v q. subst (λ x. get_or w.visited x false ≡ true) q seen in
        rw seen (
          first_pass-IsPass count (v0 + 1) w (omega arith) (record {
            walk = h.walk;
            closed = h.closed;
            all_before = λ v k. ground (arith, h.all_before v, same v);
          }))
    | inr new ↦
        rw new
          (first_pass-IsPass count (v0 + 1) _ (omega arith) (root-IsPass v0 w (omega arith) new h))
  ]

get_or-falses : (n v : ℕ) → get_or (replicate n false) v false ≡ false
get_or-falses zero v = refl
get_or-falses (suc n) zero = refl
get_or-falses (suc n) (suc v) = get_or-falses n v

get_or-size : (visited : List Bool) (v : ℕ) → get_or visited v false ≡ true → v < length visited
get_or-size [] v h = absurd (cc)
get_or-size (b ∷ visited) zero h = omega arith
get_or-size (b ∷ visited) (suc v) h = omega (arith, get_or-size visited v h)

-- Each node is in the order once, and no other number is.
pub count_of-walk_order :
    (n : ℕ) (adj : List (List ℕ)) (v : ℕ)
    → IsGraph n adj
    → count_of v (walk_order adj n) ≡ (if ltb v n then 1 else 0)
unfolding walk_order
count_of-walk_order n adj v g =
    let start : Walk = record { visited = replicate n false; frames = []; order = [] } in
    let w = first_pass adj n 0 start in
    let zero_first : 0 + n ≡ n = omega arith in
    let r = first_pass-IsPass n adj g n 0 start zero_first (record {
      walk = record {
        size = length-replicate n false;
        once = λ u. ap (λ b. if b then 1 else 0) (sym (get_or-falses n u));
      };
      closed = refl;
      all_before = λ u k. absurd (omega arith);
    }) in
    ground (
      arith,
      r.walk.once v,
      ap (frames_of v) r.closed,
      r.all_before v,
      get_or-size w.visited v,
      r.walk.size,
    )
