-- ===== src/Graph/Rounds.antt =====
-- The rounds of the first pass of Kosaraju's algorithm in graph.go.
use tipping.Base.{
  subst, ℕ, zero, suc, ◌+◌, ◌-◌, ◌≤◌, ◌<◌, ◌≡◌, refl, sym, ap, ◌∙◌, Bool, true, false, List, [],
  ◌∷◌, some, length, get_elem?, get_or, set, get_or-set, length-set, ◌==◌, if◌then◌else◌, arith,
  inl, inr, Bool-cases, Option-cases, All,
}
use tipping.Dedup.Rows.{count_of, count_of-snoc}
use tipping.Graph.{Frame, Walk, enter, step_top, walk_round, walk_loop}

-- How many of the open frames are of a node.
abbrev pub frames_of : ℕ → List Frame → ℕ
frames_of v [] = 0
frames_of v (f ∷ frames) = (if f.v == v then 1 else 0) + frames_of v frames

abbrev pub degree : List (List ℕ) → ℕ → ℕ
degree adj v = length (get_or adj v [])

-- The rounds that the nodes not entered yet can take, and those that the open frames can.
abbrev pub waiting : List (List ℕ) → List Bool → ℕ
waiting (tos ∷ adj) (b ∷ visited) = (if b then 0 else length tos + 1) + waiting adj visited
waiting adj visited = 0

abbrev pub open_rounds : List (List ℕ) → List Frame → ℕ
open_rounds adj [] = 0
open_rounds adj (f ∷ frames) = degree adj f.v - f.i + 1 + open_rounds adj frames

abbrev pub IsGraph : ℕ → List (List ℕ) → Type 0
IsGraph n adj = (length adj ≡ n) × All (All (λ to. to < n)) adj

-- Each node that is entered is in the order once, or has one open frame, and no other is.
pub record IsWalk (n : ℕ) (w : Walk) : Type 0 where
  pub size : length w.visited ≡ n
  pub once :
      (v : ℕ)
      → count_of v w.order + frames_of v w.frames ≡ (if get_or w.visited v false then 1 else 0)

pub waiting-set :
    (adj : List (List ℕ)) (visited : List Bool) (to : ℕ)
    → length adj ≡ length visited
    → to < length visited
    → get_or visited to false ≡ false
    → waiting adj (set visited to true) + (degree adj to + 1) ≡ waiting adj visited
waiting-set [] [] to e h f = absurd (omega arith)
waiting-set [] (b ∷ visited) to e h f = absurd (omega arith)
waiting-set (tos ∷ adj) [] to e h f = absurd (omega arith)
waiting-set (tos ∷ adj) (b ∷ visited) zero e h f = ground arith
waiting-set (tos ∷ adj) (b ∷ visited) (suc to) e h f =
    let ih = waiting-set adj visited to (omega arith) (omega arith) f in omega (arith, ih)

pub All-get_or :
    (n : ℕ) (adj : List (List ℕ)) (v : ℕ)
    → All (All (λ to. to < n)) adj
    → All (λ to. to < n) (get_or adj v [])
All-get_or n [] v h = tt
All-get_or n (tos ∷ adj) zero (h, hs) = h
All-get_or n (tos ∷ adj) (suc v) (h, hs) = All-get_or n adj v hs

All-get_elem? :
    (n : ℕ) (tos : List ℕ) (i to : ℕ) → All (λ x. x < n) tos → get_elem? tos i ≡ some to → to < n
All-get_elem? n [] i to h e = absurd (cc)
All-get_elem? n (x ∷ tos) zero to (h, hs) e = let same : x ≡ to = cc in omega (arith, same)
All-get_elem? n (x ∷ tos) (suc i) to (h, hs) e = All-get_elem? n tos i to hs e

get_elem?-length : (tos : List ℕ) (i to : ℕ) → get_elem? tos i ≡ some to → i < length tos
get_elem?-length [] i to e = absurd (cc)
get_elem?-length (x ∷ tos) zero to e = omega arith
get_elem?-length (x ∷ tos) (suc i) to e = omega (arith, get_elem?-length tos i to e)

module _ (n : ℕ) (adj : List (List ℕ)) (g : IsGraph n adj) where
  -- What a round leaves: the invariant, a round less to go, and what was entered.
  record IsRound (w w' : Walk) : Type 0 where
    walk : IsWalk n w'
    less :
        waiting adj w'.visited + open_rounds adj w'.frames + 1
        ≤ waiting adj w.visited + open_rounds adj w.frames
    keeps : (v : ℕ) → get_or w.visited v false ≡ true → get_or w'.visited v false ≡ true

  enter-IsRound :
      (w : Walk) (f : Frame) (frames : List Frame) (to : ℕ)
      → w.frames ≡ f ∷ frames
      → IsWalk n w
      → to < n
      → f.i < degree adj f.v
      → IsRound w (enter w f frames to)
  enter-IsRound w f frames to e h lt more =
      let top : (v : ℕ) → frames_of v w.frames ≡ (if f.v == v then 1 else 0) + frames_of v frames =
        λ v. ap (frames_of v) e in
      let open_top : open_rounds adj w.frames ≡ degree adj f.v - f.i + 1 + open_rounds adj frames =
        ap (open_rounds adj) e in
      let room : to < length w.visited = omega (arith, h.size) in
      elim (Bool-cases (get_or w.visited to false)) [
        | inl seen ↦ rw seen (record {
          walk = record { size = h.size; once = λ v. omega (arith, h.once v, top v) };
          less = omega (arith, open_top);
          keeps = λ v k. k;
        })
        | inr new ↦
            let not_yet : (v : ℕ) → to ≡ v → get_or w.visited v false ≡ false =
              λ v q. subst (λ x. get_or w.visited x false ≡ false) q new in
            rw new (record {
              walk = record {
                size = length-set w.visited to true ∙ h.size;
                once = λ v.
                    ground (
                      arith,
                      get_or-set w.visited to v true false room,
                      h.once v,
                      top v,
                      not_yet v,
                    );
              };
              less = omega (
                arith,
                open_top,
                waiting-set adj w.visited to (omega (arith, g.0, h.size)) room new,
              );
              keeps = λ v k. ground (arith, get_or-set w.visited to v true false room);
            })
      ]

  step_top-IsRound :
      (w : Walk) (f : Frame) (frames : List Frame)
      → w.frames ≡ f ∷ frames
      → IsWalk n w
      → IsRound w (step_top adj w f frames)
  step_top-IsRound w f frames e h = elim (Option-cases (get_elem? (get_or adj f.v []) f.i)) [
    | inl at_end ↦
        rw (at_end, step_top)
          (record {
            walk = record {
              size = h.size;
              once = λ v. ground (arith, h.once v, ap (frames_of v) e, count_of-snoc v w.order f.v);
            };
            less = omega (arith, ap (open_rounds adj) e);
            keeps = λ v k. k;
          })
    | inr (to, at) ↦
        rw (at, step_top)
          (enter-IsRound w f frames to e h
            (All-get_elem? n (get_or adj f.v []) f.i to (All-get_or n adj f.v g.1) at)
            (get_elem?-length (get_or adj f.v []) f.i to at))
  ]

  -- What the loop leaves, with fuel for the rounds that it can take.
  pub record IsWalked (w w' : Walk) : Type 0 where
    pub walk : IsWalk n w'
    pub closed : w'.frames ≡ []
    pub keeps : (v : ℕ) → get_or w.visited v false ≡ true → get_or w'.visited v false ≡ true

  walk_loop-idle : (fuel : ℕ) (w : Walk) → w.frames ≡ [] → walk_loop fuel adj w ≡ w
  unfolding walk_loop
  walk_loop-idle zero w e = refl
  walk_loop-idle (suc fuel) w e =
      ap (λ frames. walk_loop fuel adj (walk_round adj w frames)) e ∙ walk_loop-idle fuel w e

  walk_loop-frames :
      (fuel : ℕ) (w : Walk) (frames : List Frame)
      → w.frames ≡ frames
      → IsWalk n w
      → waiting adj w.visited + open_rounds adj w.frames ≤ fuel
      → IsWalked w (walk_loop fuel adj w)
  unfolding walk_loop
  walk_loop-frames zero w [] e h fits = record { walk = h; closed = e; keeps = λ v k. k }
  walk_loop-frames zero w (f ∷ frames) e h fits = absurd (omega (arith, ap (open_rounds adj) e))
  walk_loop-frames (suc fuel) w [] e h fits =
      subst (IsWalked w) (sym (walk_loop-idle (suc fuel) w e))
        (record { walk = h; closed = e; keeps = λ v k. k })
  walk_loop-frames (suc fuel) w (f ∷ frames) e h fits =
      let next = step_top adj w f frames in
      let r = step_top-IsRound w f frames e h in
      let rest = walk_loop-frames fuel next next.frames refl r.walk (omega (arith, r.less)) in
      subst (λ x. IsWalked w (walk_loop fuel adj (walk_round adj w x))) (sym e)
        (record {
          walk = rest.walk;
          closed = rest.closed;
          keeps = λ v k. rest.keeps v (r.keeps v k);
        })

  pub walk_loop-IsWalked :
      (fuel : ℕ) (w : Walk)
      → IsWalk n w
      → waiting adj w.visited + open_rounds adj w.frames ≤ fuel
      → IsWalked w (walk_loop fuel adj w)
  walk_loop-IsWalked fuel w = walk_loop-frames fuel w w.frames refl
