-- ===== src/Graph/Built.antt =====
-- The edges that graph.go builds lead from nodes to nodes.
use tipping.Base.{
  ℕ, zero, suc, ◌+◌, ◌<◌, ◌≡◌, ◌∙◌, Bool, true, false, List, [], ◌∷◌, ◌++◌, length, get_or, set,
  length-set, length-replicate, replicate, ◌==◌, if◌then◌else◌, ltb, arith, All, All-append,
}
use tipping.Dedup.Rows.{count_of}
use tipping.TokenRecord.{TokenRecord, new_token_pair_id}
use tipping.Graph.{
  Edges, push_edge, add_edge, join_nodes, edges_from, build_edges, no_edges, walk_order,
}
use tipping.Graph.Rounds.{IsGraph, All-get_or}
use tipping.Graph.Order.{count_of-walk_order}

All-set :
    (n : ℕ) (lists : List (List ℕ)) (i : ℕ) (l : List ℕ)
    → All (λ to. to < n) l
    → All (All (λ to. to < n)) lists
    → All (All (λ to. to < n)) (set lists i l)
All-set n [] i l h hs = tt
All-set n (x ∷ lists) zero l h (hx, hs) = (h, hs)
All-set n (x ∷ lists) (suc i) l h (hx, hs) = (hx, All-set n lists i l h hs)

push_edge-IsGraph :
    (n : ℕ) (lists : List (List ℕ)) (i j : ℕ)
    → j < n
    → IsGraph n lists
    → IsGraph n (push_edge lists i j)
push_edge-IsGraph n lists i j h (size, below) = (
  length-set lists i _ ∙ size,
  All-set n lists i (get_or lists i [] ++ j ∷ [])
      (All-append (λ to. to < n) (get_or lists i []) (j ∷ []) (All-get_or n lists i below) (h, tt))
      below,
)

-- Both directions.
pub AreEdges : ℕ → Edges → Type 0
AreEdges n e = IsGraph n e.adj × IsGraph n e.rev

add_edge-AreEdges :
    (n i j : ℕ) (e : Edges) → i < n → j < n → AreEdges n e → AreEdges n (add_edge i j e)
unfolding add_edge AreEdges
add_edge-AreEdges n i j e hi hj (a, r) =
    (push_edge-IsGraph n e.adj i j hj a, push_edge-IsGraph n e.rev j i hi r)

choice-AreEdges :
    (n : ℕ) (b : Bool) (e f : Edges) → AreEdges n e → AreEdges n f → AreEdges n (if b then e else f)
choice-AreEdges n true e f he hf = he
choice-AreEdges n false e f he hf = hf

module _ (exceeds : ℕ → ℕ → Bool) (idep : TokenRecord) (n : ℕ) where
  join_nodes-AreEdges :
      (i id_i j id_j : ℕ) (e : Edges)
      → i < n
      → j < n
      → AreEdges n e
      → AreEdges n (join_nodes exceeds idep i id_i j id_j e)
  unfolding join_nodes
  join_nodes-AreEdges i id_i j id_j e hi hj h =
      let co = idep.co (new_token_pair_id id_i id_j) in
      let to_j = exceeds co (get_or idep.occ id_i 0) in
      let to_i = exceeds co (get_or idep.occ id_j 0) in
      let first = choice-AreEdges n to_j _ _ (add_edge-AreEdges n i j e hi hj h) h in
      choice-AreEdges n (co == 0) _ _ h
        (choice-AreEdges n to_i _ _ (add_edge-AreEdges n j i _ hj hi first) first)

  edges_from-AreEdges :
      (i id_i j : ℕ) (ids : List ℕ) (e : Edges)
      → i < n
      → j + length ids ≡ n
      → AreEdges n e
      → AreEdges n (edges_from exceeds idep i id_i j ids e)
  unfolding edges_from
  edges_from-AreEdges i id_i j [] e hi size h = h
  edges_from-AreEdges i id_i j (id_j ∷ ids) e hi size h =
      edges_from-AreEdges i id_i (j + 1) ids _ hi (omega arith)
        (join_nodes-AreEdges i id_i j id_j e hi (omega arith) h)

  build_edges-AreEdges :
      (i : ℕ) (ids : List ℕ) (e : Edges)
      → i + length ids ≡ n
      → AreEdges n e
      → AreEdges n (build_edges exceeds idep i ids e)
  unfolding build_edges
  build_edges-AreEdges i [] e size h = h
  build_edges-AreEdges i (id ∷ ids) e size h =
      build_edges-AreEdges (i + 1) ids _ (omega arith)
        (edges_from-AreEdges i id (i + 1) ids e (omega arith) (omega arith) h)

replicate-nil : (n m : ℕ) → All (All (λ to. to < n)) (replicate m [])
replicate-nil n zero = tt
replicate-nil n (suc m) = (tt, replicate-nil n m)

pub no_edges-AreEdges : (n : ℕ) → AreEdges n (no_edges n)
unfolding AreEdges
no_edges-AreEdges n =
    ((length-replicate n [], replicate-nil n n), (length-replicate n [], replicate-nil n n))

pub AreEdges-build_edges :
    (exceeds : ℕ → ℕ → Bool) (idep : TokenRecord) (ids : List ℕ)
    → AreEdges (length ids) (build_edges exceeds idep 0 ids (no_edges (length ids)))
AreEdges-build_edges exceeds idep ids =
    let zero_first : 0 + length ids ≡ length ids = omega arith in
    build_edges-AreEdges exceeds idep (length ids) 0 ids (no_edges (length ids)) zero_first
      (no_edges-AreEdges (length ids))

-- The order that the first pass computes within its fuel, over the edges of any row, holds each
-- node exactly once and nothing else.
pub walk_order-build_edges :
    (exceeds : ℕ → ℕ → Bool) (idep : TokenRecord) (ids : List ℕ) (v : ℕ)
    → count_of v
        (walk_order (build_edges exceeds idep 0 ids (no_edges (length ids))).adj (length ids))
      ≡ (if ltb v (length ids) then 1 else 0)
unfolding AreEdges
walk_order-build_edges exceeds idep ids v =
    count_of-walk_order (length ids) _ v (AreEdges-build_edges exceeds idep ids).0
