-- ===== src/Graph.antt =====
-- graph.go: the anchors of a row are the tokens of its largest strongly connected component, where
-- an edge leads from a token to one that stands beside it often enough.
pub mod Anchored
pub mod Rounds
pub mod Order
pub mod Built
use tipping.Base.{
  ℕ, zero, suc, ◌+◌, ◌*◌, ◌^◌, ◌%◌, Bool, true, false, ◌&&◌, not, List, [], ◌∷◌, ◌++◌, Option, none,
  some, length, get_or, get_elem?, set, replicate, Bytes, ltb, ◌==◌, if◌then◌else◌, bit_or, bit_and,
}
use tipping.Token.{Token, TokenKind}
use tipping.Template.{add32}
use tipping.TokenRecord.{TokenRecord, new_token_pair_id}
use tipping.Anchors.{Anchors, kind_number, put_anchor, put_anchors, add_specials}

-- The part of `anchorScratch` that one row leaves to the next.
pub record AnchorScratch : Type 0 where
  pub node_epoch : List ℕ
  pub node_kinds : List ℕ
  pub epoch : ℕ

unfoldable pub new_anchor_scratch : ℕ → AnchorScratch
new_anchor_scratch num_ids = record {
  node_epoch = replicate num_ids 0;
  node_kinds = replicate num_ids 0;
  epoch = 0;
}

pub record Nodes : Type 0 where
  pub scratch : AnchorScratch
  pub nodes : List Token
  pub ids : List ℕ

-- `if scratch.nodeEpoch[id] != epoch { … }`
abbrev pub renew : ℕ → AnchorScratch → AnchorScratch
renew id s = if get_or s.node_epoch id 0 == s.epoch then s else record {
  node_epoch = set s.node_epoch id s.epoch;
  node_kinds = set s.node_kinds id 0;
  epoch = s.epoch;
}

-- `uint8(1) << tok.Kind`
abbrev pub kind_bit : Token → ℕ
kind_bit tok = 2 ^ kind_number tok.kind % 256

-- The rest of the loop's body, for a token with occurrences.
unfoldable pub add_node : Token → ℕ → Nodes → Nodes
add_node tok id st =
    let s = renew id st.scratch in
    let kinds = get_or s.node_kinds id 0 in
    if bit_and kinds (kind_bit tok) == 0
    then record {
      scratch = record s { node_kinds = set s.node_kinds id (bit_or kinds (kind_bit tok)) };
      nodes = st.nodes ++ tok ∷ [];
      ids = st.ids ++ id ∷ [];
    }
    else record st { scratch = s }

unfoldable pub collect_nodes : List ℕ → List Token → List ℕ → Nodes → Nodes
unfolding add_node
collect_nodes occ (tok ∷ tokens) (id ∷ ids) st =
    collect_nodes occ tokens ids (if get_or occ id 0 == 0 then st else add_node tok id st)
collect_nodes occ tokens ids st = st

-- `adj` and `rev`
pub record Edges : Type 0 where
  pub adj : List (List ℕ)
  pub rev : List (List ℕ)

abbrev pub push_edge : List (List ℕ) → ℕ → ℕ → List (List ℕ)
push_edge lists i j = set lists i (get_or lists i [] ++ j ∷ [])

-- An edge from `i` to `j`.
unfoldable pub add_edge : ℕ → ℕ → Edges → Edges
add_edge i j e = record { adj = push_edge e.adj i j; rev = push_edge e.rev j i }

-- `exceeds co occ` is the test of floating-point numbers `float64(co) > float64(occ) * threshold`.
unfoldable pub join_nodes : (ℕ → ℕ → Bool) → TokenRecord → ℕ → ℕ → ℕ → ℕ → Edges → Edges
unfolding add_edge
join_nodes exceeds idep i id_i j id_j e =
    let co = idep.co (new_token_pair_id id_i id_j) in
    let first = if exceeds co (get_or idep.occ id_i 0) then add_edge i j e else e in
    let second = if exceeds co (get_or idep.occ id_j 0) then add_edge j i first else first in
    if co == 0 then e else second

-- The loop over `j`, and the one over `i`.
unfoldable pub edges_from : (ℕ → ℕ → Bool) → TokenRecord → ℕ → ℕ → ℕ → List ℕ → Edges → Edges
edges_from exceeds idep i id_i j [] e = e
edges_from exceeds idep i id_i j (id_j ∷ ids) e =
    edges_from exceeds idep i id_i (j + 1) ids (join_nodes exceeds idep i id_i j id_j e)

unfoldable pub build_edges : (ℕ → ℕ → Bool) → TokenRecord → ℕ → List ℕ → Edges → Edges
build_edges exceeds idep i [] e = e
build_edges exceeds idep i (id ∷ ids) e =
    build_edges exceeds idep (i + 1) ids (edges_from exceeds idep i id (i + 1) ids e)

pub record Frame : Type 0 where
  pub v : ℕ
  pub i : ℕ

-- The variables of the first pass; the top of `frames` comes first.
pub record Walk : Type 0 where
  pub visited : List Bool
  pub frames : List Frame
  pub order : List ℕ

abbrev pub enter : Walk → Frame → List Frame → ℕ → Walk
enter w f frames to =
    if get_or w.visited to false
    then record w { frames = record f { i = f.i + 1 } ∷ frames }
    else record w {
      visited = set w.visited to true;
      frames = record { v = to; i = 0 } ∷ record f { i = f.i + 1 } ∷ frames;
    }

abbrev pub step_top : List (List ℕ) → Walk → Frame → List Frame → Walk
step_top adj w f frames = elim (get_elem? (get_or adj f.v []) f.i) [
  | some to ↦ enter w f frames to
  | none ↦ record w { frames = frames; order = w.order ++ f.v ∷ [] }
]

-- One round of `for len(frames) > 0`.
abbrev pub walk_round : List (List ℕ) → Walk → List Frame → Walk
walk_round adj w [] = w
walk_round adj w (f ∷ frames) = step_top adj w f frames

unfoldable pub walk_loop : ℕ → List (List ℕ) → Walk → Walk
walk_loop zero adj w = w
walk_loop (suc fuel) adj w = walk_loop fuel adj (walk_round adj w w.frames)

-- The edges and the nodes: no walk takes more rounds.
abbrev pub total : List (List ℕ) → ℕ
total [] = 0
total (tos ∷ lists) = length tos + 1 + total lists

-- The loop over `v0`, for `n` nodes from it on.
unfoldable pub first_pass : List (List ℕ) → ℕ → ℕ → Walk → Walk
unfolding walk_loop
first_pass adj zero v0 w = w
first_pass adj (suc n) v0 w = first_pass adj n (v0 + 1) (
    if get_or w.visited v0 false
    then w
    else walk_loop (total adj) adj (record w {
      visited = set w.visited v0 true;
      frames = record { v = v0; i = 0 } ∷ w.frames;
    }))

-- The variables of the second pass; the top of `stack` comes first.
pub record Gather : Type 0 where
  pub visited : List Bool
  pub stack : List ℕ
  pub comp : List ℕ

-- The loop over `rev[x]`.
abbrev pub push_all : List ℕ → Gather → Gather
push_all [] g = g
push_all (to ∷ tos) g = push_all tos (
    if get_or g.visited to false
    then g
    else record g { visited = set g.visited to true; stack = to ∷ g.stack })

-- One round of `for len(stack) > 0`.
abbrev pub gather_round : List (List ℕ) → Gather → List ℕ → Gather
gather_round rev g [] = g
gather_round rev g (x ∷ stack) =
    push_all (get_or rev x []) (record g { stack = stack; comp = g.comp ++ x ∷ [] })

unfoldable pub gather_loop : ℕ → List (List ℕ) → Gather → Gather
gather_loop zero rev g = g
gather_loop (suc fuel) rev g = gather_loop fuel rev (gather_round rev g g.stack)

pub record Largest : Type 0 where
  pub visited : List Bool
  pub largest : List ℕ

-- The loop over `order` from its end: `nodes` is what is left, and a component has at most `n` nodes.
unfoldable pub second_pass : ℕ → List (List ℕ) → List ℕ → Largest → Largest
unfolding gather_loop
second_pass n rev [] l = l
second_pass n rev (v ∷ nodes) l =
    let g =
      gather_loop n rev (record { visited = set l.visited v true; stack = v ∷ []; comp = [] }) in
    second_pass n rev nodes (
      if get_or l.visited v false then l else record {
        visited = g.visited;
        largest = if ltb (length l.largest) (length g.comp) then g.comp else l.largest;
      })

abbrev pub reverse_onto : List ℕ → List ℕ → List ℕ
reverse_onto [] out = out
reverse_onto (x ∷ xs) out = reverse_onto xs (x ∷ out)

abbrev pub no_edges : ℕ → Edges
no_edges n = record { adj = replicate n []; rev = replicate n [] }

unfoldable pub walk_order : List (List ℕ) → ℕ → List ℕ
unfolding first_pass
walk_order adj n =
    (first_pass adj n 0 (record { visited = replicate n false; frames = []; order = [] })).order

unfoldable pub largest_component : Edges → ℕ → List ℕ
unfolding walk_order second_pass
largest_component e n =
    (second_pass n e.rev (reverse_onto (walk_order e.adj n) [])
      (record { visited = replicate n false; largest = [] })).largest

-- `nodes[idx]` for each index.
abbrev pub cons_found : Option Token → List Token → List Token
cons_found none tokens = tokens
cons_found (some tok) tokens = tok ∷ tokens

abbrev pub tokens_at : List Token → List ℕ → List Token
tokens_at nodes [] = []
tokens_at nodes (i ∷ indices) = cons_found (get_elem? nodes i) (tokens_at nodes indices)

-- The anchors before the special tokens.
unfoldable pub component_tokens : (ℕ → ℕ → Bool) → TokenRecord → List Token → List ℕ → List Token
unfolding build_edges largest_component
component_tokens exceeds idep [] ids = []
component_tokens exceeds idep (tok ∷ []) ids = tok ∷ []
component_tokens exceeds idep (tok ∷ next ∷ nodes) ids =
    let n = length (tok ∷ next ∷ nodes) in
    tokens_at (tok ∷ next ∷ nodes)
      (largest_component (build_edges exceeds idep 0 ids (no_edges n)) n)

-- No anchors, and no special tokens either, where no token of the row has occurrences.
abbrev pub finish : List Token → List Token → List Token → Anchors
finish [] found tokens = []
finish (tok ∷ nodes) found tokens = add_specials tokens (put_anchors found [])

unfoldable pub anchor_tokens :
    (ℕ → ℕ → Bool) → TokenRecord → List Token → List ℕ → AnchorScratch → Anchors × AnchorScratch
unfolding collect_nodes component_tokens
anchor_tokens exceeds idep tokens token_ids scratch =
    let c = collect_nodes idep.occ tokens token_ids (record {
      scratch = record scratch { epoch = add32 scratch.epoch 1 };
      nodes = [];
      ids = [];
    }) in
    (finish c.nodes (component_tokens exceeds idep c.nodes c.ids) tokens, c.scratch)
