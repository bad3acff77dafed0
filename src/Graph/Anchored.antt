-- ===== src/Graph/Anchored.antt =====
-- Which tokens `anchorTokens` (graph.go) returns.
use tipping.Base.{
  subst, ℕ, zero, suc, ◌≡◌, ◌≢◌, refl, sym, ap, ◌∙◌, Bool, true, false, ◌||◌, ◌&&◌, not, List, [],
  ◌∷◌, ◌++◌, some, get_elem?, get_or, ◌==◌, if◌then◌else◌, arith, inl, inr, Bool-cases,
  Option-cases,
}
use tipping.Token.{Token, special_black}
use tipping.TokenRecord.{TokenRecord}
use tipping.Template.{add32}
use tipping.Anchors.{kind_number, same_key, put_anchors}
use tipping.Graph.{
  AnchorScratch, Nodes, add_node, collect_nodes, cons_found, tokens_at, component_tokens, finish,
  anchor_tokens,
}
use tipping.Anchors.Holds.{holds, with_special, holds-put_anchors, holds-add_specials}

-- The nodes are tokens of the row.
holds-snoc :
    (t a : Token) (tokens : List Token)
    → holds t (tokens ++ a ∷ []) ≡ holds t tokens || same_key a t
holds-snoc t a [] = ground arith
holds-snoc t a (x ∷ tokens) = ground (arith, holds-snoc t a tokens)

holds-add_node :
    (t tok : Token) (id : ℕ) (st : Nodes)
    → holds t (add_node tok id st).nodes ≡ true
    → holds t st.nodes || same_key tok t ≡ true
unfolding add_node
holds-add_node t tok id st h = ground (arith, holds-snoc t tok st.nodes)

holds-collect_nodes :
    (t : Token) (occ : List ℕ) (tokens : List Token) (ids : List ℕ) (st : Nodes)
    → holds t (collect_nodes occ tokens ids st).nodes ≡ true
    → holds t st.nodes || holds t tokens ≡ true
unfolding collect_nodes
holds-collect_nodes t occ [] ids st h = ground arith
holds-collect_nodes t occ (tok ∷ tokens) [] st h = ground arith
holds-collect_nodes t occ (tok ∷ tokens) (id ∷ ids) st h =
    elim (Bool-cases (get_or occ id 0 == 0)) [
      | inl e ↦
          let k : holds t (collect_nodes occ tokens ids st).nodes ≡ true =
            ap
              (λ b.
                holds t (collect_nodes occ tokens ids (if b then st else add_node tok id st)).nodes)
              (sym e)
            ∙ h in
          ground (arith, holds-collect_nodes t occ tokens ids st k)
      | inr e ↦
          let k : holds t (collect_nodes occ tokens ids (add_node tok id st)).nodes ≡ true =
            ap
              (λ b.
                holds t (collect_nodes occ tokens ids (if b then st else add_node tok id st)).nodes)
              (sym e)
            ∙ h in
          ground (
            arith,
            holds-collect_nodes t occ tokens ids (add_node tok id st) k,
            holds-add_node t tok id st,
          )
    ]

holds-get_elem? :
    (t tok : Token) (nodes : List Token) (i : ℕ)
    → get_elem? nodes i ≡ some tok
    → same_key tok t ≡ true
    → holds t nodes ≡ true
holds-get_elem? t tok [] i e h = absurd (cc)
holds-get_elem? t tok (x ∷ nodes) zero e h =
    let same : tok ≡ x = cc in
    let k : same_key x t ≡ true = subst (λ a. same_key a t ≡ true) same h in ground arith
holds-get_elem? t tok (x ∷ nodes) (suc i) e h = ground (arith, holds-get_elem? t tok nodes i e h)

holds-tokens_at :
    (t : Token) (nodes : List Token) (indices : List ℕ)
    → holds t (tokens_at nodes indices) ≡ true
    → holds t nodes ≡ true
holds-tokens_at t nodes [] h = absurd (cc)
holds-tokens_at t nodes (i ∷ indices) h = elim (Option-cases (get_elem? nodes i)) [
  | inl e ↦
      holds-tokens_at t nodes indices
        (ap (λ o. holds t (cons_found o (tokens_at nodes indices))) (sym e) ∙ h)
  | inr (tok, e) ↦
      let k : same_key tok t || holds t (tokens_at nodes indices) ≡ true =
        ap (λ o. holds t (cons_found o (tokens_at nodes indices))) (sym e) ∙ h in
      elim (Bool-cases (same_key tok t)) [
        | inl same ↦ holds-get_elem? t tok nodes i e same
        | inr other ↦
            holds-tokens_at t nodes indices
              (ap (λ b. b || holds t (tokens_at nodes indices)) (sym other) ∙ k)
      ]
]

holds-component_tokens :
    (exceeds : ℕ → ℕ → Bool) (idep : TokenRecord) (t : Token) (nodes : List Token) (ids : List ℕ)
    → holds t (component_tokens exceeds idep nodes ids) ≡ true
    → holds t nodes ≡ true
unfolding component_tokens
holds-component_tokens exceeds idep t [] ids h = h
holds-component_tokens exceeds idep t (tok ∷ []) ids h = h
holds-component_tokens exceeds idep t (tok ∷ next ∷ nodes) ids h =
    holds-tokens_at t (tok ∷ next ∷ nodes) _ h

-- The nodes of a row, with the scratch space of the row before.
abbrev pub row_nodes : TokenRecord → List Token → List ℕ → AnchorScratch → Nodes
row_nodes idep tokens token_ids scratch =
    collect_nodes idep.occ tokens token_ids
      (record { scratch = record scratch { epoch = add32 scratch.epoch 1 }; nodes = []; ids = [] })

abbrev pub is_nil : List Token → Bool
is_nil [] = true
is_nil (tok ∷ tokens) = false

-- A token is an anchor just when the row has a node and, for a special white token, it is in the
-- component or in the row, for a special black one, in the component but not in the row, and for
-- any other, in the component.
pub holds-anchor_tokens :
    (exceeds : ℕ → ℕ → Bool) (idep : TokenRecord) (tokens : List Token) (token_ids : List ℕ)
    (scratch : AnchorScratch) (t : Token)
    → let c = row_nodes idep tokens token_ids scratch in
      holds t (anchor_tokens exceeds idep tokens token_ids scratch).0
      ≡ not (is_nil c.nodes)
        && with_special t.kind
            (holds t (component_tokens exceeds idep c.nodes c.ids))
            (holds t tokens)
unfolding anchor_tokens
holds-anchor_tokens exceeds idep tokens token_ids scratch t =
    let c = row_nodes idep tokens token_ids scratch in
    holds-finish c.nodes (component_tokens exceeds idep c.nodes c.ids)
  where
    holds-finish :
        (nodes found : List Token)
        → holds t (finish nodes found tokens)
          ≡ not (is_nil nodes) && with_special t.kind (holds t found) (holds t tokens)
    holds-finish [] found = refl
    holds-finish (tok ∷ nodes) found =
        holds-add_specials t tokens (put_anchors found [])
        ∙ ground (arith, holds-put_anchors t found [])

-- Each anchor has the key of a token of the row and is not special black.
pub anchor_tokens-holds :
    (exceeds : ℕ → ℕ → Bool) (idep : TokenRecord) (tokens : List Token) (token_ids : List ℕ)
    (scratch : AnchorScratch) (t : Token)
    → holds t (anchor_tokens exceeds idep tokens token_ids scratch).0 ≡ true
    → (holds t tokens ≡ true) × (t.kind ≢ special_black)
anchor_tokens-holds exceeds idep tokens token_ids scratch t h =
    let c = row_nodes idep tokens token_ids scratch in
    let found = component_tokens exceeds idep c.nodes c.ids in
    let all_of : not (is_nil c.nodes) && with_special t.kind (holds t found) (holds t tokens)
        ≡ true =
      sym (holds-anchor_tokens exceeds idep tokens token_ids scratch t) ∙ h in
    let from_row : holds t found ≡ true → holds t tokens ≡ true = λ e.
      holds-collect_nodes t idep.occ tokens token_ids _
        (holds-component_tokens exceeds idep t c.nodes c.ids e) in
    (
      in_row (holds t found) (holds t tokens) from_row all_of,
      λ black. not_black (holds t found) (holds t tokens) from_row all_of (ap kind_number black),
    )
  where
    in_row :
        (found there : Bool)
        → (found ≡ true → there ≡ true)
        → not (is_nil (row_nodes idep tokens token_ids scratch).nodes)
            && with_special t.kind found there
          ≡ true
        → there ≡ true
    in_row found there f e = ground (arith, f)

    not_black :
        (found there : Bool)
        → (found ≡ true → there ≡ true)
        → not (is_nil (row_nodes idep tokens token_ids scratch).nodes)
            && with_special t.kind found there
          ≡ true
        → kind_number t.kind ≡ 6
        → ⊥
    not_black found there f e k = ground (arith, f)
