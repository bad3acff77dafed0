-- ===== src/Matcher/Batch.antt =====
-- `MatchAllIDs` (matcher.go) and its cache.
use tipping.Base.{
  ℕ, ◌≡◌, refl, ap, ◌∙◌, sym, List, [], ◌∷◌, Option, some, map, Bytes, bytes_eq, bytes_eq→eq, arith,
  Option-cases, Bool-cases, inl, inr,
}
use tipping.Dict.{Dict, lookup}
use tipping.Matcher.{match_all_loop, match_all_ids}

module _ (match_id : Bytes → Option ℕ) where
  -- What is cached for a message is what `MatchID` says of it.
  IsCache : Dict (Option ℕ) → Type 0
  IsCache cache = (k : Bytes) (id : Option ℕ) → lookup k cache ≡ some id → id ≡ match_id k

  nil-IsCache : IsCache []
  unfolding IsCache lookup
  nil-IsCache k id h = absurd (cc)

  cons-IsCache :
      (msg : Bytes) (cache : Dict (Option ℕ))
      → IsCache cache
      → IsCache ((msg, match_id msg) ∷ cache)
  unfolding IsCache lookup
  cons-IsCache msg cache h k id e = elim (Bool-cases (bytes_eq msg k)) [
    | inl same ↦
        let text : msg ≡ k = bytes_eq→eq msg k same in
        let value : match_id msg ≡ id = ground arith in sym value ∙ ap match_id text
    | inr other ↦ h k id (ground arith)
  ]

  match_all_loop-map :
      (cache : Dict (Option ℕ)) (messages : List Bytes)
      → IsCache cache
      → match_all_loop match_id cache messages ≡ map match_id messages
  unfolding match_all_loop IsCache
  match_all_loop-map cache [] h = refl
  match_all_loop-map cache (msg ∷ messages) h = elim (Option-cases (lookup msg cache)) [
    | inl e ↦
        rw (e, match_all_loop)
          (ap (λ r. match_id msg ∷ r)
            (match_all_loop-map ((msg, match_id msg) ∷ cache) messages (cons-IsCache msg cache h)))
    | inr (id, e) ↦
        rw (e, match_all_loop)
          (ap (λ i. i ∷ match_all_loop match_id cache messages) (h msg id e)
            ∙ ap (λ r. match_id msg ∷ r) (match_all_loop-map cache messages h))
  ]

-- MatchAllIDs gives each row what MatchID gives its message; its cache is never seen in the
-- result.
pub match_all_ids-map :
    (match_id : Bytes → Option ℕ) (messages : List Bytes)
    → match_all_ids match_id messages ≡ map match_id messages
unfolding match_all_ids
match_all_ids-map match_id messages = match_all_loop-map match_id [] messages (nil-IsCache match_id)
