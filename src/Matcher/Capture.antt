-- ===== src/Matcher/Capture.antt =====
-- `matches` and `match` (matcher.go): the loop without and with the arguments.
use tipping.Base.{
  ℕ, zero, suc, ◌+◌, ◌≡◌, refl, Bool, true, false, List, [], ◌∷◌, Option, none, some, length, take,
  drop, Bytes, arith,
}
use tipping.Strings.{index}
use tipping.Matcher.{
  CompiledTemplate, push, match_loop, match_parts, match_internal, match_template, matches,
}

abbrev pub is_some : Option (List Bytes) → Bool
is_some none = false
is_some (some args) = true

module _ (c d : Bool) (msg : Bytes) (cursor : ℕ) (b : ℕ) (next q : Bytes)
    (parts args args' : List Bytes) where
  at_index :
      (o : Option ℕ)
      → index (drop cursor msg) (b ∷ next) ≡ o
      → ((i : ℕ)
          → is_some (
              match_loop c msg
                (cursor + (suc i + length (b ∷ next)))
                (q ∷ parts)
                (push c args (take (suc i) (drop cursor msg))))
            ≡ is_some (
                match_loop d msg
                  (cursor + (suc i + length (b ∷ next)))
                  (q ∷ parts)
                  (push d args' (take (suc i) (drop cursor msg)))))
      → is_some (match_loop c msg cursor ((b ∷ next) ∷ q ∷ parts) args)
        ≡ is_some (match_loop d msg cursor ((b ∷ next) ∷ q ∷ parts) args')
  unfolding match_loop
  at_index none e h = rw (e, match_loop) refl
  at_index (some zero) e h = rw (e, match_loop) refl
  at_index (some (suc i)) e h = rw (e, match_loop) (h i)

match_loop-same_end :
    (c d : Bool) (msg : Bytes) (cursor : ℕ) (parts args args' : List Bytes)
    → is_some (match_loop c msg cursor parts args) ≡ is_some (match_loop d msg cursor parts args')
unfolding match_loop
match_loop-same_end c d msg cursor [] args args' = ground arith
match_loop-same_end c d msg cursor ([] ∷ []) args args' = ground arith
match_loop-same_end c d msg cursor ((b ∷ next) ∷ []) args args' = ground arith
match_loop-same_end c d msg cursor ([] ∷ q ∷ parts) args args' = refl
match_loop-same_end c d msg cursor ((b ∷ next) ∷ q ∷ parts) args args' =
    at_index c d msg cursor b next q parts args args' (index (drop cursor msg) (b ∷ next)) refl
      (λ i.
        match_loop-same_end c d msg (cursor + (suc i + length (b ∷ next))) (q ∷ parts)
          (push c args (take (suc i) (drop cursor msg)))
          (push d args' (take (suc i) (drop cursor msg))))

match_parts-same_end :
    (msg : Bytes) (parts : List Bytes)
    → is_some (match_parts false msg parts) ≡ is_some (match_parts true msg parts)
unfolding match_parts
match_parts-same_end msg [] = refl
match_parts-same_end msg (p ∷ parts) =
    ground (arith, match_loop-same_end false true msg (length p) parts [] [])

-- matches says yes exactly when match captures arguments.
pub matches-match_template :
    (t : CompiledTemplate) (msg : Bytes) → matches t msg ≡ is_some (match_template t msg)
unfolding matches match_template match_internal
matches-match_template t msg = ground (arith, match_parts-same_end msg t.parts)
