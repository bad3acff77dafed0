-- ===== src/Filter.antt =====
-- token_filter.go, and `commonCandidate` of template.go: which kinds of token take part.
use tipping.Base.{Bool, true, false}
use tipping.Token.{
  TokenKind, alphabetic, numeric, symbolic, whitespace, impure, special_white, special_black,
}

pub record StaticFilter : Type 0 where
  pub alphabetic_in : Bool
  pub numeric_in : Bool
  pub impure_in : Bool

-- `keep`, on the token's kind.
unfoldable pub keep : StaticFilter → TokenKind → Bool
keep f alphabetic = f.alphabetic_in
keep f numeric = f.numeric_in
keep f impure = f.impure_in
keep f special_white = true
keep f symbolic = false
keep f whitespace = false
keep f special_black = false

-- `commonCandidate`, on the token's kind.
unfoldable pub common_candidate : TokenKind → StaticFilter → Bool
common_candidate special_white f = true
common_candidate whitespace f = true
common_candidate symbolic f = true
common_candidate alphabetic f = f.alphabetic_in
common_candidate numeric f = f.numeric_in
common_candidate impure f = f.impure_in
common_candidate special_black f = false
