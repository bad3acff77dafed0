-- ===== src/Anchors/Key.antt =====
-- Reading the tokens back from the key of `canonicalAnchorKey` (parser.go).
use tipping.Base.{
  ℕ, ◌≡◌, ◌≢◌, refl, sym, ap, ap₂, ◌∙◌, List, [], ◌∷◌, ◌++◌, Bytes, All, inl, inr, Bool-cases, ◌==◌,
  if◌then◌else◌,
}
use tipping.Token.{
  Token, TokenKind, alphabetic, numeric, symbolic, whitespace, impure, special_white, special_black,
}
use tipping.Anchors.{
  Anchors, kind_number, key_before, insert_token, sort_tokens, key_bytes, canonical_anchor_key,
}

-- No byte is zero.
abbrev pub HasNoZero : Bytes → Type 0
HasNoZero = All (λ b. b ≢ 0)

tail_eq : (x y : ℕ) (s t : Bytes) → x ∷ s ≡ y ∷ t → s ≡ t
tail_eq x y s t e = cc

head_eq : (x y : ℕ) (s t : Bytes) → x ∷ s ≡ y ∷ t → x ≡ y
head_eq x y s t e = cc

cut_at_zero :
    (a b s t : Bytes) → HasNoZero a → HasNoZero b → a ++ 0 ∷ s ≡ b ++ 0 ∷ t → (a ≡ b) × (s ≡ t)
cut_at_zero [] [] s t ha hb e = (refl, tail_eq 0 0 s t e)
cut_at_zero [] (y ∷ b) s t ha (hy, hb) e = absurd (hy (sym (head_eq 0 y s (b ++ 0 ∷ t) e)))
cut_at_zero (x ∷ a) [] s t (hx, ha) hb e = absurd (hx (head_eq x 0 (a ++ 0 ∷ s) t e))
cut_at_zero (x ∷ a) (y ∷ b) s t (hx, ha) (hy, hb) e =
    let (same, rest) = cut_at_zero a b s t ha hb (tail_eq x y (a ++ 0 ∷ s) (b ++ 0 ∷ t) e) in
    (ap₂ (λ c l. c ∷ l) (head_eq x y (a ++ 0 ∷ s) (b ++ 0 ∷ t) e) same, rest)

kind_of : ℕ → TokenKind
kind_of n =
    if n == 0
    then alphabetic
    else if n == 1
    then numeric
    else if n == 2
    then symbolic
    else if n == 3
    then whitespace
    else if n == 4
    then impure
    else if n == 5
    then special_white
    else special_black

kind_of-kind_number : (k : TokenKind) → kind_of (kind_number k) ≡ k
unfolding kind_of
kind_of-kind_number alphabetic = refl
kind_of-kind_number numeric = refl
kind_of-kind_number symbolic = refl
kind_of-kind_number whitespace = refl
kind_of-kind_number impure = refl
kind_of-kind_number special_white = refl
kind_of-kind_number special_black = refl

abbrev pub NoZeros : List Token → Type 0
NoZeros = All (λ tok. HasNoZero tok.slice)

token_eq : (a b : Token) → a.kind ≡ b.kind → a.slice ≡ b.slice → a ≡ b
token_eq a b e f = ap₂ (λ k s. record { kind = k; slice = s }) e f

key_bytes-injective :
    (xs ys : List Token) → NoZeros xs → NoZeros ys → key_bytes xs ≡ key_bytes ys → xs ≡ ys
unfolding key_bytes
key_bytes-injective [] [] hx hy e = refl
key_bytes-injective [] (y ∷ ys) hx hy e = absurd (cc)
key_bytes-injective (x ∷ xs) [] hx hy e = absurd (cc)
key_bytes-injective (x ∷ xs) (y ∷ ys) (hx, hxs) (hy, hys) e =
    let s = x.slice ++ 0 ∷ key_bytes xs in
    let t = y.slice ++ 0 ∷ key_bytes ys in
    let kinds = head_eq (kind_number x.kind) (kind_number y.kind) (0x1F ∷ s) (0x1F ∷ t) e in
    let bodies =
      tail_eq 0x1F 0x1F s t
        (tail_eq (kind_number x.kind) (kind_number y.kind) (0x1F ∷ s) (0x1F ∷ t) e) in
    let (slices, rest) = cut_at_zero x.slice y.slice (key_bytes xs) (key_bytes ys) hx hy bodies in
    let same_kind : x.kind ≡ y.kind =
      sym (kind_of-kind_number x.kind) ∙ ap kind_of kinds ∙ kind_of-kind_number y.kind in
    ap₂ (λ a l. a ∷ l) (token_eq x y same_kind slices) (key_bytes-injective xs ys hxs hys rest)

NoZeros-insert_token :
    (a : Token) (tokens : List Token)
    → HasNoZero a.slice
    → NoZeros tokens
    → NoZeros (insert_token a tokens)
NoZeros-insert_token a [] h hs = (h, tt)
NoZeros-insert_token a (x ∷ tokens) h (hx, hs) = elim (Bool-cases (key_before a x)) [
  | inl e ↦ rw e (h, (hx, hs))
  | inr e ↦ rw e (hx, NoZeros-insert_token a tokens h hs)
]

NoZeros-sort_tokens : (tokens : List Token) → NoZeros tokens → NoZeros (sort_tokens tokens)
NoZeros-sort_tokens [] h = tt
NoZeros-sort_tokens (a ∷ tokens) (h, hs) =
    NoZeros-insert_token a (sort_tokens tokens) h (NoZeros-sort_tokens tokens hs)

-- Anchors without zero bytes in their slices that have one key have one sorted list of tokens.
pub canonical_anchor_key-injective :
    (a b : Anchors)
    → NoZeros a
    → NoZeros b
    → (canonical_anchor_key a).0 ≡ (canonical_anchor_key b).0
    → (canonical_anchor_key a).1 ≡ (canonical_anchor_key b).1
unfolding canonical_anchor_key
canonical_anchor_key-injective a b ha hb e =
    key_bytes-injective (sort_tokens a) (sort_tokens b) (NoZeros-sort_tokens a ha)
      (NoZeros-sort_tokens b hb) e
