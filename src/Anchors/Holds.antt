-- ===== src/Anchors/Holds.antt =====
-- The map of anchors (graph.go): which tokens it holds.
use tipping.Base.{
  ◌≡◌, refl, sym, ap, ap₂, ◌∙◌, Bool, true, false, ◌||◌, ◌&&◌, not, List, [], ◌∷◌, ◌==◌,
  if◌then◌else◌, arith, inl, inr, Bool-cases, bytes_eq, bytes_eq→eq,
}
use tipping.Token.{
  Token, TokenKind, alphabetic, numeric, symbolic, whitespace, impure, special_white, special_black,
}
use tipping.Anchors.{
  Anchors, kind_number, same_key, delete_anchor, put_anchor, put_anchors, add_special, add_specials,
}

-- A token with the same key is there.
abbrev pub holds : Token → List Token → Bool
holds t [] = false
holds t (a ∷ tokens) = same_key a t || holds t tokens

same_key-eq : (a b c : Token) → same_key a b ≡ true → same_key a c ≡ same_key b c
same_key-eq a b c h =
    let kinds : kind_number a.kind ≡ kind_number b.kind = ground arith in
    let slices : a.slice ≡ b.slice = bytes_eq→eq a.slice b.slice (ground arith) in
    ap₂ (λ k s. k == kind_number c.kind && bytes_eq s c.slice) kinds slices

same_key-right : (a b c : Token) → same_key a b ≡ true → same_key c a ≡ same_key c b
same_key-right a b c h =
    let kinds : kind_number a.kind ≡ kind_number b.kind = ground arith in
    let slices : a.slice ≡ b.slice = bytes_eq→eq a.slice b.slice (ground arith) in
    ap₂ (λ k s. kind_number c.kind == k && bytes_eq c.slice s) kinds slices

removed : (at h : Bool) → h && not at ≡ (at || h) && not at
removed true true = refl
removed true false = refl
removed false h = refl

kept : (xt h at : Bool) → (at ≡ true → xt ≡ false) → xt || h && not at ≡ (xt || h) && not at
kept true h true e = absurd (ground (arith, e))
kept true h false e = refl
kept false h at e = refl

holds-delete_anchor :
    (t a : Token) (anchors : Anchors)
    → holds t (delete_anchor a anchors) ≡ holds t anchors && not (same_key a t)
unfolding delete_anchor
holds-delete_anchor t a [] = refl
holds-delete_anchor t a (x ∷ anchors) =
    let ih = holds-delete_anchor t a anchors in
    elim (Bool-cases (same_key x a)) [
      | inl e ↦
          ap (λ b. holds t (if b then delete_anchor a anchors else x ∷ delete_anchor a anchors)) e
          ∙ ih
          ∙ removed (same_key a t) (holds t anchors)
          ∙ ap (λ b. (b || holds t anchors) && not (same_key a t)) (sym (same_key-eq x a t e))
      | inr e ↦
          ap (λ b. holds t (if b then delete_anchor a anchors else x ∷ delete_anchor a anchors)) e
          ∙ ap (λ b. same_key x t || b) ih
          ∙ kept (same_key x t) (holds t anchors) (same_key a t)
              (λ q. sym (same_key-right a t x q) ∙ e)
    ]

holds-put_anchor :
    (t a : Token) (anchors : Anchors)
    → holds t (put_anchor a anchors) ≡ same_key a t || holds t anchors
unfolding put_anchor
holds-put_anchor t a anchors = ground (arith, holds-delete_anchor t a anchors)

pub holds-put_anchors :
    (t : Token) (tokens : List Token) (anchors : Anchors)
    → holds t (put_anchors tokens anchors) ≡ holds t tokens || holds t anchors
unfolding put_anchors
holds-put_anchors t [] anchors = refl
holds-put_anchors t (a ∷ tokens) anchors =
    ground (arith, holds-put_anchors t tokens (put_anchor a anchors), holds-put_anchor t a anchors)

-- From whether it was found and whether the row holds it: special white tokens are added, special
-- black ones are removed.
abbrev pub with_special : TokenKind → Bool → Bool → Bool
with_special kind found in_row =
    if kind_number kind == 5
    then found || in_row
    else if kind_number kind == 6
    then found && not in_row
    else found

add_special-step :
    (t a : Token) (k : TokenKind) (anchors : Anchors) (rest : Bool)
    → a.kind ≡ k
    → with_special t.kind (holds t (add_special a k anchors)) rest
      ≡ with_special t.kind (holds t anchors) (same_key a t || rest)
add_special-step t a alphabetic anchors rest e =
    let n : kind_number a.kind ≡ 0 = ap kind_number e in ground arith
add_special-step t a numeric anchors rest e =
    let n : kind_number a.kind ≡ 1 = ap kind_number e in ground arith
add_special-step t a symbolic anchors rest e =
    let n : kind_number a.kind ≡ 2 = ap kind_number e in ground arith
add_special-step t a whitespace anchors rest e =
    let n : kind_number a.kind ≡ 3 = ap kind_number e in ground arith
add_special-step t a impure anchors rest e =
    let n : kind_number a.kind ≡ 4 = ap kind_number e in ground arith
add_special-step t a special_white anchors rest e =
    let n : kind_number a.kind ≡ 5 = ap kind_number e in
    ground (arith, holds-put_anchor t a anchors)
add_special-step t a special_black anchors rest e =
    let n : kind_number a.kind ≡ 6 = ap kind_number e in
    ground (arith, holds-delete_anchor t a anchors)

pub holds-add_specials :
    (t : Token) (tokens : List Token) (anchors : Anchors)
    → holds t (add_specials tokens anchors) ≡ with_special t.kind (holds t anchors) (holds t tokens)
unfolding add_specials
holds-add_specials t [] anchors = ground arith
holds-add_specials t (a ∷ tokens) anchors =
    holds-add_specials t tokens (add_special a a.kind anchors)
    ∙ add_special-step t a a.kind anchors (holds t tokens) refl
