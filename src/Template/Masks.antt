-- ===== src/Template/Masks.antt =====
-- The mask of a row: a digit for each byte of its text.
use tipping.Base.{
  ℕ, ◌≡◌, refl, Bool, true, false, not, List, [], ◌∷◌, ◌++◌, length, length-append,
  length-replicate, Bytes, arith, if◌then◌else◌, append_assoc, append-nil, inl, inr, Bool-cases,
  ◌∙◌,
}
use tipping.Token.{Token}
use tipping.Split.Lossless.{text_of}
use tipping.Template.{placeholder, template_loop, mask_loop, row_mask, CommonSet, contains}

pub length-mask_loop :
    (shared : ℕ → Bool) (toks : List Token) (ids : List ℕ)
    → length ids ≡ length toks
    → length (mask_loop shared toks ids) ≡ length (text_of toks)
unfolding mask_loop
length-mask_loop shared [] [] e = refl
length-mask_loop shared [] (i ∷ ids) e = refl
length-mask_loop shared (tok ∷ toks) [] e = absurd (omega arith)
length-mask_loop shared (tok ∷ toks) (i ∷ ids) e =
    omega (
      arith,
      length-append {0},
      length-replicate {0},
      length-mask_loop shared toks ids (omega arith),
    )

-- The mask of a row is as long as the row's text, when each token has an id.
pub length-row_mask :
    (common : CommonSet) (toks : List Token) (ids : List ℕ)
    → length ids ≡ length toks
    → length (row_mask common toks ids) ≡ length (text_of toks)
unfolding row_mask
length-row_mask common = length-mask_loop (contains common)

-- The template of a row, with no buffer.
abbrev pub template_rest : (ℕ → Bool) → List Token → List ℕ → Bool → Bytes
template_rest shared (tok ∷ toks) (id ∷ ids) last =
    (if shared id then tok.slice else if last then [] else placeholder)
    ++ template_rest shared toks ids (not (shared id))
template_rest shared toks ids last = []

pub template_loop-rest :
    (shared : ℕ → Bool) (toks : List Token) (ids : List ℕ) (buf : Bytes) (last : Bool)
    → template_loop shared toks ids buf last ≡ buf ++ template_rest shared toks ids last
unfolding template_loop
template_loop-rest shared [] ids buf last = rw append-nil
template_loop-rest shared (tok ∷ toks) [] buf last = rw append-nil
template_loop-rest shared (tok ∷ toks) (id ∷ ids) buf true = elim (Bool-cases (shared id)) [
  | inl e ↦ rw e (template_loop-rest shared toks ids (buf ++ tok.slice) false ∙ simp append_assoc)
  | inr e ↦ rw e (template_loop-rest shared toks ids buf true)
]
template_loop-rest shared (tok ∷ toks) (id ∷ ids) buf false = elim (Bool-cases (shared id)) [
  | inl e ↦ rw e (template_loop-rest shared toks ids (buf ++ tok.slice) false ∙ simp append_assoc)
  | inr e ↦ rw e (template_loop-rest shared toks ids (buf ++ placeholder) true ∙ simp append_assoc)
]
