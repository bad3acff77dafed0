-- ===== src/Codec/Derived.antt =====
-- The mask of a row (`parameterMasks`, template.go), as `templateAndArgsFromMask` (corpus_codec.go)
-- reads it.
use tipping.Base.{
  ℕ, zero, suc, ◌≤◌, ◌≡◌, ◌≢◌, refl, sym, ap, ◌∙◌, Bool, true, false, not, List, [], ◌∷◌, ◌++◌,
  length, length-drop, replicate, drop, drop-nil, Bytes, arith, if◌then◌else◌, inl, inr, All,
  All-append, ◌==◌,
}
use tipping.Token.{Token}
use tipping.Split.Lossless.{text_of}
use tipping.Template.{
  placeholder, template_loop, mask_digit, mask_loop, row_mask, row_template, CommonSet, contains,
}
use tipping.Template.Masks.{length-mask_loop, template_rest, template_loop-rest}
use tipping.Codec.{ok, ones, template_and_args_from_mask}
use tipping.Codec.Layout.{
  IsMask, IsMask-drop, IsDigit, layout, layout_of, layout_template, layout_template-lead, arguments,
  template_and_args_from_mask-layout,
}
use tipping.Codec.Placeholder.{with_placeholders}

-- The template that a mask describes, byte by byte; `last` is true inside a run of '1'.
abbrev mask_template : Bytes → Bytes → Bool → Bytes
mask_template (b ∷ msg) (m ∷ mask) last =
    (if m == b'0' then b ∷ [] else if last then [] else placeholder)
    ++ mask_template msg mask (not (m == b'0'))
mask_template msg mask last = []

mask_template_run :
    (msg mask : Bytes)
    → IsMask mask
    → mask_template msg mask true
      ≡ mask_template (drop (ones mask) msg) (drop (ones mask) mask) false
mask_template_run [] [] h = refl
mask_template_run [] (m ∷ mask) h = rw drop-nil
mask_template_run (b ∷ msg) [] h = refl
mask_template_run (b ∷ msg) (m ∷ mask) (inl e, h) = rw e
mask_template_run (b ∷ msg) (m ∷ mask) (inr e, h) = rw e (mask_template_run msg mask h)

layout_template-mask :
    (fuel : ℕ) (msg mask : Bytes)
    → length msg ≤ fuel
    → IsMask mask
    → layout_template (layout fuel msg mask) ≡ mask_template msg mask false
unfolding layout with_placeholders
layout_template-mask zero [] mask h k = refl
layout_template-mask zero (b ∷ msg) mask h k = absurd (omega arith)
layout_template-mask (suc fuel) [] mask h k = refl
layout_template-mask (suc fuel) (b ∷ msg) [] h k = refl
layout_template-mask (suc fuel) (b ∷ msg) (m ∷ mask) h (inl e, k) = rw e (
    layout_template-lead b (layout fuel msg mask)
    ∙ ap (λ r. b ∷ r) (layout_template-mask fuel msg mask (omega arith) k))
layout_template-mask (suc fuel) (b ∷ msg) (m ∷ mask) h (inr e, k) =
    let j = ones mask in
    rw e (
      ap (λ r. placeholder ++ r)
        (layout_template-mask fuel (drop j msg) (drop j mask) (omega (arith, length-drop j msg))
            (IsMask-drop j mask k)
          ∙ sym (mask_template_run msg mask k)))

mask_template_shared :
    (b : ℕ) (slice msg mask : Bytes) (last : Bool)
    → mask_template ((b ∷ slice) ++ msg) (replicate (length (b ∷ slice)) b'0' ++ mask) last
      ≡ (b ∷ slice) ++ mask_template msg mask false
mask_template_shared b [] msg mask last = refl
mask_template_shared b (c ∷ slice) msg mask last =
    ap (λ r. b ∷ r) (mask_template_shared c slice msg mask false)

mask_template_unshared :
    (b : ℕ) (slice msg mask : Bytes) (last : Bool)
    → mask_template ((b ∷ slice) ++ msg) (replicate (length (b ∷ slice)) b'1' ++ mask) last
      ≡ (if last then [] else placeholder) ++ mask_template msg mask true
mask_template_unshared b [] msg mask last = refl
mask_template_unshared b (c ∷ slice) msg mask last =
    ap (λ r. (if last then [] else placeholder) ++ r) (mask_template_unshared c slice msg mask true)

-- A token whose slice is not empty.
abbrev pub HasText : Token → Type 0
HasText tok = tok.slice ≢ []

mask_template-row :
    (shared : ℕ → Bool) (toks : List Token) (ids : List ℕ) (last : Bool)
    → length ids ≡ length toks
    → All HasText toks
    → mask_template (text_of toks) (mask_loop shared toks ids) last
      ≡ template_rest shared toks ids last
unfolding mask_loop
mask_template-row shared [] ids last e h = refl
mask_template-row shared (tok ∷ toks) [] last e h = absurd (omega arith)
mask_template-row shared (tok ∷ toks) (id ∷ ids) last e (ht, h) =
    of_slice tok.slice (shared id) ht
      (mask_template-row shared toks ids (not (shared id)) (omega arith) h)
  where
    of_slice :
        (slice : Bytes) (s : Bool)
        → slice ≢ []
        → mask_template (text_of toks) (mask_loop shared toks ids) (not s)
          ≡ template_rest shared toks ids (not s)
        → mask_template
            (slice ++ text_of toks)
            (replicate (length slice) (mask_digit s) ++ mask_loop shared toks ids)
            last
          ≡ (if s then slice else if last then [] else placeholder)
            ++ template_rest shared toks ids (not s)
    of_slice [] s n ih = absurd (n refl)
    of_slice (b ∷ slice) true n ih =
        mask_template_shared b slice _ _ last ∙ ap (λ r. (b ∷ slice) ++ r) ih
    of_slice (b ∷ slice) false n ih =
        mask_template_unshared b slice _ _ last
        ∙ ap (λ r. (if last then [] else placeholder) ++ r) ih

mask_loop-IsMask :
    (shared : ℕ → Bool) (toks : List Token) (ids : List ℕ) → IsMask (mask_loop shared toks ids)
unfolding mask_loop
mask_loop-IsMask shared [] ids = tt
mask_loop-IsMask shared (tok ∷ toks) [] = tt
mask_loop-IsMask shared (tok ∷ toks) (id ∷ ids) =
    All-append IsDigit _ _ (digits (length tok.slice) (shared id))
      (mask_loop-IsMask shared toks ids)
  where
    digits : (n : ℕ) (s : Bool) → IsMask (replicate n (mask_digit s))
    digits zero s = tt
    digits (suc n) true = (inl refl, digits n true)
    digits (suc n) false = (inr refl, digits n false)

-- Reading a row's own mask, made by parameterMasks, back over the row's text gives the template
-- that templatesForCluster makes for the row, when its tokens have text and an id each.
pub template_and_args_from_mask-row_mask :
    (common : CommonSet) (toks : List Token) (ids : List ℕ)
    → length ids ≡ length toks
    → All HasText toks
    → (args : List Bytes) × (template_and_args_from_mask (text_of toks) (row_mask common toks ids)
        ≡ ok (row_template common toks ids, args))
unfolding row_mask row_template
template_and_args_from_mask-row_mask common toks ids e h =
    let shared = contains common in
    let msg = text_of toks in
    let mask = mask_loop shared toks ids in
    let same : layout_template (layout_of msg mask) ≡ template_loop shared toks ids [] false =
      layout_template-mask (length msg) msg mask (omega arith) (mask_loop-IsMask shared toks ids)
      ∙ mask_template-row shared toks ids false e h
      ∙ sym (template_loop-rest shared toks ids [] false) in
    (
      arguments (layout_of msg mask).pairs,
      template_and_args_from_mask-layout msg mask (sym (length-mask_loop shared toks ids e))
            (mask_loop-IsMask shared toks ids)
          ∙ ap (λ t. ok (t, arguments (layout_of msg mask).pairs)) same,
    )
