-- ===== src/Codec/Layout.antt =====
-- What `templateAndArgsFromMask` (corpus_codec.go) reads off a message and its mask: literal runs and
-- the arguments between them.
use tipping.Base.{
  ℕ, zero, suc, ◌≤◌, ◌≡◌, refl, ap, ◌∙◌, ◌⊎◌, List, [], ◌∷◌, ◌++◌, some, length, take, drop, Bytes,
  arith, All, inl, inr, append_assoc, append-nil, ◌==◌, if◌then◌else◌, take-append-drop, Bool-cases,
  length-drop,
}
use tipping.Strings.Lacks.{Lacks, Lacks-append_left, Lacks-append_right}
use tipping.Strings.{split}
use tipping.Template.{placeholder}
use tipping.Codec.{
  Result, ok, ones, mask_args_loop, template_and_args_from_mask, interleave, decode_template,
}
use tipping.Codec.Placeholder.{with_placeholders, split-with_placeholders}

-- A literal, and then arguments with a literal behind each.
pub record Layout : Type 0 where
  pub lead : Bytes
  pub pairs : List (Bytes × Bytes)

abbrev pub arguments : List (Bytes × Bytes) → List Bytes
arguments [] = []
arguments ((a, q) ∷ ps) = a ∷ arguments ps

abbrev pub literals : List (Bytes × Bytes) → List Bytes
literals [] = []
literals ((a, q) ∷ ps) = q ∷ literals ps

abbrev pub layout_template : Layout → Bytes
layout_template l = with_placeholders l.lead (literals l.pairs)

abbrev pub pairs_text : List (Bytes × Bytes) → Bytes
pairs_text [] = []
pairs_text ((a, q) ∷ ps) = a ++ (q ++ pairs_text ps)

abbrev pub layout_text : Layout → Bytes
layout_text l = l.lead ++ pairs_text l.pairs

abbrev pub with_lead : ℕ → Layout → Layout
with_lead b l = record { lead = b ∷ l.lead; pairs = l.pairs }

abbrev pub with_argument : Bytes → Layout → Layout
with_argument a l = record { lead = []; pairs = (a, l.lead) ∷ l.pairs }

-- The layout that a mask of '0' and '1' describes.
unfoldable pub layout : ℕ → Bytes → Bytes → Layout
layout (suc fuel) (b ∷ msg) (m ∷ mask) =
    let j = suc (ones mask) in
    let plain = with_lead b (layout fuel msg mask) in
    let run =
      with_argument (take j (b ∷ msg)) (layout fuel (drop j (b ∷ msg)) (drop j (m ∷ mask))) in
    if m == b'0' then plain else run
layout fuel msg mask = record { lead = []; pairs = [] }

-- A byte of a mask that is well formed.
abbrev pub IsDigit : ℕ → Type 0
IsDigit m = (m ≡ b'0') ⊎ (m ≡ b'1')

abbrev pub IsMask : Bytes → Type 0
IsMask = All IsDigit

pub IsMask-drop : (n : ℕ) (mask : Bytes) → IsMask mask → IsMask (drop n mask)
IsMask-drop zero mask h = h
IsMask-drop (suc n) [] h = tt
IsMask-drop (suc n) (m ∷ mask) (hm, h) = IsMask-drop n mask h

pub layout_template-argument :
    (a : Bytes) (l : Layout)
    → layout_template (with_argument a l) ≡ placeholder ++ layout_template l
unfolding with_placeholders
layout_template-argument a l = refl

with_placeholders-cons :
    (b : ℕ) (p : Bytes) (qs : List Bytes)
    → with_placeholders (b ∷ p) qs ≡ b ∷ with_placeholders p qs
unfolding with_placeholders
with_placeholders-cons b p [] = refl
with_placeholders-cons b p (q ∷ qs) = refl

pub layout_template-lead :
    (b : ℕ) (l : Layout) → layout_template (with_lead b l) ≡ b ∷ layout_template l
layout_template-lead b l = with_placeholders-cons b l.lead (literals l.pairs)

nothing :
    (out : Bytes) (args : List Bytes)
    → ◌≡◌ {A = Result (Bytes × List Bytes)}
        (ok (out, args))
        (ok (out ++ with_placeholders [] [], args ++ []))
unfolding with_placeholders
nothing out args = simp append-nil

mask_args_loop-layout :
    (fuel : ℕ) (msg mask out : Bytes) (args : List Bytes)
    → length msg ≤ fuel
    → IsMask mask
    → mask_args_loop fuel msg mask out args
      ≡ ok (
        out ++ layout_template (layout fuel msg mask),
        args ++ arguments (layout fuel msg mask).pairs,
      )
unfolding mask_args_loop layout
mask_args_loop-layout zero msg mask out args h k = nothing out args
mask_args_loop-layout (suc fuel) [] mask out args h k = nothing out args
mask_args_loop-layout (suc fuel) (b ∷ msg) [] out args h k = nothing out args
mask_args_loop-layout (suc fuel) (b ∷ msg) (m ∷ mask) out args h (inl e, k) = rw e (
    mask_args_loop-layout fuel msg mask (out ++ b ∷ []) args (omega arith) k
    ∙ simp (layout_template-lead, append_assoc))
mask_args_loop-layout (suc fuel) (b ∷ msg) (m ∷ mask) out args h (inr e, k) =
    let j = ones mask in
    rw e (
      mask_args_loop-layout fuel (drop j msg) (drop j mask) (out ++ placeholder)
        (args ++ (b ∷ take j msg) ∷ []) (omega (arith, length-drop j msg)) (IsMask-drop j mask k)
      ∙ simp (layout_template-argument, append_assoc))

pub layout_text-layout :
    (fuel : ℕ) (msg mask : Bytes)
    → length msg ≤ fuel
    → length msg ≡ length mask
    → layout_text (layout fuel msg mask) ≡ msg
unfolding layout
layout_text-layout zero [] mask h e = refl
layout_text-layout zero (b ∷ msg) mask h e = absurd (omega arith)
layout_text-layout (suc fuel) [] mask h e = refl
layout_text-layout (suc fuel) (b ∷ msg) [] h e = absurd (omega arith)
layout_text-layout (suc fuel) (b ∷ msg) (m ∷ mask) h e = elim (Bool-cases (m == b'0')) [
  | inl z ↦ rw z (ap (λ r. b ∷ r) (layout_text-layout fuel msg mask (omega arith) (omega arith)))
  | inr z ↦
      let j = ones mask in
      rw z (
        ap (λ r. b ∷ (take j msg ++ r))
          (layout_text-layout fuel (drop j msg) (drop j mask) (omega (arith, length-drop j msg))
            (omega (arith, length-drop j msg, length-drop j mask)))
        ∙ ap (λ r. b ∷ r) (take-append-drop j msg))
]

length-arguments : (ps : List (Bytes × Bytes)) → length (arguments ps) ≡ length (literals ps)
length-arguments [] = refl
length-arguments ((a, q) ∷ ps) = ap suc (length-arguments ps)

interleave-pairs :
    (p : Bytes) (ps : List (Bytes × Bytes))
    → interleave (p ∷ literals ps) (arguments ps) ≡ p ++ pairs_text ps
unfolding interleave
interleave-pairs p [] = refl
interleave-pairs p ((a, q) ∷ ps) = rw (interleave-pairs q ps)

literals-Lacks :
    (ps : List (Bytes × Bytes))
    → Lacks placeholder (pairs_text ps)
    → All (Lacks placeholder) (literals ps)
literals-Lacks [] h = tt
literals-Lacks ((a, q) ∷ ps) h =
    let r = Lacks-append_right placeholder a (q ++ pairs_text ps) h in
    (
      Lacks-append_left b'<' _ q (pairs_text ps) r,
      literals-Lacks ps (Lacks-append_right placeholder q (pairs_text ps) r),
    )

-- Decoding the template of a layout with its arguments gives its text, if no literal holds the
-- placeholder.
pub decode_template-layout :
    (l : Layout)
    → Lacks placeholder (layout_text l)
    → decode_template (layout_template l) (arguments l.pairs) ≡ some (layout_text l)
unfolding decode_template
decode_template-layout l h =
    let hp = Lacks-append_left b'<' _ l.lead (pairs_text l.pairs) h in
    let hq =
      literals-Lacks l.pairs (Lacks-append_right placeholder l.lead (pairs_text l.pairs) h) in
    decode_parts (layout_template l) (split-with_placeholders l.lead (literals l.pairs) hp hq)
  where
    decode_parts :
        (t : Bytes)
        → split t placeholder ≡ l.lead ∷ literals l.pairs
        → decode_template t (arguments l.pairs) ≡ some (layout_text l)
    decode_parts t e =
        rw (e, decode_template)
          (ground (arith, length-arguments l.pairs, interleave-pairs l.lead l.pairs))

-- A text with no placeholder in it is a template of one part.
pub decode_template-literal :
    (msg : Bytes) → Lacks placeholder msg → decode_template msg [] ≡ some msg
unfolding with_placeholders
decode_template-literal msg h =
    let l : Layout = record { lead = msg; pairs = [] } in
    let e : msg ++ [] ≡ msg = append-nil msg in decode_template-layout l (rw e h) ∙ ap some e

-- The layout of a message and its mask.
abbrev pub layout_of : Bytes → Bytes → Layout
layout_of msg mask = layout (length msg) msg mask

-- On a mask of '0' and '1' as long as the message the code returns the template and the arguments
-- of the layout, with no error.
pub template_and_args_from_mask-layout :
    (msg mask : Bytes)
    → length msg ≡ length mask
    → IsMask mask
    → template_and_args_from_mask msg mask
      ≡ ok (layout_template (layout_of msg mask), arguments (layout_of msg mask).pairs)
unfolding template_and_args_from_mask
template_and_args_from_mask-layout msg mask e k =
    ground (arith, mask_args_loop-layout (length msg) msg mask [] [] (omega arith) k)

-- For a mask of '0' and '1' as long as the message, templateAndArgsFromMask succeeds and its
-- template and arguments decode to the message, if the message holds no placeholder text.
pub decode_template-mask :
    (msg mask : Bytes)
    → length msg ≡ length mask
    → IsMask mask
    → Lacks placeholder msg
    → (t : Bytes × List Bytes) × (template_and_args_from_mask msg mask ≡ ok t)
      × (decode_template t.0 t.1 ≡ some msg)
decode_template-mask msg mask e k h =
    let l = layout_of msg mask in
    let same_text : layout_text l ≡ msg =
      layout_text-layout (length msg) msg mask (omega arith) e in
    (
      (layout_template l, arguments l.pairs),
      template_and_args_from_mask-layout msg mask e k,
      decode_template-layout l (rw same_text h) ∙ ap some same_text,
    )
